-- ===== src/Tests/Files.antt =====
-- The loading of configuration files and the watching of directories on concrete inputs.
use mathlib.Core.List.Perm
use node_logstash.Js.Value.{Value, num, Error, Result, ok, throw, syntax_error}
use node_logstash.Js.Number.{nat}
use node_logstash.Mapper.{Config, Writers}
use node_logstash.Loader.{Disk, filter, load_directory}
use node_logstash.Loader.Laws.{IsLine, filter-join, load_directory-Perm, IsReadable}
use node_logstash.Watcher.{Registration, register, unregister, no_watcher, unless_empty, run}
use node_logstash.Watcher.Listeners.{ids, note_all}
use node_logstash.Watcher.Laws.{opens, closes, watchers_of, nobody, run-lasting}
use node_logstash.Tests.{plain}
use node_logstash.Prelude.{
  ◌≡◌, refl, true, false, List, [], ◌∷◌, ◌++◌, arith, ◌+◌, All, Text, codes, ◌===◌, join,
}

abbrev writers : Writers
writers = record { stringify_query = λ d. codes "q"; stringify_eval = λ e. codes "e" }

abbrev no_syntax : Text → Result Config
no_syntax s = throw syntax_error

abbrev no_text : Error → Text
no_text e = []

-- Every directory has the files b and a; the pattern file p is only in y.
abbrev disk : Disk
disk = record {
  read_file = λ f. ok f;
  read_dir = λ d. ok (codes "b" ∷ codes "a" ∷ []);
  exists = λ f. f === codes "y/p";
  path_join = λ d f. d ++ (codes "/" ++ f);
}

abbrev stdin : Text
stdin = codes "input://stdin://"

abbrev stdout : Text
stdout = codes "output://stdout://"

abbrev two_lines : All IsLine (stdin ∷ stdout ∷ [])
two_lines = (
  record { kept = refl; starts = refl; ends = refl; one_line = ground arith },
  (record { kept = refl; starts = refl; ends = refl; one_line = ground arith }, tt),
)

filter-join_example :
    filter plain writers no_syntax no_text true (join (b'\n' ∷ []) (stdin ∷ stdout ∷ []))
    ≡ ok (stdin ∷ stdout ∷ [])
filter-join_example =
    filter-join plain writers no_syntax no_text true stdin (stdout ∷ []) two_lines refl

load_directory-Perm_example :
    load_directory plain writers no_syntax no_text
      (record disk { read_dir = λ n. ok (codes "b" ∷ codes "a" ∷ []) })
      false
      (codes "x")
    ≡ load_directory plain writers no_syntax no_text
        (record disk { read_dir = λ n. ok (codes "a" ∷ codes "b" ∷ []) })
        false
        (codes "x")
load_directory-Perm_example =
    load_directory-Perm plain writers no_syntax no_text disk false (codes "x")
      (codes "b" ∷ codes "a" ∷ []) (codes "a" ∷ codes "b" ∷ [])
      (Perm.swap (codes "a") (codes "b") [])

abbrev a_number : Text → Result Value
a_number s = ok (num (nat 1))

abbrev one_number : Text → Value
one_number d = num (nat 1)

abbrev readable : (dir : Text) → IsReadable a_number no_text disk (codes "p") one_number dir
readable dir = record {
  content = dir ++ (codes "/" ++ codes "p");
  reads = λ e. refl;
  parses = λ e. refl;
}

abbrev requests : List Registration
requests =
    register (codes "d")
    ∷ register (codes "d")
    ∷ unregister (record { dir = codes "d"; callback = 0 })
    ∷ []

run-lasting_example :
    ((run (λ d. d) no_watcher requests).0.current (codes "d")
      ≡ unless_empty (ids (codes "d") (note_all (λ d. d) nobody requests).lasting))
    × (opens (codes "d") (run (λ d. d) no_watcher requests).1
        ≡ closes (codes "d") (run (λ d. d) no_watcher requests).1
          + watchers_of (ids (codes "d") (note_all (λ d. d) nobody requests).lasting))
run-lasting_example = run-lasting (λ d. d) (codes "d") requests
