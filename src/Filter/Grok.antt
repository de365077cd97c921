-- ===== src/Filter/Grok.antt =====
-- lib/filters/filter_grok.js: the reading of pattern files, the loading of the global patterns, the
-- expansion of a pattern, and `process`. The regular expression that is searched, and the files, are
-- parameters.
pub mod Expand
pub mod Uncapture
pub mod Steps
pub mod Laws
pub mod Start
use node_logstash.Js.Value.{Error}
use node_logstash.Js.Trim.{trim}
use node_logstash.Prelude.{
  Bool, true, false, not, ◌&&◌, Option, none, some, List, [], ◌∷◌, ◌++◌, ℕ, ◌+◌, ltb, ◌==◌,
  if◌then◌else◌, length, take, drop, Text, codes, ◌===◌, starts_with, index_of,
}

-- `replace(/\((?!\?)/g, '(?:')`
unfoldable pub uncapture : Text → Text
uncapture [] = []
uncapture (c ∷ s) =
    if c == b'(' && not (starts_with (codes "?") s)
    then codes "(?:" ++ uncapture s
    else c ∷ uncapture s

-- An object of patterns, by name, in which the last of one name counts.
abbrev pub Patterns : Type 0
Patterns = List (Text × Text)

unfoldable pub pattern_of : Text → Patterns → Option Text
pattern_of name [] = none
pattern_of name ((n, p) ∷ ps) = if n === name then some p else pattern_of name ps

unfoldable pub put_pattern : Text → Text → Patterns → Patterns
put_pattern name p [] = (name, p) ∷ []
put_pattern name p ((n, q) ∷ ps) =
    let rest = put_pattern name p ps in if n === name then (n, p) ∷ ps else (n, q) ∷ rest

-- A line of a pattern file, added to the patterns before it.
unfoldable pub process_line : Text → Patterns → Patterns
unfolding put_pattern trim uncapture
process_line line ps = elim (index_of (codes " ") line) [
  | none ↦ ps
  | some i ↦ put_pattern (take i line) (uncapture (trim (drop (i + 1) line))) ps
]

unfoldable pub process_from : Patterns → List Text → Patterns
unfolding process_line
process_from ps [] = ps
process_from ps (l ∷ ls) = process_from (process_line l ps) ls

unfoldable pub process_lines : List Text → Patterns
unfolding process_from
process_lines ls = process_from [] ls

-- The variables of the module that all grok filters share; a callback is known by a number.
-- `setImmediate` puts a callback behind those that wait already, with what it will be given.
pub record Loader : Type 0 where
  pub onload_callbacks : List ℕ
  pub loaded : Bool
  pub global_patterns : Option Patterns
  pub immediates : List (ℕ × Option Error)

unfoldable pub not_loaded : Loader
not_loaded = record {
  onload_callbacks = [];
  loaded = false;
  global_patterns = none;
  immediates = [];
}

-- `loadPatterns` is called, `loadGrokPatterns` answers with an error or the lines, and the engine runs
-- the first function of `setImmediate` that waits.
pub data Event : Type 0 where
  requested : ℕ → Event
  failed : Error → Event
  read : List Text → Event
  immediate : Event

-- A call of `loadGrokPatterns`, and of a callback, at once or by `setImmediate`.
pub data Effect : Type 0 where
  load : Effect
  call : ℕ → Effect
  call_later : ℕ → Option Error → Effect

abbrev pub later : List ℕ → Option Error → List (ℕ × Option Error)
later [] err = []
later (k ∷ ks) err = (k, err) ∷ later ks err

-- `_leave`
unfoldable pub leave : Option Error → Loader → Loader
leave err l = record l {
  onload_callbacks = [];
  loaded = true;
  immediates = l.immediates ++ later l.onload_callbacks err;
}

unfoldable pub load_patterns : ℕ → Loader → Loader × List Effect
load_patterns k l = if l.loaded then (l, call k ∷ []) else (
  record l { onload_callbacks = l.onload_callbacks ++ k ∷ [] },
  if ltb 1 (length (l.onload_callbacks ++ k ∷ [])) then [] else load ∷ [],
)

unfoldable pub run_immediate : Loader → Loader × List Effect
run_immediate l = elim l.immediates [
  | [] ↦ (l, [])
  | (k, err) ∷ rest ↦ (record l { immediates = rest }, call_later k err ∷ [])
]

unfoldable pub step : Loader → Event → Loader × List Effect
unfolding leave load_patterns process_lines run_immediate
step l (requested k) = load_patterns k l
step l (failed e) = (leave (some e) l, [])
step l (read ls) = (leave none (record l { global_patterns = some (process_lines ls) }), [])
step l immediate = run_immediate l

unfoldable pub run : Loader → List Event → Loader × List Effect
unfolding step
run l [] = (l, [])
run l (e ∷ es) =
    let (l', effects) = step l e in let (l'', more) = run l' es in (l'', effects ++ more)
