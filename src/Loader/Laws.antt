-- ===== src/Loader/Laws.antt =====
-- What is loaded.
use node_logstash.Js.Value.{Value, Error, Result, Result-cases, ok}
use node_logstash.Js.Convert.{Engine}
use node_logstash.Js.Trim.{trim, starts_calm, ends_calm, trim_lem, trim_ne}
use node_logstash.Input.Serial.Laws.{split-join}
use node_logstash.Mapper.{Config, Writers}
use node_logstash.Loader.Order.{sort, sort-Perm}
use node_logstash.Loader.Urls.{is_url, has_urls-join}
use node_logstash.Loader.{
  Disk, has_urls, is_kept, keep_lines, filter, load_file, load_files, load_directory, load_from,
  load, found,
}
use mathlib.Core.List.{Perm}
use mathlib.Core.Option
use node_logstash.Prelude.{
  Lacks, ◌≡◌, refl, ap, ◌∙◌, inl, inr, Bool, true, false, not, ◌||◌, Option, none, some, List, [],
  ◌∷◌, ◌++◌, arith, if◌then◌else◌, Bool-cases, any, All, Text, ◌===◌, join,
}

-- A line that stands for itself: it is not empty, begins and ends without white space, and is no
-- comment and on one line.
pub record IsLine (s : Text) : Type 0 where
  pub kept : is_kept s ≡ true
  pub starts : starts_calm s ≡ true
  pub ends : ends_calm s ≡ true
  pub one_line : Lacks b'\n' s

keep_lines_lem : (ls : List Text) → All IsLine ls → keep_lines ls ≡ ls
unfolding keep_lines
keep_lines_lem [] h = refl
keep_lines_lem (l ∷ ls) h =
    rw (trim_lem l h.0.starts h.0.ends, h.0.kept) (ap (λ r. l ∷ r) (keep_lines_lem ls h.1))

lack : (ls : List Text) → All IsLine ls → All (Lacks b'\n') ls
lack [] h = tt
lack (l ∷ ls) h = (h.0.one_line, lack ls h.1)

join-trim :
    (l : Text) (ls : List Text) → IsLine l → (trim (join (b'\n' ∷ []) (l ∷ ls)) === []) ≡ false
join-trim [] ls h = absurd (ground (arith, h.kept))
join-trim (c ∷ l) [] h = trim_ne c l (ground (arith, h.starts))
join-trim (c ∷ l) (k ∷ ls) h = trim_ne c _ (ground (arith, h.starts))

module _ (js : Engine) (w : Writers) (parse : Text → Result Config)
    (error_text : Error → Text) where
  -- Urls that are written one on a line are read back, all and in order, where none is empty, a
  -- comment, or has white space at an end; where the syntax of logstash is processed too, one of
  -- them has to begin with input://, output:// or filter://.
  pub filter-join :
      (processing : Bool) (l : Text) (ls : List Text)
      → All IsLine (l ∷ ls)
      → (not processing || any is_url (l ∷ ls)) ≡ true
      → filter js w parse error_text processing (join (b'\n' ∷ []) (l ∷ ls)) ≡ ok (l ∷ ls)
  unfolding filter
  filter-join processing l ls h u =
      let as_urls : (not processing || has_urls (join (b'\n' ∷ []) (l ∷ ls))) ≡ true =
        accepted processing u in
      rw (join-trim l ls h.0, as_urls, split-join b'\n' l ls (lack (l ∷ ls) h))
        (ap ok (keep_lines_lem (l ∷ ls) h))
    where
      accepted :
          (b : Bool)
          → (not b || any is_url (l ∷ ls)) ≡ true
          → (not b || has_urls (join (b'\n' ∷ []) (l ∷ ls))) ≡ true
      accepted true e = has_urls-join l ls e
      accepted false e = refl

  load_files-agree :
      (d : Disk) (processing : Bool) (dir : Text) (f g : Text → Result (List Text))
      (fs result : List Text)
      → load_files js w parse error_text (record d { read_dir = f }) processing dir fs result
        ≡ load_files js w parse error_text (record d { read_dir = g }) processing dir fs result
  unfolding load_files load_file
  load_files-agree d processing dir f g [] result = refl
  load_files-agree d processing dir f g (x ∷ fs) result =
      elim (Result-cases (load_file js w parse error_text d processing (d.path_join dir x))) [
        | inl (ls, e) ↦ rw e (load_files-agree d processing dir f g fs (result ++ ls))
        | inr (t, e) ↦ rw e refl
      ]

  -- What a directory gives does not depend on the order in which its files are listed.
  pub load_directory-Perm :
      (d : Disk) (processing : Bool) (dir : Text) (k l : List Text)
      → Perm k l
      → load_directory js w parse error_text (record d { read_dir = λ n. ok k }) processing dir
        ≡ load_directory js w parse error_text (record d { read_dir = λ n. ok l }) processing dir
  unfolding load_directory
  load_directory-Perm d processing dir k l p =
      load_files-agree d processing dir (λ n. ok k) (λ n. ok l) (sort k) []
      ∙ ap
          (λ fs.
            load_files js w parse error_text (record d { read_dir = λ n. ok l }) processing dir fs
              [])
          (sort-Perm p)

module _ (parse_json : Text → Result Value) (error_text : Error → Text) where
  -- The file in a directory is missing, or it is read and parsed to a value.
  pub record IsReadable (d : Disk) (name : Text) (value : Text → Value) (dir : Text) : Type 0 where
    pub content : Text
    pub reads :
        d.exists (d.path_join dir name) ≡ true → d.read_file (d.path_join dir name) ≡ ok content
    pub parses : d.exists (d.path_join dir name) ≡ true → parse_json content ≡ ok (value dir)

  -- The last directory that has the file.
  abbrev pub last_with : Disk → Text → List Text → Option Text → Option Text
  last_with d name [] r = r
  last_with d name (dir ∷ dirs) r =
      last_with d name dirs (if d.exists (d.path_join dir name) then some dir else r)

  load_from-last :
      (d : Disk) (name : Text) (value : Text → Value) (dirs : List Text) (r : Option Text)
      → All (IsReadable d name value) dirs
      → load_from parse_json error_text d name dirs (Option.map value r)
        ≡ ok (Option.map value (last_with d name dirs r))
  unfolding load_from
  load_from-last d name value [] r h = refl
  load_from-last d name value (dir ∷ dirs) r h =
      elim (Bool-cases (d.exists (d.path_join dir name))) [
        | inr e ↦ rw e (load_from-last d name value dirs r h.1)
        | inl e ↦
            rw (e, h.0.reads e, h.0.parses e) (load_from-last d name value dirs (some dir) h.1)
      ]

  -- Where every pattern file of a name can be read and parsed, `load` gives the one in the last
  -- directory that has it, and an error where none has it.
  load-last :
      (d : Disk) (name : Text) (value : Text → Value) (dirs : List Text)
      → All (IsReadable d name value) dirs
      → load parse_json error_text d dirs name
        ≡ found parse_json error_text name (Option.map value (last_with d name dirs none))
  unfolding load
  load-last d name value dirs h = rw (load_from-last d name value dirs none h) refl
