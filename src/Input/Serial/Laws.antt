-- ===== src/Input/Serial/Laws.antt =====
-- Messages that are written as lines of JSON are read back.
use node_logstash.Js.Value.{Value, obj, Fields, truthy, Error, Result, ok, throw}
use node_logstash.Js.Object.{get}
use node_logstash.Component.Config.{split}
use node_logstash.Input.Serial.{unserialize_lines, unserialize_json}
use node_logstash.Prelude.{
  Lacks, ◌≡◌, refl, ap, ◌∙◌, Bool, true, false, List, [], ◌∷◌, ◌++◌, append-nil, arith, ℕ, ◌<◌,
  ==_refl, length, All, Text, codes, join,
}

-- Lines without the separator that are joined by it are split again.
split-Lacks : (c : ℕ) (s : Text) → Lacks c s → split c s ≡ s ∷ []
unfolding split
split-Lacks c [] h = refl
split-Lacks c (d ∷ s) h = rw (h.0, split-Lacks c s h.1) refl

split-append : (c : ℕ) (s t : Text) → Lacks c s → split c (s ++ (c ∷ t)) ≡ s ∷ split c t
unfolding split
split-append c [] t h = rw (==_refl c) refl
split-append c (d ∷ s) t h = rw (h.0, split-append c s t h.1) refl

pub split-join :
    (c : ℕ) (l : Text) (ls : List Text)
    → All (Lacks c) (l ∷ ls)
    → split c (join (c ∷ []) (l ∷ ls)) ≡ l ∷ ls
split-join c l [] h = split-Lacks c l h.0
split-join c l (k ∷ ls) h =
    split-append c l (join (c ∷ []) (k ∷ ls)) h.0 ∙ ap (λ x. l ∷ x) (split-join c k ls h.1)

module _ (parse : Text → Result Value) (stringify : Fields → Text) where
  -- A message with a timestamp that JSON writes on one line and reads back.
  pub record IsWritten (d : Fields) : Type 0 where
    pub read_back : parse (stringify d) ≡ ok (obj d)
    pub not_empty : 0 < length (stringify d)
    pub one_line : Lacks 10 (stringify d)
    pub has_timestamp : truthy (get (codes "@timestamp") d) ≡ true

  abbrev pub lines : List Fields → List Text
  lines [] = []
  lines (d ∷ ds) = stringify d ∷ lines ds

  abbrev pub values : List Fields → List Value
  values [] = []
  values (d ∷ ds) = obj d ∷ values ds

  read-line :
      (s : Text) (d : Fields) (ls : List Text) (read : Bool)
      → 0 < length s
      → parse s ≡ ok (obj d)
      → truthy (get (codes "@timestamp") d) ≡ true
      → unserialize_lines parse (s ∷ ls) read
        ≡ (obj d ∷ (unserialize_lines parse ls true).0, (unserialize_lines parse ls true).1)
  unfolding unserialize_lines
  read-line [] d ls read n p t = absurd (omega arith)
  read-line (c ∷ s) d ls read n p t = rw (unserialize_lines, p, t) refl

  lines-Lacks :
      (ds : List Fields) (rest : List Text)
      → All IsWritten ds
      → All (Lacks 10) rest
      → All (Lacks 10) (lines ds ++ rest)
  lines-Lacks [] rest v h = h
  lines-Lacks (d ∷ ds) rest v h = (v.0.one_line, lines-Lacks ds rest v.1 h)

  read-lines :
      (d : Fields) (ds : List Fields) (rest : List Text) (read : Bool)
      → All IsWritten (d ∷ ds)
      → unserialize_lines parse (lines (d ∷ ds) ++ rest) read ≡ (
        values (d ∷ ds) ++ (unserialize_lines parse rest true).0,
        (unserialize_lines parse rest true).1,
      )
  read-lines d [] rest read v =
      read-line (stringify d) d rest read v.0.not_empty v.0.read_back v.0.has_timestamp
  read-lines d (k ∷ ds) rest read v =
      read-line (stringify d) d (lines (k ∷ ds) ++ rest) read v.0.not_empty v.0.read_back
        v.0.has_timestamp
      ∙ ap (λ r. (obj d ∷ r.0, r.1)) (read-lines k ds rest true v.1)

  unserialize-lines :
      (d : Fields) (ds : List Fields) (rest : List Text)
      → All IsWritten (d ∷ ds)
      → All (Lacks 10) rest
      → unserialize_json parse (join (10 ∷ []) (lines (d ∷ ds) ++ rest)) ≡ (
        values (d ∷ ds) ++ (unserialize_lines parse rest true).0,
        (unserialize_lines parse rest true).1,
      )
  unfolding unserialize_json
  unserialize-lines d ds rest v h =
      ap (λ ls. unserialize_lines parse ls false)
        (split-join 10 (stringify d) (lines ds ++ rest) (lines-Lacks (d ∷ ds) rest v h))
      ∙ read-lines d ds rest false v

  -- Messages with a timestamp that JSON writes on one line each, and reads back, are all read from
  -- the lines that were written for them, in order, and no failure is reported.
  pub unserialize-join :
      (d : Fields) (ds : List Fields)
      → All IsWritten (d ∷ ds)
      → unserialize_json parse (join (10 ∷ []) (lines (d ∷ ds))) ≡ (values (d ∷ ds), false)
  unfolding unserialize_json unserialize_lines
  unserialize-join d ds v =
      let r = unserialize-lines d ds [] v tt in
      rw (← append-nil (lines ds), ← append-nil (values ds)) r

  read-bad :
      (bad : Text) {e : Error}
      → 0 < length bad
      → parse bad ≡ throw e
      → unserialize_lines parse (bad ∷ []) true ≡ ([], true)
  unfolding unserialize_lines
  read-bad [] n p = absurd (omega arith)
  read-bad (c ∷ bad) n p = rw (unserialize_lines, p) refl

  -- Where a line behind such messages is no JSON, the messages are delivered, and then a failure is
  -- reported for the data as a whole, so that they are delivered again in it.
  unserialize-bad_line :
      (d : Fields) (ds : List Fields) (bad : Text) {e : Error}
      → All IsWritten (d ∷ ds)
      → Lacks 10 bad
      → 0 < length bad
      → parse bad ≡ throw e
      → unserialize_json parse (join (10 ∷ []) (lines (d ∷ ds) ++ bad ∷ []))
        ≡ (values (d ∷ ds), true)
  unfolding unserialize_json unserialize_lines
  unserialize-bad_line d ds bad v l n p =
      let r = unserialize-lines d ds (bad ∷ []) v (l, tt) in
      let failed = read-bad bad n p in
      r
      ∙ ap (λ x. (values (d ∷ ds) ++ x.0, x.1)) failed
      ∙ ap (λ x. (x, true)) (append-nil (values (d ∷ ds)))
