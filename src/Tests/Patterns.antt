-- ===== src/Tests/Patterns.antt =====
-- The grok filter and the cache on concrete inputs.
use node_logstash.Js.Value.{Result, ok}
use node_logstash.Filter.Cache.{Lru, IsLru, IsCoherent}
use node_logstash.Filter.Grok.{pattern_of, Patterns, Event, requested, read, not_loaded, run}
use node_logstash.Filter.Grok.Steps.{at_once, in_turn, loads, early, late, turns}
use node_logstash.Filter.Grok.Laws.{run-requests}
use node_logstash.Filter.Grok.Expand.{grok_find, expand, expand_loop}
use node_logstash.Filter.Grok.Expand.Parts.{print}
use node_logstash.Filter.Grok.Expand.Laws.{known, meaning, expand-meaning}
use node_logstash.Prelude.{
  ◌≡◌, refl, sym, inl, inr, false, Option, none, some, List, [], ◌∷◌, ◌++◌, arith, ◌≤◌,
  if◌then◌else◌, Bool-cases, Text, codes, ◌===◌, ===_iff,
}

abbrev callers : List Event
callers = requested 1 ∷ requested 2 ∷ read (codes "INT [0-9]+" ∷ []) ∷ requested 3 ∷ []

run-requests_example :
    (in_turn (run not_loaded (callers ++ turns 2)).1 ≡ early false callers)
    × (at_once (run not_loaded (callers ++ turns 2)).1 ≡ late false callers)
    × (loads (run not_loaded (callers ++ turns 2)).1 ≤ 1)
run-requests_example = run-requests callers 2 refl (omega arith)

abbrev patterns : Patterns
patterns = (codes "INT", codes "[0-9]+") ∷ (codes "WORD", codes "a") ∷ []

-- "id %{INT:id}: %{WORD}"
abbrev refs : List (Text × Text × Text)
refs = (codes "id ", codes "INT", codes "id") ∷ (codes ": ", codes "WORD", []) ∷ []

expand-meaning_example :
    expand patterns [] 2 (print refs (codes "."))
    ≡ meaning (known patterns []) (expand patterns [] 1) refs (codes ".")
unfolding pattern_of expand expand_loop grok_find
expand-meaning_example = expand-meaning patterns [] 1 refs (codes ".") (ground arith)

-- A cache that forgets everything but the last entry.
abbrev Last : Type 0
Last = Option (Text × Option Text)

abbrev kept : Last → Text → Option Text
kept none k = none
kept (some (j, v)) k = if j === k then v else none

abbrev last_only : Lru Text Text Last
last_only = record { get = λ c k. (c, kept c k); set = λ c k v. some (k, v) }

last_only-set :
    (k j : Text) (v : Option Text) {a : Text}
    → kept (some (k, v)) j ≡ some a
    → (j ≡ k) × (v ≡ some a)
last_only-set k j v h = elim (Bool-cases (k === j)) [
  | inl e ↦ (sym ((===_iff k j).0 e), ground (arith, e))
  | inr e ↦ absurd (ground (arith, e))
]

abbrev last_only_laws : IsLru last_only
last_only_laws = record {
  entry = kept;
  get_sound = λ c k h. h;
  get_keeps = λ c k j h. h;
  set_only = λ c k j v h. inl (last_only-set k j v h);
}

abbrev name_of : Text → Result (Option Text)
name_of k = ok (some (codes "host " ++ k))

kept-none : (k : Text) {a : Text} → kept none k ≡ some a → name_of k ≡ ok (some a)
kept-none k h = absurd (ground arith)

empty-IsCoherent : IsCoherent last_only name_of last_only_laws none
empty-IsCoherent = record { agrees = λ k h. kept-none k h }

abbrev addresses : List Text
addresses = codes "a" ∷ codes "a" ∷ codes "b" ∷ codes "a" ∷ []
