-- ===== src/Input/Redis/Laws.antt =====
-- How a redis input asks for data, and what it makes of them.
use node_logstash.Js.Value.{Value}
use node_logstash.Input.Serial.{Parsed}
use node_logstash.Input.Redis.{
  Emitted, Event, connected, popped, closed, Effect, blpop, emit, emits, taken, step, run,
}
use node_logstash.Prelude.{
  ◌≡◌, refl, sym, ap, ◌∙◌, Bool, true, false, Option, List, [], ◌∷◌, ◌++◌, append-nil, append_assoc,
  arith, ℕ, suc, ◌+◌, if◌then◌else◌, length, Text,
}

abbrev pub calls : List Effect → ℕ
calls [] = 0
calls (blpop ∷ es) = suc (calls es)
calls (emit m ∷ es) = calls es

abbrev pub emissions : List Effect → List Emitted
emissions [] = []
emissions (blpop ∷ es) = emissions es
emissions (emit m ∷ es) = m ∷ emissions es

-- The callbacks of `blpop`, and those of them before the input is closed.
abbrev pub answers : List (Option Text) → List Event
answers [] = []
answers (d ∷ ds) = popped d ∷ answers ds

calls-append : (a b : List Effect) → calls (a ++ b) ≡ calls a + calls b
calls-append [] b = omega arith
calls-append (blpop ∷ a) b = ground (arith, calls-append a b)
calls-append (emit m ∷ a) b = calls-append a b

emissions-append : (a b : List Effect) → emissions (a ++ b) ≡ emissions a ++ emissions b
emissions-append [] b = refl
emissions-append (blpop ∷ a) b = emissions-append a b
emissions-append (emit m ∷ a) b = ap (λ l. m ∷ l) (emissions-append a b)

calls-emits : (ms : List Emitted) → calls (emits ms) ≡ 0
calls-emits [] = refl
calls-emits (m ∷ ms) = calls-emits ms

emissions-emits : (ms : List Emitted) → emissions (emits ms) ≡ ms
emissions-emits [] = refl
emissions-emits (m ∷ ms) = ap (λ l. m ∷ l) (emissions-emits ms)

by_quitting :
    (quitting : Bool) (rest : List Effect)
    → 0 + calls (if quitting then [] else blpop ∷ []) + calls rest
      ≡ (if quitting then 0 else 1) + calls rest
by_quitting true rest = omega arith
by_quitting false rest = omega arith

nothing : (quitting : Bool) → emissions (if quitting then [] else blpop ∷ []) ≡ []
nothing true = refl
nothing false = refl

module _ (unserialize : Text → Parsed) (type : Value) where
  -- All that is taken from the queue.
  abbrev pub all_taken : List (Option Text) → List Emitted
  all_taken [] = []
  all_taken (d ∷ ds) = taken unserialize type d ++ all_taken ds

  one_answer :
      (quitting : Bool) (d : Option Text) (rest : List Effect)
      → (calls ((step unserialize type quitting (popped d)).1 ++ rest)
          ≡ (if quitting then 0 else 1) + calls rest)
        × (emissions ((step unserialize type quitting (popped d)).1 ++ rest)
            ≡ taken unserialize type d ++ emissions rest)
  unfolding step
  one_answer quitting d rest =
      let t = taken unserialize type d in
      let x = if quitting then [] else blpop ∷ [] in
      let c = calls-append (emits t ++ x) rest in
      let m = emissions-append (emits t ++ x) rest in
      (
        rw (c, calls-append (emits t) x, calls-emits t) (by_quitting quitting rest),
        rw (m, emissions-append (emits t) x, emissions-emits t)
            (ap (λ l. l ++ emissions rest) (ap (λ l. t ++ l) (nothing quitting) ∙ append-nil t)),
      )

  run-answers :
      (quitting : Bool) (ds : List (Option Text))
      → (calls (run unserialize type quitting (answers ds)).1 ≡ (if quitting then 0 else length ds))
        × (emissions (run unserialize type quitting (answers ds)).1 ≡ all_taken ds)
        × ((run unserialize type quitting (answers ds)).0 ≡ quitting)
  unfolding run step
  run-answers quitting [] = (ground arith, refl, refl)
  run-answers quitting (d ∷ ds) =
      let (c, m, q) = run-answers quitting ds in
      let (c', m') = one_answer quitting d (run unserialize type quitting (answers ds)).1 in
      (c' ∙ ground (arith, c), m' ∙ ap (λ l. taken unserialize type d ++ l) m, q)

  run-closed :
      (ds ds' : List (Option Text))
      → (calls (run unserialize type false (answers ds ++ (closed ∷ answers ds'))).1 ≡ length ds)
        × (emissions (run unserialize type false (answers ds ++ (closed ∷ answers ds'))).1
            ≡ all_taken ds ++ all_taken ds')
  unfolding run step
  run-closed [] ds' = ((run-answers true ds').0, (run-answers true ds').1)
  run-closed (d ∷ ds) ds' =
      let (c, m) = run-closed ds ds' in
      let (c', m') =
        one_answer false d (run unserialize type false (answers ds ++ (closed ∷ answers ds'))).1 in
      (
        c' ∙ ground (arith, c),
        m'
            ∙ ap (λ l. taken unserialize type d ++ l) m
            ∙ sym (append_assoc (taken unserialize type d) (all_taken ds) (all_taken ds')),
      )

  -- A redis input on a queue calls `blpop` once when it connects and once more in every callback until
  -- it is closed, so that at most one call is under way; what it emits is all that the calls gave, in
  -- order, also what comes after it was closed.
  pub run-all_taken :
      (ds ds' : List (Option Text))
      → (calls (run unserialize type false (connected ∷ answers ds ++ (closed ∷ answers ds'))).1
          ≡ suc (length ds))
        × (emissions
              (run unserialize type false (connected ∷ answers ds ++ (closed ∷ answers ds'))).1
            ≡ all_taken ds ++ all_taken ds')
  unfolding run step
  run-all_taken ds ds' = (ap suc (run-closed ds ds').0, (run-closed ds ds').1)
