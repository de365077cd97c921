-- ===== src/Agent/Alarm/Laws.antt =====
-- Alarms with and without time for the inputs to close.
use node_logstash.Agent.Alarm.{Alarms, alarm, closed, started, step}
use node_logstash.Prelude.{
  ◌≡◌, refl, Bool, true, false, some, List, [], ◌∷◌, arith, ℕ, suc, ◌-◌, ◌≤◌, ◌<◌, ltb,
  if◌then◌else◌,
}

-- The ends of what a step began, where nothing comes between.
abbrev pub settle : Alarms → Alarms
settle a =
    if ltb 0 a.closing
    then (step a closed).0
    else if ltb 0 a.starting
    then (step a started).0
    else a

-- One alarm whose consequences end before the next.
pub settled_step : Alarms → Bool → Alarms
settled_step a mode = settle (step a (alarm mode)).0

pub settled_run : Alarms → List Bool → Alarms
settled_run a [] = a
settled_run a (m ∷ ms) = settled_run (settled_step a m) ms

-- No module lowers an alarm that was not raised.
abbrev pub IsBalanced : ℕ → List Bool → Type 0
IsBalanced active [] = Unit
IsBalanced active (true ∷ ms) = IsBalanced (suc active) ms
IsBalanced active (false ∷ ms) = (0 < active) × IsBalanced (active - 1) ms

-- Nothing is pending, and the inputs are closed exactly while an alarm is on.
pub record IsSettled (a : Alarms) : Type 0 where
  pub no_closing : a.closing ≡ 0
  pub no_starting : a.starting ≡ 0
  pub counted : a.lowered ≤ a.raised
  pub in_step : a.closed_inputs ≡ some (ltb a.lowered a.raised)

settled_step-IsSettled :
    (a : Alarms) (m : Bool)
    → (m ≡ false → a.lowered < a.raised)
    → IsSettled a
    → IsSettled (settled_step a m)
unfolding settled_step step
settled_step-IsSettled a true g h = ground arith
settled_step-IsSettled a false g h = ground (arith, g refl)

settled_step-count :
    (a : Alarms) (m : Bool)
    → ((settled_step a m).raised ≡ (if m then suc a.raised else a.raised))
      × ((settled_step a m).lowered ≡ (if m then a.lowered else suc a.lowered))
unfolding settled_step step
settled_step-count a true = ground arith
settled_step-count a false = ground arith

-- From running inputs with no alarm on, over every series of alarms in which none is lowered that
-- was not raised, and each of whose consequences ends before the next alarm: the inputs are closed
-- exactly when an alarm is on.
pub settled_run-IsSettled :
    (a : Alarms) (ms : List Bool)
    → IsSettled a
    → IsBalanced (a.raised - a.lowered) ms
    → IsSettled (settled_run a ms)
unfolding settled_run
settled_run-IsSettled a [] h b = h
settled_run-IsSettled a (true ∷ ms) h b =
    let (r, l) = settled_step-count a true in
    let e : suc a.raised - a.lowered ≡ suc (a.raised - a.lowered) = omega arith in
    settled_run-IsSettled (settled_step a true) ms (settled_step-IsSettled a true (λ x. cc) h)
      (rw (r, l, e) b)
settled_run-IsSettled a (false ∷ ms) h b =
    let (r, l) = settled_step-count a false in
    let e : a.raised - suc a.lowered ≡ a.raised - a.lowered - 1 = omega arith in
    settled_run-IsSettled (settled_step a false) ms
      (settled_step-IsSettled a false (λ x. omega (arith, b.0)) h) (rw (r, l, e) b.1)

-- An alarm that is lowered before the inputs have closed: the inputs then close all the same, no
-- alarm is on, and no start of the inputs is under way.
pub alarm_race :
    (a : Alarms)
    → IsSettled a
    → a.raised ≡ a.lowered
    → (let b = (step (step (step a (alarm true)).0 (alarm false)).0 closed).0 in
        (b.closed_inputs ≡ some true) × (b.raised ≡ b.lowered) × (b.closing ≡ 0) × (b.starting ≡ 0))
unfolding step
alarm_race a h e = ground arith
