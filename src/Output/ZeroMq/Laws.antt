-- ===== src/Output/ZeroMq/Laws.antt =====
-- The alarms of a zeromq output.
use node_logstash.Js.Number.{Number, nat, num_lt}
use node_logstash.Output.ZeroMq.{
  exceeds, falls_below, Config, Event, message, interval, Effect, send, alarm, is_above, is_below,
  check, process, step, run,
}
use node_logstash.Prelude.{
  ◌≡◌, refl, inl, inr, Bool, true, false, not, ◌&&◌, ◌||◌, Option, none, some, List, [], ◌∷◌, arith,
  ℕ, Bool-cases, Text,
}

-- The state after a list of alarms each of which changes it.
abbrev pub follow : Bool → List Effect → Option Bool
follow a [] = some a
follow a (send m ∷ es) = follow a es
follow true (alarm true ∷ es) = none
follow true (alarm false ∷ es) = follow false es
follow false (alarm true ∷ es) = follow true es
follow false (alarm false ∷ es) = none

abbrev pub sent : List Effect → List Text
sent [] = []
sent (send m ∷ es) = m ∷ sent es
sent (alarm b ∷ es) = sent es

abbrev pub messages_of : List Event → List Text
messages_of [] = []
messages_of (message m n ∷ es) = m ∷ messages_of es
messages_of (interval n ∷ es) = messages_of es

-- Whether a length of the queue is above the upper threshold, which counts only where both are given,
-- and whether it is below the lower one.
abbrev pub above : Option Number → Option Number → ℕ → Bool
above (some up) (some down) n = num_lt up (nat n)
above up down n = false

abbrev pub below : Option Number → ℕ → Bool
below (some down) n = num_lt (nat n) down
below none n = false

-- No check finds the queue below the lower threshold.
abbrev pub stays : Option Number → List Event → Bool
stays down [] = true
stays down (message m n ∷ es) = stays down es
stays down (interval n ∷ es) = not (below down n) && stays down es

-- A message finds the queue above the upper threshold, and no check behind it finds it below the lower.
abbrev pub raised : Config → List Event → Bool
raised c [] = false
raised c (message m n ∷ es) =
    (above c.zmq_threshold_up c.zmq_threshold_down n && stays c.zmq_threshold_down es)
    || raised c es
raised c (interval n ∷ es) = raised c es

is_above-above :
    (c : Config) (n : ℕ) → is_above c n ≡ above c.zmq_threshold_up c.zmq_threshold_down n
is_above-above c n = go c.zmq_threshold_up c.zmq_threshold_down
  where
    go : (up down : Option Number) → exceeds up down n ≡ above up down n
    go none down = refl
    go (some up) none = refl
    go (some up) (some down) = refl

is_below-below : (c : Config) (n : ℕ) → is_below c n ≡ below c.zmq_threshold_down n
is_below-below c n = go c.zmq_threshold_down
  where
    go : (down : Option Number) → falls_below down n ≡ below down n
    go none = refl
    go (some down) = refl

run_from :
    (c : Config) (a : Bool) (es : List Event)
    → (follow a (run c a es).1 ≡ some ((a && stays c.zmq_threshold_down es) || raised c es))
      × (sent (run c a es).1 ≡ messages_of es)
unfolding run step process check
run_from c true [] = (refl, refl)
run_from c false [] = (refl, refl)
run_from c true (message m n ∷ es) = ground (arith, run_from c true es, is_above-above c n)
run_from c false (message m n ∷ es) = elim (Bool-cases (is_above c n)) [
  | inl e ↦ ground (arith, run_from c true es, is_above-above c n)
  | inr e ↦ ground (arith, run_from c false es, is_above-above c n)
]
run_from c true (interval n ∷ es) = elim (Bool-cases (is_below c n)) [
  | inl e ↦ ground (arith, run_from c false es, is_below-below c n)
  | inr e ↦ ground (arith, run_from c true es, is_below-below c n)
]
run_from c false (interval n ∷ es) = ground (arith, run_from c false es)

-- Every alarm that a zeromq output emits is a change, the first one raises it, and after the last one
-- the alarm is on exactly if some message found the queue above the upper threshold, with both
-- thresholds given, and no check after it found it below the lower; every message is sent, in order.
pub run-raised :
    (c : Config) (es : List Event)
    → (follow false (run c false es).1 ≡ some (raised c es))
      × (sent (run c false es).1 ≡ messages_of es)
run-raised c es = run_from c false es
