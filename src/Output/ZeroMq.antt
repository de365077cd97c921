-- ===== src/Output/ZeroMq.antt =====
-- lib/outputs/abstract_zeromq.js: the alarm on the queue of the socket. A message comes formatted,
-- and with the length that the queue has once it is sent.
pub mod Laws
use node_logstash.Js.Number.{Number, nat, num_lt}
use node_logstash.Prelude.{
  Bool, true, false, not, ◌&&◌, Option, none, some, List, [], ◌∷◌, ◌++◌, ℕ, if◌then◌else◌, Text,
}

-- A threshold that is not configured is `none`; NaN is one that is no number.
pub record Config : Type 0 where
  pub zmq_threshold_up : Option Number
  pub zmq_threshold_down : Option Number

pub data Event : Type 0 where
  message : Text → ℕ → Event
  -- The function of the interval
  interval : ℕ → Event

pub data Effect : Type 0 where
  send : Text → Effect
  alarm : Bool → Effect

abbrev pub exceeds : Option Number → Option Number → ℕ → Bool
exceeds (some up) (some down) n = num_lt up (nat n)
exceeds up down n = false

abbrev pub falls_below : Option Number → ℕ → Bool
falls_below (some down) n = num_lt (nat n) down
falls_below none n = false

abbrev pub is_above : Config → ℕ → Bool
is_above c n = exceeds c.zmq_threshold_up c.zmq_threshold_down n

abbrev pub is_below : Config → ℕ → Bool
is_below c n = falls_below c.zmq_threshold_down n

-- `on_alarm` is the whole state.
unfoldable pub check : Config → ℕ → Bool → Bool × List Effect
check c n on_alarm = if on_alarm && is_below c n then (false, alarm false ∷ []) else (on_alarm, [])

unfoldable pub process : Config → Text → ℕ → Bool → Bool × List Effect
process c m n on_alarm =
    if not on_alarm && is_above c n
    then (true, send m ∷ alarm true ∷ [])
    else (on_alarm, send m ∷ [])

unfoldable pub step : Config → Bool → Event → Bool × List Effect
unfolding process check
step c on_alarm (message m n) = process c m n on_alarm
step c on_alarm (interval n) = check c n on_alarm

unfoldable pub run : Config → Bool → List Event → Bool × List Effect
unfolding step
run c on_alarm [] = (on_alarm, [])
run c on_alarm (e ∷ es) =
    let (a, effects) = step c on_alarm e in let (b, later) = run c a es in (b, effects ++ later)
