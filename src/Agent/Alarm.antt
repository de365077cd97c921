-- ===== src/Agent/Alarm.antt =====
-- The `alarm` and SIGUSR1 handlers of lib/agent.js. `close_inputs` and `start_inputs` end later:
-- their successful ends are events of their own.
pub mod Laws
use node_logstash.Prelude.{
  Bool, true, false, not, ◌&&◌, Option, none, some, List, [], ◌∷◌, ℕ, ◌+◌, ◌-◌, ◌==◌, if◌then◌else◌,
}

pub record Alarms : Type 0 where
  -- `alarm_count` is `raised - lowered`; both only grow.
  pub raised : ℕ
  pub lowered : ℕ
  -- `closed_inputs`, undefined before the inputs are started
  pub closed_inputs : Option Bool
  -- The calls of `close_inputs` and of `start_inputs` that have not ended.
  pub closing : ℕ
  pub starting : ℕ

pub data Event : Type 0 where
  alarm : Bool → Event
  sigusr1 : Event
  closed : Event
  started : Event

unfoldable pub initial : Alarms
initial = record { raised = 0; lowered = 0; closed_inputs = none; closing = 0; starting = 0 }

-- `closed_inputs === b`
abbrev pub is_closed : Option Bool → Bool → Bool
is_closed none b = false
is_closed (some true) b = b
is_closed (some false) b = not b

abbrev close_inputs : Alarms → Alarms
close_inputs a = record a { closing = a.closing + 1 }

abbrev start_inputs : Alarms → Alarms
start_inputs a = record a { starting = a.starting + 1 }

-- The new state, and the `alarm_mode` events that are emitted.
unfoldable pub step : Alarms → Event → Alarms × List Bool
step a (alarm true) =
    let a' = record a { raised = a.raised + 1 } in
    if is_closed a.closed_inputs false then (close_inputs a', true ∷ []) else (a', [])
step a (alarm false) =
    let a' = record a { lowered = a.lowered + 1 } in
    if a.raised == a.lowered + 1 && is_closed a.closed_inputs true
    then (start_inputs a', false ∷ [])
    else (a', [])
step a sigusr1 = (if is_closed a.closed_inputs true then start_inputs a else close_inputs a, [])
step a closed = (record a { closing = a.closing - 1; closed_inputs = some true }, [])
step a started = (record a { starting = a.starting - 1; closed_inputs = some false }, [])
