-- ===== src/ErrorBuffer.antt =====
-- lib/lib/error_buffer.js: errors of an output are reported when they start, at most once in a delay
-- while they last, and when they end. The clock is read by the `error` handler: an event carries the
-- time that it reads.
pub mod Laws
use node_logstash.Prelude.{Bool, true, false, not, List, [], ◌∷◌, ◌++◌, ℕ, ◌+◌, ltb, if◌then◌else◌}

pub data Event : Type 0 where
  error : ℕ → Event
  fine : Event

pub record ErrorBuffer : Type 0 where
  pub on_error : Bool
  -- undefined before the first error
  pub last_check : ℕ

pub data Report : Type 0 where
  start_failing : ℕ → Report
  still_failing : ℕ → Report
  back_to_normal : Report

unfoldable pub init : ErrorBuffer
init = record { on_error = false; last_check = 0 }

-- A clock that went back gives a negative difference, which is not above the delay.
unfoldable pub on_event : ℕ → ErrorBuffer → Event → ErrorBuffer × List Report
on_event delay b (error now) =
    if not b.on_error
    then (record b { on_error = true; last_check = now }, start_failing now ∷ [])
    else if ltb (b.last_check + delay) now
    then (record b { last_check = now }, still_failing now ∷ [])
    else (b, [])
on_event delay b fine =
    if b.on_error then (record b { on_error = false }, back_to_normal ∷ []) else (b, [])

unfoldable pub run : ℕ → ErrorBuffer → List Event → ErrorBuffer × List Report
unfolding on_event
run delay b [] = (b, [])
run delay b (e ∷ es) =
    let (b', reports) = on_event delay b e in
    let (b'', later) = run delay b' es in (b'', reports ++ later)
