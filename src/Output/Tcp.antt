-- ===== src/Output/Tcp.antt =====
-- lib/outputs/abstract_tcp.js: the connection that all messages share. A connection is known by a
-- number; one that is being made holds the message that asked for it.
pub mod Laws
use node_logstash.Prelude.{
  Bool, true, false, Option, none, some, List, [], ◌∷◌, ◌++◌, ℕ, ◌+◌, ◌==◌, if◌then◌else◌, Text,
}

pub record Tcp : Type 0 where
  pub connection : Option ℕ
  pub in_progress : Bool
  -- The messages that wait for the event `connected`.
  pub waiting : List Text
  -- The connections that are being made, each with the message that its listener will write.
  pub pending : List (ℕ × Text)
  -- The number of the next connection.
  pub next : ℕ
  -- `closed_callback` is the one that `close` sets.
  pub closing : Bool

unfoldable pub initial : Tcp
initial = record {
  connection = none;
  in_progress = false;
  waiting = [];
  pending = [];
  next = 0;
  closing = false;
}

pub data Event : Type 0 where
  -- A message, formatted.
  message : Text → Event
  -- A connection is made, fails, or is closed.
  connected failed closed : ℕ → Event
  -- `close` of the output
  stop : Event

pub data Effect : Type 0 where
  connect : ℕ → Effect
  write : ℕ → Text → Effect
  end_connection : ℕ → Effect
  buffer_ok : Effect
  buffer_error : Effect
  stopped : Effect

-- `findConnection` with a callback that writes the message.
unfoldable pub send : Text → Tcp → Tcp × List Effect
send m t = elim t.connection [
  | some c ↦ (t, write c m ∷ [])
  | none ↦ if t.in_progress then (record t { waiting = t.waiting ++ m ∷ [] }, []) else (
    record t { in_progress = true; pending = (t.next, m) ∷ t.pending; next = t.next + 1 },
    connect t.next ∷ [],
  )
]

unfoldable pub held : ℕ → List (ℕ × Text) → Option Text
held c [] = none
held c ((d, m) ∷ l) = if d == c then some m else held c l

unfoldable pub drop_held : ℕ → List (ℕ × Text) → List (ℕ × Text)
drop_held c [] = []
drop_held c ((d, m) ∷ l) = if d == c then drop_held c l else (d, m) ∷ drop_held c l

abbrev write_all : ℕ → List Text → List Effect
write_all c [] = []
write_all c (m ∷ ms) = write c m ∷ write_all c ms

-- The listener of a new connection: its own message, then the event `connected`.
unfoldable pub on_connected : ℕ → Tcp → Tcp × List Effect
unfolding held drop_held
on_connected c t = elim (held c t.pending) [
  | none ↦ (t, [])
  | some m ↦ (
    record t {
      connection = some c;
      in_progress = false;
      waiting = [];
      pending = drop_held c t.pending;
    },
    buffer_ok ∷ write c m ∷ write_all c t.waiting,
  )
]

-- The handler of `close` on a connection; the listener of one that was never made is gone with it.
unfoldable pub on_closed : ℕ → Tcp → Tcp × List Effect
unfolding drop_held
on_closed c t = (
  record t { connection = none; in_progress = false; pending = drop_held c t.pending },
  if t.closing then stopped ∷ [] else [],
)

-- `close` of the output.
unfoldable pub on_stop : Tcp → Tcp × List Effect
on_stop t = elim t.connection [
  | some c ↦ (record t { closing = true }, end_connection c ∷ [])
  | none ↦ (t, stopped ∷ [])
]

unfoldable pub step : Tcp → Event → Tcp × List Effect
unfolding send on_connected on_closed on_stop
step t (message m) = send m t
step t (connected c) = on_connected c t
step t (failed c) = (t, buffer_error ∷ [])
step t (closed c) = on_closed c t
step t stop = on_stop t

unfoldable pub run : Tcp → List Event → Tcp × List Effect
unfolding step
run t [] = (t, [])
run t (e ∷ es) =
    let (t', effects) = step t e in let (t'', later) = run t' es in (t'', effects ++ later)
