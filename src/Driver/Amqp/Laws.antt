-- ===== src/Driver/Amqp/Laws.antt =====
-- What the AMQP driver has under way, and what it does after it is closed.
use node_logstash.Driver.Amqp.{
  Client, Effect, connect, set_timeout, set_lost_timeout, clear_timeout, create_channel,
  close_connection, connected_callback, disconnected_callback, closed_callback, try_connect,
  new_client, on_connect, on_close, on_channel, close, World, Event, answered, fired, lost_fired,
  disconnected, channel_made, closing_asked, close_effects, perform, step, run, started,
}
use node_logstash.Prelude.{
  ◌≡◌, refl, inl, inr, Bool, true, false, Option, none, some, List, [], ◌∷◌, ◌++◌, arith, ℕ, zero,
  suc, ◌+◌, ◌≤◌, Bool-cases, all,
}

abbrev pub under_way : World → ℕ
under_way w = w.connecting + w.timers + w.lost_timers + w.live

perform-close_effects : (o : Option ℕ) (w : World) → perform (close_effects o) w ≡ w
unfolding perform
perform-close_effects none w = refl
perform-close_effects (some c) w = refl

step-under_way : (w : World) (e : Event) → under_way w ≤ 1 → under_way (step w e).0 ≤ 1
unfolding step try_connect on_connect on_close on_channel close perform
step-under_way w (answered none) h = ground arith
step-under_way w (answered (some p)) h = ground arith
step-under_way w fired h = ground arith
step-under_way w lost_fired h = ground arith
step-under_way w disconnected h = ground arith
step-under_way w (channel_made none) h = ground arith
step-under_way w (channel_made (some ch)) h = ground arith
step-under_way w closing_asked h = elim (Bool-cases w.client.connect_timeout) [
  | inl e ↦ rw (e, perform-close_effects) omega arith
  | inr e ↦ rw (e, perform-close_effects) omega arith
]

run_from : (w : World) (es : List Event) → under_way w ≤ 1 → under_way (run w es).0 ≤ 1
unfolding run
run_from w [] h = h
run_from w (e ∷ es) h = run_from (step w e).0 es (step-under_way w e h)

-- Whatever happens, the driver has at most one thing under way: an attempt to connect, a timer for
-- the next attempt, or an open connection.
pub one_under_way : (es : List Event) → under_way (run started es).0 ≤ 1
unfolding started
one_under_way es = run_from started es (omega arith)

abbrev pub closes : List Effect → List ℕ
closes [] = []
closes (close_connection c ∷ es) = c ∷ closes es
closes (_ ∷ es) = closes es

abbrev pub connects : List Effect → ℕ
connects [] = 0
connects (connect ∷ es) = 1 + connects es
connects (_ ∷ es) = connects es

abbrev pub keeps_alive : Event → Bool
keeps_alive disconnected = false
keeps_alive e = true

-- A closed client with an open connection that it does not know.
record IsLeaked (w : World) : Type 0 where
  closing : w.client.closing ≡ true
  unknown : w.client.current_connection ≡ none
  connecting : w.connecting ≡ 0
  timers : w.timers ≡ 0
  lost_timers : w.lost_timers ≡ 0
  live : w.live ≡ 1

step-IsLeaked :
    (w : World) (e : Event)
    → keeps_alive e ≡ true
    → IsLeaked w
    → IsLeaked (step w e).0 × (closes (step w e).1 ≡ [])
unfolding step try_connect on_connect on_close on_channel close perform
step-IsLeaked w (answered r) k v = ground arith
step-IsLeaked w fired k v = ground arith
step-IsLeaked w lost_fired k v = ground arith
step-IsLeaked w disconnected k v = ground arith
step-IsLeaked w (channel_made none) k v = ground arith
step-IsLeaked w (channel_made (some ch)) k v = ground arith
step-IsLeaked w closing_asked k v = elim (Bool-cases w.client.connect_timeout) [
  | inl e ↦ ground (arith, v.unknown)
  | inr e ↦ ground (arith, v.unknown)
]

closes-append : (a b : List Effect) → closes (a ++ b) ≡ closes a ++ closes b
closes-append [] b = refl
closes-append (close_connection c ∷ a) b = rw (closes-append a b) refl
closes-append (connect ∷ a) b = closes-append a b
closes-append (set_timeout ∷ a) b = closes-append a b
closes-append (set_lost_timeout ∷ a) b = closes-append a b
closes-append (clear_timeout ∷ a) b = closes-append a b
closes-append (create_channel c ∷ a) b = closes-append a b
closes-append (connected_callback c ∷ a) b = closes-append a b
closes-append (disconnected_callback c ∷ a) b = closes-append a b
closes-append (closed_callback ∷ a) b = closes-append a b

run-IsLeaked :
    (w : World) (es : List Event)
    → all keeps_alive es ≡ true
    → IsLeaked w
    → IsLeaked (run w es).0 × (closes (run w es).1 ≡ [])
unfolding run
run-IsLeaked w [] k v = (v, refl)
run-IsLeaked w (e ∷ es) k v =
    let (v1, none1) = step-IsLeaked w e (ground arith) v in
    let (v2, none2) = run-IsLeaked (step w e).0 es (ground arith) v1 in
    (v2, rw (closes-append (step w e).1 (run (step w e).0 es).1, none1, none2) refl)

abbrev closed_client : Client
closed_client = record {
  current_connection = none;
  connect_timeout = false;
  channel = none;
  closing = true;
}

abbrev leaked : World
leaked = record { client = closed_client; connecting = 0; timers = 0; lost_timers = 0; live = 1 }

abbrev trying : World
trying = record { client = closed_client; connecting = 1; timers = 0; lost_timers = 0; live = 0 }

-- A connection that opens after the client was closed during the attempt is never closed by the
-- client: unless the peer disconnects it stays open.
closed_early-leak :
    (p : ℕ × ℕ) (es : List Event)
    → all keeps_alive es ≡ true
    → ((run started (closing_asked ∷ answered (some p) ∷ es)).0.live ≡ 1)
      × (closes (run started (closing_asked ∷ answered (some p) ∷ es)).1 ≡ [])
unfolding started new_client run step close perform on_connect try_connect
closed_early-leak p es k =
    let (v, none_closed) = run-IsLeaked leaked es k (record {
      closing = refl;
      unknown = refl;
      connecting = refl;
      timers = refl;
      lost_timers = refl;
      live = refl;
    }) in
    (v.live, none_closed)

-- Each attempt fails, and the timer for the next one fires.
abbrev pub retries : ℕ → List Event
retries zero = []
retries (suc n) = answered none ∷ fired ∷ retries n

run-retries : (n : ℕ) → connects (run trying (retries n)).1 ≡ n
unfolding run step perform on_connect try_connect
run-retries zero = refl
run-retries (suc n) = ground (arith, run-retries n)

-- A client that is closed while it tries to connect goes on: every attempt that fails is followed by
-- another one, as often as that happens.
closed_early-connects : (n : ℕ) → connects (run started (closing_asked ∷ retries n)).1 ≡ n
unfolding started new_client run step close perform on_connect try_connect
closed_early-connects n = run-retries n
