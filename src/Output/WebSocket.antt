-- ===== src/Output/WebSocket.antt =====
-- lib/outputs/output_ws.js: the messages that wait, and the callbacks of the sockets, which are numbered
-- in the order in which `connect` makes them. The payload comes serialised.
pub mod Laws
use node_logstash.Prelude.{Bool, true, false, List, [], ◌∷◌, ◌++◌, ℕ, ◌+◌, if◌then◌else◌}

pub record WebSocket {ℓ} (A : Type ℓ) : Type ℓ where
  pub is_open : Bool
  pub closed : Bool
  pub pending : List A
  -- `ws`, the last socket that was made
  pub ws : ℕ

pub data Event {ℓ} (A : Type ℓ) : Type ℓ where
  arrived : A → Event A
  -- The callbacks of a socket.
  opened : ℕ → Event A
  disconnected : ℕ → Event A
  failed : ℕ → Event A
  -- The callback of `send` with an error.
  not_sent : Event A
  close : Event A

pub data Effect {ℓ} (A : Type ℓ) : Type ℓ where
  connect : ℕ → Effect A
  send : ℕ → A → Effect A
  close_socket : ℕ → Effect A
  -- `emit` of the error buffer
  buffer_ok : Effect A
  buffer_error : Effect A

module _ {ℓ} {A : Type ℓ} where
  -- `startAbstract`
  unfoldable pub started : WebSocket A
  started = record { is_open = false; closed = false; pending = []; ws = 0 }

  unfoldable pub send_all : ℕ → List A → List (Effect A)
  send_all ws [] = []
  send_all ws (a ∷ l) = send ws a ∷ send_all ws l

  -- The end of a socket, which is answered by a new one.
  abbrev pub lost : WebSocket A → WebSocket A × List (Effect A)
  lost s =
      if s.closed
      then (record s { is_open = false }, [])
      else (record s { is_open = false; ws = s.ws + 1 }, buffer_error ∷ connect (s.ws + 1) ∷ [])

  unfoldable pub step : WebSocket A → Event A → WebSocket A × List (Effect A)
  unfolding send_all
  step s (arrived a) =
      if s.is_open then (s, send s.ws a ∷ []) else (record s { pending = s.pending ++ a ∷ [] }, [])
  step s (opened i) =
      (record s { is_open = true; pending = [] }, buffer_ok ∷ send_all s.ws s.pending)
  step s (disconnected i) = lost s
  step s (failed i) = lost s
  step s not_sent = (s, buffer_error ∷ [])
  step s close = (record s { closed = true }, close_socket s.ws ∷ [])

  unfoldable pub run : WebSocket A → List (Event A) → WebSocket A × List (Effect A)
  unfolding step
  run s [] = (s, [])
  run s (e ∷ es) =
      let (s', effects) = step s e in let (s'', later) = run s' es in (s'', effects ++ later)
