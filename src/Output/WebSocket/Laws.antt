-- ===== src/Output/WebSocket/Laws.antt =====
-- What a websocket output sends, and how often it connects.
use node_logstash.Output.WebSocket.{
  WebSocket, started, Event, arrived, opened, disconnected, failed, not_sent, close, Effect,
  connect, send, close_socket, buffer_ok, buffer_error, send_all, lost, step, run,
}
use node_logstash.Prelude.{
  ◌≡◌, refl, sym, ap, ap₂, ◌∙◌, inl, inr, Bool, true, false, List, [], ◌∷◌, ◌++◌, append-nil,
  append_assoc, arith, ℕ, suc, ◌+◌, ◌*◌, Bool-cases, length,
}

module _ {A : Type 0} where
  abbrev pub sent : List (Effect A) → List A
  sent [] = []
  sent (connect i ∷ es) = sent es
  sent (send i a ∷ es) = a ∷ sent es
  sent (close_socket i ∷ es) = sent es
  sent (buffer_ok ∷ es) = sent es
  sent (buffer_error ∷ es) = sent es

  abbrev pub messages : List (Event A) → List A
  messages [] = []
  messages (arrived a ∷ es) = a ∷ messages es
  messages (opened i ∷ es) = messages es
  messages (disconnected i ∷ es) = messages es
  messages (failed i ∷ es) = messages es
  messages (not_sent ∷ es) = messages es
  messages (close ∷ es) = messages es

  -- The sockets that are made.
  abbrev pub sockets : List (Effect A) → ℕ
  sockets [] = 0
  sockets (connect i ∷ es) = suc (sockets es)
  sockets (send i a ∷ es) = sockets es
  sockets (close_socket i ∷ es) = sockets es
  sockets (buffer_ok ∷ es) = sockets es
  sockets (buffer_error ∷ es) = sockets es

  sent-append : (a b : List (Effect A)) → sent (a ++ b) ≡ sent a ++ sent b
  sent-append [] b = refl
  sent-append (connect i ∷ a) b = sent-append a b
  sent-append (send i x ∷ a) b = ap (λ l. x ∷ l) (sent-append a b)
  sent-append (close_socket i ∷ a) b = sent-append a b
  sent-append (buffer_ok ∷ a) b = sent-append a b
  sent-append (buffer_error ∷ a) b = sent-append a b

  sent-send_all : (ws : ℕ) (l : List A) → sent (send_all ws l) ≡ l
  unfolding send_all
  sent-send_all ws [] = refl
  sent-send_all ws (a ∷ l) = ap (λ r. a ∷ r) (sent-send_all ws l)

  -- Nothing waits while a socket is open.
  pub record IsFlushed (s : WebSocket A) : Type 0 where
    pub flushed : s.is_open ≡ true → s.pending ≡ []

  lost-IsFlushed : (s : WebSocket A) → IsFlushed (lost s).0
  lost-IsFlushed s = elim (Bool-cases s.closed) [
    | inl e ↦ rw e (record { flushed = λ h. ground (arith, h) })
    | inr e ↦ rw e (record { flushed = λ h. ground (arith, h) })
  ]

  lost-sent : (s : WebSocket A) → (sent (lost s).1 ≡ []) × ((lost s).0.pending ≡ s.pending)
  lost-sent s = ground arith

  step-IsFlushed : (s : WebSocket A) (e : Event A) → IsFlushed s → IsFlushed (step s e).0
  unfolding step
  step-IsFlushed s (arrived a) v = elim (Bool-cases s.is_open) [
    | inl e ↦ rw e (record { flushed = λ h. v.flushed e })
    | inr e ↦ rw e (record { flushed = λ h. ground (arith, e, h) })
  ]
  step-IsFlushed s (opened i) v = record { flushed = λ h. refl }
  step-IsFlushed s (disconnected i) v = lost-IsFlushed s
  step-IsFlushed s (failed i) v = lost-IsFlushed s
  step-IsFlushed s not_sent v = v
  step-IsFlushed s close v = record { flushed = v.flushed }

  step-lost : (s : WebSocket A) → sent (lost s).1 ++ (lost s).0.pending ≡ s.pending ++ []
  step-lost s = ap₂ (λ a b. a ++ b) (lost-sent s).0 (lost-sent s).1 ∙ sym (append-nil s.pending)

  -- What a step sends, and what waits behind it.
  step-messages :
      (s : WebSocket A) (e : Event A)
      → IsFlushed s
      → sent (step s e).1 ++ (step s e).0.pending ≡ s.pending ++ messages (e ∷ [])
  unfolding step
  step-messages s (arrived a) v = elim (Bool-cases s.is_open) [
    | inl e ↦ rw (e, v.flushed e) refl
    | inr e ↦ rw e refl
  ]
  step-messages s (opened i) v = ap (λ l. l ++ []) (sent-send_all s.ws s.pending)
  step-messages s (disconnected i) v = step-lost s
  step-messages s (failed i) v = step-lost s
  step-messages s not_sent v = sym (append-nil s.pending)
  step-messages s close v = sym (append-nil s.pending)

  messages-cons :
      (e : Event A) (es : List (Event A)) → messages (e ∷ es) ≡ messages (e ∷ []) ++ messages es
  messages-cons (arrived a) es = refl
  messages-cons (opened i) es = refl
  messages-cons (disconnected i) es = refl
  messages-cons (failed i) es = refl
  messages-cons not_sent es = refl
  messages-cons close es = refl

  run-pending :
      (s : WebSocket A) (es : List (Event A))
      → IsFlushed s
      → sent (run s es).1 ++ (run s es).0.pending ≡ s.pending ++ messages es
  unfolding run
  run-pending s [] v = sym (append-nil s.pending)
  run-pending s (e ∷ es) v =
      let rest = run-pending (step s e).0 es (step-IsFlushed s e v) in
      let later = (run (step s e).0 es).1 in
      let waits = (run (step s e).0 es).0.pending in
      ap (λ l. l ++ waits) (sent-append (step s e).1 later)
      ∙ append_assoc (sent (step s e).1) (sent later) waits
      ∙ ap (λ l. sent (step s e).1 ++ l) rest
      ∙ sym (append_assoc (sent (step s e).1) (step s e).0.pending (messages es))
      ∙ ap (λ l. l ++ messages es) (step-messages s e v)
      ∙ append_assoc s.pending (messages (e ∷ [])) (messages es)
      ∙ ap (λ l. s.pending ++ l) (sym (messages-cons e es))

  -- However sockets open, fail and end, what a websocket output has given to a socket followed by what
  -- waits is all messages, once each and in order.
  pub run-messages :
      (es : List (Event A)) → sent (run started es).1 ++ (run started es).0.pending ≡ messages es
  unfolding started
  run-messages es = run-pending started es (record { flushed = λ h. refl })

  -- A socket that fails reports an error and then its end.
  abbrev pub fails : List ℕ → List (Event A)
  fails [] = []
  fails (i ∷ is) = failed i ∷ disconnected i ∷ fails is

  abbrev going_on : Bool → List A → ℕ → WebSocket A
  going_on b p n = record { is_open = b; closed = false; pending = p; ws = n }

  fails-sockets :
      (b : Bool) (p : List A) (n : ℕ) (is : List ℕ)
      → sockets (run (going_on b p n) (fails is)).1 ≡ 2 * length is
  unfolding run step
  fails-sockets b p n [] = refl
  fails-sockets b p n (i ∷ is) =
      let rest = fails-sockets false p (n + 1 + 1) is in ap (λ m. suc (suc m)) rest ∙ omega arith

  -- Every socket that fails before the output is closed is replaced by two, as the error and the end
  -- that follows it both connect.
  pub run-fails :
      (s : WebSocket A) (is : List ℕ)
      → s.closed ≡ false
      → sockets (run s (fails is)).1 ≡ 2 * length is
  run-fails s is h =
      let from : Bool → WebSocket A =
        λ c. record { is_open = s.is_open; closed = c; pending = s.pending; ws = s.ws } in
      ap (λ c. sockets (run (from c) (fails is)).1) h ∙ fails-sockets s.is_open s.pending s.ws is
