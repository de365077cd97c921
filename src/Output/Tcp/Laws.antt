-- ===== src/Output/Tcp/Laws.antt =====
-- The messages that reach a connection.
use node_logstash.Output.Tcp.{
  Tcp, initial, Event, message, connected, failed, closed, stop, Effect, connect, write,
  end_connection, buffer_ok, buffer_error, stopped, step, run, write_all,
}
use node_logstash.Prelude.{
  ◌≡◌, refl, sym, ap, ◌∙◌, inl, inr, Bool, true, false, Option, none, some, List, [], ◌∷◌, ◌++◌,
  append-nil, append_assoc, arith, ℕ, suc, ◌==◌, Bool-cases, all, Text,
}

-- The messages that are written, in order.
pub written : List Effect → List Text
written [] = []
written (write c m ∷ es) = m ∷ written es
written (_ ∷ es) = written es

abbrev pub messages : List Text → List Event
messages [] = []
messages (m ∷ ms) = message m ∷ messages ms

written-write_all : (c : ℕ) (ms : List Text) → written (write_all c ms) ≡ ms
unfolding written
written-write_all c [] = refl
written-write_all c (m ∷ ms) = ap (λ l. m ∷ l) (written-write_all c ms)

written-append : (a b : List Effect) → written (a ++ b) ≡ written a ++ written b
unfolding written
written-append [] b = refl
written-append (write c m ∷ a) b = ap (λ l. m ∷ l) (written-append a b)
written-append (connect c ∷ a) b = written-append a b
written-append (end_connection c ∷ a) b = written-append a b
written-append (buffer_ok ∷ a) b = written-append a b
written-append (buffer_error ∷ a) b = written-append a b
written-append (stopped ∷ a) b = written-append a b

-- An event that closes nothing.
abbrev pub is_calm : Event → Bool
is_calm (closed c) = false
is_calm stop = false
is_calm e = true

abbrev pub messages_of : List Event → List Text
messages_of [] = []
messages_of (message m ∷ es) = m ∷ messages_of es
messages_of (_ ∷ es) = messages_of es

abbrev first_held : List (ℕ × Text) → List Text
first_held [] = []
first_held ((c, m) ∷ l) = m ∷ []

-- What is still to be written: the message that asked for the connection, and those that wait.
pub held_back : Tcp → List Text
held_back t = first_held t.pending ++ t.waiting

-- The states of an output whose connections have not failed.
data Calm : Option ℕ → Bool → List (ℕ × Text) → List Text → Type 0 where
  idle : Calm none false [] []
  connecting : {c : ℕ} {m : Text} {ws : List Text} → Calm none true ((c, m) ∷ []) ws
  up : {c : ℕ} → Calm (some c) false [] []

abbrev IsCalm : Tcp → Type 0
IsCalm t = Calm t.connection t.in_progress t.pending t.waiting

-- The state in which the connection `c` is being made for a message, and others wait.
abbrev connecting_with : ℕ → Text → List Text → Tcp
connecting_with c m ws = record {
  connection = none;
  in_progress = true;
  waiting = ws;
  pending = (c, m) ∷ [];
  next = suc c;
  closing = false;
}

-- A step from a state whose fields are known.
step-Calm :
    (o : Option ℕ) (b : Bool) (p : List (ℕ × Text)) (ws : List Text) (n : ℕ) (z : Bool) (e : Event)
    → Calm o b p ws
    → is_calm e ≡ true
    → (let t : Tcp = record {
      connection = o;
      in_progress = b;
      waiting = ws;
      pending = p;
      next = n;
      closing = z;
    } in
        IsCalm (step t e).0
        × (held_back t ++ messages_of (e ∷ []) ≡ written (step t e).1 ++ held_back (step t e).0))
unfolding step held_back written
step-Calm o b p ws n z (failed c) h k = (h, append-nil (first_held p ++ ws))
step-Calm o b p ws n z (message m) idle k = (connecting, refl)
step-Calm o b p ws n z (message m) (connecting {c} {m = x}) k = (connecting, refl)
step-Calm o b p ws n z (message m) (up {c}) k = (up, refl)
step-Calm o b p ws n z (connected d) idle k = (idle, refl)
step-Calm o b p ws n z (connected d) (connecting {c} {m = x}) k =
    let t : Tcp = record (connecting_with c x ws) { next = n; closing = z } in
    elim (Bool-cases (c == d)) [
      | inl e ↦
          let t' : Tcp = record t {
            connection = some d;
            in_progress = false;
            waiting = [];
            pending = [];
          } in
          let r : step t (connected d) ≡ (t', buffer_ok ∷ write d x ∷ write_all d ws) =
            ground arith in
          rw r (up, ap (λ l. x ∷ (l ++ [])) (sym (written-write_all d ws)))
      | inr e ↦
          let r : step t (connected d) ≡ (t, []) = ground arith in
          rw r (connecting, append-nil (x ∷ ws))
    ]
step-Calm o b p ws n z (connected d) (up {c}) k = (up, refl)
step-Calm o b p ws n z (closed c) h k = ground arith
step-Calm o b p ws n z stop h k = ground arith

messages_of-cons :
    (e : Event) (es : List Event) → messages_of (e ∷ es) ≡ messages_of (e ∷ []) ++ messages_of es
messages_of-cons (message m) es = refl
messages_of-cons (connected c) es = refl
messages_of-cons (failed c) es = refl
messages_of-cons (closed c) es = refl
messages_of-cons stop es = refl

run-Calm :
    (es : List Event) (t : Tcp)
    → IsCalm t
    → all is_calm es ≡ true
    → held_back t ++ messages_of es ≡ written (run t es).1 ++ held_back (run t es).0
unfolding run written
run-Calm [] t h k = append-nil (held_back t)
run-Calm (e ∷ es) t h k =
    let t1 = (step t e).0 in
    let (h1, same1) =
      step-Calm t.connection t.in_progress t.pending t.waiting t.next t.closing e h
        (ground arith) in
    let same2 = run-Calm es t1 h1 (ground arith) in
    rw (messages_of-cons e es, written-append (step t e).1 (run t1 es).1)
      (grind (arith, append_assoc))

-- As long as no connection is closed, over every series of messages, failures and connections that
-- are made: what was written, followed by what is held back for the connection, is all messages in
-- order.
pub run-messages_of :
    (es : List Event)
    → all is_calm es ≡ true
    → written (run initial es).1 ++ held_back (run initial es).0 ≡ messages_of es
unfolding initial held_back
run-messages_of es k = sym (run-Calm es initial idle k)

run_waiting :
    (c : ℕ) (m : Text) (ms ws : List Text) (es : List Event)
    → run (connecting_with c m ws) (messages ms ++ es) ≡ run (connecting_with c m (ws ++ ms)) es
unfolding run step
run_waiting c m [] ws es = rw append-nil
run_waiting c m (n ∷ ms) ws es =
    run_waiting c m ms (ws ++ n ∷ []) es
    ∙ ap (λ l. run (connecting_with c m l) es) (append_assoc ws (n ∷ []) ms)

-- A first connection that is closed before it is made: the message that asked for it is never
-- written, and those that waited for it are written after the message that asks for the next one.
run-lost :
    (m next : Text) (ms : List Text)
    → written
        (run initial (message m ∷ (messages ms ++ closed 0 ∷ message next ∷ connected 1 ∷ []))).1
      ≡ next ∷ ms
unfolding run step initial written
run-lost m next ms =
    let rest = closed 0 ∷ message next ∷ connected 1 ∷ [] in
    ap (λ r. written r.1) (run_waiting 0 m ms [] rest)
    ∙ ap (λ l. next ∷ l)
        (written-append (write_all 1 ms) [] ∙ (append-nil _ ∙ written-write_all 1 ms))
