-- ===== src/Output/File/Laws.antt =====
-- The lines that a file writer is given, and those that it gives to its stream.
use node_logstash.Js.Value.{ok}
use node_logstash.Output.File.{
  FileWriter, new_writer, Event, path_failed, path_created, opened, stream_failed, retry,
  idle_check, write, end, Effect, create_stream, stream_write, stream_end, emit_error,
  start_timeout, start_interval, forget, close, writes, is_idle, step, run,
}
use node_logstash.Prelude.{
  ◌≡◌, refl, sym, ap, inl, inr, Bool, true, false, ◌||◌, Option, none, some, List, [], ◌∷◌, ◌++◌,
  append-nil, append_assoc, arith, ℕ, ◌+◌, ◌≤◌, ltb, Bool-cases, Text,
}

-- The lines given to the stream.
pub streamed : List Effect → List Text
streamed [] = []
streamed (stream_write b ∷ es) = b ∷ streamed es
streamed (_ ∷ es) = streamed es

abbrev pub waiting : Option (List Text) → List Text
waiting none = []
waiting (some queue) = queue

abbrev fails : Event → Bool
fails path_failed = true
fails stream_failed = true
fails e = false

abbrev line : Bool → Event → List Text
line false (write now b) = b ∷ []
line on_error e = []

-- The lines that are written before the first error, or none after one.
pub accepted : Bool → List Event → List Text
accepted on_error [] = []
accepted on_error (e ∷ es) = line on_error e ++ accepted (on_error || fails e) es

abbrev opens_one : Event → ℕ
opens_one opened = 1
opens_one e = 0

-- How often the stream reports that it is open.
abbrev pub opens : List Event → ℕ
opens [] = 0
opens (e ∷ es) = opens_one e + opens es

-- The queue is there as long as the stream is not.
IsWriter : Bool → Option (List Text) → Type 0
IsWriter true q = q ≡ none
IsWriter false q = (queue : List Text) × (q ≡ some queue)

abbrev left : Bool → ℕ
left true = 0
left false = 1

streamed-writes : (bs : List Text) → streamed (writes bs) ≡ bs
unfolding streamed
streamed-writes [] = refl
streamed-writes (b ∷ bs) = ap (λ l. b ∷ l) (streamed-writes bs)

streamed-append : (a b : List Effect) → streamed (a ++ b) ≡ streamed a ++ streamed b
unfolding streamed
streamed-append [] b = refl
streamed-append (stream_write t ∷ a) b = ap (λ l. t ∷ l) (streamed-append a b)
streamed-append (create_stream ∷ a) b = streamed-append a b
streamed-append (stream_end ∷ a) b = streamed-append a b
streamed-append (emit_error ∷ a) b = streamed-append a b
streamed-append (start_timeout ∷ a) b = streamed-append a b
streamed-append (start_interval ∷ a) b = streamed-append a b
streamed-append (forget ∷ a) b = streamed-append a b

-- What one event leaves.
Stepped : FileWriter → Event → FileWriter × List Effect → Type 0
Stepped w e (w', effects) =
    IsWriter w'.stream w'.wait_queue
    × (w'.on_error ≡ (w.on_error || fails e))
    × (opens_one e + left w'.stream ≡ left w.stream)
    × (waiting w.wait_queue ++ line w.on_error e ≡ streamed effects ++ waiting w'.wait_queue)

-- An event that is no write and does not open leaves the queue and the stream as they are.
Stepped-kept :
    (w w' : FileWriter) (e : Event) (effects : List Effect)
    → IsWriter w.stream w.wait_queue
    → w'.stream ≡ w.stream
    → w'.wait_queue ≡ w.wait_queue
    → w'.on_error ≡ (w.on_error || fails e)
    → opens_one e ≡ 0
    → line w.on_error e ≡ []
    → streamed effects ≡ []
    → Stepped w e (w', effects)
unfolding Stepped
Stepped-kept w w' e effects h s q f o l n =
    (rw (s, q) h, f, ground arith, ground (arith, append-nil (waiting w.wait_queue)))

close_quiet : (w : FileWriter) → streamed (close w).1 ≡ []
unfolding close streamed
close_quiet w = elim (Bool-cases w.stream) [
  | inl e ↦ rw (close, e) refl
  | inr e ↦ rw (close, e) refl
]

queue_of :
    (b : Bool) (q : Option (List Text))
    → IsWriter b q
    → b ≡ false
    → (queue : List Text) × (q ≡ some queue)
unfolding IsWriter
queue_of true q h e = ground arith
queue_of false q h e = h

no_queue : (b : Bool) (q : Option (List Text)) → IsWriter b q → b ≡ true → q ≡ none
unfolding IsWriter
no_queue true q h e = h
no_queue false q h e = ground arith

open_lem :
    (t : ℕ) (w : FileWriter)
    → (queue : List Text) × (w.wait_queue ≡ some queue)
    → w.stream ≡ false
    → (r : FileWriter × List Effect) × (step t w opened ≡ ok r) × Stepped w opened r
unfolding step Stepped IsWriter
open_lem t w (queue, q) s =
    rw (step, q)
      (_, refl, (refl, ground arith, ground arith, ground (arith, q, streamed-writes queue)))

write_lem :
    (t : ℕ) (w : FileWriter) (now : ℕ) (b : Text)
    → IsWriter w.stream w.wait_queue
    → (r : FileWriter × List Effect) × (step t w (write now b) ≡ ok r) × Stepped w (write now b) r
unfolding step Stepped IsWriter streamed
write_lem t w now b h = elim (Bool-cases w.on_error) [
  | inl e ↦ (
    (w, []),
    ground arith,
    Stepped-kept w w (write now b) [] h refl refl (ground arith) refl (ground arith) refl,
  )
  | inr e ↦ elim (Bool-cases w.stream) [
    | inl s ↦
        let q = no_queue w.stream w.wait_queue h s in
        (
          (record w { last_write = some now }, stream_write b ∷ []),
          ground arith,
          (h, ground arith, ground arith, ground arith),
        )
    | inr s ↦
        let (queue, q) = queue_of w.stream w.wait_queue h s in
        (
          (record w { last_write = some now; wait_queue = some (queue ++ b ∷ []) }, []),
          ground arith,
          (rw s (queue ++ b ∷ [], refl), ground arith, ground arith, ground arith),
        )
  ]
]

step-Stepped :
    (t : ℕ) (w : FileWriter) (e : Event)
    → IsWriter w.stream w.wait_queue
    → opens_one e ≤ left w.stream
    → (r : FileWriter × List Effect) × (step t w e ≡ ok r) × Stepped w e r
unfolding step streamed close
step-Stepped t w path_failed h o =
    (_, refl, Stepped-kept w _ path_failed _ h refl refl (ground arith) refl (ground arith) refl)
step-Stepped t w path_created h o = elim (Bool-cases (ltb 0 t)) [
  | inl e ↦
      rw (step, e)
        (
          _,
          refl,
          Stepped-kept w _ path_created _ h refl refl (ground arith) refl (ground arith) refl,
        )
  | inr e ↦
      rw (step, e)
        (
          _,
          refl,
          Stepped-kept w _ path_created _ h refl refl (ground arith) refl (ground arith) refl,
        )
]
step-Stepped t w opened h o =
    open_lem t w (queue_of w.stream w.wait_queue h (ground arith)) (ground arith)
step-Stepped t w stream_failed h o = elim (Bool-cases w.suicide_timeout) [
  | inl e ↦
      let w' : FileWriter = record w { on_error = true } in
      (
        (w', emit_error ∷ []),
        ground arith,
        Stepped-kept w w' stream_failed (emit_error ∷ []) h refl refl (ground arith) refl
            (ground arith) refl,
      )
  | inr e ↦
      let w' : FileWriter = record w { on_error = true; suicide_timeout = true } in
      (
        (w', emit_error ∷ start_timeout ∷ []),
        ground arith,
        Stepped-kept w w' stream_failed (emit_error ∷ start_timeout ∷ []) h refl refl (ground arith)
            refl (ground arith) refl,
      )
]
step-Stepped t w retry h o = (
  _,
  refl,
  Stepped-kept w _ retry _ h refl refl (ground arith) refl (ground arith)
      (close_quiet (record w { suicide_timeout = false })),
)
step-Stepped t w (idle_check now) h o = elim (Bool-cases (is_idle t now w.last_write)) [
  | inl e ↦
      rw (step, e)
        (
          _,
          refl,
          Stepped-kept w _ (idle_check now) _ h refl refl (ground arith) refl (ground arith)
              (close_quiet w),
        )
  | inr e ↦
      rw (step, e)
        (
          _,
          refl,
          Stepped-kept w _ (idle_check now) _ h refl refl (ground arith) refl (ground arith) refl,
        )
]
step-Stepped t w (write now b) h o = write_lem t w now b h
step-Stepped t w end h o =
    (_, refl, Stepped-kept w _ end _ h refl refl (ground arith) refl (ground arith) (close_quiet w))

run-Stepped :
    (t : ℕ) (es : List Event) (w : FileWriter)
    → IsWriter w.stream w.wait_queue
    → opens es ≤ left w.stream
    → (r : FileWriter × List Effect) × (run t w es ≡ ok r)
      × (waiting w.wait_queue ++ accepted w.on_error es ≡ streamed r.1 ++ waiting r.0.wait_queue)
unfolding run accepted Stepped streamed
run-Stepped t [] w h o = ((w, []), refl, append-nil (waiting w.wait_queue))
run-Stepped t (e ∷ es) w h o =
    let ((w1, f1), e1, s1) = step-Stepped t w e h (omega arith) in
    let (h1, b1, o1, same1) = s1 in
    let ((w2, f2), e2, same2) = run-Stepped t es w1 h1 (omega arith) in
    ((w2, f1 ++ f2), ground arith, grind (arith, streamed-append f1 f2, append_assoc))

-- In every series of events in which the stream reports at most once that it is open, the writer
-- does not throw, and the lines it has given to the stream followed by those that wait for it are
-- all the lines written before the first error, in their order.
pub run-accepted :
    (t : ℕ) (es : List Event)
    → opens es ≤ 1
    → (w : FileWriter) × (effects : List Effect) × (run t new_writer es ≡ ok (w, effects))
      × (streamed effects ++ waiting w.wait_queue ≡ accepted false es)
unfolding IsWriter
run-accepted t es o =
    let ((w, effects), e, same) = run-Stepped t es new_writer ([], refl) o in
    (w, effects, e, sym same)
