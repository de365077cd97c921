-- ===== src/Filter/Multiline/Laws.antt =====
-- The lines that the multiline filter gets, keeps and sends.
use node_logstash.Js.Value.{Value, str, Fields, ok, Result-cases}
use node_logstash.Js.Object.{get, get-set_self}
use node_logstash.Filter.Multiline.{
  Pending, Storage, lookup, put, remove, Sent, Event, arrival, timer, newline, send_message,
  send_if_needed, store, on_timer, after_match, process, on_event, run,
}
use node_logstash.Prelude.{
  ◌≡◌, refl, sym, ap, ◌∙◌, inl, inr, Bool, true, false, Option, none, some, List, [], ◌∷◌, ◌++◌,
  append-nil, append_assoc, arith, ℕ, ◌+◌, ltb, if◌then◌else◌, Bool-cases, Option-cases, Text,
  codes, ◌===◌, ===_iff, ===_refl,
}

pub data IsDistinct : Storage → Type 0 where
  empty : IsDistinct []
  entry :
      {k : Text} {p : Pending} {s : Storage}
      → lookup k s ≡ none
      → IsDistinct s
      → IsDistinct ((k, p) ∷ s)

lookup-put :
    (j k : Text) (p : Pending) (s : Storage)
    → lookup j (put k p s) ≡ (if k === j then some p else lookup j s)
unfolding lookup put
lookup-put j k p [] = ground arith
lookup-put j k p ((i, q) ∷ s) =
    ground (arith, lookup-put j k p s, ===_iff i k, ===_iff i j, ===_iff k j)

lookup-remove :
    (j k : Text) (s : Storage) → lookup j (remove k s) ≡ (if k === j then none else lookup j s)
unfolding lookup remove
lookup-remove j k [] = ground arith
lookup-remove j k ((i, q) ∷ s) =
    ground (arith, lookup-remove j k s, ===_iff i k, ===_iff i j, ===_iff k j)

put-IsDistinct : (k : Text) (p : Pending) (s : Storage) → IsDistinct s → IsDistinct (put k p s)
unfolding put lookup
put-IsDistinct k p [] empty = entry refl empty
put-IsDistinct k p ((j, q) ∷ s) (entry h d) = elim (Bool-cases (j === k)) [
  | inl e ↦ rw e (entry h d)
  | inr e ↦ rw e (
      entry (ground (arith, lookup-put j k p s, ===_iff j k, ===_iff k j)) (put-IsDistinct k p s d))
]

remove-IsDistinct : (k : Text) (s : Storage) → IsDistinct s → IsDistinct (remove k s)
unfolding remove lookup
remove-IsDistinct k [] empty = empty
remove-IsDistinct k ((j, q) ∷ s) (entry h d) = elim (Bool-cases (j === k)) [
  | inl e ↦ rw e (remove-IsDistinct k s d)
  | inr e ↦ rw e (
      entry (ground (arith, lookup-remove j k s, ===_iff j k, ===_iff k j))
        (remove-IsDistinct k s d))
]

-- The text of the field `message` of what was emitted.
abbrev pub text_of : Value → Text
text_of (str t) = t
text_of v = []

-- The lines of one key in what was emitted, each with its end.
pub sent_lines : Text → List Sent → Text
sent_lines k [] = []
sent_lines k (m ∷ ms) =
    if m.key === k
    then text_of (get (codes "message") m.event) ++ (newline ++ sent_lines k ms)
    else sent_lines k ms

abbrev pub pending_lines : Option Pending → Text
pending_lines none = []
pending_lines (some p) = p.current ++ newline

pub kept_lines : Text → Storage → Text
kept_lines k s = pending_lines (lookup k s)

abbrev pub value_line : Value → Text
value_line (str t) = t ++ newline
value_line v = []

sent_lines-append :
    (k : Text) (a b : List Sent) → sent_lines k (a ++ b) ≡ sent_lines k a ++ sent_lines k b
unfolding sent_lines
sent_lines-append k [] b = refl
sent_lines-append k (m ∷ a) b = grind (arith, sent_lines-append k a b, append_assoc)

module _ (copy : Fields → Fields) where
  -- What `send_message` emits has the text that was kept.
  text_of-send_message :
      (key : Text) (p : Pending)
      → text_of (get (codes "message") (send_message copy key p).event) ≡ p.current
  unfolding send_message
  text_of-send_message key p =
      rw (get-set_self (codes "message") (str p.current) (copy p.first)) refl

  sent_lines-send_message :
      (key k : Text) (p : Pending) (ms : List Sent)
      → sent_lines k (send_message copy key p ∷ ms)
        ≡ (if key === k then p.current ++ (newline ++ sent_lines k ms) else sent_lines k ms)
  unfolding sent_lines send_message
  sent_lines-send_message key k p ms =
      ap (λ t. if key === k then t ++ (newline ++ sent_lines k ms) else sent_lines k ms)
        (text_of-send_message key p)

  on_timer-absent :
      (delay now : ℕ) (k : Text) (s : Storage)
      → lookup k s ≡ none
      → (lookup k (on_timer copy delay now s).0 ≡ none)
        × (sent_lines k (on_timer copy delay now s).1 ≡ [])
  unfolding lookup on_timer sent_lines
  on_timer-absent delay now k [] h = (refl, refl)
  on_timer-absent delay now k ((j, p) ∷ s) h =
      let (absent, silent) = on_timer-absent delay now k s (ground arith) in
      elim (Bool-cases (ltb (p.last + delay) now)) [
        | inl e ↦ rw e (
          ground arith,
          ground (arith, sent_lines-send_message j k p (on_timer copy delay now s).1),
        )
        | inr e ↦ rw e (ground arith, ground arith)
      ]

  on_timer_lem :
      (delay now : ℕ) (k : Text) (s : Storage)
      → IsDistinct s
      → IsDistinct (on_timer copy delay now s).0
        × (kept_lines k s
            ≡ sent_lines k (on_timer copy delay now s).1
              ++ kept_lines k (on_timer copy delay now s).0)
  unfolding lookup on_timer sent_lines kept_lines
  on_timer_lem delay now k [] empty = (empty, refl)
  on_timer_lem delay now k ((j, p) ∷ s) (entry h d) =
      let (distinct, same) = on_timer_lem delay now k s d in
      let (absent, silent) = on_timer-absent delay now j s h in
      elim (Bool-cases (ltb (p.last + delay) now)) [
        | inl e ↦ rw e (
          distinct,
          ground (
            arith,
            ===_iff j k,
            sent_lines-send_message j k p (on_timer copy delay now s).1,
            append_assoc p.current newline [],
          ),
        )
        | inr e ↦ rw e (entry absent distinct, ground (arith, ===_iff j k))
      ]

  send_if_needed_lem :
      (key k : Text) (s : Storage)
      → IsDistinct s
      → IsDistinct (send_if_needed copy key s).0
        × (lookup key (send_if_needed copy key s).0 ≡ none)
        × (kept_lines k s
            ≡ sent_lines k (send_if_needed copy key s).1
              ++ kept_lines k (send_if_needed copy key s).0)
  unfolding send_if_needed sent_lines kept_lines
  send_if_needed_lem key k s d = elim (Option-cases (lookup key s)) [
    | inl e ↦ rw (send_if_needed, e) (d, e, refl)
    | inr (p, e) ↦
        rw (send_if_needed, e)
          (
            remove-IsDistinct key s d,
            ground (arith, lookup-remove key key s, ===_refl key),
            ground (
              arith,
              lookup-remove k key s,
              ===_iff key k,
              sent_lines-send_message key k p [],
              append_assoc p.current newline [],
            ),
          )
  ]

  store_lem :
      (now : ℕ) (key : Text) (d : Fields) (text k : Text) (s : Storage)
      → IsDistinct s
      → IsDistinct (store copy now key d text s)
        × (kept_lines k (store copy now key d text s)
            ≡ kept_lines k s ++ (if key === k then text ++ newline else []))
  unfolding store kept_lines
  store_lem now key d text k s h = elim (Option-cases (lookup key s)) [
    | inl e ↦
        let fresh : Pending = record { first = d; current = text; last = now } in
        rw (store, e)
          (
            put-IsDistinct key _ s h,
            ground (
              arith,
              lookup-put k key fresh s,
              ===_iff key k,
              append-nil (pending_lines (lookup k s)),
            ),
          )
    | inr (p, e) ↦
        let q : Pending = record {
          first = p.first;
          current = p.current ++ (newline ++ text);
          last = now;
        } in
        rw (store, e)
          (
            put-IsDistinct key _ s h,
            grind (arith, lookup-put k key q s, ===_iff key k, append_assoc, append-nil),
          )
  ]

  module _ (key_of : Fields → Text) (starts_line : Text → Bool) (delay : ℕ) where
    -- The line that an event brings for a key, with its end.
    pub new_line : Text → Event → Text
    new_line k (arrival now d) = if key_of d === k then value_line (get (codes "message") d) else []
    new_line k (timer now) = []

    pub new_lines : Text → List Event → Text
    new_lines k [] = []
    new_lines k (e ∷ es) = new_line k e ++ new_lines k es

    after_match_lem :
        (now : ℕ) (key : Text) (d : Fields) (text k : Text) (b : Bool) (s : Storage)
        → IsDistinct s
        → IsDistinct (after_match copy now key d text b s).0
          × (kept_lines k s ++ (if key === k then text ++ newline else [])
              ≡ sent_lines k (after_match copy now key d text b s).1
                ++ kept_lines k (after_match copy now key d text b s).0)
    unfolding sent_lines
    after_match_lem now key d text k false s h =
        let (distinct, same) = store_lem now key d text k s h in (distinct, sym same)
    after_match_lem now key d text k true s h =
        let (h1, gone, same1) = send_if_needed_lem key k s h in
        let s1 = (send_if_needed copy key s).0 in
        let (distinct, same2) = store_lem now key d text k s1 h1 in
        (distinct, grind (arith, append_assoc))

    arrival_lem :
        (now : ℕ) (m : Fields) (v : Value)
        → get (codes "message") m ≡ v
        → (s s' : Storage) (sent : List Sent) (k : Text)
        → process copy key_of starts_line delay now m s ≡ ok (s', sent)
        → IsDistinct s
        → IsDistinct s'
          × (kept_lines k s ++ (if key_of m === k then value_line (get (codes "message") m) else [])
              ≡ sent_lines k sent ++ kept_lines k s')
    unfolding process
    arrival_lem now m (str text) e s s' sent k h d =
        let after = after_match copy now (key_of m) m text (starts_line text) s in
        let (distinct, same) = after_match_lem now (key_of m) m text k (starts_line text) s d in
        let e0 : after.0 ≡ s' = ground arith in
        let e1 : after.1 ≡ sent = ground arith in rw (sym e0, sym e1, e) (distinct, same)
    arrival_lem now m v e s s' sent k h d = ground arith

    on_event_lem :
        (e : Event) (s s' : Storage) (sent : List Sent) (k : Text)
        → on_event copy key_of starts_line delay e s ≡ ok (s', sent)
        → IsDistinct s
        → IsDistinct s' × (kept_lines k s ++ new_line k e ≡ sent_lines k sent ++ kept_lines k s')
    unfolding on_event process new_line
    on_event_lem (timer now) s s' sent k h d =
        let (distinct, same) = on_timer_lem delay now k s d in
        let e0 : (on_timer copy delay now s).0 ≡ s' = ground arith in
        let e1 : (on_timer copy delay now s).1 ≡ sent = ground arith in
        rw (sym e0, sym e1) (distinct, append-nil (kept_lines k s) ∙ same)
    on_event_lem (arrival now m) s s' sent k h d =
        arrival_lem now m (get (codes "message") m) refl s s' sent k h d

    run_lem :
        (es : List Event) (s s' : Storage) (sent : List Sent) (k : Text)
        → run copy key_of starts_line delay es s ≡ ok (s', sent)
        → IsDistinct s
        → kept_lines k s ++ new_lines k es ≡ sent_lines k sent ++ kept_lines k s'
    unfolding run new_lines sent_lines kept_lines
    run_lem [] s s' sent k h d =
        let e0 : s ≡ s' = ground arith in
        let e1 : [] ≡ sent = ground arith in rw (sym e0, sym e1) (append-nil (kept_lines k s))
    run_lem (e ∷ es) s s' sent k h d =
        elim (Result-cases (on_event copy key_of starts_line delay e s)) [
          | inr (x, e1) ↦ ground arith
          | inl ((s1, sent1), e1) ↦ elim (Result-cases (run copy key_of starts_line delay es s1)) [
            | inr (x, e2) ↦ ground arith
            | inl ((s2, sent2), e2) ↦
                let (d1, same1) = on_event_lem e s s1 sent1 k e1 d in
                let same2 = run_lem es s1 s2 sent2 k e2 d1 in
                let e3 : s2 ≡ s' = ground arith in
                let e4 : sent1 ++ sent2 ≡ sent = ground arith in
                rw (sym e3, sym e4, sent_lines-append k sent1 sent2) (grind (arith, append_assoc))
          ]
        ]

    -- Whatever the messages and the timer do from an empty storage, unless a message is no string
    -- and the filter throws: for every key, the lines that came with it, in their order, are the
    -- lines of the messages that were sent for it followed by those of the message that is still
    -- pending. No line is lost, doubled or moved to another key.
    pub run-sent_lines :
        (es : List Event) (s : Storage) (sent : List Sent) (k : Text)
        → run copy key_of starts_line delay es [] ≡ ok (s, sent)
        → new_lines k es ≡ sent_lines k sent ++ kept_lines k s
    unfolding kept_lines lookup
    run-sent_lines es s sent k h = run_lem es [] s sent k h empty
