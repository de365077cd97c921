-- ===== src/Filter/Multiline.antt =====
-- The multiline filter (lib/filters/filter_multiline.js) and the store of pending messages it
-- inherits (lib/lib/base_filter_buffer.js). The engine's addition of numbers, the regular
-- expression of the configuration and the deep copy through JSON are parameters.
pub mod Laws
use node_logstash.Js.Number.{Number}
use node_logstash.Js.Value.{Value, num, str, arr, obj, Fields, Result, ok, throw, type_error, ◌>>=◌}
use node_logstash.Js.Object.{get, set}
use node_logstash.Js.Convert.{Engine, as_number, to_text}
use node_logstash.Prelude.{
  Bool, true, false, ◌||◌, Option, none, some, List, [], ◌∷◌, ◌++◌, ℕ, ◌+◌, ltb, if◌then◌else◌,
  Text, codes, ◌===◌,
}

-- A message that still may grow, with the time of its last line.
pub record Pending : Type 0 where
  pub first : Fields
  pub current : Text
  pub last : ℕ

abbrev pub Storage : Type 0
Storage = List (Text × Pending)

-- `this.storage[key]`
unfoldable pub lookup : Text → Storage → Option Pending
lookup k [] = none
lookup k ((j, p) ∷ s) = if j === k then some p else lookup k s

-- `this.storage[key] = p`
unfoldable pub put : Text → Pending → Storage → Storage
put k p [] = (k, p) ∷ []
put k p ((j, q) ∷ s) = if j === k then (j, p) ∷ s else (j, q) ∷ put k p s

-- `delete this.storage[key]`
unfoldable pub remove : Text → Storage → Storage
remove k [] = []
remove k ((j, q) ∷ s) = if j === k then remove k s else (j, q) ∷ remove k s

-- A message that is emitted. The key it was stored under, which is not emitted, says whose it is.
pub record Sent : Type 0 where
  pub key : Text
  pub event : Fields

pub data Event : Type 0 where
  -- A message, at a time.
  arrival : ℕ → Fields → Event
  -- The interval timer fires, at a time.
  timer : ℕ → Event

-- Strings, and the objects that `+` turns into strings.
abbrev is_textual : Value → Bool
is_textual (str s) = true
is_textual (arr vs) = true
is_textual (obj o) = true
is_textual v = false

abbrev pub newline : Text
newline = 10 ∷ []

module _ (js : Engine) (num_add : Number → Number → Number) where
  -- `a + b`
  abbrev plus : Value → Value → Value
  plus a b =
      if is_textual a || is_textual b
      then str (to_text js a ++ to_text js b)
      else num (num_add (as_number js a) (as_number js b))

  -- `computeKey`, as the name of a property.
  unfoldable pub compute_key : Fields → Text
  unfolding to_text
  compute_key d =
      to_text js
        (plus (plus (get (codes "type") d) (get (codes "host") d)) (get (codes "source") d))

module _ (copy : Fields → Fields) where
  -- `sendMessage`
  unfoldable pub send_message : Text → Pending → Sent
  send_message key p = record {
    key = key;
    event = set (codes "message") (str p.current) (copy p.first);
  }

  -- `sendIfNeeded`
  unfoldable pub send_if_needed : Text → Storage → Storage × List Sent
  unfolding lookup remove send_message
  send_if_needed key s = elim (lookup key s) [
    | none ↦ (s, [])
    | some p ↦ (remove key s, send_message key p ∷ [])
  ]

  -- `store`, with the text of the message.
  unfoldable pub store : ℕ → Text → Fields → Text → Storage → Storage
  unfolding lookup put
  store now key d text s = elim (lookup key s) [
    | none ↦ put key (record { first = d; current = text; last = now }) s
    | some p ↦
        put key (record { first = p.first; current = p.current ++ (newline ++ text); last = now }) s
  ]

  -- The function of the interval timer: the messages whose last line is older than the delay.
  unfoldable pub on_timer : ℕ → ℕ → Storage → Storage × List Sent
  unfolding send_message
  on_timer delay now [] = ([], [])
  on_timer delay now ((k, p) ∷ s) =
      let (kept, sent) = on_timer delay now s in
      if ltb (p.last + delay) now then (kept, send_message k p ∷ sent) else ((k, p) ∷ kept, sent)

  abbrev after_match : ℕ → Text → Fields → Text → Bool → Storage → Storage × List Sent
  after_match now key d text true s =
      let (s', sent) = send_if_needed key s in (store now key d text s', sent)
  after_match now key d text false s = (store now key d text s, [])

  module _ (key_of : Fields → Text) (starts_line : Text → Bool) (delay : ℕ) where
    -- `process`: only strings have a method `match`.
    unfoldable pub process : ℕ → Fields → Storage → Result (Storage × List Sent)
    unfolding send_if_needed store
    process now d s = elim (get (codes "message") d) [
      | str text ↦ ok (after_match now (key_of d) d text (starts_line text) s)
      | _ ↦ throw type_error
    ]

    unfoldable pub on_event : Event → Storage → Result (Storage × List Sent)
    unfolding process on_timer
    on_event (arrival now d) s = process now d s
    on_event (timer now) s = ok (on_timer delay now s)

    -- A series of events, from a storage.
    unfoldable pub run : List Event → Storage → Result (Storage × List Sent)
    unfolding on_event
    run [] s = ok (s, [])
    run (e ∷ es) s =
        on_event e s >>= λ (s', sent). run es s' >>= λ (s'', later). ok (s'', sent ++ later)
