-- ===== src/Filter/Base/Laws.antt =====
-- What a filter emits for a message.
use node_logstash.Js.Number.{nat}
use node_logstash.Js.Value.{Value, undefined, obj, Fields, Result, ok}
use node_logstash.Js.Object.{get}
use node_logstash.Js.Convert.{Engine}
use node_logstash.Component.Filtering.{Filtering, process_message}
use node_logstash.Filter.{Processed, nothing, one, many}
use node_logstash.Filter.Base.{on_input, indexed, objects, is_undefined}
use node_logstash.Prelude.{◌≡◌, refl, true, false, List, [], ◌∷◌, ℕ, zero, suc, All, codes}

module _ (js : Engine) (rounds : Value → ℕ) where
  -- For a filter whose `process` does not throw: a message that is not let in is emitted as it is;
  -- one that is let in gives what `process` returns, the items of an array in order, nothing for
  -- nothing, and a message itself where it has no field named `length`.
  pub on_input_lem :
      (f : Filtering) (process : Fields → Result Processed) (d d' : Fields) (ds : List Fields)
      → (process_message js f d ≡ false → on_input js rounds f process d ≡ ok (obj d ∷ []))
        × (process_message js f d ≡ true
            → process d ≡ ok (many ds)
            → on_input js rounds f process d ≡ ok (objects ds))
        × (process_message js f d ≡ true
            → process d ≡ ok nothing
            → on_input js rounds f process d ≡ ok [])
        × (process_message js f d ≡ true
            → process d ≡ ok (one d')
            → get (codes "length") d' ≡ undefined
            → on_input js rounds f process d ≡ ok (obj d' ∷ []))
  unfolding on_input
  on_input_lem f process d d' ds =
      (λ p. rw p refl, λ p q. rw (p, q) refl, λ p q. rw (p, q) refl, λ p q r. rw (p, q, r) refl)

  indexed_undefined :
      (d : Fields) (i n : ℕ)
      → ((k : ℕ) → get (js.number_text (nat k)) d ≡ undefined)
      → All (λ v. v ≡ undefined) (indexed js rounds d i n)
  unfolding indexed
  indexed_undefined d i zero h = tt
  indexed_undefined d i (suc n) h = (h i, indexed_undefined d (suc i) n h)

  -- A message with a field named `length`, and with no field named by a number, is lost in every
  -- filter that lets it in and returns it: all that is emitted in its place is undefined.
  on_input-length_lost :
      (f : Filtering) (process : Fields → Result Processed) (d d' : Fields)
      → process_message js f d ≡ true
      → process d ≡ ok (one d')
      → is_undefined js rounds (get (codes "length") d') ≡ false
      → ((k : ℕ) → get (js.number_text (nat k)) d' ≡ undefined)
      → (vs : List Value) × (on_input js rounds f process d ≡ ok vs) × All (λ v. v ≡ undefined) vs
  unfolding on_input
  on_input-length_lost f process d d' p q r h = (
    indexed js rounds d' 0 (rounds (get (codes "length") d')),
    rw (p, q, r) refl,
    indexed_undefined d' 0 _ h,
  )
