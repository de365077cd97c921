-- ===== src/Agent/Pipeline.antt =====
-- How lib/agent.js chains the filters: the listeners of the `output` events of `first_filter`, here
-- the emitter 0, and of the filters, the emitters 1, 2, … in the order of the configuration. The
-- events are synchronous, so an `emit` is a call.
pub mod Laws
use node_logstash.Prelude.{List, [], ◌∷◌, ◌++◌, ℕ, zero, suc, ◌==◌, if◌then◌else◌}

-- `last_filter_output_func`, which hands the message to the outputs, or the `input` of a filter.
pub data Listener : Type 0 where
  to_outputs : Listener
  to_filter : ℕ → Listener

pub record Wiring : Type 0 where
  pub last_filter : ℕ
  pub listeners : ℕ → List Listener

abbrev update : (ℕ → List Listener) → ℕ → List Listener → ℕ → List Listener
update l k v n = if n == k then v else l n

-- `removeListener('output', last_filter_output_func)`
abbrev without_outputs : List Listener → List Listener
without_outputs [] = []
without_outputs (to_outputs ∷ l) = l
without_outputs (to_filter k ∷ l) = to_filter k ∷ without_outputs l

-- The constructor: `first_filter` is the last one.
unfoldable pub create : Wiring
create = record { last_filter = 0; listeners = λ n. if n == 0 then to_outputs ∷ [] else [] }

-- What `start_filters` does with the filter `k`, just configured.
unfoldable pub add_filter : ℕ → Wiring → Wiring
add_filter k w =
    let heard = update w.listeners k (w.listeners k ++ to_outputs ∷ []) in
    let unhooked = update heard w.last_filter (without_outputs (heard w.last_filter)) in
    record {
      last_filter = k;
      listeners = update unhooked w.last_filter (unhooked w.last_filter ++ to_filter k ∷ []);
    }

-- All filters in turn, `n` of them.
unfoldable pub start_filters : ℕ → Wiring
unfolding create add_filter
start_filters zero = create
start_filters (suc n) = add_filter (suc n) (start_filters n)

abbrev pub each {ℓ κ} : {A : Type ℓ} {B : Type κ} → (A → List B) → List A → List B
each f [] = []
each f (a ∷ l) = f a ++ each f l

module _ {ℓ} {A : Type ℓ} (run : ℕ → A → List A) where
  -- What a listener does with a message, given what an emitter does.
  call : (ℕ → A → List A) → Listener → A → List A
  call emit_from to_outputs a = a ∷ []
  call emit_from (to_filter k) a = each (emit_from k) (run k a)

  -- The messages that reach the outputs, in order, when the emitter `n` emits `a`; `run k` is what
  -- the filter `k` emits for a message. The fuel bounds the number of filters in a chain.
  unfoldable pub emit : ℕ → Wiring → ℕ → A → List A
  unfolding call
  emit zero w n a = []
  emit (suc fuel) w n a = each (λ l. call (emit fuel w) l a) (w.listeners n)
