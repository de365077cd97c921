-- ===== src/Agent/Delivery.antt =====
-- The two ends of the chain of filters in lib/agent.js: what an input gives to `first_filter`, and
-- how the outputs listen to `last_filter`. The filters are those of Agent.Pipeline.
pub mod Laws
use node_logstash.Js.Value.{Value, Fields, Result, ok, ◌>>=◌}
use node_logstash.Js.Convert.{Engine}
use node_logstash.Component.Template.{Part}
use node_logstash.Component.Tags.{add_tags, add_fields}
use node_logstash.Agent.Pipeline.{each, emit, start_filters}
use node_logstash.Prelude.{Option, List, [], ◌∷◌, ◌++◌, ℕ, zero, suc, Text}

module _ (js : Engine) (now_text : Text → Text) where
  -- The handler of `data` of an input, with its tags and fields to add, up to the `emit`.
  unfoldable pub on_data :
      Option (List Value)
      → List (Text × Text)
      → List (Text × List Part)
      → Fields
      → Result (List (Text × List Part) × Fields)
  unfolding add_tags add_fields
  on_data tags fields cache data' =
      add_tags tags data' >>= λ d. ok (add_fields js now_text cache fields d)

-- `start_outputs`: the outputs listen to `last_filter` in the order of the configuration.
unfoldable pub start_outputs : ℕ → List ℕ
start_outputs zero = []
start_outputs (suc n) = start_outputs n ++ n ∷ []

module _ {ℓ} {A : Type ℓ} where
  abbrev pub to_each : List ℕ → A → List (ℕ × A)
  to_each [] a = []
  to_each (o ∷ os) a = (o, a) ∷ to_each os a

  -- `emit('last_filter')`: every listener in turn.
  unfoldable pub deliver : List ℕ → List A → List (ℕ × A)
  deliver os ms = each (to_each os) ms

  -- A message at `first_filter` of an agent with `n` filters and `m` outputs.
  unfoldable pub pass : (ℕ → A → List A) → ℕ → ℕ → A → List (ℕ × A)
  unfolding deliver emit start_filters start_outputs
  pass run n m a = deliver (start_outputs m) (emit run (suc n) (start_filters n) 0 a)
