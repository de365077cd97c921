-- ===== src/Filter/Base.antt =====
-- The `input` handler of lib/lib/base_filter.js, and how a filter merges the two spellings of its
-- field parameters.
pub mod Laws
use node_logstash.Js.Number.{nat}
use node_logstash.Js.Value.{Value, undefined, obj, Fields, truthy, Result, ok, map_ok}
use node_logstash.Js.Object.{get, set}
use node_logstash.Js.Convert.{Engine}
use node_logstash.Component.Filtering.{Filtering, process_message}
use node_logstash.Filter.{Processed, nothing, one, many}
use node_logstash.Prelude.{Bool, true, false, List, [], ◌∷◌, ℕ, zero, suc, if◌then◌else◌, codes}

-- What is emitted: any value, since the handler indexes what has a length.
abbrev pub objects : List Fields → List Value
objects [] = []
objects (d ∷ ds) = obj d ∷ objects ds

-- The rounds of `for (var i = 0; i < length; i++)` for a length of any type, as far as it is finite.
module _ (js : Engine) (rounds : Value → ℕ) where
  -- `res[i]` of an object, where the loop runs from `i` on with `n` rounds left.
  unfoldable pub indexed : Fields → ℕ → ℕ → List Value
  indexed d i zero = []
  indexed d i (suc n) = get (js.number_text (nat i)) d ∷ indexed d (suc i) n

  abbrev is_undefined : Value → Bool
  is_undefined undefined = true
  is_undefined _ = false

  -- An array emits its items, an object with no length itself. An object with a length is
  -- indexed as if it were an array.
  unfoldable pub emitted : Processed → List Value
  unfolding indexed
  emitted nothing = []
  emitted (many ds) = objects ds
  emitted (one d) =
      if is_undefined (get (codes "length") d)
      then obj d ∷ []
      else indexed d 0 (rounds (get (codes "length") d))

  -- A message that the parameters do not let in passes as it is.
  unfoldable pub on_input : Filtering → (Fields → Result Processed) → Fields → Result (List Value)
  unfolding emitted
  on_input f process data' =
      if process_message js f data' then map_ok emitted (process data') else ok (obj data' ∷ [])

-- `start_tags_fields_config`: `add_field` and `remove_field` win over the plural spellings.
unfoldable pub start_tags_fields : Fields → Fields
start_tags_fields this =
    let this' =
      if truthy (get (codes "add_field") this)
      then set (codes "add_fields") (get (codes "add_field") this) this
      else this in
    if truthy (get (codes "remove_field") this')
    then set (codes "remove_fields") (get (codes "remove_field") this') this'
    else this'
