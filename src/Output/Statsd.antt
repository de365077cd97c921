-- ===== src/Output/Statsd.antt =====
-- lib/outputs/output_statsd.js: the template of a metric, and the packet of a message.
use node_logstash.Js.Value.{str, Fields, truthy, message, Result, ok, throw}
use node_logstash.Js.Object.{get, strict_eq}
use node_logstash.Js.Convert.{Engine, to_text}
use node_logstash.Component.Template.{Part, replace_by_fields}
use node_logstash.Prelude.{
  Bool, Option, none, some, List, [], ◌∷◌, ◌++◌, if◌then◌else◌, Text, codes,
}

module _ (js : Engine) where
  abbrev param : Text → Fields → Text
  param k this = to_text js (get k this)

  abbrev is_type : Text → Fields → Bool
  is_type t this = strict_eq (get (codes "metric_type") this) (str t)

  abbrev keyed : Fields → Text → Text
  keyed this rest = param (codes "metric_key") this ++ rest

  -- A metric with a value, which has to be given.
  abbrev valued : Text → Text → Fields → Result Text
  valued type unit this =
      if truthy (get (codes "metric_value") this)
      then ok (keyed this (codes ":" ++ (param (codes "metric_value") this ++ unit)))
      else throw (message (codes "You have to specify metric_value with metric_type " ++ type))

  -- `start`, with the template `raw` that it sets
  unfoldable pub start : Fields → Result Text
  unfolding get strict_eq to_text
  start this =
      if is_type (codes "counter") this
      then valued (codes "counter") (codes "|c") this
      else if is_type (codes "increment") this
      then ok (keyed this (codes ":1|c"))
      else if is_type (codes "decrement") this
      then ok (keyed this (codes ":-1|c"))
      else if is_type (codes "timer") this
      then valued (codes "timer") (codes "|ms") this
      else if is_type (codes "gauge") this
      then valued (codes "gauge") (codes "|g") this
      else throw (message (codes "Wrong metric_type: " ++ param (codes "metric_type") this))

  -- Neither undefined nor empty.
  abbrev packet : Option Text → Option Text
  packet none = none
  packet (some []) = none
  packet (some (c ∷ s)) = some (c ∷ s)

  -- `formatPayload`: the packet, unless a field is missing.
  unfoldable pub format_payload :
      (Text → Text)
      → Text
      → List (Text × List Part)
      → Fields
      → List (Text × List Part) × Option Text
  unfolding replace_by_fields
  format_payload now_text raw cache data' =
      let (cache', text) = replace_by_fields js now_text cache data' raw in (cache', packet text)
