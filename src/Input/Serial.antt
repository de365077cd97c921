-- ===== src/Input/Serial.antt =====
-- How an input reads messages from data (lib/lib/base_input.js), and how an output writes them
-- (lib/lib/base_output.js). JSON and msgpack are parameters; the callbacks do not throw.
pub mod Laws
use node_logstash.Js.Value.{
  Value, null, obj, Fields, truthy, undefined, Error, message, type_error, Result, ok, throw, ◌>>=◌,
}
use node_logstash.Js.Object.{get}
use node_logstash.Js.Convert.{Engine}
use node_logstash.Component.Config.{split}
use node_logstash.Component.Template.{Part, replace_by_fields}
use node_logstash.Prelude.{
  Bool, true, false, not, Option, some, List, [], ◌∷◌, ◌++◌, if◌then◌else◌, Text, codes, ◌===◌,
}

-- `parsed['@timestamp']`
abbrev pub timestamp : Value → Result Value
timestamp (obj d) = ok (get (codes "@timestamp") d)
timestamp null = throw type_error
timestamp undefined = throw type_error
timestamp v = ok undefined

-- What is given to `ok_callback`, and whether `parse_fail_callback` is called with the data.
abbrev pub Parsed : Type 0
Parsed = List Value × Bool

module _ (parse : Text → Result Value) where
  abbrev pub read_line : Text → Result (Value × Value)
  read_line s = parse s >>= (λ v. timestamp v >>= (λ t. ok (v, t)))

  -- The loop on the lines. Nothing is taken back where a line fails.
  unfoldable pub unserialize_lines : List Text → Bool → Parsed
  unserialize_lines [] read = ([], not read)
  unserialize_lines ([] ∷ ls) read = unserialize_lines ls read
  unserialize_lines ((c ∷ s) ∷ ls) read =
      let more = unserialize_lines ls true in
      let same = unserialize_lines ls read in
      elim (read_line (c ∷ s)) [
        | throw e ↦ ([], true)
        | ok (v, t) ↦ if truthy t then (v ∷ more.0, more.1) else same
      ]

  -- `unserialize_data_json`
  unfoldable pub unserialize_json : Text → Parsed
  unfolding unserialize_lines split
  unserialize_json data' = unserialize_lines (split 10 data') false

-- `unserialize_data_raw`
unfoldable pub unserialize_raw : Text → Parsed
unserialize_raw data' = ([], true)

-- `unserialize_data_msgpack`
unfoldable pub unserialize_msgpack : (Text → Result Value) → Text → Parsed
unserialize_msgpack unpack data' = elim (read_line unpack data') [
  | throw e ↦ ([], true)
  | ok (v, t) ↦ if truthy t then (v ∷ [], false) else ([], true)
]

abbrev unknown : Text → Error
unknown name = message (codes "Unknown serializer " ++ name)

-- `configure_unserialize`
unfoldable pub configure_unserialize :
    (Text → Result Value) → (Text → Result Value) → Text → Result (Text → Parsed)
unfolding unserialize_json unserialize_raw unserialize_msgpack
configure_unserialize parse unpack name =
    if name === codes "json_logstash"
    then ok (unserialize_json parse)
    else if name === codes "raw"
    then ok unserialize_raw
    else if name === codes "msgpack"
    then ok (unserialize_msgpack unpack)
    else throw (unknown name)

-- `configure_serialize`: what is written for a message, with the cache of the templates.
module _ (js : Engine) (now_text : Text → Text) (stringify pack : Fields → Text) where
  abbrev Writer : Type 0
  Writer = List (Text × List Part) → Fields → List (Text × List Part) × Option Text

  unfoldable pub configure_serialize : Text → Text → Result Writer
  unfolding replace_by_fields
  configure_serialize name raw_format =
      if name === codes "json_logstash"
      then ok (λ c d. (c, some (stringify d)))
      else if name === codes "raw"
      then ok (λ c d. replace_by_fields js now_text c d raw_format)
      else if name === codes "msgpack"
      then ok (λ c d. (c, some (pack d)))
      else throw (unknown name)
