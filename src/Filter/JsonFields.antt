-- ===== src/Filter/JsonFields.antt =====
-- `process` of lib/filters/filter_json_fields.js and of lib/filters/filter_bunyan.js. JSON is a parameter.
use node_logstash.Js.Number.{nat, num_ge}
use node_logstash.Js.Value.{
  Value, str, arr, obj, Values, nil, cons, Fields, end, field, type_error, Result, ok, throw, ◌>>=◌,
}
use node_logstash.Js.Object.{set_all, get, set}
use node_logstash.Js.Convert.{Engine, as_number}
use node_logstash.Prelude.{
  none, some, [], ◌∷◌, ℕ, ◌+◌, if◌then◌else◌, drop, Text, codes, ◌===◌, index_of,
}

-- `for (var field in fields)`: of an array or a string, the indices are the names.
module _ (js : Engine) where
  unfoldable pub numbered : ℕ → Values → Fields
  numbered i nil = end
  numbered i (cons v vs) = field (js.number_text (nat i)) v (numbered (i + 1) vs)

  unfoldable pub characters : ℕ → Text → Fields
  characters i [] = end
  characters i (c ∷ s) = field (js.number_text (nat i)) (str (c ∷ [])) (characters (i + 1) s)

  unfoldable pub fields_of : Value → Fields
  unfolding numbered characters
  fields_of (obj d) = d
  fields_of (arr vs) = numbered 0 vs
  fields_of (str s) = characters 0 s
  fields_of v = end

  -- `substring(indexOf('{', 0))`, which is the whole text where there is none
  abbrev from_brace : Text → Text
  from_brace s = elim (index_of (codes "{") s) [ none ↦ s | some i ↦ drop i s ]

  -- An array has `indexOf`, but no `substring`.
  abbrev message_of : Value → Result Text
  message_of (str s) = ok (from_brace s)
  message_of v = throw type_error

  unfoldable pub parsed_fields : (Text → Result Value) → Fields → Result Fields
  unfolding fields_of
  parsed_fields parse data' =
      message_of (get (codes "message") data') >>= (λ s. parse s >>= (λ v. ok (fields_of v)))

  -- What is thrown is caught.
  unfoldable pub process : (Text → Result Value) → Fields → Fields
  unfolding parsed_fields set_all
  process parse data' = elim (parsed_fields parse data') [
    | throw e ↦ data'
    | ok fs ↦ set_all fs data'
  ]

  unfoldable pub parse_level : Value → Value
  parse_level (str s) = str s
  parse_level v =
      let at_least = λ (n : ℕ). num_ge (as_number js v) (nat n) in
      if at_least 60
      then str (codes "FATAL")
      else if at_least 50
      then str (codes "ERROR")
      else if at_least 40
      then str (codes "WARN")
      else if at_least 30
      then str (codes "INFO")
      else if at_least 20
      then str (codes "DEBUG")
      else str (codes "TRACE")

  -- `map[field] || field`
  unfoldable pub bunyan_name : Text → Text
  bunyan_name k =
      if k === codes "time"
      then codes "@timestamp"
      else if k === codes "hostname"
      then codes "host"
      else if k === codes "v"
      then codes "bunyan_version"
      else if k === codes "name"
      then codes "bunyan_app_name"
      else if k === codes "msg"
      then codes "message"
      else k

  unfoldable pub put_bunyan : Text → Value → Fields → Fields
  unfolding parse_level bunyan_name
  put_bunyan k v data' =
      if k === codes "level"
      then set (codes "bunyan_level") v (set (codes "bunyan_level_name") (parse_level v) data')
      else set (bunyan_name k) v data'

  unfoldable pub copy_bunyan : Fields → Fields → Fields
  unfolding put_bunyan
  copy_bunyan end data' = data'
  copy_bunyan (field k v fs) data' = copy_bunyan fs (put_bunyan k v data')

  unfoldable pub process_bunyan : (Text → Result Value) → Fields → Fields
  unfolding parsed_fields copy_bunyan
  process_bunyan parse data' = elim (parsed_fields parse data') [
    | throw e ↦ data'
    | ok fs ↦ copy_bunyan fs data'
  ]
