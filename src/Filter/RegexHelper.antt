-- ===== src/Filter/RegexHelper.antt =====
-- The start hook and `process` of lib/lib/regex_helper.js: one captured text becomes one field of the message. The
-- reading of a date in a format is a parameter: the new timestamp, where the date is one.
use node_logstash.Js.Value.{
  Value, Values, nil, cons, arr, str, num, Fields, type_error, Result, ok, throw,
}
use node_logstash.Js.Object.{set}
use node_logstash.Js.Convert.{Engine, to_text}
use node_logstash.Component.Config.{split}
use node_logstash.Prelude.{
  Bool, false, ◌&&◌, ◌||◌, Option, none, some, List, [], ◌∷◌, ℕ, leb, ◌==◌, if◌then◌else◌, all, any,
  Text, codes, ◌===◌,
}

abbrev is_digit : ℕ → Bool
is_digit c = leb b'0' c && leb c b'9'

-- `/^[0-9]+$/`
unfoldable pub is_whole : Text → Bool
is_whole [] = false
is_whole (c ∷ s) = all is_digit (c ∷ s)

-- `/^[0-9]+[\.,][0-9]+$/`, with at least one digit read already
unfoldable pub is_decimal_rest : Text → Bool
unfolding is_whole
is_decimal_rest [] = false
is_decimal_rest (c ∷ s) =
    let rest = is_decimal_rest s in
    if c == b'.' || c == b',' then is_whole s else is_digit c && rest

unfoldable pub is_decimal : Text → Bool
unfolding is_decimal_rest
is_decimal [] = false
is_decimal (c ∷ s) = is_digit c && is_decimal_rest s

-- `replace(',', '.')`: the first comma only.
unfoldable pub with_point : Text → Text
with_point [] = []
with_point (c ∷ s) = let rest = with_point s in if c == b',' then b'.' ∷ s else c ∷ rest

-- The start hook makes names of `numerical_fields`, as `start` of lib/filters/filter_regex.js does of
-- `fields`: an array of them, or a text with commas.
unfoldable pub field_names : Engine → Value → Result (List Text)
unfolding split to_text
field_names js (arr vs) = ok (texts vs)
  where
    texts : Values → List Text
    texts nil = []
    texts (cons v vs) = to_text js v ∷ texts vs
field_names js (str s) = ok (split b',' s)
field_names js v = throw type_error

module _ (js : Engine) (read_date : Text → Text → Option Text) where
  abbrev put_date : Option Text → Fields → Fields
  put_date none data' = data'
  put_date (some date) data' = set (codes "@timestamp") (str date) data'

  abbrev is_timestamp : Text → Bool
  is_timestamp name = name === codes "timestamp" || name === codes "@timestamp"

  unfoldable pub put_value : List Text → Text → Text → Fields → Fields
  unfolding is_whole is_decimal with_point
  put_value numerical_fields name v data' =
      if name === codes "host"
      then set (codes "host") (str v) data'
      else if name === codes "message"
      then set (codes "message") (str v) data'
      else if is_whole v
      then set name (num (js.parse_int v)) data'
      else if is_decimal v
      then set name (num (js.parse_float (with_point v))) data'
      else if any (λ f. f === name) numerical_fields
      then data'
      else set name (str v) data'

  -- `none` is a group that took no part in the match.
  unfoldable pub process : Option Text → List Text → Text → Option Text → Fields → Fields
  unfolding put_value
  process date_format numerical_fields name none data' = data'
  process date_format numerical_fields name (some []) data' = data'
  process none numerical_fields name (some (c ∷ v)) data' =
      put_value numerical_fields name (c ∷ v) data'
  process (some []) numerical_fields name (some (c ∷ v)) data' =
      put_value numerical_fields name (c ∷ v) data'
  process (some (f ∷ format)) numerical_fields name (some (c ∷ v)) data' =
      if is_timestamp name
      then put_date (read_date (c ∷ v) (f ∷ format)) data'
      else put_value numerical_fields name (c ∷ v) data'
