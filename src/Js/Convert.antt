-- ===== src/Js/Convert.antt =====
-- Conversions of values. How the engine prints and reads a number and runs a regular expression
-- is not in the repository: these are the parameter `Engine`.
use node_logstash.Js.Number.{Number}
use node_logstash.Js.Value.{
  Value, undefined, null, bool, num, str, arr, obj, Values, nil, cons, Result, ok, throw,
  type_error,
}
use node_logstash.Prelude.{Bool, true, false, Option, List, [], ◌∷◌, Text, codes, join}

pub record Engine : Type 0 where
  -- `n.toString()`
  pub number_text : Number → Text
  -- `parseFloat(s)`
  pub parse_float : Text → Number
  -- `parseInt(s, 10)`
  pub parse_int : Text → Number
  -- `Number(v)` of what is no number, as `<`, `>=` and the bit operators convert.
  pub to_number : Value → Number
  -- `new RegExp(p).test(s)`: `none` where the pattern is not valid and the constructor throws.
  pub regexp_test : Text → Text → Option Bool

module _ (js : Engine) where
  abbrev pub as_number : Value → Number
  as_number (num n) = n
  as_number v = js.to_number v

  -- `String(v)`; inside an array, undefined and null are printed as nothing.
  unfoldable mutual
    pub to_text : Value → Text
    to_text undefined = codes "undefined"
    to_text null = codes "null"
    to_text (bool true) = codes "true"
    to_text (bool false) = codes "false"
    to_text (num n) = js.number_text n
    to_text (str s) = s
    to_text (arr vs) = join (codes ",") (item_texts vs)
    to_text (obj o) = codes "[object Object]"

    pub item_texts : Values → List Text
    item_texts nil = []
    item_texts (cons v vs) = item_text v ∷ item_texts vs

    pub item_text : Value → Text
    item_text undefined = []
    item_text null = []
    item_text (bool true) = codes "true"
    item_text (bool false) = codes "false"
    item_text (num n) = js.number_text n
    item_text (str s) = s
    item_text (arr vs) = join (codes ",") (item_texts vs)
    item_text (obj o) = codes "[object Object]"

  -- `v.toString()`: undefined and null have no methods.
  unfoldable pub to_string : Value → Result Text
  unfolding to_text
  to_string undefined = throw type_error
  to_string null = throw type_error
  to_string v = ok (to_text v)
