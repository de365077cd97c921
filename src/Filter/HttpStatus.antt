-- ===== src/Filter/HttpStatus.antt =====
-- lib/filters/filter_http_status_classifier.js
pub mod Laws
use node_logstash.Js.Number.{Number, nat, num_lt, num_ge}
use node_logstash.Js.Value.{Value, num, str, Fields, truthy, type_error, Result, ok, throw}
use node_logstash.Js.Object.{get, set, strict_eq}
use node_logstash.Js.Convert.{Engine, as_number}
use node_logstash.Component.Config.{split}
use node_logstash.Prelude.{
  Bool, ◌&&◌, Option, none, some, List, [], ◌∷◌, map, ℕ, ◌+◌, if◌then◌else◌, Text, codes,
}

module _ (js : Engine) where
  -- The first special code that is the value.
  unfoldable pub find_code : Value → List Number → Option Number
  unfolding strict_eq
  find_code v [] = none
  find_code v (c ∷ cs) = if strict_eq v (num c) then some c else find_code v cs

  abbrev in_class : Number → ℕ → Bool
  in_class n low = num_ge n (nat low) && num_lt n (nat (low + 100))

  -- One of the five tests in a row, which read the field anew each time.
  abbrev classify : Text → Text → ℕ → Text → Fields → Fields
  classify source target low name data' =
      if in_class (as_number js (get source data')) low then set target (str name) data' else data'

  unfoldable pub classify_all : Text → Text → Fields → Fields
  unfolding num_ge num_lt
  classify_all source target data' = classify source target 500 (codes "5xx") (
      classify source target 400 (codes "4xx") (
        classify source target 300 (codes "3xx") (
          classify source target 200 (codes "2xx")
            (classify source target 100 (codes "1xx") data'))))

  abbrev assign : Text → Text → Option Number → Fields → Fields
  assign source target (some c) data' = set target (str (js.number_text c)) data'
  assign source target none data' = classify_all source target data'

  unfoldable pub process : Text → Text → List Number → Fields → Fields
  unfolding find_code
  process source target special_codes data' =
      if truthy (get source data')
      then assign source target (find_code (get source data') special_codes) data'
      else data'

  -- `special_codes` after `start`; only strings have a method `split`.
  unfoldable pub start_codes : Value → Result (List Number)
  unfolding split
  start_codes v = if truthy v then parsed v else ok []
    where
      parsed : Value → Result (List Number)
      parsed (str s) = ok (map js.parse_int (split b',' s))
      parsed w = throw type_error
