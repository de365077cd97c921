-- ===== src/Component/Reading.antt =====
-- The last part of `loadConfig` of lib/lib/base_component.js: which messages a component takes is
-- read from the parameters of its url. `JSON.parse` is a parameter.
pub mod Laws
use node_logstash.Js.Value.{
  Value, undefined, Fields, end, field, truthy, syntax_error, Result, ok, throw, ◌>>=◌,
}
use node_logstash.Js.Object.{get, set}
use node_logstash.Js.Convert.{Engine, to_text}
use node_logstash.Component.Filtering.{Filtering, DynamicEval}
use node_logstash.Prelude.{
  is_line_end, Option, none, some, List, [], ◌∷◌, ◌++◌, if◌then◌else◌, length, drop, any, Text,
  codes, ◌===◌, starts_with,
}

-- `message_filtering = {}`
abbrev pub no_filtering : Filtering
no_filtering = record {
  only_type = undefined;
  only_field_exist = [];
  only_field_equal = end;
  only_field_match = [];
  dynamic_eval = none;
}

-- `.+` up to the end
abbrev named : Text → Option Text
named [] = none
named (c ∷ s) = if any is_line_end (c ∷ s) then none else some (c ∷ s)

-- `match(/^<prefix>(.+)$/)`, the text of its group
unfoldable pub name_behind : Text → Text → Option Text
name_behind prefix k = if starts_with prefix k then named (drop (length prefix) k) else none

abbrev pub exist_prefix : Text
exist_prefix = codes "only_field_exist_"

abbrev pub equal_prefix : Text
equal_prefix = codes "only_field_equal_"

abbrev pub match_prefix : Text
match_prefix = codes "only_field_match_"

unfoldable pub read_exist : Text → Filtering → Filtering
unfolding name_behind
read_exist k f = elim (name_behind exist_prefix k) [
  | none ↦ f
  | some x ↦ record f { only_field_exist = f.only_field_exist ++ x ∷ [] }
]

unfoldable pub read_equal : Text → Value → Filtering → Filtering
unfolding name_behind
read_equal k v f = elim (name_behind equal_prefix k) [
  | none ↦ f
  | some x ↦ record f { only_field_equal = set x v f.only_field_equal }
]

-- An object of patterns, by field.
unfoldable pub put_match : Text → Text → List (Text × Text) → List (Text × Text)
put_match x p [] = (x, p) ∷ []
put_match x p ((y, q) ∷ l) =
    let rest = put_match x p l in if y === x then (y, p) ∷ l else (y, q) ∷ rest

module _ (js : Engine) (parse_json : Text → Result DynamicEval) where
  -- `new RegExp`, which throws where the pattern is not valid
  abbrev compiled : Text → Result Text
  compiled p = elim (js.regexp_test p []) [ none ↦ throw syntax_error | some b ↦ ok p ]

  unfoldable pub read_match : Text → Value → Filtering → Result Filtering
  unfolding name_behind put_match to_text
  read_match k v f = elim (name_behind match_prefix k) [
    | none ↦ ok f
    | some x ↦ compiled (to_text js v) >>= λ p.
        ok (record f { only_field_match = put_match x p f.only_field_match })
  ]

  unfoldable pub read_dynamic : Value → Filtering → Result Filtering
  unfolding to_text
  read_dynamic v f =
      if truthy v
      then (parse_json (to_text js v) >>= λ e. ok (record f { dynamic_eval = some e }))
      else ok f

  -- The loop over the parameters; `dynamic` is the parameter `__dynamic_eval__`.
  unfoldable pub read_params : Value → Fields → Filtering → Result Filtering
  unfolding read_exist read_equal read_match read_dynamic
  read_params dynamic end f = ok f
  read_params dynamic (field k v params) f =
      read_match k v (read_equal k v (read_exist k f)) >>= λ g.
      read_dynamic dynamic g >>= λ h. read_params dynamic params h

  abbrev pub typed : Value → Filtering
  typed v = if truthy v then record no_filtering { only_type = v } else no_filtering

  unfoldable pub read_filtering : Fields → Result Filtering
  unfolding read_params
  read_filtering params =
      read_params (get (codes "__dynamic_eval__") params) params
        (typed (get (codes "only_type") params))
