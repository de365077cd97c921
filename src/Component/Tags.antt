-- ===== src/Component/Tags.antt =====
-- `add_tags_function`, `remove_tags_function`, `add_fields_function` and `remove_fields_function` of
-- lib/lib/base_component.js. A list of tags that is not configured is `none`.
pub mod Laws
use node_logstash.Js.Value.{
  Value, undefined, str, arr, Values, nil, cons, Fields, truthy, Result, ok, throw, type_error,
}
use node_logstash.Js.Object.{get, set, delete}
use node_logstash.Js.Convert.{Engine}
use node_logstash.Component.Template.{Part, replace_by_fields}
use node_logstash.Prelude.{
  Bool, true, false, Option, none, some, List, [], ◌∷◌, if◌then◌else◌, any, Text, codes, ◌===◌,
  index_of,
}

abbrev pub tags_key : Text
tags_key = codes "tags"

-- `if (!data.tags) data.tags = []`
abbrev with_tags : Fields → Fields
with_tags data' = if truthy (get tags_key data') then data' else set tags_key (arr nil) data'

-- `push` of all, on an array; what is no array has no `push`.
unfoldable pub push_all : Values → List Value → Values
push_all nil [] = nil
push_all nil (t ∷ ts) = cons t (push_all nil ts)
push_all (cons v vs) ts = cons v (push_all vs ts)

unfoldable pub push_tags : Value → List Value → Fields → Result Fields
unfolding push_all
push_tags (arr vs) ts data' = ok (set tags_key (arr (push_all vs ts)) data')
push_tags v [] data' = ok data'
push_tags v (t ∷ ts) data' = throw type_error

unfoldable pub add_tags : Option (List Value) → Fields → Result Fields
unfolding push_tags
add_tags none data' = ok data'
add_tags (some ts) data' = push_tags (get tags_key (with_tags data')) ts (with_tags data')

-- `indexOf` and `splice`: the first tag that is equal goes.
unfoldable pub remove_first : Text → Values → Values
remove_first t nil = nil
remove_first t (cons (str s) vs) = if s === t then vs else cons (str s) (remove_first t vs)
remove_first t (cons v vs) = cons v (remove_first t vs)

unfoldable pub remove_each : List Text → Values → Values
unfolding remove_first
remove_each [] vs = vs
remove_each (t ∷ ts) vs = remove_each ts (remove_first t vs)

unfoldable pub remove_fields : Option (List Text) → Fields → Fields
remove_fields none data' = data'
remove_fields (some []) data' = data'
remove_fields (some (f ∷ fs)) data' = remove_fields (some fs) (delete f data')

abbrev stands_in : Text → Text → Bool
stands_in t s = elim (index_of t s) [ none ↦ false | some i ↦ true ]

abbrev of_option : Option Text → Value
of_option none = undefined
of_option (some s) = str s

-- Only arrays have both `indexOf` and `splice`; a string has the first alone.
unfoldable pub drop_tags : Value → List Text → Fields → Result Fields
unfolding remove_each
drop_tags (arr vs) ts data' = ok (set tags_key (arr (remove_each ts vs)) data')
drop_tags (str s) ts data' = if any (λ t. stands_in t s) ts then throw type_error else ok data'
drop_tags v [] data' = ok data'
drop_tags v (t ∷ ts) data' = throw type_error

unfoldable pub remove_tags : Option (List Text) → Fields → Result Fields
unfolding drop_tags
remove_tags none data' = ok data'
remove_tags (some ts) data' = drop_tags (get tags_key (with_tags data')) ts (with_tags data')

module _ (js : Engine) (now_text : Text → Text) where
  -- Each added field sees those added before it.
  unfoldable pub add_fields :
      List (Text × List Part) → List (Text × Text) → Fields → List (Text × List Part) × Fields
  unfolding replace_by_fields
  add_fields c [] data' = (c, data')
  add_fields c ((f, s) ∷ fs) data' =
      let (c', r) = replace_by_fields js now_text c data' s in
      add_fields c' fs (set f (of_option r) data')
