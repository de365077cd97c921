-- ===== src/Component/Filtering.antt =====
-- `processMessage` of lib/lib/base_component.js: which messages a component takes.
pub mod Laws
use node_logstash.Js.Value.{Value, Fields, end, field, truthy, Result, ok, throw, ◌>>=◌}
use node_logstash.Js.Object.{get, strict_eq}
use node_logstash.Js.Convert.{Engine, to_text}
use node_logstash.Condition.{Condition, compute}
use node_logstash.Prelude.{
  Bool, true, false, not, ◌&&◌, Option, none, some, List, [], ◌∷◌, if◌then◌else◌, all, Text, codes,
}

-- `__dynamic_eval__`: the conditions of the branches before, and that of the component's own branch,
-- which an `else` has not.
pub record DynamicEval : Type 0 where
  pub false_clauses : List Condition
  pub true_clause : Option Condition

-- `message_filtering` and `__dynamic_eval__`. A list that was never created is an empty one here.
-- A pattern stands for the RegExp that `loadConfig` made of it.
pub record Filtering : Type 0 where
  pub only_type : Value
  pub only_field_exist : List Text
  pub only_field_equal : Fields
  pub only_field_match : List (Text × Text)
  pub dynamic_eval : Option DynamicEval

all_equal : Fields → Fields → Bool
all_equal end data' = true
all_equal (field i v o) data' =
    truthy (get i data') && (strict_eq (get i data') v && all_equal o data')

module _ (js : Engine) where
  -- `re.exec(v)` converts `v` to a string.
  abbrev exec : Text → Value → Bool
  exec p v = elim (js.regexp_test p (to_text js v)) [ none ↦ false | some b ↦ b ]

  all_match : List (Text × Text) → Fields → Bool
  unfolding to_text
  all_match [] data' = true
  all_match ((i, p) ∷ l) data' = truthy (get i data') && (exec p (get i data') && all_match l data')

  -- The loop over the false clauses, which breaks at the first that is true.
  unfoldable pub any_true : List Condition → Fields → Result Bool
  any_true [] data' = ok false
  any_true (c ∷ cs) data' =
      let rest = any_true cs data' in compute js c (some data') >>= λ b. if b then ok true else rest

  abbrev true_clause_holds : Option Condition → Fields → Result Bool
  true_clause_holds none data' = ok true
  true_clause_holds (some c) data' = compute js c (some data')

  -- The `try` block; what is thrown in it is logged, and the message is not taken.
  abbrev caught : Result Bool → Bool
  caught (ok b) = b
  caught (throw e) = false

  unfoldable pub eval_dynamic : DynamicEval → Fields → Bool
  unfolding any_true
  eval_dynamic e data' = caught (
      any_true e.false_clauses data' >>= λ b.
      if b then ok false else true_clause_holds e.true_clause data')

  abbrev dynamic_holds : Option DynamicEval → Fields → Bool
  dynamic_holds none data' = true
  dynamic_holds (some e) data' = eval_dynamic e data'

  unfoldable pub process_message : Filtering → Fields → Bool
  unfolding all_equal all_match eval_dynamic
  process_message f data' =
      if truthy f.only_type && not (strict_eq f.only_type (get (codes "type") data'))
      then false
      else if not (all (λ i. truthy (get i data')) f.only_field_exist)
      then false
      else if not (all_equal f.only_field_equal data')
      then false
      else if not (all_match f.only_field_match data')
      then false
      else dynamic_holds f.dynamic_eval data'
