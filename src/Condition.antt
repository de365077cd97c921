-- ===== src/Condition.antt =====
-- lib/lib/condition_evaluator.js: the conditions of the `if` blocks, evaluated on a message.
-- A condition is the object that lib/logstash_config.jison builds: an operator with operands that
-- are {value: v}, {field: f}, another condition, or a bare value. The message is `none` where the
-- code calls `compute` with no data.
pub mod Negation
pub mod Blind
pub mod Order
use node_logstash.Js.Number.{Number, num_lt, num_ge, is_nan}
use node_logstash.Js.Value.{
  Value, undefined, null, bool, num, str, arr, Values, nil, cons, Fields, truthy, Error, type_error,
  syntax_error, message, Result, ok, throw, ◌>>=◌, map_ok,
}
use node_logstash.Js.Object.{get}
use node_logstash.Js.Convert.{Engine, to_text, to_string}
use node_logstash.Prelude.{
  Bool, true, false, not, Option, none, some, [], ◌∷◌, if◌then◌else◌, Text, codes, ◌===◌,
}

pub data Op : Type 0 where
  eq ne matches not_matches within not_within gt le ge lt negation conjunction disjunction : Op
  exclusive nand : Op
  other : Text → Op

mutual
  pub data Condition : Type 0 where
    cond : Op → Operand → Operand → Condition

  pub data Operand : Type 0 where
    value : Value → Operand
    of_field : Text → Operand
    nested : Condition → Operand
    bare : Value → Operand

abbrev not_implemented : Error
not_implemented = message (codes "Not implemented get for ")

-- `data[f]`: with no data this is a TypeError.
abbrev read_field : Text → Option Fields → Result Value
read_field f none = throw type_error
read_field f (some data') = ok (get f data')

-- `get`: `o.value` is tried first, and only a truthy one counts.
unfoldable pub get_operand : Operand → Option Fields → Result Value
get_operand (value v) data' = if truthy v then ok v else throw not_implemented
get_operand (of_field []) data' = throw not_implemented
get_operand (of_field (c ∷ f)) data' = read_field (c ∷ f) data'
get_operand (nested c) data' = throw not_implemented
get_operand (bare undefined) data' = throw type_error
get_operand (bare null) data' = throw type_error
get_operand (bare _) data' = throw not_implemented

abbrev only_string : Value → Result Text
only_string (str s) = ok s
only_string _ = throw (message (codes "Need a string, got "))

unfoldable pub get_string : Operand → Option Fields → Result Text
unfolding get_operand
get_string o data' = get_operand o data' >>= only_string

abbrev pub num_gt : Number → Number → Bool
num_gt a b = num_lt b a

-- `get_bool(left) && get_bool(right)` and `||`, whose right operand may not be evaluated.
abbrev pub and_then : Result Bool → Result Bool → Result Bool
and_then l r = l >>= λ b. if b then r else ok false

abbrev pub or_else : Result Bool → Result Bool → Result Bool
or_else l r = l >>= λ b. if b then ok true else r

-- `xor` evaluates the right operand first.
abbrev pub exclusive_or : Result Bool → Result Bool → Result Bool
exclusive_or l r = r >>= λ b. map_ok (λ a. if a then not b else b) l

abbrev not_a_boolean : Result Bool
not_a_boolean = throw (message (codes "Not a boolean : "))

module _ (js : Engine) where
  unfoldable pub force_string : Value → Result Text
  unfolding to_string
  force_string (str s) = ok s
  force_string undefined = ok []
  force_string v = to_string js v

  -- `parseFloat` of what is no number; NaN is refused there, and only there.
  unfoldable pub force_number : Value → Result Number
  unfolding to_text
  force_number (num n) = ok n
  force_number v =
      if is_nan (js.parse_float (to_text js v))
      then throw (message (codes "Unable to cast to int : "))
      else ok (js.parse_float (to_text js v))

  -- `==`: the left operand is read and converted before the right one.
  unfoldable pub equal : Operand → Operand → Option Fields → Result Bool
  unfolding get_operand force_string
  equal l r data' = do
    l' ← get_operand l data' >>= force_string
    r' ← get_operand r data' >>= force_string
    ok (l' === r')

  abbrev run_regexp : Text → Text → Result Bool
  run_regexp p s = elim (js.regexp_test p s) [ none ↦ throw syntax_error | some b ↦ ok b ]

  -- `=~`: the pattern comes first; an invalid one throws before the left operand is read.
  unfoldable pub matches_regexp : Operand → Operand → Option Fields → Result Bool
  unfolding get_string get_operand force_string
  matches_regexp l r data' = do
    p ← get_string r data'
    _ ← run_regexp p []
    s ← get_operand l data' >>= force_string
    run_regexp p s

  -- The loop of `in`; it stops at the first item that is equal.
  unfoldable pub contains : Text → Values → Result Bool
  unfolding force_string
  contains l nil = ok false
  contains l (cons v vs) =
      let rest = contains l vs in force_string v >>= λ s. if s === l then ok true else rest

  abbrev in_array : Text → Value → Result Bool
  in_array l (arr vs) = contains l vs
  in_array l _ = throw (message (codes "In / not in right args must be an array : "))

  -- `in`
  unfoldable pub is_within : Operand → Operand → Option Fields → Result Bool
  unfolding get_operand force_string contains
  is_within l r data' = do
    r' ← get_operand r data'
    l' ← get_operand l data' >>= force_string
    in_array l' r'

  -- The two orders that the code computes: `>` as `num_gt`, and `>=`.
  unfoldable pub compare_by :
      (Number → Number → Bool) → Operand → Operand → Option Fields → Result Bool
  unfolding get_operand force_number
  compare_by test l r data' = do
    l' ← get_operand l data' >>= force_number
    r' ← get_operand r data' >>= force_number
    ok (test l' r')

  -- `compute`, and `get_bool` on an operand. The connectives call `get_bool` with no data.
  unfoldable mutual
    unfolding equal matches_regexp is_within compare_by

    pub compute : Condition → Option Fields → Result Bool
    compute (cond eq l r) data' = equal l r data'
    compute (cond ne l r) data' = map_ok not (equal l r data')
    compute (cond matches l r) data' = matches_regexp l r data'
    compute (cond not_matches l r) data' = map_ok not (matches_regexp l r data')
    compute (cond within l r) data' = is_within l r data'
    compute (cond not_within l r) data' = map_ok not (is_within l r data')
    compute (cond gt l r) data' = compare_by num_gt l r data'
    compute (cond le l r) data' = map_ok not (compare_by num_gt l r data')
    compute (cond ge l r) data' = compare_by num_ge l r data'
    compute (cond lt l r) data' = map_ok not (compare_by num_ge l r data')
    compute (cond negation l r) data' = map_ok not (get_bool l data')
    compute (cond conjunction l r) data' = and_then (get_bool l none) (get_bool r none)
    compute (cond disjunction l r) data' = or_else (get_bool l none) (get_bool r none)
    compute (cond exclusive l r) data' = exclusive_or (get_bool l none) (get_bool r none)
    compute (cond nand l r) data' = map_ok not (and_then (get_bool l none) (get_bool r none))
    compute (cond (other o) l r) data' = throw (message (codes "Not implemented op "))

    pub get_bool : Operand → Option Fields → Result Bool
    get_bool (nested c) data' = compute c data'
    get_bool (value v) data' = not_a_boolean
    get_bool (of_field f) data' = not_a_boolean
    get_bool (bare (bool b)) data' = ok b
    get_bool (bare (str s)) data' =
        if s === codes "true"
        then ok true
        else if s === codes "false"
        then ok false
        else not_a_boolean
    get_bool (bare undefined) data' = throw type_error
    get_bool (bare null) data' = throw type_error
    get_bool (bare _) data' = not_a_boolean
