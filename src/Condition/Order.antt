-- ===== src/Condition/Order.antt =====
-- The order operators and `in` against independent descriptions of them.
use node_logstash.Js.Number.{Number, is_nan, num_lt, num_ge, num_ge-not-lt}
use node_logstash.Js.Value.{Value, arr, Values, nil, cons, Fields, ok, ◌>>=◌, Result, map_ok}
use node_logstash.Js.Convert.{Engine}
use node_logstash.Condition.{
  within, not_within, gt, le, ge, lt, cond, Operand, compute, get_operand, compare_by, force_number,
  force_string, contains, is_within, num_gt,
}
use node_logstash.Prelude.{
  ◌≡◌, refl, ap, Bool, false, not, Option, List, [], ◌∷◌, arith, any, Text, ◌===◌,
}

module _ (js : Engine) where
  -- The number of an operand, as the order operators read it.
  abbrev pub number_of : Operand → Option Fields → Result Number
  number_of o d = get_operand o d >>= force_number js

  compare_by_ok :
      (test : Number → Number → Bool) (l r : Operand) (d : Option Fields) {x y : Number}
      → number_of l d ≡ ok x
      → number_of r d ≡ ok y
      → compare_by js test l r d ≡ ok (test x y)
  unfolding compare_by
  compare_by_ok test l r d p q = rw (p, q)

  -- On operands that read as numbers and are not NaN the four operators are one strict order and its
  -- complement: `<` is `>` with the sides exchanged, `<=` is the negation of `>`, `>=` that of `<`.
  pub compute_order :
      (l r : Operand) (d : Option Fields) {x y : Number}
      → number_of l d ≡ ok x
      → number_of r d ≡ ok y
      → is_nan x ≡ false
      → is_nan y ≡ false
      → (compute js (cond lt l r) d ≡ ok (num_lt x y))
        × (compute js (cond gt r l) d ≡ ok (num_lt x y))
        × (compute js (cond ge l r) d ≡ ok (not (num_lt x y)))
        × (compute js (cond le r l) d ≡ ok (not (num_lt x y)))
  unfolding compute
  compute_order l r d {x} {y} p q nx ny =
      let by_ge = compare_by_ok num_ge l r d p q in
      let by_gt = compare_by_ok num_gt r l d q p in
      (
        rw (by_ge, num_ge-not-lt x y nx ny) (ground arith),
        by_gt,
        rw (by_ge, num_ge-not-lt x y nx ny) refl,
        rw by_gt refl,
      )

  -- The items of an array, each converted to a text without an error.
  pub data Texts : Values → List Text → Type 0 where
    no_items : Texts nil []
    item :
        {v : Value} {vs : Values} {t : Text} {ts : List Text}
        → force_string js v ≡ ok t
        → Texts vs ts
        → Texts (cons v vs) (t ∷ ts)

  contains-any :
      (x : Text) {vs : Values} {ts : List Text}
      → Texts vs ts
      → contains js x vs ≡ ok (any (λ t. t === x) ts)
  unfolding contains
  contains-any x no_items = refl
  contains-any x (item {t} p ps) = ground (arith, p, contains-any x ps)

  -- On an array whose items all convert, `in` tells whether the left text is one of their texts, and
  -- `not in` whether it is not.
  compute-within :
      (l r : Operand) (d : Option Fields) (x : Text) {vs : Values} {ts : List Text}
      → get_operand r d ≡ ok (arr vs)
      → (get_operand l d >>= force_string js) ≡ ok x
      → Texts vs ts
      → (compute js (cond within l r) d ≡ ok (any (λ t. t === x) ts))
        × (compute js (cond not_within l r) d ≡ ok (not (any (λ t. t === x) ts)))
  unfolding compute is_within
  compute-within l r d x p q ts =
      (rw (p, q) (contains-any x ts), rw (p, q) (ap (map_ok not) (contains-any x ts)))
