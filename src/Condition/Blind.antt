-- ===== src/Condition/Blind.antt =====
-- What the connectives and the literals of a condition do not see: `compute` calls `get_bool` on
-- both sides of `and`, `or`, `xor` and `nand` with no data, and `get` takes a falsy literal for a
-- missing one.
use node_logstash.Js.Value.{Value, Fields, truthy, type_error, ok, throw}
use node_logstash.Js.Convert.{Engine}
use node_logstash.Condition.{
  Op, eq, ne, matches, not_matches, within, not_within, gt, le, ge, lt, conjunction, disjunction,
  exclusive, nand, cond, Operand, value, of_field, nested, compute,
}
use node_logstash.Prelude.{
  ◌≡◌, refl, ◌≢◌, ◌⊎◌, Bool, true, false, Option, some, ◌∷◌, arith, ℕ, Text,
}

abbrev pub is_connective : Op → Bool
is_connective conjunction = true
is_connective disjunction = true
is_connective exclusive = true
is_connective nand = true
is_connective _ = false

abbrev pub is_comparison : Op → Bool
is_comparison eq = true
is_comparison ne = true
is_comparison matches = true
is_comparison not_matches = true
is_comparison within = true
is_comparison not_within = true
is_comparison gt = true
is_comparison le = true
is_comparison ge = true
is_comparison lt = true
is_comparison _ = false

module _ (js : Engine) where
  -- A condition whose operator is `and`, `or`, `xor` or `nand` has the same outcome, error or not,
  -- on every two messages.
  compute-connective_blind :
      (op : Op) (l r : Operand) (d d' : Fields)
      → is_connective op ≡ true
      → compute js (cond op l r) (some d) ≡ compute js (cond op l r) (some d')
  unfolding compute
  compute-connective_blind conjunction l r d d' h = refl
  compute-connective_blind disjunction l r d d' h = refl
  compute-connective_blind exclusive l r d d' h = refl
  compute-connective_blind nand l r d d' h = refl
  compute-connective_blind _ l r d d' h = cc

  -- `and`, `or` and `nand` throw a TypeError, whatever the message is, where their left operand
  -- compares a field by `==`, `!=`, `>`, `>=`, `<` or `<=`.
  pub compute-connective_on_field :
      (op inner : Op) (c : ℕ) (f : Text) (r right : Operand) (d : Fields)
      → (op ≡ conjunction) ⊎ ((op ≡ disjunction) ⊎ (op ≡ nand))
      → (inner ≡ eq)
        ⊎ ((inner ≡ ne) ⊎ ((inner ≡ gt) ⊎ ((inner ≡ ge) ⊎ ((inner ≡ lt) ⊎ (inner ≡ le)))))
      → compute js (cond op (nested (cond inner (of_field (c ∷ f)) r)) right) (some d)
        ≡ throw type_error
  unfolding compute
  compute-connective_on_field op inner c f r right d h k = ground arith

  -- A comparison with a falsy literal ("", 0 or false) on its right never has a result.
  compute-falsy_literal :
      (op : Op) (l : Operand) (v : Value) (d : Option Fields) (b : Bool)
      → is_comparison op ≡ true
      → truthy v ≡ false
      → compute js (cond op l (value v)) d ≢ ok b
  unfolding compute
  compute-falsy_literal eq l v d b h k = ground arith
  compute-falsy_literal ne l v d b h k = ground arith
  compute-falsy_literal matches l v d b h k = ground arith
  compute-falsy_literal not_matches l v d b h k = ground arith
  compute-falsy_literal within l v d b h k = ground arith
  compute-falsy_literal not_within l v d b h k = ground arith
  compute-falsy_literal gt l v d b h k = ground arith
  compute-falsy_literal ge l v d b h k = ground arith
  compute-falsy_literal lt l v d b h k = ground arith
  compute-falsy_literal le l v d b h k = ground arith
  compute-falsy_literal _ l v d b h k = λ e. cc
