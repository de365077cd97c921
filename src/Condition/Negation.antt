-- ===== src/Condition/Negation.antt =====
-- Negation through the connectives, errors included.
use node_logstash.Js.Value.{Fields, undefined, ok}
use node_logstash.Js.Convert.{Engine}
use node_logstash.Condition.{
  negation, conjunction, disjunction, exclusive, nand, Condition, cond, Operand, bare, nested,
  compute, get_bool,
}
use node_logstash.Prelude.{◌≡◌, Bool, Option, none, arith}

-- `! o`
abbrev pub negated : Operand → Condition
negated o = cond negation o (bare undefined)

module _ (js : Engine) where
  -- `nand` is the negation of `and`, and both are the `or` of the negated operands, on every
  -- outcome of the operands: the same error is thrown, and the right operand is left out alike.
  compute-nand :
      (l r : Operand) (d : Option Fields)
      → (compute js (negated (nested (cond conjunction l r))) d ≡ compute js (cond nand l r) d)
        × (compute js (cond disjunction (nested (negated l)) (nested (negated r))) d
            ≡ compute js (cond nand l r) d)
  unfolding compute
  compute-nand l r d = (ground arith, ground arith)

  -- `xor` of two operands that have values is `or` without `and`.
  compute-exclusive :
      (l r : Operand) (d : Option Fields) {a b : Bool}
      → get_bool js l none ≡ ok a
      → get_bool js r none ≡ ok b
      → compute js (cond exclusive l r) d
        ≡ compute js (cond conjunction (nested (cond disjunction l r)) (nested (cond nand l r))) d
  unfolding compute
  compute-exclusive l r d p q = ground arith
