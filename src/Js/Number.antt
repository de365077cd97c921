-- ===== src/Js/Number.antt =====
-- JavaScript numbers. A finite double is ±m / 2 ^ s for some m and s, so the orders are exact.
use node_logstash.Prelude.{
  ◌≡◌, Bool, true, false, not, ◌&&◌, ◌||◌, arith, ℕ, ◌+◌, ◌*◌, ◌^◌, ltb, leb,
}

pub data Number : Type 0 where
  nan : Number
  -- The flag is the sign: `true` for a negative number.
  infinite : Bool → Number
  dyadic : Bool → ℕ → ℕ → Number

abbrev pub nat : ℕ → Number
nat n = dyadic false n 0

abbrev pub is_nan : Number → Bool
is_nan nan = true
is_nan (infinite _) = false
is_nan (dyadic _ _ _) = false

-- `a < b`; a comparison with NaN is false.
unfoldable pub num_lt : Number → Number → Bool
num_lt nan b = false
num_lt (infinite neg) nan = false
num_lt (infinite neg) (infinite neg') = neg && not neg'
num_lt (infinite neg) (dyadic _ _ _) = neg
num_lt (dyadic _ _ _) nan = false
num_lt (dyadic _ _ _) (infinite neg) = not neg
num_lt (dyadic false m s) (dyadic false n t) = ltb (m * 2 ^ t) (n * 2 ^ s)
num_lt (dyadic false m s) (dyadic true n t) = false
num_lt (dyadic true m s) (dyadic false n t) = ltb 0 (m + n)
num_lt (dyadic true m s) (dyadic true n t) = ltb (n * 2 ^ s) (m * 2 ^ t)

-- `a >= b`
unfoldable pub num_ge : Number → Number → Bool
num_ge a b = not (is_nan a || is_nan b || num_lt a b)

-- `a === b` on numbers
unfoldable pub num_eq : Number → Number → Bool
num_eq a b = num_ge a b && num_ge b a

-- A number is falsy if it is NaN or a zero.
abbrev pub num_truthy : Number → Bool
num_truthy nan = false
num_truthy (infinite _) = true
num_truthy (dyadic _ m _) = ltb 0 m

-- `a >= b` is what is left when `a < b` fails, unless one of them is NaN.
pub num_ge-not-lt :
    (a b : Number) → is_nan a ≡ false → is_nan b ≡ false → num_ge a b ≡ not (num_lt a b)
unfolding num_ge
num_ge-not-lt a b p q = rw (p, q)

pub num_ge-nat : (m n : ℕ) → num_ge (nat m) (nat n) ≡ leb n m
unfolding num_ge num_lt
num_ge-nat m n = ground arith

pub num_lt-nat : (m n : ℕ) → num_lt (nat m) (nat n) ≡ ltb m n
unfolding num_lt
num_lt-nat m n = ground arith
