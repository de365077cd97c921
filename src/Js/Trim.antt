-- ===== src/Js/Trim.antt =====
-- `trim` of JavaScript strings.
use node_logstash.Prelude.{
  ◌≡◌, refl, Bool, true, false, not, ◌&&◌, ◌||◌, [], ◌∷◌, arith, ℕ, leb, ◌==◌, if◌then◌else◌, Text,
  ◌===◌,
}

-- What `trim` removes.
abbrev pub is_space : ℕ → Bool
is_space c =
    (leb 9 c && leb c 13)
    || (c == 32)
    || (c == 160)
    || (c == 5760)
    || (leb 8192 c && leb c 8202)
    || (c == 8232)
    || (c == 8233)
    || (c == 8239)
    || (c == 8287)
    || (c == 12288)
    || (c == 65279)

unfoldable pub trim_left : Text → Text
trim_left [] = []
trim_left (c ∷ s) = let rest = trim_left s in if is_space c then rest else c ∷ s

unfoldable pub trim_right : Text → Text
trim_right [] = []
trim_right (c ∷ s) = elim (trim_right s) [
  | [] ↦ if is_space c then [] else c ∷ []
  | d ∷ t ↦ c ∷ d ∷ t
]

unfoldable pub trim : Text → Text
unfolding trim_left trim_right
trim s = trim_right (trim_left s)

-- No white space at either end.
abbrev pub starts_calm : Text → Bool
starts_calm [] = true
starts_calm (c ∷ s) = not (is_space c)

abbrev pub ends_calm : Text → Bool
ends_calm [] = true
ends_calm (c ∷ []) = not (is_space c)
ends_calm (c ∷ d ∷ s) = ends_calm (d ∷ s)

trim_left_lem : (s : Text) → starts_calm s ≡ true → trim_left s ≡ s
unfolding trim_left
trim_left_lem [] h = refl
trim_left_lem (c ∷ s) h = ground arith

trim_right_lem : (s : Text) → ends_calm s ≡ true → trim_right s ≡ s
unfolding trim_right
trim_right_lem [] h = refl
trim_right_lem (c ∷ []) h = ground arith
trim_right_lem (c ∷ d ∷ s) h = rw (trim_right_lem (d ∷ s) h) refl

pub trim_lem : (s : Text) → starts_calm s ≡ true → ends_calm s ≡ true → trim s ≡ s
unfolding trim
trim_lem s h k = rw (trim_left_lem s h) (trim_right_lem s k)

trim_right_ne : (c : ℕ) (s : Text) → is_space c ≡ false → (trim_right (c ∷ s) === []) ≡ false
unfolding trim_right
trim_right_ne c s h =
    elim (trim_right s)
      as (λ t.
        ((elim t [ [] ↦ if is_space c then [] else c ∷ [] | d ∷ u ↦ c ∷ d ∷ u ]) === []) ≡ false) [
          | [] ↦ rw h refl
          | d ∷ u ↦ refl
        ]

pub trim_ne : (c : ℕ) (s : Text) → is_space c ≡ false → (trim (c ∷ s) === []) ≡ false
unfolding trim trim_left
trim_ne c s h = rw h (trim_right_ne c s h)
