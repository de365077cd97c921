-- ===== src/Filter/Grok/Uncapture.antt =====
-- The replacement of the groups without a name in a pattern.
use node_logstash.Filter.Grok.{uncapture}
use node_logstash.Prelude.{
  ◌≡◌, refl, inl, inr, Bool, true, not, ◌&&◌, [], ◌∷◌, arith, ◌==◌, Bool-cases, Text, codes,
  starts_with,
}

-- No `(` stands without a `?` behind it.
abbrev pub all_named : Text → Bool
all_named [] = true
all_named (c ∷ s) = not (c == b'(' && not (starts_with (codes "?") s)) && all_named s

starts_with-uncapture :
    (s : Text) → starts_with (codes "?") (uncapture s) ≡ starts_with (codes "?") s
unfolding uncapture
starts_with-uncapture [] = refl
starts_with-uncapture (c ∷ s) = elim (Bool-cases (c == b'(' && not (starts_with (codes "?") s))) [
  | inl e ↦ ground arith
  | inr e ↦ ground arith
]

uncapture-all_named : (s : Text) → all_named (uncapture s) ≡ true
unfolding uncapture
uncapture-all_named [] = refl
uncapture-all_named (c ∷ s) = elim (Bool-cases (c == b'(' && not (starts_with (codes "?") s))) [
  | inl e ↦ ground (arith, uncapture-all_named s)
  | inr e ↦ ground (arith, uncapture-all_named s, starts_with-uncapture s)
]

uncapture-all_named_fixed : (s : Text) → all_named s ≡ true → uncapture s ≡ s
unfolding uncapture
uncapture-all_named_fixed [] h = refl
uncapture-all_named_fixed (c ∷ s) h = ground (arith, uncapture-all_named_fixed s)
