-- ===== src/Loader/Order.antt =====
-- `files.sort()`: strings by their code units.
use mathlib.Core.List.{Perm, Permᴰ}
use mathlib.Core.Logic.{∥∥₁_elim}
use node_logstash.Prelude.{
  ◌≡◌, refl, ap, ap₂, ◌∙◌, inl, inr, Bool, true, false, ◌&&◌, ◌||◌, List, [], ◌∷◌, arith, ltb, ◌==◌,
  if◌then◌else◌, Bool-cases, Text,
}

abbrev pub text_le : Text → Text → Bool
text_le [] t = true
text_le (c ∷ s) [] = false
text_le (c ∷ s) (d ∷ t) = ltb c d || ((c == d) && text_le s t)

unfoldable pub insert : Text → List Text → List Text
insert x [] = x ∷ []
insert x (y ∷ l) = let rest = insert x l in if text_le x y then x ∷ y ∷ l else y ∷ rest

unfoldable pub sort : List Text → List Text
unfolding insert
sort [] = []
sort (x ∷ l) = insert x (sort l)

text_le_total : (s t : Text) → text_le s t ≡ false → text_le t s ≡ true
text_le_total [] t h = ground arith
text_le_total (c ∷ s) [] h = refl
text_le_total (c ∷ s) (d ∷ t) h = ground (arith, text_le_total s t)

text_le_antisymm : (s t : Text) → text_le s t ≡ true → text_le t s ≡ true → s ≡ t
text_le_antisymm [] [] h k = refl
text_le_antisymm [] (d ∷ t) h k = ground arith
text_le_antisymm (c ∷ s) [] h k = ground arith
text_le_antisymm (c ∷ s) (d ∷ t) h k = ground (arith, text_le_antisymm s t)

text_le_trans : (s t u : Text) → text_le s t ≡ true → text_le t u ≡ true → text_le s u ≡ true
text_le_trans [] t u h k = refl
text_le_trans (c ∷ s) [] u h k = ground arith
text_le_trans (c ∷ s) (d ∷ t) [] h k = ground arith
text_le_trans (c ∷ s) (d ∷ t) (e ∷ u) h k = ground (arith, text_le_trans s t u)

insert_comm : (x y : Text) (l : List Text) → insert x (insert y l) ≡ insert y (insert x l)
unfolding insert
insert_comm x y [] = ground (arith, text_le_total x y, text_le_antisymm x y)
insert_comm x y (z ∷ l) = elim (Bool-cases (text_le y z)) [
  | inl ey ↦ elim (Bool-cases (text_le x z)) [
    | inl ex ↦ rw (ey, ex) (ground (arith, text_le_total x y, text_le_antisymm x y, ex, ey))
    | inr ex ↦ rw (ey, ex) (ground (arith, text_le_total x z, text_le_trans x y z, ex, ey))
  ]
  | inr ey ↦ elim (Bool-cases (text_le x z)) [
    | inl ex ↦ rw (ey, ex) (ground (arith, text_le_total y z, text_le_trans y x z, ex, ey))
    | inr ex ↦ rw (ey, ex, ey) (ap (λ r. z ∷ r) (insert_comm x y l))
  ]
]

-- The order of a list is forgotten.
sort-Permᴰ : {k l : List Text} → Permᴰ k l → sort k ≡ sort l
unfolding sort
sort-Permᴰ Permᴰ.nil = refl
sort-Permᴰ (Permᴰ.cons e p) = ap₂ insert e (sort-Permᴰ p)
sort-Permᴰ (Permᴰ.swap {l = l} e f) =
    ap₂ (λ x y. insert x (insert y (sort l))) e f ∙ insert_comm _ _ (sort l)
sort-Permᴰ (Permᴰ.trans p q) = sort-Permᴰ p ∙ sort-Permᴰ q

pub sort-Perm : {k l : List Text} → Perm k l → sort k ≡ sort l
sort-Perm {k} {l} p =
    let same : Permᴰ k l → sort k ≡ sort l = λ q. sort-Permᴰ q in ∥∥₁_elim p (hlevel) same
