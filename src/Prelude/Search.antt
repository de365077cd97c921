-- ===== src/Prelude/Search.antt =====
-- `indexOf`, `substring` and `slice` on texts: what is found, and what is left before and after it.
use Prim.Native.Nat.{ℕ, zero, suc, ◌+◌, ◌<◌}
use mathlib.Core.Path.{◌≡◌, refl, ap}
use mathlib.Core.Logic.{inl, inr}
use mathlib.Core.Bool.{true, false}
use mathlib.Core.Option.{Option, none, some}
use mathlib.Core.List.{List, [], ◌∷◌, ◌++◌}
use native.Mathlib.Omega.{arith}
use native.Mathlib.Nat.{zero-add, suc-add}
use node_logstash.Prelude.Tests.{◌==◌, ==_refl, Bool-cases}
use node_logstash.Prelude.Lists.{length, take, drop, All, length-drop}
use node_logstash.Prelude.Texts.{Text, starts_with, index_of, one_later}

abbrev pub Lacks : ℕ → Text → Type 0
Lacks c = All (λ d. (c == d) ≡ false)

pub take-append {ℓ} : {A : Type ℓ} (xs ys : List A) → take (length xs) (xs ++ ys) ≡ xs
take-append [] ys = refl
take-append (x ∷ xs) ys = ap (λ r. x ∷ r) (take-append xs ys)

pub drop-append {ℓ} : {A : Type ℓ} (xs ys : List A) → drop (length xs) (xs ++ ys) ≡ ys
drop-append [] ys = refl
drop-append (x ∷ xs) ys = drop-append xs ys

drop-nil {ℓ} : {A : Type ℓ} (n : ℕ) → drop {A = A} n [] ≡ []
drop-nil zero = refl
drop-nil (suc n) = refl

pub drop-add {ℓ} : {A : Type ℓ} (m n : ℕ) (xs : List A) → drop n (drop m xs) ≡ drop (m + n) xs
drop-add zero n xs = rw zero-add
drop-add (suc m) n [] = rw suc-add (drop-nil n)
drop-add (suc m) n (x ∷ xs) = rw suc-add (drop-add m n xs)

pub starts_with-append : (p s : Text) → starts_with p (p ++ s) ≡ true
starts_with-append [] s = refl
starts_with-append (c ∷ p) s = ground (arith, starts_with-append p s)

pub starts_with_sound : (p s : Text) → starts_with p s ≡ true → s ≡ p ++ drop (length p) s
starts_with_sound [] s h = refl
starts_with_sound (c ∷ p) [] h = cc
starts_with_sound (c ∷ p) (d ∷ s) h = ground (arith, starts_with_sound p s)

-- What `indexOf` finds is there.
pub index_of_sound :
    (p s : Text) (i : ℕ) → index_of p s ≡ some i → s ≡ take i s ++ (p ++ drop (length p) (drop i s))
index_of_sound [] [] i h = ground arith
index_of_sound (c ∷ p) [] i h = ground arith
index_of_sound p (d ∷ s) zero h = elim (Bool-cases (starts_with p (d ∷ s))) [
  | inl here ↦ starts_with_sound p (d ∷ s) here
  | inr later ↦ absurd (no_zero (index_of p s) (rw later at h))
]
  where
    no_zero : (o : Option ℕ) → one_later o ≡ some 0 → ⊥
    no_zero none e = ground arith
    no_zero (some j) e = ground arith
index_of_sound p (d ∷ s) (suc i) h = ap (λ r. d ∷ r) (index_of_sound p s i (before h))
  where
    before : index_of p (d ∷ s) ≡ some (suc i) → index_of p s ≡ some i
    before e = ground arith

-- Nothing is found later than the first place.
pub index_of-append :
    (c : ℕ) (p a b : Text) → Lacks c a → index_of (c ∷ p) (a ++ ((c ∷ p) ++ b)) ≡ some (length a)
index_of-append c p [] b h = ground (arith, starts_with-append p b, ==_refl c)
index_of-append c p (d ∷ a) b h = ground (arith, h.0, index_of-append c p a b h.1)

-- One character that is not found is nowhere.
pub index_of-none : (c : ℕ) (s : Text) → index_of (c ∷ []) s ≡ none → Lacks c s
index_of-none c [] h = tt
index_of-none c (d ∷ s) h = ground (arith, index_of-none c s)

pub index_of-Lacks : (c : ℕ) (p s : Text) → Lacks c s → index_of (c ∷ p) s ≡ none
index_of-Lacks c p [] h = refl
index_of-Lacks c p (d ∷ s) h = ground (arith, h.0, index_of-Lacks c p s h.1)

-- Before the first place of a character it does not stand.
pub index_of-take-Lacks :
    (c : ℕ) (s : Text) (i : ℕ) → index_of (c ∷ []) s ≡ some i → Lacks c (take i s)
index_of-take-Lacks c [] i h = ground arith
index_of-take-Lacks c (d ∷ s) zero h = tt
index_of-take-Lacks c (d ∷ s) (suc i) h = (ground arith, index_of-take-Lacks c s i (ground arith))

-- What follows a match is shorter.
pub length-drop-lt :
    (c : ℕ) (p s : Text) {i : ℕ} (k : ℕ)
    → 0 < k
    → index_of (c ∷ p) s ≡ some i
    → length (drop k s) < length s
length-drop-lt c p [] k h e = ground arith
length-drop-lt c p (d ∷ s) k h e = omega (arith, length-drop k (d ∷ s))
