-- ===== src/Filter/Split/Laws.antt =====
-- The texts of a split are the pieces between the delimiters, without the empty ones.
use node_logstash.Filter.Split.{when_full, split_texts}
use node_logstash.Prelude.{
  drop-add, index_of_sound, length-drop-lt, ◌≡◌, refl, sym, ap, ◌∙◌, inl, inr, true, none, some,
  List, [], ◌∷◌, ◌++◌, arith, ℕ, zero, suc, ◌+◌, ◌<◌, Option-cases, length, take, drop, All, Text,
  starts_with, index_of, join,
}

-- All pieces, the empty ones included, without those.
abbrev pub full_ones : List Text → List Text
full_ones [] = []
full_ones (p ∷ ps) = when_full p (full_ones ps)

-- A text with no delimiter in it.
abbrev pub IsPiece : Text → Text → Type 0
IsPiece delimiter p = index_of delimiter p ≡ none

starts_with-take : (p s : Text) (i : ℕ) → starts_with p (take i s) ≡ true → starts_with p s ≡ true
starts_with-take [] s i h = refl
starts_with-take (c ∷ p) s zero h = cc
starts_with-take (c ∷ p) [] (suc i) h = cc
starts_with-take (c ∷ p) (d ∷ s) (suc i) h = ground (arith, starts_with-take p s i)

-- Before the first delimiter there is none.
index_of-take :
    (c : ℕ) (p s : Text) (i : ℕ) → index_of (c ∷ p) s ≡ some i → index_of (c ∷ p) (take i s) ≡ none
index_of-take c p s zero h = refl
index_of-take c p [] (suc i) h = ground arith
index_of-take c p (d ∷ s) (suc i) h =
    ground (arith, starts_with-take (c ∷ p) (d ∷ s) (suc i), index_of-take c p s i)

split_none :
    (fuel : ℕ) (delimiter s : Text)
    → index_of delimiter s ≡ none
    → split_texts (suc fuel) delimiter s ≡ when_full s []
unfolding split_texts
split_none fuel delimiter s e = rw (e, split_texts)

split_some :
    (fuel : ℕ) (delimiter s : Text) (i : ℕ)
    → index_of delimiter s ≡ some i
    → split_texts (suc fuel) delimiter s
      ≡ when_full (take i s) (split_texts fuel delimiter (drop (i + length delimiter) s))
unfolding split_texts
split_some fuel delimiter s i e = rw (e, split_texts)

-- The pieces of a text: joined by the delimiter they are the text, none holds a delimiter, and the
-- full ones among them are those that the loop finds.
pub record IsSplit (delimiter s : Text) (texts : List Text) : Type 0 where
  pub pieces : List Text
  pub some_piece : 0 < length pieces
  pub joined : join delimiter pieces ≡ s
  pub cut : All (IsPiece delimiter) pieces
  pub full : full_ones pieces ≡ texts

join-cons :
    (sep p : Text) (ps : List Text) {s : Text}
    → 0 < length ps
    → join sep ps ≡ s
    → join sep (p ∷ ps) ≡ p ++ (sep ++ s)
join-cons sep p [] h e = absurd (omega arith)
join-cons sep p (q ∷ qs) h e = ap (λ r. p ++ (sep ++ r)) e

one_piece :
    (delimiter s : Text) → index_of delimiter s ≡ none → IsSplit delimiter s (when_full s [])
one_piece delimiter s e = record {
  pieces = s ∷ [];
  some_piece = omega arith;
  joined = refl;
  cut = (e, tt);
  full = refl;
}

next_piece :
    (c : ℕ) (p s : Text) (i : ℕ) (texts : List Text)
    → index_of (c ∷ p) s ≡ some i
    → IsSplit (c ∷ p) (drop (i + length (c ∷ p)) s) texts
    → IsSplit (c ∷ p) s (when_full (take i s) texts)
next_piece c p s i texts e h = record {
  pieces = take i s ∷ h.pieces;
  some_piece = omega arith;
  joined =
      join-cons (c ∷ p) (take i s) h.pieces h.some_piece h.joined
      ∙ (rw (← drop-add i (length (c ∷ p)) s) (sym (index_of_sound (c ∷ p) s i e)));
  cut = (index_of-take c p s i e, h.cut);
  full = ap (when_full (take i s)) h.full;
}

-- With a delimiter that is not empty and fuel above the length of the message, the texts of the loop
-- are the pieces of the message between the delimiters, in order and without the empty ones.
pub split_texts-IsSplit :
    (fuel : ℕ) (c : ℕ) (p s : Text)
    → length s < fuel
    → IsSplit (c ∷ p) s (split_texts fuel (c ∷ p) s)
split_texts-IsSplit zero c p s h = absurd (omega arith)
split_texts-IsSplit (suc fuel) c p s h = elim (Option-cases (index_of (c ∷ p) s)) [
  | inl e ↦ rw (split_none fuel (c ∷ p) s e) (one_piece (c ∷ p) s e)
  | inr (i, e) ↦
      let shorter = length-drop-lt c p s {i = i} (i + length (c ∷ p)) (omega arith) e in
      rw (split_some fuel (c ∷ p) s i e) (
        next_piece c p s i _ e
          (split_texts-IsSplit fuel c p (drop (i + length (c ∷ p)) s) (omega (arith, shorter))))
]
