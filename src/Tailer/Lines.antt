-- ===== src/Tailer/Lines.antt =====
-- The loop against a reference that reads one character after the other.
use node_logstash.Tailer.{split_buffer, newline, emit, drain}
use node_logstash.Prelude.{
  Lacks, index_of-Lacks, length-drop-lt, ◌≡◌, refl, sym, ap, ◌∙◌, inl, inr, Bool, true, false, none,
  some, List, [], ◌∷◌, ◌++◌, append-nil, append_assoc, arith, ℕ, zero, suc, ◌+◌, ◌<◌, ltb, ◌==◌,
  Bool-cases, Option-cases, length, take, drop, Text, index_of,
}

-- The character automaton: `cur` is the line so far, and a line is emitted unless it is empty.
unfoldable pub lines_of : Text → Text → List Text × Text
lines_of cur [] = ([], cur)
lines_of cur (c ∷ s) = elim (c == newline) [
  | true ↦ emit (ltb 0 (length cur)) cur (lines_of [] s)
  | false ↦ lines_of (cur ++ c ∷ []) s
]

lines_of-none : (cur s : Text) → index_of (newline ∷ []) s ≡ none → lines_of cur s ≡ ([], cur ++ s)
unfolding lines_of
lines_of-none cur [] h = rw append-nil
lines_of-none cur (c ∷ s) h =
    ground (arith, lines_of-none (cur ++ c ∷ []) s, append_assoc cur (c ∷ []) s)

lines_of-some :
    (cur s : Text) (i : ℕ)
    → index_of (newline ∷ []) s ≡ some i
    → lines_of cur s
      ≡ emit (ltb 0 (length (cur ++ take i s))) (cur ++ take i s) (lines_of [] (drop (suc i) s))
unfolding lines_of
lines_of-some cur [] i h = ground arith
lines_of-some cur (c ∷ s) zero h = ground (arith, append-nil cur)
lines_of-some cur (c ∷ s) (suc i) h =
    ground (arith, lines_of-some (cur ++ c ∷ []) s i, append_assoc cur (c ∷ []) (take i s))

length-take-found : (s : Text) (i : ℕ) → index_of (newline ∷ []) s ≡ some i → length (take i s) ≡ i
length-take-found [] i h = ground arith
length-take-found (c ∷ s) zero h = refl
length-take-found (c ∷ s) (suc i) h = ground (arith, length-take-found s i)

drain-some :
    (fuel : ℕ) (s : Text) (i : ℕ)
    → index_of (newline ∷ []) s ≡ some i
    → drain (suc fuel) s ≡ emit (ltb 0 i) (take i s) (drain fuel (drop (i + 1) s))
unfolding drain
drain-some fuel s i e = rw (e, drain)

drain-none : (fuel : ℕ) (s : Text) → index_of (newline ∷ []) s ≡ none → drain (suc fuel) s ≡ ([], s)
unfolding drain
drain-none fuel s e = rw (e, drain)

-- With fuel above the length of the text the loop emits what the automaton emits, and leaves what
-- it leaves.
pub drain-lines_of : (fuel : ℕ) (s : Text) → length s < fuel → drain fuel s ≡ lines_of [] s
drain-lines_of zero s h = absurd (omega arith)
drain-lines_of (suc fuel) s h = elim (Option-cases (index_of (newline ∷ []) s)) [
  | inl e ↦ drain-none fuel s e ∙ sym (lines_of-none [] s e)
  | inr (i, e) ↦
      let rest =
        drain-lines_of fuel (drop (suc i) s)
          (omega (arith, length-drop-lt newline [] s {i = i} (suc i) (omega arith) e)) in
      let towards : i + 1 ≡ suc i = omega arith in
      rw (drain-some fuel s i e, lines_of-some [] s i e, length-take-found s i e, towards, rest)
]

-- The automaton on a text in two parts.
pub lines_of-append :
    (cur s t : Text)
    → lines_of cur (s ++ t)
      ≡ ((lines_of cur s).0 ++ (lines_of (lines_of cur s).1 t).0, (lines_of (lines_of cur s).1 t).1)
unfolding lines_of
lines_of-append cur [] t = refl
lines_of-append cur (c ∷ s) t =
    ground (arith, lines_of-append [] s t, lines_of-append (cur ++ c ∷ []) s t)

pub lines_of-Lacks : (cur s : Text) → Lacks newline s → lines_of cur s ≡ ([], cur ++ s)
lines_of-Lacks cur s h = lines_of-none cur s (index_of-Lacks newline [] s h)

Lacks-append :
    (cur : Text) (c : ℕ)
    → Lacks newline cur
    → (c == newline) ≡ false
    → Lacks newline (cur ++ c ∷ [])
Lacks-append [] c h e = (ground arith, tt)
Lacks-append (d ∷ cur) c h e = (h.0, Lacks-append cur c h.1 e)

emit-rest : (b : Bool) (l : Text) (found : List Text × Text) → (emit b l found).1 ≡ found.1
emit-rest true l found = refl
emit-rest false l found = refl

-- What is left holds no newline.
lines_of-rest : (cur s : Text) → Lacks newline cur → Lacks newline (lines_of cur s).1
unfolding lines_of
lines_of-rest cur [] h = h
lines_of-rest cur (c ∷ s) h = elim (Bool-cases (c == newline)) [
  | inl e ↦
      rw (e, lines_of)
        (rw (emit-rest (ltb 0 (length cur)) cur (lines_of [] s)) (lines_of-rest [] s tt))
  | inr e ↦ rw (e, lines_of) (lines_of-rest (cur ++ c ∷ []) s (Lacks-append cur c h e))
]

-- A second pass over what is left finds nothing.
pub lines_of_again : (s : Text) → lines_of [] (lines_of [] s).1 ≡ ([], (lines_of [] s).1)
lines_of_again s = lines_of-Lacks [] _ (lines_of-rest [] s tt)

-- What is left by the first part is read again with the second.
pub lines_of_resume :
    (s t : Text)
    → lines_of [] (s ++ t) ≡ (
      (lines_of [] s).0 ++ (lines_of [] ((lines_of [] s).1 ++ t)).0,
      (lines_of [] ((lines_of [] s).1 ++ t)).1,
    )
lines_of_resume s t =
    rw (lines_of-append [] s t, lines_of-append [] (lines_of [] s).1 t, lines_of_again s) refl

pub split_buffer-lines_of : (s : Text) → split_buffer s ≡ (lines_of [] s).0
unfolding split_buffer
split_buffer-lines_of s = ap (λ p. p.0) (drain-lines_of (suc (length s)) s (omega arith))
