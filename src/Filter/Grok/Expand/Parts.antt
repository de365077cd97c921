-- ===== src/Filter/Grok/Expand/Parts.antt =====
-- The finding and the replacing of a reference in a pattern.
use node_logstash.Filter.Grok.Expand.{
  opening, cut_at, grok_find, name_and_field, grok_parts, fill_in, replace, grouped,
}
use node_logstash.Prelude.{
  is_line_end, Lacks, take-append, drop-append, drop-add, index_of-append, index_of-Lacks, ◌≡◌,
  refl, sym, Bool, true, false, not, ◌&&◌, Option, none, some, List, [], ◌∷◌, ◌++◌, append_assoc,
  arith, ℕ, suc, ◌<◌, ◌==◌, length, drop, all, any, length-append, Text, codes, index_of,
}

-- A pattern as its references, each with the literal before it, its name and its field, which may
-- be empty, and the literal at the end.
abbrev pub print_ref : Text → Text → Text
print_ref name [] = name
print_ref name (c ∷ f) = name ++ (codes ":" ++ c ∷ f)

abbrev pub print : List (Text × Text × Text) → Text → Text
print [] tail = tail
print ((literal, name, field) ∷ refs) tail =
    literal ++ (opening ++ (print_ref name field ++ (codes "}" ++ print refs tail)))

-- A `fill_in` without a dollar is the text.
fill_in-Lacks : (before found behind s : Text) → Lacks b'$' s → fill_in before found behind s ≡ s
unfolding fill_in
fill_in-Lacks before found behind [] h = refl
fill_in-Lacks before found behind (c ∷ []) h = refl
fill_in-Lacks before found behind (c ∷ d ∷ s) h =
    ground (arith, h.0, fill_in-Lacks before found behind (d ∷ s) h.1)

drop-over : (a b : Text) (c : ℕ) → drop (suc (length a)) (a ++ c ∷ b) ≡ b
drop-over [] b c = refl
drop-over (d ∷ a) b c = drop-over a b c

-- The first reference is found.
pub grok_find-Lacks : (s : Text) → Lacks b'%' s → grok_find s ≡ none
unfolding grok_find
grok_find-Lacks [] h = refl
grok_find-Lacks (c ∷ s) h = ground (arith, h.0, grok_find-Lacks s h.1)

cut_at-append :
    (body rest : Text) (later : Option (Text × Text))
    → 0 < length body
    → cut_at (body ++ (codes "}" ++ rest)) (some (length body)) later ≡ some (body, rest)
cut_at-append [] rest later p = ground arith
cut_at-append (c ∷ body) rest later p =
    rw (take-append body (codes "}" ++ rest), drop-over body rest b'}') refl

pub grok_find-append :
    (literal body rest : Text)
    → Lacks b'%' literal
    → Lacks b'}' body
    → 0 < length body
    → grok_find (literal ++ (opening ++ (body ++ (codes "}" ++ rest)))) ≡ some (body, rest)
unfolding grok_find
grok_find-append [] body rest h k p =
    (let e : index_of (codes "}") (body ++ (codes "}" ++ rest)) ≡ some (length body) =
        index_of-append b'}' [] body rest k in
      rw e (cut_at-append body rest (grok_find (body ++ (codes "}" ++ rest))) p))
grok_find-append (c ∷ literal) body rest h k p =
    ground (arith, h.0, grok_find-append literal body rest h.1 k p)

name_at-print_ref :
    (name field : Text)
    → 0 < length name
    → Lacks b':' name
    → any is_line_end field ≡ false
    → name_and_field (print_ref name field) ≡ some (name, field)
unfolding name_and_field
name_at-print_ref [] field p k h = absurd (omega arith)
name_at-print_ref (c ∷ name) [] p k h = rw (index_of-Lacks b':' [] (c ∷ name) k) refl
name_at-print_ref (c ∷ name) (d ∷ field) p k h =
    rw (index_of-append b':' [] (c ∷ name) (d ∷ field) k)
      (rw (take-append name (b':' ∷ d ∷ field), drop-over name (d ∷ field) b':', h) refl)

pub grok_parts-print_ref :
    (name field : Text)
    → 0 < length name
    → Lacks b':' name
    → any is_line_end field ≡ false
    → grok_parts (opening ++ print_ref name field) ≡ some (name, field)
unfolding grok_parts
grok_parts-print_ref name field p k h = rw (name_at-print_ref name field p k h) refl

abbrev pub is_plain : Text → Bool
is_plain s = all (λ c. not (c == b'%') && not (c == b'$')) s

pub plain-Lacks : (s : Text) → is_plain s ≡ true → Lacks b'%' s × Lacks b'$' s
plain-Lacks [] h = (tt, tt)
plain-Lacks (c ∷ s) h =
    let v = plain-Lacks s (ground arith) in ((ground arith, v.0), (ground arith, v.1))

pub Lacks-append : (c : ℕ) (a b : Text) → Lacks c a → Lacks c b → Lacks c (a ++ b)
Lacks-append c [] b h k = k
Lacks-append c (d ∷ a) b h k = (h.0, Lacks-append c a b h.1 k)

pub grouped-Lacks :
    (c : ℕ) (field reg : Text)
    → Lacks c (codes "(?<>)")
    → Lacks c field
    → Lacks c reg
    → Lacks c (grouped field reg)
grouped-Lacks c [] reg e h k = k
grouped-Lacks c (d ∷ field) reg (e0, (e1, (e2, (e3, (e4, u))))) h k =
    let close : Lacks c (reg ++ codes ")") = Lacks-append c reg (codes ")") k (e4, tt) in
    (e0, (e1, (e2, Lacks-append c (d ∷ field) (codes ">" ++ (reg ++ codes ")")) h (e3, close))))

replace_lem :
    (a e b g : Text)
    → Lacks b'%' a
    → Lacks b'$' g
    → replace (a ++ ((b'%' ∷ e) ++ b)) (b'%' ∷ e) g ≡ a ++ (g ++ b)
unfolding replace
replace_lem a e b g h k =
    rw
      (
        replace,
        index_of-append b'%' e a b h,
        take-append a ((b'%' ∷ e) ++ b),
        ← drop-add (length a) (length (b'%' ∷ e)) (a ++ ((b'%' ∷ e) ++ b)),
        drop-append a ((b'%' ∷ e) ++ b),
        drop-append (b'%' ∷ e) b,
        fill_in-Lacks a (b'%' ∷ e) b g k,
      )
      refl

pub length-print_ref : (name field : Text) → 0 < length name → 0 < length (print_ref name field)
length-print_ref name [] p = p
length-print_ref name (c ∷ f) p = omega (arith, length-append name (b':' ∷ c ∷ f))

pub length-print_tail :
    (literal body rest : Text)
    → length rest < length (literal ++ (opening ++ (body ++ (codes "}" ++ rest))))
length-print_tail literal body rest = omega (
  arith,
  length-append literal (opening ++ (body ++ (codes "}" ++ rest))),
  length-append body (codes "}" ++ rest),
)

-- The reference that is next is replaced in the text so far.
pub replace-reference :
    (done literal body rest g : Text)
    → Lacks b'%' done
    → Lacks b'%' literal
    → Lacks b'$' g
    → replace
        (done ++ (literal ++ (opening ++ (body ++ (codes "}" ++ rest)))))
        (opening ++ (body ++ codes "}"))
        g
      ≡ ((done ++ literal) ++ g) ++ rest
replace-reference done literal body rest g h k l =
    let apart : done ++ (literal ++ (opening ++ (body ++ (codes "}" ++ rest))))
        ≡ (done ++ literal) ++ ((b'%' ∷ (b'{' ∷ (body ++ codes "}"))) ++ rest) =
      grind (arith, append_assoc) in
    rw apart (
      rw
        (replace_lem (done ++ literal) (b'{' ∷ (body ++ codes "}")) rest g
          (Lacks-append b'%' done literal h k) l)
        (sym (append_assoc (done ++ literal) g rest)))
