-- ===== src/Component/Template/Print.antt =====
-- Templates that are written from their parts are read back as those parts, and rendered so.
use mathlib.Core.Path.{fun_ext}
use node_logstash.Js.Value.{Fields, truthy}
use node_logstash.Js.Object.{get}
use node_logstash.Js.Convert.{Engine, to_text}
use node_logstash.Component.Template.{
  Part, string, now, value, opening, closing, now_format, part_of_key, last_part, parse, render,
  replace_by_fields,
}
use node_logstash.Prelude.{
  is_line_end, Lacks, take-append, drop-append, drop-add, index_of-append, index_of-Lacks, ◌≡◌,
  refl, ap, ◌∙◌, inl, inr, true, not, Option, none, some, List, [], ◌∷◌, ◌++◌, append-nil, arith, ℕ,
  zero, suc, ◌+◌, ◌<◌, if◌then◌else◌, Bool-cases, Option-cases, length, take, drop, all,
  length-append, Text, codes, starts_with, index_of,
}

-- A placeholder: the time in a format, or a field.
pub data Placeholder : Type 0 where
  time : Text → Placeholder
  field_named : Text → Placeholder

abbrev pub key_of : Placeholder → Text
key_of (time f) = codes "now:" ++ f
key_of (field_named k) = k

abbrev pub keys_of : List (Text × Placeholder) → List (Text × Text)
keys_of [] = []
keys_of ((literal, p) ∷ segments) = (literal, key_of p) ∷ keys_of segments

-- A template as its keys, each with the literal text before it, and the text at the end.
abbrev pub print : List (Text × Text) → Text → Text
print [] tail = tail
print ((literal, key) ∷ segments) tail =
    literal ++ (opening ++ (key ++ (closing ++ print segments tail)))

abbrev pub parts_of : List (Text × Text) → Text → List Part
parts_of [] tail = last_part tail
parts_of ((literal, key) ∷ segments) tail =
    string literal ∷ part_of_key key ∷ parts_of segments tail

-- No literal has a `#`, and no key a `}`.
abbrev IsPrinted : List (Text × Text) → Text → Type 0
IsPrinted [] tail = Lacks b'#' tail
IsPrinted ((literal, key) ∷ segments) tail =
    Lacks b'#' literal × Lacks b'}' key × IsPrinted segments tail

-- A format stands on one line, and the name of a field has no `now:`.
abbrev pub IsKey : Placeholder → Type 0
IsKey (time f) = all (λ d. not (is_line_end d)) f ≡ true
IsKey (field_named k) = index_of (codes "now:") k ≡ none

abbrev pub IsPlain : List (Text × Placeholder) → Text → Type 0
IsPlain [] tail = Lacks b'#' tail
IsPlain ((literal, p) ∷ segments) tail =
    Lacks b'#' literal × Lacks b'}' (key_of p) × IsKey p × IsPlain segments tail

keys_of-IsPrinted :
    (segments : List (Text × Placeholder)) (tail : Text)
    → IsPlain segments tail
    → IsPrinted (keys_of segments) tail
keys_of-IsPrinted [] tail v = v
keys_of-IsPrinted ((literal, p) ∷ segments) tail v = (v.0, v.1, keys_of-IsPrinted segments tail v.3)

now_format-none : (k : Text) → index_of (codes "now:") k ≡ none → now_format k ≡ none
unfolding now_format
now_format-none [] h = refl
now_format-none (c ∷ s) h = elim (Bool-cases (starts_with (codes "now:") (c ∷ s))) [
  | inl e ↦ ground arith
  | inr e ↦ elim (Option-cases (index_of (codes "now:") s)) [
    | inl rest ↦ ground (arith, now_format-none s rest)
    | inr (i, rest) ↦ ground (arith, rest)
  ]
]

abbrev pub part : Placeholder → Part
part (time f) = now f
part (field_named k) = value k

part_of_key-key_of : (p : Placeholder) → IsKey p → part_of_key (key_of p) ≡ part p
unfolding part_of_key now_format
part_of_key-key_of (time f) h =
    let found : now_format (codes "now:" ++ f) ≡ some f = rw (now_format, h) refl in
    rw (part_of_key, found) refl
part_of_key-key_of (field_named k) h = rw (part_of_key, now_format-none k h) refl

-- Behind a literal and its `#{`, and behind a key and its `}`.
drop-opening :
    (literal rest : Text) → drop (length literal + 2) (literal ++ (opening ++ rest)) ≡ rest
drop-opening literal rest = rw (
  ← drop-add (length literal) 2 (literal ++ (opening ++ rest)),
  drop-append literal (opening ++ rest),
)

drop-closing : (key rest : Text) → drop (length key + 1) (key ++ (closing ++ rest)) ≡ rest
drop-closing key rest =
    rw (← drop-add (length key) 1 (key ++ (closing ++ rest)), drop-append key (closing ++ rest))

drop-segment :
    (literal key rest : Text)
    → drop (length literal + length key + 3) (literal ++ (opening ++ (key ++ (closing ++ rest))))
      ≡ rest
drop-segment literal key rest =
    let e : length literal + length key + 3 ≡ (length literal + 2) + (length key + 1) =
      omega arith in
    let keep = literal ++ (opening ++ (key ++ (closing ++ rest))) in
    rw
      (
        e,
        ← drop-add (length literal + 2) (length key + 1) keep,
        drop-opening literal (key ++ (closing ++ rest)),
      )
      (drop-closing key rest)

length-segment :
    (literal key rest : Text)
    → length rest < length (literal ++ (opening ++ (key ++ (closing ++ rest))))
length-segment literal key rest = omega (
  arith,
  length-append literal (opening ++ (key ++ (closing ++ rest))),
  length-append key (closing ++ rest),
)

parse-none :
    (fuel : ℕ) (keep : Text) → index_of opening keep ≡ none → parse (suc fuel) keep ≡ last_part keep
unfolding parse
parse-none fuel keep e = rw (e, parse)

parse-some :
    (fuel : ℕ) (keep : Text) (result end : ℕ)
    → index_of opening keep ≡ some result
    → index_of closing (drop (result + 2) keep) ≡ some end
    → parse (suc fuel) keep
      ≡ string (take result keep)
        ∷ part_of_key (take end (drop (result + 2) keep))
        ∷ parse fuel (drop (result + end + 3) keep)
unfolding parse
parse-some fuel keep result end e e' = rw (e, e', parse)

parse-print :
    (fuel : ℕ) (segments : List (Text × Text)) (tail : Text)
    → IsPrinted segments tail
    → length (print segments tail) < fuel
    → parse fuel (print segments tail) ≡ parts_of segments tail
parse-print zero segments tail p h = absurd (omega arith)
parse-print (suc fuel) [] tail p h = parse-none fuel tail (index_of-Lacks b'#' (b'{' ∷ []) tail p)
parse-print (suc fuel) ((literal, key) ∷ segments) tail p h =
    let rest = print segments tail in
    let keep = literal ++ (opening ++ (key ++ (closing ++ rest))) in
    let found : index_of opening keep ≡ some (length literal) =
      index_of-append b'#' (b'{' ∷ []) literal (key ++ (closing ++ rest)) p.0 in
    let behind : drop (length literal + 2) keep ≡ key ++ (closing ++ rest) =
      drop-opening literal (key ++ (closing ++ rest)) in
    let closed : index_of closing (key ++ (closing ++ rest)) ≡ some (length key) =
      index_of-append b'}' [] key rest p.1 in
    let after : drop (length literal + length key + 3) keep ≡ rest =
      drop-segment literal key rest in
    let fits : length rest < fuel = omega (arith, length-segment literal key rest) in
    rw
      (
        parse-some fuel keep (length literal) (length key) found (rw behind closed),
        behind,
        after,
        take-append literal (opening ++ (key ++ (closing ++ rest))),
        take-append key (closing ++ rest),
        parse-print fuel segments tail p.2 fits,
      )
      refl

module _ (js : Engine) (now_text : Text → Text) (d : Fields) where
  abbrev pub when_some : Option Text → (Text → Option Text) → Option Text
  when_some none k = none
  when_some (some s) k = k s

  -- The time for a time, and the field as a string otherwise, where it is not falsy.
  abbrev pub shown : Placeholder → Option Text
  shown (time f) = some (now_text f)
  shown (field_named k) = if truthy (get k d) then some (to_text js (get k d)) else none

  -- The literals and the texts of the placeholders one after the other, where all have one.
  abbrev pub filled : Text → List (Text × Placeholder) → Text → Option Text
  filled r [] tail = some (r ++ tail)
  filled r ((literal, p) ∷ segments) tail =
      when_some (shown p) (λ s. filled ((r ++ literal) ++ s) segments tail)

  render_part :
      (r : Text) (p : Placeholder) (ps : List Part)
      → IsKey p
      → render js now_text r (part_of_key (key_of p) ∷ ps) d
        ≡ when_some (shown p) (λ s. render js now_text (r ++ s) ps d)
  unfolding render
  render_part r (time f) ps h = rw (part_of_key-key_of (time f) h) refl
  render_part r (field_named k) ps h = rw (part_of_key-key_of (field_named k) h) (ground arith)

  render-parts_of :
      (r : Text) (segments : List (Text × Placeholder)) (tail : Text)
      → IsPlain segments tail
      → render js now_text r (parts_of (keys_of segments) tail) d ≡ filled r segments tail
  unfolding render
  render-parts_of r [] [] v = rw append-nil
  render-parts_of r [] (c ∷ tail) v = refl
  render-parts_of r ((literal, p) ∷ segments) tail v =
      render_part (r ++ literal) p (parts_of (keys_of segments) tail) v.2
      ∙ ap (when_some (shown p))
          (fun_ext (λ s. render-parts_of ((r ++ literal) ++ s) segments tail v.3))

  -- A template whose literals have no `#` and whose keys have no `}` is replaced by its literals and,
  -- between them, the time for each `now:` with a format on one line, and the field as a string for
  -- each key without a `now:`. It is undefined where a field that it names is missing or falsy. This
  -- is with an empty cache.
  pub replace_by_fields-print :
      (segments : List (Text × Placeholder)) (tail : Text)
      → IsPlain segments tail
      → (replace_by_fields js now_text [] d (print (keys_of segments) tail)).1
        ≡ filled [] segments tail
  unfolding replace_by_fields
  replace_by_fields-print segments tail v =
      rw
        (parse-print (suc (length (print (keys_of segments) tail))) (keys_of segments) tail
          (keys_of-IsPrinted segments tail v) (omega arith))
        (render-parts_of [] segments tail v)
