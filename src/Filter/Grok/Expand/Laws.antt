-- ===== src/Filter/Grok/Expand/Laws.antt =====
-- The expansion of a pattern that is written from literals and references.
use node_logstash.Js.Value.{ok, throw, Result, Result-cases, ◌>>=◌}
use node_logstash.Filter.Grok.{Patterns, pattern_of}
use mathlib.Core.Path.{fun_ext, subst}
use node_logstash.Filter.Grok.Expand.{
  not_found, first_of, find_pattern, grouped, new_field, Expanded, expand_loop, expand, opening,
}
use node_logstash.Filter.Grok.Expand.Parts.{
  print_ref, print, is_plain, grok_find-Lacks, grok_find-append, grok_parts-print_ref, plain-Lacks,
  Lacks-append, grouped-Lacks, length-print_ref, length-print_tail, replace-reference,
}
use node_logstash.Prelude.{
  is_line_end, Lacks, ◌≡◌, refl, sym, ap₂, ◌∙◌, inl, inr, Bool, true, false, Option, none, some,
  List, [], ◌∷◌, ◌++◌, append_assoc, arith, ℕ, zero, suc, ◌+◌, ◌<◌, Option-cases, length, any, Text,
  codes,
}

-- The pattern of a name: that of the global patterns, or else that of the extra ones, where an empty
-- one counts as missing.
abbrev either : Option Text → Option Text → Option Text
either (some (c ∷ p)) extra = some (c ∷ p)
either global (some (c ∷ p)) = some (c ∷ p)
either global extra = none

abbrev pub known : Patterns → Patterns → Text → Option Text
known global extra name = either (pattern_of name global) (pattern_of name extra)

-- `(?<field>...)`, where there is a field
abbrev pub in_group : Text → Text → Text
in_group [] reg = reg
in_group (c ∷ f) reg = codes "(?<" ++ (c ∷ f ++ (codes ">" ++ (reg ++ codes ")")))

-- What it means: each reference is the expansion of its pattern, in a group where it has a field.
module _ (group : Text → Text → Text) (find : Text → Option Text)
    (inner : Text → Result Expanded) where
  abbrev pub meaning_by : List (Text × Text × Text) → Text → Result Expanded
  meaning_by [] tail = ok (tail, [])
  meaning_by ((literal, name, field) ∷ refs) tail = elim (find name) [
    | none ↦ throw (not_found name)
    | some p ↦ inner p >>= (λ r.
        meaning_by refs tail
        >>= (λ t. ok (literal ++ (group field r.0 ++ t.0), new_field field ++ r.1 ++ t.1)))
  ]

abbrev pub meaning :
    (Text → Option Text)
    → (Text → Result Expanded)
    → List (Text × Text × Text)
    → Text
    → Result Expanded
meaning = meaning_by in_group

abbrev plain_result : Result Expanded → Bool
plain_result (ok r) = is_plain r.0
plain_result (throw e) = true

abbrev plain_found : (Text → Result Expanded) → Option Text → Bool
plain_found inner none = true
plain_found inner (some p) = plain_result (inner p)

-- A literal has no `%`; a name has neither `:` nor `}`; a field has no `}`, `%`, `$` or end of a
-- line; and the pattern of a reference has no `%` or `$` when it is expanded.
module _ (find : Text → Option Text) (inner : Text → Result Expanded) where
  abbrev pub IsPlain : List (Text × Text × Text) → Text → Type 0
  IsPlain [] tail = Lacks b'%' tail
  IsPlain ((literal, name, field) ∷ refs) tail =
      Lacks b'%' literal
      × (0 < length name)
      × Lacks b':' name
      × Lacks b'}' (print_ref name field)
      × (any is_line_end field ≡ false)
      × (is_plain field ≡ true)
      × (plain_found inner (find name) ≡ true)
      × IsPlain refs tail

abbrev before : Text → Result Expanded → Result Expanded
before done (ok t) = ok (done ++ t.0, t.1)
before done (throw e) = throw e

before-meaning :
    (done literal g : Text) (fs : List Text) (m : Result Expanded)
    → (before ((done ++ literal) ++ g) m >>= (λ t. ok (t.0, fs ++ t.1)))
      ≡ before done (m >>= (λ t. ok (literal ++ (g ++ t.0), fs ++ t.1)))
before-meaning done literal g fs (throw e) = refl
before-meaning done literal g fs (ok t) = grind (arith, append_assoc)

expand_loop_lem :
    (global extra : Patterns) (inner : Text → Result Expanded) (fuel : ℕ) (done : Text)
    (refs : List (Text × Text × Text)) (tail : Text)
    → Lacks b'%' done
    → IsPlain (find_pattern global extra) inner refs tail
    → length (print refs tail) < fuel
    → expand_loop global extra inner fuel (print refs tail) (done ++ print refs tail)
      ≡ before done (meaning_by grouped (find_pattern global extra) inner refs tail)
unfolding expand_loop
expand_loop_lem global extra inner zero done refs tail d v n = absurd (omega arith)
expand_loop_lem global extra inner (suc fuel) done [] tail d v n =
    rw (expand_loop, grok_find-Lacks tail v) refl
expand_loop_lem global extra inner (suc fuel) done ((literal, name, field) ∷ refs) tail d v n =
    let (l, p, nc, nb, ne, pf, pp, rest) = v in
    let exp = opening ++ (print_ref name field ++ codes "}") in
    elim (Option-cases (find_pattern global extra name)) [
      | inl e ↦
          rw
            (
              expand_loop,
              meaning_by,
              grok_find-append literal (print_ref name field) (print refs tail) l nb
                  (length-print_ref name field p),
              grok_parts-print_ref name field p nc ne,
              e,
            )
            refl
      | inr (q, e) ↦ elim (Result-cases (inner q)) [
        | inl (r, i) ↦
            rw
              (
                expand_loop,
                meaning_by,
                grok_find-append literal (print_ref name field) (print refs tail) l nb
                    (length-print_ref name field p),
                grok_parts-print_ref name field p nc ne,
                e,
                i,
              )
              (let g = grouped field r.0 in
                let two = plain-Lacks field pf in
                let three = plain-Lacks r.0 (ground (arith, pp, e, i)) in
                let no_percent =
                  grouped-Lacks b'%' field r.0 (refl, (refl, (refl, (refl, (refl, tt))))) two.0
                    three.0 in
                let no_dollar =
                  grouped-Lacks b'$' field r.0 (refl, (refl, (refl, (refl, (refl, tt))))) two.1
                    three.1 in
                let both =
                  Lacks-append b'%' (done ++ literal) g (Lacks-append b'%' done literal d l)
                    no_percent in
                rw
                  (
                    replace-reference done literal (print_ref name field) (print refs tail) g d l
                        no_dollar,
                    expand_loop_lem global extra inner fuel ((done ++ literal) ++ g) refs tail both
                        rest
                        (omega (
                          arith,
                          length-print_tail literal (print_ref name field) (print refs tail),
                        )),
                  )
                  (before-meaning done literal g (new_field field ++ r.1)
                    (meaning_by grouped (find_pattern global extra) inner refs tail)))
        | inr (x, i) ↦
            rw
              (
                expand_loop,
                meaning_by,
                grok_find-append literal (print_ref name field) (print refs tail) l nb
                    (length-print_ref name field p),
                grok_parts-print_ref name field p nc ne,
                e,
                i,
              )
              refl
      ]
    ]

before-none : (m : Result Expanded) → before [] m ≡ m
before-none (ok t) = refl
before-none (throw e) = refl

in_group-grouped : (f reg : Text) → grouped f reg ≡ in_group f reg
in_group-grouped [] reg = refl
in_group-grouped (c ∷ f) reg = refl

known-find_pattern :
    (global extra : Patterns) (name : Text)
    → find_pattern global extra name ≡ known global extra name
unfolding find_pattern
known-find_pattern global extra name = go (pattern_of name global) (pattern_of name extra)
  where
    go : (p q : Option Text) → first_of p q ≡ either p q
    go none none = refl
    go none (some []) = refl
    go none (some (c ∷ t)) = refl
    go (some []) none = refl
    go (some []) (some []) = refl
    go (some []) (some (c ∷ t)) = refl
    go (some (c ∷ t)) q = refl

-- A pattern that is written from literals without `%` and references is expanded, given one more
-- level of recursion, to its literals and the expansions of its references, each in a named group
-- where it has a field, in order and with the fields in the order of their groups. A reference to no
-- pattern, or to one whose expansion fails, fails with that error. This holds where a name has no `:`,
-- a field no `%`, `$` or end of a line, neither a `}`, and where the expansion of each pattern that is
-- referred to has no `%` and no `$`.
pub expand-meaning :
    (global extra : Patterns) (stack : ℕ) (refs : List (Text × Text × Text)) (tail : Text)
    → IsPlain (known global extra) (expand global extra stack) refs tail
    → expand global extra (suc stack) (print refs tail)
      ≡ meaning (known global extra) (expand global extra stack) refs tail
unfolding expand
expand-meaning global extra stack refs tail v =
    let inner = expand global extra stack in
    let same : find_pattern global extra ≡ known global extra =
      fun_ext (known-find_pattern global extra) in
    let group : grouped ≡ in_group = fun_ext (λ f. fun_ext (in_group-grouped f)) in
    let w : IsPlain (find_pattern global extra) inner refs tail =
      subst (λ find. IsPlain find inner refs tail) (sym same) v in
    expand_loop_lem global extra inner (length (print refs tail) + 1) [] refs tail tt w
      (omega arith)
    ∙ before-none (meaning_by grouped (find_pattern global extra) inner refs tail)
    ∙ ap₂ (λ g find. meaning_by g find inner refs tail) group same
