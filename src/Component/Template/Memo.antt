-- ===== src/Component/Template/Memo.antt =====
-- The cache of parsed templates changes no result.
use node_logstash.Js.Value.{Fields}
use node_logstash.Js.Convert.{Engine}
use node_logstash.Component.Template.{Part, parse_template, render, replace_by_fields, cached}
use node_logstash.Prelude.{
  ◌≡◌, refl, inl, inr, some, List, [], ◌∷◌, arith, Option-cases, Text, ===_iff,
}

-- Every entry is what its template is parsed to.
abbrev pub IsCoherent : List (Text × List Part) → Type 0
IsCoherent [] = Unit
IsCoherent ((t, ps) ∷ c) = (ps ≡ parse_template t) × IsCoherent c

module _ (js : Engine) (now_text : Text → Text) where
  cached_coherent :
      (s : Text) (c : List (Text × List Part)) (ps : List Part)
      → IsCoherent c
      → cached js now_text s c ≡ some ps
      → ps ≡ parse_template s
  unfolding cached
  cached_coherent s [] ps h e = ground arith
  cached_coherent s ((t, qs) ∷ c) ps h e =
      ground (arith, h.0, ===_iff t s, cached_coherent s c ps h.1)

  -- With a coherent cache, whichever templates are in it, the result is that of parsing the
  -- template anew, and the cache stays coherent.
  replace_by_fields_memo :
      (c : List (Text × List Part)) (d : Fields) (s : Text)
      → IsCoherent c
      → ((replace_by_fields js now_text c d s).1 ≡ render js now_text [] (parse_template s) d)
        × IsCoherent (replace_by_fields js now_text c d s).0
  unfolding replace_by_fields
  replace_by_fields_memo c d s h = elim (Option-cases (cached js now_text s c)) [
    | inl e ↦ rw (e, replace_by_fields) (refl, (refl, h))
    | inr (ps, e) ↦ rw (e, cached_coherent s c ps h e, replace_by_fields) (refl, h)
  ]
