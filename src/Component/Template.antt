-- ===== src/Component/Template.antt =====
-- `replaceByFields` of lib/lib/base_component.js: the `#{field}` and `#{now:format}` templates. The
-- time that moment prints for a format is a parameter.
pub mod Print
pub mod Memo
use node_logstash.Js.Value.{Fields, truthy}
use node_logstash.Js.Object.{get}
use node_logstash.Js.Convert.{Engine, to_text}
use node_logstash.Prelude.{
  is_line_end, not, ◌&&◌, Option, none, some, List, [], ◌∷◌, ◌++◌, ℕ, zero, suc, ◌+◌, if◌then◌else◌,
  length, take, drop, all, Text, codes, ◌===◌, starts_with, index_of,
}

pub data Part : Type 0 where
  string : Text → Part
  now : Text → Part
  value : Text → Part

abbrev pub opening : Text
opening = b'#' ∷ b'{' ∷ []

abbrev pub closing : Text
closing = b'}' ∷ []

-- `key.match(/now:(.*)$/)`: the first `now:` with no line end behind it.
unfoldable pub now_format : Text → Option Text
now_format [] = none
now_format (c ∷ s) =
    if starts_with (codes "now:") (c ∷ s) && all (λ d. not (is_line_end d)) (drop 3 s)
    then some (drop 3 s)
    else now_format s

unfoldable pub part_of_key : Text → Part
unfolding now_format
part_of_key key = elim (now_format key) [ none ↦ value key | some f ↦ now f ]

abbrev pub last_part : Text → List Part
last_part [] = []
last_part (c ∷ s) = string (c ∷ s) ∷ []

-- The loop over `keep`; each round removes at least the three characters of `#{}`.
unfoldable pub parse : ℕ → Text → List Part
unfolding part_of_key
parse zero keep = []
parse (suc fuel) keep = elim (index_of opening keep) [
  | none ↦ last_part keep
  | some result ↦ elim (index_of closing (drop (result + 2) keep)) [
    | none ↦ last_part keep
    | some end ↦
        string (take result keep)
        ∷ part_of_key (take end (drop (result + 2) keep))
        ∷ parse fuel (drop (result + end + 3) keep)
  ]
]

unfoldable pub parse_template : Text → List Part
unfolding parse
parse_template s = parse (suc (length s)) s

module _ (js : Engine) (now_text : Text → Text) where
  -- The loop over the parts, with the text `r` so far; a field that is missing or falsy makes the
  -- result undefined.
  unfoldable pub render : Text → List Part → Fields → Option Text
  unfolding to_text
  render r [] data' = some r
  render r (string s ∷ ps) data' = render (r ++ s) ps data'
  render r (now f ∷ ps) data' = render (r ++ now_text f) ps data'
  render r (value k ∷ ps) data' =
      let rest = render (r ++ to_text js (get k data')) ps data' in
      if truthy (get k data') then rest else none

  -- `replace_cache`, from templates to their parts.
  abbrev pub Cache : Type 0
  Cache = List (Text × List Part)

  unfoldable pub cached : Text → Cache → Option (List Part)
  cached s [] = none
  cached s ((t, ps) ∷ c) = if t === s then some ps else cached s c

  unfoldable pub replace_by_fields : Cache → Fields → Text → Cache × Option Text
  unfolding cached parse_template render
  replace_by_fields c data' s = elim (cached s c) [
    | some ps ↦ (c, render [] ps data')
    | none ↦ ((s, parse_template s) ∷ c, render [] (parse_template s) data')
  ]
