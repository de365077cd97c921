-- ===== src/Filter/Grok/Expand.antt =====
-- `expandGrokPattern` and `process` of lib/filters/filter_grok.js. The compiled regular expression is a
-- parameter. The recursion has as many levels as the stack of the engine allows.
pub mod Laws
pub mod Parts
use node_logstash.Js.Value.{Fields, Error, message, type_error, Result, ok, throw, ◌>>=◌, Value}
use node_logstash.Js.Object.{get}
use node_logstash.Js.Convert.{Engine}
use node_logstash.Component.Template.{Part}
use node_logstash.Component.Tags.{add_tags, remove_tags, add_fields, remove_fields}
use node_logstash.Filter.Grok.{Patterns, pattern_of}
use node_logstash.Filter.RegexHelper
use node_logstash.Prelude.{
  is_line_end, Option, none, some, List, [], ◌∷◌, ◌++◌, ℕ, zero, suc, ◌+◌, ◌==◌, if◌then◌else◌,
  length, take, drop, any, Text, codes, starts_with, index_of,
}

abbrev pub opening : Text
opening = codes "%{"

-- The text behind a `%{` up to a `}`, where it is not empty, and what follows.
abbrev pub cut_at : Text → Option ℕ → Option (Text × Text) → Option (Text × Text)
cut_at s none later = later
cut_at s (some zero) later = later
cut_at s (some (suc i)) later = some (take (suc i) s, drop (suc (suc i)) s)

-- The first match of `%{[^}]+}`, without its braces, and what follows.
unfoldable pub grok_find : Text → Option (Text × Text)
grok_find [] = none
grok_find (c ∷ s) =
    let later = grok_find s in
    if starts_with opening (c ∷ s)
    then cut_at (drop 1 s) (index_of (codes "}") (drop 1 s)) later
    else later

-- `([^:]+):?(.*)` on what stands before the closing brace, which is the only one
abbrev name_at : Text → Option ℕ → Option (Text × Text)
name_at [] none = none
name_at (c ∷ s) none = some (c ∷ s, [])
name_at s (some zero) = none
name_at s (some (suc i)) =
    if any is_line_end (drop (suc (suc i)) s)
    then none
    else some (take (suc i) s, drop (suc (suc i)) s)

unfoldable pub name_and_field : Text → Option (Text × Text)
name_and_field s = name_at s (index_of (codes ":") s)

-- `match` with `%{([^:]+):?(.*)}` on an expression, given without its closing brace: the two groups,
-- at the first `%{` where they are found.
unfoldable pub grok_parts : Text → Option (Text × Text)
unfolding name_and_field
grok_parts [] = none
grok_parts (c ∷ s) =
    let later = grok_parts s in
    if starts_with opening (c ∷ s)
    then elim (name_and_field (drop 1 s)) [ none ↦ later | some r ↦ some r ]
    else later

-- The replacement of `replace`, in which `$$`, `$&`, `` $` `` and `$'` stand for a dollar, the match,
-- and what is before and behind it.
abbrev special : Text → Text → Text → ℕ → Option Text
special before found behind c =
    if c == b'$'
    then some (codes "$")
    else if c == b'&'
    then some found
    else if c == b'`'
    then some before
    else if c == b'\''
    then some behind
    else none

unfoldable pub fill_in : Text → Text → Text → Text → Text
fill_in before found behind [] = []
fill_in before found behind (c ∷ []) = c ∷ []
fill_in before found behind (c ∷ d ∷ s) =
    let rest = fill_in before found behind s in
    let other = fill_in before found behind (d ∷ s) in
    if c == b'$'
    then elim (special before found behind d) [ none ↦ c ∷ other | some t ↦ t ++ rest ]
    else c ∷ other

-- `s.replace(found, by)`
unfoldable pub replace : Text → Text → Text → Text
unfolding fill_in
replace s found by = elim (index_of found s) [
  | none ↦ s
  | some i ↦
      let before = take i s in
      let behind = drop (i + length found) s in before ++ (fill_in before found behind by ++ behind)
]

abbrev pub not_found : Text → Error
not_found name = message (codes "Unable to find grok pattern " ++ name)

-- `global_patterns[name] || extra_patterns[name]`
abbrev pub first_of : Option Text → Option Text → Option Text
first_of none (some (c ∷ p)) = some (c ∷ p)
first_of none q = none
first_of (some []) (some (c ∷ p)) = some (c ∷ p)
first_of (some []) q = none
first_of (some (c ∷ p)) q = some (c ∷ p)

unfoldable pub find_pattern : Patterns → Patterns → Text → Option Text
find_pattern global extra name = first_of (pattern_of name global) (pattern_of name extra)

-- A named group around a pattern that has a field.
abbrev pub grouped : Text → Text → Text
grouped [] reg = reg
grouped (c ∷ f) reg = codes "(?<" ++ (c ∷ f ++ (codes ">" ++ (reg ++ codes ")")))

abbrev pub new_field : Text → List Text
new_field [] = []
new_field (c ∷ f) = (c ∷ f) ∷ []

-- An expanded expression and the fields that its groups are.
abbrev pub Expanded : Type 0
Expanded = Text × List Text

module _ (global extra : Patterns) where
  -- The loop of one level: what is not searched yet, and the result so far.
  unfoldable pub expand_loop : (Text → Result Expanded) → ℕ → Text → Text → Result Expanded
  unfolding grok_find grok_parts find_pattern replace
  expand_loop inner zero regex reduced = ok (reduced, [])
  expand_loop inner (suc fuel) regex reduced = elim (grok_find regex) [
    | none ↦ ok (reduced, [])
    | some (body, rest) ↦
        let exp = opening ++ (body ++ codes "}") in
        elim (grok_parts (opening ++ body)) [
          | none ↦ throw type_error
          | some (name, field) ↦ elim (find_pattern global extra name) [
            | none ↦ throw (not_found name)
            | some p ↦ inner p >>= (λ r.
                expand_loop inner fuel rest (replace reduced exp (grouped field r.0))
                >>= (λ t. ok (t.0, new_field field ++ r.1 ++ t.1)))
          ]
        ]
  ]

  unfoldable pub expand : ℕ → Text → Result Expanded
  unfolding expand_loop
  expand zero regex = throw (message (codes "Maximum call stack size exceeded"))
  expand (suc stack) regex = expand_loop (expand stack) (length regex + 1) regex regex

-- What the filter is configured with.
pub record Grok : Type 0 where
  pub date_format : Option Text
  pub numerical_fields : List Text
  pub tags : Option (List Value)
  pub tags_to_remove : Option (List Text)
  pub fields_to_add : List (Text × Text)
  pub fields_to_remove : Option (List Text)
  pub tag_on_failure : Option (List Value)

module _ (js : Engine) (read_date : Text → Text → Option Text) (now_text : Text → Text)
    (search : Value → Option (List (Option Text))) where
  -- The groups of a match are put in the fields in order; too few groups are an error.
  unfoldable pub put_groups : Grok → List Text → List (Option Text) → Fields → Result Fields
  unfolding RegexHelper.process
  put_groups g [] groups data' = ok data'
  put_groups g (f ∷ fs) [] data' = throw type_error
  put_groups g (f ∷ fs) (v ∷ groups) data' =
      put_groups g fs groups
        (RegexHelper.process js read_date g.date_format g.numerical_fields f v data')

  unfoldable pub process :
      Grok
      → List Text
      → List (Text × List Part)
      → Fields
      → Result (List (Text × List Part) × Fields)
  unfolding put_groups add_tags remove_tags add_fields remove_fields
  process g fields cache data' = elim (search (get (codes "message") data')) [
    | none ↦ add_tags g.tag_on_failure data' >>= (λ d. ok (cache, d))
    | some groups ↦
        put_groups g fields groups data'
        >>= (λ d. add_tags g.tags d)
        >>= (λ d. remove_tags g.tags_to_remove d)
        >>= (λ d.
            let added = add_fields js now_text cache g.fields_to_add d in
            ok (added.0, remove_fields g.fields_to_remove added.1))
  ]
