-- ===== src/Component/Reading/Laws.antt =====
-- What the parameters of a url ask of the messages that a component takes.
use node_logstash.Js.Value.{Value, undefined, Fields, end, field, truthy, Result, ok, Result-cases}
use node_logstash.Js.Object.{get, keys, last_of, get-set}
use node_logstash.Js.Convert.{Engine, to_text}
use node_logstash.Component.Filtering.{Filtering, DynamicEval}
use node_logstash.Component.Reading.{
  name_behind, exist_prefix, equal_prefix, match_prefix, read_exist, read_equal, put_match,
  read_match, read_dynamic, read_params, read_filtering, named, typed,
}
use node_logstash.Prelude.{
  is_line_end, drop-append, starts_with-append, starts_with_sound, ◌≡◌, refl, sym, ap, ◌∙◌, inl,
  inr, Bool, true, false, not, ◌||◌, Option, none, some, List, [], ◌∷◌, ◌++◌, arith, if◌then◌else◌,
  ==_refl, Bool-cases, Option-cases, length, drop, any, Text, codes, ◌===◌, ===_iff, starts_with,
}

-- The pattern of a field, where it has one.
abbrev pub pattern_for : Text → List (Text × Text) → Option Text
pattern_for x [] = none
pattern_for x ((y, p) ∷ l) = if y === x then some p else pattern_for x l

-- The name of a field that a parameter can end with.
abbrev pub is_name : Text → Bool
is_name [] = false
is_name (c ∷ s) = not (any is_line_end (c ∷ s))

abbrev name_is : Option Text → Text → Bool
name_is none x = false
name_is (some y) x = y === x

pattern_for-put_match :
    (x y p : Text) (l : List (Text × Text))
    → pattern_for x (put_match y p l) ≡ (if y === x then some p else pattern_for x l)
unfolding put_match
pattern_for-put_match x y p [] = refl
pattern_for-put_match x y p ((z, q) ∷ l) =
    ground (arith, ===_iff z x, ===_iff z y, ===_iff y x, pattern_for-put_match x y p l)

any-append : (p : Text → Bool) (l k : List Text) → any p (l ++ k) ≡ (any p l || any p k)
any-append p [] k = refl
any-append p (x ∷ l) k = ground (arith, any-append p l k)

named_lem : (s : Text) → is_name s ≡ true → named s ≡ some s
named_lem [] h = ground arith
named_lem (c ∷ s) h = ground arith

named_sound : (s y : Text) → named s ≡ some y → s ≡ y
named_sound [] y h = ground arith
named_sound (c ∷ s) y h = ground arith

===-append : (p s t : Text) → (p ++ s === p ++ t) ≡ (s === t)
===-append [] s t = refl
===-append (c ∷ p) s t = ground (arith, ==_refl c, ===-append p s t)

name_behind-append : (p x : Text) → is_name x ≡ true → name_behind p (p ++ x) ≡ some x
unfolding name_behind
name_behind-append p x h = rw (starts_with-append p x, drop-append p x) (named_lem x h)

name_behind_sound : (p k y : Text) → name_behind p k ≡ some y → k ≡ p ++ y
unfolding name_behind
name_behind_sound p k y h = elim (Bool-cases (starts_with p k)) [
  | inl e ↦
      let rest : drop (length p) k ≡ y = named_sound (drop (length p) k) y (ground arith) in
      starts_with_sound p k e ∙ ap (λ t. p ++ t) rest
  | inr e ↦ ground arith
]

name_is-behind : (p k x : Text) → is_name x ≡ true → name_is (name_behind p k) x ≡ (k === p ++ x)
name_is-behind p k x h = elim (Option-cases (name_behind p k)) [
  | inl e ↦ elim (Bool-cases (k === p ++ x)) [
    | inl same ↦
        let found : name_behind p k ≡ some x =
          ap (name_behind p) ((===_iff k (p ++ x)).0 same) ∙ name_behind-append p x h in
        ground arith
    | inr other ↦ rw (e, other) refl
  ]
  | inr (y, e) ↦ rw e (sym (rw (name_behind_sound p k y e) (===-append p y x)))
]

-- Two filterings that differ in what is named at most.
record IsAlike (f g : Filtering) : Type 0 where
  same_type : g.only_type ≡ f.only_type
  same_exist : g.only_field_exist ≡ f.only_field_exist
  same_equal : g.only_field_equal ≡ f.only_field_equal
  same_match : g.only_field_match ≡ f.only_field_match

exist_lem :
    (k x : Text) (f : Filtering)
    → IsAlike f (record (read_exist k f) { only_field_exist = f.only_field_exist })
      × (any (λ y. y === x) (read_exist k f).only_field_exist
          ≡ (any (λ y. y === x) f.only_field_exist || name_is (name_behind exist_prefix k) x))
unfolding read_exist
exist_lem k x f = elim (Option-cases (name_behind exist_prefix k)) [
  | inl e ↦ ground arith
  | inr (y, e) ↦ ground (arith, any-append (λ z. z === x) f.only_field_exist (y ∷ []))
]

equal_lem :
    (k x : Text) (v : Value) (f : Filtering)
    → IsAlike f (record (read_equal k v f) { only_field_equal = f.only_field_equal })
      × (get x (read_equal k v f).only_field_equal
          ≡ (if name_is (name_behind equal_prefix k) x then v else get x f.only_field_equal))
unfolding read_equal
equal_lem k x v f = elim (Option-cases (name_behind equal_prefix k)) [
  | inl e ↦ ground arith
  | inr (y, e) ↦ ground (arith, get-set x y v f.only_field_equal)
]

or_join :
    (a b c p q r : Bool)
    → a ≡ (b || c)
    → b ≡ (p || q)
    → q ≡ r
    → a ≡ (p || (elim r [ true ↦ true | false ↦ c ]))
or_join a b c p q r e f g = ground arith

module _ (js : Engine) (parse_json : Text → Result DynamicEval) where
  match_lem :
      (k x : Text) (v : Value) (f g : Filtering)
      → read_match js parse_json k v f ≡ ok g
      → IsAlike f (record g { only_field_match = f.only_field_match })
        × (pattern_for x g.only_field_match ≡ (
            if name_is (name_behind match_prefix k) x
            then some (to_text js v)
            else pattern_for x f.only_field_match))
  unfolding read_match
  match_lem k x v f g h = elim (Option-cases (name_behind match_prefix k)) [
    | inl e ↦ ground arith
    | inr (y, e) ↦ ground (arith, pattern_for-put_match x y (to_text js v) f.only_field_match)
  ]

  dynamic_lem : (v : Value) (f g : Filtering) → read_dynamic js parse_json v f ≡ ok g → IsAlike f g
  unfolding read_dynamic
  dynamic_lem v f g h = elim (Result-cases (parse_json (to_text js v))) [
    | inl (e, i) ↦ ground arith
    | inr (e, i) ↦ ground arith
  ]

  read_one :
      (k x : Text) (v dynamic : Value) (f g h : Filtering)
      → read_match js parse_json k v (read_equal k v (read_exist k f)) ≡ ok g
      → read_dynamic js parse_json dynamic g ≡ ok h
      → (h.only_type ≡ f.only_type)
        × (any (λ y. y === x) h.only_field_exist
            ≡ (any (λ y. y === x) f.only_field_exist || name_is (name_behind exist_prefix k) x))
        × (get x h.only_field_equal
            ≡ (if name_is (name_behind equal_prefix k) x then v else get x f.only_field_equal))
        × (pattern_for x h.only_field_match ≡ (
            if name_is (name_behind match_prefix k) x
            then some (to_text js v)
            else pattern_for x f.only_field_match))
  read_one k x v dynamic f g h e d = ground (
    arith,
    exist_lem k x f,
    equal_lem k x v (read_exist k f),
    match_lem k x v (read_equal k v (read_exist k f)) g e,
    dynamic_lem dynamic g h d,
  )

  -- What is read from parameters, on top of what was read before.
  record Reads (x : Text) (params : Fields) (f g : Filtering) : Type 0 where
    same_type : g.only_type ≡ f.only_type
    exists : any (λ y. y === x) g.only_field_exist ≡ (
        any (λ y. y === x) f.only_field_exist || any (λ k. k === exist_prefix ++ x) (keys params))
    equals :
        get x g.only_field_equal
        ≡ last_of (λ v. v) (equal_prefix ++ x) params (get x f.only_field_equal)
    matches :
        pattern_for x g.only_field_match
        ≡ last_of
            (λ v. some (to_text js v))
            (match_prefix ++ x)
            params
            (pattern_for x f.only_field_match)

  read_params-Reads :
      (x : Text) (dynamic : Value) (params : Fields) (f g : Filtering)
      → is_name x ≡ true
      → read_params js parse_json dynamic params f ≡ ok g
      → Reads x params f g
  unfolding read_params keys
  read_params-Reads x dynamic end f g n h = ground arith
  read_params-Reads x dynamic (field k v params) f g n h =
      elim (Result-cases (read_match js parse_json k v (read_equal k v (read_exist k f)))) [
        | inr (t, i) ↦ ground arith
        | inl (g1, i) ↦ elim (Result-cases (read_dynamic js parse_json dynamic g1)) [
          | inr (t, j) ↦ ground arith
          | inl (g2, j) ↦
              let rest = read_params-Reads x dynamic params g2 g n (ground arith) in
              let one = read_one k x v dynamic f g1 g2 i j in
              record {
                same_type = rest.same_type ∙ one.0;
                exists = or_join _ _ _ _ _ _ rest.exists one.1 (name_is-behind exist_prefix k x n);
                equals =
                    rest.equals
                    ∙ ap (last_of (λ w. w) (equal_prefix ++ x) params) (
                        one.2
                        ∙ ap (λ b. if b then v else get x f.only_field_equal)
                            (name_is-behind equal_prefix k x n));
                matches =
                    rest.matches
                    ∙ ap (last_of (λ w. some (to_text js w)) (match_prefix ++ x) params) (
                        one.3
                        ∙ ap
                            (λ b.
                              if b then some (to_text js v) else pattern_for x f.only_field_match)
                            (name_is-behind match_prefix k x n));
              }
        ]
      ]

  typed_lem :
      (x : Text) (v : Value)
      → (any (λ y. y === x) (typed js parse_json v).only_field_exist ≡ false)
        × (get x (typed js parse_json v).only_field_equal ≡ undefined)
        × (pattern_for x (typed js parse_json v).only_field_match ≡ none)
        × ((typed js parse_json v).only_type ≡ (if truthy v then v else undefined))
  unfolding get
  typed_lem x v = elim (Bool-cases (truthy v)) [ inl e ↦ ground arith | inr e ↦ ground arith ]

  -- Where the filtering of a component can be read from its url, then for every name of a field:
  -- the field is to exist exactly if there is a parameter `only_field_exist_` with that name, it is
  -- to equal the last parameter `only_field_equal_` with the name, and to match the text of the last
  -- `only_field_match_`; and the type is that of `only_type` where this is truthy.
  pub read_filtering-Reads :
      (params : Fields) (x : Text) (f : Filtering)
      → read_filtering js parse_json params ≡ ok f
      → is_name x ≡ true
      → (any (λ y. y === x) f.only_field_exist ≡ any (λ k. k === exist_prefix ++ x) (keys params))
        × (get x f.only_field_equal ≡ last_of (λ v. v) (equal_prefix ++ x) params undefined)
        × (pattern_for x f.only_field_match
            ≡ last_of (λ v. some (to_text js v)) (match_prefix ++ x) params none)
        × (f.only_type ≡ (
            if truthy (get (codes "only_type") params)
            then get (codes "only_type") params
            else undefined))
  unfolding read_filtering get
  read_filtering-Reads params x f h n =
      let type = get (codes "only_type") params in
      let start = typed js parse_json type in
      let t = typed_lem x type in
      let r = read_params-Reads x (get (codes "__dynamic_eval__") params) params start f n h in
      (
        r.exists ∙ ap (λ b. b || any (λ k. k === exist_prefix ++ x) (keys params)) t.0,
        r.equals ∙ ap (last_of (λ v. v) (equal_prefix ++ x) params) t.1,
        r.matches ∙ ap (last_of (λ v. some (to_text js v)) (match_prefix ++ x) params) t.2,
        r.same_type ∙ t.3,
      )
