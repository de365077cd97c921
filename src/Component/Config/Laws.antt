-- ===== src/Component/Config/Laws.antt =====
-- What a component has for parameters after `loadConfig`.
use node_logstash.Js.Value.{
  Value, undefined, Fields, end, field, truthy, Result, Result-cases, ok, throw, ◌>>=◌,
}
use node_logstash.Js.Object.{get, set, get-set}
use node_logstash.Js.Convert.{Engine}
use node_logstash.Component.Filtering.{Filtering, DynamicEval}
use node_logstash.Component.Reading.{read_filtering}
use node_logstash.Component.Config.{
  Config, process_value, load_required, load_optional, load_defaults, is_undefined, split, extend,
  check_required, load_config, load_host, parse_url, load_arrays, load_hashes, Hook, run_hooks,
}
use node_logstash.Prelude.{
  Lacks, ◌≡◌, refl, ap, ◌∙◌, inl, inr, Bool, true, false, not, ◌&&◌, ◌||◌, List, [], ◌∷◌, arith, ℕ,
  ◌<◌, ◌==◌, if◌then◌else◌, ==_iff, Bool-cases, length, any, All, Text, ◌===◌, ===_iff, join,
}

get-load_required :
    (k : Text) (ps : List Text) (params this : Fields)
    → get k (load_required ps params this) ≡ (
        if any (λ p. p === k) ps && truthy (get k params)
        then process_value (get k params)
        else get k this)
unfolding load_required
get-load_required k [] params this = refl
get-load_required k (p ∷ ps) params this = elim (Bool-cases (truthy (get p params))) [
  | inl e ↦ ground (
    arith,
    get-load_required k ps params (set p (process_value (get p params)) this),
    get-set k p (process_value (get p params)) this,
    ===_iff p k,
  )
  | inr e ↦ ground (arith, get-load_required k ps params this, ===_iff p k)
]

get-load_optional :
    (k : Text) (ps : List Text) (params this : Fields)
    → get k (load_optional ps params this) ≡ (
        if any (λ p. p === k) ps && not (is_undefined (get k params))
        then process_value (get k params)
        else get k this)
unfolding load_optional
get-load_optional k [] params this = refl
get-load_optional k (p ∷ ps) params this = elim (Bool-cases (is_undefined (get p params))) [
  | inl e ↦ ground (arith, get-load_optional k ps params this, ===_iff p k)
  | inr e ↦ ground (
    arith,
    get-load_optional k ps params (set p (process_value (get p params)) this),
    get-set k p (process_value (get p params)) this,
    ===_iff p k,
  )
]

-- The first value of a name that is not undefined.
abbrev pub defined_in : Text → Fields → Value
defined_in k end = undefined
defined_in k (field j v o) = if j === k && not (is_undefined v) then v else defined_in k o

undefined_only : (v : Value) → is_undefined v ≡ true → v ≡ undefined
undefined_only v h = ground arith

get-load_defaults :
    (k : Text) (ds this : Fields)
    → get k (load_defaults ds this)
      ≡ (if is_undefined (get k this) then defined_in k ds else get k this)
unfolding load_defaults
get-load_defaults k end this = ground (arith, undefined_only (get k this))
get-load_defaults k (field j v rest) this = elim (Bool-cases (is_undefined (get j this))) [
  | inl e ↦ ground (
    arith,
    get-load_defaults k rest (set j v this),
    get-set k j v this,
    ===_iff j k,
    undefined_only v,
  )
  | inr e ↦ ground (arith, get-load_defaults k rest this, ===_iff j k)
]

-- The value that the url gives a parameter, where the component knows it: an optional one unless it
-- is undefined, a required one where it is truthy.
abbrev pub given : List Text → List Text → Fields → Text → Bool
given required optional params k =
    (any (λ p. p === k) optional && not (is_undefined (get k params)))
    || (any (λ p. p === k) required && truthy (get k params))

abbrev pub value_before_defaults : List Text → List Text → Fields → Fields → Text → Value
value_before_defaults required optional params this k =
    if given required optional params k then process_value (get k params) else get k this

-- After the loops over the required parameters, the optional ones and the defaults, every parameter
-- is that of the url where it is given, with `true` and `false` read as Booleans, else what the
-- component had before, and the default where this is undefined.
pub get-load_params :
    (required optional : List Text) (ds params this : Fields) (k : Text)
    → get k (load_defaults ds (load_optional optional params (load_required required params this)))
      ≡ (if is_undefined (value_before_defaults required optional params this k)
          then defined_in k ds
          else value_before_defaults required optional params this k)
get-load_params required optional ds params this k = ground (
  arith,
  get-load_defaults k ds (load_optional optional params (load_required required params this)),
  get-load_optional k optional params (load_required required params this),
  get-load_required k required params this,
)

check_required-All :
    (ps : List Text) (this t : Fields)
    → check_required ps this ≡ ok t
    → All (λ p. truthy (get p t) ≡ true) ps × (this ≡ t)
unfolding check_required
check_required-All [] this t h = (tt, ground arith)
check_required-All (p ∷ ps) this t h =
    let (rest, e) = check_required-All ps this t (ground arith) in
    let here : truthy (get p this) ≡ true = ground arith in ((rw⁻¹ e here, rest), e)

ok_of_bind :
    {A B : Type 0} (r : Result A) (f : A → Result B) (b : B)
    → (r >>= f) ≡ ok b
    → (a : A) × (f a ≡ ok b)
ok_of_bind (ok a) f b h = (a, h)
ok_of_bind (throw e) f b h = ground arith

module _ (js : Engine) (parse_query : Text → Fields) (parse_json : Text → Result DynamicEval) where
  -- A component whose configuration is loaded has all of its required parameters, and they are
  -- truthy, whatever its configuration hooks do.
  pub load_config-All :
      (c : Config) (hooks : List Hook) (url : Text) (this t : Fields) (f : Filtering)
      → load_config js parse_query parse_json c hooks url this ≡ ok (t, f)
      → All (λ p. truthy (get p t) ≡ true) c.required_params
  unfolding load_config
  load_config-All c hooks url this t f h =
      let (u, h1) = ok_of_bind (parse_url js parse_query c url) _ (t, f) h in
      let (with_host, h2) =
        ok_of_bind (load_host js parse_query c c.host_field u this) _ (t, f) h1 in
      let (with_arrays, h3) = ok_of_bind (load_arrays c.arrays _) _ (t, f) h2 in
      let (with_hashes, h4) = ok_of_bind (load_hashes c.hashes with_arrays) _ (t, f) h3 in
      let (g, h5) = ok_of_bind (read_filtering js parse_json u.params) _ (t, f) h4 in
      let (hooked, h6) = ok_of_bind (run_hooks hooks with_hashes) _ (t, f) h5 in
      elim (Result-cases (check_required c.required_params hooked)) [
        | inl (checked, e) ↦
            let same : checked ≡ t = ground (arith, e) in
            (check_required-All c.required_params hooked t (e ∙ ap ok same)).0
        | inr (x, e) ↦ absurd (ground (arith, e))
      ]

extend_lem :
    (c d : ℕ) (b : Bool) (rest : List Text) (s : Text)
    → (c == d) ≡ b
    → (join (c ∷ []) rest ≡ s) × All (Lacks c) rest × (0 < length rest)
    → (join (c ∷ []) (extend b d rest) ≡ d ∷ s)
      × All (Lacks c) (extend b d rest)
      × (0 < length (extend b d rest))
extend_lem c d b [] s h (e, a, p) = absurd (omega (arith, p))
extend_lem c d true (t ∷ ts) s h (e, a, p) = (ground (arith, ==_iff c d), (tt, a), omega arith)
extend_lem c d false (t ∷ []) s h (e, a, p) = (ground arith, ((h, a.0), tt), omega arith)
extend_lem c d false (t ∷ u ∷ ts) s h (e, a, p) = (ground arith, ((h, a.0), a.1), omega arith)

-- `split` at one character cuts a text into pieces without it that give the text back when they are
-- joined by it.
join-split :
    (c : ℕ) (s : Text)
    → (join (c ∷ []) (split c s) ≡ s) × All (Lacks c) (split c s) × (0 < length (split c s))
unfolding split
join-split c [] = (refl, (tt, tt), omega arith)
join-split c (d ∷ s) = extend_lem c d (c == d) (split c s) s refl (join-split c s)
