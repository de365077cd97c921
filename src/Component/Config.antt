-- ===== src/Component/Config.antt =====
-- `loadConfig` of lib/lib/base_component.js: from the url of a component to its parameters. The
-- component itself, `this`, is the object of its parameters; the hooks are functions on it, and
-- what is read of the messages to take stands beside it.
pub mod Laws
pub mod Merge
pub mod Typed
use node_logstash.Js.Value.{
  Value, Values, undefined, null, bool, num, str, arr, obj, nil, cons, Fields, end, field, truthy,
  Error, message, type_error, Result, ok, throw, ◌>>=◌,
}
use node_logstash.Js.Object.{get, set, strict_eq}
use node_logstash.Js.Convert.{Engine}
use node_logstash.Component.Filtering.{Filtering, DynamicEval}
use node_logstash.Component.Reading.{read_filtering}
use node_logstash.Url.{UrlContent, process_url_content, Port, extract_port_number}
use node_logstash.Prelude.{
  Bool, true, false, not, ◌&&◌, ◌||◌, Option, none, some, List, [], ◌∷◌, ℕ, ltb, ◌==◌,
  if◌then◌else◌, length, Text, codes, ◌===◌,
}

-- `port_field` is missing, -1, or a name.
pub data PortField : Type 0 where
  no_port : PortField
  minus_one : PortField
  port_named : Text → PortField

-- `this.config` after all `mergeConfig`
pub record Config : Type 0 where
  pub host_field : Option Text
  pub port_field : PortField
  pub allow_empty_host : Bool
  pub required_params : List Text
  pub optional_params : List Text
  pub default_values : Fields
  pub arrays : List Text
  pub hashes : List Text

-- `this.parsed_url`
pub record ParsedUrl : Type 0 where
  pub host : Value
  pub params : Fields

abbrev failure : Error
failure = message (codes "Unable to load the configuration")

-- `processValue`
unfoldable pub process_value : Value → Value
process_value (str s) =
    if s === codes "true" then bool true else if s === codes "false" then bool false else str s
process_value v = v

-- The loop over `required_params`
unfoldable pub load_required : List Text → Fields → Fields → Fields
unfolding process_value
load_required [] params this = this
load_required (p ∷ ps) params this =
    load_required ps params
      (if truthy (get p params) then set p (process_value (get p params)) this else this)

abbrev pub is_undefined : Value → Bool
is_undefined undefined = true
is_undefined v = false

-- The loop over `optional_params`
unfoldable pub load_optional : List Text → Fields → Fields → Fields
unfolding process_value
load_optional [] params this = this
load_optional (p ∷ ps) params this =
    load_optional ps params
      (if is_undefined (get p params) then this else set p (process_value (get p params)) this)

-- The loop over `default_values`
unfoldable pub load_defaults : Fields → Fields → Fields
load_defaults end this = this
load_defaults (field k v rest) this =
    load_defaults rest (if is_undefined (get k this) then set k v this else this)

-- A character in front of the pieces of the rest.
abbrev pub extend : Bool → ℕ → List Text → List Text
extend true d rest = [] ∷ rest
extend false d [] = (d ∷ []) ∷ []
extend false d (t ∷ ts) = (d ∷ t) ∷ ts

-- `s.split(c)` for one character
unfoldable pub split : ℕ → Text → List Text
split c [] = [] ∷ []
split c (d ∷ s) = extend (c == d) d (split c s)

abbrev strings : List Text → Values
strings [] = nil
strings (t ∷ ts) = cons (str t) (strings ts)

-- What a parameter of `arrays` becomes; only strings have a method `split`.
abbrev array_of : Value → Result Value
array_of (arr vs) = ok (arr vs)
array_of (str s) = ok (arr (strings (split b',' s)))
array_of v = throw type_error

-- The loop over `arrays`
unfoldable pub load_arrays : List Text → Fields → Result Fields
unfolding split
load_arrays [] this = ok this
load_arrays (a ∷ l) this =
    if truthy (get a this)
    then (array_of (get a this) >>= λ v. load_arrays l (set a v this))
    else load_arrays l this

-- `splitted[0]` and `splitted[1]`
abbrev second : List Text → Value
second [] = undefined
second (t ∷ ts) = str t

abbrev put_entry : List Text → Fields → Fields
put_entry [] x = x
put_entry (k ∷ ts) x = set k (second ts) x

unfoldable pub put_entries : List Text → Fields → Fields
unfolding split
put_entries [] x = x
put_entries (v ∷ vs) x = put_entries vs (put_entry (split b':' v) x)

-- What a parameter of `hashes` becomes: an object is replaced by an empty one.
unfoldable pub hash_of : Value → Result Fields
unfolding put_entries split
hash_of (str s) = ok (put_entries (split b',' s) end)
hash_of (arr vs) = ok end
hash_of (obj o) = ok end
hash_of null = ok end
hash_of v = throw type_error

-- The loop over `hashes`
unfoldable pub load_hashes : List Text → Fields → Result Fields
unfolding hash_of
load_hashes [] this = ok this
load_hashes (h ∷ l) this =
    if truthy (get h this)
    then (hash_of (get h this) >>= λ x. load_hashes l (set h (obj x) this))
    else load_hashes l this

-- The check of `required_params`, after the hooks
unfoldable pub check_required : List Text → Fields → Result Fields
check_required [] this = ok this
check_required (p ∷ ps) this =
    let rest = check_required ps this in if truthy (get p this) then rest else throw failure

-- The first part: an empty url only suits a component that needs nothing from it.
abbrev needs_url : Config → Bool
needs_url c = has_name c.host_field || (has_port c.port_field || ltb 0 (length c.required_params))
  where
    has_name : Option Text → Bool
    has_name none = false
    has_name (some h) = true

    has_port : PortField → Bool
    has_port no_port = false
    has_port _ = true

module _ (js : Engine) (parse_query : Text → Fields) where
  abbrev parsed : Option UrlContent → Result ParsedUrl
  parsed none = throw failure
  parsed (some u) = ok (record { host = u.host; params = u.params })

  unfoldable pub parse_url : Config → Text → Result ParsedUrl
  unfolding process_url_content
  parse_url c [] =
      if needs_url c then throw failure else ok (record { host = undefined; params = end })
  parse_url c (b ∷ url) = parsed (process_url_content parse_query (b ∷ url))

  has_colon : Values → Bool
  unfolding strict_eq
  has_colon nil = false
  has_colon (cons v vs) = strict_eq v (str (codes ":")) || has_colon vs

  -- `extractPortNumber` on the host, which is a string, or an array of strings.
  abbrev port_of : Value → Result (Option Port)
  port_of (str s) = ok (extract_port_number js s)
  port_of (arr vs) = if has_colon vs then throw type_error else ok none
  port_of v = throw type_error

  abbrev with_port : Text → Text → Fields → Value → Option Port → Fields → Result Fields
  with_port host_field port_field params host (some p) this =
      ok (set port_field (num p.port) (set host_field (str p.host) this))
  with_port host_field port_field params host none this =
      if truthy (get port_field params)
      then ok (set port_field (get port_field params) (set host_field host this))
      else throw failure

  abbrev host_and_port : PortField → Text → Fields → Value → Fields → Result Fields
  host_and_port (port_named q) h params host this =
      port_of host >>= λ p. with_port h q params host p this
  host_and_port _ h params host this = ok (set h host this)

  abbrev host_or_param : Text → ParsedUrl → Value
  host_or_param h u =
      if truthy u.host then u.host else if truthy (get h u.params) then get h u.params else u.host

  unfoldable pub load_host : Config → Option Text → ParsedUrl → Fields → Result Fields
  unfolding extract_port_number has_colon
  load_host c none u this = ok this
  load_host c (some h) u this =
      if not (truthy (host_or_param h u)) && not c.allow_empty_host
      then throw failure
      else host_and_port c.port_field h u.params (host_or_param h u) this

-- A hook is a function on the component, and `eachSeries` stops at the first error.
abbrev pub Hook : Type 0
Hook = Fields → Result Fields

unfoldable pub run_hooks : List Hook → Fields → Result Fields
run_hooks [] this = ok this
run_hooks (h ∷ hs) this = h this >>= λ t. run_hooks hs t

module _ (js : Engine) (parse_query : Text → Fields) (parse_json : Text → Result DynamicEval) where
  -- `loadConfig` up to the start hooks: the parameters, and which messages are taken.
  unfoldable pub load_config : Config → List Hook → Text → Fields → Result (Fields × Filtering)
  unfolding parse_url load_host load_required load_optional load_defaults load_arrays load_hashes
      read_filtering run_hooks check_required
  load_config c config_hooks url this = parse_url js parse_query c url >>= λ u.
      load_host js parse_query c c.host_field u this >>= λ with_host.
      load_arrays c.arrays (
        load_defaults c.default_values (
          load_optional c.optional_params u.params
            (load_required c.required_params u.params with_host)))
      >>= λ with_arrays. load_hashes c.hashes with_arrays >>= λ with_hashes.
          read_filtering js parse_json u.params >>= λ filtering.
          run_hooks config_hooks with_hashes >>= λ hooked.
          check_required c.required_params hooked >>= λ checked. ok (checked, filtering)

  -- All of `loadConfig`.
  unfoldable pub load_and_start :
      Config → List Hook → List Hook → Text → Fields → Result (Fields × Filtering)
  unfolding load_config run_hooks
  load_and_start c config_hooks start_hooks url this = load_config c config_hooks url this >>= λ r.
      run_hooks start_hooks r.0 >>= λ started. ok (started, r.1)
