-- ===== src/Tests/Parameters.antt =====
-- The loading of parameters on concrete inputs.
use node_logstash.Js.Value.{
  undefined, str, arr, bool, obj, nil, cons, Fields, end, field, truthy, ok, Result, throw,
  syntax_error,
}
use node_logstash.Js.Object.{get, set, keys, last_of}
use node_logstash.Js.Convert.{to_text}
use node_logstash.Component.Filtering.{Filtering, DynamicEval}
use node_logstash.Component.Reading.{
  read_filtering, no_filtering, name_behind, exist_prefix, equal_prefix, match_prefix,
}
use node_logstash.Component.Reading.Laws.{pattern_for, read_filtering-Reads}
use node_logstash.Component.Config.{
  Config, no_port, load_required, load_optional, load_defaults, is_undefined, load_config, hash_of,
  load_arrays, load_hashes, split,
}
use node_logstash.Component.Config.Laws.{
  defined_in, value_before_defaults, get-load_params, load_config-All,
}
use node_logstash.Component.Config.Typed.{is_list, is_hash, load_params-typed}
use node_logstash.Tests.{plain}
use node_logstash.Prelude.{
  ◌≡◌, refl, true, false, ◌||◌, none, some, List, [], ◌∷◌, ◌++◌, if◌then◌else◌, any, All, Text,
  codes, ◌===◌,
}

-- { from: "a", invert: "true" }
abbrev params : Fields
params = field (codes "from") (str (codes "a")) (field (codes "invert") (str (codes "true")) end)

abbrev required : List Text
required = codes "from" ∷ []

abbrev optional : List Text
optional = codes "invert" ∷ codes "to" ∷ []

abbrev defaults : Fields
defaults = field (codes "to") (str (codes "b")) end

get-load_params_example :
    get
      (codes "invert")
      (load_defaults defaults (load_optional optional params (load_required required params end)))
    ≡ (if is_undefined (value_before_defaults required optional params end (codes "invert"))
        then defined_in (codes "invert") defaults
        else value_before_defaults required optional params end (codes "invert"))
get-load_params_example = get-load_params required optional defaults params end (codes "invert")

abbrev config : Config
config = record {
  host_field = none;
  port_field = no_port;
  allow_empty_host = false;
  required_params = required;
  optional_params = optional;
  default_values = defaults;
  arrays = codes "to" ∷ [];
  hashes = [];
}

-- Every query is read as the same parameters.
abbrev parse_query : Text → Fields
parse_query s = params

abbrev no_json : Text → Result DynamicEval
no_json s = throw syntax_error

abbrev loaded : Fields
loaded =
    field (codes "from") (str (codes "a")) (
      field (codes "invert") (bool true)
        (field (codes "to") (arr (cons (str (codes "b")) nil)) end))

load_config-All_example : All (λ p. truthy (get p loaded) ≡ true) required
unfolding load_config read_filtering name_behind get set
load_config-All_example =
    load_config-All plain parse_query no_json config ((λ t. ok t) ∷ [])
      (codes "?from=a&invert=true") end loaded no_filtering refl

invert_is_true :
    get
      (codes "invert")
      (load_defaults defaults (load_optional optional params (load_required required params end)))
    ≡ bool true
unfolding load_defaults load_optional load_required get set
invert_is_true = refl

object_is_lost : hash_of (obj params) ≡ ok end
unfolding hash_of
object_is_lost = refl

-- { only_field_exist_a: "1", only_field_equal_a: "b", only_type: "web" }
abbrev asked : Fields
asked = field (codes "only_field_exist_a") (str (codes "1")) (
    field (codes "only_field_equal_a") (str (codes "b"))
      (field (codes "only_type") (str (codes "web")) end))

abbrev asked_filtering : Filtering
asked_filtering = record {
  only_type = str (codes "web");
  only_field_exist = codes "a" ∷ [];
  only_field_equal = field (codes "a") (str (codes "b")) end;
  only_field_match = [];
  dynamic_eval = none;
}

read_filtering-Reads_example :
    (any (λ y. y === codes "a") asked_filtering.only_field_exist
      ≡ any (λ k. k === exist_prefix ++ codes "a") (keys asked))
    × (get (codes "a") asked_filtering.only_field_equal
        ≡ last_of (λ v. v) (equal_prefix ++ codes "a") asked undefined)
    × (pattern_for (codes "a") asked_filtering.only_field_match
        ≡ last_of (λ v. some (to_text plain v)) (match_prefix ++ codes "a") asked none)
    × (asked_filtering.only_type ≡ (
        if truthy (get (codes "only_type") asked)
        then get (codes "only_type") asked
        else undefined))
unfolding read_filtering name_behind get set
read_filtering-Reads_example =
    read_filtering-Reads plain no_json asked (codes "a") asked_filtering refl refl

-- { from: "a", to: "b:c" }
abbrev given : Fields
given = field (codes "from") (str (codes "a")) (field (codes "to") (str (codes "b:c")) end)

abbrev with_list : Fields
with_list =
    field (codes "from") (arr (cons (str (codes "a")) nil))
      (field (codes "to") (str (codes "b:c")) end)

abbrev with_hash : Fields
with_hash =
    field (codes "from") (arr (cons (str (codes "a")) nil))
      (field (codes "to") (obj (field (codes "b") (str (codes "c")) end)) end)

load_params-typed_example :
    All (λ h. is_hash (get h with_hash) ≡ true) (codes "to" ∷ [])
    × All
        (λ a. (any (λ h. h === a) (codes "to" ∷ []) || is_list (get a with_hash)) ≡ true)
        (codes "from" ∷ [])
unfolding load_arrays load_hashes split get set
load_params-typed_example =
    load_params-typed (codes "from" ∷ []) (codes "to" ∷ []) given with_list with_hash refl refl
