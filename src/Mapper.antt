-- ===== src/Mapper.antt =====
-- lib/lib/config_mapper.js: from the blocks of a logstash configuration to the list of plugin urls.
-- A branch's body is the list of its plugins, the form that the code gives it: an `if` in a body is
-- there a plugin named `__if__`, since only the lines of a section are looked at for that name. The
-- check of `compute_url` for a single key is the form of a plugin here.
pub mod Branches
pub mod Spec
use node_logstash.Js.Value.{Value, obj, str, Fields, end, field}
use node_logstash.Js.Object.{set}
use node_logstash.Js.Convert.{Engine, to_text}
use node_logstash.Condition.{Condition}
use node_logstash.Component.Filtering.{DynamicEval}
use node_logstash.Prelude.{none, some, List, [], ◌∷◌, ◌++◌, map, Text, codes, join}

pub record Plugin : Type 0 where
  pub name : Text
  pub conf : Fields

pub record Branch : Type 0 where
  pub condition : Condition
  pub body : List Plugin

pub data Line : Type 0 where
  plugin : Plugin → Line
  if_block : List Branch → List Plugin → Line

-- What the parser returns; a section that is missing has no lines.
pub record Config : Type 0 where
  pub input : List Line
  pub filter : List Line
  pub output : List Line

-- `querystring.stringify`, and `JSON.stringify` on the objects that it is given here.
pub record Writers : Type 0 where
  pub stringify_query : Fields → Text
  pub stringify_eval : DynamicEval → Text

-- The plugins of an `if`, each with the conditions under which it runs: those of the branches
-- before are collected in `cond_stack`.
unfoldable pub guard_all : DynamicEval → List Plugin → List (DynamicEval × Plugin)
guard_all e [] = []
guard_all e (p ∷ ps) = (e, p) ∷ guard_all e ps

unfoldable pub guard_branches :
    List Condition → List Branch → List Plugin → List (DynamicEval × Plugin)
unfolding guard_all
guard_branches cond_stack [] otherwise =
    guard_all (record { false_clauses = cond_stack; true_clause = none }) otherwise
guard_branches cond_stack (b ∷ bs) otherwise =
    guard_all (record { false_clauses = cond_stack; true_clause = some b.condition }) b.body
    ++ guard_branches (cond_stack ++ b.condition ∷ []) bs otherwise

-- The url that `compute_url` starts.
unfoldable pub plugin_url : Text → Text → Text
plugin_url type name = type ++ (codes "://" ++ (name ++ codes "://"))

module _ (js : Engine) (w : Writers) where
  -- `k:v,k:v`
  entries : Fields → List Text
  unfolding to_text
  entries end = []
  entries (field k v o) = (k ++ (codes ":" ++ to_text js v)) ∷ entries o

  abbrev flat : Value → Value
  flat (obj o) = str (join (codes ",") (entries o))
  flat v = v

  unfoldable pub flatten : Fields → Fields
  unfolding entries
  flatten end = end
  flatten (field k v o) = field k (flat v) (flatten o)

  unfoldable pub stringify : Fields → Text
  stringify conf = w.stringify_query (flatten conf)

  unfoldable pub guarded_url : Text → DynamicEval × Plugin → Text
  unfolding plugin_url stringify
  guarded_url type (e, p) =
      plugin_url type p.name
      ++ (codes "?" ++ stringify (set (codes "__dynamic_eval__") (str (w.stringify_eval e)) p.conf))

  abbrev plain_query : Fields → Text
  plain_query end = []
  plain_query (field k v o) = codes "?" ++ stringify (field k v o)

  unfoldable pub line_urls : Text → Line → List Text
  unfolding plugin_url stringify guarded_url guard_branches
  line_urls type (plugin p) = (plugin_url type p.name ++ plain_query p.conf) ∷ []
  line_urls type (if_block bs otherwise) = map (guarded_url type) (guard_branches [] bs otherwise)

  unfoldable pub section_urls : Text → List Line → List Text
  unfolding line_urls
  section_urls type [] = []
  section_urls type (l ∷ ls) = line_urls type l ++ section_urls type ls

  unfoldable pub map_config : Config → List Text
  unfolding section_urls
  map_config x =
      section_urls (codes "input") x.input
      ++ (section_urls (codes "filter") x.filter ++ section_urls (codes "output") x.output)
