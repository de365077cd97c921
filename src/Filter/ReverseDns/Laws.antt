-- ===== src/Filter/ReverseDns/Laws.antt =====
-- What the parameter `only_hostname` of a url does.
use node_logstash.Js.Value.{Value, undefined, str, Fields}
use node_logstash.Js.Object.{get, strict_eq}
use node_logstash.Component.Config.{is_undefined, process_value}
use node_logstash.Component.Config.Laws.{get-load_params}
use node_logstash.Filter.ReverseDns.{start, configured, defaults, optional}
use node_logstash.Prelude.{◌≡◌, refl, false, Option, none, some, [], arith, Text, codes, ===_iff}

-- What a query has for a name that it gives at most once.
abbrev pub of_query : Option Text → Value
of_query none = undefined
of_query (some s) = str s

strict_eq_true : (s : Text) → strict_eq (process_value (str s)) (str (codes "true")) ≡ false
unfolding process_value strict_eq
strict_eq_true s = ground (arith, ===_iff s (codes "true"))

process_value_defined : (s : Text) → is_undefined (process_value (str s)) ≡ false
unfolding process_value
process_value_defined s = ground arith

-- A url that gives `only_hostname`, whatever its value, turns it off: the filter compares the
-- parameter with the string true, and `loadConfig` makes a boolean of that string, but not of the
-- default.
pub start-configured :
    (params this : Fields) (given : Option Text)
    → get (codes "only_hostname") params ≡ of_query given
    → get (codes "only_hostname") this ≡ undefined
    → (start (configured params this)).only_hostname ≡ is_undefined (of_query given)
unfolding start strict_eq
start-configured params this none h k =
    rw (get-load_params [] optional defaults params this (codes "only_hostname"), h, k) refl
start-configured params this (some s) h k =
    rw
      (
        get-load_params [] optional defaults params this (codes "only_hostname"),
        h,
        process_value_defined s,
      )
      (strict_eq_true s)
