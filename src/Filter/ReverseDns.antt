-- ===== src/Filter/ReverseDns.antt =====
-- lib/filters/filter_reverse_dns.js: `start` and `process`. The lookup of `dns.reverse`, by way of the
-- cache, is a parameter.
pub mod Laws
use node_logstash.Js.Value.{
  Value, undefined, str, Fields, end, field, truthy, type_error, Result, ok, throw, ◌>>=◌,
}
use node_logstash.Js.Object.{get, set, strict_eq}
use node_logstash.Js.Convert.{Engine, to_text}
use node_logstash.Component.Config.{split, load_required, load_optional, load_defaults}
use node_logstash.Prelude.{Bool, Option, none, some, List, [], ◌∷◌, if◌then◌else◌, Text, codes}

-- The fields that `start` sets.
pub record Settings : Type 0 where
  pub field : Value
  pub target_field : Value
  pub only_hostname : Bool

unfoldable pub start : Fields → Settings
unfolding get strict_eq
start this = record {
  field = get (codes "field") this;
  target_field =
      if truthy (get (codes "target_field") this)
      then get (codes "target_field") this
      else get (codes "field") this;
  only_hostname = strict_eq (get (codes "only_hostname") this) (str (codes "true"));
}

-- The defaults of the filter, and its optional parameters.
abbrev pub defaults : Fields
defaults = field (codes "only_hostname") (str (codes "true")) end

abbrev pub optional : List Text
optional = codes "only_hostname" ∷ codes "target_field" ∷ []

-- The text before the first dot of a name; where a name has none, `split` fails.
abbrev first_part : Option Text → Result Value
first_part none = throw type_error
first_part (some s) = ok (head (split b'.' s))
  where
    head : List Text → Value
    head [] = undefined
    head (t ∷ ts) = str t

abbrev name : Option Text → Value
name none = undefined
name (some s) = str s

abbrev first : List Text → Option Text
first [] = none
first (t ∷ ts) = some t

-- What the callback of the lookup makes of a message, given what the lookup answers: an error, or names.
unfoldable pub on_reversed : Settings → Text → Fields → Option (List Text) → Result Fields
unfolding split
on_reversed s target data' none = ok data'
on_reversed s target data' (some names) =
    if s.only_hostname
    then (first_part (first names) >>= λ v. ok (set target v data'))
    else ok (set target (name (first names)) data')

pub data Reversed : Type 0 where
  -- `process` returns the message.
  returned : Fields → Reversed
  -- The callback of the lookup emits the message.
  called_back : Result Fields → Reversed

-- `process`, with a lookup that is answered.
unfoldable pub process : Engine → Settings → (Value → Option (List Text)) → Fields → Reversed
unfolding on_reversed get to_text
process js s reverse data' =
    if truthy (get (to_text js s.field) data')
    then called_back
        (on_reversed s (to_text js s.target_field) data' (reverse (get (to_text js s.field) data')))
    else returned data'

-- What `loadConfig` makes of `only_hostname` in a url, as far as the three loops go.
abbrev pub configured : Fields → Fields → Fields
configured params this =
    load_defaults defaults (load_optional optional params (load_required [] params this))
