-- ===== src/Filter/Simple.antt =====
-- The filters of lib/filters that read and write single fields.
pub mod Laws
use node_logstash.Js.Value.{Value, str, Fields, truthy, Result, ok, throw, type_error}
use node_logstash.Js.Object.{get, set, delete, strict_eq}
use node_logstash.Js.Convert.{Engine}
use node_logstash.Component.Template.{Part, replace_by_fields}
use node_logstash.Filter.{Processed, nothing, one}
use node_logstash.Prelude.{
  Bool, false, not, ◌&&◌, Option, none, some, List, [], ◌∷◌, ℕ, if◌then◌else◌, take, Text, codes,
}

abbrev pub set_default : Text → Value → Fields → Fields
set_default k v data' = if truthy (get k data') then data' else set k v data'

-- filter_add_timestamp.js, with the text of the current time
unfoldable pub add_timestamp : Text → Fields → Fields
add_timestamp now data' = set_default (codes "@timestamp") (str now) data'

-- filter_add_version.js
unfoldable pub add_version : Fields → Fields
add_version data' = set_default (codes "@version") (str (codes "1")) data'

-- filter_add_host.js, with the name of the host that `start` reads
unfoldable pub add_host : Text → Fields → Fields
add_host hostname data' = set_default (codes "host") (str hostname) data'

-- filter_rename.js
unfoldable pub rename : Text → Text → Fields → Fields
rename from to data' =
    if truthy (get from data') then delete from (set to (get from data') data') else data'

-- filter_remove_field_when_equal.js
unfoldable pub remove_when_equal : Text → Value → Fields → Fields
remove_when_equal name wanted data' =
    if truthy (get name data') && strict_eq (get name data') wanted
    then delete name data'
    else data'

-- `message.substring(0, max_size)`, with the number of characters that `max_size` is converted to;
-- what is no string has no `substring`.
unfoldable pub truncate : ℕ → Fields → Result Fields
truncate max_size data' = elim (get (codes "message") data') [
  | str s ↦
      ok (if truthy (str s) then set (codes "message") (str (take max_size s)) data' else data')
  | v ↦ if truthy v then throw type_error else ok data'
]

abbrev store : Text → Fields → Option Text → Fields
store name data' none = data'
store name data' (some []) = data'
store name data' (some (x ∷ s)) = set name (str (x ∷ s)) data'

module _ (js : Engine) where
  abbrev matched : Text → Text → Bool
  matched p s = elim (js.regexp_test p s) [ none ↦ false | some b ↦ b ]

  -- filter_grep.js; a message that is no string has no `match`.
  unfoldable pub grep : Text → Bool → Fields → Result Processed
  grep regex invert data' = elim (get (codes "message") data') [
    | str s ↦
        ok (
          if (if invert then not (matched regex s) else matched regex s)
          then one data'
          else nothing)
    | _ ↦ throw type_error
  ]

  -- filter_compute_field.js: an empty text is not stored either.
  unfoldable pub compute_field :
      (Text → Text)
      → List (Text × List Part)
      → Text
      → Text
      → Fields
      → List (Text × List Part) × Fields
  unfolding replace_by_fields
  compute_field now_text c name template data' =
      let (c', r) = replace_by_fields js now_text c data' template in (c', store name data' r)
