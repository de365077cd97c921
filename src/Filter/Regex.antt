-- ===== src/Filter/Regex.antt =====
-- lib/filters/filter_regex.js: the pattern file of `builtin_regex`, `start`, and `process`. The regular
-- expression that is searched is a parameter, as is the reading of dates.
use node_logstash.Js.Value.{
  Value, str, obj, Fields, truthy, Error, message, type_error, Result, ok, throw,
}
use node_logstash.Js.Object.{get, set_all}
use node_logstash.Js.Convert.{Engine, to_text}
use node_logstash.Filter.RegexHelper
use node_logstash.Loader.{Disk, load}
use node_logstash.Prelude.{Option, none, some, List, [], ◌∷◌, ◌++◌, if◌then◌else◌, Text, codes}

module _ (js : Engine) (parse_json : Text → Result Value) (error_text : Error → Text) where
  abbrev put_config : Fields → Result Value → Result Fields
  put_config this (ok (obj config)) = ok (set_all config this)
  put_config this (ok v) = ok this
  put_config this (throw e) = throw (
      message (
        codes "Unable to load pattern : "
        ++ (to_text js (get (codes "builtin_regex") this) ++ (codes " : " ++ error_text e))))

  -- `loadPattern`, the config hook: every entry of the pattern file becomes a parameter. A file that is
  -- no object has no entries, unless it is an array or a text.
  unfoldable pub load_pattern : Disk → List Text → Fields → Result Fields
  unfolding load set_all get to_text
  load_pattern disk directories this =
      if truthy (get (codes "builtin_regex") this)
      then put_config this (
          load parse_json error_text disk directories
            (to_text js (get (codes "builtin_regex") this)))
      else ok this

module _ (js : Engine) (read_date : Text → Text → Option Text)
    (search : Text → Option (List (Option Text))) where
  abbrev next : List (Option Text) → Option Text
  next [] = none
  next (v ∷ groups) = v

  abbrev rest : List (Option Text) → List (Option Text)
  rest [] = []
  rest (v ∷ groups) = groups

  -- The loop on the fields: a group that the match does not have is undefined.
  unfoldable pub put_matches :
      Option Text → List Text → List Text → List (Option Text) → Fields → Fields
  unfolding RegexHelper.process
  put_matches date_format numerical_fields [] groups data' = data'
  put_matches date_format numerical_fields (f ∷ fs) groups data' =
      put_matches date_format numerical_fields fs (rest groups)
        (RegexHelper.process js read_date date_format numerical_fields f (next groups) data')

  abbrev matched :
      Option Text → List Text → List Text → Option (List (Option Text)) → Fields → Fields
  matched date_format numerical_fields names none data' = data'
  matched date_format numerical_fields names (some groups) data' =
      put_matches date_format numerical_fields names groups data'

  abbrev match_in : Option Text → List Text → List Text → Value → Fields → Result Fields
  match_in date_format numerical_fields names (str s) data' =
      ok (matched date_format numerical_fields names (search s) data')
  match_in date_format numerical_fields names v data' = throw type_error

  -- `process`: only strings have a method `match`.
  unfoldable pub process : Text → Option Text → List Text → List Text → Fields → Result Fields
  unfolding put_matches get
  process source date_format numerical_fields names data' =
      if truthy (get source data')
      then match_in date_format numerical_fields names (get source data') data'
      else ok data'
