-- ===== src/Tests/Inputs.antt =====
-- The file input and the serialisers on concrete inputs.
use node_logstash.Js.Value.{Value, syntax_error, str, obj, Fields, end, field, Result, ok, throw}
use node_logstash.Js.Object.{get}
use node_logstash.Input.Serial.{unserialize_json}
use node_logstash.Input.Serial.Laws.{IsWritten, lines, values, unserialize-join}
use node_logstash.Input.Files.{Event, exists, changed, initial, run, InputFile}
use node_logstash.Prelude.{
  ◌≡◌, refl, Bool, true, false, none, some, List, [], ◌∷◌, arith, if◌then◌else◌, Text, codes, ◌===◌,
  starts_with, join,
}

abbrev stamped : Fields
stamped = field (codes "@timestamp") (str (codes "now")) end

-- One text is JSON, and it is that of one message.
abbrev read_one : Text → Result Value
read_one s = if s === codes "{}" then ok (obj stamped) else throw syntax_error

abbrev write_one : Fields → Text
write_one d = codes "{}"

stamped-IsWritten : IsWritten read_one write_one stamped
unfolding get
stamped-IsWritten = record {
  read_back = refl;
  not_empty = omega arith;
  one_line = ground arith;
  has_timestamp = refl;
}

unserialize-join_example :
    unserialize_json read_one (join (10 ∷ []) (lines read_one write_one (stamped ∷ stamped ∷ [])))
    ≡ (values read_one write_one (stamped ∷ stamped ∷ []), false)
unserialize-join_example =
    unserialize-join read_one write_one stamped (stamped ∷ [])
      (stamped-IsWritten, (stamped-IsWritten, tt))

abbrev is_log : Text → Bool
is_log name = starts_with (codes "app") name

abbrev changes : List Event
changes =
    exists (codes "/log") true (some (codes "app1" ∷ codes "other" ∷ [])) false
    ∷ changed (codes "/log") (codes "app1")
    ∷ exists (codes "/log2") true (some (codes "app2" ∷ [])) false
    ∷ []

abbrev watched : InputFile
watched = (run is_log (codes "/") (initial none) changes).0
