-- ===== src/Input/Gae.antt =====
-- lib/inputs/input_gae.js: the polling of log lines, one request at a time. Requests, timers and the
-- pieces of the responses are the events; `JSON.parse` and the decoding of the bytes of a piece
-- (`l.toString()`) are parameters, and listeners of `data` do not throw.
pub mod Laws
use node_logstash.Js.Value.{Value, null, obj, Fields, truthy, type_error, Result, ok, throw, ◌>>=◌}
use node_logstash.Js.Object.{get, set}
use node_logstash.Js.Convert.{Engine, to_text}
use node_logstash.Component.Config.{split}
use node_logstash.Prelude.{
  Bool, true, false, not, ◌&&◌, ◌||◌, List, [], ◌∷◌, ◌++◌, ℕ, if◌then◌else◌, Text, codes,
}

-- The parameters that a line is labelled by.
pub record Labels : Type 0 where
  pub access_logs_type : Value
  pub access_logs_field_name : Value
  pub type : Value

-- `in_progress`, and the `current_buffer` of the response.
pub record Poller : Type 0 where
  pub in_progress : Bool
  pub current_buffer : Text

pub data Event : Type 0 where
  -- The first call of `poll`, and those of the timer.
  timer : Event
  answered_ok : Event
  -- The bytes of a piece.
  chunk : List ℕ → Event
  ended : Event
  -- A response with another status.
  refused : Event
  failed : Event

pub data Effect : Type 0 where
  request : Effect
  data_of : Value → Effect
  error : Effect

-- `lines.pop()`
abbrev pub last_line : List Text → Text
last_line [] = []
last_line (l ∷ []) = l
last_line (l ∷ k ∷ ls) = last_line (k ∷ ls)

abbrev pub but_last : List Text → List Text
but_last [] = []
but_last (l ∷ []) = []
but_last (l ∷ k ∷ ls) = l ∷ but_last (k ∷ ls)

module _ (js : Engine) (parse : Text → Result Value) (labels : Labels) where
  abbrev with_access : Fields → Fields
  with_access o =
      if truthy labels.access_logs_type
        && truthy labels.access_logs_field_name
        && truthy (get (to_text js labels.access_logs_field_name) o)
      then set (codes "type") labels.access_logs_type o
      else o

  abbrev with_type : Fields → Fields
  with_type o =
      if truthy labels.type && not (truthy (get (codes "type") o))
      then set (codes "type") labels.type o
      else o

  -- A line, of which only objects have fields.
  abbrev labelled : Value → Result Value
  labelled (obj o) = ok (obj (with_type (with_access o)))
  labelled null = if needs_field then throw type_error else ok null
    where
      needs_field : Bool
      needs_field =
          (truthy labels.access_logs_type && truthy labels.access_logs_field_name)
          || truthy labels.type
  labelled v = ok v

  unfoldable pub on_line : Text → List Effect
  unfolding get set to_text
  on_line [] = []
  on_line (c ∷ s) = elim (parse (c ∷ s) >>= λ v. labelled v) [
    | ok v ↦ data_of v ∷ []
    | throw e ↦ error ∷ []
  ]

  unfoldable pub on_lines : List Text → List Effect
  unfolding on_line
  on_lines [] = []
  on_lines (l ∷ ls) = on_line l ++ on_lines ls

  module _ (decode : List ℕ → Text) where
    unfoldable pub step : Poller → Event → Poller × List Effect
    unfolding on_lines split
    step p timer =
        if p.in_progress then (p, []) else (record p { in_progress = true }, request ∷ [])
    step p answered_ok = (record p { current_buffer = [] }, [])
    step p (chunk l) = (
      record p { current_buffer = last_line (split b'\n' (p.current_buffer ++ decode l)) },
      on_lines (but_last (split b'\n' (p.current_buffer ++ decode l))),
    )
    step p ended = (record p { in_progress = false }, [])
    step p refused = (record p { in_progress = false }, error ∷ [])
    step p failed = (record p { in_progress = false }, error ∷ [])

    unfoldable pub run : Poller → List Event → Poller × List Effect
    unfolding step
    run p [] = (p, [])
    run p (e ∷ es) =
        let (p', effects) = step p e in let (p'', later) = run p' es in (p'', effects ++ later)
