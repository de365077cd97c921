-- ===== src/Agent/Configure.antt =====
-- `configure` of lib/agent.js: a plugin is found by its url, created and initialised, and its errors
-- are handed on. `emit('error')` with no listener throws in the emitter, as events are documented; an
-- exception that `init` does not catch itself is caught by `configure`. The events begin with the call
-- of `init`: an exception before it is answered once. What the caller does with an answer does not
-- throw, and somebody listens to the errors of the agent.
pub mod Laws
use node_logstash.Js.Value.{Error, message, Result, ok, throw}
use node_logstash.Url.{extract_protocol}
use node_logstash.Agent.Start.{Kind, input, filter, output}
use node_logstash.Prelude.{
  Bool, true, false, Option, none, some, List, [], ◌∷◌, ◌++◌, ℕ, zero, suc, if◌then◌else◌, Text,
  codes,
}

abbrev kind_name : Kind → Text
kind_name input = codes "input"
kind_name filter = codes "filter"
kind_name output = codes "output"

-- The path of the module that is required first, and the url that its `init` is given.
unfoldable pub module_path : Kind → Text → Text
module_path kind protocol =
    codes "./" ++ (kind_name kind ++ (codes "s/" ++ (kind_name kind ++ (codes "_" ++ protocol))))

unfoldable pub find_module : Kind → Text → Result (Text × Text)
unfolding extract_protocol module_path
find_module kind url = elim (extract_protocol url) [
  | none ↦ throw (message (codes "Unable to extract plugin name from " ++ url))
  | some p ↦ ok (module_path kind p.protocol, p.next)
]

-- The listeners of the module's `error`: `on_error`, and those that hand on, of which each end of
-- `init` adds one; the variable `callback_called`; and whether `init` runs, and with it the `try`.
pub record Starting : Type 0 where
  pub on_error : Bool
  pub handlers : ℕ
  pub callback_called : Bool
  pub running : Bool

unfoldable pub created : Starting
created = record { on_error = true; handlers = 0; callback_called = false; running = true }

pub data Event : Type 0 where
  -- The module emits `error`.
  failed : Error → Event
  -- `init` calls back.
  initialised : Option Error → Event
  -- An exception that is not caught.
  thrown : Error → Event
  -- `init` returns.
  returned : Event

pub data Effect : Type 0 where
  call_back : Option Error → Effect
  -- The agent emits `error`.
  report : Error → Effect
  -- An exception that nobody catches.
  uncaught : Error → Effect

abbrev reports : ℕ → Error → List Effect
reports zero e = []
reports (suc n) e = report e ∷ reports n e

abbrev call_once : Bool → Option Error → List Effect
call_once called err = if called then [] else call_back err ∷ []

abbrev unheard : ℕ → Bool
unheard zero = true
unheard (suc handlers) = false

-- An exception, with the `catch` of `configure` while `init` runs.
abbrev pub raise : Error → Starting → Starting × List Effect
raise e s =
    if s.running
    then (record s { running = false }, call_back (some e) ∷ [])
    else (s, uncaught e ∷ [])

unfoldable pub step : Starting → Event → Starting × List Effect
step s (failed e) =
    if s.on_error
    then (
      record s { on_error = false; callback_called = true },
      call_once s.callback_called (some e) ++ reports s.handlers e,
    )
    else if unheard s.handlers
    then raise e s
    else (s, reports s.handlers e)
step s (initialised err) = (
  record s { on_error = false; handlers = suc s.handlers; callback_called = true },
  call_once s.callback_called err,
)
step s (thrown e) = raise e s
step s returned = (record s { running = false }, [])

unfoldable pub run : Starting → List Event → Starting × List Effect
unfolding step
run s [] = (s, [])
run s (e ∷ es) =
    let (s', effects) = step s e in let (s'', later) = run s' es in (s'', effects ++ later)
