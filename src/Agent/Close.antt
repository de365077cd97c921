-- ===== src/Agent/Close.antt =====
-- `close` of lib/agent.js and the functions that it calls. A plugin's own `close` calls back
-- without an error.
pub mod Laws
use node_logstash.Agent.Start.{Kind, input, filter, output, Loaded}
use node_logstash.Prelude.{
  Bool, true, false, Option, some, List, [], ◌∷◌, ◌++◌, if◌then◌else◌, Text,
}

-- An element of `this.modules`: `is_loaded` tells whether it has a `module`.
pub record Slot : Type 0 where
  pub url : Text
  pub is_loaded : Bool

pub record Agent : Type 0 where
  pub inputs : List Slot
  pub filters : List Slot
  pub outputs : List Slot
  pub closed_inputs : Option Bool

-- `close_modules`: the modules are deleted, and the second list is what was closed, in order.
unfoldable pub close_modules : Kind → List Slot → List Slot × List Loaded
close_modules k [] = ([], [])
close_modules k (m ∷ ms) =
    let (left, closed) = close_modules k ms in
    if m.is_loaded
    then (record m { is_loaded = false } ∷ left, record { kind = k; url = m.url } ∷ closed)
    else (m ∷ left, closed)

unfoldable pub close_inputs : Agent → Agent × List Loaded
unfolding close_modules
close_inputs a =
    let (left, closed) = close_modules input a.inputs in
    (record a { inputs = left; closed_inputs = some true }, closed)

unfoldable pub close_filters : Agent → Agent × List Loaded
unfolding close_modules
close_filters a =
    let (left, closed) = close_modules filter a.filters in (record a { filters = left }, closed)

unfoldable pub close_outputs : Agent → Agent × List Loaded
unfolding close_modules
close_outputs a =
    let (left, closed) = close_modules output a.outputs in (record a { outputs = left }, closed)

-- `close`: the inputs, then the filters, then the outputs.
unfoldable pub close : Agent → Agent × List Loaded
unfolding close_inputs close_filters close_outputs
close a =
    let (a1, inputs) = close_inputs a in
    let (a2, filters) = close_filters a1 in
    let (a3, outputs) = close_outputs a2 in (a3, inputs ++ (filters ++ outputs))
