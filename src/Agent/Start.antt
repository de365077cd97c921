-- ===== src/Agent/Start.antt =====
-- `start` of lib/agent.js: the sorting of the urls, and the order in which plugins are started.
-- Whether a plugin starts is decided by `configure`, a parameter here.
pub mod Laws
use node_logstash.Js.Value.{Error, message, Result, ok, throw, ◌>>=◌}
use node_logstash.Url.{Protocol, extract_protocol}
use node_logstash.Prelude.{
  Option, none, some, List, [], ◌∷◌, ◌++◌, if◌then◌else◌, Text, codes, ◌===◌,
}

pub record Modules : Type 0 where
  pub inputs : List Text
  pub filters : List Text
  pub outputs : List Text

abbrev pub no_modules : Modules
no_modules = record { inputs = []; filters = []; outputs = [] }

abbrev unknown_protocol : Error
unknown_protocol = message (codes "Unknown protocol : ")

abbrev no_protocol : Error
no_protocol = message (codes "Unable to extract protocol from ")

unfoldable pub add_url : Modules → Protocol → Result Modules
add_url m p =
    if p.protocol === codes "input"
    then ok (record m { inputs = m.inputs ++ p.next ∷ [] })
    else if p.protocol === codes "output"
    then ok (record m { outputs = m.outputs ++ p.next ∷ [] })
    else if p.protocol === codes "filter"
    then ok (record m { filters = m.filters ++ p.next ∷ [] })
    else throw unknown_protocol

abbrev add_parsed : Modules → Option Protocol → Result Modules
add_parsed m none = throw no_protocol
add_parsed m (some p) = add_url m p

-- The loop over the urls, which returns at the first that is not understood.
unfoldable pub sort_urls : Modules → List Text → Result Modules
unfolding add_url extract_protocol
sort_urls m [] = ok m
sort_urls m (u ∷ us) = add_parsed m (extract_protocol u) >>= λ m'. sort_urls m' us

pub data Kind : Type 0 where
  input filter output : Kind

-- A plugin that `start` has configured, or that `close` has closed.
pub record Loaded : Type 0 where
  pub kind : Kind
  pub url : Text

abbrev then_start :
    List Loaded × Option Error → List Loaded × Option Error → List Loaded × Option Error
then_start (l, some e) next = (l, some e)
then_start (l, none) (l', err) = (l ++ l', err)

module _ (configure : Kind → Text → Option Error) where
  -- `start_modules`: `eachSeries` stops at the first error.
  unfoldable pub start_modules : Kind → List Text → List Loaded × Option Error
  start_modules k [] = ([], none)
  start_modules k (u ∷ us) =
      let (later, err) = start_modules k us in
      elim (configure k u) [
        | some e ↦ ([], some e)
        | none ↦ (record { kind = k; url = u } ∷ later, err)
      ]

  -- Outputs, then filters, then inputs; an error ends the start.
  unfoldable pub start_all : Modules → List Loaded × Option Error
  unfolding start_modules
  start_all m =
      then_start (start_modules output m.outputs)
        (then_start (start_modules filter m.filters) (start_modules input m.inputs))
