-- ===== src/Agent/Start/Laws.antt =====
-- What `start` makes of a list of urls.
use node_logstash.Js.Value.{Error, ok, Result-cases}
use node_logstash.Url.{Protocol, extract_protocol}
use node_logstash.Agent.Start.{
  Modules, no_modules, add_url, add_parsed, sort_urls, Kind, input, filter, output, Loaded,
  start_modules, start_all, then_start,
}
use node_logstash.Prelude.{
  ◌≡◌, refl, ◌∙◌, inl, inr, Option, none, some, List, [], ◌∷◌, ◌++◌, append-nil, append_assoc,
  arith, if◌then◌else◌, Text, codes, ◌===◌, ===_iff,
}

-- The urls of one protocol, in their order, without it.
abbrev pub keep_of : Text → Option Protocol → List Text → List Text
keep_of name none l = l
keep_of name (some p) l = if p.protocol === name then p.next ∷ l else l

pub of_protocol : Text → List Text → List Text
of_protocol name [] = []
of_protocol name (u ∷ us) = keep_of name (extract_protocol u) (of_protocol name us)

add_parsed_inputs :
    (m m1 : Modules) (o : Option Protocol) (l : List Text)
    → add_parsed m o ≡ ok m1
    → m1.inputs ++ l ≡ m.inputs ++ keep_of (codes "input") o l
unfolding add_url
add_parsed_inputs m m1 none l h = ground arith
add_parsed_inputs m m1 (some p) l h = ground (
  arith,
  append_assoc m.inputs (p.next ∷ []) l,
  ===_iff p.protocol (codes "input"),
  ===_iff p.protocol (codes "filter"),
  ===_iff p.protocol (codes "output"),
)

add_parsed_filters :
    (m m1 : Modules) (o : Option Protocol) (l : List Text)
    → add_parsed m o ≡ ok m1
    → m1.filters ++ l ≡ m.filters ++ keep_of (codes "filter") o l
unfolding add_url
add_parsed_filters m m1 none l h = ground arith
add_parsed_filters m m1 (some p) l h = ground (
  arith,
  append_assoc m.filters (p.next ∷ []) l,
  ===_iff p.protocol (codes "input"),
  ===_iff p.protocol (codes "filter"),
  ===_iff p.protocol (codes "output"),
)

add_parsed_outputs :
    (m m1 : Modules) (o : Option Protocol) (l : List Text)
    → add_parsed m o ≡ ok m1
    → m1.outputs ++ l ≡ m.outputs ++ keep_of (codes "output") o l
unfolding add_url
add_parsed_outputs m m1 none l h = ground arith
add_parsed_outputs m m1 (some p) l h = ground (
  arith,
  append_assoc m.outputs (p.next ∷ []) l,
  ===_iff p.protocol (codes "input"),
  ===_iff p.protocol (codes "filter"),
  ===_iff p.protocol (codes "output"),
)

sort_urls_from :
    (m : Modules) (us : List Text) (m' : Modules)
    → sort_urls m us ≡ ok m'
    → (m'.inputs ≡ m.inputs ++ of_protocol (codes "input") us)
      × (m'.filters ≡ m.filters ++ of_protocol (codes "filter") us)
      × (m'.outputs ≡ m.outputs ++ of_protocol (codes "output") us)
unfolding sort_urls of_protocol
sort_urls_from m [] m' h = (
  ground (arith, append-nil m.inputs),
  ground (arith, append-nil m.filters),
  ground (arith, append-nil m.outputs),
)
sort_urls_from m (u ∷ us) m' h = elim (Result-cases (add_parsed m (extract_protocol u))) [
  | inr (x, e) ↦ ground arith
  | inl (m1, e) ↦
      let (i, f, o) = sort_urls_from m1 us m' (ground arith) in
      (
        i ∙ add_parsed_inputs m m1 (extract_protocol u) _ e,
        f ∙ add_parsed_filters m m1 (extract_protocol u) _ e,
        o ∙ add_parsed_outputs m m1 (extract_protocol u) _ e,
      )
]

-- When every url is understood, the inputs, the filters and the outputs that are to be started are
-- the urls of these protocols, each without its protocol and in the order of the command line.
pub sort_urls-of_protocol :
    (us : List Text) (m : Modules)
    → sort_urls no_modules us ≡ ok m
    → (m.inputs ≡ of_protocol (codes "input") us)
      × (m.filters ≡ of_protocol (codes "filter") us)
      × (m.outputs ≡ of_protocol (codes "output") us)
sort_urls-of_protocol us m h = sort_urls_from no_modules us m h

of_kind : Kind → List Text → List Loaded
of_kind k [] = []
of_kind k (u ∷ us) = record { kind = k; url = u } ∷ of_kind k us

pub load_order : Modules → List Loaded
unfolding of_kind
load_order m = of_kind output m.outputs ++ (of_kind filter m.filters ++ of_kind input m.inputs)

module _ (configure : Kind → Text → Option Error) where
  -- Starting the plugins one after the other until one fails.
  pub until_failure : List Loaded → List Loaded × Option Error
  until_failure [] = ([], none)
  until_failure (x ∷ xs) = elim (configure x.kind x.url) [
    | some e ↦ ([], some e)
    | none ↦ (x ∷ (until_failure xs).0, (until_failure xs).1)
  ]

  until_failure-of_kind :
      (k : Kind) (us : List Text) → start_modules configure k us ≡ until_failure (of_kind k us)
  unfolding start_modules of_kind until_failure
  until_failure-of_kind k [] = refl
  until_failure-of_kind k (u ∷ us) = ground (arith, until_failure-of_kind k us)

  until_failure-append :
      (a b : List Loaded) → until_failure (a ++ b) ≡ then_start (until_failure a) (until_failure b)
  unfolding until_failure
  until_failure-append [] b = ground arith
  until_failure-append (x ∷ a) b = ground (arith, until_failure-append a b)

  -- The agent starts its outputs, then its filters, then its inputs, each in the order of the urls,
  -- and stops at the first that fails: no input is started unless all outputs and filters are.
  start_all-load_order : (m : Modules) → start_all configure m ≡ until_failure (load_order m)
  unfolding start_all load_order
  start_all-load_order m = ground (
    arith,
    until_failure-append (of_kind output m.outputs)
        (of_kind filter m.filters ++ of_kind input m.inputs),
    until_failure-append (of_kind filter m.filters) (of_kind input m.inputs),
    until_failure-of_kind output m.outputs,
    until_failure-of_kind filter m.filters,
    until_failure-of_kind input m.inputs,
  )
