-- ===== src/Agent/Close/Laws.antt =====
-- What `close` closes.
use node_logstash.Agent.Start.{Kind, input, filter, output, Loaded}
use node_logstash.Agent.Close.{Slot, Agent, close_modules, close}
use node_logstash.Prelude.{
  ◌≡◌, refl, ap₂, inl, inr, true, some, List, [], ◌∷◌, ◌++◌, arith, if◌then◌else◌, Bool-cases,
}

-- The plugins of a list that are loaded.
pub loaded_of : Kind → List Slot → List Loaded
loaded_of k [] = []
loaded_of k (m ∷ ms) =
    if m.is_loaded then record { kind = k; url = m.url } ∷ loaded_of k ms else loaded_of k ms

loaded_of-close_modules :
    (k : Kind) (ms : List Slot)
    → ((close_modules k ms).1 ≡ loaded_of k ms) × ((close_modules k (close_modules k ms).0).1 ≡ [])
unfolding close_modules loaded_of
loaded_of-close_modules k [] = (refl, refl)
loaded_of-close_modules k (m ∷ ms) =
    let (closed, again) = loaded_of-close_modules k ms in
    elim (Bool-cases m.is_loaded) [
      | inl e ↦ (ground arith, ground arith)
      | inr e ↦ (ground arith, ground arith)
    ]

-- `close` closes the loaded inputs, then the loaded filters, then the loaded outputs, each in the
-- order of the configuration, and leaves the inputs marked as closed. A second `close` closes
-- nothing.
close-loaded_of :
    (a : Agent)
    → ((close a).1
        ≡ loaded_of input a.inputs ++ (loaded_of filter a.filters ++ loaded_of output a.outputs))
      × ((close a).0.closed_inputs ≡ some true)
      × ((close (close a).0).1 ≡ [])
unfolding close
close-loaded_of a =
    let (i, i') = loaded_of-close_modules input a.inputs in
    let (f, f') = loaded_of-close_modules filter a.filters in
    let (o, o') = loaded_of-close_modules output a.outputs in
    (
      ap₂ (λ x y. x ++ y) i (ap₂ (λ x y. x ++ y) f o),
      refl,
      ap₂ (λ x y. x ++ y) i' (ap₂ (λ x y. x ++ y) f' o'),
    )
