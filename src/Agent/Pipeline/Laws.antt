-- ===== src/Agent/Pipeline/Laws.antt =====
-- The wiring is a chain of the filters in their order.
use mathlib.Core.Path.{fun_ext}
use node_logstash.Agent.Pipeline.{
  Listener, to_outputs, to_filter, create, add_filter, start_filters, each, emit,
}
use node_logstash.Prelude.{
  ◌≡◌, refl, ap, ◌∙◌, List, [], ◌∷◌, append-nil, arith, ℕ, zero, suc, ◌+◌, ◌<◌, ltb, ◌==◌,
  if◌then◌else◌,
}

-- Each emitter before the last one has the next filter as its one listener; the last one has the
-- outputs.
abbrev pub chained : ℕ → ℕ → List Listener
chained last n =
    if ltb n last then to_filter (suc n) ∷ [] else if n == last then to_outputs ∷ [] else []

add_filter-chained :
    (n k : ℕ)
    → (add_filter (suc n) (record { last_filter = n; listeners = chained n })).listeners k
      ≡ chained (suc n) k
unfolding add_filter
add_filter-chained n k = ground arith

start_filters_lem : (n : ℕ) → start_filters n ≡ record { last_filter = n; listeners = chained n }
unfolding start_filters
start_filters_lem zero = λ i. record { last_filter = 0; listeners = fun_ext nothing_started i }
  where
    nothing_started : (k : ℕ) → create.listeners k ≡ chained 0 k
    nothing_started k = ground arith
start_filters_lem (suc n) =
    rw (start_filters_lem n)
      (λ i. record { last_filter = suc n; listeners = fun_ext (add_filter-chained n) i })

module _ {A : Type 0} (run : ℕ → A → List A) where
  -- A message through `m` filters, from the one behind the emitter `n` on.
  pub through : ℕ → ℕ → A → List A
  through zero n a = a ∷ []
  through (suc m) n a = each (through m (suc n)) (run (suc n) a)

  emit_last :
      (fuel n last : ℕ) (a : A)
      → n ≡ last
      → emit run (suc fuel) (record { last_filter = last; listeners = chained last }) n a ≡ a ∷ []
  unfolding emit
  emit_last fuel n last a h = let e : chained last n ≡ to_outputs ∷ [] = ground arith in rw e refl

  emit_inner :
      (fuel n last : ℕ) (a : A)
      → n < last
      → emit run (suc fuel) (record { last_filter = last; listeners = chained last }) n a
        ≡ each
            (emit run fuel (record { last_filter = last; listeners = chained last }) (suc n))
            (run (suc n) a)
  unfolding emit
  emit_inner fuel n last a h =
      let e : chained last n ≡ to_filter (suc n) ∷ [] = ground arith in rw (e, append-nil) refl

  emit-chained :
      (m n last : ℕ) (a : A)
      → n + m ≡ last
      → emit run (suc m) (record { last_filter = last; listeners = chained last }) n a
        ≡ through m n a
  unfolding through
  emit-chained zero n last a h = emit_last 0 n last a (omega arith)
  emit-chained (suc m) n last a h =
      emit_inner (suc m) n last a (omega arith)
      ∙ ap (λ f. each f (run (suc n) a))
          (fun_ext (λ x. emit-chained m (suc n) last x (omega arith)))

  -- With `n` filters in the configuration, and fuel for as many, what reaches the outputs for a
  -- message at the first filter is what the filters make of it one after the other in the order of
  -- the configuration, each applied to every message that the one before emits, in order.
  pub emit-start_filters : (n : ℕ) (a : A) → emit run (suc n) (start_filters n) 0 a ≡ through n 0 a
  emit-start_filters n a = rw (start_filters_lem n) (emit-chained n 0 n a (omega arith))
