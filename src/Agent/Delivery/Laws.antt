-- ===== src/Agent/Delivery/Laws.antt =====
-- What each output receives.
use node_logstash.Agent.Pipeline.{each, emit, start_filters}
use node_logstash.Agent.Pipeline.Laws.{through, emit-start_filters}
use node_logstash.Agent.Delivery.{start_outputs, to_each, deliver, pass}
use node_logstash.Prelude.{
  ◌≡◌, refl, ap, ap₂, ◌∙◌, inl, inr, List, [], ◌∷◌, ◌++◌, arith, ℕ, zero, suc, ◌<◌, ltb, ◌==◌,
  if◌then◌else◌, Bool-cases,
}

module _ {A : Type 0} where
  -- The messages that the output `k` receives.
  abbrev pub received : ℕ → List (ℕ × A) → List A
  received k [] = []
  received k ((o, a) ∷ l) = if o == k then a ∷ received k l else received k l

  received-append :
      (k : ℕ) (l r : List (ℕ × A)) → received k (l ++ r) ≡ received k l ++ received k r
  received-append k [] r = refl
  received-append k ((o, a) ∷ l) r = elim (Bool-cases (o == k)) [
    | inl e ↦ rw e (ap (λ x. a ∷ x) (received-append k l r))
    | inr e ↦ rw e (received-append k l r)
  ]

  to_each-append : (os ps : List ℕ) (a : A) → to_each (os ++ ps) a ≡ to_each os a ++ to_each ps a
  to_each-append [] ps a = refl
  to_each-append (o ∷ os) ps a = ap (λ l. (o, a) ∷ l) (to_each-append os ps a)

  received-to_each :
      (k m : ℕ) (a : A)
      → received k (to_each (start_outputs m) a) ≡ (if ltb k m then a ∷ [] else [])
  unfolding start_outputs
  received-to_each k zero a = ground arith
  received-to_each k (suc m) a =
      let both = received-append k (to_each (start_outputs m) a) ((m, a) ∷ []) in
      ap (received k) (to_each-append (start_outputs m) (m ∷ []) a)
      ∙ both
      ∙ ground (arith, received-to_each k m a)

  received-deliver :
      (k m : ℕ) (ms : List A) → k < m → received k (deliver (start_outputs m) ms) ≡ ms
  unfolding deliver
  received-deliver k m [] h = refl
  received-deliver k m (a ∷ ms) h =
      let one : received k (to_each (start_outputs m) a) ≡ a ∷ [] =
        ground (arith, received-to_each k m a) in
      received-append k (to_each (start_outputs m) a) (each (to_each (start_outputs m)) ms)
      ∙ ap₂ (λ x y. x ++ y) one (received-deliver k m ms h)

  -- In an agent with `n` filters and `m` outputs, each output receives, once and in order, exactly
  -- the messages that the filters, one after the other, make of a message at the first one.
  pub received-pass :
      (run : ℕ → A → List A) (n m k : ℕ) (a : A)
      → k < m
      → received k (pass run n m a) ≡ through run n 0 a
  unfolding pass
  received-pass run n m k a h =
      received-deliver k m (emit run (suc n) (start_filters n) 0 a) h ∙ emit-start_filters run n a
