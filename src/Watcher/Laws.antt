-- ===== src/Watcher/Laws.antt =====
-- How many watchers are open.
use node_logstash.Watcher.{
  Watchers, no_watcher, WatchId, Registration, register, unregister, Effect, open_watcher,
  close_watcher, uncaught, remove_listener, unless_empty, closing, register_dir, unregister_id,
  step, run,
}
use node_logstash.Watcher.Listeners.{
  Registered, ids, ids-append, ids-without, ===_sym, note, note_all, Agrees, step-Agrees,
}
use node_logstash.Prelude.{
  ◌≡◌, refl, sym, ◌∙◌, inl, inr, none, some, List, [], ◌∷◌, ◌++◌, append-nil, arith, ℕ, ◌+◌, ◌-◌,
  ◌≤◌, if◌then◌else◌, Bool-cases, Option-cases, Text, ◌===◌, ===_iff, ===_refl,
}

abbrev pub opens : Text → List Effect → ℕ
opens dir [] = 0
opens dir (open_watcher d ∷ es) = (if d === dir then 1 else 0) + opens dir es
opens dir (close_watcher d ∷ es) = opens dir es
opens dir (uncaught e ∷ es) = opens dir es

abbrev pub closes : Text → List Effect → ℕ
closes dir [] = 0
closes dir (open_watcher d ∷ es) = closes dir es
closes dir (close_watcher d ∷ es) = (if d === dir then 1 else 0) + closes dir es
closes dir (uncaught e ∷ es) = closes dir es

abbrev pub watchers_of : List ℕ → ℕ
watchers_of [] = 0
watchers_of (i ∷ l) = 1

watchers_of-append : (l : List ℕ) (n : ℕ) → watchers_of (l ++ n ∷ []) ≡ 1
watchers_of-append [] n = refl
watchers_of-append (i ∷ l) n = refl

none_watched : (l : List ℕ) → none ≡ unless_empty l → l ≡ []
none_watched [] h = refl
none_watched (i ∷ l) h = ground arith

one_watched : (l k : List ℕ) → some k ≡ unless_empty l → (watchers_of l ≡ 1) × (l ≡ k)
one_watched [] k h = ground arith
one_watched (i ∷ l) k h = ground arith

closes-closing :
    (d dir : Text) (l : List ℕ)
    → (closes d (closing dir l) ≡ (if dir === d then 1 - watchers_of l else 0))
      × (opens d (closing dir l) ≡ 0)
      × (watchers_of l ≤ 1)
closes-closing d dir [] = ground arith
closes-closing d dir (i ∷ l) = ground arith

abbrev pub nobody : Registered
nobody = record { lasting = []; count = 0 }

module _ (resolve : Text → Text) where
  -- What opens and closes for a directory is what has listeners after less before.
  record Counts (d : Text) (es : List Effect) (r r' : Registered) : Type 0 where
    counted :
        opens d es + watchers_of (ids d r.lasting) ≡ closes d es + watchers_of (ids d r'.lasting)

  register-Counts :
      (d : Text) (w : Watchers) (r : Registered) (dir : Text)
      → Agrees w r
      → Counts d (register_dir resolve dir w).1 r (note resolve r (register dir))
  unfolding register_dir
  register-Counts d w r dir a =
      let rd = resolve dir in
      let here = ids rd r.lasting in
      let new = ids-append d r.lasting ((rd, r.count) ∷ []) in
      let one = watchers_of-append here r.count in
      elim (Bool-cases (d === rd)) [
        | inl h ↦ elim (Option-cases (w.current rd)) [
          | inl e ↦
              let old = none_watched here (sym e ∙ a.same_ids rd) in
              record {
                counted = rw (register_dir, e, new, h, (===_iff d rd).0 h, ===_refl rd, old) refl;
              }
          | inr (l, e) ↦
              let old = (one_watched here l (sym e ∙ a.same_ids rd)).0 in
              record { counted = rw (register_dir, e, new, h, (===_iff d rd).0 h, old, one) refl }
        ]
        | inr h ↦ elim (Option-cases (w.current rd)) [
          | inl e ↦ record {
            counted =
                rw (register_dir, e, new, h, ===_sym rd d, h, append-nil (ids d r.lasting)) refl;
          }
          | inr (l, e) ↦ record {
            counted = rw (register_dir, e, new, h, append-nil (ids d r.lasting)) refl;
          }
        ]
      ]

  unregister-Counts :
      (d : Text) (w : Watchers) (r : Registered) (id : WatchId)
      → Agrees w r
      → Counts d (unregister_id resolve id w).1 r (note resolve r (unregister id))
  unfolding unregister_id
  unregister-Counts d w r id a =
      let here = ids id.dir r.lasting in
      let new = ids-without d id.dir id.callback r.lasting in
      elim (Option-cases (w.current id.dir)) [
        | inl e ↦ elim (Bool-cases (d === id.dir)) [
          | inl h ↦
              let old = none_watched here (sym e ∙ a.same_ids id.dir) in
              record { counted = rw (unregister_id, e, new, h, (===_iff d id.dir).0 h, old) refl }
          | inr h ↦ record { counted = rw (unregister_id, e, new, h) refl }
        ]
        | inr (l, e) ↦
            let (one, same) = one_watched here l (sym e ∙ a.same_ids id.dir) in
            let c = closes-closing d id.dir (remove_listener id.callback l) in
            elim (Bool-cases (d === id.dir)) [
              | inl h ↦ record {
                counted =
                    rw
                      (
                        unregister_id,
                        e,
                        c.1,
                        c.0,
                        new,
                        ===_sym id.dir d,
                        h,
                        (===_iff d id.dir).0 h,
                        one,
                        same,
                      )
                      (ground (arith, c.2));
              }
              | inr h ↦ record {
                counted = rw (unregister_id, e, c.1, c.0, new, ===_sym id.dir d, h) refl;
              }
            ]
      ]

  step-Counts :
      (d : Text) (w : Watchers) (r : Registered) (q : Registration)
      → Agrees w r
      → Counts d (step resolve w q).1 r (note resolve r q)
  unfolding step
  step-Counts d w r (register dir) a = register-Counts d w r dir a
  step-Counts d w r (unregister id) a = unregister-Counts d w r id a

  opens-append : (d : Text) (a b : List Effect) → opens d (a ++ b) ≡ opens d a + opens d b
  opens-append d [] b = omega arith
  opens-append d (open_watcher x ∷ a) b = ground (arith, opens-append d a b)
  opens-append d (close_watcher x ∷ a) b = opens-append d a b
  opens-append d (uncaught e ∷ a) b = opens-append d a b

  closes-append : (d : Text) (a b : List Effect) → closes d (a ++ b) ≡ closes d a + closes d b
  closes-append d [] b = omega arith
  closes-append d (open_watcher x ∷ a) b = closes-append d a b
  closes-append d (close_watcher x ∷ a) b = ground (arith, closes-append d a b)
  closes-append d (uncaught e ∷ a) b = closes-append d a b

  run-both :
      (d : Text) (w : Watchers) (r : Registered) (qs : List Registration)
      → Agrees w r
      → Agrees (run resolve w qs).0 (note_all resolve r qs)
        × Counts d (run resolve w qs).1 r (note_all resolve r qs)
  unfolding run
  run-both d w r [] a = (a, record { counted = refl })
  run-both d w r (q ∷ qs) a =
      let one = step-Counts d w r q a in
      let (b, more) =
        run-both d (step resolve w q).0 (note resolve r q) qs (step-Agrees resolve w r q a) in
      let es = (run resolve (step resolve w q).0 qs).1 in
      (
        b,
        record {
          counted =
              rw (opens-append d (step resolve w q).1 es, closes-append d (step resolve w q).1 es)
                (ground (arith, one.counted, more.counted));
        },
      )

  -- However listeners come and go, each directory has the listeners that were registered for it and
  -- have not left, in order; it has a watcher exactly while there are any, and of the watchers that
  -- were opened for it all but this one are closed.
  pub run-lasting :
      (d : Text) (qs : List Registration)
      → ((run resolve no_watcher qs).0.current d
          ≡ unless_empty (ids d (note_all resolve nobody qs).lasting))
        × (opens d (run resolve no_watcher qs).1
            ≡ closes d (run resolve no_watcher qs).1
              + watchers_of (ids d (note_all resolve nobody qs).lasting))
  unfolding no_watcher
  run-lasting d qs =
      let start : Agrees no_watcher nobody = record { same_next = refl; same_ids = λ x. refl } in
      let (a, c) = run-both d no_watcher nobody qs start in
      (a.same_ids d, ground (arith, c.counted))
