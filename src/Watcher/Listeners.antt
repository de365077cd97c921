-- ===== src/Watcher/Listeners.antt =====
-- Who listens to which directory: the specification, and that the watchers keep to it.
use node_logstash.Watcher.{
  Watchers, WatchId, Registration, register, unregister, remove_listener, unless_empty,
  register_dir, unregister_id, step,
}
use node_logstash.Prelude.{
  ◌≡◌, refl, sym, ap, ◌∙◌, inl, inr, Bool, true, false, ◌&&◌, Option, none, some, List, [], ◌∷◌,
  ◌++◌, append-nil, arith, ℕ, ◌+◌, ◌==◌, if◌then◌else◌, Bool-cases, Option-cases, Text, ◌===◌,
  ===_iff,
}

-- The registrations that last, in order: the specification.
pub record Registered : Type 0 where
  pub lasting : List (Text × ℕ)
  pub count : ℕ

abbrev pub without : Text → ℕ → List (Text × ℕ) → List (Text × ℕ)
without dir i [] = []
without dir i ((d, j) ∷ l) = if (d === dir) && (j == i) then l else (d, j) ∷ without dir i l

-- The callbacks for a directory.
abbrev pub ids : Text → List (Text × ℕ) → List ℕ
ids dir [] = []
ids dir ((d, j) ∷ l) = if dir === d then j ∷ ids dir l else ids dir l

pub ids-append : (dir : Text) (k l : List (Text × ℕ)) → ids dir (k ++ l) ≡ ids dir k ++ ids dir l
ids-append dir [] l = refl
ids-append dir ((d, j) ∷ k) l = ground (arith, ids-append dir k l)

pub ===_sym : (s t : Text) → (s === t) ≡ (t === s)
===_sym s t = ground (arith, ===_iff s t, ===_iff t s)

pub ids-without :
    (d dir : Text) (i : ℕ) (l : List (Text × ℕ))
    → ids d (without dir i l) ≡ (if d === dir then remove_listener i (ids d l) else ids d l)
unfolding remove_listener
ids-without d dir i [] = ground arith
ids-without d dir i ((e, j) ∷ l) =
    ground (arith, ===_iff d e, ===_iff e dir, ===_iff d dir, ids-without d dir i l)

unless_empty-append : (l : List ℕ) (n : ℕ) → unless_empty (l ++ n ∷ []) ≡ some (l ++ n ∷ [])
unless_empty-append [] n = refl
unless_empty-append (i ∷ l) n = refl

abbrev list_of : Option (List ℕ) → List ℕ
list_of none = []
list_of (some l) = l

abbrev is_some : Option (List ℕ) → Bool
is_some none = false
is_some (some l) = true

list_of-unless_empty : (l : List ℕ) → list_of (unless_empty l) ≡ l
list_of-unless_empty [] = refl
list_of-unless_empty (i ∷ l) = refl

left_lem :
    (i : ℕ) (l : List ℕ) (c : Option (List ℕ))
    → c ≡ unless_empty l
    → (if is_some c then unless_empty (remove_listener i (list_of c)) else c)
      ≡ unless_empty (remove_listener i l)
unfolding remove_listener
left_lem i [] c h = rw h refl
left_lem i (j ∷ l) c h = rw h refl

pub record Agrees (w : Watchers) (r : Registered) : Type 0 where
  pub same_next : w.next ≡ r.count
  pub same_ids : (d : Text) → w.current d ≡ unless_empty (ids d r.lasting)

module _ (resolve : Text → Text) where
  abbrev pub note : Registered → Registration → Registered
  note r (register dir) = record {
    lasting = r.lasting ++ (resolve dir, r.count) ∷ [];
    count = r.count + 1;
  }
  note r (unregister id) = record r { lasting = without id.dir id.callback r.lasting }

  abbrev pub note_all : Registered → List Registration → Registered
  note_all r [] = r
  note_all r (q ∷ qs) = note_all (note r q) qs

  register-current :
      (d dir : Text) (w : Watchers)
      → (register_dir resolve dir w).0.current d ≡ (
          if d === resolve dir
          then some (list_of (w.current (resolve dir)) ++ w.next ∷ [])
          else w.current d)
  unfolding register_dir
  register-current d dir w = elim (Option-cases (w.current (resolve dir))) [
    | inl e ↦ rw (register_dir, e) refl
    | inr (l, e) ↦ rw (register_dir, e) refl
  ]

  register-next : (dir : Text) (w : Watchers) → (register_dir resolve dir w).0.next ≡ w.next + 1
  unfolding register_dir
  register-next dir w = elim (Option-cases (w.current (resolve dir))) [
    | inl e ↦ rw (register_dir, e) refl
    | inr (l, e) ↦ rw (register_dir, e) refl
  ]

  unregister-current :
      (d : Text) (id : WatchId) (w : Watchers)
      → (unregister_id resolve id w).0.current d ≡ (
          if (d === id.dir) && is_some (w.current id.dir)
          then unless_empty (remove_listener id.callback (list_of (w.current id.dir)))
          else w.current d)
  unfolding unregister_id
  unregister-current d id w = elim (Option-cases (w.current id.dir)) [
    | inl e ↦ rw (unregister_id, e) (ground arith)
    | inr (l, e) ↦ rw (unregister_id, e) (ground arith)
  ]

  unregister-next : (id : WatchId) (w : Watchers) → (unregister_id resolve id w).0.next ≡ w.next
  unfolding unregister_id
  unregister-next id w = elim (Option-cases (w.current id.dir)) [
    | inl e ↦ rw (unregister_id, e) refl
    | inr (l, e) ↦ rw (unregister_id, e) refl
  ]

  register_ids :
      (w : Watchers) (r : Registered) (dir : Text)
      → Agrees w r
      → (d : Text)
      → (if d === resolve dir
          then some (list_of (w.current (resolve dir)) ++ w.next ∷ [])
          else w.current d)
        ≡ unless_empty (ids d (r.lasting ++ (resolve dir, r.count) ∷ []))
  register_ids w r dir a d =
      let old = list_of-unless_empty (ids (resolve dir) r.lasting) in
      let new = ids-append d r.lasting ((resolve dir, r.count) ∷ []) in
      elim (Bool-cases (d === resolve dir)) [
        | inl e ↦
            rw (new, a.same_ids (resolve dir), old, a.same_next, e)
              (ap (λ x. some (ids x r.lasting ++ r.count ∷ []))
                  (sym ((===_iff d (resolve dir)).0 e))
                ∙ sym (unless_empty-append (ids d r.lasting) r.count))
        | inr e ↦ rw (new, e, append-nil (ids d r.lasting)) (a.same_ids d)
      ]

  unregister_ids :
      (w : Watchers) (r : Registered) (id : WatchId)
      → Agrees w r
      → (d : Text)
      → (if (d === id.dir) && is_some (w.current id.dir)
          then unless_empty (remove_listener id.callback (list_of (w.current id.dir)))
          else w.current d)
        ≡ unless_empty (ids d (without id.dir id.callback r.lasting))
  unregister_ids w r id a d =
      let old = list_of-unless_empty (ids id.dir r.lasting) in
      let new = ids-without d id.dir id.callback r.lasting in
      elim (Bool-cases (d === id.dir)) [
        | inl e ↦
            rw (new, e, (===_iff d id.dir).0 e)
              (left_lem id.callback (ids id.dir r.lasting) (w.current id.dir) (a.same_ids id.dir))
        | inr e ↦ rw (new, e) (a.same_ids d)
      ]

  pub step-Agrees :
      (w : Watchers) (r : Registered) (q : Registration)
      → Agrees w r
      → Agrees (step resolve w q).0 (note r q)
  unfolding step
  step-Agrees w r (register dir) a = record {
    same_next = register-next dir w ∙ ap (λ n. n + 1) a.same_next;
    same_ids = λ d. register-current d dir w ∙ register_ids w r dir a d;
  }
  step-Agrees w r (unregister id) a = record {
    same_next = unregister-next id w ∙ a.same_next;
    same_ids = λ d. unregister-current d id w ∙ unregister_ids w r id a d;
  }
