-- ===== src/Output/ElasticSearch/Laws.antt =====
-- The bulk buffer and the path of an index.
use node_logstash.Js.Number.{nat, num_ge, num_truthy}
use node_logstash.Js.Value.{Fields}
use node_logstash.Output.ElasticSearch.{
  fill0, Config, Bulk, empty_bulk, Post, send_bulk, is_late, on_interval, entry, process, Event,
  message, interval, on_event, run,
}
use node_logstash.Prelude.{
  ◌≡◌, refl, sym, ap, ◌∙◌, inl, inr, true, false, ◌&&◌, Option, none, some, List, [], ◌∷◌, ◌++◌,
  append-nil, append_assoc, arith, ℕ, zero, suc, ◌+◌, ◌-◌, ltb, leb, ◌==◌, if◌then◌else◌,
  Bool-cases, length, length-append, Text,
}

abbrev pub zeros : ℕ → Text
zeros zero = []
zeros (suc n) = b'0' ∷ zeros n

-- `fill0` ends exactly on the texts that are not longer than the width, and then pads with zeros on
-- the left up to the width.
pub fill0_lem :
    (s : Text) (k : ℕ)
    → fill0 s k ≡ (if leb (length s) k then some (zeros (k - length s) ++ s) else none)
unfolding fill0
fill0_lem [] zero = refl
fill0_lem (c ∷ s) zero = ground arith
fill0_lem s (suc k) = elim (Bool-cases (leb (length s) k)) [
  | inl e ↦
      let more : suc k - length s ≡ suc (k - length s) = ground arith in
      rw more (ground (arith, fill0_lem s k))
  | inr e ↦ elim (Bool-cases (length s == suc k)) [
    | inl q ↦
        let none_left : suc k - length s ≡ 0 = ground arith in
        rw none_left (ground (arith, fill0_lem s k))
    | inr q ↦ ground (arith, fill0_lem s k)
  ]
]

pub payloads : List Post → Text
payloads [] = []
payloads (p ∷ ps) = p.payload ++ payloads ps

payloads-append : (a b : List Post) → payloads (a ++ b) ≡ payloads a ++ payloads b
unfolding payloads
payloads-append [] b = refl
payloads-append (p ∷ a) b =
    rw (payloads-append a b, append_assoc p.payload (payloads a) (payloads b)) refl

module _ (stringify : Fields → Text) where
  pub entries : List (Event stringify) → Text
  entries [] = []
  entries (message now path d ∷ es) = entry stringify path d ++ entries es
  entries (interval now ∷ es) = entries es

  -- The entries of messages, with their paths.
  abbrev pub entries_of : List (Text × Fields) → Text
  entries_of [] = []
  entries_of ((path, d) ∷ l) = entry stringify path d ++ entries_of l

  entries_of-append :
      (k l : List (Text × Fields)) → entries_of (k ++ l) ≡ entries_of k ++ entries_of l
  entries_of-append [] l = refl
  entries_of-append ((path, d) ∷ k) l =
      ap (λ t. entry stringify path d ++ t) (entries_of-append k l)
      ∙ sym (append_assoc (entry stringify path d) (entries_of k) (entries_of l))

  -- The buffer is the entries of as many messages as the counter says, which is below the limit.
  pub record IsBelow (c : Config) (b : Bulk) : Type 0 where
    pub held : List (Text × Fields)
    pub holds : b.bulk_data ≡ entries_of held
    pub counts : b.bulk_counter ≡ length held
    pub below : num_ge (nat b.bulk_counter) c.bulk_limit ≡ false

  empty-IsBelow :
      (c : Config) (last : Option ℕ)
      → num_ge (nat 0) c.bulk_limit ≡ false
      → IsBelow c (record { bulk_data = []; bulk_counter = 0; last_bulk_insert = last })
  empty-IsBelow c last z = record { held = []; holds = refl; counts = refl; below = z }

  on_event-IsBelow :
      (c : Config) (e : Event stringify) (b : Bulk)
      → num_truthy c.bulk_limit ≡ true
      → num_ge (nat 0) c.bulk_limit ≡ false
      → IsBelow c b
      → IsBelow c (on_event stringify c e b).0
  unfolding on_event process on_interval send_bulk
  on_event-IsBelow c (interval now) b t z v =
      elim (Bool-cases
        (ltb 0 (length b.bulk_data) && is_late now b.last_bulk_insert c.bulk_timeout)) [
          | inl e ↦ rw e (empty-IsBelow c b.last_bulk_insert z)
          | inr e ↦ rw e v
        ]
  on_event-IsBelow c (message now path d) b t z v =
      elim (Bool-cases (num_ge (nat (b.bulk_counter + 1)) c.bulk_limit)) [
        | inl e ↦ rw (t, e) (empty-IsBelow c (some now) z)
        | inr e ↦
            rw (t, e)
              (record {
                held = v.held ++ (path, d) ∷ [];
                holds =
                    rw
                      (
                        v.holds,
                        entries_of-append v.held ((path, d) ∷ []),
                        append-nil (entry stringify path d),
                      )
                      refl;
                counts = rw (length-append v.held ((path, d) ∷ []), v.counts) refl;
                below = e;
              })
      ]

  on_event_lem :
      (c : Config) (e : Event stringify) (b : Bulk)
      → num_truthy c.bulk_limit ≡ true
      → b.bulk_data ++ entries (e ∷ [])
        ≡ payloads (on_event stringify c e b).1 ++ (on_event stringify c e b).0.bulk_data
  unfolding on_event process on_interval send_bulk entries payloads
  on_event_lem c (interval now) b t =
      elim (Bool-cases
        (ltb 0 (length b.bulk_data) && is_late now b.last_bulk_insert c.bulk_timeout)) [
          | inl e ↦ ground (arith, append-nil b.bulk_data)
          | inr e ↦ ground (arith, append-nil b.bulk_data)
        ]
  on_event_lem c (message now path d) b t =
      let both = b.bulk_data ++ entry stringify path d in
      elim (Bool-cases (num_ge (nat (b.bulk_counter + 1)) c.bulk_limit)) [
        | inl e ↦ ground (arith, append-nil (entry stringify path d), append-nil both)
        | inr e ↦ ground (arith, append-nil (entry stringify path d), append-nil both)
      ]

  entries-cons :
      (e : Event stringify) (es : List (Event stringify))
      → entries (e ∷ es) ≡ entries (e ∷ []) ++ entries es
  unfolding entries
  entries-cons (interval now) es = refl
  entries-cons (message now path d) es = rw append-nil

  run_from :
      (c : Config) (es : List (Event stringify)) (b : Bulk)
      → num_truthy c.bulk_limit ≡ true
      → num_ge (nat 0) c.bulk_limit ≡ false
      → IsBelow c b
      → IsBelow c (run stringify c es b).0
        × (b.bulk_data ++ entries es
            ≡ payloads (run stringify c es b).1 ++ (run stringify c es b).0.bulk_data)
  unfolding run entries payloads
  run_from c [] b t z v = (v, append-nil b.bulk_data)
  run_from c (e ∷ es) b t z v =
      let b1 = (on_event stringify c e b).0 in
      let ps = (on_event stringify c e b).1 in
      let v1 = on_event-IsBelow c e b t z v in
      let same1 = on_event_lem c e b t in
      let (v2, same2) = run_from c es b1 t z v1 in
      (
        v2,
        rw (entries-cons e es, payloads-append ps (run stringify c es b1).1)
            (grind (arith, append_assoc)),
      )

  -- With a limit above 0, over every series of messages and timer calls: the payloads that were
  -- posted followed by the buffer are the entries of all messages, in order, and the buffer is the
  -- entries of fewer messages than the limit.
  pub run-entries :
      (c : Config) (es : List (Event stringify))
      → num_truthy c.bulk_limit ≡ true
      → num_ge (nat 0) c.bulk_limit ≡ false
      → (payloads (run stringify c es empty_bulk).1 ++ (run stringify c es empty_bulk).0.bulk_data
          ≡ entries es)
        × ((held : List (Text × Fields)) × ((run stringify c es empty_bulk).0.bulk_data
              ≡ entries_of held)
            × (num_ge (nat (length held)) c.bulk_limit ≡ false))
  unfolding empty_bulk
  run-entries c es t z =
      let (v, same) = run_from c es empty_bulk t z (empty-IsBelow c none z) in
      (sym same, (v.held, v.holds, rw (sym v.counts) v.below))
