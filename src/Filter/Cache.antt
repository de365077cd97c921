-- ===== src/Filter/Cache.antt =====
-- `cache` of lib/lib/cache_helper.js. The package lru-cache is a parameter: it may forget entries at
-- any time, but gives back nothing that was not put in.
use node_logstash.Js.Value.{Result, ok, throw}
use node_logstash.Prelude.{
  ◌≡◌, refl, sym, ap, ap₂, ◌∙◌, ◌⊎◌, inl, inr, Bool, true, false, Option, none, some, List, [], ◌∷◌,
  map,
}

-- The values that are kept; `none` is undefined, which counts as missing.
pub record Lru {ℓ} (K A : Type ℓ) (C : Type ℓ) : Type ℓ where
  pub get : C → K → C × Option A
  pub set : C → K → Option A → C

-- What lru-cache promises, said of the entries that it has.
pub record IsLru {ℓ} {K A C : Type ℓ} (lru : Lru K A C) : Type ℓ where
  pub entry : C → K → Option A
  pub get_sound : (c : C) (k : K) {a : A} → (lru.get c k).1 ≡ some a → entry c k ≡ some a
  pub get_keeps : (c : C) (k j : K) {a : A} → entry (lru.get c k).0 j ≡ some a → entry c j ≡ some a
  pub set_only :
      (c : C) (k j : K) (v : Option A) {a : A}
      → entry (lru.set c k v) j ≡ some a
      → ((j ≡ k) × (v ≡ some a)) ⊎ (entry c j ≡ some a)

module _ {ℓ} {K A C : Type ℓ} (lru : Lru K A C) (cache_miss : K → Result (Option A)) where
  abbrev store : Bool → K → Result (Option A) → C → C × Result (Option A)
  store true key (ok r) c = (lru.set c key r, ok r)
  store false key (ok r) c = (c, ok r)
  store enabled key (throw e) c = (c, throw e)

  abbrev hit_or_miss : Bool → K → C × Option A → C × Result (Option A)
  hit_or_miss enabled key (c, some a) = (c, ok (some a))
  hit_or_miss enabled key (c, none) = store enabled key (cache_miss key) c

  unfoldable pub cache : Bool → K → C → C × Result (Option A)
  cache true key c = hit_or_miss true key (lru.get c key)
  cache false key c = store false key (cache_miss key) c

  unfoldable pub cache_all : Bool → List K → C → C × List (Result (Option A))
  unfolding cache
  cache_all enabled [] c = (c, [])
  cache_all enabled (k ∷ ks) c =
      let (c', r) = cache enabled k c in let (c'', rs) = cache_all enabled ks c' in (c'', r ∷ rs)

  -- Every entry is what a lookup of its key gives.
  pub record IsCoherent (laws : IsLru lru) (c : C) : Type ℓ where
    pub agrees : (k : K) {a : A} → laws.entry c k ≡ some a → cache_miss k ≡ ok (some a)

  set-IsCoherent :
      (laws : IsLru lru) (k : K) (r : Option A) (c : C)
      → cache_miss k ≡ ok r
      → IsCoherent laws c
      → IsCoherent laws (lru.set c k r)
  set-IsCoherent laws k r c e v = record {
    agrees = λ j h. elim (laws.set_only c k j r h) [
      | inl (same, value) ↦ ap cache_miss same ∙ e ∙ ap ok value
      | inr before ↦ v.agrees j before
    ];
  }

  get-IsCoherent :
      (laws : IsLru lru) (k : K) (c : C) → IsCoherent laws c → IsCoherent laws (lru.get c k).0
  get-IsCoherent laws k c v = record { agrees = λ j h. v.agrees j (laws.get_keeps c k j h) }

  store_lem :
      (laws : IsLru lru) (enabled : Bool) (k : K) (r : Result (Option A)) (c : C)
      → cache_miss k ≡ r
      → IsCoherent laws c
      → IsCoherent laws (store enabled k r c).0 × ((store enabled k r c).1 ≡ r)
  store_lem laws true k (ok r) c e v = (set-IsCoherent laws k r c e v, refl)
  store_lem laws false k (ok r) c e v = (v, refl)
  store_lem laws true k (throw x) c e v = (v, refl)
  store_lem laws false k (throw x) c e v = (v, refl)

  hit_lem :
      (laws : IsLru lru) (k : K) (found : C × Option A)
      → IsCoherent laws found.0
      → ((a : A) → found.1 ≡ some a → cache_miss k ≡ ok (some a))
      → IsCoherent laws (hit_or_miss true k found).0 × ((hit_or_miss true k found).1 ≡ cache_miss k)
  hit_lem laws k (c, some a) v h = (v, sym (h a refl))
  hit_lem laws k (c, none) v h = store_lem laws true k (cache_miss k) c refl v

  cache-IsCoherent :
      (laws : IsLru lru) (enabled : Bool) (k : K) (c : C)
      → IsCoherent laws c
      → IsCoherent laws (cache enabled k c).0 × ((cache enabled k c).1 ≡ cache_miss k)
  unfolding cache
  cache-IsCoherent laws false k c v = store_lem laws false k (cache_miss k) c refl v
  cache-IsCoherent laws true k c v =
      hit_lem laws k (lru.get c k) (get-IsCoherent laws k c v)
        (λ a h. v.agrees k (laws.get_sound c k h))

  -- For a lookup that always gives the same for a key, the answers of the cache are those of the
  -- lookup, however entries are forgotten, when the cache is coherent at first.
  cache_all-map :
      (laws : IsLru lru) (enabled : Bool) (ks : List K) (c : C)
      → IsCoherent laws c
      → (cache_all enabled ks c).1 ≡ map cache_miss ks
  unfolding cache_all
  cache_all-map laws enabled [] c v = refl
  cache_all-map laws enabled (k ∷ ks) c v =
      let (v', same) = cache-IsCoherent laws enabled k c v in
      ap₂ (λ r rs. r ∷ rs) same (cache_all-map laws enabled ks (cache enabled k c).0 v')
