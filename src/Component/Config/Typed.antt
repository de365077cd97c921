-- ===== src/Component/Config/Typed.antt =====
-- The types of the parameters that a configuration lists as arrays and as hashes.
use node_logstash.Js.Value.{
  Value, undefined, null, bool, num, str, arr, obj, Fields, truthy, Result-cases, ok,
}
use node_logstash.Js.Object.{get, set, get-set, get-set_self, get-set_ne}
use node_logstash.Component.Config.{load_arrays, load_hashes, array_of, hash_of}
use node_logstash.Prelude.{
  ◌≡◌, refl, ◌∙◌, inl, inr, Bool, true, false, not, ◌||◌, List, [], ◌∷◌, arith, Bool-cases, any,
  All, Text, ◌===◌,
}

-- A list, or a value that counts as not given.
abbrev pub is_list : Value → Bool
is_list (arr vs) = true
is_list v = not (truthy v)

abbrev pub is_hash : Value → Bool
is_hash (obj o) = true
is_hash v = not (truthy v)

array_of-list : (v w : Value) → array_of v ≡ ok w → is_list w ≡ true
array_of-list (arr vs) w h = ground arith
array_of-list (str s) w h = ground arith
array_of-list undefined w h = ground arith
array_of-list null w h = ground arith
array_of-list (bool b) w h = ground arith
array_of-list (num n) w h = ground arith
array_of-list (obj o) w h = ground arith

falsy-list : (v : Value) → truthy v ≡ false → is_list v ≡ true
falsy-list (arr vs) h = refl
falsy-list v h = ground arith

falsy-hash : (v : Value) → truthy v ≡ false → is_hash v ≡ true
falsy-hash (obj o) h = refl
falsy-hash v h = ground arith

-- What is a list stays one.
load_arrays-keep :
    (k : Text) (l : List Text) (this t : Fields)
    → load_arrays l this ≡ ok t
    → is_list (get k this) ≡ true
    → is_list (get k t) ≡ true
unfolding load_arrays
load_arrays-keep k [] this t h v = ground arith
load_arrays-keep k (a ∷ l) this t h v = elim (Bool-cases (truthy (get a this))) [
  | inr e ↦ load_arrays-keep k l this t (ground arith) v
  | inl e ↦ elim (Result-cases (array_of (get a this))) [
    | inr (x, i) ↦ ground arith
    | inl (w, i) ↦
        load_arrays-keep k l (set a w this) t (ground arith)
          (ground (arith, get-set k a w this, array_of-list (get a this) w i))
  ]
]

load_arrays-list :
    (l : List Text) (this t : Fields)
    → load_arrays l this ≡ ok t
    → All (λ a. is_list (get a t) ≡ true) l
unfolding load_arrays
load_arrays-list [] this t h = tt
load_arrays-list (a ∷ l) this t h = elim (Bool-cases (truthy (get a this))) [
  | inr e ↦
      let rest : load_arrays l this ≡ ok t = ground arith in
      (load_arrays-keep a l this t rest (falsy-list (get a this) e), load_arrays-list l this t rest)
  | inl e ↦ elim (Result-cases (array_of (get a this))) [
    | inr (x, i) ↦ absurd (ground (arith, e, i))
    | inl (w, i) ↦
        let rest : load_arrays l (set a w this) ≡ ok t = ground arith in
        let here : is_list (get a (set a w this)) ≡ true =
          rw (get-set_self a w this) (array_of-list (get a this) w i) in
        (load_arrays-keep a l (set a w this) t rest here, load_arrays-list l (set a w this) t rest)
  ]
]

load_hashes-other :
    (k : Text) (l : List Text) (this t : Fields)
    → load_hashes l this ≡ ok t
    → any (λ h. h === k) l ≡ false
    → get k t ≡ get k this
unfolding load_hashes
load_hashes-other k [] this t h n = ground arith
load_hashes-other k (a ∷ l) this t h n = elim (Bool-cases (truthy (get a this))) [
  | inr e ↦ load_hashes-other k l this t (ground arith) (ground arith)
  | inl e ↦ elim (Result-cases (hash_of (get a this))) [
    | inr (x, i) ↦ ground arith
    | inl (w, i) ↦
        load_hashes-other k l (set a (obj w) this) t (ground arith) (ground arith)
        ∙ get-set_ne k a (obj w) this (ground arith)
  ]
]

load_hashes-keep :
    (k : Text) (l : List Text) (this t : Fields)
    → load_hashes l this ≡ ok t
    → is_hash (get k this) ≡ true
    → is_hash (get k t) ≡ true
unfolding load_hashes
load_hashes-keep k [] this t h v = ground arith
load_hashes-keep k (a ∷ l) this t h v = elim (Bool-cases (truthy (get a this))) [
  | inr e ↦ load_hashes-keep k l this t (ground arith) v
  | inl e ↦ elim (Result-cases (hash_of (get a this))) [
    | inr (x, i) ↦ ground arith
    | inl (w, i) ↦
        load_hashes-keep k l (set a (obj w) this) t (ground arith)
          (ground (arith, get-set k a (obj w) this))
  ]
]

load_hashes-hash :
    (l : List Text) (this t : Fields)
    → load_hashes l this ≡ ok t
    → All (λ a. is_hash (get a t) ≡ true) l
unfolding load_hashes
load_hashes-hash [] this t h = tt
load_hashes-hash (a ∷ l) this t h = elim (Bool-cases (truthy (get a this))) [
  | inr e ↦
      let rest : load_hashes l this ≡ ok t = ground arith in
      (load_hashes-keep a l this t rest (falsy-hash (get a this) e), load_hashes-hash l this t rest)
  | inl e ↦ elim (Result-cases (hash_of (get a this))) [
    | inr (x, i) ↦ absurd (ground (arith, e, i))
    | inl (w, i) ↦
        let rest : load_hashes l (set a (obj w) this) ≡ ok t = ground arith in
        let here : is_hash (get a (set a (obj w) this)) ≡ true =
          rw (get-set_self a (obj w) this) refl in
        (
          load_hashes-keep a l (set a (obj w) this) t rest here,
          load_hashes-hash l (set a (obj w) this) t rest,
        )
  ]
]

lists_remain :
    (l hs : List Text) (t u : Fields)
    → load_hashes hs t ≡ ok u
    → All (λ a. is_list (get a t) ≡ true) l
    → All (λ a. (any (λ h. h === a) hs || is_list (get a u)) ≡ true) l
lists_remain [] hs t u h v = tt
lists_remain (a ∷ l) hs t u h v = (
  elim (Bool-cases (any (λ k. k === a) hs)) [
    | inl e ↦ ground arith
    | inr e ↦ ground (arith, load_hashes-other a hs t u h e, v.0)
  ],
  lists_remain l hs t u h v.1,
)

-- After the loops over the arrays and the hashes, each parameter that is listed among the hashes is
-- an object or falsy, and each one listed among the arrays, and not among the hashes, is an array or
-- falsy, whatever the parameters were.
pub load_params-typed :
    (arrays hashes : List Text) (this t u : Fields)
    → load_arrays arrays this ≡ ok t
    → load_hashes hashes t ≡ ok u
    → All (λ h. is_hash (get h u) ≡ true) hashes
      × All (λ a. (any (λ h. h === a) hashes || is_list (get a u)) ≡ true) arrays
load_params-typed arrays hashes this t u h k = (
  load_hashes-hash hashes t u k,
  lists_remain arrays hashes t u k (load_arrays-list arrays this t h),
)
