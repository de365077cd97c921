-- ===== src/Filter/Simple/Laws.antt =====
-- What the filters of single fields do, and what they leave alone.
use node_logstash.Js.Value.{Value, undefined, str, Fields, truthy, ok}
use node_logstash.Js.Object.{get, set, get-set, get-delete, get-delete_self}
use node_logstash.Filter.Simple.{
  set_default, add_timestamp, add_version, add_host, rename, truncate,
}
use node_logstash.Prelude.{
  ◌≡◌, refl, ap, ◌∙◌, Bool, true, false, ◌&&◌, [], ◌∷◌, arith, ℕ, zero, suc, ◌≤◌, if◌then◌else◌,
  length, take, Text, codes, ◌===◌, ===_iff,
}

-- `rename` to another name moves a truthy field: the new name has its value, the old one is gone,
-- and every other field is as it was. A message where the field is missing or falsy is left as it
-- is.
rename_lem :
    (from to k : Text) (d : Fields)
    → (to === from) ≡ false
    → get k (rename from to d) ≡ (
        if truthy (get from d)
        then (if from === k then undefined else if to === k then get from d else get k d)
        else get k d)
unfolding rename
rename_lem from to k d ne = ground (
  arith,
  get-delete k from (set to (get from d) d),
  get-set k to (get from d) d,
  ===_iff from k,
  ===_iff to k,
  ===_iff to from,
)

-- `rename` of a truthy field to its own name deletes it.
pub rename_self :
    (name : Text) (d : Fields)
    → truthy (get name d) ≡ true
    → get name (rename name name d) ≡ undefined
unfolding rename
rename_self name d h = ground (arith, get-delete_self name (set name (get name d) d))

take-nil : (n : ℕ) → take {A = ℕ} n [] ≡ []
take-nil zero = refl
take-nil (suc n) = refl

length-take-le : (n : ℕ) (s : Text) → length (take n s) ≤ n
length-take-le zero s = omega arith
length-take-le (suc n) [] = omega arith
length-take-le (suc n) (c ∷ s) = omega (arith, length-take-le n s)

-- `truncate` on a message that is a string leaves its first characters, at most `max_size`, and no
-- other field changes.
truncate_lem :
    (n : ℕ) (d : Fields) (s : Text)
    → get (codes "message") d ≡ str s
    → (d' : Fields) × (truncate n d ≡ ok d')
      × (length (take n s) ≤ n)
      × ((k : Text) → get k d' ≡ (if codes "message" === k then str (take n s) else get k d))
unfolding truncate
truncate_lem n d [] h = (
  d,
  rw (h, truncate) refl,
  length-take-le n [],
  λ k. ground (arith, h, take-nil n, ===_iff (codes "message") k),
)
truncate_lem n d (c ∷ s) h =
    let short = str (take n (c ∷ s)) in
    (
      set (codes "message") short d,
      rw (h, truncate) refl,
      length-take-le n (c ∷ s),
      λ k. get-set k (codes "message") short d,
    )

get-set_default :
    (j k : Text) (v : Value) (d : Fields)
    → get k (set_default j v d)
      ≡ (if truthy (get k d) then get k d else if j === k then v else get k d)
get-set_default j k v d = ground (arith, get-set k j v d, ===_iff j k)

===_exclusive : (a b k : Text) → (a === b) ≡ false → ((a === k) && (b === k)) ≡ false
===_exclusive a b k h = ground (arith, ===_iff a k, ===_iff b k, ===_iff a b)

abbrev pub or_default : Bool → Value → Value → Value
or_default named v old = if truthy old then old else if named then v else old

or_default_thrice :
    (a b c : Bool) (u v w old : Value)
    → (a && b) ≡ false
    → (a && c) ≡ false
    → (b && c) ≡ false
    → or_default c w (or_default b v (or_default a u old))
      ≡ (if truthy old then old else if a then u else if b then v else if c then w else old)
or_default_thrice true b c u v w old h i j = ground arith
or_default_thrice false b c u v w old h i j = ground arith

-- What the three filters that complete a message give a field that is missing or falsy.
abbrev pub default_of : Text → Text → Text → Value → Value
default_of now host k old =
    if codes "host" === k
    then str host
    else if codes "@timestamp" === k
    then str now
    else if codes "@version" === k
    then str (codes "1")
    else old

-- The filters add_host, add_timestamp and add_version in this order change no field that is truthy,
-- and give the host, the timestamp and the version where these fields are missing or falsy. No other
-- field changes.
defaults_lem :
    (now host k : Text) (d : Fields)
    → get k (add_version (add_timestamp now (add_host host d)))
      ≡ (if truthy (get k d) then get k d else default_of now host k (get k d))
unfolding add_version add_timestamp add_host
defaults_lem now host k d =
    let d1 = add_host host d in
    let d2 = add_timestamp now d1 in
    get-set_default (codes "@version") k (str (codes "1")) d2
    ∙ (ap (or_default (codes "@version" === k) (str (codes "1"))) (
          get-set_default (codes "@timestamp") k (str now) d1
          ∙ ap (or_default (codes "@timestamp" === k) (str now))
              (get-set_default (codes "host") k (str host) d))
        ∙ or_default_thrice (codes "host" === k) (codes "@timestamp" === k) (codes "@version" === k)
            (str host) (str now) (str (codes "1")) (get k d)
            (===_exclusive (codes "host") (codes "@timestamp") k refl)
            (===_exclusive (codes "host") (codes "@version") k refl)
            (===_exclusive (codes "@timestamp") (codes "@version") k refl))
