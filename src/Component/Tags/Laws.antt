-- ===== src/Component/Tags/Laws.antt =====
-- What the tag and field functions do to a message.
use node_logstash.Js.Value.{Value, undefined, str, arr, Values, nil, cons, Fields, truthy, ok}
use node_logstash.Js.Object.{get, set, delete, get-set, get-set_self, get-delete}
use node_logstash.Component.Tags.{
  tags_key, push_all, add_tags, remove_first, remove_each, remove_tags, remove_fields,
}
use node_logstash.Prelude.{
  ◌≡◌, refl, ap, false, some, List, [], ◌∷◌, ◌++◌, arith, ℕ, suc, ◌-◌, if◌then◌else◌, any, Text,
  ◌===◌, ===_iff,
}

-- How often a text stands in a list of tags.
abbrev pub occurrences : Text → Values → ℕ
occurrences t nil = 0
occurrences t (cons (str s) vs) = if s === t then suc (occurrences t vs) else occurrences t vs
occurrences t (cons v vs) = occurrences t vs

abbrev pub count_in : Text → List Text → ℕ
count_in t [] = 0
count_in t (s ∷ ts) = if s === t then suc (count_in t ts) else count_in t ts

occurrences-remove_first :
    (t u : Text) (vs : Values)
    → occurrences t (remove_first u vs)
      ≡ (if u === t then occurrences t vs - 1 else occurrences t vs)
unfolding remove_first
occurrences-remove_first t u nil = ground arith
occurrences-remove_first t u (cons (str s) vs) =
    ground (arith, ===_iff s u, ===_iff u t, ===_iff s t, occurrences-remove_first t u vs)
occurrences-remove_first t u (cons v vs) = occurrences-remove_first t u vs

occurrences-remove_each :
    (t : Text) (ts : List Text) (vs : Values)
    → occurrences t (remove_each ts vs) ≡ occurrences t vs - count_in t ts
unfolding remove_each
occurrences-remove_each t [] vs = omega arith
occurrences-remove_each t (u ∷ ts) vs =
    ground
      (arith, occurrences-remove_each t ts (remove_first u vs), occurrences-remove_first t u vs)

-- On a message whose tags are an array, `remove_tags` takes each of its tags away once for each time
-- that it is listed, as far as there are that many, leaves the number of all other tags as it is,
-- and changes no other field.
remove_tags_lem :
    (ts : List Text) (d : Fields) (vs : Values)
    → get tags_key d ≡ arr vs
    → (d' : Fields) × (ws : Values) × (remove_tags (some ts) d ≡ ok d')
      × ((t : Text) → occurrences t ws ≡ occurrences t vs - count_in t ts)
      × ((k : Text) → get k d' ≡ (if tags_key === k then arr ws else get k d))
unfolding remove_tags
remove_tags_lem ts d vs h = (
  set tags_key (arr (remove_each ts vs)) d,
  remove_each ts vs,
  ground arith,
  λ t. occurrences-remove_each t ts vs,
  λ k. get-set k tags_key (arr (remove_each ts vs)) d,
)

abbrev pub append_values : Values → List Value → List Value
append_values nil ts = ts
append_values (cons v vs) ts = v ∷ append_values vs ts

abbrev pub listed : Values → List Value
listed nil = []
listed (cons v vs) = v ∷ listed vs

listed-push_all : (vs : Values) (ts : List Value) → listed (push_all vs ts) ≡ listed vs ++ ts
unfolding push_all
listed-push_all nil [] = refl
listed-push_all nil (t ∷ ts) = ap (λ r. t ∷ r) (listed-push_all nil ts)
listed-push_all (cons v vs) ts = ap (λ r. v ∷ r) (listed-push_all vs ts)

-- The tags that a message has: none where the field is missing or falsy.
pub data TagsOf (d : Fields) : Values → Type 0 where
  none_yet : truthy (get tags_key d) ≡ false → TagsOf d nil
  has_tags : {vs : Values} → get tags_key d ≡ arr vs → TagsOf d vs

-- On a message whose tags are an array, or that has no tags, `add_tags` appends its tags in order
-- behind those that are there, and changes no other field.
add_tags_lem :
    (ts : List Value) (d : Fields) {vs : Values}
    → TagsOf d vs
    → (d' : Fields) × (ws : Values) × (add_tags (some ts) d ≡ ok d')
      × (listed ws ≡ listed vs ++ ts)
      × ((k : Text) → get k d' ≡ (if tags_key === k then arr ws else get k d))
unfolding add_tags
add_tags_lem ts d (none_yet h) =
    let d' = set tags_key (arr nil) d in
    let ws = push_all nil ts in
    (
      set tags_key (arr ws) d',
      ws,
      ground (arith, get-set_self tags_key (arr nil) d),
      listed-push_all nil ts,
      λ k. ground (arith, get-set k tags_key (arr ws) d', get-set k tags_key (arr nil) d),
    )
add_tags_lem ts d (has_tags {vs} h) = (
  set tags_key (arr (push_all vs ts)) d,
  push_all vs ts,
  ground arith,
  listed-push_all vs ts,
  λ k. get-set k tags_key (arr (push_all vs ts)) d,
)

-- `remove_fields` leaves no field of its list and changes no other.
get-remove_fields :
    (k : Text) (fs : List Text) (d : Fields)
    → get k (remove_fields (some fs) d) ≡ (if any (λ f. f === k) fs then undefined else get k d)
unfolding remove_fields
get-remove_fields k [] d = refl
get-remove_fields k (f ∷ fs) d =
    ground (arith, get-remove_fields k fs (delete f d), get-delete k f d)
