-- ===== src/Filter/Split.antt =====
-- lib/filters/filter_split.js. The copy of a message by JSON is a parameter.
pub mod Laws
use node_logstash.Js.Value.{
  Value, str, arr, Values, nil, cons, Fields, Result, ok, throw, type_error,
}
use node_logstash.Js.Object.{get, set, strict_eq}
use node_logstash.Filter.{Processed, many}
use node_logstash.Prelude.{
  Bool, false, ◌||◌, none, some, List, [], ◌∷◌, ℕ, zero, suc, ◌+◌, if◌then◌else◌, length, take,
  drop, Text, codes, index_of,
}

abbrev pub when_full : Text → List Text → List Text
when_full [] l = l
when_full (c ∷ s) l = (c ∷ s) ∷ l

-- The loop over `current`: the texts of the new messages. Each round removes at least the delimiter.
unfoldable pub split_texts : ℕ → Text → Text → List Text
split_texts zero delimiter current = []
split_texts (suc fuel) delimiter current = elim (index_of delimiter current) [
  | none ↦ when_full current []
  | some index ↦
      when_full (take index current)
        (split_texts fuel delimiter (drop (index + length delimiter) current))
]

has_value : Value → Values → Bool
has_value v nil = false
has_value v (cons w vs) = strict_eq w v || has_value v vs

module _ (clone : Fields → Fields) where
  abbrev create_message : Fields → Value → Fields
  create_message data' text = set (codes "message") text (clone data')

  abbrev of_texts : Fields → List Text → List Fields
  of_texts data' [] = []
  of_texts data' (t ∷ ts) = create_message data' (str t) ∷ of_texts data' ts

  -- An array has an `indexOf` too, but no `substring`.
  unfoldable pub process : Text → Fields → Result Processed
  unfolding split_texts has_value
  process delimiter data' = elim (get (codes "message") data') [
    | str s ↦ ok (many (of_texts data' (split_texts (suc (length s)) delimiter s)))
    | arr nil ↦ ok (many [])
    | arr (cons v vs) ↦
        if has_value (str delimiter) (cons v vs)
        then throw type_error
        else ok (many (create_message data' (arr (cons v vs)) ∷ []))
    | _ ↦ throw type_error
  ]
