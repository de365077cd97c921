-- ===== src/Component/Filtering/Laws.antt =====
-- When a message is taken, as a conjunction of the parameters that the documentation lists.
use node_logstash.Js.Value.{Value, Fields, end, field, truthy}
use node_logstash.Js.Object.{get, strict_eq}
use node_logstash.Js.Convert.{Engine}
use node_logstash.Component.Filtering.{
  Filtering, DynamicEval, all_equal, all_match, exec, process_message, eval_dynamic,
}
use node_logstash.Prelude.{
  ◌≡◌, refl, ◌↔◌, ◌⊎◌, true, false, Option, none, some, List, [], ◌∷◌, arith, all, All, Text, codes,
}

-- `only_type` is not given, or is the type of the message.
abbrev pub TypeFits : Value → Fields → Type 0
TypeFits v d = (truthy v ≡ false) ⊎ (strict_eq v (get (codes "type") d) ≡ true)

abbrev pub Present : Fields → Text → Type 0
Present d i = truthy (get i d) ≡ true

abbrev pub EqualsAll : Fields → Fields → Type 0
EqualsAll end d = Unit
EqualsAll (field i v o) d = Present d i × (strict_eq (get i d) v ≡ true) × EqualsAll o d

module _ (js : Engine) where
  abbrev pub MatchesAll : List (Text × Text) → Fields → Type 0
  MatchesAll [] d = Unit
  MatchesAll ((i, p) ∷ l) d = Present d i × (exec js p (get i d) ≡ true) × MatchesAll l d

  abbrev pub DynamicHolds : Option DynamicEval → Fields → Type 0
  DynamicHolds none d = Unit
  DynamicHolds (some e) d = eval_dynamic js e d ≡ true

  pub record Takes (f : Filtering) (d : Fields) : Type 0 where
    pub type_fits : TypeFits f.only_type d
    pub fields_exist : All (Present d) f.only_field_exist
    pub fields_equal : EqualsAll f.only_field_equal d
    pub fields_match : MatchesAll f.only_field_match d
    pub dynamic_holds : DynamicHolds f.dynamic_eval d

  all_iff :
      (d : Fields) (l : List Text) → (all (λ i. truthy (get i d)) l ≡ true) ↔ All (Present d) l
  all_iff d [] = (λ _. tt, λ _. refl)
  all_iff d (i ∷ l) = ground (arith, all_iff d l)

  all_equal_iff : (o d : Fields) → (all_equal o d ≡ true) ↔ EqualsAll o d
  unfolding all_equal
  all_equal_iff end d = (λ _. tt, λ _. refl)
  all_equal_iff (field i v o) d = ground (arith, all_equal_iff o d)

  all_match_iff : (l : List (Text × Text)) (d : Fields) → (all_match js l d ≡ true) ↔ MatchesAll l d
  unfolding all_match
  all_match_iff [] d = (λ _. tt, λ _. refl)
  all_match_iff ((i, p) ∷ l) d = ground (arith, all_match_iff l d)

  -- A component takes a message exactly when all that its parameters ask holds: the type is the
  -- one of `only_type` where that is given, each field of `only_field_exist` is truthy, each one of
  -- `only_field_equal` is truthy and equal to its value, each one of `only_field_match` is truthy
  -- and matches its pattern, and the condition of the enclosing `if` holds where there is one.
  pub process_message_iff :
      (f : Filtering) (d : Fields) → (process_message js f d ≡ true) ↔ Takes f d
  unfolding process_message
  process_message_iff f d = ground (
    arith,
    all_iff d f.only_field_exist,
    all_equal_iff f.only_field_equal d,
    all_match_iff f.only_field_match d,
  )
