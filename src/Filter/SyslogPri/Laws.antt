-- ===== src/Filter/SyslogPri/Laws.antt =====
-- The labels of a priority.
use node_logstash.Js.Number.{Number, nan, infinite, dyadic, nat, num_lt}
use node_logstash.Js.Value.{str, Fields}
use node_logstash.Js.Object.{get, set, get-set_self, get-set_ne}
use node_logstash.Js.Convert.{Engine, as_number}
use node_logstash.Filter.SyslogPri.{
  facility_labels, severity_labels, label_at, whole_part, minus_one, process,
}
use node_logstash.Prelude.{
  ◌≡◌, refl, ◌⊎◌, inl, inr, true, false, ◌&&◌, List, [], ◌∷◌, arith, ℕ, zero, suc, ◌*◌, ◌/◌, ◌%◌,
  ◌^◌, ◌<◌, Bool-cases, length, Text, ◌===◌,
}

-- An index in the list has a label.
label_at_some : (ls : List Text) (i : ℕ) → i < length ls → (l : Text) × (label_at ls i ≡ str l)
unfolding label_at
label_at_some [] i h = absurd (omega arith)
label_at_some (l ∷ ls) zero h = (l, refl)
label_at_some (l ∷ ls) (suc i) h = label_at_some ls i (omega arith)

below : (m s : ℕ) → m < 192 * 2 ^ s → m / 2 ^ s < 192
below m s h = grind arith

whole_part-lt : (n : Number) → num_lt n (nat 192) ≡ true → whole_part n < 192
unfolding whole_part num_lt
whole_part-lt nan h = omega arith
whole_part-lt (infinite neg) h = omega arith
whole_part-lt (dyadic true m s) h = omega arith
whole_part-lt (dyadic false m s) h = below m s (ground arith)

module _ (js : Engine) where
  process_in_range :
      (p sev fac : Text) (d : Fields) (n : Number)
      → as_number js (get p d) ≡ n
      → (num_lt minus_one n && num_lt n (nat 192)) ≡ true
      → process js p sev fac d
        ≡ set fac
            (label_at facility_labels (whole_part n / 8))
            (set sev (label_at severity_labels (whole_part n % 8)) d)
  unfolding process
  process_in_range p sev fac d n q h = rw (q, h) refl

  process_out_of_range :
      (p sev fac : Text) (d : Fields)
      → (num_lt minus_one (as_number js (get p d)) && num_lt (as_number js (get p d)) (nat 192))
        ≡ false
      → process js p sev fac d ≡ d
  unfolding process
  process_out_of_range p sev fac d h = rw h refl

  -- Where the fields differ: for every priority that reads as a number above -1 and below 192, whole
  -- or not, both fields get the labels of their tables, so neither becomes undefined; any other
  -- message stays as it is.
  pub process_labels :
      (p sev fac : Text) (d : Fields)
      → (fac === sev) ≡ false
      → (((num_lt minus_one (as_number js (get p d)) && num_lt (as_number js (get p d)) (nat 192))
            ≡ true)
          × ((s : Text) × (f : Text) × (get sev (process js p sev fac d) ≡ str s)
              × (get fac (process js p sev fac d) ≡ str f)
              × (label_at severity_labels (whole_part (as_number js (get p d)) % 8) ≡ str s)
              × (label_at facility_labels (whole_part (as_number js (get p d)) / 8) ≡ str f)))
        ⊎ (((num_lt minus_one (as_number js (get p d)) && num_lt (as_number js (get p d)) (nat 192))
              ≡ false)
            × (process js p sev fac d ≡ d))
  process_labels p sev fac d e =
      let n = as_number js (get p d) in
      elim (Bool-cases (num_lt minus_one n && num_lt n (nat 192))) [
        | inr out ↦ inr (out, process_out_of_range p sev fac d out)
        | inl h ↦
            let small = whole_part-lt n (ground arith) in
            let (s, es) = label_at_some severity_labels (whole_part n % 8) (omega arith) in
            let (f, ef) = label_at_some facility_labels (whole_part n / 8) (omega (arith, small)) in
            let run = process_in_range p sev fac d n refl h in
            inl (
              h,
              (
                s,
                f,
                rw (run, get-set_ne sev fac _ _ e, get-set_self sev _ d) es,
                rw (run, get-set_self fac _ _) ef,
                es,
                ef,
              ),
            )
      ]
