-- ===== src/Filter/HttpStatus/Laws.antt =====
-- The class of a status code.
use node_logstash.Js.Number.{Number, nat, num_ge-nat, num_lt-nat}
use node_logstash.Js.Value.{num, str, Fields}
use node_logstash.Js.Object.{get, set, get-set_ne}
use node_logstash.Js.Convert.{Engine}
use node_logstash.Filter.HttpStatus.{find_code, classify_all, in_class, classify, process}
use node_logstash.Prelude.{
  ◌≡◌, refl, ap, ◌∙◌, Bool, true, false, ◌&&◌, none, List, ◌∷◌, arith, ℕ, ◌+◌, ◌/◌, ltb, leb,
  if◌then◌else◌, Text, codes, ◌===◌,
}

-- The name of the class, from the hundreds of the code.
abbrev pub class_name : ℕ → Text
class_name n = (b'0' + n / 100) ∷ codes "xx"

module _ (js : Engine) where
  in_class-nat : (n low : ℕ) → in_class js (nat n) low ≡ (leb low n && ltb n (low + 100))
  in_class-nat n low = rw (num_ge-nat n low, num_lt-nat n (low + 100))

  classify_code :
      (source target : Text) (n low : ℕ) (name : Text) (d : Fields)
      → get source d ≡ num (nat n)
      → classify js source target low name d
        ≡ (if leb low n && ltb n (low + 100) then set target (str name) d else d)
  classify_code source target n low name d h = rw (h, in_class-nat n low)

  classify_keeps :
      (source target : Text) (n low : ℕ) (name : Text) (d : Fields)
      → (target === source) ≡ false
      → get source d ≡ num (nat n)
      → get source (classify js source target low name d) ≡ num (nat n)
  classify_keeps source target n low name d e h =
      rw (classify_code source target n low name d h) (kept (leb low n && ltb n (low + 100)))
    where
      kept : (b : Bool) → get source (if b then set target (str name) d else d) ≡ num (nat n)
      kept true = get-set_ne source target (str name) d e ∙ h
      kept false = h

  abbrev pick : Text → ℕ → ℕ → Text → Fields → Fields
  pick target n low name d = if leb low n && ltb n (low + 100) then set target (str name) d else d

  classify_all_picks :
      (source target : Text) (n : ℕ) (d : Fields)
      → (target === source) ≡ false
      → get source d ≡ num (nat n)
      → classify_all js source target d
        ≡ pick target n 500 (codes "5xx") (
            pick target n 400 (codes "4xx") (
              pick target n 300
                (codes "3xx")
                (pick target n 200 (codes "2xx") (pick target n 100 (codes "1xx") d))))
  unfolding classify_all
  classify_all_picks source target n d e h =
      let h1 = classify_keeps source target n 100 (codes "1xx") d e h in
      let h2 = classify_keeps source target n 200 (codes "2xx") _ e h1 in
      let h3 = classify_keeps source target n 300 (codes "3xx") _ e h2 in
      let h4 = classify_keeps source target n 400 (codes "4xx") _ e h3 in
      classify_code source target n 500 (codes "5xx") _ h4
      ∙ ap (pick target n 500 (codes "5xx")) (
          classify_code source target n 400 (codes "4xx") _ h3
          ∙ ap (pick target n 400 (codes "4xx")) (
              classify_code source target n 300 (codes "3xx") _ h2
              ∙ ap (pick target n 300 (codes "3xx")) (
                  classify_code source target n 200 (codes "2xx") _ h1
                  ∙ ap (pick target n 200 (codes "2xx"))
                      (classify_code source target n 100 (codes "1xx") d h))))

  picks_class :
      (target : Text) (n : ℕ) (d : Fields)
      → pick target n 500 (codes "5xx") (
          pick target n 400 (codes "4xx") (
            pick target n 300
              (codes "3xx")
              (pick target n 200 (codes "2xx") (pick target n 100 (codes "1xx") d))))
        ≡ (if leb 100 n && ltb n 600 then set target (str (class_name n)) d else d)
  picks_class target n d = ground arith

  process_plain :
      (source target : Text) (cs : List Number) (n : ℕ) (d : Fields)
      → get source d ≡ num (nat n)
      → find_code js (num (nat n)) cs ≡ none
      → process js source target cs d ≡ (if ltb 0 n then classify_all js source target d else d)
  unfolding process
  process_plain source target cs n d h p =
      let q : find_code js (get source d) cs ≡ none = ap (λ v. find_code js v cs) h ∙ p in
      rw (q, h) refl

  -- For a whole number n that is no special code, in a field other than the target: the target
  -- becomes the class "1xx" to "5xx" by the hundreds of n where 100 ≤ n < 600, and the message stays
  -- as it is for every other n.
  process_class :
      (source target : Text) (cs : List Number) (n : ℕ) (d : Fields)
      → (target === source) ≡ false
      → get source d ≡ num (nat n)
      → find_code js (num (nat n)) cs ≡ none
      → process js source target cs d
        ≡ (if leb 100 n && ltb n 600 then set target (str (class_name n)) d else d)
  process_class source target cs n d e h p =
      process_plain source target cs n d h p
      ∙ (rw (classify_all_picks source target n d e h, picks_class target n d) (ground arith))
