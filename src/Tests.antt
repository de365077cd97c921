-- ===== src/Tests.antt =====
-- Concrete inputs on which the theorems are applied, and runs of the definitions on them.
pub mod Files
pub mod Inputs
pub mod Messages
pub mod Network
pub mod Patterns
pub mod Parameters
pub mod Plugins
pub mod Queues
pub mod Runtime
pub mod Wiring
use node_logstash.Js.Number.{Number, nan, nat}
use node_logstash.Js.Value.{Value, str, num, arr, nil, cons, Fields, end, field}
use node_logstash.Js.Convert.{Engine}
use node_logstash.Condition.{Condition, cond, eq, gt, of_field, value}
use node_logstash.Component.Filtering.{Filtering}
use node_logstash.Prelude.{
  Bool, true, false, ◌&&◌, Option, none, some, [], ◌∷◌, ℕ, ◌+◌, ◌-◌, ◌*◌, leb, if◌then◌else◌, all,
  Text, codes, index_of,
}

abbrev value_of : ℕ → Text → ℕ
value_of n [] = n
value_of n (c ∷ s) = value_of (n * 10 + (c - 48)) s

-- Decimal digits are a number, and anything else is NaN.
abbrev read_number : Text → Number
read_number [] = nan
read_number (c ∷ s) =
    if all (λ d. leb 48 d && leb d 57) (c ∷ s) then nat (value_of 0 (c ∷ s)) else nan

abbrev found : Option ℕ → Option Bool
found none = some false
found (some i) = some true

-- An engine that prints every number alike and whose patterns are literal texts.
abbrev pub plain : Engine
plain = record {
  number_text = λ n. codes "7";
  parse_float = read_number;
  parse_int = read_number;
  to_number = λ v. nan;
  regexp_test = λ p s. found (index_of p s);
}

-- { type: "web", status: 404, message: "a,b", tags: ["x"] }
abbrev pub web : Fields
web = field (codes "type") (str (codes "web")) (
    field (codes "status") (num (nat 404)) (
      field (codes "message") (str (codes "a,b"))
        (field (codes "tags") (arr (cons (str (codes "x")) nil)) end)))

-- { "message": text }
abbrev pub line : Text → Fields
line text = field (codes "message") (str text) end

-- [type] == "web"
abbrev pub is_web : Condition
is_web = cond eq (of_field (codes "type")) (value (str (codes "web")))

-- [status] > 500
abbrev pub is_failure : Condition
is_failure = cond gt (of_field (codes "status")) (value (num (nat 500)))

-- only_type=web, only_field_exist=status, only_field_match for the message
abbrev pub web_only : Filtering
web_only = record {
  only_type = str (codes "web");
  only_field_exist = codes "status" ∷ [];
  only_field_equal = end;
  only_field_match = (codes "message", codes ",") ∷ [];
  dynamic_eval = none;
}

abbrev pub anything : Filtering
anything = record {
  only_type = Value.undefined;
  only_field_exist = [];
  only_field_equal = end;
  only_field_match = [];
  dynamic_eval = none;
}
