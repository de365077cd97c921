-- ===== src/Filter/SyslogPri.antt =====
-- lib/filters/filter_syslog_pri.js
pub mod Laws
use node_logstash.Js.Number.{Number, dyadic, nat, num_lt}
use node_logstash.Js.Value.{Value, undefined, str, Fields}
use node_logstash.Js.Object.{get, set}
use node_logstash.Js.Convert.{Engine, as_number}
use node_logstash.Prelude.{
  true, false, ◌&&◌, List, [], ◌∷◌, ℕ, zero, suc, ◌/◌, ◌%◌, ◌^◌, if◌then◌else◌, Text, codes,
}

abbrev pub facility_labels : List Text
facility_labels =
    codes "kernel"
    ∷ codes "user-level"
    ∷ codes "mail"
    ∷ codes "daemon"
    ∷ codes "security/authorization"
    ∷ codes "syslogd"
    ∷ codes "line printer"
    ∷ codes "network news"
    ∷ codes "uucp"
    ∷ codes "clock"
    ∷ codes "security/authorization"
    ∷ codes "ftp"
    ∷ codes "ntp"
    ∷ codes "log audit"
    ∷ codes "log alert"
    ∷ codes "clock"
    ∷ codes "local0"
    ∷ codes "local1"
    ∷ codes "local2"
    ∷ codes "local3"
    ∷ codes "local4"
    ∷ codes "local5"
    ∷ codes "local6"
    ∷ codes "local7"
    ∷ []

abbrev pub severity_labels : List Text
severity_labels =
    codes "emergency"
    ∷ codes "alert"
    ∷ codes "critical"
    ∷ codes "error"
    ∷ codes "warning"
    ∷ codes "notice"
    ∷ codes "informational"
    ∷ codes "debug"
    ∷ []

-- `labels[i]`
unfoldable pub label_at : List Text → ℕ → Value
label_at [] i = undefined
label_at (l ∷ ls) zero = str l
label_at (l ∷ ls) (suc i) = label_at ls i

-- What `&` and `>>` read of a number above -1 and below 192: its whole part, where the part of a
-- negative fraction is 0.
unfoldable pub whole_part : Number → ℕ
whole_part (dyadic false m s) = m / 2 ^ s
whole_part _ = 0

abbrev pub minus_one : Number
minus_one = dyadic true 1 0

module _ (js : Engine) where
  -- `x & 7` and `x >> 3`, as the rest and the quotient by 8. The priority is converted anew each
  -- time that it is read.
  unfoldable pub process : Text → Text → Text → Fields → Fields
  unfolding num_lt label_at whole_part
  process priority_field severity_field facility_field data' =
      let priority = as_number js (get priority_field data') in
      if num_lt minus_one priority && num_lt priority (nat 192)
      then set facility_field (label_at facility_labels (whole_part priority / 8))
          (set severity_field (label_at severity_labels (whole_part priority % 8)) data')
      else data'
