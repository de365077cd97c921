-- ===== src/Tests/Messages.antt =====
-- Filters, tags and urls on concrete inputs.
use node_logstash.Js.Number.{nat, dyadic, num_lt}
use node_logstash.Js.Value.{str, num, Fields, end, field}
use node_logstash.Js.Object.{get}
use node_logstash.Js.Convert.{as_number}
use node_logstash.Filter.Split.{split_texts}
use node_logstash.Filter.Split.Laws.{IsSplit, split_texts-IsSplit}
use node_logstash.Filter.SyslogPri
use node_logstash.Filter.SyslogPri.{
  minus_one, facility_labels, severity_labels, label_at, whole_part,
}
use node_logstash.Filter.SyslogPri.Laws.{process_labels}
use node_logstash.Tests.{plain}
use node_logstash.Prelude.{◌≡◌, refl, ◌⊎◌, true, false, ◌&&◌, [], ◌∷◌, arith, ◌/◌, ◌%◌, Text, codes}

split_texts-IsSplit_example :
    IsSplit (codes ",") (codes "a,,b") (split_texts 5 (codes ",") (codes "a,,b"))
split_texts-IsSplit_example = split_texts-IsSplit 5 b',' [] (codes "a,,b") (omega arith)

-- 22.5, in the facility 2 with the severity 6
abbrev pri : Fields
pri = field (codes "pri") (num (dyadic false 45 1)) end

process_labels_example :
    (((num_lt minus_one (as_number plain (get (codes "pri") pri))
          && num_lt (as_number plain (get (codes "pri") pri)) (nat 192))
        ≡ true)
      × ((s : Text) × (f : Text) × (get
              (codes "sev")
              (SyslogPri.process plain (codes "pri") (codes "sev") (codes "fac") pri)
            ≡ str s)
          × (get
                (codes "fac")
                (SyslogPri.process plain (codes "pri") (codes "sev") (codes "fac") pri)
              ≡ str f)
          × (label_at severity_labels (whole_part (as_number plain (get (codes "pri") pri)) % 8)
              ≡ str s)
          × (label_at facility_labels (whole_part (as_number plain (get (codes "pri") pri)) / 8)
              ≡ str f)))
    ⊎ (((num_lt minus_one (as_number plain (get (codes "pri") pri))
            && num_lt (as_number plain (get (codes "pri") pri)) (nat 192))
          ≡ false)
        × (SyslogPri.process plain (codes "pri") (codes "sev") (codes "fac") pri ≡ pri))
process_labels_example = process_labels plain (codes "pri") (codes "sev") (codes "fac") pri refl

-- { length: 2 }
abbrev measured : Fields
measured = field (codes "length") (num (nat 2)) end

three_parts : split_texts 5 (codes ",") (codes "a,,b") ≡ codes "a" ∷ codes "b" ∷ []
unfolding split_texts
three_parts = refl
