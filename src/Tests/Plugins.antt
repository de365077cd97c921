-- ===== src/Tests/Plugins.antt =====
-- Conditions, the filtering of messages and templates on concrete inputs.
use node_logstash.Js.Number.{nat, num_lt}
use node_logstash.Js.Value.{str, num, end, ok, throw, type_error}
use node_logstash.Js.Object.{get, strict_eq}
use node_logstash.Condition.{
  cond, eq, gt, ge, lt, le, conjunction, Operand, of_field, value, nested, compute,
}
use node_logstash.Condition.Blind.{compute-connective_on_field}
use node_logstash.Condition.Order.{compute_order}
use node_logstash.Component.Filtering.{process_message}
use node_logstash.Component.Filtering.Laws.{Takes, process_message_iff}
use node_logstash.Component.Template.{replace_by_fields}
use node_logstash.Component.Template.Print.{
  Placeholder, time, field_named, keys_of, print, filled, replace_by_fields-print,
}
use node_logstash.Mapper.{Plugin, Branch, guard_branches}
use node_logstash.Mapper.Spec.{chosen}
use node_logstash.Mapper.Branches.{active, active-guard_branches}
use node_logstash.Tests.{plain, web, is_web, is_failure, web_only}
use node_logstash.Prelude.{◌≡◌, refl, ◌↔◌, inl, true, not, some, List, [], ◌∷◌, arith, Text, codes}

abbrev plugin_named : Text → Plugin
plugin_named name = record { name = name; conf = end }

-- if [status] > 500 { mutate } else if [type] == "web" { grok, split } else { grep }
abbrev branches : List Branch
branches =
    record { condition = is_failure; body = plugin_named (codes "mutate") ∷ [] }
    ∷ record {
      condition = is_web;
      body = plugin_named (codes "grok") ∷ plugin_named (codes "split") ∷ [];
    }
    ∷ []

abbrev otherwise : List Plugin
otherwise = plugin_named (codes "grep") ∷ []

active-guard_branches_example :
    active plain web (guard_branches [] branches otherwise) ≡ chosen plain web branches otherwise
active-guard_branches_example = active-guard_branches plain web branches otherwise

process_message_iff_example : (process_message plain web_only web ≡ true) ↔ Takes plain web_only web
process_message_iff_example = process_message_iff plain web_only web

abbrev now_text : Text → Text
now_text format = format

-- "log-#{type}/#{now:YYYY}.txt"
abbrev path_segments : List (Text × Placeholder)
path_segments = (codes "log-", field_named (codes "type")) ∷ (codes "/", time (codes "YYYY")) ∷ []

replace_by_fields-print_example :
    (replace_by_fields plain now_text [] web (print (keys_of path_segments) (codes ".txt"))).1
    ≡ filled plain now_text web [] path_segments (codes ".txt")
replace_by_fields-print_example =
    replace_by_fields-print plain now_text web path_segments (codes ".txt") (ground arith)

abbrev status : Operand
status = of_field (codes "status")

abbrev limit : Operand
limit = value (num (nat 500))

compute_order_example :
    (compute plain (cond lt status limit) (some web) ≡ ok (num_lt (nat 404) (nat 500)))
    × (compute plain (cond gt limit status) (some web) ≡ ok (num_lt (nat 404) (nat 500)))
    × (compute plain (cond ge status limit) (some web) ≡ ok (not (num_lt (nat 404) (nat 500))))
    × (compute plain (cond le limit status) (some web) ≡ ok (not (num_lt (nat 404) (nat 500))))
unfolding compute get num_lt
compute_order_example = compute_order plain status limit (some web) refl refl refl refl

compute-connective_on_field_example :
    compute plain (cond conjunction (nested is_web) (nested is_failure)) (some web)
    ≡ throw type_error
compute-connective_on_field_example =
    compute-connective_on_field plain conjunction eq b't' (codes "ype") (value (str (codes "web")))
      (nested is_failure) web (inl refl) (inl refl)

second_branch :
    chosen plain web branches otherwise
    ≡ plugin_named (codes "grok") ∷ plugin_named (codes "split") ∷ []
unfolding chosen compute get num_lt
second_branch = refl

web_is_taken : process_message plain web_only web ≡ true
unfolding process_message strict_eq get
web_is_taken = refl

path_text :
    (replace_by_fields plain now_text [] web (codes "log-#{type}/#{now:YYYY}.txt")).1
    ≡ some (codes "log-web/YYYY.txt")
unfolding replace_by_fields get
path_text = refl
