-- ===== src/Filter/Grok/Start.antt =====
-- `start` of lib/filters/filter_grok.js. The compilation of a regular expression is a parameter, and
-- so is what the loading of a file of extra patterns answers.
use node_logstash.Js.Value.{Error, type_error, Result, ok, throw, ◌>>=◌}
use node_logstash.Filter.Grok.{Patterns, Loader, process_lines}
use node_logstash.Filter.Grok.Expand.{Expanded, grok_find, expand}
use node_logstash.Prelude.{Option, none, some, List, [], ℕ, Text}

module _ {ℓ} {R : Type ℓ} (compile : Text → Result R) (stack : ℕ) where
  -- Without global patterns a pattern with a reference throws.
  unfoldable pub expand_match : Option Patterns → Patterns → Text → Result Expanded
  unfolding expand grok_find
  expand_match (some global) extra regex = expand global extra stack regex
  expand_match none extra regex = elim (grok_find regex) [
    | none ↦ ok (regex, [])
    | some found ↦ throw type_error
  ]

  -- `_done`: the regular expression, and the fields of its groups.
  unfoldable pub finish : Option Patterns → Text → Patterns → Result (R × List Text)
  unfolding expand_match
  finish global regex extra =
      expand_match global extra regex >>= (λ r. compile r.0 >>= (λ c. ok (c, r.1)))

  -- The callback of `loadPatterns`; `none` for the file is that none is configured.
  unfoldable pub on_patterns :
      Loader → Option Error → Option (Result (List Text)) → Text → Result (R × List Text)
  unfolding finish process_lines
  on_patterns l (some e) file regex = throw e
  on_patterns l none none regex = finish l.global_patterns regex []
  on_patterns l none (some (throw e)) regex = throw e
  on_patterns l none (some (ok lines)) regex = finish l.global_patterns regex (process_lines lines)
