-- ===== src/Tests/Wiring.antt =====
-- How the agent configures plugins and joins them, on concrete inputs.
use node_logstash.Js.Value.{Error, message}
use node_logstash.Agent.Configure.{Event, created, failed, initialised, returned, run}
use node_logstash.Agent.Configure.Laws.{answers, outcome, run-outcome}
use node_logstash.Agent.Pipeline.Laws.{through}
use node_logstash.Agent.Delivery.{pass}
use node_logstash.Agent.Delivery.Laws.{received, received-pass}
use node_logstash.Prelude.{
  ◌≡◌, refl, none, List, [], ◌∷◌, arith, ℕ, ◌+◌, ◌==◌, if◌then◌else◌, codes,
}

abbrev refused : Error
refused = message (codes "refused")

-- The plugin starts, `init` returns, the plugin fails, and `init` calls back again.
abbrev events : List Event
events = initialised none ∷ returned ∷ failed refused ∷ initialised none ∷ []

run-outcome_example : answers (run created events).1 ≡ outcome events
run-outcome_example = run-outcome events refl

-- The first filter doubles a message, the second numbers it.
abbrev doubled : ℕ → ℕ → List ℕ
doubled n a = if n == 1 then a ∷ a ∷ [] else (a + 1) ∷ []

received-pass_example : received 1 (pass doubled 2 3 7) ≡ through doubled 2 0 7
received-pass_example = received-pass doubled 2 3 1 7 (ground arith)
