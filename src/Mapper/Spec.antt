-- ===== src/Mapper/Spec.antt =====
-- The meaning of an `if` of the configuration, branch by branch, with no reference to the urls.
use node_logstash.Js.Value.{Fields, ok, throw}
use node_logstash.Js.Convert.{Engine}
use node_logstash.Condition.{compute}
use node_logstash.Mapper.{Plugin, Branch}
use node_logstash.Prelude.{some, List, [], ◌∷◌, if◌then◌else◌}

module _ (js : Engine) where
  -- The first branch whose condition is true; the `else` where all are false; nothing where one
  -- before that throws.
  unfoldable pub chosen : Fields → List Branch → List Plugin → List Plugin
  chosen d [] otherwise = otherwise
  chosen d (b ∷ bs) otherwise =
      let rest = chosen d bs otherwise in
      elim (compute js b.condition (some d)) [
        | ok holds ↦ if holds then b.body else rest
        | throw e ↦ []
      ]
