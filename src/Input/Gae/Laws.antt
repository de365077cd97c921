-- ===== src/Input/Gae/Laws.antt =====
-- How the pieces of a response become messages.
use node_logstash.Js.Value.{Value}
use node_logstash.Component.Config.{split}
use node_logstash.Input.Gae.{Event, chunk}
use node_logstash.Prelude.{◌≡◌, List, [], ◌∷◌, ℕ, Text}

-- A text has at least one line.
record HasLine (c : ℕ) (s : Text) : Type 0 where
  line : Text
  others : List Text
  is_split : split c s ≡ line ∷ others

abbrev pub chunks : List (List ℕ) → List Event
chunks [] = []
chunks (t ∷ ts) = chunk t ∷ chunks ts
