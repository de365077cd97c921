-- ===== src/Output/Redis/Laws.antt =====
-- What a redis output sends and what it reports.
use node_logstash.Js.Value.{Fields, str, ok}
use node_logstash.Js.Convert.{Engine}
use node_logstash.Component.Template.{replace_by_fields}
use node_logstash.Output.Redis.{
  send_queue, send_pub_sub, thrown, answered, step, Mode, Event, connected, failed, arrived, Effect,
  rpush, publish, buffer_ok, buffer_error, command, run,
}
use node_logstash.Prelude.{
  ◌≡◌, refl, ap, ap₂, ◌∙◌, Bool, true, false, Option, List, [], ◌∷◌, ◌++◌, map, Text,
}

-- What is sent to redis.
abbrev pub sent : List Effect → List Effect
sent [] = []
sent (rpush k p ∷ es) = rpush k p ∷ sent es
sent (publish c p ∷ es) = publish c p ∷ sent es
sent (buffer_ok ∷ es) = sent es
sent (buffer_error ∷ es) = sent es
sent (thrown e ∷ es) = sent es

-- The messages behind the first connection.
abbrev pub behind_connection : Bool → List Event → List Fields
behind_connection client [] = []
behind_connection client (connected ∷ es) = behind_connection true es
behind_connection client (failed ∷ es) = behind_connection client es
behind_connection true (arrived d accepted ∷ es) = d ∷ behind_connection true es
behind_connection false (arrived d accepted ∷ es) = behind_connection false es

sent-append : (a b : List Effect) → sent (a ++ b) ≡ sent a ++ sent b
sent-append [] b = refl
sent-append (rpush k p ∷ a) b = ap (λ l. rpush k p ∷ l) (sent-append a b)
sent-append (publish c p ∷ a) b = ap (λ l. publish c p ∷ l) (sent-append a b)
sent-append (buffer_ok ∷ a) b = sent-append a b
sent-append (buffer_error ∷ a) b = sent-append a b
sent-append (thrown e ∷ a) b = sent-append a b

abbrev pub all_ok : List Event → List Effect
all_ok [] = []
all_ok (e ∷ es) = buffer_ok ∷ all_ok es

-- Messages only.
abbrev pub messages : List (Fields × Bool) → List Event
messages [] = []
messages ((d, accepted) ∷ l) = arrived d accepted ∷ messages l

module _ (js : Engine) (now_text : Text → Text) (serialize : Fields → Option Text) where
  -- One command is sent for each message, whatever the client answers.
  run-commands :
      (mode : Mode) (f : Fields → Effect)
      → ((d : Fields) → command js now_text serialize mode d ≡ ok (f d))
      → ((d : Fields) (accepted : Bool)
          → sent (answered js now_text serialize accepted (ok (f d))) ≡ f d ∷ [])
      → (client : Bool) (es : List Event)
      → sent (run js now_text serialize mode client es).1 ≡ map f (behind_connection client es)
  unfolding run step
  run-commands mode f h k client [] = refl
  run-commands mode f h k client (connected ∷ es) = run-commands mode f h k true es
  run-commands mode f h k client (failed ∷ es) = run-commands mode f h k client es
  run-commands mode f h k true (arrived d accepted ∷ es) =
      sent-append (answered js now_text serialize accepted (command js now_text serialize mode d))
        (run js now_text serialize mode true es).1
      ∙ ap₂ (λ a b. a ++ b)
          (ap (λ c. sent (answered js now_text serialize accepted c)) (h d) ∙ k d accepted)
          (run-commands mode f h k true es)
  run-commands mode f h k false (arrived d accepted ∷ es) = run-commands mode f h k false es

  -- Where the key, or the channel, is a text: of the messages of a redis output exactly those behind
  -- the first connection are sent, once each and in order, whatever the client answers and whatever
  -- errors the connection has: pushed under the key, or published on the channel, with its
  -- references replaced by the fields of the message.
  pub run-behind_connection :
      (key : Text) (client : Bool) (es : List Event)
      → (sent (run js now_text serialize (send_queue (str key)) client es).1
          ≡ map
              (λ d. rpush (replace_by_fields js now_text [] d key).1 (serialize d))
              (behind_connection client es))
        × (sent (run js now_text serialize (send_pub_sub (str key)) client es).1
            ≡ map
                (λ d. publish (replace_by_fields js now_text [] d key).1 (serialize d))
                (behind_connection client es))
  unfolding command
  run-behind_connection key client es = (
    run-commands (send_queue (str key)) _ (λ d. refl) pushed client es,
    run-commands (send_pub_sub (str key)) _ (λ d. refl) published client es,
  )
    where
      pushed :
          (d : Fields) (accepted : Bool)
          → sent (
              answered js now_text serialize accepted
                (ok (rpush (replace_by_fields js now_text [] d key).1 (serialize d))))
            ≡ rpush (replace_by_fields js now_text [] d key).1 (serialize d) ∷ []
      pushed d true = refl
      pushed d false = refl

      published :
          (d : Fields) (accepted : Bool)
          → sent (
              answered js now_text serialize accepted
                (ok (publish (replace_by_fields js now_text [] d key).1 (serialize d))))
            ≡ publish (replace_by_fields js now_text [] d key).1 (serialize d) ∷ []
      published d true = refl
      published d false = refl

  -- Messages that come before the first connection are lost, and each is reported to the error buffer
  -- as a success.
  run-messages :
      (mode : Mode) (l : List (Fields × Bool))
      → (run js now_text serialize mode false (messages l)).1 ≡ all_ok (messages l)
  unfolding run
  run-messages mode [] = refl
  run-messages mode ((d, accepted) ∷ l) = ap (λ es. buffer_ok ∷ es) (run-messages mode l)
