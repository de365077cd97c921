-- ===== src/Tests/Queues.antt =====
-- The redis input and output, and the reverse dns filter, on concrete inputs.
use node_logstash.Js.Value.{Value, undefined, str, Fields, end, field, Result, ok}
use node_logstash.Js.Object.{get}
use node_logstash.Component.Config.{is_undefined}
use node_logstash.Filter.ReverseDns.{start, configured}
use node_logstash.Filter.ReverseDns.Laws.{of_query, start-configured}
use node_logstash.Input.Redis as Redis
use node_logstash.Input.Gae as Gae
use node_logstash.Input.Gae.{Labels, Poller}
use node_logstash.Input.Redis.{closed}
use node_logstash.Input.Redis.Laws.{calls, emissions, answers, all_taken, run-all_taken}
use node_logstash.Input.Serial.{Parsed}
use node_logstash.Output.Redis.{
  Event, connected, failed, arrived, send_queue, send_pub_sub, rpush, publish, run,
}
use node_logstash.Component.Template.{replace_by_fields}
use node_logstash.Output.Redis.Laws.{sent, behind_connection, run-behind_connection}
use node_logstash.Output.WebSocket as WebSocket
use node_logstash.Output.WebSocket.{started}
use node_logstash.Output.WebSocket.Laws as Sockets
use node_logstash.Output.WebSocket.Laws.{messages, sockets, fails, run-messages, run-fails}
use node_logstash.Tests.{plain, line}
use node_logstash.Prelude.{
  ◌≡◌, refl, true, false, Option, none, some, List, [], ◌∷◌, ◌++◌, map, ℕ, suc, ◌*◌, length, Text,
  codes,
}

abbrev as_message : Fields → Option Text
as_message d = some (codes "{}")

abbrev no_time : Text → Text
no_time s = s

abbrev events : List Event
events =
    arrived (line (codes "a")) true
    ∷ connected
    ∷ arrived (line (codes "b")) false
    ∷ failed
    ∷ arrived (line (codes "c")) true
    ∷ []

run-behind_connection_example :
    (sent (run plain no_time as_message (send_queue (str (codes "k"))) false events).1
      ≡ map
          (λ d. rpush (replace_by_fields plain no_time [] d (codes "k")).1 (as_message d))
          (behind_connection false events))
    × (sent (run plain no_time as_message (send_pub_sub (str (codes "k"))) false events).1
        ≡ map
            (λ d. publish (replace_by_fields plain no_time [] d (codes "k")).1 (as_message d))
            (behind_connection false events))
run-behind_connection_example =
    run-behind_connection plain no_time as_message (codes "k") false events

-- Every data is one message.
abbrev one_message : Text → Parsed
one_message s = (str s ∷ [], false)

abbrev before_close : List (Option Text)
before_close = some (codes "a") ∷ none ∷ []

run-all_taken_example :
    (calls
        (Redis.run one_message undefined false
          (Redis.connected ∷ answers before_close ++ (closed ∷ answers (some (codes "b") ∷ [])))).1
      ≡ suc (length before_close))
    × (emissions
          (Redis.run one_message undefined false (
            Redis.connected ∷ answers before_close ++ (closed ∷ answers (some (codes "b") ∷ [])))).1
        ≡ all_taken one_message undefined before_close
          ++ all_taken one_message undefined (some (codes "b") ∷ []))
run-all_taken_example = run-all_taken one_message undefined before_close (some (codes "b") ∷ [])

-- ?only_hostname=true
abbrev asked : Fields
asked = field (codes "only_hostname") (str (codes "true")) end

start-configured_example :
    (start (configured asked end)).only_hostname ≡ is_undefined (of_query (some (codes "true")))
unfolding get
start-configured_example = start-configured asked end (some (codes "true")) refl refl

abbrev lines : List (WebSocket.Event ℕ)
lines =
    WebSocket.arrived 7
    ∷ WebSocket.opened 0
    ∷ WebSocket.arrived 8
    ∷ WebSocket.failed 0
    ∷ WebSocket.arrived 9
    ∷ []

run-messages_example :
    Sockets.sent (WebSocket.run started lines).1 ++ (WebSocket.run started lines).0.pending
    ≡ messages lines
run-messages_example = run-messages lines

run-fails_example :
    sockets (WebSocket.run {A = ℕ} started (fails (0 ∷ 1 ∷ []))).1 ≡ 2 * length {A = ℕ} (0 ∷ 1 ∷ [])
unfolding started
run-fails_example = run-fails started (0 ∷ 1 ∷ []) refl

abbrev labels : Labels
labels = record {
  access_logs_type = undefined;
  access_logs_field_name = undefined;
  type = str (codes "gae");
}

abbrev idle : Poller
idle = record { in_progress = false; current_buffer = [] }

abbrev as_text : Text → Result Value
as_text s = ok (str s)

-- Two pieces that cut a line.
abbrev pieces : List (List ℕ)
pieces = (codes "a" ++ b'\n' ∷ codes "b") ∷ (codes "c" ++ b'\n' ∷ []) ∷ []

-- latin1
abbrev bytes : List ℕ → Text
bytes s = s
