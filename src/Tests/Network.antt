-- ===== src/Tests/Network.antt =====
-- Monitored files and the outputs on the network on concrete inputs.
use node_logstash.Js.Value.{Fields}
use node_logstash.Js.Number.{nat, num_lt, num_ge}
use node_logstash.Output.ElasticSearch
use node_logstash.Output.ElasticSearch.{Config, empty_bulk, fill0}
use node_logstash.Output.ElasticSearch.Laws.{
  entries_of, zeros, payloads, entries, fill0_lem, run-entries,
}
use node_logstash.Output.Tcp
use node_logstash.Output.Tcp.{initial}
use node_logstash.Output.Tcp.Laws.{written, messages_of, held_back, run-messages_of}
use node_logstash.Tailer.Monitor.{Context, of_start, create, on_stat}
use node_logstash.Tailer.Monitor.Watch.{on_directory}
use node_logstash.Tailer.Monitor.Balance.{runs}
use node_logstash.Tailer.Monitor.Opens.{World, here, next, restarted, watched, after, one_opening}
use node_logstash.Output.ZeroMq
use node_logstash.Output.ZeroMq.Laws
use node_logstash.Output.ZeroMq.Laws.{follow, sent, raised, run-raised}
use node_logstash.Driver.Amqp
use node_logstash.Driver.Amqp.{answered, fired, lost_fired, disconnected, channel_made, started}
use node_logstash.Driver.Amqp.Laws.{under_way, one_under_way}
use node_logstash.Tests.{line}
use node_logstash.Prelude.{
  ◌≡◌, refl, false, none, some, List, [], ◌∷◌, ◌++◌, ◌≤◌, leb, if◌then◌else◌, length, Text, codes,
}

-- A file is opened, and renamed while it is.
abbrev opening : World
opening = after 0 (node_logstash.Tailer.Monitor.restart none of_start (create none))

abbrev both : World
both = after opening.in_flight (on_directory (codes "f") (codes "rename") (codes "f") opening.file)

one_opening_example : both.in_flight ≤ runs both.file.open_in_progress
one_opening_example = one_opening none {w = both} (
    next (next here (restarted (record { file = create none; in_flight = 0 }) none of_start))
      (watched opening (codes "f") (codes "rename") (codes "f")))

abbrev first_try : Context
first_try = record { start_index = none; final = of_start; called = false }

-- After the failure the file is renamed.
abbrev failed : World
failed = after 0 (on_stat first_try none opening.file)

fill0_lem_example : fill0 (codes "7") 2 ≡ (if leb 1 2 then some (zeros 1 ++ codes "7") else none)
fill0_lem_example = fill0_lem (codes "7") 2

abbrev bulk : Config
bulk = record {
  bulk_limit = nat 2;
  bulk_timeout = nat 1000;
  index_name = codes "logs";
  index_prefix = [];
  data_type = codes "line";
}

abbrev three_lines : List (ElasticSearch.Event (λ d. codes "json"))
three_lines =
    ElasticSearch.message 1 (codes "/logs/line/") (line (codes "a"))
    ∷ ElasticSearch.message 2 (codes "/logs/line/") (line (codes "b"))
    ∷ ElasticSearch.interval 9000
    ∷ ElasticSearch.message 9001 (codes "/logs/line/") (line (codes "c"))
    ∷ []

run-entries_example :
    (payloads (ElasticSearch.run (λ d. codes "json") bulk three_lines empty_bulk).1
        ++ (ElasticSearch.run (λ d. codes "json") bulk three_lines empty_bulk).0.bulk_data
      ≡ entries (λ d. codes "json") three_lines)
    × ((held : List (Text × Fields)) × ((ElasticSearch.run
            (λ d. codes "json")
            bulk
            three_lines
            empty_bulk).0.bulk_data
          ≡ entries_of (λ d. codes "json") held)
        × (num_ge (nat (length held)) bulk.bulk_limit ≡ false))
unfolding num_ge num_lt
run-entries_example = run-entries (λ d. codes "json") bulk three_lines refl refl

abbrev two_messages : List Tcp.Event
two_messages =
    Tcp.message (codes "a")
    ∷ Tcp.message (codes "b")
    ∷ Tcp.connected 0
    ∷ Tcp.message (codes "c")
    ∷ []

run-messages_of_example :
    written (Tcp.run initial two_messages).1 ++ held_back (Tcp.run initial two_messages).0
    ≡ messages_of two_messages
run-messages_of_example = run-messages_of two_messages refl

abbrev thresholds : ZeroMq.Config
thresholds = record { zmq_threshold_up = some (nat 10); zmq_threshold_down = some (nat 5) }

abbrev queue : List ZeroMq.Event
queue =
    ZeroMq.message (codes "a") 3
    ∷ ZeroMq.message (codes "b") 11
    ∷ ZeroMq.interval 7
    ∷ ZeroMq.interval 4
    ∷ []

run-raised_example :
    (follow false (ZeroMq.run thresholds false queue).1 ≡ some (raised thresholds queue))
    × (sent (ZeroMq.run thresholds false queue).1 ≡ ZeroMq.Laws.messages_of queue)
run-raised_example = run-raised thresholds queue

abbrev lost_once : List Amqp.Event
lost_once =
    answered none
    ∷ fired
    ∷ answered (some (1, 2))
    ∷ channel_made (some 2)
    ∷ disconnected
    ∷ lost_fired
    ∷ []

one_under_way_example : under_way (Amqp.run started lost_once).0 ≤ 1
one_under_way_example = one_under_way lost_once
