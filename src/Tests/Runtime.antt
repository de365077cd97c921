-- ===== src/Tests/Runtime.antt =====
-- The agent, the tailing of files and the writing of files on concrete inputs.
use node_logstash.Js.Value.{Error, Result, ok, throw}
use node_logstash.Js.Object.{get}
use node_logstash.Url.{extract_protocol}
use node_logstash.ErrorBuffer.{error, fine, init, run}
use node_logstash.ErrorBuffer.Laws.{Working, run-Working}
use node_logstash.Agent.Alarm.{Alarms, alarm, closed, step}
use node_logstash.Agent.Alarm.Laws.{settled_run, IsSettled, settled_run-IsSettled, alarm_race}
use node_logstash.Agent.Pipeline.{start_filters, emit}
use node_logstash.Agent.Pipeline.Laws.{through, emit-start_filters}
use node_logstash.Agent.Close.{Agent}
use node_logstash.Agent.Start.{Modules, sort_urls, Kind}
use node_logstash.Agent.Start.Laws.{of_protocol, sort_urls-of_protocol}
use node_logstash.Filter.Multiline
use node_logstash.Filter.Multiline.{arrival, Storage, Sent}
use node_logstash.Filter.Multiline.Laws.{new_lines, sent_lines, kept_lines, run-sent_lines}
use node_logstash.Output.File
use node_logstash.Output.File.{new_writer, path_created, opened, write, FileWriter, Effect}
use node_logstash.Output.File.Laws.{streamed, waiting, accepted, run-accepted}
use node_logstash.Output.Files.{OutputFile}
use node_logstash.Tailer.{FdTailer, newline, create}
use node_logstash.Tailer.Lines.{lines_of}
use node_logstash.Tailer.Chunks.{concat, read_blocks, IsAdditive, read_blocks-lines_of}
use node_logstash.Tailer.Requests.{World, launch, here, next, change, one_read_in_flight}
use node_logstash.Tests.{line}
use node_logstash.Prelude.{
  ◌≡◌, refl, ◌↔◌, Bool, true, false, Option, none, some, List, [], ◌∷◌, ◌++◌, arith, ℕ, ◌+◌, ◌≤◌,
  ◌==◌, if◌then◌else◌, length, Text, codes, starts_with,
}

abbrev outage : List node_logstash.ErrorBuffer.Event
outage = error 10 ∷ error 20 ∷ error 200 ∷ fine ∷ []

run-Working_example : Working 100 (run 100 init outage).1
run-Working_example = run-Working 100 outage

-- Running inputs.
abbrev running : Alarms
running = record { raised = 0; lowered = 0; closed_inputs = some false; closing = 0; starting = 0 }

running-IsSettled : IsSettled running
running-IsSettled = record {
  no_closing = refl;
  no_starting = refl;
  counted = omega arith;
  in_step = refl;
}

settled_run-IsSettled_example : IsSettled (settled_run running (true ∷ true ∷ false ∷ []))
settled_run-IsSettled_example =
    settled_run-IsSettled running (true ∷ true ∷ false ∷ []) running-IsSettled (ground arith)

alarm_race_example :
    (let b = (step (step (step running (alarm true)).0 (alarm false)).0 closed).0 in
      (b.closed_inputs ≡ some true) × (b.raised ≡ b.lowered) × (b.closing ≡ 0) × (b.starting ≡ 0))
alarm_race_example = alarm_race running running-IsSettled refl

-- The first filter doubles a message, the second numbers it.
abbrev filters : ℕ → ℕ → List ℕ
filters n a = if n == 1 then a ∷ a ∷ [] else (a + 1) ∷ []

emit-start_filters_example : emit filters 3 (start_filters 2) 0 7 ≡ through filters 2 0 7
emit-start_filters_example = emit-start_filters filters 2 7

abbrev urls : List Text
urls = codes "output://file:///tmp/a" ∷ codes "input://stdin://" ∷ codes "filter://split://" ∷ []

abbrev sorted : Modules
sorted = record {
  inputs = codes "stdin://" ∷ [];
  filters = codes "split://" ∷ [];
  outputs = codes "file:///tmp/a" ∷ [];
}

sort_urls-of_protocol_example :
    (sorted.inputs ≡ of_protocol (codes "input") urls)
    × (sorted.filters ≡ of_protocol (codes "filter") urls)
    × (sorted.outputs ≡ of_protocol (codes "output") urls)
unfolding sort_urls extract_protocol
sort_urls-of_protocol_example = sort_urls-of_protocol urls sorted refl

abbrev configured : Kind → Text → Option Error
configured Kind.filter u = some (Error.message (codes "no delimiter"))
configured k u = none

abbrev starts_line : Text → Bool
starts_line s = starts_with (codes "2014") s

abbrev stack_trace : List Multiline.Event
stack_trace =
    arrival 1 (line (codes "2014 error"))
    ∷ arrival 2 (line (codes " at f"))
    ∷ arrival 3 (line (codes "2014 fine"))
    ∷ []

abbrev outcome : Result (Storage × List Sent)
outcome = Multiline.run (λ d. d) (λ d. codes "key") starts_line 50 stack_trace []

abbrev stored : Result (Storage × List Sent) → Storage
stored (ok (s, sent)) = s
stored (throw e) = []

abbrev sent_by : Result (Storage × List Sent) → List Sent
sent_by (ok (s, sent)) = sent
sent_by (throw e) = []

run-sent_lines_example :
    new_lines (λ d. d) (λ d. codes "key") starts_line 50 (codes "key") stack_trace
    ≡ sent_lines (codes "key") (sent_by outcome) ++ kept_lines (codes "key") (stored outcome)
unfolding Multiline.run get
run-sent_lines_example =
    run-sent_lines (λ d. d) (λ d. codes "key") starts_line 50 stack_trace (stored outcome)
      (sent_by outcome) (codes "key") refl

abbrev written : List File.Event
written =
    write 1 (codes "a") ∷ path_created ∷ write 2 (codes "b") ∷ opened ∷ write 3 (codes "c") ∷ []

run-accepted_example :
    (w : FileWriter) × (effects : List Effect) × (File.run 300 new_writer written ≡ ok (w, effects))
    × (streamed effects ++ waiting w.wait_queue ≡ accepted false written)
run-accepted_example = run-accepted 300 written (omega arith)

-- One byte is one code unit.
abbrev latin1 : List ℕ → Text
latin1 bytes = bytes

latin1-IsAdditive : IsAdditive latin1
latin1-IsAdditive = record { of_nothing = refl; of_append = λ a b. refl }

abbrev blocks : List (List ℕ)
blocks = (codes "one" ++ (newline ∷ codes "tw")) ∷ (codes "o" ++ (newline ∷ [])) ∷ []

abbrev tailer : FdTailer
tailer = create 3 0 1024 false

read_blocks-lines_of_example :
    ((read_blocks latin1 tailer blocks).1
      ≡ (lines_of [] (tailer.to_be_processed ++ latin1 (concat blocks))).0)
    × ((read_blocks latin1 tailer blocks).0.to_be_processed
        ≡ (lines_of [] (tailer.to_be_processed ++ latin1 (concat blocks))).1)
    × ((read_blocks latin1 tailer blocks).0.current_index
        ≡ tailer.current_index + length (concat blocks))
unfolding lines_of create
read_blocks-lines_of_example =
    read_blocks-lines_of latin1 tailer blocks latin1-IsAdditive (record { unfinished = refl })

abbrev fresh : World
fresh = record { tailer = create 3 0 1024 false; in_flight = 0; scheduled = 0 }

one_read_in_flight_example :
    ((launch (launch fresh)).in_flight ≤ 1)
    × (((launch (launch fresh)).tailer.read_in_progress ≡ true)
        ↔ ((launch (launch fresh)).in_flight ≡ 1))
one_read_in_flight_example =
    one_read_in_flight latin1 3 0 1024 false {w = launch (launch fresh)}
      (next (next here (change fresh)) (change (launch fresh)))

-- One input runs; the second one did not start.
abbrev agent : Agent
agent = record {
  inputs =
      record { url = codes "stdin://"; is_loaded = true }
      ∷ record { url = codes "tcp://"; is_loaded = false }
      ∷ [];
  filters = record { url = codes "split://"; is_loaded = true } ∷ [];
  outputs = record { url = codes "stdout://"; is_loaded = true } ∷ [];
  closed_inputs = some false;
}

-- One file is open.
abbrev files : OutputFile
files = record { writers = (codes "a.txt", 0) ∷ []; next = 1 }

two_sevens : emit filters 3 (start_filters 2) 0 7 ≡ 8 ∷ 8 ∷ []
unfolding emit start_filters
two_sevens = refl
