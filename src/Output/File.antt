-- ===== src/Output/File.antt =====
-- `FileWriter` of lib/outputs/output_file.js, one file that is open for appending. The directory is
-- made, then the stream is opened; both report back later, and what is written meanwhile waits.
pub mod Laws
use node_logstash.Js.Value.{Result, ok, throw, type_error, ◌>>=◌}
use node_logstash.Prelude.{
  Bool, true, false, Option, none, some, List, [], ◌∷◌, ◌++◌, ℕ, ◌+◌, ltb, if◌then◌else◌, Text,
}

pub record FileWriter : Type 0 where
  pub on_error : Bool
  -- `none` after `delete this.wait_queue`
  pub wait_queue : Option (List Text)
  -- `this.stream` is set.
  pub stream : Bool
  -- `this.suicide_timeout` is set.
  pub suicide_timeout : Bool
  -- `this.idle_check_interval` is set.
  pub idle_check_interval : Bool
  pub last_write : Option ℕ

abbrev pub new_writer : FileWriter
new_writer = record {
  on_error = false;
  wait_queue = some [];
  stream = false;
  suicide_timeout = false;
  idle_check_interval = false;
  last_write = none;
}

pub data Event : Type 0 where
  -- `createPath` calls back, with an error or without.
  path_failed path_created : Event
  -- The stream emits `open` or `error`.
  opened stream_failed : Event
  -- The timer of `setTimeout` fires.
  retry : Event
  -- The timer of `setInterval` fires, at a time.
  idle_check : ℕ → Event
  -- `write`, at a time.
  write : ℕ → Text → Event
  -- `end`, called by the output.
  end : Event

pub data Effect : Type 0 where
  create_stream : Effect
  stream_write : Text → Effect
  stream_end : Effect
  emit_error : Effect
  start_timeout : Effect
  start_interval : Effect
  -- `delete_callback`: the output forgets the writer.
  forget : Effect

-- `end`
unfoldable pub close : FileWriter → FileWriter × List Effect
close w = (
  record w { suicide_timeout = false; idle_check_interval = false },
  if w.stream then stream_end ∷ [] else [],
)

abbrev suicide : FileWriter → FileWriter × List Effect
suicide w = let (w', effects) = close w in (w', forget ∷ effects)

abbrev writes : List Text → List Effect
writes [] = []
writes (b ∷ bs) = stream_write b ∷ writes bs

-- The handler of `open`, which loops over the queue.
abbrev on_open : FileWriter → Option (List Text) → Result (FileWriter × List Effect)
on_open w none = throw type_error
on_open w (some queue) = ok (record w { wait_queue = none; stream = true }, writes queue)

abbrev push : Text → Option (List Text) → Result (List Text)
push b none = throw type_error
push b (some queue) = ok (queue ++ b ∷ [])

-- No write yet, or one that is not older than the timeout.
abbrev is_idle : ℕ → ℕ → Option ℕ → Bool
is_idle idle_timeout now none = false
is_idle idle_timeout now (some last) = ltb (last + idle_timeout) now

-- Everything that happens to a writer. `idle_timeout` is that of the configuration.
unfoldable pub step : ℕ → FileWriter → Event → Result (FileWriter × List Effect)
unfolding close
step idle_timeout w path_failed = ok (record w { on_error = true }, emit_error ∷ [])
step idle_timeout w path_created =
    if ltb 0 idle_timeout
    then ok (record w { idle_check_interval = true }, create_stream ∷ start_interval ∷ [])
    else ok (w, create_stream ∷ [])
step idle_timeout w opened = on_open w w.wait_queue
step idle_timeout w stream_failed =
    if w.suicide_timeout
    then ok (record w { on_error = true }, emit_error ∷ [])
    else ok (record w { on_error = true; suicide_timeout = true }, emit_error ∷ start_timeout ∷ [])
step idle_timeout w retry = ok (suicide (record w { suicide_timeout = false }))
step idle_timeout w (idle_check now) =
    if is_idle idle_timeout now w.last_write then ok (suicide w) else ok (w, [])
step idle_timeout w (write now b) =
    if w.on_error
    then ok (w, [])
    else if w.stream
    then ok (record w { last_write = some now }, stream_write b ∷ [])
    else push b w.wait_queue >>= λ queue.
        ok (record w { last_write = some now; wait_queue = some queue }, [])
step idle_timeout w end = ok (close w)

unfoldable pub run : ℕ → FileWriter → List Event → Result (FileWriter × List Effect)
unfolding step
run idle_timeout w [] = ok (w, [])
run idle_timeout w (e ∷ es) = step idle_timeout w e >>= λ (w', effects).
    run idle_timeout w' es >>= λ (w'', later). ok (w'', effects ++ later)
