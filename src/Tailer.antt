-- ===== src/Tailer.antt =====
-- `FdTailer` of lib/lib/monitor_file.js, which reads a file by blocks and emits its lines, and
-- `split_buffer` of lib/lib/tail_file.js.
-- `fs.read` is asynchronous: `read` returns the request that it makes, and `on_read` is its
-- callback. The decoding of a block by `Buffer.toString` is a parameter.
pub mod Lines
pub mod Chunks
pub mod Requests
pub mod Monitor
use node_logstash.Prelude.{
  Bool, true, false, ◌||◌, Option, none, some, List, [], ◌∷◌, ◌++◌, ℕ, zero, suc, ◌+◌, ltb, ◌==◌,
  if◌then◌else◌, length, take, drop, Text, index_of,
}

abbrev pub newline : ℕ
newline = 10

abbrev pub emit : Bool → Text → List Text × Text → List Text × Text
emit true line (ls, rest) = (line ∷ ls, rest)
emit false line found = found

-- The loop over `to_be_processed`: the lines that are emitted, and what is left. Empty lines are not
-- emitted. Each round removes at least the newline, so the length of the text is fuel enough.
unfoldable pub drain : ℕ → Text → List Text × Text
drain zero s = ([], s)
drain (suc fuel) s = elim (index_of (newline ∷ []) s) [
  | none ↦ ([], s)
  | some i ↦ emit (ltb 0 i) (take i s) (drain fuel (drop (i + 1) s))
]

-- `split_buffer`: what stands behind the last newline is forgotten.
unfoldable pub split_buffer : Text → List Text
unfolding drain
split_buffer s = (drain (suc (length s)) s).0

pub record FdTailer : Type 0 where
  pub fd : ℕ
  pub to_be_processed : Text
  pub current_index : ℕ
  pub is_fifo : Bool
  pub buffer_size : ℕ
  pub read_in_progress : Bool
  pub need_read_after_read : Bool
  pub last_data : Text
  pub last_data_raw_length : ℕ

unfoldable pub create : ℕ → ℕ → ℕ → Bool → FdTailer
create fd current_index buffer_size is_fifo = record {
  fd = fd;
  to_be_processed = [];
  current_index = current_index;
  is_fifo = is_fifo;
  buffer_size = buffer_size;
  read_in_progress = false;
  need_read_after_read = false;
  last_data = [];
  last_data_raw_length = 0;
}

-- The position of an `fs.read`: `none` is -1, the current place of a pipe.
pub data Request : Type 0 where
  read_at : Option ℕ → Request

unfoldable pub read : FdTailer → FdTailer × Option Request
read t =
    if t.fd == 0
    then (t, none)
    else if t.read_in_progress
    then (record t { need_read_after_read = true }, none)
    else (
      record t { read_in_progress = true; need_read_after_read = false },
      some (read_at (if t.is_fifo then none else some t.current_index)),
    )

-- What `fs.read` hands to its callback.
pub data Outcome : Type 0 where
  failed : Outcome
  block : List ℕ → Outcome

-- What the callback does besides changing the state.
pub record Effects : Type 0 where
  pub lines : List Text
  -- `callback_nothing_read` is called.
  pub nothing_read : Bool
  -- Another `read` is scheduled.
  pub read_again : Bool

abbrev pub no_effects : Effects
no_effects = record { lines = []; nothing_read = false; read_again = false }

module _ (decode : List ℕ → Text) where
  -- `handle`: the new state, and the lines that are emitted.
  unfoldable pub handle : FdTailer → List ℕ → FdTailer × List Text
  unfolding drain
  handle t bytes =
      let s = t.to_be_processed ++ decode bytes in
      let found = drain (suc (length s)) s in
      (
        record t {
          last_data_raw_length = length bytes;
          last_data = decode bytes;
          to_be_processed = found.1;
        },
        found.0,
      )

  -- The callback of `fs.read`; `has_callback` tells whether `read` was given one.
  unfoldable pub on_read : Bool → FdTailer → Outcome → FdTailer × Effects
  unfolding handle
  on_read has_callback t failed = (record t { read_in_progress = false }, no_effects)
  on_read has_callback t (block []) = (
    record t { read_in_progress = false },
    record { lines = []; nothing_read = has_callback; read_again = false },
  )
  on_read has_callback t (block (b ∷ bs)) =
      let n = length (b ∷ bs) in
      let moved = record t { read_in_progress = false; current_index = t.current_index + n } in
      let (t', lines) = handle moved (b ∷ bs) in
      (
        t',
        record {
          lines = lines;
          nothing_read = false;
          read_again = n == t.buffer_size || t'.need_read_after_read;
        },
      )
