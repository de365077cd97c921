-- ===== src/Tailer/Monitor.antt =====
-- `MonitoredFile` of lib/lib/monitor_file.js: which file descriptor is read, and when the file is
-- opened again. Each callback of `fs` and each event of the directory is an event of one step
-- function; what the program asks for is an effect. A tailer is known by a number here.
pub mod Balance
pub mod Opens
pub mod Watch
use node_logstash.Js.Value.{Error, message, type_error, Result, ok, throw}
use node_logstash.Prelude.{
  Bool, true, false, ◌&&◌, Option, none, some, List, [], ◌∷◌, ◌++◌, ℕ, ◌+◌, ltb, leb, ◌==◌,
  if◌then◌else◌, length, Text, codes,
}

-- `file_status[filename]`, and what `fs.stat` tells.
pub record Status : Type 0 where
  pub last_data : Text
  pub index : ℕ

pub record Stats : Type 0 where
  pub ino : ℕ
  pub size : ℕ
  pub is_fifo : Bool

-- `final_callback` of `restart`: none, that of `start`, or the function that `renamed` passes, with
-- the inode before and the tailer that is to be closed.
pub data Final : Type 0 where
  no_callback : Final
  of_start : Final
  of_rename : Option ℕ → ℕ → Final

-- The variables of one `restart` that its callbacks see.
pub record Context : Type 0 where
  pub start_index : Option ℕ
  pub final : Final
  pub called : Bool

pub record MonitoredFile : Type 0 where
  pub fd_tailer : Option ℕ
  pub old_fd_tailers : List ℕ
  pub open_in_progress : Bool
  pub need_open_after_open : Bool
  pub need_open_after_open_start_index : Option ℕ
  pub last_open_failed : Bool
  pub current_ino : Option ℕ
  pub status : Option Status
  -- The number of the next tailer.
  pub next : ℕ

unfoldable pub create : Option Status → MonitoredFile
create status = record {
  fd_tailer = none;
  old_fd_tailers = [];
  open_in_progress = false;
  need_open_after_open = false;
  need_open_after_open_start_index = none;
  last_open_failed = false;
  current_ino = none;
  status = status;
  next = 0;
}

pub data Effect : Type 0 where
  -- `fs.exists`, `fs.stat` and `fs.open` for one `restart`
  ask_exists : Context → Effect
  ask_stat : Context → Effect
  ask_open : Context → Stats → Effect
  -- `fs.read` of the data that stand before the saved index, which are to be compared
  ask_last_data : Context → Stats → ℕ → Status → Effect
  -- `new FdTailer`: its number, descriptor, index, and whether it is a pipe
  new_tailer : ℕ → ℕ → ℕ → Bool → Effect
  -- `read` of a tailer, and whether it is to tell that nothing was read
  read_tailer : ℕ → Bool → Effect
  close_tailer : ℕ → Effect
  -- `setTimeout` for the closing of a tailer, and its `clearTimeout`
  set_timer : ℕ → Effect
  clear_timer : ℕ → Effect
  -- `fs.read` of the last data of a tailer, which are to be compared
  ask_unchanged : ℕ → Effect
  started : Option Error → Effect
  emit_error : Error → Effect

abbrev busy : Error
busy = message (codes "Open already in progress")

abbrev same_ino : Option ℕ → Option ℕ → Bool
same_ino none none = true
same_ino (some a) (some b) = a == b
same_ino a b = false

-- `splice` of the tailer out of the old ones
unfoldable pub drop_old : ℕ → List ℕ → List ℕ
drop_old k [] = []
drop_old k (j ∷ js) = if j == k then drop_old k js else j ∷ drop_old k js

-- `close_func`
unfoldable pub close_old : ℕ → MonitoredFile → MonitoredFile × List Effect
unfolding drop_old
close_old k m = (record m { old_fd_tailers = drop_old k m.old_fd_tailers }, close_tailer k ∷ [])

-- A final callback, called.
abbrev run_final : Final → Option Error → MonitoredFile → MonitoredFile × List Effect
run_final no_callback err m = (m, [])
run_final of_start err m = (m, started err ∷ [])
run_final (of_rename old_ino k) (some e) m = (m, [])
run_final (of_rename old_ino k) none m =
    if same_ino m.current_ino old_ino
    then ((close_old k m).0, clear_timer k ∷ (close_old k m).1)
    else (m, [])

abbrev reported : Option Error → List Effect
reported none = []
reported (some e) = emit_error e ∷ []

-- `callback` of `restart`: without a final callback an error is emitted.
unfoldable pub finish : Context → Option Error → MonitoredFile → MonitoredFile × List Effect
unfolding close_old
finish ctx err m = elim ctx.final [
  | no_callback ↦ (m, reported err)
  | f ↦ if ctx.called then (m, []) else run_final f err m
]

abbrev close_current : Option ℕ → List Effect
close_current none = []
close_current (some k) = close_tailer k ∷ []

-- `restart`, up to its first call of `fs`.
unfoldable pub restart : Option ℕ → Final → MonitoredFile → MonitoredFile × List Effect
restart start_index final m =
    if m.open_in_progress
    then (
      record m {
        fd_tailer = none;
        need_open_after_open = true;
        need_open_after_open_start_index = start_index;
      },
      close_current m.fd_tailer ++ (run_final final (some busy) m).1,
    )
    else (
      record m {
        fd_tailer = none;
        open_in_progress = true;
        need_open_after_open = false;
        last_open_failed = false;
        current_ino = none;
      },
      close_current m.fd_tailer
          ++ ask_exists (record { start_index = start_index; final = final; called = false }) ∷ [],
    )

abbrev then_finish :
    Context → Option Error → MonitoredFile × List Effect → MonitoredFile × List Effect
then_finish ctx err (m, effects) = ((finish ctx err m).0, effects ++ (finish ctx err m).1)

-- The callback of `fs.exists`.
unfoldable pub on_exists : Context → Bool → MonitoredFile → MonitoredFile × List Effect
unfolding restart finish
on_exists ctx true m = (m, ask_stat ctx ∷ [])
on_exists ctx false m =
    let closed = record m { open_in_progress = false } in
    then_finish ctx none (
      if m.need_open_after_open
      then restart m.need_open_after_open_start_index no_callback closed
      else (closed, []))

-- The callback of `fs.stat`. A pipe calls back at once; what is done later calls back in vain.
unfoldable pub on_stat : Context → Option Stats → MonitoredFile → MonitoredFile × List Effect
unfolding finish
on_stat ctx none m = finish ctx (some (message (codes "stat"))) m
on_stat ctx (some s) m =
    if s.is_fifo
    then (
      record (finish ctx none m).0 { current_ino = some s.ino },
      (finish ctx none m).1 ++ ask_open (record ctx { called = true }) s ∷ [],
    )
    else (record m { current_ino = some s.ino }, ask_open ctx s ∷ [])

-- `new FdTailer` at an index, its first `read` where there is one, and the callback.
unfoldable pub begin_tailer :
    Context → Stats → ℕ → ℕ → Bool → MonitoredFile → MonitoredFile × List Effect
unfolding finish
begin_tailer ctx s fd index reads m = then_finish ctx none (
  record m { fd_tailer = some m.next; next = m.next + 1 },
  new_tailer m.next fd index s.is_fifo ∷ (if reads then read_tailer m.next false ∷ [] else []),
)

-- A saved status counts where it has data and an index that is not 0.
abbrev usable : Option Status → Option Status
usable none = none
usable (some st) = if ltb 0 (length st.last_data) && ltb 0 st.index then some st else none

-- The callback of `fs.open`.
unfoldable pub on_open : Context → Stats → Option ℕ → MonitoredFile → MonitoredFile × List Effect
unfolding begin_tailer
on_open ctx s none m =
    finish ctx (some (message (codes "open")))
      (record m { open_in_progress = false; last_open_failed = true })
on_open ctx s (some fd) m =
    let opened = record m { open_in_progress = false } in
    elim (usable m.status) [
      | some st ↦
          if leb (length st.last_data) st.index && ltb (length st.last_data) s.size
          then (opened, ask_last_data ctx s fd st ∷ [])
          else begin_tailer ctx s fd s.size true opened
      | none ↦ elim ctx.start_index [
        | none ↦ begin_tailer ctx s fd s.size false opened
        | some i ↦ begin_tailer ctx s fd i true opened
      ]
    ]

-- The callback of the comparison: `none` is an error. The index is read from the status anew.
unfoldable pub on_last_data :
    Context → Stats → ℕ → Option Bool → MonitoredFile → Result (MonitoredFile × List Effect)
unfolding begin_tailer
on_last_data ctx s fd none m = ok (finish ctx (some (message (codes "read"))) m)
on_last_data ctx s fd (some false) m = ok (begin_tailer ctx s fd s.size true m)
on_last_data ctx s fd (some true) m = elim m.status [
  | none ↦ throw type_error
  | some st ↦ ok (begin_tailer ctx s fd st.index true m)
]

-- The handler of `renamed`.
unfoldable pub on_renamed : MonitoredFile → MonitoredFile × List Effect
unfolding restart
on_renamed m = elim m.fd_tailer [
  | none ↦ restart (some 0) no_callback m
  | some k ↦
      let kept = record m {
        old_fd_tailers = m.old_fd_tailers ++ k ∷ [];
        fd_tailer = none;
        status = none;
      } in
      let r = restart (some 0) (of_rename m.current_ino k) kept in (r.0, set_timer k ∷ r.1)
]

-- The handler of `changed`.
unfoldable pub on_changed : MonitoredFile → MonitoredFile × List Effect
unfolding restart
on_changed m = elim m.fd_tailer [
  | some k ↦ (m, read_tailer k true ∷ [])
  | none ↦ if m.last_open_failed then restart (some 0) no_callback m else (m, [])
]

abbrev pub read_all : List ℕ → List Effect
read_all [] = []
read_all (k ∷ ks) = read_tailer k false ∷ read_all ks

-- What `changed` gives to `read`: it is called where nothing was read, and looks at the data that
-- the current tailer has read last.
unfoldable pub on_nothing_read : Text → MonitoredFile → Result (MonitoredFile × List Effect)
on_nothing_read last_data m = elim m.fd_tailer [
  | none ↦ throw type_error
  | some k ↦ if ltb 0 (length last_data) then ok (m, ask_unchanged k ∷ []) else ok (m, [])
]

-- The answer to its comparison.
unfoldable pub on_unchanged : Option Bool → MonitoredFile → MonitoredFile × List Effect
unfolding restart
on_unchanged none m = (m, emit_error (message (codes "read")) ∷ [])
on_unchanged (some true) m = (m, [])
on_unchanged (some false) m = restart (some 0) no_callback m
