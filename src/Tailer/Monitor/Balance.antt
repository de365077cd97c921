-- ===== src/Tailer/Monitor/Balance.antt =====
-- How each function of a monitored file changes `open_in_progress` and what it asks `fs` for.
use node_logstash.Js.Value.{Error, message, ok}
use node_logstash.Tailer.Monitor.{
  Stats, Final, no_callback, of_start, of_rename, Context, MonitoredFile, Effect, ask_exists,
  ask_stat, ask_open, read_all, read_tailer, close_old, finish, restart, on_exists, on_stat,
  on_open, on_last_data, on_renamed, on_changed, on_nothing_read, on_unchanged, begin_tailer,
  usable, close_current, run_final, then_finish, busy,
}
use node_logstash.Tailer.Monitor.Watch.{on_other_changed, on_directory}
use node_logstash.Prelude.{
  ◌≡◌, refl, inl, inr, Bool, true, false, Option, none, some, List, [], ◌∷◌, ◌++◌, arith, ℕ, ◌+◌,
  ◌≤◌, if◌then◌else◌, Bool-cases, Option-cases, Text, codes,
}

-- How many of the effects ask for a step of an opening.
abbrev pub asks_one : Effect → ℕ
asks_one (ask_exists c) = 1
asks_one (ask_stat c) = 1
asks_one (ask_open c s) = 1
asks_one e = 0

abbrev pub asks : List Effect → ℕ
asks [] = 0
asks (e ∷ es) = asks_one e + asks es

abbrev pub runs : Bool → ℕ
runs true = 1
runs false = 0

pub asks-append : (a b : List Effect) → asks (a ++ b) ≡ asks a + asks b
asks-append [] b = omega arith
asks-append (e ∷ a) b = omega (arith, asks-append a b)

-- A change that asks for nothing and leaves `open_in_progress` alone.
pub record Quiet (m : MonitoredFile) (r : MonitoredFile × List Effect) : Type 0 where
  pub same : r.0.open_in_progress ≡ m.open_in_progress
  pub silent : asks r.1 ≡ 0

pub run_final-Quiet : (f : Final) (e : Option Error) (m : MonitoredFile) → Quiet m (run_final f e m)
unfolding close_old
run_final-Quiet no_callback e m = ground arith
run_final-Quiet of_start e m = ground arith
run_final-Quiet (of_rename i k) (some e) m = ground arith
run_final-Quiet (of_rename i k) none m = ground arith

pub finish-Quiet : (c : Context) (e : Option Error) (m : MonitoredFile) → Quiet m (finish c e m)
unfolding finish
finish-Quiet c e m = let q = run_final-Quiet c.final e m in ground arith

pub restart-asks :
    (i : Option ℕ) (f : Final) (m : MonitoredFile)
    → ((restart i f m).0.open_in_progress ≡ true)
      × (asks (restart i f m).1 + runs m.open_in_progress ≡ 1)
unfolding restart
restart-asks i f m =
    let q = run_final-Quiet f (some busy) m in
    ground (
      arith,
      asks-append (close_current m.fd_tailer) (run_final f (some busy) m).1,
      asks-append (close_current m.fd_tailer)
          (ask_exists (record { start_index = i; final = f; called = false }) ∷ []),
    )

pub begin_tailer-Quiet :
    (c : Context) (s : Stats) (fd i : ℕ) (b : Bool) (m : MonitoredFile)
    → Quiet m (begin_tailer c s fd i b m)
unfolding begin_tailer
begin_tailer-Quiet c s fd i b m =
    let m' : MonitoredFile = record m { fd_tailer = some m.next; next = m.next + 1 } in
    let q = finish-Quiet c none m' in
    ground
      (arith, asks-append (if b then read_tailer m.next false ∷ [] else []) (finish c none m').1)

-- What is asked for is what `open_in_progress` gains.
abbrev pub Balanced : MonitoredFile → MonitoredFile × List Effect → Type 0
Balanced m r = asks r.1 + runs m.open_in_progress ≡ runs r.0.open_in_progress

pub restart-Balanced : (i : Option ℕ) (f : Final) (m : MonitoredFile) → Balanced m (restart i f m)
restart-Balanced i f m = ground (arith, restart-asks i f m)

pub then_finish-Balanced :
    (c : Context) (e : Option Error) (m : MonitoredFile) (r : MonitoredFile × List Effect)
    → Balanced m r
    → Balanced m (then_finish c e r)
then_finish-Balanced c e m (m', effects) h =
    let q = finish-Quiet c e m' in ground (arith, asks-append effects (finish c e m').1)

pub on_renamed-Balanced : (m : MonitoredFile) → Balanced m (on_renamed m)
unfolding on_renamed
on_renamed-Balanced m = elim (Option-cases m.fd_tailer) [
  | inl e ↦ ground (arith, restart-Balanced (some 0) no_callback m)
  | inr (k, e) ↦
      let kept : MonitoredFile = record m {
        old_fd_tailers = m.old_fd_tailers ++ k ∷ [];
        fd_tailer = none;
        status = none;
      } in
      ground (arith, restart-Balanced (some 0) (of_rename m.current_ino k) kept)
]

pub close_old-Balanced : (k : ℕ) (m : MonitoredFile) → Balanced m (close_old k m)
unfolding close_old
close_old-Balanced k m = ground arith

pub on_changed-Balanced : (m : MonitoredFile) → Balanced m (on_changed m)
unfolding on_changed
on_changed-Balanced m = ground (arith, restart-Balanced (some 0) no_callback m)

asks-read_all : (ks : List ℕ) → asks (read_all ks) ≡ 0
asks-read_all [] = refl
asks-read_all (k ∷ ks) = ground (arith, asks-read_all ks)

pub on_directory-Balanced :
    (basename event filename : Text) (m : MonitoredFile)
    → Balanced m (on_directory basename event filename m)
unfolding on_directory on_other_changed
on_directory-Balanced basename event filename m =
    ground (arith, on_renamed-Balanced m, on_changed-Balanced m, asks-read_all m.old_fd_tailers)

pub on_unchanged-Balanced : (b : Option Bool) (m : MonitoredFile) → Balanced m (on_unchanged b m)
unfolding on_unchanged
on_unchanged-Balanced b m = ground (arith, restart-Balanced (some 0) no_callback m)

pub on_nothing_read-Balanced :
    (d : Text) (m : MonitoredFile) (r : MonitoredFile × List Effect)
    → on_nothing_read d m ≡ ok r
    → Balanced m r
unfolding on_nothing_read
on_nothing_read-Balanced d m r h = ground arith

pub on_last_data-Balanced :
    (c : Context) (s : Stats) (fd : ℕ) (b : Option Bool) (m : MonitoredFile)
    (r : MonitoredFile × List Effect)
    → on_last_data c s fd b m ≡ ok r
    → Balanced m r
unfolding on_last_data
on_last_data-Balanced c s fd none m r h =
    ground (arith, finish-Quiet c (some (message (codes "read"))) m)
on_last_data-Balanced c s fd (some false) m r h =
    ground (arith, begin_tailer-Quiet c s fd s.size true m)
on_last_data-Balanced c s fd (some true) m r h = elim (Option-cases m.status) [
  | inl e ↦ ground arith
  | inr (st, e) ↦ ground (arith, begin_tailer-Quiet c s fd st.index true m)
]

-- The answer to an opening, which is the only one in flight.
abbrev pub Answered : MonitoredFile → MonitoredFile × List Effect → Type 0
Answered m r = m.open_in_progress ≡ true → asks r.1 ≤ runs r.0.open_in_progress

pub on_exists-Answered : (c : Context) (b : Bool) (m : MonitoredFile) → Answered m (on_exists c b m)
unfolding on_exists
on_exists-Answered c true m h = ground arith
on_exists-Answered c false m h =
    let closed : MonitoredFile = record m { open_in_progress = false } in
    let i = m.need_open_after_open_start_index in
    elim (Bool-cases m.need_open_after_open) [
      | inl e ↦ ground (
        arith,
        then_finish-Balanced c none closed (restart i no_callback closed)
            (restart-Balanced i no_callback closed),
      )
      | inr e ↦ ground (arith, then_finish-Balanced c none closed (closed, []) (omega arith))
    ]

pub on_stat-Answered :
    (c : Context) (s : Option Stats) (m : MonitoredFile) → Answered m (on_stat c s m)
unfolding on_stat
on_stat-Answered c none m h = ground (arith, finish-Quiet c (some (message (codes "stat"))) m)
on_stat-Answered c (some s) m h =
    let q = finish-Quiet c none m in
    ground (arith, asks-append (finish c none m).1 (ask_open (record c { called = true }) s ∷ []))

pub on_open-Answered :
    (c : Context) (s : Stats) (fd : Option ℕ) (m : MonitoredFile) → Answered m (on_open c s fd m)
unfolding on_open
on_open-Answered c s none m h =
    let failed : MonitoredFile = record m { open_in_progress = false; last_open_failed = true } in
    ground (arith, finish-Quiet c (some (message (codes "open"))) failed)
on_open-Answered c s (some fd) m h =
    let opened : MonitoredFile = record m { open_in_progress = false } in
    elim (Option-cases (usable m.status)) [
      | inl e ↦ elim (Option-cases c.start_index) [
        | inl n ↦ ground (arith, begin_tailer-Quiet c s fd s.size false opened)
        | inr (i, n) ↦ ground (arith, begin_tailer-Quiet c s fd i true opened)
      ]
      | inr (st, e) ↦ ground (arith, begin_tailer-Quiet c s fd s.size true opened)
    ]
