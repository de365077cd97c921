-- ===== src/Tailer/Monitor/Opens.antt =====
-- The calls of `fs.exists`, `fs.stat` and `fs.open` that a monitored file has in flight, under any
-- order of events and answers.
use node_logstash.Js.Value.{message, ok}
use node_logstash.Tailer.Monitor.{
  Status, Stats, Final, Context, MonitoredFile, create, Effect, close_old, restart, on_exists,
  on_stat, on_open, on_last_data, on_nothing_read, on_unchanged,
}
use node_logstash.Tailer.Monitor.Watch.{on_directory}
use node_logstash.Prelude.{
  ◌≡◌, Bool, true, Option, none, some, List, arith, ℕ, ◌+◌, ◌-◌, ◌≤◌, ◌<◌, Text, codes,
}
use node_logstash.Tailer.Monitor.Balance.{
  asks, runs, finish-Quiet, restart-Balanced, on_directory-Balanced, close_old-Balanced,
  on_unchanged-Balanced, on_nothing_read-Balanced, on_last_data-Balanced, on_exists-Answered,
  on_stat-Answered, on_open-Answered,
}

pub record World : Type 0 where
  pub file : MonitoredFile
  pub in_flight : ℕ

-- A change of the file with its effects.
abbrev pub after : ℕ → MonitoredFile × List Effect → World
after n (m, effects) = record { file = m; in_flight = n + asks effects }

-- What happens to a monitored file: `restart`, the events of its directory and timers, the answers
-- of comparisons, and, where one is in flight, the answers to an opening.
pub data Step : World → World → Type 0 where
  restarted :
      (w : World) (i : Option ℕ) (f : Final) → Step w (after w.in_flight (restart i f w.file))
  watched :
      (w : World) (basename event filename : Text)
      → Step w (after w.in_flight (on_directory basename event filename w.file))
  postponed : (w : World) (k : ℕ) → Step w (after w.in_flight (close_old k w.file))
  compared : (w : World) (b : Option Bool) → Step w (after w.in_flight (on_unchanged b w.file))
  nothing_read :
      (w : World) (d : Text) {r : MonitoredFile × List Effect}
      → on_nothing_read d w.file ≡ ok r
      → Step w (after w.in_flight r)
  checked :
      (w : World) (c : Context) (s : Stats) (fd : ℕ) (b : Option Bool)
      {r : MonitoredFile × List Effect}
      → on_last_data c s fd b w.file ≡ ok r
      → Step w (after w.in_flight r)
  answered_exists :
      (w : World) (c : Context) (b : Bool)
      → 0 < w.in_flight
      → Step w (after (w.in_flight - 1) (on_exists c b w.file))
  answered_stat :
      (w : World) (c : Context) (s : Option Stats)
      → 0 < w.in_flight
      → Step w (after (w.in_flight - 1) (on_stat c s w.file))
  answered_open :
      (w : World) (c : Context) (s : Stats) (fd : Option ℕ)
      → 0 < w.in_flight
      → Step w (after (w.in_flight - 1) (on_open c s fd w.file))

pub data Reach (s : World) : World → Type 0 where
  here : Reach s s
  next : {t u : World} → Reach s t → Step t u → Reach s u

-- At most one opening is in flight, and only while `open_in_progress` is set.
pub record IsSingle (w : World) : Type 0 where
  pub counted : w.in_flight ≤ runs w.file.open_in_progress

-- `open_in_progress` is set, and no opening is in flight.
pub record IsStuck (w : World) : Type 0 where
  pub none_in_flight : w.in_flight ≡ 0
  pub in_progress : w.file.open_in_progress ≡ true

Step-IsSingle : {w w' : World} → Step w w' → IsSingle w → IsSingle w'
Step-IsSingle (restarted w i f) v = ground (arith, restart-Balanced i f w.file)
Step-IsSingle (watched w b e f) v = ground (arith, on_directory-Balanced b e f w.file)
Step-IsSingle (postponed w k) v = ground (arith, close_old-Balanced k w.file)
Step-IsSingle (compared w b) v = ground (arith, on_unchanged-Balanced b w.file)
Step-IsSingle (nothing_read w d {r} h) v = ground (arith, on_nothing_read-Balanced d w.file r h)
Step-IsSingle (checked w c s fd b {r} h) v =
    ground (arith, on_last_data-Balanced c s fd b w.file r h)
Step-IsSingle (answered_exists w c b p) v = ground (arith, on_exists-Answered c b w.file)
Step-IsSingle (answered_stat w c s p) v = ground (arith, on_stat-Answered c s w.file)
Step-IsSingle (answered_open w c s fd p) v = ground (arith, on_open-Answered c s fd w.file)

Step-IsStuck : {w w' : World} → Step w w' → IsStuck w → IsStuck w'
Step-IsStuck (restarted w i f) v = ground (arith, restart-Balanced i f w.file)
Step-IsStuck (watched w b e f) v = ground (arith, on_directory-Balanced b e f w.file)
Step-IsStuck (postponed w k) v = ground (arith, close_old-Balanced k w.file)
Step-IsStuck (compared w b) v = ground (arith, on_unchanged-Balanced b w.file)
Step-IsStuck (nothing_read w d {r} h) v = ground (arith, on_nothing_read-Balanced d w.file r h)
Step-IsStuck (checked w c s fd b {r} h) v =
    ground (arith, on_last_data-Balanced c s fd b w.file r h)
Step-IsStuck (answered_exists w c b p) v = absurd (omega arith)
Step-IsStuck (answered_stat w c s p) v = absurd (omega arith)
Step-IsStuck (answered_open w c s fd p) v = absurd (omega arith)

Reach-IsSingle : {s w : World} → IsSingle s → Reach s w → IsSingle w
Reach-IsSingle v here = v
Reach-IsSingle v (next r st) = Step-IsSingle st (Reach-IsSingle v r)

Reach-IsStuck : {s w : World} → IsStuck s → Reach s w → IsStuck w
Reach-IsStuck v here = v
Reach-IsStuck v (next r st) = Step-IsStuck st (Reach-IsStuck v r)

-- From a new monitored file on, under every order of events and answers, at most one call of
-- `fs.exists`, `fs.stat` or `fs.open` is in flight, and none is unless `open_in_progress` is set.
pub one_opening :
    (status : Option Status) {w : World}
    → Reach (record { file = create status; in_flight = 0 }) w
    → w.in_flight ≤ runs w.file.open_in_progress
unfolding create
one_opening status r = (Reach-IsSingle (record { counted = omega arith }) r).counted

-- After `fs.stat` has failed in the only opening in flight, the file is never opened again:
-- whatever happens, `open_in_progress` stays set and no opening is in flight.
stat_failed-IsStuck :
    (c : Context) (m : MonitoredFile) {w : World}
    → m.open_in_progress ≡ true
    → Reach (after 0 (on_stat c none m)) w
    → IsStuck w
unfolding on_stat
stat_failed-IsStuck c m h r =
    Reach-IsStuck (ground (arith, finish-Quiet c (some (message (codes "stat"))) m)) r
