-- ===== src/Input/Files.antt =====
-- lib/inputs/input_file.js: which files are monitored. A monitor or a watcher of a directory is known by
-- a number; the pattern of the file names is a parameter.
pub mod Laws
use node_logstash.Prelude.{
  Bool, true, false, not, ◌||◌, Option, none, some, List, [], ◌∷◌, ◌++◌, ℕ, ◌+◌, if◌then◌else◌,
  Text, codes, ◌===◌, starts_with,
}

pub data Handle : Type 0 where
  -- The detector of the directory
  detector : Handle
  monitor watcher : ℕ → Handle

-- `monitored_files`, in the order of its keys.
abbrev pub Registry : Type 0
Registry = List (Text × Handle)

unfoldable pub find : Text → Registry → Option Handle
find k [] = none
find k ((j, h) ∷ r) = if j === k then some h else find k r

unfoldable pub put : Text → Handle → Registry → Registry
put k h [] = (k, h) ∷ []
put k h ((j, i) ∷ r) = let rest = put k h r in if j === k then (j, h) ∷ r else (j, i) ∷ rest

unfoldable pub drop_key : Text → Registry → Registry
drop_key k [] = []
drop_key k ((j, h) ∷ r) = let rest = drop_key k r in if j === k then r else (j, h) ∷ rest

pub record InputFile : Type 0 where
  pub monitored_files : Registry
  pub start_index : Option ℕ
  pub next : ℕ

pub data Effect : Type 0 where
  start_monitor : ℕ → Text → Option ℕ → Effect
  register : ℕ → Text → Effect
  close_handle : Handle → Effect
  emit_error : Effect

-- `start`, up to the events of the detector.
unfoldable pub initial : Option ℕ → InputFile
initial start_index = record {
  monitored_files = (codes "__detector__", detector) ∷ [];
  start_index = start_index;
  next = 0;
}

-- `removed`: the directory itself, and then every key that begins with its name.
abbrev close_found : Option Handle → List Effect
close_found none = []
close_found (some h) = close_handle h ∷ []

unfoldable pub close_within : Text → Registry → Registry × List Effect
close_within dir [] = ([], [])
close_within dir ((k, h) ∷ r) =
    let (r', effects) = close_within dir r in
    if starts_with dir k then (r', close_handle h ∷ effects) else ((k, h) ∷ r', effects)

unfoldable pub on_removed : Text → InputFile → InputFile × List Effect
unfolding find drop_key close_within
on_removed dir s =
    let own = find dir s.monitored_files in
    let (r, effects) = close_within dir (drop_key dir s.monitored_files) in
    (record s { monitored_files = r }, close_found own ++ effects)

-- `close`: each handle in turn.
unfoldable pub close_all : Registry → List Effect
close_all [] = []
close_all ((k, h) ∷ r) = close_handle h ∷ close_all r

unfoldable pub close : InputFile → InputFile × List Effect
unfolding close_all
close s = (record s { monitored_files = [] }, close_all s.monitored_files)

-- The events of the detector and of its directories. What `readdir` finds is `none` where it fails;
-- the directory watcher may throw.
pub data Event : Type 0 where
  removed : Text → Event
  exists : Text → Bool → Option (List Text) → Bool → Event
  changed : Text → Text → Event

module _ (filter : Text → Bool) (cwd : Text) where
  abbrev pub full_name : Text → Text → Text
  full_name dir name = (if dir === codes "." then cwd else dir) ++ (codes "/" ++ name)

  abbrev is_found : Option Handle → Bool
  is_found none = false
  is_found (some h) = true

  unfoldable pub monitor_file : Text → Text → Option ℕ → InputFile → InputFile × List Effect
  unfolding find put
  monitor_file dir name index s =
      let filename = full_name dir name in
      if is_found (find filename s.monitored_files) || not (filter name) then (s, []) else (
        record s {
          monitored_files = put filename (monitor s.next) s.monitored_files;
          next = s.next + 1;
        },
        start_monitor s.next filename index ∷ [],
      )

  unfoldable pub monitor_all : Text → List Text → Option ℕ → InputFile → InputFile × List Effect
  unfolding monitor_file
  monitor_all dir [] index s = (s, [])
  monitor_all dir (x ∷ xs) index s =
      let (s', effects) = monitor_file dir x index s in
      let (s'', later) = monitor_all dir xs index s' in (s'', effects ++ later)

  unfoldable pub watch : Text → Bool → InputFile → InputFile × List Effect
  unfolding put
  watch dir fails s = if fails then (s, emit_error ∷ []) else (
    record s { monitored_files = put dir (watcher s.next) s.monitored_files; next = s.next + 1 },
    register s.next dir ∷ [],
  )

  abbrev then_watch : Text → Bool → InputFile × List Effect → InputFile × List Effect
  then_watch dir fails (s, effects) = let (s', later) = watch dir fails s in (s', effects ++ later)

  unfoldable pub on_exists :
      Text → Bool → Option (List Text) → Bool → InputFile → InputFile × List Effect
  unfolding monitor_all watch
  on_exists dir created none fails s = (s, emit_error ∷ [])
  on_exists dir created (some l) fails s =
      then_watch dir fails (monitor_all dir l (if created then some 0 else s.start_index) s)

  unfoldable pub step : InputFile → Event → InputFile × List Effect
  unfolding on_removed on_exists monitor_file
  step s (removed dir) = on_removed dir s
  step s (exists dir created l fails) = on_exists dir created l fails s
  step s (changed dir name) = monitor_file dir name (some 0) s

  unfoldable pub run : InputFile → List Event → InputFile × List Effect
  unfolding step
  run s [] = (s, [])
  run s (e ∷ es) =
      let (s', effects) = step s e in let (s'', later) = run s' es in (s'', effects ++ later)
