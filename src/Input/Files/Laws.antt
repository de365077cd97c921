-- ===== src/Input/Files/Laws.antt =====
-- The registry of monitored files.
use node_logstash.Input.Files.{
  Handle, monitor, watcher, Registry, find, put, drop_key, InputFile, initial, close_within,
  on_removed, Event, removed, exists, changed, full_name, monitor_file, monitor_all, watch,
  on_exists, step, run,
}
use node_logstash.Prelude.{
  ◌≡◌, refl, ap, ◌∙◌, inl, inr, Bool, true, false, ◌&&◌, Option, none, some, List, [], ◌∷◌, arith,
  ℕ, ◌+◌, ◌≤◌, ◌==◌, if◌then◌else◌, ==_refl, Bool-cases, Text, ◌===◌, ===_iff, starts_with,
}

-- How often a key stands in the registry.
abbrev pub count : Text → Registry → ℕ
count k [] = 0
count k ((j, h) ∷ r) = if j === k then 1 + count k r else count k r

count-put :
    (k j : Text) (h : Handle) (r : Registry)
    → count k (put j h r) ≡ (if (j === k) && (count k r == 0) then 1 else count k r)
unfolding put
count-put k j h [] = ground arith
count-put k j h ((i, g) ∷ r) =
    ground (arith, ===_iff i k, ===_iff i j, ===_iff j k, count-put k j h r)

count-drop_key : (k j : Text) (r : Registry) → count k (drop_key j r) ≤ count k r
unfolding drop_key
count-drop_key k j [] = ground arith
count-drop_key k j ((i, h) ∷ r) = ground (arith, count-drop_key k j r)

count-close_within : (k dir : Text) (r : Registry) → count k (close_within dir r).0 ≤ count k r
unfolding close_within
count-close_within k dir [] = ground arith
count-close_within k dir ((i, h) ∷ r) = ground (arith, count-close_within k dir r)

find-drop_key : (k j : Text) (r : Registry) → (j === k) ≡ false → find k (drop_key j r) ≡ find k r
unfolding find drop_key
find-drop_key k j [] n = refl
find-drop_key k j ((i, h) ∷ r) n =
    ground (arith, ===_iff i k, ===_iff i j, ===_iff j k, find-drop_key k j r n)

find-close_within :
    (k dir : Text) (r : Registry)
    → find k (close_within dir r).0 ≡ (if starts_with dir k then none else find k r)
unfolding find close_within
find-close_within k dir [] = ground arith
find-close_within k dir ((i, h) ∷ r) = elim (Bool-cases (i === k)) [
  | inl e ↦
      let same : i ≡ k = (===_iff i k).0 e in
      let alike : starts_with dir i ≡ starts_with dir k = ap (starts_with dir) same in
      ground (arith, find-close_within k dir r)
  | inr e ↦ ground (arith, find-close_within k dir r)
]

starts_with_refl : (s : Text) → starts_with s s ≡ true
starts_with_refl [] = refl
starts_with_refl (c ∷ s) = ground (arith, ==_refl c, starts_with_refl s)

starts_with-differ : (s t : Text) → starts_with s t ≡ false → (s === t) ≡ false
starts_with-differ s t h = elim (Bool-cases (s === t)) [
  | inl e ↦
      let alike : starts_with s s ≡ starts_with s t = ap (starts_with s) ((===_iff s t).0 e) in
      ground (arith, starts_with_refl s)
  | inr e ↦ e
]

-- Removing a directory closes and forgets every key that begins with its name, also those of other
-- directories whose names begin so, and keeps the others.
find-on_removed :
    (k dir : Text) (s : InputFile)
    → find k (on_removed dir s).0.monitored_files
      ≡ (if starts_with dir k then none else find k s.monitored_files)
unfolding on_removed
find-on_removed k dir s =
    find-close_within k dir (drop_key dir s.monitored_files)
    ∙ elim (Bool-cases (starts_with dir k)) [
      | inl e ↦ ground arith
      | inr e ↦ ground (arith, find-drop_key k dir s.monitored_files (starts_with-differ dir k e))
    ]

module _ (filter : Text → Bool) (cwd : Text) where
  count-monitor_file :
      (k dir name : Text) (i : Option ℕ) (s : InputFile)
      → count k s.monitored_files ≤ 1
      → count k (monitor_file filter cwd dir name i s).0.monitored_files ≤ 1
  unfolding monitor_file
  count-monitor_file k dir name i s v =
      ground (arith, count-put k (full_name filter cwd dir name) (monitor s.next) s.monitored_files)

  count-monitor_all :
      (k dir : Text) (l : List Text) (i : Option ℕ) (s : InputFile)
      → count k s.monitored_files ≤ 1
      → count k (monitor_all filter cwd dir l i s).0.monitored_files ≤ 1
  unfolding monitor_all
  count-monitor_all k dir [] i s v = v
  count-monitor_all k dir (x ∷ xs) i s v =
      count-monitor_all k dir xs i (monitor_file filter cwd dir x i s).0
        (count-monitor_file k dir x i s v)

  count-watch :
      (k dir : Text) (fails : Bool) (s : InputFile)
      → count k s.monitored_files ≤ 1
      → count k (watch filter cwd dir fails s).0.monitored_files ≤ 1
  unfolding watch
  count-watch k dir true s v = v
  count-watch k dir false s v = ground (arith, count-put k dir (watcher s.next) s.monitored_files)

  count-step :
      (k : Text) (s : InputFile) (e : Event)
      → count k s.monitored_files ≤ 1
      → count k (step filter cwd s e).0.monitored_files ≤ 1
  unfolding step on_removed on_exists
  count-step k s (removed dir) v = omega (
    arith,
    count-close_within k dir (drop_key dir s.monitored_files),
    count-drop_key k dir s.monitored_files,
  )
  count-step k s (exists dir c none fails) v = v
  count-step k s (exists dir c (some l) fails) v =
      let i = if c then some 0 else s.start_index in
      count-watch k dir fails (monitor_all filter cwd dir l i s).0 (count-monitor_all k dir l i s v)
  count-step k s (changed dir name) v = count-monitor_file k dir name (some 0) s v

  run_from :
      (k : Text) (s : InputFile) (es : List Event)
      → count k s.monitored_files ≤ 1
      → count k (run filter cwd s es).0.monitored_files ≤ 1
  unfolding run
  run_from k s [] v = v
  run_from k s (e ∷ es) v = run_from k (step filter cwd s e).0 es (count-step k s e v)

  -- Over every series of events, a file input has at most one handle for each file or directory.
  one_handle :
      (i : Option ℕ) (es : List Event) (k : Text)
      → count k (run filter cwd (initial i) es).0.monitored_files ≤ 1
  unfolding initial
  one_handle i es k = run_from k (initial i) es (ground arith)
