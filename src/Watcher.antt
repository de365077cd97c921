-- ===== src/Watcher.antt =====
-- lib/lib/directory_watcher.js: one watcher for each directory, shared by all who listen to it. A
-- callback is a number, that of its registration; a watcher calls its listeners in the order of
-- their registration, as events are documented.
pub mod Laws
pub mod Listeners
pub mod Events
use node_logstash.Js.Value.{Error, type_error}
use node_logstash.Prelude.{
  Option, none, some, List, [], ◌∷◌, ◌++◌, ℕ, ◌+◌, ◌==◌, if◌then◌else◌, Text, ◌===◌,
}

-- `current`, and the number of the next callback.
pub record Watchers : Type 0 where
  pub current : Text → Option (List ℕ)
  pub next : ℕ

unfoldable pub no_watcher : Watchers
no_watcher = record { current = λ d. none; next = 0 }

-- What `register` returns.
pub record WatchId : Type 0 where
  pub dir : Text
  pub callback : ℕ

pub data Registration : Type 0 where
  register : Text → Registration
  unregister : WatchId → Registration

pub data Effect : Type 0 where
  -- `fs.watch`, or the start of `fsevents`
  open_watcher : Text → Effect
  close_watcher : Text → Effect
  uncaught : Error → Effect

abbrev pub put : Text → Option (List ℕ) → (Text → Option (List ℕ)) → Text → Option (List ℕ)
put dir v current d = if d === dir then v else current d

-- `removeListener`
unfoldable pub remove_listener : ℕ → List ℕ → List ℕ
remove_listener i [] = []
remove_listener i (j ∷ l) = let rest = remove_listener i l in if j == i then l else j ∷ rest

-- A directory without listeners is deleted.
abbrev pub unless_empty : List ℕ → Option (List ℕ)
unless_empty [] = none
unless_empty (i ∷ l) = some (i ∷ l)

abbrev pub closing : Text → List ℕ → List Effect
closing dir [] = close_watcher dir ∷ []
closing dir (i ∷ l) = []

-- `path.resolve` is a parameter.
module _ (resolve : Text → Text) where
  unfoldable pub register_dir : Text → Watchers → Watchers × List Effect
  register_dir given w = elim (w.current (resolve given)) [
    | none ↦ (
      record { current = put (resolve given) (some (w.next ∷ [])) w.current; next = w.next + 1 },
      open_watcher (resolve given) ∷ [],
    )
    | some l ↦ (
      record {
        current = put (resolve given) (some (l ++ w.next ∷ [])) w.current;
        next = w.next + 1;
      },
      [],
    )
  ]

  unfoldable pub unregister_id : WatchId → Watchers → Watchers × List Effect
  unfolding remove_listener
  unregister_id id w = elim (w.current id.dir) [
    | none ↦ (w, uncaught type_error ∷ [])
    | some l ↦ (
      record w { current = put id.dir (unless_empty (remove_listener id.callback l)) w.current },
      closing id.dir (remove_listener id.callback l),
    )
  ]

  unfoldable pub step : Watchers → Registration → Watchers × List Effect
  unfolding register_dir unregister_id
  step w (register dir) = register_dir dir w
  step w (unregister id) = unregister_id id w

  unfoldable pub run : Watchers → List Registration → Watchers × List Effect
  unfolding step
  run w [] = (w, [])
  run w (r ∷ rs) =
      let (w', effects) = step w r in let (w'', later) = run w' rs in (w'', effects ++ later)
