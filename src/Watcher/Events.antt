-- ===== src/Watcher/Events.antt =====
-- What the listeners of lib/lib/directory_watcher.js make of an event. On darwin all listeners of a
-- directory share a table of the files that exist in it.
use node_logstash.Prelude.{
  ◌≡◌, refl, ap, Bool, true, false, Option, none, some, List, [], ◌∷◌, ◌++◌, arith, ℕ,
  if◌then◌else◌, any, Text, ◌===◌, ===_refl,
}

-- The events of `fsevents`.
pub data FsEvent : Type 0 where
  moved_out : FsEvent
  deleted : FsEvent
  moved_in : FsEvent
  modified : FsEvent
  other : FsEvent

-- What a listener is told.
pub data Told : Type 0 where
  renaming : ℕ → Text → Told
  changing : ℕ → Text → Told

-- `current[dir].exists`
abbrev pub knows : Text → List Text → Bool
knows f files = any (λ g. g === f) files

abbrev learn : Text → List Text → List Text
learn f files = if knows f files then files else f ∷ files

unfoldable pub delete_known : Text → List Text → List Text
delete_known f [] = []
delete_known f (g ∷ files) = let rest = delete_known f files in if g === f then rest else g ∷ rest

-- The callback number `k`, on darwin.
unfoldable pub on_fsevent : ℕ → Text → FsEvent → List Text → List Text × List Told
unfolding delete_known
on_fsevent k f moved_out files = (learn f files, renaming k f ∷ [])
on_fsevent k f deleted files = (learn f files, renaming k f ∷ [])
on_fsevent k f moved_in files =
    if knows f files then (delete_known f files, renaming k f ∷ []) else (files, changing k f ∷ [])
on_fsevent k f modified files =
    if knows f files
    then (files, changing k f ∷ [])
    else (f ∷ files, renaming k f ∷ changing k f ∷ [])
on_fsevent k f other files = (files, [])

-- An event reaches all listeners in turn.
unfoldable pub emit_fsevent : List ℕ → Text → FsEvent → List Text → List Text × List Told
unfolding on_fsevent
emit_fsevent [] f e files = (files, [])
emit_fsevent (k ∷ ks) f e files =
    let (files', told) = on_fsevent k f e files in
    let (files'', later) = emit_fsevent ks f e files' in (files'', told ++ later)

-- The callback elsewhere: `fs.watch` may give no file.
unfoldable pub on_watch : ℕ → Bool → Option Text → List Told
on_watch k renamed none = []
on_watch k true (some f) = renaming k f ∷ []
on_watch k false (some f) = changing k f ∷ []

-- The listeners that are told of a new name.
abbrev pub renamed : List Told → List ℕ
renamed [] = []
renamed (renaming k f ∷ l) = k ∷ renamed l
renamed (changing k f ∷ l) = renamed l

knows-learned : (f : Text) (files : List Text) → knows f (f ∷ files) ≡ true
knows-learned f files = ground (arith, ===_refl f)

renamed-append : (a b : List Told) → renamed (a ++ b) ≡ renamed a ++ renamed b
renamed-append [] b = refl
renamed-append (renaming k f ∷ a) b = ap (λ l. k ∷ l) (renamed-append a b)
renamed-append (changing k f ∷ a) b = renamed-append a b

known_modified :
    (ks : List ℕ) (f : Text) (files : List Text)
    → knows f files ≡ true
    → renamed (emit_fsevent ks f modified files).1 ≡ []
unfolding emit_fsevent
known_modified [] f files h = refl
known_modified (k ∷ ks) f files h = rw h (known_modified ks f files h)

-- On darwin, of all the listeners of a directory only the first is told that a file is new.
emit_fsevent-first :
    (k : ℕ) (ks : List ℕ) (f : Text) (files : List Text)
    → knows f files ≡ false
    → renamed (emit_fsevent (k ∷ ks) f modified files).1 ≡ k ∷ []
unfolding emit_fsevent
emit_fsevent-first k ks f files h =
    rw h (ap (λ l. k ∷ l) (known_modified ks f (f ∷ files) (knows-learned f files)))
