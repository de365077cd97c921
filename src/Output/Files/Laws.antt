-- ===== src/Output/Files/Laws.antt =====
-- The writers that `getWriter` returns.
use node_logstash.Output.Files.{OutputFile, find, get_writer}
use node_logstash.Prelude.{
  ◌≡◌, inl, inr, none, some, List, [], ◌∷◌, ◌++◌, arith, ℕ, if◌then◌else◌, Option-cases, Text,
  ◌===◌, ===_iff, ===_refl,
}

find-append :
    (f g : Text) (w : ℕ) (ws : List (Text × ℕ))
    → find f ws ≡ none
    → find g (ws ++ (f, w) ∷ []) ≡ (if f === g then some w else find g ws)
unfolding find
find-append f g w [] h = ground arith
find-append f g w ((k, v) ∷ ws) h =
    ground (arith, find-append f g w ws, ===_iff k f, ===_iff k g, ===_iff f g)

-- After `getWriter` for a file, the file has the writer that was returned, every other file has the
-- one it had, and `getWriter` for the file again returns this writer, makes none and changes nothing.
get_writer_lem :
    (f g : Text) (o : OutputFile)
    → (find g (get_writer f o).0.writers
        ≡ (if f === g then some (get_writer f o).1 else find g o.writers))
      × (get_writer f (get_writer f o).0 ≡ ((get_writer f o).0, (get_writer f o).1, []))
unfolding get_writer
get_writer_lem f g o = elim (Option-cases (find f o.writers)) [
  | inl e ↦ (
    ground (arith, find-append f g o.next o.writers),
    ground (arith, find-append f f o.next o.writers, ===_refl f),
  )
  | inr (w, e) ↦ (ground (arith, ===_iff f g), ground arith)
]
