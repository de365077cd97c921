-- ===== src/Tailer/Chunks.antt =====
-- The lines of a file do not depend on how the reads cut it into blocks.
use node_logstash.Tailer.{FdTailer, block, on_read}
use node_logstash.Tailer.Lines.{lines_of, drain-lines_of, lines_of_again, lines_of_resume}
use node_logstash.Prelude.{
  ◌≡◌, refl, false, List, [], ◌∷◌, ◌++◌, append-nil, append_assoc, arith, ℕ, suc, ◌+◌, length,
  length-append, Text,
}

abbrev pub concat : List (List ℕ) → List ℕ
concat [] = []
concat (b ∷ bs) = b ++ concat bs

-- A pending text that one more pass does not cut: it is so for a new tailer and after each block.
pub record IsPending (s : Text) : Type 0 where
  pub unfinished : lines_of [] s ≡ ([], s)

module _ (decode : List ℕ → Text) where
  -- The decoding of one block does not depend on the block before: so for one-byte encodings.
  pub record IsAdditive : Type 0 where
    pub of_nothing : decode [] ≡ []
    pub of_append : (a b : List ℕ) → decode (a ++ b) ≡ decode a ++ decode b

  -- The callbacks of a series of reads, with all the lines that they emit.
  pub read_blocks : FdTailer → List (List ℕ) → FdTailer × List Text
  read_blocks t [] = (t, [])
  read_blocks t (b ∷ bs) =
      let (t', effects) = on_read decode false t (block b) in
      let (t'', lines) = read_blocks t' bs in (t'', effects.lines ++ lines)

  on_read_lines :
      (t : FdTailer) (b : List ℕ)
      → IsAdditive
      → IsPending t.to_be_processed
      → ((on_read decode false t (block b)).1.lines
          ≡ (lines_of [] (t.to_be_processed ++ decode b)).0)
        × ((on_read decode false t (block b)).0.to_be_processed
            ≡ (lines_of [] (t.to_be_processed ++ decode b)).1)
        × ((on_read decode false t (block b)).0.current_index ≡ t.current_index + length b)
  unfolding on_read
  on_read_lines t [] a p = rw (a.of_nothing, append-nil, p.unfinished) (refl, refl, omega arith)
  on_read_lines t (c ∷ b) a p =
      rw
        (drain-lines_of (suc (length (t.to_be_processed ++ decode (c ∷ b))))
          (t.to_be_processed ++ decode (c ∷ b)) (omega arith))
        (refl, refl, refl)

  -- Whatever the blocks are in which a file is read, all of its lines are emitted, each once and in
  -- order, what is left pending is the last line without its newline, and the index moves by the
  -- bytes read; the decoding is assumed to work block by block.
  pub read_blocks-lines_of :
      (t : FdTailer) (bs : List (List ℕ))
      → IsAdditive
      → IsPending t.to_be_processed
      → ((read_blocks t bs).1 ≡ (lines_of [] (t.to_be_processed ++ decode (concat bs))).0)
        × ((read_blocks t bs).0.to_be_processed
            ≡ (lines_of [] (t.to_be_processed ++ decode (concat bs))).1)
        × ((read_blocks t bs).0.current_index ≡ t.current_index + length (concat bs))
  unfolding read_blocks
  read_blocks-lines_of t [] a p =
      rw (a.of_nothing, append-nil, p.unfinished) (refl, refl, omega arith)
  read_blocks-lines_of t (b ∷ bs) a p =
      let t' = (on_read decode false t (block b)).0 in
      let (l, q, i) = on_read_lines t b a p in
      let p' : IsPending t'.to_be_processed = record { unfinished = rw q (lines_of_again _) } in
      let (l', q', i') = read_blocks-lines_of t' bs a p' in
      let whole = lines_of_resume (t.to_be_processed ++ decode b) (decode (concat bs)) in
      rw (a.of_append, ← append_assoc t.to_be_processed (decode b) (decode (concat bs)), whole)
        (rw (l, l', q) refl, rw (q', q) refl, omega (arith, i, i', length-append b (concat bs)))
