-- ===== src/Tailer/Requests.antt =====
-- The reads of one tailer under any order of `changed` events, answers of `fs.read` and scheduled
-- reads; and the text that `split_buffer` loses.
use node_logstash.Tailer.{
  FdTailer, newline, split_buffer, create, read, on_read, Request, Outcome, block,
}
use node_logstash.Tailer.Lines.{lines_of, split_buffer-lines_of, lines_of-Lacks, lines_of-append}
use node_logstash.Prelude.{
  Lacks, ◌≡◌, refl, ◌↔◌, Bool, true, false, Option, none, some, List, [], ◌∷◌, ◌++◌, arith, ℕ, ◌+◌,
  ◌-◌, ◌≤◌, ◌<◌, length, Text,
}

-- A tailer with the number of its reads that `fs` has not answered, and of those that
-- `process.nextTick` has still to run.
pub record World : Type 0 where
  pub tailer : FdTailer
  pub in_flight : ℕ
  pub scheduled : ℕ

abbrev requests : Option Request → ℕ
requests none = 0
requests (some r) = 1

abbrev runs : Bool → ℕ
runs true = 1
runs false = 0

unfoldable pub launch : World → World
unfolding read
launch w = record w {
  tailer = (read w.tailer).0;
  in_flight = w.in_flight + requests (read w.tailer).1;
}

module _ (decode : List ℕ → Text) where
  unfoldable pub answer : Bool → Outcome → World → World
  answer has_callback o w = record w {
    tailer = (on_read decode has_callback w.tailer o).0;
    in_flight = w.in_flight - 1;
    scheduled = w.scheduled + runs (on_read decode has_callback w.tailer o).1.read_again;
  }

  pub data Step : World → World → Type 0 where
    change : (w : World) → Step w (launch w)
    reply : (w : World) (cb : Bool) (o : Outcome) → 0 < w.in_flight → Step w (answer cb o w)
    tick :
        (w : World) → 0 < w.scheduled → Step w (launch (record w { scheduled = w.scheduled - 1 }))

  pub data Reach (s : World) : World → Type 0 where
    here : Reach s s
    next : {t u : World} → Reach s t → Step t u → Reach s u

  -- `read_in_progress` counts the reads in flight.
  pub record IsSingle (w : World) : Type 0 where
    pub counted : w.in_flight ≡ runs w.tailer.read_in_progress

  launch-IsSingle : (w : World) → IsSingle w → IsSingle (launch w)
  unfolding launch read
  launch-IsSingle w h = ground arith

  on_read_done :
      (cb : Bool) (t : FdTailer) (o : Outcome) → (on_read decode cb t o).0.read_in_progress ≡ false
  unfolding on_read
  on_read_done cb t Outcome.failed = refl
  on_read_done cb t (block []) = refl
  on_read_done cb t (block (b ∷ bs)) = refl

  answer-IsSingle :
      (w : World) (cb : Bool) (o : Outcome)
      → 0 < w.in_flight
      → IsSingle w
      → IsSingle (answer cb o w)
  unfolding answer
  answer-IsSingle w cb o p h = ground (arith, on_read_done cb w.tailer o)

  Step-IsSingle : {w v : World} → Step w v → IsSingle w → IsSingle v
  Step-IsSingle (change w) h = launch-IsSingle w h
  Step-IsSingle (reply w cb o p) h = answer-IsSingle w cb o p h
  Step-IsSingle (tick w p) h =
      launch-IsSingle (record w { scheduled = w.scheduled - 1 }) (record { counted = h.counted })

  Reach-IsSingle : {s w : World} → IsSingle s → Reach s w → IsSingle w
  Reach-IsSingle h here = h
  Reach-IsSingle h (next r st) = Step-IsSingle st (Reach-IsSingle h r)

  -- From a new tailer on, under every order of events, at most one `fs.read` is in flight, and
  -- `read_in_progress` is set exactly while one is.
  pub one_read_in_flight :
      (fd index size : ℕ) (fifo : Bool) {w : World}
      → Reach (record { tailer = create fd index size fifo; in_flight = 0; scheduled = 0 }) w
      → (w.in_flight ≤ 1) × ((w.tailer.read_in_progress ≡ true) ↔ (w.in_flight ≡ 1))
  unfolding create
  one_read_in_flight fd index size fifo r =
      let s = Reach-IsSingle (record { counted = refl }) r in ground arith

-- `split_buffer` on two blocks that cut a line: the part in the first block is lost, and the rest
-- is emitted as if it were a line of its own.
split_buffer_cut :
    (a b : Text)
    → Lacks newline a
    → Lacks newline b
    → 0 < length b
    → (split_buffer a ≡ []) × (split_buffer (b ++ newline ∷ []) ≡ b ∷ [])
unfolding lines_of
split_buffer_cut a b ha hb p = (
  rw (split_buffer-lines_of, lines_of-Lacks [] a ha) refl,
  rw (split_buffer-lines_of, lines_of-append [] b (newline ∷ []), lines_of-Lacks [] b hb)
      (ground arith),
)
