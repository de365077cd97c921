-- ===== src/ErrorBuffer/Laws.antt =====
-- The reports of an error buffer as a word of a small language.
use node_logstash.ErrorBuffer.{
  Event, error, fine, ErrorBuffer, Report, start_failing, still_failing, back_to_normal, init, run,
}
use node_logstash.Prelude.{
  inl, inr, true, false, List, [], ◌∷◌, arith, ℕ, ◌+◌, ◌<◌, ltb, Bool-cases,
}

-- The reports that may follow: `working` outside an outage, `failing last` in one whose last report
-- was made at the time `last`.
mutual
  pub data Working (delay : ℕ) : List Report → Type 0 where
    quiet : Working delay []
    outage :
        {now : ℕ} {rs : List Report} → Failing delay now rs → Working delay (start_failing now ∷ rs)

  pub data Failing (delay : ℕ) : ℕ → List Report → Type 0 where
    unresolved : {last : ℕ} → Failing delay last []
    reminder :
        {last now : ℕ} {rs : List Report}
        → last + delay < now
        → Failing delay now rs
        → Failing delay last (still_failing now ∷ rs)
    resolved :
        {last : ℕ} {rs : List Report} → Working delay rs → Failing delay last (back_to_normal ∷ rs)

abbrev working : ℕ → ErrorBuffer
working last = record { on_error = false; last_check = last }

abbrev failing : ℕ → ErrorBuffer
failing last = record { on_error = true; last_check = last }

run_word :
    (delay last : ℕ) (es : List Event)
    → Working delay (run delay (working last) es).1
      × Failing delay last (run delay (failing last) es).1
unfolding run
run_word delay last [] = (quiet, unresolved)
run_word delay last (fine ∷ es) = ((run_word delay last es).0, resolved (run_word delay last es).0)
run_word delay last (error now ∷ es) = (
  outage (run_word delay now es).1,
  elim (Bool-cases (ltb (last + delay) now)) [
    | inl late ↦ rw late (reminder (ground arith) (run_word delay now es).1)
    | inr early ↦ rw early (run_word delay last es).1
  ],
)

-- Over every series of events, the reports form outages: each begins with one report that it starts,
-- goes on with reminders each more than the delay later than the report before it, and ends, if it
-- ends, with one report that all is back to normal. No other report is made.
pub run-Working : (delay : ℕ) (es : List Event) → Working delay (run delay init es).1
unfolding init
run-Working delay es = (run_word delay 0 es).0
