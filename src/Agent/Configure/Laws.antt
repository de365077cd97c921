-- ===== src/Agent/Configure/Laws.antt =====
-- What the caller of `configure` hears.
use node_logstash.Js.Value.{Error}
use node_logstash.Agent.Configure.{
  Starting, created, Event, failed, initialised, thrown, returned, Effect, call_back, report,
  uncaught, reports, step, run,
}
use node_logstash.Prelude.{
  ◌≡◌, refl, ap, ap₂, ◌∙◌, Bool, true, false, ◌&&◌, Option, some, List, [], ◌∷◌, ◌++◌, arith, ℕ,
  zero, suc,
}

abbrev pub answers : List Effect → List (Option Error)
answers [] = []
answers (call_back err ∷ es) = err ∷ answers es
answers (report e ∷ es) = answers es
answers (uncaught e ∷ es) = answers es

abbrev pub heard : List Effect → List Error
heard [] = []
heard (call_back err ∷ es) = heard es
heard (report e ∷ es) = e ∷ heard es
heard (uncaught e ∷ es) = heard es

abbrev pub lost : List Effect → List Error
lost [] = []
lost (call_back err ∷ es) = lost es
lost (report e ∷ es) = lost es
lost (uncaught e ∷ es) = e ∷ lost es

-- What the first answer tells, where something answers.
abbrev pub outcome : List Event → List (Option Error)
outcome [] = []
outcome (failed e ∷ es) = some e ∷ []
outcome (initialised err ∷ es) = err ∷ []
outcome (thrown e ∷ es) = outcome es
outcome (returned ∷ es) = outcome es

-- No exception comes out of `init` behind the first answer: neither one of its own, nor that of an
-- error which it emits and which nobody hears.
abbrev pub no_exception_behind : Bool → List Event → Bool
no_exception_behind heard [] = true
no_exception_behind heard (returned ∷ es) = true
no_exception_behind heard (thrown e ∷ es) = false
no_exception_behind heard (initialised err ∷ es) = no_exception_behind true es
no_exception_behind heard (failed e ∷ es) = let rest = no_exception_behind heard es in heard && rest

-- No exception comes out of `init`.
abbrev pub no_exception : List Event → Bool
no_exception [] = true
no_exception (returned ∷ es) = true
no_exception (thrown e ∷ es) = false
no_exception (initialised err ∷ es) = no_exception_behind true es
no_exception (failed e ∷ es) = no_exception_behind false es

answers-append : (a b : List Effect) → answers (a ++ b) ≡ answers a ++ answers b
answers-append [] b = refl
answers-append (call_back err ∷ a) b = rw (answers-append a b) refl
answers-append (report e ∷ a) b = answers-append a b
answers-append (uncaught e ∷ a) b = answers-append a b

answers-reports : (n : ℕ) (e : Error) → answers (reports n e) ≡ []
answers-reports zero e = refl
answers-reports (suc n) e = answers-reports n e

-- `init` has returned, or no exception comes out of it.
abbrev quiet : Bool → ℕ → List Event → Bool
quiet true zero es = no_exception_behind false es
quiet true (suc n) es = no_exception_behind true es
quiet false n es = true

abbrev answered_with : ℕ → Bool → Starting
answered_with n running = record {
  on_error = false;
  handlers = n;
  callback_called = true;
  running = running;
}

-- Once the caller is answered, nothing answers again.
run-answered_with :
    (n : ℕ) (running : Bool) (es : List Event)
    → quiet running n es ≡ true
    → answers (run (answered_with n running) es).1 ≡ []
unfolding run step
run-answered_with n running [] h = refl
run-answered_with zero true (failed e ∷ es) h = absurd (ground arith)
run-answered_with zero false (failed e ∷ es) h = run-answered_with zero false es refl
run-answered_with (suc n) true (failed e ∷ es) h =
    answers-append (reports (suc n) e) (run (answered_with (suc n) true) es).1
    ∙ ap₂ (λ a b. a ++ b) (answers-reports (suc n) e) (run-answered_with (suc n) true es h)
run-answered_with (suc n) false (failed e ∷ es) h =
    answers-append (reports (suc n) e) (run (answered_with (suc n) false) es).1
    ∙ ap₂ (λ a b. a ++ b) (answers-reports (suc n) e) (run-answered_with (suc n) false es refl)
run-answered_with zero true (thrown e ∷ es) h = absurd (ground arith)
run-answered_with (suc n) true (thrown e ∷ es) h = absurd (ground arith)
run-answered_with n false (thrown e ∷ es) h = run-answered_with n false es refl
run-answered_with zero true (initialised err ∷ es) h = run-answered_with 1 true es h
run-answered_with (suc n) true (initialised err ∷ es) h = run-answered_with (suc (suc n)) true es h
run-answered_with n false (initialised err ∷ es) h = run-answered_with (suc n) false es refl
run-answered_with n true (returned ∷ es) h = run-answered_with n false es refl
run-answered_with n false (returned ∷ es) h = run-answered_with n false es refl

abbrev waiting : Starting
waiting = record { on_error = true; handlers = 0; callback_called = false; running = false }

-- The first answer may come when `init` has returned.
run-waiting : (es : List Event) → answers (run waiting es).1 ≡ outcome es
unfolding run step
run-waiting [] = refl
run-waiting (failed e ∷ es) = ap (λ l. some e ∷ l) (run-answered_with 0 false es refl)
run-waiting (initialised err ∷ es) = ap (λ l. err ∷ l) (run-answered_with 1 false es refl)
run-waiting (thrown e ∷ es) = run-waiting es
run-waiting (returned ∷ es) = run-waiting es

-- Where no exception comes out of `init`: whatever a plugin emits and however often its `init` calls
-- back, the caller of `configure` is answered exactly once, with what the first answer tells, and
-- not at all only where the plugin never fails and `init` never calls back.
pub run-outcome :
    (es : List Event) → no_exception es ≡ true → answers (run created es).1 ≡ outcome es
unfolding created run step
run-outcome [] h = refl
run-outcome (failed e ∷ es) h = ap (λ l. some e ∷ l) (run-answered_with 0 true es h)
run-outcome (initialised err ∷ es) h = ap (λ l. err ∷ l) (run-answered_with 1 true es h)
run-outcome (thrown e ∷ es) h = absurd (ground arith)
run-outcome (returned ∷ es) h = run-waiting es

-- Two errors that `init` emits before it returns answer the caller twice: nobody hears the second,
-- and the `catch` takes it. So do an exception of `init` and an error of the plugin behind it.
run-twice :
    (e x : Error) (es : List Event)
    → (answers (run created (failed e ∷ failed x ∷ es)).1 ≡ some e ∷ some x ∷ [])
      × (answers (run created (thrown e ∷ failed x ∷ es)).1 ≡ some e ∷ some x ∷ [])
unfolding created run step
run-twice e x es = (
  ap (λ l. some e ∷ some x ∷ l) (run-answered_with 0 false es refl),
  ap (λ l. some e ∷ some x ∷ l) (run-answered_with 0 false es refl),
)

abbrev pub fails : List Error → List Event
fails [] = []
fails (e ∷ es) = failed e ∷ fails es

lost-run : (es : List Error) → lost (run (answered_with 0 false) (fails es)).1 ≡ es
unfolding run step
lost-run [] = refl
lost-run (e ∷ es) = ap (λ l. e ∷ l) (lost-run es)

heard-run :
    (running : Bool) (es : List Error)
    → (heard (run (answered_with 1 running) (fails es)).1 ≡ es)
      × (lost (run (answered_with 1 running) (fails es)).1 ≡ [])
unfolding run step
heard-run running [] = (refl, refl)
heard-run running (e ∷ es) = let (h, l) = heard-run running es in (ap (λ r. e ∷ r) h, l)

-- The errors of a plugin are handed on once its `init` has called back; where it fails before that,
-- every later error until then, once `init` has returned, has no listener and nobody catches it.
run-fails :
    (err : Option Error) (e : Error) (es : List Error)
    → (heard (run created (initialised err ∷ fails es)).1 ≡ es)
      × (lost (run created (initialised err ∷ fails es)).1 ≡ [])
      × (lost (run created (failed e ∷ returned ∷ fails es)).1 ≡ es)
unfolding created run step
run-fails err e es = ((heard-run true es).0, (heard-run true es).1, lost-run es)
