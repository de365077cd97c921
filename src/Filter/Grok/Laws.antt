-- ===== src/Filter/Grok/Laws.antt =====
-- Who is called back once the global grok patterns are loaded.
use node_logstash.Js.Value.{Error}
use node_logstash.Filter.Grok.{
  Loader, not_loaded, Event, requested, failed, read, immediate, run_immediate, step, run,
}
use node_logstash.Filter.Grok.Steps.{
  at_once, in_turn, loads, is_answer, early, late, turns, callbacks, at_once-append, in_turn-append,
  loads-append, IsLoading, queue, steady, step-Steps,
}
use node_logstash.Prelude.{
  ◌≡◌, refl, sym, ap, ap₂, ◌∙◌, Bool, true, false, ◌||◌, Option, List, [], ◌∷◌, ◌++◌, append-nil,
  append_assoc, arith, ℕ, zero, suc, ◌+◌, ◌≤◌, if◌then◌else◌, length, any, length-append,
}

early-cons :
    (b : Bool) (e : Event) (es : List Event)
    → early b (e ∷ es) ≡ early b (e ∷ []) ++ early (if is_answer e then true else b) es
early-cons true (requested k) es = refl
early-cons false (requested k) es = refl
early-cons b (failed e) es = refl
early-cons b (read ls) es = refl
early-cons b immediate es = refl

late-cons :
    (b : Bool) (e : Event) (es : List Event)
    → late b (e ∷ es) ≡ late b (e ∷ []) ++ late (if is_answer e then true else b) es
late-cons true (requested k) es = refl
late-cons false (requested k) es = refl
late-cons b (failed e) es = refl
late-cons b (read ls) es = refl
late-cons b immediate es = refl

any-cons :
    (e : Event) (es : List Event) (b : Bool)
    → (any is_answer es || (if is_answer e then true else b)) ≡ (any is_answer (e ∷ es) || b)
any-cons (requested k) es b = refl
any-cons (failed e) es b = ground arith
any-cons (read ls) es b = ground arith
any-cons immediate es b = refl

-- What a series of events makes of those that wait.
record Runs (l : Loader) (es : List Event) (n : ℕ) : Type 0 where
  loading : IsLoading (run l es).0 (n + loads (run l es).1)
  kept : in_turn (run l es).1 ++ queue (run l es).0 ≡ queue l ++ early l.loaded es
  called : at_once (run l es).1 ≡ late l.loaded es
  told : (any is_answer es || l.loaded) ≡ (run l es).0.loaded

run-Runs : (l : Loader) (es : List Event) (n : ℕ) → IsLoading l n → Runs l es n
unfolding run
run-Runs l [] n v = record {
  loading = steady l n v;
  kept = sym (append-nil (queue l));
  called = refl;
  told = refl;
}
run-Runs l (e ∷ es) n v =
    let one = step-Steps l e n v in
    let l1 = (step l e).0 in
    let effects = (step l e).1 in
    let more = run-Runs l1 es (n + loads effects) one.loading in
    let later_effects = (run l1 es).1 in
    record {
      loading = record {
        once = rw (loads-append effects later_effects) (ground (arith, more.loading.once));
        waits = more.loading.waits;
        unasked = λ a b.
            rw (loads-append effects later_effects) (ground (arith, more.loading.unasked a b));
      };
      kept =
          ap (λ x. x ++ queue (run l1 es).0) (in_turn-append effects later_effects)
          ∙ append_assoc (in_turn effects) (in_turn later_effects) (queue (run l1 es).0)
          ∙ ap (λ x. in_turn effects ++ x) more.kept
          ∙ sym (append_assoc (in_turn effects) (queue l1) (early l1.loaded es))
          ∙ ap (λ x. x ++ early l1.loaded es) one.kept
          ∙ append_assoc (queue l) (early l.loaded (e ∷ [])) (early l1.loaded es)
          ∙ ap (λ x. queue l ++ x)
              (ap (λ b. early l.loaded (e ∷ []) ++ early b es) (sym one.told)
                ∙ sym (early-cons l.loaded e es));
      called =
          at_once-append effects later_effects
          ∙ ap₂ (λ a b. a ++ b) one.called (more.called ∙ ap (λ b. late b es) (sym one.told))
          ∙ sym (late-cons l.loaded e es);
      told = sym (any-cons e es l.loaded) ∙ ap (λ b. any is_answer es || b) one.told ∙ more.told;
    }

-- The turns of the engine bring no request and no answer, and empty what waits for them.
early-turns : (b : Bool) (es : List Event) (n : ℕ) → early b (es ++ turns n) ≡ early b es
early-turns b [] zero = refl
early-turns b [] (suc n) = early-turns b [] n
early-turns true (requested k ∷ es) n = early-turns true es n
early-turns false (requested k ∷ es) n = ap (λ l. k ∷ l) (early-turns false es n)
early-turns b (failed e ∷ es) n = early-turns true es n
early-turns b (read ls ∷ es) n = early-turns true es n
early-turns b (immediate ∷ es) n = early-turns b es n

late-turns : (b : Bool) (es : List Event) (n : ℕ) → late b (es ++ turns n) ≡ late b es
late-turns b [] zero = refl
late-turns b [] (suc n) = late-turns b [] n
late-turns true (requested k ∷ es) n = ap (λ l. k ∷ l) (late-turns true es n)
late-turns false (requested k ∷ es) n = late-turns false es n
late-turns b (failed e ∷ es) n = late-turns true es n
late-turns b (read ls ∷ es) n = late-turns true es n
late-turns b (immediate ∷ es) n = late-turns b es n

any-turns :
    (es : List Event) (n : ℕ) → any is_answer es ≡ true → any is_answer (es ++ turns n) ≡ true
any-turns [] n h = ground arith
any-turns (requested k ∷ es) n h = any-turns es n h
any-turns (failed e ∷ es) n h = refl
any-turns (read ls ∷ es) n h = refl
any-turns (immediate ∷ es) n h = any-turns es n h

run-append : (l : Loader) (a b : List Event) → (run l (a ++ b)).0 ≡ (run (run l a).0 b).0
unfolding run
run-append l [] b = refl
run-append l (e ∷ a) b = run-append (step l e).0 a b

run-turns :
    (is : List (ℕ × Option Error)) (l : Loader) (n : ℕ)
    → l.immediates ≡ is
    → length is ≤ n
    → (run l (turns n)).0.immediates ≡ []
unfolding run step run_immediate
run-turns [] l zero e h = e
run-turns [] l (suc n) e h =
    let same : (run_immediate l).0.immediates ≡ [] = rw (run_immediate, e, e) refl in
    run-turns [] (run_immediate l).0 n same (omega arith)
run-turns (i ∷ rest) l zero e h = absurd (omega arith)
run-turns ((k, err) ∷ rest) l (suc n) e h =
    let less : (run_immediate l).0.immediates ≡ rest = rw (run_immediate, e) refl in
    run-turns rest (run_immediate l).0 n less (omega arith)

length-callbacks : (is : List (ℕ × Option Error)) → length (callbacks is) ≡ length is
length-callbacks [] = refl
length-callbacks ((k, e) ∷ is) = ap suc (length-callbacks is)

-- Once the pattern files have been read, or have failed to be, and the engine has taken as many turns
-- as there were calls of `loadPatterns` before that: each of those callers has been called back
-- exactly once, in the order of the calls; each later caller has been called back once, at its call;
-- and the files were asked for at most once.
pub run-requests :
    (es : List Event) (n : ℕ)
    → any is_answer es ≡ true
    → length (early false es) ≤ n
    → (in_turn (run not_loaded (es ++ turns n)).1 ≡ early false es)
      × (at_once (run not_loaded (es ++ turns n)).1 ≡ late false es)
      × (loads (run not_loaded (es ++ turns n)).1 ≤ 1)
unfolding not_loaded
run-requests es n h small =
    let start : IsLoading not_loaded 0 = record {
      once = omega arith;
      waits = λ e. refl;
      unasked = λ e z. refl;
    } in
    let first = run-Runs not_loaded es 0 start in
    let all_ = run-Runs not_loaded (es ++ turns n) 0 start in
    let waiting = (run not_loaded es).0 in
    let few : length waiting.immediates ≤ n = omega (
      arith,
      small,
      length-append (in_turn (run not_loaded es).1) (queue waiting),
      length-append (callbacks waiting.immediates) waiting.onload_callbacks,
      length-callbacks waiting.immediates,
      ap length first.kept,
    ) in
    let end = (run not_loaded (es ++ turns n)).0 in
    let no_turn : end.immediates ≡ [] =
      ap (λ l. l.immediates) (run-append not_loaded es (turns n))
      ∙ run-turns waiting.immediates waiting n refl few in
    let no_wait : end.onload_callbacks ≡ [] =
      all_.loading.waits (sym all_.told ∙ ap (λ b. b || false) (any-turns es n h)) in
    let no_more : in_turn (run not_loaded (es ++ turns n)).1 ≡ early false es =
      sym (append-nil (in_turn (run not_loaded (es ++ turns n)).1))
      ∙ ap₂ (λ is ks. in_turn (run not_loaded (es ++ turns n)).1 ++ (callbacks is ++ ks))
          (sym no_turn) (sym no_wait)
      ∙ all_.kept
      ∙ early-turns false es n in
    (no_more, all_.called ∙ late-turns false es n, ground (arith, all_.loading.once))
