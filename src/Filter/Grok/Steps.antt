-- ===== src/Filter/Grok/Steps.antt =====
-- One step of the loading of the global grok patterns, and those that wait for it.
use node_logstash.Js.Value.{Error}
use node_logstash.Filter.Grok.{
  process_lines, Loader, Event, requested, failed, read, immediate, Effect, load, call, call_later,
  later, leave, load_patterns, run_immediate, step,
}
use node_logstash.Prelude.{
  ◌≡◌, refl, sym, ap, ◌∙◌, inl, inr, Bool, true, false, Option, none, some, List, [], ◌∷◌, ◌++◌,
  append-nil, append_assoc, arith, ℕ, zero, suc, ◌+◌, ◌≤◌, ltb, if◌then◌else◌, Bool-cases, length,
  length-append,
}

-- The callbacks that are called at once, those that are called by `setImmediate`, and the loads.
abbrev pub at_once : List Effect → List ℕ
at_once [] = []
at_once (load ∷ es) = at_once es
at_once (call k ∷ es) = k ∷ at_once es
at_once (call_later k e ∷ es) = at_once es

abbrev pub in_turn : List Effect → List ℕ
in_turn [] = []
in_turn (load ∷ es) = in_turn es
in_turn (call k ∷ es) = in_turn es
in_turn (call_later k e ∷ es) = k ∷ in_turn es

abbrev pub loads : List Effect → ℕ
loads [] = 0
loads (load ∷ es) = 1 + loads es
loads (call k ∷ es) = loads es
loads (call_later k e ∷ es) = loads es

abbrev pub is_answer : Event → Bool
is_answer (failed e) = true
is_answer (read ls) = true
is_answer (requested k) = false
is_answer immediate = false

-- The requests before the first answer and behind it.
abbrev pub early : Bool → List Event → List ℕ
early answered [] = []
early answered (requested k ∷ es) =
    let rest = early answered es in if answered then rest else k ∷ rest
early answered (failed e ∷ es) = early true es
early answered (read ls ∷ es) = early true es
early answered (immediate ∷ es) = early answered es

abbrev pub late : Bool → List Event → List ℕ
late answered [] = []
late answered (requested k ∷ es) =
    let rest = late answered es in if answered then k ∷ rest else rest
late answered (failed e ∷ es) = late true es
late answered (read ls ∷ es) = late true es
late answered (immediate ∷ es) = late answered es

-- As many turns of the engine.
abbrev pub turns : ℕ → List Event
turns zero = []
turns (suc n) = immediate ∷ turns n

abbrev pub callbacks : List (ℕ × Option Error) → List ℕ
callbacks [] = []
callbacks ((k, e) ∷ l) = k ∷ callbacks l

callbacks-append : (a b : List (ℕ × Option Error)) → callbacks (a ++ b) ≡ callbacks a ++ callbacks b
callbacks-append [] b = refl
callbacks-append ((k, e) ∷ a) b = ap (λ l. k ∷ l) (callbacks-append a b)

callbacks-later : (ks : List ℕ) (err : Option Error) → callbacks (later ks err) ≡ ks
callbacks-later [] err = refl
callbacks-later (k ∷ ks) err = ap (λ l. k ∷ l) (callbacks-later ks err)

pub at_once-append : (a b : List Effect) → at_once (a ++ b) ≡ at_once a ++ at_once b
at_once-append [] b = refl
at_once-append (load ∷ a) b = at_once-append a b
at_once-append (call k ∷ a) b = ap (λ l. k ∷ l) (at_once-append a b)
at_once-append (call_later k e ∷ a) b = at_once-append a b

pub in_turn-append : (a b : List Effect) → in_turn (a ++ b) ≡ in_turn a ++ in_turn b
in_turn-append [] b = refl
in_turn-append (load ∷ a) b = in_turn-append a b
in_turn-append (call k ∷ a) b = in_turn-append a b
in_turn-append (call_later k e ∷ a) b = ap (λ l. k ∷ l) (in_turn-append a b)

pub loads-append : (a b : List Effect) → loads (a ++ b) ≡ loads a + loads b
loads-append [] b = omega arith
loads-append (load ∷ a) b = rw (loads-append a b) (omega arith)
loads-append (call k ∷ a) b = loads-append a b
loads-append (call_later k e ∷ a) b = loads-append a b

-- While nothing is loaded the callbacks wait, and the first has asked for the load; afterwards none
-- waits but for its turn.
pub record IsLoading (l : Loader) (asked : ℕ) : Type 0 where
  pub once : asked ≤ 1
  pub waits : l.loaded ≡ true → l.onload_callbacks ≡ []
  pub unasked : l.loaded ≡ false → length l.onload_callbacks ≡ 0 → asked ≡ 0

-- Those that wait, for their turn first.
abbrev pub queue : Loader → List ℕ
queue l = callbacks l.immediates ++ l.onload_callbacks

leave_lem :
    (l : Loader) (err : Option Error) (n : ℕ)
    → IsLoading l n
    → IsLoading (leave err l) n × (queue (leave err l) ≡ queue l)
unfolding leave
leave_lem l err n v = (
  record { once = v.once; waits = λ h. refl; unasked = λ h z. ground (arith, h) },
  append-nil _
      ∙ callbacks-append l.immediates (later l.onload_callbacks err)
      ∙ ap (λ r. callbacks l.immediates ++ r) (callbacks-later l.onload_callbacks err),
)

pub steady : (l : Loader) (n : ℕ) → IsLoading l n → IsLoading l (n + 0)
steady l n v = record {
  once = ground (arith, v.once);
  waits = v.waits;
  unasked = λ h z. ground (arith, v.unasked h z);
}

asks : (b : Bool) → in_turn (if b then [] else load ∷ []) ≡ []
asks true = refl
asks false = refl

-- What one step makes of those that wait.
pub record Steps (l : Loader) (e : Event) (n : ℕ) : Type 0 where
  pub loading : IsLoading (step l e).0 (n + loads (step l e).1)
  pub kept : in_turn (step l e).1 ++ queue (step l e).0 ≡ queue l ++ early l.loaded (e ∷ [])
  pub called : at_once (step l e).1 ≡ late l.loaded (e ∷ [])
  pub told : (if is_answer e then true else l.loaded) ≡ (step l e).0.loaded

pub step-Steps : (l : Loader) (e : Event) (n : ℕ) → IsLoading l n → Steps l e n
unfolding step load_patterns run_immediate leave process_lines
step-Steps l (failed e) n v =
    let (loading, same) =
      leave_lem l (some e) n (record { once = v.once; waits = v.waits; unasked = v.unasked }) in
    record {
      loading = steady _ n loading;
      kept = same ∙ sym (append-nil (queue l));
      called = refl;
      told = refl;
    }
step-Steps l (read ls) n v =
    let (loading, same) =
      leave_lem (record l { global_patterns = some (process_lines ls) }) none n
        (record { once = v.once; waits = v.waits; unasked = v.unasked }) in
    record {
      loading = steady _ n loading;
      kept = same ∙ sym (append-nil (queue l));
      called = refl;
      told = refl;
    }
step-Steps l (requested k) n v = elim (Bool-cases l.loaded) [
  | inl e ↦ record {
    loading = rw e (record {
      once = ground (arith, v.once);
      waits = λ h. v.waits e;
      unasked = λ h z. ground (arith, h);
    });
    kept = rw e (sym (append-nil (queue l)));
    called = rw e refl;
    told = rw e refl;
  }
  | inr e ↦ record {
    loading = rw e (record {
      once = ground (arith, length-append l.onload_callbacks (k ∷ []), v.unasked e, v.once);
      waits = λ h. ground (arith, h);
      unasked = λ h z. ground (arith, length-append l.onload_callbacks (k ∷ []), z);
    });
    kept =
        rw (e, asks (ltb 1 (length (l.onload_callbacks ++ k ∷ []))))
          (sym (append_assoc (callbacks l.immediates) l.onload_callbacks (k ∷ [])));
    called = rw e (ground arith);
    told = rw e refl;
  }
]
step-Steps l immediate n v = go l.immediates refl
  where
    go : (is : List (ℕ × Option Error)) → l.immediates ≡ is → Steps l immediate n
    go [] e = record {
      loading = rw (run_immediate, e) (steady l n v);
      kept = rw (run_immediate, e, e) (sym (append-nil l.onload_callbacks));
      called = rw (run_immediate, e) refl;
      told = rw (run_immediate, e) refl;
    }
    go ((k, err) ∷ rest) e = record {
      loading =
          rw (run_immediate, e)
            (steady _ n (record { once = v.once; waits = v.waits; unasked = v.unasked }));
      kept = rw (run_immediate, e) (sym (append-nil (k ∷ callbacks rest ++ l.onload_callbacks)));
      called = rw (run_immediate, e) refl;
      told = rw (run_immediate, e) refl;
    }
