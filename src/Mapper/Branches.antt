-- ===== src/Mapper/Branches.antt =====
-- The guards that the mapper writes select the branch that the configuration means.
use node_logstash.Js.Value.{Fields, ok, Result-cases, ◌>>=◌}
use node_logstash.Js.Convert.{Engine}
use node_logstash.Condition.{Condition, compute}
use node_logstash.Component.Filtering.{DynamicEval, any_true, eval_dynamic}
use node_logstash.Mapper.{Plugin, Branch, guard_all, guard_branches}
use node_logstash.Mapper.Spec.{chosen}
use node_logstash.Prelude.{
  ◌≡◌, refl, ◌≢◌, inl, inr, true, false, some, List, [], ◌∷◌, ◌++◌, append-nil, arith,
  if◌then◌else◌,
}

module _ (js : Engine) (d : Fields) where
  -- The plugins that take the message.
  abbrev pub active : List (DynamicEval × Plugin) → List Plugin
  active [] = []
  active ((e, p) ∷ l) = if eval_dynamic js e d then p ∷ active l else active l

  active-append : (l m : List (DynamicEval × Plugin)) → active (l ++ m) ≡ active l ++ active m
  active-append [] m = refl
  active-append ((e, p) ∷ l) m = ground (arith, active-append l m)

  active-guard_all :
      (e : DynamicEval) (ps : List Plugin)
      → active (guard_all e ps) ≡ (if eval_dynamic js e d then ps else [])
  unfolding guard_all
  active-guard_all e [] = ground arith
  active-guard_all e (p ∷ ps) = ground (arith, active-guard_all e ps)

  any_true-append :
      (cs ds : List Condition)
      → any_true js (cs ++ ds) d
        ≡ (any_true js cs d >>= λ b. if b then ok true else any_true js ds d)
  unfolding any_true
  any_true-append [] ds = refl
  any_true-append (c ∷ cs) ds = ground (arith, any_true-append cs ds)

  any_true_one :
      (c : Condition)
      → any_true js (c ∷ []) d ≡ (compute js c (some d) >>= λ b. if b then ok true else ok false)
  unfolding any_true
  any_true_one c = refl

  -- Once a false clause is true or throws, nothing later runs.
  blocked :
      (stack : List Condition) (bs : List Branch) (ps : List Plugin)
      → any_true js stack d ≢ ok false
      → active (guard_branches stack bs ps) ≡ []
  unfolding guard_branches eval_dynamic
  blocked stack [] ps h = rw (active-guard_all _ ps) (ground arith)
  blocked stack (b ∷ bs) ps h =
      let still : any_true js (stack ++ b.condition ∷ []) d ≢ ok false =
        ground (arith, any_true-append stack (b.condition ∷ [])) in
      rw
        (
          active-append (guard_all _ b.body) _,
          active-guard_all _ b.body,
          blocked (stack ++ b.condition ∷ []) bs ps still,
        )
        (ground arith)

  branch_by_branch :
      (stack : List Condition) (bs : List Branch) (ps : List Plugin)
      → any_true js stack d ≡ ok false
      → active (guard_branches stack bs ps) ≡ chosen js d bs ps
  unfolding guard_branches chosen eval_dynamic
  branch_by_branch stack [] ps h = rw (active-guard_all _ ps) (ground arith)
  branch_by_branch stack (b ∷ bs) ps h =
      let next = any_true-append stack (b.condition ∷ []) in
      let one = any_true_one b.condition in
      rw (active-append (guard_all _ b.body) _, active-guard_all _ b.body)
        (elim (Result-cases (compute js b.condition (some d))) [
          | inl (true, e) ↦
              rw (blocked (stack ++ b.condition ∷ []) bs ps (ground arith))
                (ground (arith, append-nil b.body))
          | inl (false, e) ↦
              rw (branch_by_branch (stack ++ b.condition ∷ []) bs ps (ground arith)) (ground arith)
          | inr (x, e) ↦
              rw (blocked (stack ++ b.condition ∷ []) bs ps (ground arith)) (ground arith)
        ])

  -- An `if` with its `else if` branches and its `else` becomes guarded plugins such that, on every
  -- message, the plugins whose guard lets the message in are those of the first branch whose
  -- condition is true, those of the `else` where all conditions are false, and none where a
  -- condition throws before that.
  pub active-guard_branches :
      (bs : List Branch) (otherwise : List Plugin)
      → active (guard_branches [] bs otherwise) ≡ chosen js d bs otherwise
  unfolding any_true
  active-guard_branches bs otherwise = branch_by_branch [] bs otherwise refl
