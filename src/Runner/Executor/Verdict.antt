-- ===== src/Runner/Executor/Verdict.antt =====
-- What a step's verdict and a fixture's verdict say.
use eidovela_open.Common.{
  ℕ, ◌+◌, ◌≡◌, ◌↔◌, ◌⊎◌, ◌≢◌, refl, ap, Bool, true, false, List, [], ◌∷◌, ◌++◌, some, Result, ok,
  err, length, inl, inr, arith,
}
use eidovela_open.Text.{text, text_eq}
use eidovela_open.Text.Laws.{text_eq_iff}
use eidovela_open.Runner.Executor.{Env, Step, World, Failure}
use eidovela_open.Runner.Executor.Tokens.{introspect}
use eidovela_open.Runner.Executor.Exec.{
  Op, operation, introspection, op_of, operate, outcome, introspect_outcome, exec_step, run_steps,
}

-- The operation ended with an error.
abbrev pub HasFailed : {A : Type 0} → Result Failure A → Type 0
HasFailed r = (e : Failure) × (r ≡ err e)

outcome_iff :
    (want_deny : Bool) (r : Result Failure (Unit {0}))
    → (outcome want_deny r ≡ ok tt)
      ↔ (((want_deny ≡ true) × HasFailed r) ⊎ ((want_deny ≡ false) × (r ≡ ok tt)))
unfolding outcome
outcome_iff true (ok tt) = ground arith
outcome_iff true (err e) = (λ _. inl (refl, (e, refl)), λ _. refl)
outcome_iff false (ok tt) = ground arith
outcome_iff false (err e) = (λ h. cc, λ h. ground arith)

introspect_outcome_iff :
    (want_deny : Bool) (r : Result Failure Bool)
    → (introspect_outcome want_deny r ≡ ok tt)
      ↔ (((want_deny ≡ true) × (r ≡ ok false)) ⊎ ((want_deny ≡ false) × (r ≡ ok true)))
unfolding introspect_outcome
introspect_outcome_iff true (ok true) = ground arith
introspect_outcome_iff true (ok false) = ground arith
introspect_outcome_iff false (ok true) = ground arith
introspect_outcome_iff false (ok false) = ground arith
introspect_outcome_iff true (err e) = ground arith
introspect_outcome_iff false (err e) = ground arith

-- A step with an operation leaves the world as the operation does. It passes exactly when the step
-- expects "deny" and the operation failed, or expects anything else and the operation succeeded.
pub exec_step_iff :
    {D : Type 0} (env : Env D) (step : Step) (op : Op) (w : World D)
    → op_of step.op ≡ some (operation op)
    → ((exec_step env step w).0 ≡ (operate env step op w).0)
      × (((exec_step env step w).1 ≡ ok tt) ↔ (
          ((step.expect ≡ text "deny") × HasFailed (operate env step op w).1)
          ⊎ ((step.expect ≢ text "deny") × ((operate env step op w).1 ≡ ok tt))))
unfolding exec_step
exec_step_iff env step op w h = rw h (
  refl,
  ground (
    arith,
    text_eq_iff step.expect (text "deny"),
    outcome_iff (text_eq step.expect (text "deny")) (operate env step op w).1,
  ),
)

-- An introspect step passes exactly when the daemon answered, with the token inactive where the step
-- expects "deny", and active where it expects anything else.
pub exec_introspect_iff :
    {D : Type 0} (env : Env D) (step : Step) (w : World D)
    → op_of step.op ≡ some introspection
    → ((exec_step env step w).1 ≡ ok tt) ↔ (
        ((step.expect ≡ text "deny") × ((introspect env step w).1 ≡ ok false))
        ⊎ ((step.expect ≢ text "deny") × ((introspect env step w).1 ≡ ok true)))
unfolding exec_step
exec_introspect_iff env step w h = rw h (
    ground (
      arith,
      text_eq_iff step.expect (text "deny"),
      introspect_outcome_iff (text_eq step.expect (text "deny")) (introspect env step w).1,
    ))

pub Result-cases :
    {E A : Type 0} (r : Result E A) → ((e : E) × (r ≡ err e)) ⊎ ((a : A) × (r ≡ ok a))
Result-cases (ok a) = inr (a, refl)
Result-cases (err e) = inl (e, refl)

-- Where the loop over the steps stopped.
pub record StopsAt {D : Type 0} (env : ℕ → Env D) (i : ℕ) (steps : List Step) (w : World D) (j : ℕ)
    (e : Failure) (final : World D) : Type 0 where
  pub before : List Step
  pub step : Step
  pub after : List Step
  pub among : steps ≡ before ++ (step ∷ after)
  pub index : j ≡ i + length before
  pub between : World D
  pub passed : run_steps env i before w ≡ (between, ok tt)
  pub stopped : exec_step (env j) step between ≡ (final, err e)

-- Where the loop over the steps returns an error, it is that of the step whose index it names: every
-- earlier step passed, and no later step was run.
pub run_steps_stops :
    {D : Type 0} (env : ℕ → Env D) (i : ℕ) (steps : List Step) (w : World D) (j : ℕ) (e : Failure)
    (final : World D)
    → run_steps env i steps w ≡ (final, err (j, e))
    → StopsAt env i steps w j e final
unfolding run_steps
run_steps_stops env i [] w j e final h = cc
run_steps_stops env i (step ∷ steps) w j e final h =
    elim (Result-cases (exec_step (env i) step w).1) [
      | inl (e', failed) ↦
          let now : ((exec_step (env i) step w).0, err (i, e')) ≡ (final, err (j, e)) =
            rw (failed, run_steps) at h in
          record {
            before = [];
            step = step;
            after = steps;
            among = refl;
            index = ground arith;
            between = w;
            passed = refl;
            stopped = ground arith;
          }
      | inr (u, fine) ↦
          let later =
            run_steps_stops env (i + 1) steps (exec_step (env i) step w).0 j e final
              (rw (fine, run_steps) at h) in
          record {
            before = step ∷ later.before;
            step = later.step;
            after = later.after;
            among = ap (λ l. step ∷ l) later.among;
            index = ground (arith, later.index);
            between = later.between;
            passed = rw (fine, run_steps) later.passed;
            stopped = later.stopped;
          }
    ]
