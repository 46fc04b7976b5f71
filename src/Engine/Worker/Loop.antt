-- ===== src/Engine/Worker/Loop.antt =====
-- `runWorker`: the loop of one worker. The loop has no bound of its own, so a run is given the number
-- of its rounds.
use ai_coworker.Prelude.{ℕ, zero, suc, Bool, true, false, Option, none, some, Text, if◌then◌else◌}
use ai_coworker.Domain.{Task}
use ai_coworker.Store.{Result, ok, err, claim_next_task}
use ai_coworker.Engine.World.{Env, Action, ◌>>=◌, pure, attempt, call, pass}
use ai_coworker.Engine.Worker.Process.{WorkerPool, process_task}

-- How a round ended.
pub data Round : Type 0 where
  stopped backed_off idle worked : Round

module _ (env : Env) (pool : WorkerPool) (worker : Text) where
  unfoldable pub claim : Action (Option Task)
  claim =
      call env
        (λ n db. let (t, db') = claim_next_task (env.locks n) worker (env.now n) db in (ok t, db'))

  unfoldable pub handle_claim : Result (Option Task) → Action Round
  handle_claim (err e) = pure backed_off
  handle_claim (ok none) = pure idle
  handle_claim (ok (some t)) = do r ← attempt (process_task env pool worker t); pure worked

  -- One iteration of the `for`; the select on `ctx.Done()` reads the step.
  unfoldable pub worker_round : Action Round
  worker_round = do
    n ← pass
    let next = do r ← attempt claim; handle_claim r
    if env.cancelled n then pure stopped else next

  -- At most so many rounds; `true` if the worker has stopped.
  unfoldable pub run_worker : ℕ → Action Bool
  run_worker zero = pure false
  run_worker (suc rounds) = do
    r ← worker_round
    elim r [ stopped ↦ pure true | _ ↦ run_worker rounds ]
