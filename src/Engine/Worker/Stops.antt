-- ===== src/Engine/Worker/Stops.antt =====
-- A worker whose context is cancelled stops.
use ai_coworker.Prelude.{
  ℕ, zero, suc, ◌+◌, ◌≤◌, ◌≡◌, refl, ap, ◌∙◌, Bool, true, false, Option, none, some, arith, Text,
  Bool-cases, inl, inr,
}
use ai_coworker.Domain.{Task}
use ai_coworker.Store.{Result, ok, err}
use ai_coworker.Engine.World.{Env, World, Action, ◌>>=◌, attempt, pure}
use ai_coworker.Engine.World.Laws.{>>=-step}
use ai_coworker.Engine.Worker.Process.{WorkerPool, process_task}
use ai_coworker.Engine.Worker.Loop.{
  Round, stopped, backed_off, idle, worked, claim, handle_claim, worker_round, run_worker,
}
use ai_coworker.Engine.Worker.Clock.{
  Grows, Grows-bind, Grows-attempt, Grows-logged, Grows-call, Grows-process_task,
}

module _ (env : Env) (pool : WorkerPool) (worker : Text) where
  Grows-handle_claim : (r : Result (Option Task)) → Grows (handle_claim env pool worker r)
  unfolding handle_claim
  Grows-handle_claim (err e) = λ w. omega arith
  Grows-handle_claim (ok none) = λ w. omega arith
  Grows-handle_claim (ok (some t)) =
      Grows-logged (process_task env pool worker t) worked (Grows-process_task env pool worker t)

  abbrev next_round : Action Round
  next_round = do r ← attempt (claim env pool worker); handle_claim env pool worker r

  Grows-next_round : Grows next_round
  unfolding claim
  Grows-next_round =
      Grows-bind (attempt (claim env pool worker)) _
        (Grows-attempt (claim env pool worker) (Grows-call env _)) Grows-handle_claim

  handle_claim-ok :
      (r : Result (Option Task)) (w : World)
      → (a : Round) × ((handle_claim env pool worker r w).0 ≡ ok a)
  unfolding handle_claim ◌>>=◌
  handle_claim-ok (err e) w = (backed_off, refl)
  handle_claim-ok (ok none) w = (idle, refl)
  handle_claim-ok (ok (some t)) w = (worked, refl)

  next_round-ok : (w : World) → (a : Round) × ((next_round w).0 ≡ ok a)
  unfolding ◌>>=◌
  next_round-ok w = handle_claim-ok (claim env pool worker w).0 (claim env pool worker w).1

  worker_round-cancelled :
      (w : World) → env.cancelled w.step ≡ true → (worker_round env pool worker w).0 ≡ ok stopped
  unfolding worker_round ◌>>=◌
  worker_round-cancelled w e = rw e refl

  worker_round-next :
      (w : World)
      → env.cancelled w.step ≡ false
      → worker_round env pool worker w ≡ next_round (record w { step = suc w.step })
  unfolding worker_round ◌>>=◌
  worker_round-next w e = rw e refl

  -- What the loop does after a round.
  abbrev then_on : ℕ → Round → Action Bool
  then_on rounds r = elim r [ stopped ↦ pure true | _ ↦ run_worker env pool worker rounds ]

  run_worker-round :
      (rounds : ℕ) (w w1 : World) (r : Round)
      → worker_round env pool worker w ≡ (ok r, w1)
      → run_worker env pool worker (suc rounds) w ≡ then_on rounds r w1
  unfolding run_worker
  run_worker-round rounds w w1 r e =
      >>=-step (worker_round env pool worker) (then_on rounds) w w1 r e

  run_worker-cancelled :
      (rounds : ℕ) (w : World)
      → env.cancelled w.step ≡ true
      → (run_worker env pool worker (suc rounds) w).0 ≡ ok true
  run_worker-cancelled rounds w e =
      ap (λ (p : Result Bool × World). p.0)
        (run_worker-round rounds w (worker_round env pool worker w).1 stopped (
          ap (λ (r : Result Round). (r, (worker_round env pool worker w).1))
            (worker_round-cancelled w e)))

  on_round :
      (rounds : ℕ) (r : Round) (w : World)
      → (run_worker env pool worker rounds w).0 ≡ ok true
      → (then_on rounds r w).0 ≡ ok true
  on_round rounds stopped w h = refl
  on_round rounds backed_off w h = h
  on_round rounds idle w h = h
  on_round rounds worked w h = h

  -- A worker whose context is cancelled from some step of the run on stops, whatever the store, the
  -- model, the executor and the adapters do: one round more than the steps that are left until then
  -- is enough.
  pub run_worker-stops :
      (last : ℕ) (rounds : ℕ) (w : World)
      → ((n : ℕ) → last ≤ n → env.cancelled n ≡ true)
      → last ≤ w.step + rounds
      → (run_worker env pool worker (suc rounds) w).0 ≡ ok true
  run_worker-stops last zero w late h = run_worker-cancelled zero w (late w.step (omega arith))
  run_worker-stops last (suc rounds) w late h = elim (Bool-cases (env.cancelled w.step)) [
    | inl over ↦ run_worker-cancelled (suc rounds) w over
    | inr on ↦
        let start : World = record w { step = suc w.step } in
        let (r, returned) = next_round-ok start in
        let after = (next_round start).1 in
        let later : suc w.step ≤ after.step = Grows-next_round start in
        let round : worker_round env pool worker w ≡ (ok r, after) =
          worker_round-next w on ∙ ap (λ (x : Result Round). (x, after)) returned in
        ap (λ (p : Result Bool × World). p.0) (run_worker-round (suc rounds) w after r round)
        ∙ on_round (suc rounds) r after (run_worker-stops last rounds after late (omega arith))
  ]
