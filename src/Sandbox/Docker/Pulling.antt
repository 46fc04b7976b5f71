-- ===== src/Sandbox/Docker/Pulling.antt =====
-- How often an image is pulled.
use ai_coworker.Prelude.{ℕ, zero, suc, ◌+◌, ◌≤◌, inl, inr, Text, arith, Option-cases}
use ai_coworker.Store.{Error}
use ai_coworker.Engine.World.Laws.{Result-cases}
use ai_coworker.Sandbox.Docker.{Pulls, pull_again, ensure_image}

pull_again-le :
    (img : Text) (p : Pulls) (left made : ℕ) (last : Error)
    → (pull_again img p left made last).1 ≤ made + left
unfolding pull_again
pull_again-le img p zero made last = omega arith
pull_again-le img p (suc left) made last = elim (Option-cases (p.cancelled made)) [
  | inr (e, stopped) ↦ rw stopped (omega arith)
  | inl running ↦ elim (Result-cases (p.pull made)) [
    | inl (a, done) ↦ rw (running, done) (omega arith)
    | inr (e, refused) ↦
        rw (running, refused) (omega (arith, pull_again-le img p left (suc made) e))
  ]
]

-- An image is pulled three times at most.
pub ensure_image-le : (img : Text) (p : Pulls) → (ensure_image img p).1 ≤ 3
unfolding ensure_image
ensure_image-le img p = elim (Result-cases (p.pull 0)) [
  | inl (a, done) ↦ rw done (omega arith)
  | inr (e, refused) ↦ rw refused (omega (arith, pull_again-le img p 2 1 e))
]
