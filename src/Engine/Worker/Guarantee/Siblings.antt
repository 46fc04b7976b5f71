-- ===== src/Engine/Worker/Guarantee/Siblings.antt =====
-- What the absorption of review tasks guarantees to the others: the worker holds what it claimed.
use mathlib.Core.List.{append-nil}
use ai_coworker.Prelude.{ℕ, suc, ◌≡◌, refl, ◌∙◌, ◌≢◌, inl, inr, List, [], ◌∷◌, Text, Bool-cases}
use ai_coworker.Domain.{Task}
use ai_coworker.Store.{Result, ok, err, Db, claim_pending_tasks}
use ai_coworker.Store.Rows.{All-rotate, Distinct-rotate}
use ai_coworker.Engine.World.{Env, World, Fate, done, refused, lost, call, settle, attempt, pass}
use ai_coworker.Engine.World.Laws.{>>=-step}
use ai_coworker.Engine.Worker.Process.{
  WorkerPool, claim_siblings, absorb_claimed, absorb_now, absorb_review_tasks, siblings, is_review,
}
use ai_coworker.Engine.Worker.Rely.{
  Rely, Holding, Holding-calm, Holding-absorb, Holding-forget, Holding-first,
}
use ai_coworker.Engine.Worker.Safety.{keep_reviews-Takes}

module _ (env : Env) (pool : WorkerPool) (worker other id thread_id own : Text) (watched : Type 0)
    (rely : Rely env worker other watched) (strangers : watched → worker ≢ other) where
  abbrev H : List Task → Db → Type 0
  H = Holding env worker other id thread_id own watched

  calm : (ts : List Task) (n : ℕ) (db : Db) → H ts db → H ts (env.others n db)
  calm = Holding-calm env worker other id thread_id own watched rely strangers

  forget : (ts : List Task) (db : Db) → H ts db → H [] db
  forget = Holding-forget env worker other id thread_id own watched rely strangers

  abbrev Claimed : Task → Result (List Task) → Db → Type 0
  Claimed t (ok ts) db = H (t ∷ ts) db
  Claimed t (err e) db = H (t ∷ []) db

  claim_siblings-Claimed :
      (t : Task) (w : World)
      → H (t ∷ []) w.db
      → Claimed t (claim_siblings env worker own w).0 ((claim_siblings env worker own w).1).db
  unfolding claim_siblings call
  claim_siblings-Claimed t w h =
      go (env.fate w.step) (env.others w.step w.db) (calm (t ∷ []) w.step w.db h)
    where
      go :
          (f : Fate) (db : Db)
          → H (t ∷ []) db
          → let (ts, db') = claim_pending_tasks (env.locks w.step) own worker (env.now w.step) db in
            let p : Result (List Task) × Db = settle f db (ok ts, db') in Claimed t p.0 p.1
      go done db k =
          Holding-absorb env worker other id thread_id own watched rely strangers (env.locks w.step)
            (env.now w.step) t db k
      go (refused s) db k = k
      go (lost s) db k =
          Holding-first env worker other id thread_id own watched rely strangers t _ _ (
            Holding-absorb env worker other id thread_id own watched rely strangers
              (env.locks w.step) (env.now w.step) t db k)

  absorb_claimed-Takes :
      (t : Task) (r : Result (List Task)) (w : World)
      → Claimed t r w.db
      → (kept : List Task) × (w2 : World) × (absorb_claimed env worker r w ≡ (ok kept, w2))
        × H (t ∷ kept) w2.db
  unfolding absorb_claimed
  absorb_claimed-Takes t (err e) w h = ([], w, refl, h)
  absorb_claimed-Takes t (ok ts) w h =
      keep_reviews-Takes env worker other id thread_id own watched rely strangers ts (t ∷ []) w
        (record {
          valid = h.valid;
          theirs = h.theirs;
          mine = All-rotate _ t ts [] (rw append-nil h.mine);
          apart = Distinct-rotate t ts [] (rw append-nil h.apart);
        })

  -- Whatever the claim of the siblings does, the worker holds the task and what it goes on with.
  absorb_now-Takes :
      (t : Task) (w : World)
      → H (t ∷ []) w.db
      → (kept : List Task) × (w2 : World) × (absorb_now env worker own w ≡ (ok kept, w2))
        × H (t ∷ kept) w2.db
  unfolding absorb_now
  absorb_now-Takes t w h =
      let r = (claim_siblings env worker own w).0 in
      let w1 = (claim_siblings env worker own w).1 in
      let (kept, w2, run, after) = absorb_claimed-Takes t r w1 (claim_siblings-Claimed t w h) in
      (
        kept,
        w2,
        >>=-step (attempt (claim_siblings env worker own)) (absorb_claimed env worker) w w1 r refl
            ∙ run,
        after,
      )

  pub siblings-Takes :
      (t : Task) (w : World)
      → t.thread_id ≡ own
      → H (t ∷ []) w.db
      → (kept : List Task) × (w2 : World) × (siblings env pool worker t w ≡ (ok kept, w2))
        × H (t ∷ kept) w2.db
  unfolding siblings absorb_review_tasks
  siblings-Takes t w here h = elim (Bool-cases (is_review t.intent)) [
    | inr plain ↦ ([], w, rw plain, h)
    | inl review ↦
        let w1 : World = record w { step = suc w.step } in
        let passed = >>=-step pass _ w w1 w.step refl in
        elim (Bool-cases (env.cancelled w.step)) [
          | inl cancelled ↦ ([], w1, rw review (passed ∙ (rw cancelled)), h)
          | inr running ↦
              let (kept, w2, run, after) = absorb_now-Takes t w1 h in
              (kept, w2, rw review (passed ∙ (rw (running, here) run)), after)
        ]
  ]
