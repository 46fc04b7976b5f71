-- ===== src/Engine/Worker/Finish/Calls.antt =====
-- What the calls of a worker do to the row of the task that it processes, where the database answers.
use ai_coworker.Prelude.{ℕ, suc, ◌≡◌, refl, subst, true, Option, List, [], ◌∷◌, Text}
use ai_coworker.Domain.{Task, Thread}
use ai_coworker.Store.{Error, Result, Db, update_task}
use ai_coworker.Store.Final.{
  IsStored, is_final, IsFinished, IsStored-update, IsFinished-saved, IsFinished-update,
}
use ai_coworker.Engine.World.{Env, Fate, ◌>>=◌, call}
use ai_coworker.Engine.Router.{Adapter}
use ai_coworker.Engine.Reply.{Responses}
use ai_coworker.Engine.Worker.Respond.{
  save, as_failed, fail_task, fail_all, as_completed, route_absorbed,
}
use ai_coworker.Engine.Worker.Rely.{Takes, Takes-bind}
use ai_coworker.Engine.Worker.Safety.{route_response-Takes}

-- The database answers every call, and the others leave the row of the task where it is, and a row
-- that is final as it is.
pub record Answers (env : Env) (id : Text) : Type 0 where
  pub done : (n : ℕ) → env.fate n ≡ Fate.done
  pub stored : (n : ℕ) (db : Db) → IsStored id db → IsStored id (env.others n db)
  pub finished : (n : ℕ) (db : Db) → IsFinished id db → IsFinished id (env.others n db)

module _ (env : Env) (id : Text) (answers : Answers env id) where
  abbrev P : Db → Type 0
  P = IsStored id

  abbrev F : Db → Type 0
  F = IsFinished id

  -- A call that the database answers.
  pub call-Takes :
      {A : Type 0} (Q R : Db → Type 0) (op : ℕ → Db → Result A × Db)
      → ((n : ℕ) (db : Db) → Q db → Q (env.others n db))
      → ((n : ℕ) (db : Db) → Q db → R (op n db).1)
      → Takes Q (call env op) R
  unfolding call
  call-Takes Q R op calm acts w q =
      rw (answers.done w.step) (acts w.step (env.others w.step w.db) (calm w.step w.db q))

  pub save-stored : (t : Task) → Takes P (save env t) P
  unfolding save
  save-stored t = call-Takes P P _ answers.stored (λ n db. IsStored-update id (env.now n) t db)

  pub save-final : (t : Task) → t.id ≡ id → is_final t.status ≡ true → Takes P (save env t) F
  unfolding save
  save-final t same final = call-Takes P F _ answers.stored (λ n db h.
      subst (λ i. IsFinished i (update_task (env.now n) t db).1) same
        (IsFinished-saved (env.now n) t db (rw same h) final))

  pub save-keeps : (t : Task) → is_final t.status ≡ true → Takes F (save env t) F
  unfolding save
  save-keeps t final =
      call-Takes F F _ answers.finished (λ n db. IsFinished-update id (env.now n) t db final)

  pub fail_task-final : (t : Task) (e : Error) → t.id ≡ id → Takes P (fail_task env t e) F
  unfolding fail_task ◌>>=◌
  fail_task-final t e same = save-final (as_failed env t e) same refl

  pub fail_task-keeps : (t : Task) (e : Error) → Takes F (fail_task env t e) F
  unfolding fail_task ◌>>=◌
  fail_task-keeps t e = save-keeps (as_failed env t e) refl

  pub fail_all-keeps : (e : Error) (ts : List Task) → Takes F (fail_all env e ts) F
  unfolding fail_all
  fail_all-keeps e [] w h = h
  fail_all-keeps e (t ∷ ts) w h =
      Takes-bind F F F _ _ (fail_task-keeps t e) (λ _. fail_all-keeps e ts) (λ db k. k) w h

  pub route_absorbed-keeps :
      (get_adapter : Text → Option Adapter) (per_comment : Option Responses) (whole : Text) (i : ℕ)
      (thread : Thread) (ts : List Task)
      → Takes F (route_absorbed get_adapter env per_comment whole i thread ts) F
  unfolding route_absorbed
  route_absorbed-keeps get_adapter per_comment whole i thread [] w h = h
  route_absorbed-keeps get_adapter per_comment whole i thread (t ∷ ts) w h =
      Takes-bind F F F _ _ (λ v k. save-keeps (as_completed get_adapter env t _) refl v k)
        (λ _.
          Takes-bind F F F _ _ (route_response-Takes F get_adapter thread t _)
            (λ thread'.
              Takes-bind F F F _ _
                (route_absorbed-keeps get_adapter per_comment whole (suc i) thread' ts) (λ _ v k. k)
                (λ db k. k))
            (λ db k. k))
        (λ db k. k) w h
