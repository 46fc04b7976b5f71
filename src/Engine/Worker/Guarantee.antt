-- ===== src/Engine/Worker/Guarantee.antt =====
-- What a worker that processes a task guarantees to the others.
pub mod Siblings
use mathlib.Core.List.{append-nil}
use ai_coworker.Prelude.{
  ℕ, suc, ◌≡◌, refl, sym, subst, ◌∙◌, ◌≢◌, inl, inr, List, [], ◌∷◌, Text, Bool-cases,
}
use ai_coworker.Domain.{TaskStatus, Intent, Task, Thread, Message, IncomingEvent}
use ai_coworker.Store.{Error, Result, ok, err, Db, claim_pending_tasks, create_message}
use ai_coworker.Store.Rows.{All-rotate, Distinct-rotate}
use ai_coworker.Store.Ownership.{create_message-tasks}
use ai_coworker.Engine.World.{
  Env, World, Fate, done, refused, lost, Action, ◌>>=◌, call, settle, attempt, reading, pass,
}
use ai_coworker.Engine.World.Laws.{>>=-step}
use ai_coworker.Engine.Intent.{Provider, is_review_event, ask, classify}
use ai_coworker.Engine.Worker.Respond.{save, fail_task, as_completed}
use ai_coworker.Engine.Worker.Process.{
  WorkerPool, claim_siblings, absorb_claimed, absorb_now, finish_task, absorb_review_tasks,
  siblings, is_review, or_fail, fail_execution, deliver, save_answer, complete_task, execute_task,
  classified, process_in, process_task, sorry,
}
use ai_coworker.Engine.Worker.Rely.{
  Rely, Takes, Takes-bind, Takes-call, Holding, Holding-calm, Holding-keep, Holding-absorb,
  Holding-forget, Holding-first, Holding-tasks,
}
use ai_coworker.Engine.Worker.Safety.{
  send_response-Takes, route_response-Takes, save-let_go, fail_task-Takes, fail_all-Takes,
  route_batched_responses-Takes, keep_reviews-Takes,
}
use ai_coworker.Engine.Worker.Guarantee.Siblings.{siblings-Takes}

-- What is read from the store leaves the tables to the others.
pub Takes-reading :
    {A : Type 0} (env : Env) (P : Db → Type 0) (op : Db → Result A)
    → ((n : ℕ) (db : Db) → P db → P (env.others n db))
    → Takes P (call env (reading op)) P
Takes-reading env P op calm = Takes-call env P P (reading op) calm (λ n db p. p) (λ db p. p)

pub classify-Takes :
    (P : Db → Type 0) (table : ℕ → ℕ) (provider : Provider) (e : IncomingEvent)
    (history : List Message)
    → Takes P (classify table provider e history) P
unfolding classify ask ◌>>=◌
classify-Takes P table provider e history w p = elim (Bool-cases (is_review_event e)) [
  | inl review ↦ rw review p
  | inr other ↦ rw other p
]

module _ (env : Env) (pool : WorkerPool) (worker other id thread_id own : Text) (watched : Type 0)
    (rely : Rely env worker other watched) (strangers : watched → worker ≢ other) where
  abbrev H : List Task → Db → Type 0
  H = Holding env worker other id thread_id own watched

  calm : (ts : List Task) (n : ℕ) (db : Db) → H ts db → H ts (env.others n db)
  calm = Holding-calm env worker other id thread_id own watched rely strangers

  forget : (ts : List Task) (db : Db) → H ts db → H [] db
  forget = Holding-forget env worker other id thread_id own watched rely strangers

  deliver-Takes :
      (thread : Thread) (t : Task) (ts : List Task) (response : Text)
      → Takes (H ts) (deliver env pool worker thread t ts response) (H [])
  unfolding deliver
  deliver-Takes thread t [] response w h =
      Takes-bind (H []) (H []) (H []) _ _
        (route_response-Takes (H []) pool.adapters thread t response) (λ _ v k. k) (λ db k. k) w h
  deliver-Takes thread t (a ∷ ts) response w h =
      Takes-bind (H (a ∷ ts)) (H []) (H []) _ _
        (route_batched_responses-Takes env worker other id thread_id own watched rely strangers
          pool.adapters thread t (a ∷ ts) response)
        (λ _ v k. k) (λ db k. k) w h

  save_answer-Takes :
      (m : Message) (ts : List Task) → Takes (H ts) (save_answer env pool worker m) (H ts)
  unfolding save_answer
  save_answer-Takes m ts =
      Takes-call env (H ts) (H ts) _ (calm ts)
        (λ n db h.
          Holding-tasks env worker other id thread_id own watched rely strangers ts db
            (create_message (env.fresh_id n) (env.now n) m db).1
            (create_message-tasks (env.fresh_id n) (env.now n) m db) h)
        (λ db h. h)

  complete_task-Takes :
      (thread : Thread) (t : Task) (ts : List Task) (response : Text)
      → Takes (H (t ∷ ts)) (complete_task env pool worker thread t ts response) (H [])
  unfolding complete_task
  complete_task-Takes thread t ts response =
      Takes-bind (H (t ∷ ts)) (H ts) (H []) _ _
        (save-let_go env worker other id thread_id own watched rely strangers t
          (as_completed pool.adapters env t response) ts refl (λ x. cc))
        (λ _.
          Takes-bind (H ts) (H ts) (H []) _ _ (λ w h. save_answer-Takes _ ts w h)
            (λ _. deliver-Takes thread t ts response) (forget ts))
        (forget ts)

  fail_execution-Takes :
      (thread : Thread) (t : Task) (ts : List Task) (e : Error)
      → Takes (H (t ∷ ts)) (fail_execution env pool worker thread t ts e) (H [])
  unfolding fail_execution
  fail_execution-Takes thread t ts e =
      Takes-bind (H (t ∷ ts)) (H ts) (H []) _ _
        (fail_task-Takes env worker other id thread_id own watched rely strangers t t ts _ refl)
        (λ _.
          Takes-bind (H ts) (H ts) (H []) _ _
            (send_response-Takes (H ts) pool.adapters thread.channel_ref sorry)
            (λ _. fail_all-Takes env worker other id thread_id own watched rely strangers _ ts)
            (forget ts))
        (forget ts)

  finish_task-Takes :
      (thread : Thread) (t : Task) (ts : List Task) (r : Result Text)
      → Takes (H (t ∷ ts)) (finish_task env pool worker thread t ts r) (H [])
  unfolding finish_task
  finish_task-Takes thread t ts (ok response) = complete_task-Takes thread t ts response
  finish_task-Takes thread t ts (err e) = fail_execution-Takes thread t ts e

  execute_task-Takes :
      (thread : Thread) (messages : List Message) (t : Task) (ts : List Task)
      → Takes (H (t ∷ ts)) (execute_task env pool worker thread messages t ts) (H [])
  unfolding execute_task
  execute_task-Takes thread messages t ts =
      Takes-bind (H (t ∷ ts)) (H (t ∷ ts)) (H []) _ pass (λ w h. h)
        (λ n. finish_task-Takes thread t ts _) (forget (t ∷ ts))

  -- A failed step marks the task as failed and ends the function; otherwise the task is still held.
  or_fail-Takes :
      {A B : Type 0} (t t' : Task) (what : Text) (m : Action A) (f : A → Action B)
      → t'.id ≡ t.id
      → Takes (H (t ∷ [])) m (H (t ∷ []))
      → ((a : A) → Takes (H (t ∷ [])) (f a) (H []))
      → Takes (H (t ∷ [])) (or_fail env pool worker t' what m >>= f) (H [])
  unfolding ◌>>=◌ fail_task
  or_fail-Takes {A} {B} t t' what m f same run next w h = go (m w) (run w h)
    where
      go :
          (x : Result A × World)
          → H (t ∷ []) (x.1).db
          → H [] (((or_fail env pool worker t' what (λ _. x) >>= f) w).1).db
      go (ok a, w1) k = next a w1 k
      go (err e, w1) k =
          save-let_go env worker other id thread_id own watched rely strangers t _ [] same (λ x. cc)
            w1 k

  save-classified-Takes :
      (t : Task) (i : Intent)
      → t.status ≡ TaskStatus.in_progress
      → t.worker_id ≡ worker
      → t.thread_id ≡ own
      → Takes (H (t ∷ [])) (save env (classified env pool worker t i)) (H (t ∷ []))
  unfolding save
  save-classified-Takes t i running owner here =
      Takes-call env (H (t ∷ [])) (H (t ∷ [])) _ (calm (t ∷ []))
        (λ n db h.
          Holding-keep env worker other id thread_id own watched rely strangers (env.now n) t
            (classified env pool worker t i) [] db refl running owner here h)
        (λ db h. h)

  -- The rest of the processing, once the intent is stored.
  siblings_then-Takes :
      (thread : Thread) (messages : List Message) (t : Task)
      → t.thread_id ≡ own
      → Takes
          (H (t ∷ []))
          (siblings env pool worker t >>= execute_task env pool worker thread messages t)
          (H [])
  siblings_then-Takes thread messages t here w h =
      let (kept, w2, run, held) =
        siblings-Takes env pool worker other id thread_id own watched rely strangers t w here h in
      subst (λ (p : Result (Unit {0}) × World). H [] (p.1).db)
        (sym (
          >>=-step (siblings env pool worker t) (execute_task env pool worker thread messages t) w
            w2 kept run))
        (execute_task-Takes thread messages t kept w2 held)

  process_in-Takes :
      (thread : Thread) (t : Task)
      → t.status ≡ TaskStatus.in_progress
      → t.worker_id ≡ worker
      → t.thread_id ≡ own
      → Takes (H (t ∷ [])) (process_in env pool worker thread t) (H [])
  unfolding process_in
  process_in-Takes thread t running owner here =
      or_fail-Takes t t _ _ _ refl (Takes-reading env (H (t ∷ [])) _ (calm (t ∷ []))) (λ messages.
        or_fail-Takes t t _ _ _ refl (classify-Takes (H (t ∷ [])) _ _ _ messages) (λ i.
          or_fail-Takes t (classified env pool worker t i) _ _ _ refl
            (save-classified-Takes t i running owner here)
            (λ _ w h.
              siblings_then-Takes thread messages (classified env pool worker t i) here w
                (same_id t i w.db h))))
    where
      same_id :
          (t : Task) (i : Intent) (db : Db)
          → H (t ∷ []) db
          → H (classified env pool worker t i ∷ []) db
      same_id t i db h = record {
        valid = h.valid;
        theirs = h.theirs;
        mine = (h.mine.0, tt);
        apart = (tt, tt);
      }

  pub process_task-Takes :
      (t : Task)
      → t.status ≡ TaskStatus.in_progress
      → t.worker_id ≡ worker
      → t.thread_id ≡ own
      → Takes (H (t ∷ [])) (process_task env pool worker t) (H [])
  unfolding process_task
  process_task-Takes t running owner here =
      or_fail-Takes t t _ _ _ refl (Takes-reading env (H (t ∷ [])) _ (calm (t ∷ [])))
        (λ thread. process_in-Takes thread t running owner here)
