-- ===== src/Engine/Worker/Finish.antt =====
-- A task that is processed comes to an end: with a database that answers, its row is completed or
-- failed when the worker is done with it.
pub mod Calls
use ai_coworker.Prelude.{
  ℕ, suc, ◌≡◌, refl, sym, subst, ◌∙◌, inl, inr, true, Option, List, [], ◌∷◌, Text, Bool-cases,
  if◌then◌else◌,
}
use ai_coworker.Domain.{Task, Thread, Message}
use ai_coworker.Store.{Error, Result, ok, err, Db, update_task}
use ai_coworker.Store.Final.{
  IsStored, is_final, IsFinished, IsStored-update, IsFinished-saved, IsFinished-update,
  IsStored-claim_pending,
}
use ai_coworker.Store.Rows.{In}
use ai_coworker.Store.Ownership.{create_message-tasks}
use ai_coworker.Engine.World.{Env, World, Fate, Action, ◌>>=◌, call, attempt, pass}
use ai_coworker.Engine.World.Laws.{>>=-step}
use ai_coworker.Engine.Router.{Adapter}
use ai_coworker.Engine.Reply.{Responses}
use ai_coworker.Engine.Worker.Respond.{
  save, as_failed, fail_task, fail_all, as_completed, route_absorbed, route_batched_responses,
}
use ai_coworker.Engine.Worker.Process.{
  WorkerPool, is_review_task, released, release_other, keep_reviews, claim_siblings, absorb_claimed,
  absorb_now, absorb_review_tasks, siblings, is_review, or_fail, fail_execution, deliver,
  save_answer, complete_task, finish_task, execute_task, classified, process_in, process_task,
  sorry,
}
use ai_coworker.Engine.Worker.Rely.{Takes, Takes-bind}
use ai_coworker.Engine.Worker.Safety.{
  send_response-Takes, route_response-Takes, release_other-ok, keep_reviews-cons, keep_reviews-nil,
}
use ai_coworker.Engine.Worker.Guarantee.{Takes-reading, classify-Takes}
use ai_coworker.Engine.Worker.Finish.Calls.{
  Answers, call-Takes, save-stored, save-final, save-keeps, fail_task-final, fail_task-keeps,
  fail_all-keeps, route_absorbed-keeps,
}

module _ (env : Env) (id : Text) (answers : Answers env id) where
  abbrev P : Db → Type 0
  P = IsStored id

  abbrev F : Db → Type 0
  F = IsFinished id

  module _ (pool : WorkerPool) (worker : Text) where
    deliver-keeps :
        (thread : Thread) (t : Task) (ts : List Task) (response : Text)
        → Takes F (deliver env pool worker thread t ts response) F
    unfolding deliver route_batched_responses
    deliver-keeps thread t [] response w h =
        Takes-bind F F F _ _ (route_response-Takes F pool.adapters thread t response) (λ _ v k. k)
          (λ db k. k) w h
    deliver-keeps thread t (a ∷ ts) response w h =
        Takes-bind F F F _ _
          (Takes-bind F F F _ _ (route_response-Takes F pool.adapters thread t _)
            (λ thread'.
              route_absorbed-keeps env id answers pool.adapters _ response 2 thread' (a ∷ ts))
            (λ db k. k))
          (λ _ v k. k) (λ db k. k) w h

    save_answer-keeps : (m : Message) → Takes F (save_answer env pool worker m) F
    unfolding save_answer
    save_answer-keeps m = call-Takes env id answers F F _ answers.finished (λ n db h.
        subst (λ ts. (r : Task) × In r ts × (r.id ≡ id) × (is_final r.status ≡ true))
          (sym (create_message-tasks (env.fresh_id n) (env.now n) m db)) h)

    finish_task-final :
        (thread : Thread) (t : Task) (ts : List Task) (r : Result Text)
        → t.id ≡ id
        → Takes P (finish_task env pool worker thread t ts r) F
    unfolding finish_task complete_task fail_execution
    finish_task-final thread t ts (ok response) same =
        Takes-bind P F F _ _
          (save-final env id answers (as_completed pool.adapters env t response) same refl)
          (λ _.
            Takes-bind F F F _ _ (λ w h. save_answer-keeps _ w h)
              (λ _. deliver-keeps thread t ts response) (λ db k. k))
          (λ db k. k)
    finish_task-final thread t ts (err e) same =
        Takes-bind P F F _ _ (fail_task-final env id answers t _ same)
          (λ _.
            Takes-bind F F F _ _ (send_response-Takes F pool.adapters thread.channel_ref sorry)
              (λ _. fail_all-keeps env id answers _ ts) (λ db k. k))
          (λ db k. k)

    execute_task-final :
        (thread : Thread) (messages : List Message) (t : Task) (ts : List Task)
        → t.id ≡ id
        → Takes P (execute_task env pool worker thread messages t ts) F
    unfolding execute_task ◌>>=◌
    execute_task-final thread messages t ts same w h =
        finish_task-final thread t ts _ same (record w { step = suc w.step }) h

    release_other-stored : (t : Task) → Takes P (release_other env worker t) P
    unfolding release_other ◌>>=◌
    release_other-stored t w h = elim (Bool-cases (is_review_task t)) [
      | inl review ↦ rw review h
      | inr plain ↦ rw plain (save-stored env id answers (released t) w h)
    ]

    -- An action that returns a value in a state where the task is stored.
    abbrev Returns : {A : Type 0} → Action A → World → Type 0
    Returns {A} m w = (a : A) × (v : World) × (m w ≡ (ok a, v)) × P v.db

    keep_reviews-stored :
        (ts : List Task) (w : World) → P w.db → Returns (keep_reviews env worker ts) w
    keep_reviews-stored [] w h = ([], w, keep_reviews-nil env worker w, h)
    keep_reviews-stored (t ∷ ts) w h =
        let w1 = (release_other env worker t w).1 in
        let (kept, w2, run, after) = keep_reviews-stored ts w1 (release_other-stored t w h) in
        (
          if is_review_task t then t ∷ kept else kept,
          w2,
          keep_reviews-cons env worker t ts kept w w1 w2 (release_other-ok env worker t w) run,
          after,
        )

    absorb_claimed-stored :
        (r : Result (List Task)) (w : World) → P w.db → Returns (absorb_claimed env worker r) w
    unfolding absorb_claimed
    absorb_claimed-stored (err e) w h = ([], w, refl, h)
    absorb_claimed-stored (ok ts) w h = keep_reviews-stored ts w h

    claim_siblings-stored : (thread_id : Text) → Takes P (claim_siblings env worker thread_id) P
    unfolding claim_siblings
    claim_siblings-stored thread_id =
        call-Takes env id answers P P _ answers.stored
          (λ n db. IsStored-claim_pending id (env.locks n) thread_id worker (env.now n) db)

    absorb_now-stored :
        (thread_id : Text) (w : World) → P w.db → Returns (absorb_now env worker thread_id) w
    unfolding absorb_now
    absorb_now-stored thread_id w h =
        let r = (claim_siblings env worker thread_id w).0 in
        let w1 = (claim_siblings env worker thread_id w).1 in
        let (kept, w2, run, after) =
          absorb_claimed-stored r w1 (claim_siblings-stored thread_id w h) in
        (
          kept,
          w2,
          >>=-step (attempt (claim_siblings env worker thread_id)) (absorb_claimed env worker) w w1
                r refl
              ∙ run,
          after,
        )

    siblings-stored : (t : Task) (w : World) → P w.db → Returns (siblings env pool worker t) w
    unfolding siblings absorb_review_tasks
    siblings-stored t w h = elim (Bool-cases (is_review t.intent)) [
      | inr plain ↦ ([], w, rw plain refl, h)
      | inl review ↦
          let w1 : World = record w { step = suc w.step } in
          let passed = >>=-step pass _ w w1 w.step refl in
          elim (Bool-cases (env.cancelled w.step)) [
            | inl cancelled ↦ ([], w1, rw review (passed ∙ (rw cancelled refl)), h)
            | inr running ↦
                let (kept, w2, run, after) = absorb_now-stored t.thread_id w1 h in
                (kept, w2, rw review (passed ∙ (rw running run)), after)
          ]
    ]

    siblings_then-final :
        (thread : Thread) (messages : List Message) (t : Task)
        → t.id ≡ id
        → Takes P (siblings env pool worker t >>= execute_task env pool worker thread messages t) F
    siblings_then-final thread messages t same w h =
        let (kept, w2, run, after) = siblings-stored t w h in
        subst (λ (p : Result (Unit {0}) × World). F (p.1).db)
          (sym (
            >>=-step (siblings env pool worker t) (execute_task env pool worker thread messages t) w
              w2 kept run))
          (execute_task-final thread messages t kept same w2 after)

    -- A failed step fails the task and ends the function; otherwise the task is still stored.
    or_fail-final :
        {A B : Type 0} (t : Task) (what : Text) (m : Action A) (f : A → Action B)
        → t.id ≡ id
        → Takes P m P
        → ((a : A) → Takes P (f a) F)
        → Takes P (or_fail env pool worker t what m >>= f) F
    unfolding ◌>>=◌ fail_task
    or_fail-final {A} {B} t what m f same run next w h = go (m w) (run w h)
      where
        go :
            (x : Result A × World)
            → P (x.1).db
            → F (((or_fail env pool worker t what (λ _. x) >>= f) w).1).db
        go (ok a, w1) k = next a w1 k
        go (err e, w1) k = save-final env id answers (as_failed env t _) same refl w1 k

    process_in-final :
        (thread : Thread) (t : Task) → t.id ≡ id → Takes P (process_in env pool worker thread t) F
    unfolding process_in
    process_in-final thread t same =
        or_fail-final t _ _ _ same (Takes-reading env P _ answers.stored) (λ messages.
          or_fail-final t _ _ _ same (classify-Takes P _ _ _ messages) (λ i.
            or_fail-final (classified env pool worker t i) _ _ _ same
              (save-stored env id answers (classified env pool worker t i))
              (λ _. siblings_then-final thread messages (classified env pool worker t i) same)))

    process_task-final : (t : Task) → t.id ≡ id → Takes P (process_task env pool worker t) F
    unfolding process_task
    process_task-final t same =
        or_fail-final t _ _ _ same (Takes-reading env P _ answers.stored)
          (λ thread. process_in-final thread t same)

-- A task that is stored is completed or failed when a worker has processed it, whatever the classifier,
-- the executor and the adapters do, if the database answers and the others leave the row where it
-- is and, once it is final, as it is.
pub process_task-IsFinished :
    (env : Env) (pool : WorkerPool) (worker : Text) (t : Task) (w : World)
    → Answers env t.id
    → IsStored t.id w.db
    → IsFinished t.id ((process_task env pool worker t w).1).db
process_task-IsFinished env pool worker t w answers stored =
    process_task-final env t.id answers pool worker t refl w stored
