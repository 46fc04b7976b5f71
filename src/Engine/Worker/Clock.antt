-- ===== src/Engine/Worker/Clock.antt =====
-- No call takes the clock of a run back.
use ai_coworker.Prelude.{
  ℕ, suc, ◌≤◌, Bool, true, false, Option, none, some, List, [], ◌∷◌, Text, arith, if◌then◌else◌,
}
use ai_coworker.Domain.{ChannelRef, IncomingEvent, Message, Task, Thread}
use ai_coworker.Store.{Error, wrap, Result, ok, err, Db}
use ai_coworker.Engine.World.{
  Env, World, responded, Action, ◌>>=◌, ◌>>◌, pure, raise, attempt, from_result, emit, pass, call,
}
use ai_coworker.Engine.Intent.{ask, classify, is_review_event}
use ai_coworker.Engine.Router.{Adapter}
use ai_coworker.Engine.Reply.{Responses, section_or_all}
use ai_coworker.Engine.Worker.Respond.{
  save, as_completed, fail_task, fail_all, respond_by, send_response, route_response,
  route_absorbed, route_batched_responses,
}
use ai_coworker.Engine.Worker.Process.{
  WorkerPool, assistant_message, is_review_task, is_review, release_other, keep_reviews,
  claim_siblings, absorb_claimed, absorb_now, absorb_review_tasks, or_fail, fail_execution, deliver,
  save_answer, complete_task, finish_task, execute_task, siblings, process_in, process_task,
}

abbrev pub Grows : {A : Type 0} → Action A → Type 0
Grows m = (w : World) → w.step ≤ ((m w).1).step

pub Grows-bind :
    {A B : Type 0} (m : Action A) (f : A → Action B)
    → Grows m
    → ((a : A) → Grows (f a))
    → Grows (m >>= f)
unfolding ◌>>=◌
Grows-bind {A = A} m f first next w = go (m w) (first w)
  where
    go :
        (p : Result A × World)
        → w.step ≤ (p.1).step
        → w.step ≤ ((((λ (_ : World). p) >>= f) w).1).step
    go (ok a, w1) h = let later = next a w1 in omega arith
    go (err e, w1) h = h

pub Grows-attempt : {A : Type 0} (m : Action A) → Grows m → Grows (attempt m)
Grows-attempt m h w = h w

pub Grows-call : {A : Type 0} (env : Env) (op : ℕ → Db → Result A × Db) → Grows (call env op)
unfolding call
Grows-call env op w = omega arith

-- What is attempted and then ignored.
pub Grows-logged :
    {A B : Type 0} (m : Action A) (b : B) → Grows m → Grows (do r ← attempt m; pure b)
Grows-logged m b h =
    Grows-bind (attempt m) (λ r. pure b) (Grows-attempt m h) (λ r. λ w. omega arith)

Grows-respond_by :
    (a : Option Adapter) (ref : ChannelRef) (msg : Text) → Grows (respond_by a ref msg)
unfolding respond_by
Grows-respond_by none ref msg = λ w. omega arith
Grows-respond_by (some a) ref msg =
    Grows-bind pass _ (λ w. omega arith)
      (λ n.
        Grows-bind (emit (responded ref msg)) _ (λ w. omega arith)
          (λ _. Grows-logged (from_result (a.send_response n ref msg)) tt (λ w. omega arith)))

module _ (env : Env) where
  Grows-save : (t : Task) → Grows (save env t)
  unfolding save
  Grows-save t = Grows-call env _

  Grows-fail_task : (t : Task) (e : Error) → Grows (fail_task env t e)
  unfolding fail_task
  Grows-fail_task t e = Grows-logged _ tt (Grows-save _)

  Grows-fail_all : (e : Error) (ts : List Task) → Grows (fail_all env e ts)
  unfolding fail_all
  Grows-fail_all e [] = λ w. omega arith
  Grows-fail_all e (t ∷ ts) =
      Grows-bind (fail_task env t e) _ (Grows-fail_task t e) (λ _. Grows-fail_all e ts)

module _ (adapters : Text → Option Adapter) where
  Grows-send_response : (ref : ChannelRef) (msg : Text) → Grows (send_response adapters ref msg)
  unfolding send_response
  Grows-send_response ref msg = Grows-respond_by (adapters ref.channel) ref msg

  Grows-route_response :
      (thread : Thread) (t : Task) (response : Text)
      → Grows (route_response adapters thread t response)
  unfolding route_response
  Grows-route_response thread t response =
      Grows-bind _ _ (Grows-send_response _ response) (λ _. λ w. omega arith)

  module _ (env : Env) where
    Grows-route_absorbed :
        (per : Option Responses) (whole : Text) (i : ℕ) (thread : Thread) (ts : List Task)
        → Grows (route_absorbed adapters env per whole i thread ts)
    unfolding route_absorbed
    Grows-route_absorbed per whole i thread [] = λ w. omega arith
    Grows-route_absorbed per whole i thread (t ∷ ts) =
        Grows-bind (attempt (save env (as_completed adapters env t (section_or_all per i whole)))) _
          (Grows-attempt (save env (as_completed adapters env t (section_or_all per i whole)))
            (Grows-save env _))
          (λ r. Grows-bind _ _ (Grows-route_response thread t _) (λ thread'.
            Grows-bind _ _ (Grows-route_absorbed per whole (suc i) thread' ts)
              (λ errs. λ w. omega arith)))

    Grows-route_batched_responses :
        (thread : Thread) (t : Task) (ts : List Task) (whole : Text)
        → Grows (route_batched_responses adapters env thread t ts whole)
    unfolding route_batched_responses
    Grows-route_batched_responses thread t ts whole =
        Grows-bind _ _ (Grows-route_response thread t _)
          (λ thread'. Grows-route_absorbed _ whole 2 thread' ts)

module _ (env : Env) (worker : Text) where
  Grows-if :
      {A : Type 0} (b : Bool) (m k : Action A) → Grows m → Grows k → Grows (if b then m else k)
  Grows-if true m k h l = h
  Grows-if false m k h l = l

  Grows-release_other : (t : Task) → Grows (release_other env worker t)
  unfolding release_other
  Grows-release_other t =
      Grows-if (is_review_task t) _ _ (λ w. omega arith) (Grows-logged _ tt (Grows-save env _))

  Grows-keep_reviews : (ts : List Task) → Grows (keep_reviews env worker ts)
  unfolding keep_reviews
  Grows-keep_reviews [] = λ w. omega arith
  Grows-keep_reviews (t ∷ ts) =
      Grows-bind _ _ (Grows-release_other t)
        (λ _. Grows-bind _ _ (Grows-keep_reviews ts) (λ rest. λ w. omega arith))

  Grows-absorb_claimed : (r : Result (List Task)) → Grows (absorb_claimed env worker r)
  unfolding absorb_claimed
  Grows-absorb_claimed (ok ts) = Grows-keep_reviews ts
  Grows-absorb_claimed (err e) = λ w. omega arith

  Grows-claim_siblings : (thread_id : Text) → Grows (claim_siblings env worker thread_id)
  unfolding claim_siblings
  Grows-claim_siblings thread_id = Grows-call env _

  Grows-absorb_now : (thread_id : Text) → Grows (absorb_now env worker thread_id)
  unfolding absorb_now
  Grows-absorb_now thread_id =
      Grows-bind (attempt (claim_siblings env worker thread_id)) _
        (Grows-attempt (claim_siblings env worker thread_id) (Grows-claim_siblings thread_id))
        Grows-absorb_claimed

  Grows-absorb_review_tasks : (t : Task) → Grows (absorb_review_tasks env worker t)
  unfolding absorb_review_tasks
  Grows-absorb_review_tasks t =
      Grows-bind pass _ (λ w. omega arith)
        (λ n. Grows-if (env.cancelled n) _ _ (λ w. omega arith) (Grows-absorb_now t.thread_id))

module _ (env : Env) (pool : WorkerPool) (worker : Text) where
  Grows-or_fail :
      {A : Type 0} (t : Task) (what : Text) (m : Action A)
      → Grows m
      → Grows (or_fail env pool worker t what m)
  Grows-or_fail t what m h = Grows-bind (attempt m) _ (Grows-attempt m h) next
    where
      next :
          {A : Type 0} (r : Result A)
          → Grows {A = A} (elim r [
            | ok a ↦ pure a
            | err e ↦ fail_task env t (wrap what e) >> raise (wrap what e)
          ])
      next (ok a) = λ w. omega arith
      next (err e) =
          Grows-bind (fail_task env t (wrap what e)) _ (Grows-fail_task env t _)
            (λ _ w. omega arith)

  Grows-fail_execution :
      (thread : Thread) (t : Task) (ts : List Task) (e : Error)
      → Grows (fail_execution env pool worker thread t ts e)
  unfolding fail_execution
  Grows-fail_execution thread t ts e = Grows-bind _ _ (Grows-fail_task env t _) (λ _.
      Grows-bind _ _ (Grows-send_response pool.adapters thread.channel_ref _)
        (λ _. Grows-fail_all env _ ts))

  Grows-deliver :
      (thread : Thread) (t : Task) (ts : List Task) (response : Text)
      → Grows (deliver env pool worker thread t ts response)
  unfolding deliver
  Grows-deliver thread t [] response =
      Grows-bind _ _ (Grows-route_response pool.adapters thread t response) (λ _ w. omega arith)
  Grows-deliver thread t (a ∷ ts) response =
      Grows-bind _ _ (Grows-route_batched_responses pool.adapters env thread t (a ∷ ts) response)
        (λ _ w. omega arith)

  Grows-complete_task :
      (thread : Thread) (t : Task) (ts : List Task) (response : Text)
      → Grows (complete_task env pool worker thread t ts response)
  unfolding complete_task save_answer
  Grows-complete_task thread t ts response = Grows-bind _ _ (Grows-save env _) (λ _.
      Grows-bind (attempt (save_answer env pool worker (assistant_message t response))) _
        (Grows-attempt (save_answer env pool worker (assistant_message t response))
          (Grows-call env _))
        (λ _. Grows-deliver thread t ts response))

  Grows-finish_task :
      (thread : Thread) (t : Task) (ts : List Task) (r : Result Text)
      → Grows (finish_task env pool worker thread t ts r)
  unfolding finish_task
  Grows-finish_task thread t ts (ok response) = Grows-complete_task thread t ts response
  Grows-finish_task thread t ts (err e) = Grows-fail_execution thread t ts e

  Grows-execute_task :
      (thread : Thread) (messages : List Message) (t : Task) (ts : List Task)
      → Grows (execute_task env pool worker thread messages t ts)
  unfolding execute_task
  Grows-execute_task thread messages t ts =
      Grows-bind pass _ (λ w. omega arith) (λ n. Grows-finish_task thread t ts _)

  Grows-siblings : (t : Task) → Grows (siblings env pool worker t)
  unfolding siblings
  Grows-siblings t =
      Grows-if env worker (is_review t.intent) _ _ (Grows-absorb_review_tasks env worker t)
        (λ w. omega arith)

  Grows-classify :
      (event : IncomingEvent) (history : List Message)
      → Grows (classify pool.table pool.provider event history)
  unfolding classify ask
  Grows-classify event history =
      Grows-if env worker (is_review_event event) _ _ (λ w. omega arith)
        (Grows-bind pass _ (λ w. omega arith) (λ n w. omega arith))

  Grows-process_in : (thread : Thread) (t : Task) → Grows (process_in env pool worker thread t)
  unfolding process_in
  Grows-process_in thread t = Grows-bind _ _ (Grows-or_fail t _ _ (Grows-call env _)) (λ messages.
      Grows-bind _ _ (Grows-or_fail t _ _ (Grows-classify _ messages)) (λ i.
        Grows-bind _ _ (Grows-or_fail _ _ _ (Grows-save env _))
          (λ _. Grows-bind _ _ (Grows-siblings _) (λ ts. Grows-execute_task thread messages _ ts))))

  pub Grows-process_task : (t : Task) → Grows (process_task env pool worker t)
  unfolding process_task
  Grows-process_task t =
      Grows-bind _ _ (Grows-or_fail t _ _ (Grows-call env _)) (λ thread. Grows-process_in thread t)
