-- ===== src/Engine/Worker/Process.antt =====
-- `processTask` and `absorbReviewTasks`.
use ai_coworker.Prelude.{
  ℕ, zero, suc, Bool, true, false, Option, none, some, List, [], ◌∷◌, ◌++◌, ◌||◌, Text, text,
  text_eq, get, if◌then◌else◌,
}
use ai_coworker.Domain.{Role, Intent, TaskStatus, IncomingEvent, Message, Task, Thread}
use ai_coworker.Store.{
  Error, wrap, Result, ok, err, get_thread, get_messages, create_message, claim_pending_tasks,
}
use ai_coworker.Engine.World.{Env, Action, ◌>>=◌, ◌>>◌, pure, raise, attempt, pass, call, reading}
use ai_coworker.Engine.Intent.{Provider, entries, classify}
use ai_coworker.Engine.Router.{Adapter}
use ai_coworker.Engine.Reply.{build_merged_review_input}
use ai_coworker.Engine.Worker.Respond.{
  save, fail_task, fail_all, send_response, route_response, as_completed, route_batched_responses,
}

-- `executor.Context`.
pub record ExecContext : Type 0 where
  pub thread : Thread
  pub messages : List Message
  pub task : Task
  pub event : IncomingEvent

-- `executor.Executor`: the response, by the step of the call and the timeout of its context.
abbrev pub Executor : Type 0
Executor = ℕ → Option ℕ → ExecContext → Result Text

-- `WorkerPool`; a `table` is Go's lower case above ASCII, for the classifier.
pub record WorkerPool : Type 0 where
  pub adapters : Text → Option Adapter
  pub table : ℕ → ℕ
  pub provider : Provider
  pub executors : Intent → Option Executor
  pub default_exec : Executor
  pub num_workers : ℕ
  pub task_timeout : ℕ

unfoldable pub code_intents : Executor → Intent → Option Executor
code_intents exec Intent.code_task = some exec
code_intents exec Intent.review = some exec
code_intents exec Intent.info_lookup = some exec
code_intents exec _ = none

unfoldable pub new_worker_pool :
    (Text → Option Adapter) → (ℕ → ℕ) → Provider → Executor → Executor → ℕ → ℕ → WorkerPool
new_worker_pool adapters table provider code_exec llm_exec num_workers task_timeout = record {
  adapters = adapters;
  table = table;
  provider = provider;
  executors = code_intents code_exec;
  default_exec = llm_exec;
  num_workers = num_workers;
  task_timeout = task_timeout;
}

-- The executor of an intent, or the default one.
unfoldable pub executor_for : WorkerPool → Intent → Executor
executor_for pool i = elim (pool.executors i) [ some exec ↦ exec | none ↦ pool.default_exec ]

-- No limit where the timeout is 0.
abbrev pub timeout_of : ℕ → Option ℕ
timeout_of zero = none
timeout_of (suc n) = some (suc n)

unfoldable pub is_review_task : Task → Bool
unfolding get text_eq
is_review_task t =
    text_eq (get "type" (entries t.metadata)) (text "review")
    || text_eq (get "type" (entries t.metadata)) (text "review_comment")

abbrev pub released : Task → Task
released t = record t { status = TaskStatus.pending; worker_id = [] }

module _ (env : Env) (worker : Text) where
  -- A claimed task that is no review goes back to the queue; an error is only logged.
  unfoldable pub release_other : Task → Action (Unit {0})
  release_other t =
      if is_review_task t then pure tt else (do r ← attempt (save env (released t)); pure tt)

  -- The review tasks of those claimed; the others are released on the way.
  unfoldable pub keep_reviews : List Task → Action (List Task)
  keep_reviews [] = pure []
  keep_reviews (t ∷ ts) = do
    release_other t
    rest ← keep_reviews ts
    pure (if is_review_task t then t ∷ rest else rest)

  unfoldable pub claim_siblings : Text → Action (List Task)
  claim_siblings thread_id = call env (λ n db.
      let (ts, db') = claim_pending_tasks (env.locks n) thread_id worker (env.now n) db in
      (ok ts, db'))

  -- Of what was claimed, the reviews; nothing if the claim failed.
  unfoldable pub absorb_claimed : Result (List Task) → Action (List Task)
  absorb_claimed (ok ts) = keep_reviews ts
  absorb_claimed (err e) = pure []

  unfoldable pub absorb_now : Text → Action (List Task)
  absorb_now thread_id = do r ← attempt (claim_siblings thread_id); absorb_claimed r

  -- After the debounce, unless the context was cancelled meanwhile.
  unfoldable pub absorb_review_tasks : Task → Action (List Task)
  absorb_review_tasks primary = do
    n ← pass
    if env.cancelled n then pure [] else absorb_now primary.thread_id

abbrev pub is_review : Intent → Bool
is_review Intent.review = true
is_review _ = false

-- The input of the executor: merged, if tasks were absorbed.
unfoldable pub merged_content : Task → List Task → Text
unfolding build_merged_review_input
merged_content t [] = t.input
merged_content t (a ∷ absorbed) = build_merged_review_input t (a ∷ absorbed)

unfoldable pub event_of : Thread → Task → Text → IncomingEvent
event_of thread t content = record {
  channel_ref = thread.channel_ref;
  thread_id = thread.id;
  user_id = [];
  content = content;
  metadata = t.metadata;
}

abbrev pub assistant_message : Task → Text → Message
assistant_message t response = record {
  id = [];
  thread_id = t.thread_id;
  role = Role.assistant;
  content = response;
  created_at = 0;
}

unfoldable pub sorry : Text
sorry = text "Sorry, I encountered an error while processing your request. Please try again later."

module _ (env : Env) (pool : WorkerPool) (worker : Text) where
  -- On an error the task fails, and the function returns.
  abbrev pub or_fail : {A : Type 0} → Task → Text → Action A → Action A
  or_fail t what m = do
    r ← attempt m
    elim r [ ok a ↦ pure a | err e ↦ fail_task env t (wrap what e) >> raise (wrap what e) ]

  -- The execution failed: the task, then the absorbed ones.
  unfoldable pub fail_execution : Thread → Task → List Task → Error → Action (Unit {0})
  fail_execution thread t absorbed e = do
    fail_task env t (wrap (text "executing task") e)
    send_response pool.adapters thread.channel_ref sorry
    fail_all env (wrap (text "batch execution failed") e) absorbed

  -- The responses go out when the task is stored as completed.
  unfoldable pub deliver : Thread → Task → List Task → Text → Action (Unit {0})
  deliver thread t [] response = do _ ← route_response pool.adapters thread t response; pure tt
  deliver thread t (a ∷ absorbed) response = do
    _ ← route_batched_responses pool.adapters env thread t (a ∷ absorbed) response
    pure tt

  unfoldable pub save_answer : Message → Action Message
  save_answer m = call env (λ n db. create_message (env.fresh_id n) (env.now n) m db)

  unfoldable pub complete_task : Thread → Task → List Task → Text → Action (Unit {0})
  complete_task thread t absorbed response = do
    save env (as_completed pool.adapters env t response)
    stored_answer ← attempt (save_answer (assistant_message t response))
    deliver thread t absorbed response

  unfoldable pub finish_task : Thread → Task → List Task → Result Text → Action (Unit {0})
  finish_task thread t absorbed (ok response) = complete_task thread t absorbed response
  finish_task thread t absorbed (err e) = fail_execution thread t absorbed e

  unfoldable pub execute_task : Thread → List Message → Task → List Task → Action (Unit {0})
  execute_task thread messages t absorbed = do
    n ← pass
    let result = executor_for pool t.intent n (timeout_of pool.task_timeout) (record {
      thread = thread;
      messages = messages;
      task = t;
      event = event_of thread t (merged_content t absorbed);
    })
    finish_task thread t absorbed result

  -- The siblings of a review.
  unfoldable pub siblings : Task → Action (List Task)
  siblings t = if is_review t.intent then absorb_review_tasks env worker t else pure []

  abbrev pub classified : Task → Intent → Task
  classified t i = record t { intent = i }

  -- The part of `processTask` that follows the loading of the thread.
  unfoldable pub process_in : Thread → Task → Action (Unit {0})
  process_in thread t = do
    messages ←
        or_fail t (text "loading messages for thread " ++ t.thread_id)
          (call env (reading (get_messages t.thread_id)))
    i ←
        or_fail t (text "classifying intent")
          (classify pool.table pool.provider (event_of thread t t.input) messages)
    or_fail (classified t i) (text "updating task intent") (save env (classified t i))
    absorbed ← siblings (classified t i)
    execute_task thread messages (classified t i) absorbed

  unfoldable pub process_task : Task → Action (Unit {0})
  process_task t = do
    thread ←
        or_fail t (text "loading thread " ++ t.thread_id)
          (call env (reading (get_thread t.thread_id)))
    process_in thread t
