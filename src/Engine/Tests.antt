-- ===== src/Engine/Tests.antt =====
-- The engine in small surroundings.
use ai_coworker.Prelude.{
  any, leb, ◌≤◌, ℕ, ◌+◌, ◌≡◌, ◌≢◌, ◌↔◌, refl, sym, ap, ◌∙◌, ◌⊎◌, inl, inr, true, false, none, some,
  List, [], ◌∷◌, Text, text, text_eq, text_ne, arith,
}
use ai_coworker.Domain.{
  TaskStatus, Intent, ThreadStatus, intent_text, ChannelRef, IncomingEvent, Task, Thread,
}
use ai_coworker.Store.{Error, ok, err, Db, claim_next_task, create_message, create_task}
use ai_coworker.Store.Final.{IsStored, IsFinished}
use ai_coworker.Store.Rows.{In}
use ai_coworker.Store.Exclusion.{IsValid, Owns, claim_next_task-IsValid}
use ai_coworker.Store.Ownership.{claim_next_task-Owns}
use ai_coworker.Store.Tests.{free, db, running, waiting, other, db-IsValid, db-Owns}
use ai_coworker.Engine.World.{done, refused, Env, World, ◌>>=◌, call}
use ai_coworker.Engine.Intent.{Provider, parse_intent}
use ai_coworker.Engine.Intent.Parsing.{Says, parse_intent_iff}
use ai_coworker.Engine.Router.{
  Adapter, new_router, user_message, pending_task, save_message, save_task, record_events,
  handle_event,
}
use ai_coworker.Engine.Router.Batch.{recorded, record_events-ok}
use ai_coworker.Engine.Router.Mixed.{handle_event-mixed}
use ai_coworker.Engine.Worker.Process.{WorkerPool, Executor, new_worker_pool, process_task}
use ai_coworker.Engine.Worker.Rely.{Leaves}
use ai_coworker.Engine.Worker.Contract.{IsPolite, process_task-IsValid, process_task-Owns}
use ai_coworker.Engine.Worker.Finish.Calls.{Answers}
use ai_coworker.Engine.Worker.Finish.{process_task-IsFinished}
use ai_coworker.Engine.Worker.Loop.{run_worker}
use ai_coworker.Engine.Worker.Stops.{run_worker-stops}

-- Another worker, "w1", claims a task before each step.
abbrev pub env : Env
env = record {
  others = λ n d. (claim_next_task free (text "w1") n d).1;
  fate = λ n. done;
  locks = λ n. free;
  now = λ n. n;
  fresh_id = λ n. (100 + n) ∷ [];
  cancelled = λ n. false;
}

abbrev pub provider : Provider
provider n messages = ok (text "question")

abbrev executor : Executor
executor n timeout context = ok (text "Done.")

abbrev pub channel : Adapter
channel = record {
  name = text "slack";
  acknowledge = λ n ref. ok tt;
  send_response = λ n ref msg. ok tt;
}

abbrev pool : WorkerPool
pool = new_worker_pool (λ name. some channel) (λ c. c) provider executor executor 2 0

abbrev pub world : World
world = record { db = db; step = 0; outputs = [] }

env-Leaves : (worker : Text) → Leaves env worker
env-Leaves worker n d id thread_id valid owns =
    claim_next_task-Owns worker id thread_id free (text "w1") n d valid owns

env-IsPolite : IsPolite env (text "w0")
env-IsPolite = record {
  valid = λ n d valid. claim_next_task-IsValid free (text "w1") n d valid;
  mine = env-Leaves (text "w0");
}

process_task-IsValid_example :
    IsValid (((process_task env pool (text "w0") running world).1).db).tasks
process_task-IsValid_example =
    process_task-IsValid env pool (text "w0") running world env-IsPolite refl refl db-IsValid
      db-Owns

-- "w2" has the task of the other thread.
abbrev elsewhere : Task
elsewhere = record other { status = TaskStatus.in_progress; worker_id = text "w2" }

abbrev shared_db : Db
shared_db = record db { tasks = running ∷ waiting ∷ elsewhere ∷ [] }

differ : (t u : Task) → t.thread_id ≡ text "t" → u.thread_id ≡ text "u" → t.thread_id ≢ u.thread_id
unfolding text_eq
differ t u e h same = text_ne (text "t") (text "u") refl (sym e ∙ same ∙ h)

idle : (t : Task) → t.status ≡ TaskStatus.pending → t.status ≢ TaskStatus.in_progress
idle t e h = cc

abbrev Placed : Task → Type 0
Placed t =
    (t.thread_id ≡ text "t") × (t.worker_id ≡ text "w0")
    ⊎ (t.thread_id ≡ text "u") × (t.worker_id ≡ text "w2")

placed : (t : Task) → In t shared_db.tasks → t.status ≡ TaskStatus.in_progress → Placed t
placed t (inl e) s = inl (ap (λ (x : Task). x.thread_id) e, ap (λ (x : Task). x.worker_id) e)
placed t (inr (inl e)) s = absurd (idle t (ap (λ (x : Task). x.status) e) s)
placed t (inr (inr (inl e))) s =
    inr (ap (λ (x : Task). x.thread_id) e, ap (λ (x : Task). x.worker_id) e)
placed t (inr (inr (inr h))) s = absurd h

agree : (t u : Task) → Placed t → Placed u → t.thread_id ≡ u.thread_id → t.worker_id ≡ u.worker_id
agree t u (inl (p, a)) (inl (q, b)) e = a ∙ sym b
agree t u (inr (p, a)) (inr (q, b)) e = a ∙ sym b
agree t u (inl (p, a)) (inr (q, b)) e = absurd (differ t u p q e)
agree t u (inr (p, a)) (inl (q, b)) e = absurd (differ u t q p (sym e))

shared-IsValid : IsValid shared_db.tasks
unfolding text_eq
shared-IsValid = record {
  distinct = (
    (text_ne (text "a") (text "b") refl, (text_ne (text "a") (text "c") refl, tt)),
    ((text_ne (text "b") (text "c") refl, tt), (tt, tt)),
  );
  exclusive = λ t u i j s k e. agree t u (placed t i s) (placed u j k) e;
}

process_task-Owns_example :
    Owns
      (text "w2")
      (text "c")
      (text "u")
      (((process_task env pool
          (text "w0")
          running
          (record { db = shared_db; step = 0; outputs = [] })).1
        ).db).tasks
unfolding text_eq
process_task-Owns_example =
    process_task-Owns env pool (text "w0") (text "w2") (text "c") (text "u") running
      (record { db = shared_db; step = 0; outputs = [] }) env-IsPolite (env-Leaves (text "w2"))
      (text_ne (text "w0") (text "w2") refl) refl refl shared-IsValid
      (running, inl refl, refl, refl, refl, refl)
      (elsewhere, inr (inr (inl refl)), refl, refl, refl, refl)

-- The surroundings in which nobody else writes.
abbrev quiet : Env
quiet = record env { others = λ n d. d }

abbrev ref : ChannelRef
ref = record { channel = text "slack"; thread_key = text "C/1"; properties = none }

abbrev pub thread : Thread
thread = record {
  id = text "t";
  channel_ref = ref;
  status = ThreadStatus.active;
  created_at = 0;
  updated_at = 0;
}

abbrev event : IncomingEvent
event = record {
  channel_ref = ref;
  thread_id = text "slack-C-1";
  user_id = text "U";
  content = text "hello";
  metadata = none;
}

abbrev stranger : IncomingEvent
stranger = record event { channel_ref = record ref { thread_key = text "C/2" } }

abbrev started : World
started = record { db = record db { threads = thread ∷ [] }; step = 0; outputs = [] }

abbrev batch : List IncomingEvent
batch = event ∷ event ∷ []

batch_run :
    record_events quiet (text "t") batch started
    ≡ (ok tt, (record_events quiet (text "t") batch started).1)
unfolding record_events save_message save_task call ◌>>=◌ create_message create_task text_eq
    user_message pending_task
batch_run = refl

record_events-ok_example :
    ((record_events quiet (text "t") batch started).1).db
    ≡ recorded quiet (λ n d. refl) (text "t") batch started
record_events-ok_example =
    record_events-ok quiet (λ n d. refl) (text "t") batch started
      ((record_events quiet (text "t") batch started).1) batch_run

handle_event-mixed_example :
    (x : Error) × (handle_event quiet new_router (event ∷ stranger ∷ []) started ≡ (err x, started))
unfolding text_eq
handle_event-mixed_example =
    handle_event-mixed quiet new_router event (stranger ∷ []) started
      (λ h. text_ne (text "C/2") (text "C/1") refl (h.0.1))

parse_intent_iff_example :
    (parse_intent (λ c. c) (text " Review\n") ≡ Intent.review)
    ↔ Says (λ c. c) (text " Review\n") (intent_text Intent.review)
parse_intent_iff_example =
    parse_intent_iff (λ c. c) (text " Review\n") Intent.review ((λ e. cc), (λ e. cc))

-- The database refuses every update.
abbrev refusing : Env
refusing = record quiet { fate = λ n. refused (text "gone") }

-- The context is cancelled from step 3 on.
abbrev closing : Env
closing = record env { cancelled = λ n. leb 3 n }

closing-late : (n : ℕ) → 3 ≤ n → closing.cancelled n ≡ true
closing-late n h = ground arith

run_worker-stops_example : (run_worker closing pool (text "w0") 4 world).0 ≡ ok true
run_worker-stops_example =
    run_worker-stops closing pool (text "w0") 3 3 world closing-late (omega arith)

quiet-Answers : (id : Text) → Answers quiet id
quiet-Answers id = record { done = λ n. refl; stored = λ n d h. h; finished = λ n d h. h }

running-IsStored : IsStored (text "a") db
unfolding any text_eq
running-IsStored = refl

process_task-IsFinished_example :
    IsFinished (text "a") (((process_task quiet pool (text "w0") running world).1).db)
process_task-IsFinished_example =
    process_task-IsFinished quiet pool (text "w0") running world (quiet-Answers (text "a"))
      running-IsStored
