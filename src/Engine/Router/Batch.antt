-- ===== src/Engine/Router/Batch.antt =====
-- What a batch of events leaves in the store.
use mathlib.Core.List.{append_assoc, append-nil}
use ai_coworker.Prelude.{ℕ, suc, ◌≡◌, refl, sym, ap, ◌∙◌, List, [], ◌∷◌, ◌++◌, Text, text, arith}
use ai_coworker.Domain.{Role, TaskStatus, Intent, IncomingEvent, Message, Task}
use ai_coworker.Store.{
  wrap, Result, ok, err, Db, create_message, create_task, stored, task_row, stamp_task,
}
use ai_coworker.Engine.World.{
  Env, World, Action, ◌>>=◌, ◌>>◌, Fate, done, refused, lost, call, settle,
}
use ai_coworker.Engine.Router.{
  user_message, pending_task, save_message, save_task, wrapped, record_events,
}

-- Nobody else writes to the tables while the batch is handled.
abbrev pub IsQuiet : Env → Type 0
IsQuiet env = (n : ℕ) (db : Db) → env.others n db ≡ db

module _ (env : Env) (thread_id : Text) where
  -- The message of an event, as it is stored at a step: the user's, with the text of the event.
  abbrev pub message_row : ℕ → IncomingEvent → Message
  message_row n e = record {
    id = env.fresh_id n;
    thread_id = thread_id;
    role = Role.user;
    content = e.content;
    created_at = env.now n;
  }

  -- The task of an event, as it is stored at a step: pending, of no worker and without an intent,
  -- with the text and the metadata of the event.
  abbrev pub event_row : ℕ → IncomingEvent → Task
  event_row n e = record {
    id = env.fresh_id n;
    thread_id = thread_id;
    intent = Intent.unset;
    status = TaskStatus.pending;
    input = e.content;
    result = [];
    worker_id = [];
    metadata = stored e.metadata;
    created_at = env.now n;
    updated_at = env.now n;
  }

  -- Each event takes two steps: its message, then its task.
  unfoldable pub message_rows : ℕ → List IncomingEvent → List Message
  message_rows n [] = []
  message_rows n (e ∷ es) = message_row n e ∷ message_rows (suc (suc n)) es

  unfoldable pub task_rows : ℕ → List IncomingEvent → List Task
  task_rows n [] = []
  task_rows n (e ∷ es) = event_row (suc n) e ∷ task_rows (suc (suc n)) es

-- The outcome of a call whose error ends the function, and of what follows it.
then : {A : Type 0} → Text → Action (Unit {0}) → Result A × World → Result (Unit {0}) × World
then what rest (ok a, w1) = rest w1
then what rest (err e, w1) = (err (wrap what e), w1)

then-ok :
    {A : Type 0} (what : Text) (rest : Action (Unit {0})) (p : Result A × World) (w' : World)
    → then what rest p ≡ (ok tt, w')
    → (a : A) × (w1 : World) × (p ≡ (ok a, w1)) × (rest w1 ≡ (ok tt, w'))
unfolding then
then-ok what rest (ok a, w1) w' e = (a, w1, refl, e)
then-ok what rest (err x, w1) w' e = absurd (cc e)

then-wrapped :
    {A : Type 0} (what : Text) (m : Action A) (rest : Action (Unit {0})) (w : World)
    → (wrapped what m >> rest) w ≡ then what rest (m w)
unfolding then ◌>>=◌
then-wrapped {A} what m rest w = go (m w)
  where
    go : (p : Result A × World) → (wrapped what (λ _. p) >> rest) w ≡ then what rest p
    go (ok a, w1) = refl
    go (err x, w1) = refl

settle-ok :
    {A : Type 0} (f : Fate) (before : Db) (p : Result A × Db) (a : A)
    → (settle f before p).0 ≡ ok a
    → p ≡ (ok a, (settle f before p).1)
settle-ok done before (r, after) a e = ap (λ x. (x, after)) e
settle-ok (refused s) before (r, after) a e = cc
settle-ok (lost s) before (r, after) a e = cc

create_message-ok :
    (id : Text) (now : ℕ) (m x : Message) (db after : Db)
    → create_message id now m db ≡ (ok x, after)
    → after ≡ record db { messages = db.messages ++ record m { id = id; created_at = now } ∷ [] }
unfolding create_message
create_message-ok id now m x db after e = ground arith

create_task-ok :
    (id : Text) (now : ℕ) (t x : Task) (db after : Db)
    → create_task id now t db ≡ (ok x, after)
    → after ≡ record db { tasks = db.tasks ++ task_row id now t ∷ [] }
unfolding create_task
create_task-ok id now t x db after e = ground arith

module _ (env : Env) (quiet : IsQuiet env) where
  -- A call that succeeds did what its operation does.
  call-ok :
      {A : Type 0} (op : ℕ → Db → Result A × Db) (w : World) (a : A)
      → (call env op w).0 ≡ ok a
      → op w.step w.db ≡ (ok a, ((call env op w).1).db)
  unfolding call
  call-ok op w a e =
      let same = quiet w.step w.db in
      rw same (settle-ok (env.fate w.step) w.db (op w.step w.db) a (rw same at e))

  abbrev saved_message : Message → World → World
  saved_message m w = record w {
    db = record (w.db) {
      messages =
          w.db.messages ++ record m { id = env.fresh_id w.step; created_at = env.now w.step } ∷ [];
    };
    step = suc w.step;
  }

  save_message-ok :
      (m x : Message) (w : World) (w1 : World)
      → save_message env m w ≡ (ok x, w1)
      → w1 ≡ saved_message m w
  unfolding save_message call
  save_message-ok m x w w1 e =
      sym (ap (λ p. p.1) e)
      ∙ ap (λ db. record w { db = db; step = suc w.step })
          (create_message-ok (env.fresh_id w.step) (env.now w.step) m x w.db _ (
            call-ok (λ n db. create_message (env.fresh_id n) (env.now n) m db) w x
              (ap (λ p. p.0) e)))

  abbrev saved_task : Task → World → World
  saved_task t w = record w {
    db = record (w.db) {
      tasks = w.db.tasks ++ task_row (env.fresh_id w.step) (env.now w.step) t ∷ [];
    };
    step = suc w.step;
  }

  save_task-ok :
      (t x : Task) (w : World) (w1 : World) → save_task env t w ≡ (ok x, w1) → w1 ≡ saved_task t w
  unfolding save_task call
  save_task-ok t x w w1 e =
      sym (ap (λ p. p.1) e)
      ∙ ap (λ db. record w { db = db; step = suc w.step })
          (create_task-ok (env.fresh_id w.step) (env.now w.step) t x w.db _
            (call-ok (λ n db. create_task (env.fresh_id n) (env.now n) t db) w x (ap (λ p. p.0) e)))

  -- The tables after a batch of events of one thread.
  abbrev pub recorded : Text → List IncomingEvent → World → Db
  recorded thread_id es w = record (w.db) {
    messages = w.db.messages ++ message_rows env thread_id w.step es;
    tasks = w.db.tasks ++ task_rows env thread_id w.step es;
  }

  recorded-cons :
      (thread_id : Text) (x : IncomingEvent) (es : List IncomingEvent) (w : World)
      → recorded thread_id es (
          saved_task
            (pending_task env thread_id x)
            (saved_message (user_message env thread_id x) w))
        ≡ recorded thread_id (x ∷ es) w
  unfolding message_rows task_rows user_message pending_task task_row stamp_task
  recorded-cons thread_id x es w =
      let messages =
        append_assoc w.db.messages (message_row env thread_id w.step x ∷ [])
          (message_rows env thread_id (suc (suc w.step)) es) in
      let tasks =
        append_assoc w.db.tasks (event_row env thread_id (suc w.step) x ∷ [])
          (task_rows env thread_id (suc (suc w.step)) es) in
      λ i. record (w.db) { messages = messages i; tasks = tasks i }

  -- A batch that is stored without an error, while nobody else writes, adds exactly one message and one
  -- pending task for each event, in the order of the events, and changes no other table. The message is
  -- the user's and has the text of the event; the task has the text and the metadata of the event, and
  -- no worker, intent or result.
  pub record_events-ok :
      (thread_id : Text) (es : List IncomingEvent) (w w' : World)
      → record_events env thread_id es w ≡ (ok tt, w')
      → w'.db ≡ recorded thread_id es w
  unfolding record_events message_rows task_rows
  record_events-ok thread_id [] w w' e =
      let same : w ≡ w' = ap (λ p. p.1) e in rw (← same) (simp append-nil)
  record_events-ok thread_id (x ∷ es) w w' e =
      let message = save_message env (user_message env thread_id x) in
      let task = save_task env (pending_task env thread_id x) in
      let rest = record_events env thread_id es in
      let (m, w1, saved, e1) =
        then-ok (text "creating message") (wrapped (text "creating task") task >> rest) (message w)
          w'
          (sym (
              then-wrapped (text "creating message") message
                (wrapped (text "creating task") task >> rest) w)
            ∙ e) in
      let (t, w2, put, e2) =
        then-ok (text "creating task") rest (task w1) w'
          (sym (then-wrapped (text "creating task") task rest w1) ∙ e1) in
      let at_1 = save_message-ok (user_message env thread_id x) m w w1 saved in
      let at_2 = save_task-ok (pending_task env thread_id x) t w1 w2 put in
      let rows : recorded thread_id es (
            saved_task (pending_task env thread_id x)
              (saved_message (user_message env thread_id x) w))
          ≡ recorded thread_id (x ∷ es) w =
        recorded-cons thread_id x es w in
      record_events-ok thread_id es w2 w' e2 ∙ (rw (at_2, at_1) rows)
