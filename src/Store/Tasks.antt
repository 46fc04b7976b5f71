-- ===== src/Store/Tasks.antt =====
-- The task queue. A claim is one UPDATE statement; `Locks` is what the transactions that run beside
-- it hold, on which `pg_try_advisory_xact_lock` and `SKIP LOCKED` depend.
use ai_coworker.Prelude.{
  ℕ, Bool, not, Option, none, some, List, [], ◌∷◌, ◌++◌, ◌&&◌, map, Text, text, text_eq, keep, any,
  if◌then◌else◌, leb,
}
use ai_coworker.Domain.{TaskStatus, Task, Thread, is_pending, is_in_progress}
use ai_coworker.Store.Errors.{not_found, fault, wrap, Result, ok, err}
use ai_coworker.Store.Tables.{Db, stored}

pub record Locks : Type 0 where
  -- the advisory lock of the thread is to be had
  pub thread_free : Text → Bool
  -- no other transaction has locked the row of the task
  pub row_free : Text → Bool

abbrev pub has_task_id : Text → Task → Bool
has_task_id id t = text_eq t.id id

abbrev pub in_thread : Text → Task → Bool
in_thread thread_id t = text_eq t.thread_id thread_id

-- A task of the thread is in progress.
abbrev pub blocks : Text → Task → Bool
blocks thread_id t = in_thread thread_id t && is_in_progress t.status

unfoldable pub is_busy : Text → List Task → Bool
unfolding any
is_busy thread_id ts = any (blocks thread_id) ts

-- The WHERE clause of the claim.
abbrev pub claimable : Locks → List Task → Task → Bool
claimable locks ts t =
    is_pending t.status
    && not (is_busy t.thread_id ts)
    && locks.thread_free t.thread_id
    && locks.row_free t.id

-- `ORDER BY created_at LIMIT 1`: of rows of one time, the first in the table.
abbrev pub older : Task → Option Task → Task
older t none = t
older t (some u) = if leb t.created_at u.created_at then t else u

unfoldable pub oldest : List Task → Option Task
oldest [] = none
oldest (t ∷ ts) = some (older t (oldest ts))

-- `SET status = 'in_progress', worker_id = $1, updated_at = $2`
abbrev pub assign : Text → ℕ → Task → Task
assign worker now t = record t {
  status = TaskStatus.in_progress;
  worker_id = worker;
  updated_at = now;
}

-- The UPDATE of the rows that pass a test.
abbrev pub update_where : (Task → Bool) → (Task → Task) → Task → Task
update_where p f t = if p t then f t else t

-- The claim of a chosen row.
abbrev pub take_task : Text → ℕ → Db → Option Task → Option Task × Db
take_task worker now db none = (none, db)
take_task worker now db (some t) = (
  some (assign worker now t),
  record db { tasks = map (update_where (has_task_id t.id) (assign worker now)) db.tasks },
)

unfoldable pub claim_next_task : Locks → Text → ℕ → Db → Option Task × Db
unfolding keep oldest is_busy
claim_next_task locks worker now db =
    take_task worker now db (oldest (keep (claimable locks db.tasks) db.tasks))

abbrev pub claimable_in : Locks → Text → Task → Bool
claimable_in locks thread_id t = in_thread thread_id t && is_pending t.status && locks.row_free t.id

unfoldable pub claim_pending_tasks : Locks → Text → Text → ℕ → Db → List Task × Db
unfolding keep
claim_pending_tasks locks thread_id worker now db = (
  map (assign worker now) (keep (claimable_in locks thread_id) db.tasks),
  record db {
    tasks = map (update_where (claimable_in locks thread_id) (assign worker now)) db.tasks;
  },
)

-- The columns that `UpdateTask` writes, from the caller's task.
abbrev pub overwrite : ℕ → Task → Task → Task
overwrite now t row = record row {
  intent = t.intent;
  status = t.status;
  input = t.input;
  result = t.result;
  worker_id = t.worker_id;
  metadata = stored t.metadata;
  updated_at = now;
}

unfoldable pub update_task : ℕ → Task → Db → Result (Unit {0}) × Db
unfolding any stored
update_task now t db =
    if any (has_task_id t.id) db.tasks
    then (
      ok tt,
      record db { tasks = map (update_where (has_task_id t.id) (overwrite now t)) db.tasks },
    )
    else (err (wrap (text "task " ++ t.id) not_found), db)

-- The caller's task with its new id and times, and the row that is written.
unfoldable pub stamp_task : Text → ℕ → Task → Task
stamp_task id now t = record t { id = id; created_at = now; updated_at = now }

abbrev pub names_thread : Text → Thread → Bool
names_thread id t = text_eq t.id id

unfoldable pub task_row : Text → ℕ → Task → Task
unfolding stamp_task stored
task_row id now t = record (stamp_task id now t) { metadata = stored t.metadata }

-- The primary key refuses a second row of the id, the foreign key a task of no thread.
unfoldable pub create_task : Text → ℕ → Task → Db → Result Task × Db
unfolding any task_row
create_task id now t db =
    if any (has_task_id id) db.tasks
    then (err (wrap (text "inserting task") (fault (text "duplicate key"))), db)
    else if any (names_thread t.thread_id) db.threads
    then (ok (stamp_task id now t), record db { tasks = db.tasks ++ task_row id now t ∷ [] })
    else (err (wrap (text "inserting task") (fault (text "foreign key"))), db)
