-- ===== src/Engine/Worker/Contract.antt =====
-- The contract of a worker: it keeps one worker to a thread, and leaves the others' rows alone.
use ai_coworker.Prelude.{ℕ, ◌≡◌, refl, ◌≢◌, Text}
use ai_coworker.Store.{Db}
use ai_coworker.Domain.{TaskStatus, Task}
use ai_coworker.Store.Exclusion.{IsValid, Owns}
use ai_coworker.Engine.World.{Env, World}
use ai_coworker.Engine.Worker.Process.{WorkerPool, process_task}
use ai_coworker.Engine.Worker.Rely.{Leaves}
use ai_coworker.Engine.Worker.Guarantee.{process_task-Takes}

-- What the others must do for a worker: keep the invariant, and leave the rows that it owns to it.
pub record IsPolite (env : Env) (worker : Text) : Type 0 where
  pub valid : (n : ℕ) (db : Db) → IsValid db.tasks → IsValid (env.others n db).tasks
  pub mine : Leaves env worker

-- The processing of a task, in any run of the store, the model, the executor and the adapters, keeps
-- the invariant that no thread has tasks of two workers in progress, if the task is claimed by the
-- worker, and if what others do between its calls keeps the invariant and the rows that it owns.
pub process_task-IsValid :
    (env : Env) (pool : WorkerPool) (worker : Text) (t : Task) (w : World)
    → IsPolite env worker
    → t.status ≡ TaskStatus.in_progress
    → t.worker_id ≡ worker
    → IsValid w.db.tasks
    → Owns worker t.id t.thread_id w.db.tasks
    → IsValid (((process_task env pool worker t w).1).db).tasks
process_task-IsValid env pool worker t w polite running owner valid owned =
    (process_task-Takes env pool worker worker t.id t.thread_id t.thread_id ⊥
      (record { valid = polite.valid; mine = polite.mine; theirs = λ g. absurd g }) (λ g. absurd g)
      t running owner refl w
      (record {
        valid = valid;
        theirs = λ g. absurd g;
        mine = (owned, tt);
        apart = (tt, tt);
      })).valid

-- A row that another worker owns is still that worker's after a task is processed, in any run of
-- the store, the model, the executor and the adapters, if the task is claimed by the worker, if
-- what others do between its calls keeps the invariant and the rows that it owns, and if it
-- leaves that row to the other worker.
pub process_task-Owns :
    (env : Env) (pool : WorkerPool) (worker other id thread_id : Text) (t : Task) (w : World)
    → IsPolite env worker
    → Leaves env other
    → worker ≢ other
    → t.status ≡ TaskStatus.in_progress
    → t.worker_id ≡ worker
    → IsValid w.db.tasks
    → Owns worker t.id t.thread_id w.db.tasks
    → Owns other id thread_id w.db.tasks
    → Owns other id thread_id (((process_task env pool worker t w).1).db).tasks
process_task-Owns env pool worker other id thread_id t w polite leaves strangers running owner valid
      owned watched =
    (process_task-Takes env pool worker other id thread_id t.thread_id (Unit {0})
        (record { valid = polite.valid; mine = polite.mine; theirs = λ _. leaves }) (λ _. strangers)
        t running owner refl w
        (record {
          valid = valid;
          theirs = λ _. watched;
          mine = (owned, tt);
          apart = (tt, tt);
        })).theirs
      tt
