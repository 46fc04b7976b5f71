-- ===== src/Store/Tests.antt =====
-- The store on a small table.
use ai_coworker.Prelude.{
  suc, All, List, ℕ, ◌≡◌, ◌≢◌, ◌≤◌, ◌↔◌, refl, sym, ap, ◌∙◌, inl, inr, true, none, some, [], ◌∷◌,
  ◌&&◌, Text, text, text_eq, text_ne, if◌then◌else◌,
}
use ai_coworker.Domain.{TaskStatus, Intent, Task}
use ai_coworker.Store.{
  Result, ok, Db, Locks, claimable, oldest, assign, is_busy, claim_next_task, claim_pending_tasks,
  get_adapter_state, set_adapter_state,
}
use ai_coworker.Store.Rows.{In}
use ai_coworker.Store.Exclusion.{Exclusive, IsValid, Owns, claim_next_task-IsValid}
use ai_coworker.Store.Absorption.{Works, claim_pending_tasks-IsValid}
use ai_coworker.Store.Queue.{
  IsHeld, claimed_rows, claim_next_task-oldest, claim_next_task-eq-none_iff,
  claim_next_task-blocked, claim_pending_tasks_complete,
}
use ai_coworker.Store.Migrations.{Migration, Database, IsApplied, migrate, migrate-again}
use ai_coworker.Store.Lease.{Step, leases, claim_next_task-Step}
use ai_coworker.Store.Snapshot.{unlocked, claim_from, claim_from-races}
use ai_coworker.Store.State.{get_adapter_state-set_adapter_state}

abbrev task : Text → Text → TaskStatus → Text → ℕ → Task
task id thread_id status worker created = record {
  id = id;
  thread_id = thread_id;
  intent = Intent.unset;
  status = status;
  input = text "please";
  result = [];
  worker_id = worker;
  metadata = none;
  created_at = created;
  updated_at = created;
}

-- One task of the thread "t" is in progress; another one of it and one of "u" wait.
abbrev pub running : Task
running = task (text "a") (text "t") TaskStatus.in_progress (text "w0") 1

abbrev pub waiting : Task
waiting = task (text "b") (text "t") TaskStatus.pending [] 2

abbrev pub other : Task
other = task (text "c") (text "u") TaskStatus.pending [] 3

abbrev pub db : Db
db = record {
  threads = [];
  messages = [];
  tasks = running ∷ waiting ∷ other ∷ [];
  adapter_state = record { adapter = text "googledocs"; key = text "page"; value = text "1" } ∷ [];
}

abbrev pub free : Locks
free = record { thread_free = λ _. true; row_free = λ _. true }

idle : (t : Task) → t.status ≡ TaskStatus.pending → t.status ≢ TaskStatus.in_progress
idle t e h = cc

only_running :
    (t : Task) → In t db.tasks → t.status ≡ TaskStatus.in_progress → t.worker_id ≡ text "w0"
only_running t (inl e) s = ap (λ (x : Task). x.worker_id) e
only_running t (inr (inl e)) s = absurd (idle t (ap (λ (x : Task). x.status) e) s)
only_running t (inr (inr (inl e))) s = absurd (idle t (ap (λ (x : Task). x.status) e) s)
only_running t (inr (inr (inr h))) s = absurd h

pub db-IsValid : IsValid db.tasks
unfolding text_eq
db-IsValid = record {
  distinct = (
    (text_ne (text "a") (text "b") refl, (text_ne (text "a") (text "c") refl, tt)),
    ((text_ne (text "b") (text "c") refl, tt), (tt, tt)),
  );
  exclusive = λ t u i j s k _. only_running t i s ∙ sym (only_running u j k);
}

pub db-Works : Works (text "w0") (text "t") db.tasks
db-Works = (running, inl refl, refl, refl, refl)

pub db-Owns : Owns (text "w0") (text "a") (text "t") db.tasks
db-Owns = (running, inl refl, refl, refl, refl, refl)

claim_next_task-IsValid_example : IsValid ((claim_next_task free (text "w1") 7 db).1).tasks
claim_next_task-IsValid_example = claim_next_task-IsValid free (text "w1") 7 db db-IsValid

claim_pending_tasks-IsValid_example :
    IsValid ((claim_pending_tasks free (text "t") (text "w0") 7 db).1).tasks
claim_pending_tasks-IsValid_example =
    claim_pending_tasks-IsValid free (text "t") (text "w0") 7 db db-IsValid db-Works

claim_gives : (claim_next_task free (text "w1") 7 db).0 ≡ some (assign (text "w1") 7 other)
unfolding claim_next_task oldest is_busy text_eq
claim_gives = refl

claim_next_task-oldest_example :
    (c : Task) × In c db.tasks
    × (claimable free db.tasks c ≡ true)
    × (assign (text "w1") 7 other ≡ assign (text "w1") 7 c)
    × ((v : Task) → In v db.tasks → claimable free db.tasks v ≡ true → c.created_at ≤ v.created_at)
    × ((claim_next_task free (text "w1") 7 db).1
        ≡ record db { tasks = claimed_rows (text "w1") 7 c db.tasks })
claim_next_task-oldest_example =
    claim_next_task-oldest free (text "w1") 7 db (assign (text "w1") 7 other) claim_gives

claim_next_task-eq-none_example :
    ((claim_next_task free (text "w1") 7 db).0 ≡ none)
    ↔ ((v : Task) → In v db.tasks → v.status ≡ TaskStatus.pending → IsHeld free db.tasks v)
claim_next_task-eq-none_example = claim_next_task-eq-none_iff free (text "w1") 7 db

claim_next_task-blocked_example : (assign (text "w1") 7 other).thread_id ≢ text "t"
claim_next_task-blocked_example =
    claim_next_task-blocked free (text "w0") (text "w1") (text "t") 7 db
      (assign (text "w1") 7 other) db-Works claim_gives

left_over : In other ((claim_pending_tasks free (text "t") (text "w0") 7 db).1).tasks
unfolding claim_pending_tasks text_eq
left_over = inr (inr (inl refl))

claim_pending_tasks_complete_example : other.thread_id ≢ text "t"
claim_pending_tasks_complete_example =
    claim_pending_tasks_complete free (text "t") (text "w0") 7 db other (λ _. refl) left_over refl

get_adapter_state-set_adapter_state_example :
    get_adapter_state
      (text "googledocs")
      (text "page")
      (set_adapter_state (text "googledocs") (text "page") (text "2") db)
    ≡ (if text_eq (text "googledocs") (text "googledocs") && text_eq (text "page") (text "page")
        then ok (text "2")
        else get_adapter_state (text "googledocs") (text "page") db)
get_adapter_state-set_adapter_state_example =
    get_adapter_state-set_adapter_state (text "googledocs") (text "page") (text "2")
      (text "googledocs") (text "page") db

abbrev run : Migration → ℕ → Result ℕ
run m s = ok (suc s)

abbrev two_migrations : List Migration
two_migrations = record { version = 1; sql = [] } ∷ record { version = 2; sql = [] } ∷ []

abbrev answering : Database run
answering = record { table = ok tt; connection = ok tt; lock = ok tt; asked = λ m. ok tt }

migrate-run : (migrate run answering two_migrations (5, 1 ∷ [])).0 ≡ ok tt
unfolding migrate
migrate-run = refl

abbrev once : ℕ × List ℕ
once = (migrate run answering two_migrations (5, 1 ∷ [])).1

migrate-again_example :
    All (IsApplied run once.1) two_migrations
    × (migrate run answering two_migrations once ≡ (ok tt, once))
migrate-again_example =
    migrate-again run answering answering two_migrations (5, 1 ∷ []) migrate-run refl refl refl
      (λ m. refl)

claim_next_task-Step_example :
    Step (text "w1") (leases db.tasks) (leases ((claim_next_task free (text "w1") 7 db).1).tasks)
claim_next_task-Step_example = claim_next_task-Step free (text "w1") 7 db db-IsValid

-- Two tasks of one thread wait.
abbrev later : Task
later = task (text "d") (text "t") TaskStatus.pending [] 4

abbrev waiting_db : Db
waiting_db = record db { tasks = waiting ∷ later ∷ [] }

claim_from-races_example :
    ((claim_next_task unlocked (text "w1") 7 waiting_db).0 ≡ some (assign (text "w1") 7 waiting))
    × ((claim_from waiting_db.tasks unlocked
          (text "w2")
          7
          (claim_next_task unlocked (text "w1") 7 waiting_db).1).0
        ≡ some (assign (text "w2") 7 later))
    × ¬ (
        Exclusive
          ((claim_from waiting_db.tasks unlocked
              (text "w2")
              7
              (claim_next_task unlocked (text "w1") 7 waiting_db).1).1
            ).tasks)
unfolding text_eq
claim_from-races_example =
    claim_from-races waiting later waiting_db refl refl refl refl refl refl (text "w1") (text "w2")
      7 (text_ne (text "w1") (text "w2") refl)
