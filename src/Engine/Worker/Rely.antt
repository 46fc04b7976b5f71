-- ===== src/Engine/Worker/Rely.antt =====
-- What a worker may rely on while it processes a task, and how its calls change what it holds.
use ai_coworker.Prelude.{ℕ, ◌≡◌, sym, ap, ◌∙◌, ◌≢◌, List, [], ◌∷◌, Text, All}
use ai_coworker.Domain.{TaskStatus, Task}
use ai_coworker.Store.{Result, ok, err, Db, Locks, update_task, claim_pending_tasks}
use ai_coworker.Store.Rows.{Distinct, Distinct-unique, All-In, All-of_In}
use ai_coworker.Store.Exclusion.{IsValid, Owns, update_task-IsValid}
use ai_coworker.Store.Absorption.{claim_pending_tasks-IsValid}
use ai_coworker.Store.Ownership.{
  update_task-Owns_ne, update_task-Owns_self, claim_pending_tasks-Owns,
  claim_pending_tasks-Owns_new, claim_pending_tasks-apart,
}
use ai_coworker.Engine.World.{Env, World, Fate, done, refused, lost, Action, ◌>>=◌, call, settle}

-- The others leave every row that the worker `u` owns to it.
abbrev pub Leaves : Env → Text → Type 0
Leaves env u =
    (n : ℕ) (db : Db) (id thread_id : Text)
    → IsValid db.tasks
    → Owns u id thread_id db.tasks
    → Owns u id thread_id (env.others n db).tasks

-- What the others may do between two calls of `worker`, and, where a row of `other` is watched, that
-- they leave the rows of `other` to it.
pub record Rely (env : Env) (worker other : Text) (watched : Type 0) : Type 0 where
  pub valid : (n : ℕ) (db : Db) → IsValid db.tasks → IsValid (env.others n db).tasks
  pub mine : Leaves env worker
  pub theirs : watched → Leaves env other

-- From a state of `P` the action ends in one of `Q`, however it returns.
abbrev pub Takes : {A : Type 0} → (Db → Type 0) → Action A → (Db → Type 0) → Type 0
Takes P m Q = (w : World) → P w.db → Q ((m w).1).db

module _ {A B : Type 0} (P Q R : Db → Type 0) (f : A → Action B) where
  -- A sequence, where the first action may return early in a state of `Q`.
  pub Takes-bind :
      (m : Action A)
      → Takes P m Q
      → ((a : A) → Takes Q (f a) R)
      → ((db : Db) → Q db → R db)
      → Takes P (m >>= f) R
  unfolding ◌>>=◌
  Takes-bind m first next weak w p = go (m w) (first w p)
    where
      go : (x : Result A × World) → Q (x.1).db → R (((λ (_ : World). x) >>= f) w).1.db
      go (ok a, w1) q = next a w1 q
      go (err e, w1) q = weak w1.db q

-- A call of the store, where the state holds while the others act.
pub Takes-call :
    {A : Type 0} (env : Env) (P Q : Db → Type 0) (op : ℕ → Db → Result A × Db)
    → ((n : ℕ) (db : Db) → P db → P (env.others n db))
    → ((n : ℕ) (db : Db) → P db → Q (op n db).1)
    → ((db : Db) → P db → Q db)
    → Takes P (call env op) Q
unfolding call
Takes-call {A} env P Q op calm acts weak w p =
    go (env.fate w.step) (calm w.step w.db p) (op w.step (env.others w.step w.db))
      (acts w.step (env.others w.step w.db) (calm w.step w.db p))
  where
    go : (f : Fate) {before : Db} → P before → (x : Result A × Db) → Q x.1 → Q (settle f before x).1
    go done h (r, db) q = q
    go (refused e) {before} h x q = weak before h
    go (lost e) h (r, db) q = q

module _ (env : Env) (worker other : Text) (id thread_id own_thread : Text) (watched : Type 0) where
  -- The invariant holds, `other` owns a row, and `worker` owns those of the listed tasks.
  pub record Holding (ts : List Task) (db : Db) : Type 0 where
    pub valid : IsValid db.tasks
    pub theirs : watched → Owns other id thread_id db.tasks
    pub mine : All (λ t. Owns worker t.id own_thread db.tasks) ts
    pub apart : Distinct ts

  module _ (rely : Rely env worker other watched) (strangers : watched → worker ≢ other) where
    pub Holding-calm :
        (ts : List Task) (n : ℕ) (db : Db) → Holding ts db → Holding ts (env.others n db)
    Holding-calm ts n db h = record {
      valid = rely.valid n db h.valid;
      theirs = λ g. rely.theirs g n db id thread_id h.valid (h.theirs g);
      mine =
          All-of_In _ ts (λ t i. rely.mine n db t.id own_thread h.valid (All-In _ ts h.mine t i));
      apart = h.apart;
    }

    -- No row belongs to two workers.
    not_theirs :
        (db : Db) (own : Text)
        → watched
        → IsValid db.tasks
        → Owns worker own own_thread db.tasks
        → Owns other id thread_id db.tasks
        → own ≢ id
    not_theirs db own g valid (r, i, rid, _, _, rw_worker) (s, j, sid, _, _, s_worker) same =
        let one = Distinct-unique db.tasks r s valid.distinct i j (rid ∙ same ∙ sym sid) in
        strangers g (sym rw_worker ∙ ap (λ (x : Task). x.worker_id) one ∙ s_worker)

    -- A task is let go: saved with another status, its row is no longer held, and the others are.
    pub Holding-let_go :
        (n : ℕ) (t t' : Task) (ts : List Task) (db : Db)
        → t'.id ≡ t.id
        → t'.status ≢ TaskStatus.in_progress
        → Holding (t ∷ ts) db
        → Holding ts (update_task n t' db).1
    Holding-let_go n t t' ts db same idle h = record {
      valid = update_task-IsValid n t' db h.valid (λ s. absurd (idle s));
      theirs = λ g.
          update_task-Owns_ne other id thread_id n t' db
            (λ e. not_theirs db t.id g h.valid h.mine.0 (h.theirs g) (sym same ∙ e)) (h.theirs g);
      mine = All-of_In _ ts (λ u i.
          update_task-Owns_ne worker u.id own_thread n t' db
            (λ e. All-In _ ts h.apart.0 u i (sym same ∙ e)) (All-In _ ts h.mine.1 u i));
      apart = h.apart.1;
    }

    -- A task that is saved as the worker's and in progress is still held.
    pub Holding-keep :
        (n : ℕ) (t t' : Task) (ts : List Task) (db : Db)
        → t'.id ≡ t.id
        → t'.status ≡ TaskStatus.in_progress
        → t'.worker_id ≡ worker
        → t'.thread_id ≡ own_thread
        → Holding (t ∷ ts) db
        → Holding (t ∷ ts) (update_task n t' db).1
    Holding-keep n t t' ts db same running owner here h = record {
      valid = update_task-IsValid n t' db h.valid (λ _. rw (owner, same, here) h.mine.0);
      theirs = λ g.
          update_task-Owns_ne other id thread_id n t' db
            (λ e. not_theirs db t.id g h.valid h.mine.0 (h.theirs g) (sym same ∙ e)) (h.theirs g);
      mine = (
        update_task-Owns_self worker t.id own_thread n t' db same running owner h.mine.0,
        All-of_In _ ts (λ u i.
            update_task-Owns_ne worker u.id own_thread n t' db
              (λ e. All-In _ ts h.apart.0 u i (sym same ∙ e)) (All-In _ ts h.mine.1 u i)),
      );
      apart = h.apart;
    }

    -- The worker holds what it absorbs.
    pub Holding-absorb :
        (locks : Locks) (n : ℕ) (t : Task) (db : Db)
        → Holding (t ∷ []) db
        → let (ts, db') = claim_pending_tasks locks own_thread worker n db in Holding (t ∷ ts) db'
    Holding-absorb locks n t db h =
        let (held, distinct) = claim_pending_tasks-Owns_new locks own_thread worker n db h.valid in
        let (r, i, rid, here, running, owner) = h.mine.0 in
        record {
          valid =
              claim_pending_tasks-IsValid locks own_thread worker n db h.valid
                (r, i, running, here, owner);
          theirs = λ g.
              claim_pending_tasks-Owns other id thread_id locks own_thread worker n db (h.theirs g);
          mine = (
            claim_pending_tasks-Owns worker t.id own_thread locks own_thread worker n db h.mine.0,
            held,
          );
          apart = (
            All-of_In _ _ (λ u j.
                claim_pending_tasks-apart locks own_thread worker worker t.id own_thread n db u
                  h.valid h.mine.0 j),
            distinct,
          );
        }

    -- What is held may be forgotten.
    pub Holding-forget : (ts : List Task) (db : Db) → Holding ts db → Holding [] db
    Holding-forget ts db h = record { valid = h.valid; theirs = h.theirs; mine = tt; apart = tt }

    -- It depends on the tasks alone.
    pub Holding-tasks :
        (ts : List Task) (db db' : Db) → db'.tasks ≡ db.tasks → Holding ts db → Holding ts db'
    Holding-tasks ts db db' same h = record {
      valid = rw same h.valid;
      theirs = λ g. rw same (h.theirs g);
      mine = rw same h.mine;
      apart = h.apart;
    }

    pub Holding-first :
        (t : Task) (ts : List Task) (db : Db) → Holding (t ∷ ts) db → Holding (t ∷ []) db
    Holding-first t ts db h = record {
      valid = h.valid;
      theirs = h.theirs;
      mine = (h.mine.0, tt);
      apart = (tt, tt);
    }

    pub Holding-rest : (t : Task) (ts : List Task) (db : Db) → Holding (t ∷ ts) db → Holding ts db
    Holding-rest t ts db h = record {
      valid = h.valid;
      theirs = h.theirs;
      mine = h.mine.1;
      apart = h.apart.1;
    }
