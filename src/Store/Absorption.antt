-- ===== src/Store/Absorption.antt =====
-- The invariant under `ClaimPendingTasks` and `CreateTask`.
use ai_coworker.Prelude.{
  ℕ, ◌≡◌, refl, sym, ◌≢◌, ◌∙◌, ◌⊎◌, inl, inr, false, List, [], ◌∷◌, ◌++◌, map, Text, text_eq_iff,
  any, arith, Bool-cases,
}
use ai_coworker.Domain.{TaskStatus, Task}
use ai_coworker.Store.Tables.{Db}
use ai_coworker.Store.Tasks.{
  Locks, has_task_id, assign, update_where, claimable_in, claim_pending_tasks, create_task,
  names_thread, task_row,
}
use ai_coworker.Store.Rows.{In, In-append, In-any, In-map, Distinct-map, Distinct-append}
use ai_coworker.Store.Exclusion.{Exclusive, IsValid}

-- The worker has a task of the thread in progress.
abbrev pub Works : Text → Text → List Task → Type 0
Works worker thread_id ts =
    (p : Task) × In p ts
    × (p.status ≡ TaskStatus.in_progress)
    × (p.thread_id ≡ thread_id)
    × (p.worker_id ≡ worker)

module _ (locks : Locks) (thread_id worker : Text) (now : ℕ) (ts : List Task) where
  abbrev pub absorb : Task → Task
  absorb = update_where (claimable_in locks thread_id) (assign worker now)

  -- A row that is in progress afterwards is an old one, or it is the worker's and of the thread.
  absorbed_row :
      (t : Task)
      → In t (map absorb ts)
      → (In t ts ⊎ ((t.worker_id ≡ worker) × (t.thread_id ≡ thread_id)))
  absorbed_row t i =
      let (c, j, e) = In-map absorb t ts i in
      elim (Bool-cases (claimable_in locks thread_id c)) [
        | inl hit ↦ inr (ground arith, ground (arith, text_eq_iff c.thread_id thread_id))
        | inr miss ↦ inl (let same : t ≡ c = ground arith in rw same j)
      ]

  module _ (valid : IsValid ts) (works : Works worker thread_id ts) where
    of_worker :
        (t : Task)
        → In t ts
        → t.status ≡ TaskStatus.in_progress
        → t.thread_id ≡ thread_id
        → t.worker_id ≡ worker
    of_worker t i s e = valid.exclusive t works.0 i works.1 s works.2 (e ∙ sym works.3) ∙ works.4

    absorb-Exclusive : Exclusive (map absorb ts)
    absorb-Exclusive t u i j p q same = elim (absorbed_row t i) [
      | inl t_old ↦ elim (absorbed_row u j) [
        | inl u_old ↦ valid.exclusive t u t_old u_old p q same
        | inr (mine, here) ↦ of_worker t t_old p (same ∙ here) ∙ sym mine
      ]
      | inr (mine, here) ↦ elim (absorbed_row u j) [
        | inl u_old ↦ mine ∙ sym (of_worker u u_old q (sym same ∙ here))
        | inr (mine', _) ↦ mine ∙ sym mine'
      ]
    ]

-- Claiming the pending tasks of a thread keeps the invariant that no thread has tasks of two
-- workers in progress, if the worker has a task of that thread in progress.
pub claim_pending_tasks-IsValid :
    (locks : Locks) (thread_id worker : Text) (now : ℕ) (db : Db)
    → IsValid db.tasks
    → Works worker thread_id db.tasks
    → IsValid ((claim_pending_tasks locks thread_id worker now db).1).tasks
unfolding claim_pending_tasks
claim_pending_tasks-IsValid locks thread_id worker now db valid works = record {
  distinct =
      Distinct-map (absorb locks thread_id worker now db.tasks) (λ t. ground arith) db.tasks
        valid.distinct;
  exclusive = absorb-Exclusive locks thread_id worker now db.tasks valid works;
}

-- `CreateTask` leaves the tasks, or appends one row of a new id.
pub create_task-cases :
    (id : Text) (now : ℕ) (t : Task) (db : Db)
    → (((create_task id now t db).1).tasks ≡ db.tasks)
      ⊎ ((r : Task) × (((create_task id now t db).1).tasks ≡ db.tasks ++ r ∷ [])
          × (r.id ≡ id)
          × (r.status ≡ t.status)
          × (any (has_task_id id) db.tasks ≡ false))
unfolding create_task
create_task-cases id now t db = elim (Bool-cases (any (has_task_id id) db.tasks)) [
  | inl present ↦ inl (rw present)
  | inr fresh ↦ elim (Bool-cases (any (names_thread t.thread_id) db.threads)) [
    | inr orphan ↦ inl (rw (fresh, orphan))
    | inl known ↦ inr (task_row id now t, rw (fresh, known), refl, refl, fresh)
  ]
]

-- A new task that is not in progress keeps the invariant that no thread has tasks of two workers
-- in progress.
pub create_task-IsValid :
    (id : Text) (now : ℕ) (t : Task) (db : Db)
    → IsValid db.tasks
    → t.status ≢ TaskStatus.in_progress
    → IsValid ((create_task id now t db).1).tasks
create_task-IsValid id now t db valid idle = elim (create_task-cases id now t db) [
  | inl same ↦ rw same valid
  | inr (r, grown, rid, rstatus, fresh) ↦ rw grown (record {
    distinct = Distinct-append db.tasks r valid.distinct (λ u i e.
        let hit = In-any (has_task_id id) u db.tasks i in ground (arith, hit, text_eq_iff u.id id));
    exclusive = λ u v i j p q e. elim (In-append u db.tasks (r ∷ []) i) [
      | inr (inl x) ↦ absurd (idle (sym rstatus ∙ rw x at p))
      | inr (inr x) ↦ absurd x
      | inl i' ↦ elim (In-append v db.tasks (r ∷ []) j) [
        | inr (inl x) ↦ absurd (idle (sym rstatus ∙ rw x at q))
        | inr (inr x) ↦ absurd x
        | inl j' ↦ valid.exclusive u v i' j' p q e
      ]
    ];
  })
]
