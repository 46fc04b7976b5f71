-- ===== src/Store/Ownership.antt =====
-- Which rows a worker owns, under each statement: no statement of another worker takes a row away
-- from the worker that owns it.
use ai_coworker.Prelude.{
  ℕ, ◌≡◌, refl, sym, ap, subst, ◌≢◌, ◌∙◌, inl, inr, some, [], ◌∷◌, map, Text, text_eq_iff, keep,
  any, All, arith, Bool-cases,
}
use ai_coworker.Domain.{TaskStatus, Task, Message}
use ai_coworker.Store.Tables.{Db}
use ai_coworker.Store.Threads.{create_message}
use ai_coworker.Store.Tasks.{
  Locks, has_task_id, assign, update_where, claim_next_task, claimable_in, claim_pending_tasks,
  overwrite, update_task, create_task,
}
use ai_coworker.Store.Rows.{
  In, In-append_left, In-keep, In-map, In-map_intro, All-of_In, Distinct, Distinct-unique,
  Distinct-map, Distinct-keep,
}
use ai_coworker.Store.Exclusion.{Owns, IsValid, update_where_miss, claim_next_task-cases}
use ai_coworker.Store.Absorption.{absorb, create_task-cases}

module _ (worker id thread_id : Text) where
  -- A claim takes no row that is in progress.
  pub claim_next_task-Owns :
      (locks : Locks) (claimer : Text) (now : ℕ) (db : Db)
      → IsValid db.tasks
      → Owns worker id thread_id db.tasks
      → Owns worker id thread_id ((claim_next_task locks claimer now db).1).tasks
  claim_next_task-Owns locks claimer now db valid (r, i, rid, rthread, running, owner) =
      elim (claim_next_task-cases locks claimer now db) [
        | inl nothing ↦ rw nothing (r, i, rid, rthread, running, owner)
        | inr (c, listed, passes, result) ↦
            let other : r.id ≢ c.id = λ e.
              let one = Distinct-unique db.tasks r c valid.distinct i listed e in ground arith in
            let kept =
              subst
                (λ x. In x (map (update_where (has_task_id c.id) (assign claimer now)) db.tasks))
                (update_where_miss c.id (assign claimer now) r other)
                (In-map_intro (update_where (has_task_id c.id) (assign claimer now)) r db.tasks
                  i) in
            rw result (r, kept, rid, rthread, running, owner)
      ]

  pub claim_pending_tasks-Owns :
      (locks : Locks) (absorbed claimer : Text) (now : ℕ) (db : Db)
      → Owns worker id thread_id db.tasks
      → Owns worker id thread_id ((claim_pending_tasks locks absorbed claimer now db).1).tasks
  unfolding claim_pending_tasks
  claim_pending_tasks-Owns locks absorbed claimer now db (r, i, rid, rthread, running, owner) =
      let f = absorb locks absorbed claimer now db.tasks in
      let same : f r ≡ r = ground arith in
      (
        r,
        subst (λ x. In x (map f db.tasks)) same (In-map_intro f r db.tasks i),
        rid,
        rthread,
        running,
        owner,
      )

  -- A saved task of another id leaves the row alone.
  pub update_task-Owns_ne :
      (now : ℕ) (t : Task) (db : Db)
      → t.id ≢ id
      → Owns worker id thread_id db.tasks
      → Owns worker id thread_id ((update_task now t db).1).tasks
  unfolding update_task
  update_task-Owns_ne now t db ne (r, i, rid, rthread, running, owner) =
      elim (Bool-cases (any (has_task_id t.id) db.tasks)) [
        | inr missing ↦ rw missing (r, i, rid, rthread, running, owner)
        | inl present ↦
            let f = update_where (has_task_id t.id) (overwrite now t) in
            let same : f r ≡ r =
              update_where_miss t.id (overwrite now t) r (λ e. ne (sym e ∙ rid)) in
            rw present (
              r,
              subst (λ x. In x (map f db.tasks)) same (In-map_intro f r db.tasks i),
              rid,
              rthread,
              running,
              owner,
            )
      ]

  -- Saved as in progress and of the worker, the row stays the worker's.
  pub update_task-Owns_self :
      (now : ℕ) (t : Task) (db : Db)
      → t.id ≡ id
      → t.status ≡ TaskStatus.in_progress
      → t.worker_id ≡ worker
      → Owns worker id thread_id db.tasks
      → Owns worker id thread_id ((update_task now t db).1).tasks
  unfolding update_task
  update_task-Owns_self now t db same s w (r, i, rid, rthread, running, owner) =
      elim (Bool-cases (any (has_task_id t.id) db.tasks)) [
        | inr missing ↦ rw missing (r, i, rid, rthread, running, owner)
        | inl present ↦
            let f = update_where (has_task_id t.id) (overwrite now t) in
            let hit : f r ≡ overwrite now t r = ground (arith, text_eq_iff r.id t.id) in
            rw present (
              overwrite now t r,
              subst (λ x. In x (map f db.tasks)) hit (In-map_intro f r db.tasks i),
              rid,
              rthread,
              s,
              w,
            )
      ]

  pub create_task-Owns :
      (new_id : Text) (now : ℕ) (t : Task) (db : Db)
      → Owns worker id thread_id db.tasks
      → Owns worker id thread_id ((create_task new_id now t db).1).tasks
  create_task-Owns new_id now t db (r, i, rid, rthread, running, owner) =
      elim (create_task-cases new_id now t db) [
        | inl same ↦ rw same (r, i, rid, rthread, running, owner)
        | inr (n, grown, _, _, _) ↦
            rw grown (r, In-append_left r db.tasks (n ∷ []) i, rid, rthread, running, owner)
      ]

-- A claimed task is its worker's.
pub claim_next_task-Owns_new :
    (locks : Locks) (worker : Text) (now : ℕ) (db : Db) (t : Task)
    → (claim_next_task locks worker now db).0 ≡ some t
    → Owns worker t.id t.thread_id ((claim_next_task locks worker now db).1).tasks
claim_next_task-Owns_new locks worker now db t e =
    elim (claim_next_task-cases locks worker now db) [
      | inl nothing ↦ cc (nothing, e)
      | inr (c, listed, passes, result) ↦
          let f = update_where (has_task_id c.id) (assign worker now) in
          let hit : f c ≡ assign worker now c = ground (arith, text_eq_iff c.id c.id) in
          let got : assign worker now c ≡ t = ground (arith, result) in
          rw result (
            assign worker now c,
            subst (λ x. In x (map f db.tasks)) hit (In-map_intro f c db.tasks listed),
            ap (λ (x : Task). x.id) got,
            ap (λ (x : Task). x.thread_id) got,
            refl,
            refl,
          )
    ]

-- So is every absorbed one, and no two absorbed tasks are one row.
pub claim_pending_tasks-Owns_new :
    (locks : Locks) (thread_id worker : Text) (now : ℕ) (db : Db)
    → IsValid db.tasks
    → let (ts, db') = claim_pending_tasks locks thread_id worker now db in
      All (λ t. Owns worker t.id thread_id db'.tasks) ts × Distinct ts
unfolding claim_pending_tasks
claim_pending_tasks-Owns_new locks thread_id worker now db valid =
    let p = claimable_in locks thread_id in
    let f = absorb locks thread_id worker now db.tasks in
    (
      All-of_In _ _ (λ t i.
          let (c, j, e) = In-map (assign worker now) t (keep p db.tasks) i in
          let (listed, passes) = In-keep p c db.tasks j in
          let hit : f c ≡ assign worker now c = ground arith in
          (
            assign worker now c,
            subst (λ x. In x (map f db.tasks)) hit (In-map_intro f c db.tasks listed),
            sym (ap (λ (x : Task). x.id) e),
            ground (arith, text_eq_iff c.thread_id thread_id),
            refl,
            refl,
          )),
      Distinct-map (assign worker now) (λ t. refl) (keep p db.tasks)
          (Distinct-keep p db.tasks valid.distinct),
    )

-- A row that is owned already is not among those that a worker absorbs.
pub claim_pending_tasks-apart :
    (locks : Locks) (absorbed claimer worker id thread_id : Text) (now : ℕ) (db : Db) (u : Task)
    → IsValid db.tasks
    → Owns worker id thread_id db.tasks
    → In u (claim_pending_tasks locks absorbed claimer now db).0
    → id ≢ u.id
unfolding claim_pending_tasks
claim_pending_tasks-apart locks absorbed claimer worker id thread_id now db u valid
      (r, i, rid, _, running, _) j same =
    let p = claimable_in locks absorbed in
    let (c, k, e) = In-map (assign claimer now) u (keep p db.tasks) j in
    let (listed, passes) = In-keep p c db.tasks k in
    let one =
      Distinct-unique db.tasks r c valid.distinct i listed
        (rid ∙ same ∙ ap (λ (x : Task). x.id) e) in
    ground arith

-- A new message leaves the tasks alone.
pub create_message-tasks :
    (id : Text) (now : ℕ) (m : Message) (db : Db)
    → ((create_message id now m db).1).tasks ≡ db.tasks
unfolding create_message
create_message-tasks id now m db = ground arith
