-- ===== src/Store/Final.antt =====
-- Rows that are final: a task that is completed or failed stays so under the statements of a worker.
use ai_coworker.Prelude.{
  ℕ, ◌≡◌, ◌≢◌, refl, subst, ◌∙◌, inl, inr, Bool, true, false, List, [], ◌∷◌, map, any, Text,
  text_eq, text_eq_iff, arith, Bool-cases,
}
use ai_coworker.Domain.{TaskStatus, Task}
use ai_coworker.Store.Tables.{Db}
use ai_coworker.Store.Tasks.{
  Locks, has_task_id, update_where, overwrite, update_task, claim_pending_tasks, claimable_in,
  assign,
}
use ai_coworker.Store.Rows.{In, In-map_intro, any-In}
use ai_coworker.Store.Exclusion.{update_where_hit, update_where_miss}

-- The task has a row.
abbrev pub IsStored : Text → Db → Type 0
IsStored id db = any (has_task_id id) db.tasks ≡ true

abbrev pub is_final : TaskStatus → Bool
is_final TaskStatus.completed = true
is_final TaskStatus.failed = true
is_final TaskStatus.pending = false
is_final TaskStatus.in_progress = false

-- Its row is completed or failed.
abbrev pub IsFinished : Text → Db → Type 0
IsFinished id db = (r : Task) × In r db.tasks × (r.id ≡ id) × (is_final r.status ≡ true)

any-map_same :
    (id : Text) (f : Task → Task) (ts : List Task)
    → ((t : Task) → (f t).id ≡ t.id)
    → any (has_task_id id) (map f ts) ≡ any (has_task_id id) ts
unfolding any
any-map_same id f [] same = refl
any-map_same id f (t ∷ ts) same = rw (same t, any-map_same id f ts same) refl

update_where-id :
    (p : Task → Bool) (f : Task → Task) (t : Task)
    → (f t).id ≡ t.id
    → (update_where p f t).id ≡ t.id
update_where-id p f t e = elim (Bool-cases (p t)) [ inl hit ↦ rw hit e | inr miss ↦ rw miss refl ]

pub IsStored-update :
    (id : Text) (n : ℕ) (t : Task) (db : Db) → IsStored id db → IsStored id (update_task n t db).1
unfolding update_task
IsStored-update id n t db h = elim (Bool-cases (any (has_task_id t.id) db.tasks)) [
  | inr missing ↦ rw missing h
  | inl there ↦ rw there (
      any-map_same id _ db.tasks (λ u. update_where-id (has_task_id t.id) (overwrite n t) u refl)
      ∙ h)
]

-- A row of the id is final once the task is saved with a final status.
IsFinished-row :
    (n : ℕ) (t r : Task) (db : Db)
    → In r db.tasks
    → any (has_task_id t.id) db.tasks ≡ true
    → r.id ≡ t.id
    → is_final t.status ≡ true
    → IsFinished r.id (update_task n t db).1
unfolding update_task
IsFinished-row n t r db i there same final = rw there (
  overwrite n t r,
  subst (λ u. In u (map (update_where (has_task_id t.id) (overwrite n t)) db.tasks))
      (update_where_hit t.id (overwrite n t) r same)
      (In-map_intro (update_where (has_task_id t.id) (overwrite n t)) r db.tasks i),
  refl,
  final,
)

-- Saving a task that is stored with a final status makes its row final.
pub IsFinished-saved :
    (n : ℕ) (t : Task) (db : Db)
    → IsStored t.id db
    → is_final t.status ≡ true
    → IsFinished t.id (update_task n t db).1
IsFinished-saved n t db there final =
    let (r, i, hit) = any-In (has_task_id t.id) db.tasks there in
    let same : r.id ≡ t.id = (text_eq_iff r.id t.id).0 hit in
    subst (λ id. IsFinished id (update_task n t db).1) same
      (IsFinished-row n t r db i there same final)

-- A final row stays final when any task is saved with a final status.
pub IsFinished-update :
    (id : Text) (n : ℕ) (t : Task) (db : Db)
    → is_final t.status ≡ true
    → IsFinished id db
    → IsFinished id (update_task n t db).1
unfolding update_task
IsFinished-update id n t db final (r, i, same, done) =
    elim (Bool-cases (any (has_task_id t.id) db.tasks)) [
      | inr missing ↦ rw missing (r, i, same, done)
      | inl there ↦
          let f = update_where (has_task_id t.id) (overwrite n t) in
          let kept = In-map_intro f r db.tasks i in
          elim (Bool-cases (text_eq r.id t.id)) [
            | inl hit ↦
                let e = update_where_hit t.id (overwrite n t) r ((text_eq_iff r.id t.id).0 hit) in
                rw there (f r, kept, rw e same, rw e final)
            | inr miss ↦
                let other : r.id ≢ t.id = ground (arith, text_eq_iff r.id t.id) in
                let e = update_where_miss t.id (overwrite n t) r other in
                rw there (f r, kept, rw e same, rw e done)
          ]
    ]

pub IsStored-claim_pending :
    (id : Text) (locks : Locks) (thread_id worker : Text) (now : ℕ) (db : Db)
    → IsStored id db
    → IsStored id (claim_pending_tasks locks thread_id worker now db).1
unfolding claim_pending_tasks
IsStored-claim_pending id locks thread_id worker now db h =
    any-map_same id _ db.tasks
      (λ u. update_where-id (claimable_in locks thread_id) (assign worker now) u refl)
    ∙ h
