-- ===== src/Store/Exclusion.antt =====
-- One worker at a time on a thread: the invariant of the tasks table under each statement.
use ai_coworker.Prelude.{
  ℕ, ◌≡◌, refl, sym, ◌≢◌, ◌∙◌, ◌⊎◌, inl, inr, true, false, none, some, List, [], ◌∷◌, map, Text,
  text_eq, text_eq_iff, keep, any, arith, ap, subst, Bool-cases, Option-cases, leb,
}
use ai_coworker.Domain.{TaskStatus, Task}
use ai_coworker.Store.Tables.{Db}
use ai_coworker.Store.Tasks.{
  Locks, has_task_id, blocks, is_busy, claimable, oldest, assign, update_where, claim_next_task,
  overwrite, update_task,
}
use ai_coworker.Store.Rows.{
  In, In-keep, In-any, any-In, In-map, Distinct, Distinct-unique, Distinct-map,
}

-- Two tasks of one thread that are in progress belong to one worker.
abbrev pub Exclusive : List Task → Type 0
Exclusive ts =
    (t u : Task)
    → In t ts
    → In u ts
    → t.status ≡ TaskStatus.in_progress
    → u.status ≡ TaskStatus.in_progress
    → t.thread_id ≡ u.thread_id
    → t.worker_id ≡ u.worker_id

pub record IsValid (ts : List Task) : Type 0 where
  pub distinct : Distinct ts
  pub exclusive : Exclusive ts

-- The row of the id is in the table, of the thread, in progress and assigned to the worker.
abbrev pub Owns : Text → Text → Text → List Task → Type 0
Owns worker id thread_id ts =
    (r : Task) × In r ts
    × (r.id ≡ id)
    × (r.thread_id ≡ thread_id)
    × (r.status ≡ TaskStatus.in_progress)
    × (r.worker_id ≡ worker)

pub In-oldest : (t : Task) (ts : List Task) → oldest ts ≡ some t → In t ts
unfolding oldest
In-oldest t [] e = cc
In-oldest t (u ∷ ts) e = elim (Option-cases (oldest ts)) [
  | inl empty ↦ inl (ground arith)
  | inr (v, found) ↦ elim (Bool-cases (leb u.created_at v.created_at)) [
    | inl first ↦ inl (ground arith)
    | inr later ↦ inr (In-oldest t ts (ground arith))
  ]
]

not_busy :
    (thread_id : Text) (u : Task) (ts : List Task)
    → is_busy thread_id ts ≡ false
    → In u ts
    → u.status ≡ TaskStatus.in_progress
    → u.thread_id ≢ thread_id
unfolding is_busy
not_busy thread_id u ts e i s same =
    ground (arith, text_eq_iff u.thread_id thread_id, In-any (blocks thread_id) u ts i)

-- What an UPDATE of the rows of one id does to a row.
module _ (id : Text) (f : Task → Task) where
  pub update_where_hit : (t : Task) → t.id ≡ id → update_where (has_task_id id) f t ≡ f t
  update_where_hit t e = ground (arith, text_eq_iff t.id id)

  pub update_where_miss : (t : Task) → t.id ≢ id → update_where (has_task_id id) f t ≡ t
  update_where_miss t e = ground (arith, text_eq_iff t.id id)

  update_where_id : (t : Task) → (f t).id ≡ t.id → (update_where (has_task_id id) f t).id ≡ t.id
  update_where_id t e = ground arith

-- A row after the UPDATE is an old row of another id, or a changed row of the id.
updated :
    (id : Text) (f : Task → Task) (u : Task) (ts : List Task)
    → In u (map (update_where (has_task_id id) f) ts)
    → (In u ts × (u.id ≢ id)) ⊎ ((c : Task) × In c ts × (c.id ≡ id) × (u ≡ f c))
updated id f u ts i =
    let (c, j, e) = In-map (update_where (has_task_id id) f) u ts i in
    elim (Bool-cases (text_eq c.id id)) [
      | inl hit ↦
          let same : c.id ≡ id = (text_eq_iff c.id id).0 hit in
          inr (c, j, same, e ∙ update_where_hit id f c same)
      | inr miss ↦
          let other : c.id ≢ id = ground (arith, text_eq_iff c.id id) in
          let kept : u ≡ c = e ∙ update_where_miss id f c other in inl (rw kept j, rw kept other)
    ]

-- The claim finds nothing, or a claimable row, which it assigns.
pub claim_next_task-cases :
    (locks : Locks) (worker : Text) (now : ℕ) (db : Db)
    → (claim_next_task locks worker now db ≡ (none, db))
      ⊎ ((c : Task) × In c db.tasks
          × (claimable locks db.tasks c ≡ true)
          × (claim_next_task locks worker now db ≡ (
            some (assign worker now c),
            record db {
              tasks = map (update_where (has_task_id c.id) (assign worker now)) db.tasks;
            },
          )))
unfolding claim_next_task
claim_next_task-cases locks worker now db =
    elim (Option-cases (oldest (keep (claimable locks db.tasks) db.tasks))) [
      | inl nothing ↦ inl (rw nothing)
      | inr (c, found) ↦
          let (listed, passes) =
            In-keep (claimable locks db.tasks) c db.tasks (In-oldest c _ found) in
          inr (c, listed, passes, rw found)
    ]

-- No other row of a claimable task's thread is in progress.
pub claimable_idle :
    (locks : Locks) (ts : List Task) (c v : Task)
    → claimable locks ts c ≡ true
    → In v ts
    → v.status ≡ TaskStatus.in_progress
    → v.thread_id ≢ c.thread_id
claimable_idle locks ts c v passes i s = not_busy c.thread_id v ts (ground arith) i s

-- The UPDATE of one row keeps exclusion if the changed row agrees with the others of its thread.
module _ (f : Task → Task) (c : Task) (ts : List Task) (valid : IsValid ts) (listed : In c ts) where
  abbrev Agrees : Type 0
  Agrees =
      (v : Task)
      → In v ts
      → v.status ≡ TaskStatus.in_progress
      → (f c).status ≡ TaskStatus.in_progress
      → v.thread_id ≡ (f c).thread_id
      → v.worker_id ≡ (f c).worker_id

  updated_row : (u : Task) → In u (map (update_where (has_task_id c.id) f) ts) → In u ts ⊎ (u ≡ f c)
  updated_row u i = elim (updated c.id f u ts i) [
    | inl (old, _) ↦ inl old
    | inr (d, k, e, changed) ↦
        inr (changed ∙ ap f (Distinct-unique ts d c valid.distinct k listed e))
  ]

  Exclusive-update : Agrees → Exclusive (map (update_where (has_task_id c.id) f) ts)
  Exclusive-update agrees t u i j p q same = elim (updated_row t i) [
    | inl t_old ↦ elim (updated_row u j) [
      | inl u_old ↦ valid.exclusive t u t_old u_old p q same
      | inr u_new ↦ rw u_new (agrees t t_old p (rw u_new at q) (rw u_new at same))
    ]
    | inr t_new ↦ elim (updated_row u j) [
      | inl u_old ↦ rw t_new (sym (agrees u u_old q (rw t_new at p) (sym (rw t_new at same))))
      | inr u_new ↦ rw (t_new, u_new)
    ]
  ]

  IsValid-update :
      Agrees → ((t : Task) → (f t).id ≡ t.id) → IsValid (map (update_where (has_task_id c.id) f) ts)
  IsValid-update agrees same = record {
    distinct =
        Distinct-map (update_where (has_task_id c.id) f) (λ t. update_where_id c.id f t (same t)) ts
          valid.distinct;
    exclusive = Exclusive-update agrees;
  }

-- A claim keeps the invariant that no thread has tasks of two workers in progress, whatever the
-- concurrent transactions have locked.
pub claim_next_task-IsValid :
    (locks : Locks) (worker : Text) (now : ℕ) (db : Db)
    → IsValid db.tasks
    → IsValid ((claim_next_task locks worker now db).1).tasks
claim_next_task-IsValid locks worker now db valid =
    elim (claim_next_task-cases locks worker now db) [
      | inl none_left ↦ rw none_left valid
      | inr (c, listed, passes, result) ↦ rw result (
          IsValid-update (assign worker now) c db.tasks valid listed
            (λ v i s _ same. absurd (claimable_idle locks db.tasks c v passes i s same))
            (λ t. refl))
    ]

-- Saving a task keeps the invariant that no thread has tasks of two workers in progress, if a
-- task that is saved as in progress has a row that its worker owns.
pub update_task-IsValid :
    (now : ℕ) (t : Task) (db : Db)
    → IsValid db.tasks
    → (t.status ≡ TaskStatus.in_progress → Owns t.worker_id t.id t.thread_id db.tasks)
    → IsValid ((update_task now t db).1).tasks
unfolding update_task
update_task-IsValid now t db valid owns = elim (Bool-cases (any (has_task_id t.id) db.tasks)) [
  | inr missing ↦ rw missing valid
  | inl present ↦
      let (c, listed, hit) = any-In (has_task_id t.id) db.tasks present in
      let same : c.id ≡ t.id = (text_eq_iff c.id t.id).0 hit in
      rw present (
        subst (λ id. IsValid (map (update_where (has_task_id id) (overwrite now t)) db.tasks)) same
          (IsValid-update (overwrite now t) c db.tasks valid listed
            (λ v i s q e.
              let (r, k, rid, _, running, owner) = owns q in
              let one = Distinct-unique db.tasks r c valid.distinct k listed (rid ∙ sym same) in
              valid.exclusive v r i k s running (e ∙ ap (λ (x : Task). x.thread_id) (sym one))
              ∙ owner)
            (λ u. refl)))
]
