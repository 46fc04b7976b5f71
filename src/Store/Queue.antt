-- ===== src/Store/Queue.antt =====
-- What a claim hands out: the oldest task that may run, and never one of a thread that is at work.
use ai_coworker.Prelude.{
  ◌⊎◌, refl, text_eq, ℕ, ◌≤◌, ◌≡◌, sym, ap, ◌≢◌, ◌∙◌, ◌↔◌, inl, inr, true, false, none, some, List,
  [], ◌∷◌, map, Text, text_eq_iff, keep, leb, arith, Bool-cases, Option-cases,
}
use ai_coworker.Domain.{TaskStatus, Task, is_pending, is_in_progress}
use ai_coworker.Store.Tables.{Db}
use ai_coworker.Store.Tasks.{
  Locks, blocks, is_busy, claimable, oldest, assign, update_where, has_task_id, claim_next_task,
  claimable_in, claim_pending_tasks,
}
use ai_coworker.Store.Rows.{In, In-any, any-In, In-keep, In-keep_intro, In-map}
use ai_coworker.Store.Exclusion.{In-oldest, claimable_idle}
use ai_coworker.Store.Absorption.{Works}

oldest-none : (v : Task) (ts : List Task) → oldest ts ≡ none → ¬ (In v ts)
unfolding oldest
oldest-none v [] e i = i
oldest-none v (u ∷ ts) e i = cc

oldest-le :
    (t v : Task) (ts : List Task) → oldest ts ≡ some t → In v ts → t.created_at ≤ v.created_at
unfolding oldest
oldest-le t v [] e i = absurd i
oldest-le t v (u ∷ ts) e i = elim (Option-cases (oldest ts)) [
  | inl empty ↦ elim i [
    | inl same ↦ let first : u ≡ t = ground arith in rw (same, first) (omega arith)
    | inr later ↦ absurd (oldest-none v ts empty later)
  ]
  | inr (w, found) ↦
      let w-le : In v ts → w.created_at ≤ v.created_at = oldest-le w v ts found in
      elim (Bool-cases (leb u.created_at w.created_at)) [
        | inl first ↦
            let same : u ≡ t = ground arith in
            elim i [
              | inl here ↦ rw (here, same) (omega arith)
              | inr later ↦ rw (← same) (ground (arith, w-le later))
            ]
        | inr after ↦
            let same : w ≡ t = ground arith in
            elim i [
              | inl here ↦ rw (here, ← same) (ground arith)
              | inr later ↦ rw (← same) (w-le later)
            ]
      ]
]

-- The table after the claim of `c`.
abbrev pub claimed_rows : Text → ℕ → Task → List Task → List Task
claimed_rows worker now c ts = map (update_where (has_task_id c.id) (assign worker now)) ts

-- A claim returns a claimable task that no claimable task precedes, assigned to the worker, and
-- changes the row of that task alone.
pub claim_next_task-oldest :
    (locks : Locks) (worker : Text) (now : ℕ) (db : Db) (t : Task)
    → (claim_next_task locks worker now db).0 ≡ some t
    → (c : Task) × In c db.tasks
      × (claimable locks db.tasks c ≡ true)
      × (t ≡ assign worker now c)
      × ((v : Task)
          → In v db.tasks
          → claimable locks db.tasks v ≡ true
          → c.created_at ≤ v.created_at)
      × ((claim_next_task locks worker now db).1
          ≡ record db { tasks = claimed_rows worker now c db.tasks })
unfolding claim_next_task
claim_next_task-oldest locks worker now db t e =
    elim (Option-cases (oldest (keep (claimable locks db.tasks) db.tasks))) [
      | inl nothing ↦ absurd (cc (rw nothing at e))
      | inr (c, found) ↦
          let (listed, passes) =
            In-keep (claimable locks db.tasks) c db.tasks (In-oldest c _ found) in
          (
            c,
            listed,
            passes,
            ground (arith, found),
            (λ v i p.
                oldest-le c v _ found (In-keep_intro (claimable locks db.tasks) v db.tasks i p)),
            rw found,
          )
    ]

claim_next_task-none :
    (locks : Locks) (worker : Text) (now : ℕ) (db : Db)
    → ((claim_next_task locks worker now db).0 ≡ none)
      ↔ ((v : Task) → In v db.tasks → claimable locks db.tasks v ≡ false)
unfolding claim_next_task
claim_next_task-none locks worker now db =
    elim (Option-cases (oldest (keep (claimable locks db.tasks) db.tasks))) [
      | inl nothing ↦ (
        λ _ v i. elim (Bool-cases (claimable locks db.tasks v)) [
          | inl passes ↦ absurd (
              oldest-none v _ nothing
                (In-keep_intro (claimable locks db.tasks) v db.tasks i passes))
          | inr fails ↦ fails
        ],
        λ _. rw nothing,
      )
      | inr (c, found) ↦
          let (listed, passes) =
            In-keep (claimable locks db.tasks) c db.tasks (In-oldest c _ found) in
          (λ e. cc (rw found at e), λ h. cc (h c listed, passes))
    ]

is_pending_iff : (x : TaskStatus) → (is_pending x ≡ true) ↔ (x ≡ TaskStatus.pending)
is_pending_iff TaskStatus.pending = ((λ _. refl), (λ _. refl))
is_pending_iff TaskStatus.in_progress = ((λ e. cc), (λ e. cc))
is_pending_iff TaskStatus.completed = ((λ e. cc), (λ e. cc))
is_pending_iff TaskStatus.failed = ((λ e. cc), (λ e. cc))

is_in_progress_iff : (x : TaskStatus) → (is_in_progress x ≡ true) ↔ (x ≡ TaskStatus.in_progress)
is_in_progress_iff TaskStatus.in_progress = ((λ _. refl), (λ _. refl))
is_in_progress_iff TaskStatus.pending = ((λ e. cc), (λ e. cc))
is_in_progress_iff TaskStatus.completed = ((λ e. cc), (λ e. cc))
is_in_progress_iff TaskStatus.failed = ((λ e. cc), (λ e. cc))

-- A task of the thread is in progress.
abbrev pub AtWork : List Task → Text → Type 0
AtWork ts thread_id =
    (u : Task) × In u ts × (u.thread_id ≡ thread_id) × (u.status ≡ TaskStatus.in_progress)

is_busy_iff :
    (thread_id : Text) (ts : List Task) → (is_busy thread_id ts ≡ true) ↔ AtWork ts thread_id
unfolding is_busy
is_busy_iff thread_id ts = (
  λ h.
      let (u, listed, blocking) = any-In (blocks thread_id) ts h in
      let parts : (text_eq u.thread_id thread_id ≡ true) × (is_in_progress u.status ≡ true) =
        ground arith in
      (
        u,
        listed,
        (text_eq_iff u.thread_id thread_id).0 parts.0,
        (is_in_progress_iff u.status).0 parts.1,
      ),
  λ (u, listed, same, running). In-any (blocks thread_id) u ts listed (
      rw ((text_eq_iff u.thread_id thread_id).1 same, (is_in_progress_iff u.status).1 running)
        refl),
)

-- Its thread is at work, or another transaction has locked the thread or the row.
abbrev pub IsHeld : Locks → List Task → Task → Type 0
IsHeld locks ts v =
    AtWork ts v.thread_id ⊎ (locks.thread_free v.thread_id ≡ false) ⊎ (locks.row_free v.id ≡ false)

claimable_iff :
    (locks : Locks) (ts : List Task) (v : Task)
    → (claimable locks ts v ≡ false) ↔ (v.status ≡ TaskStatus.pending → IsHeld locks ts v)
claimable_iff locks ts v = (
  λ h pending.
      let waits = (is_pending_iff v.status).1 pending in
      elim (Bool-cases (is_busy v.thread_id ts)) [
        | inl busy ↦ inl ((is_busy_iff v.thread_id ts).0 busy)
        | inr idle ↦ elim (Bool-cases (locks.thread_free v.thread_id)) [
          | inr locked ↦ inr (inl locked)
          | inl free ↦ inr (inr (rw (waits, idle, free) at h))
        ]
      ],
  λ held. elim (Bool-cases (is_pending v.status)) [
    | inr other ↦ rw other refl
    | inl waits ↦ elim (held ((is_pending_iff v.status).0 waits)) [
      | inl busy ↦ rw (waits, (is_busy_iff v.thread_id ts).1 busy) refl
      | inr (inl locked) ↦ ground arith
      | inr (inr locked) ↦ ground arith
    ]
  ],
)

-- A claim returns nothing exactly when every pending task is held: its thread has a task in progress,
-- or another transaction has locked its thread or its row.
pub claim_next_task-eq-none_iff :
    (locks : Locks) (worker : Text) (now : ℕ) (db : Db)
    → ((claim_next_task locks worker now db).0 ≡ none)
      ↔ ((v : Task) → In v db.tasks → v.status ≡ TaskStatus.pending → IsHeld locks db.tasks v)
claim_next_task-eq-none_iff locks worker now db =
    let none_iff = claim_next_task-none locks worker now db in
    (
      λ e v i. (claimable_iff locks db.tasks v).0 (none_iff.0 e v i),
      λ held. none_iff.1 (λ v i. (claimable_iff locks db.tasks v).1 (held v i)),
    )

-- While a worker has a task of a thread in progress, no claim returns a task of that thread.
pub claim_next_task-blocked :
    (locks : Locks) (worker claimer thread_id : Text) (now : ℕ) (db : Db) (t : Task)
    → Works worker thread_id db.tasks
    → (claim_next_task locks claimer now db).0 ≡ some t
    → t.thread_id ≢ thread_id
claim_next_task-blocked locks worker claimer thread_id now db t (p, i, running, here, _) e same =
    let (c, listed, passes, got, _, _) = claim_next_task-oldest locks claimer now db t e in
    claimable_idle locks db.tasks c p passes i running
      (here ∙ sym same ∙ ap (λ (x : Task). x.thread_id) got)

-- With no row locked, the claim of a thread leaves none of its tasks pending.
pub claim_pending_tasks_complete :
    (locks : Locks) (thread_id worker : Text) (now : ℕ) (db : Db) (t : Task)
    → ((id : Text) → locks.row_free id ≡ true)
    → In t ((claim_pending_tasks locks thread_id worker now db).1).tasks
    → t.status ≡ TaskStatus.pending
    → t.thread_id ≢ thread_id
unfolding claim_pending_tasks
claim_pending_tasks_complete locks thread_id worker now db t free i s same =
    let (c, j, e) =
      In-map (update_where (claimable_in locks thread_id) (assign worker now)) t db.tasks i in
    ground (arith, free c.id, text_eq_iff c.thread_id thread_id)
