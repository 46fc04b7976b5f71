-- ===== src/Store/Snapshot.antt =====
-- A claim of ClaimNextTask, internal/store/postgres.go, beside another one. In the isolation level
-- READ COMMITTED the conditions of a statement are read from a snapshot that is taken when it
-- begins; a row that was changed since is tested again, and is passed over if it fails.
use ai_coworker.Prelude.{
  ℕ, ◌≡◌, ◌≢◌, refl, sym, ap, ◌∙◌, inl, inr, true, false, Bool, Option, some, List, [], ◌∷◌, ◌&&◌,
  keep, any, Text, text_eq, text_eq_iff, text_eq_refl, arith, leb,
}
use ai_coworker.Domain.{TaskStatus, Task, is_pending, is_in_progress}
use ai_coworker.Store.Tables.{Db}
use ai_coworker.Store.Tasks.{
  Locks, has_task_id, is_busy, claimable, oldest, assign, claim_next_task, take_task,
}
use ai_coworker.Store.Rows.{In, In-any, In-keep}
use ai_coworker.Store.Exclusion.{Exclusive}

-- The row of the task is still pending in the table.
abbrev pub still_pending : List Task → Task → Bool
still_pending ts t = any (λ r. has_task_id t.id r && is_pending r.status) ts

-- The claim whose conditions are read from an earlier table.
unfoldable pub claim_from : List Task → Locks → Text → ℕ → Db → Option Task × Db
unfolding keep oldest is_busy any
claim_from snapshot locks worker now db =
    take_task worker now db
      (oldest (keep (still_pending db.tasks) (keep (claimable locks snapshot) snapshot)))

keep-all : (p : Task → Bool) (ts : List Task) → ((t : Task) → In t ts → p t ≡ true) → keep p ts ≡ ts
unfolding keep
keep-all p [] h = refl
keep-all p (t ∷ ts) h = rw (h t (inl refl)) (ap (λ us. t ∷ us) (keep-all p ts (λ u i. h u (inr i))))

still_pending-In :
    (ts : List Task) (t : Task) → In t ts → is_pending t.status ≡ true → still_pending ts t ≡ true
still_pending-In ts t i pending =
    In-any (λ r. has_task_id t.id r && is_pending r.status) t ts i
      (rw (text_eq_refl t.id, pending) refl)

-- Read from the table itself, and not from an earlier one, this is the claim of the queue.
pub claim_from-same :
    (locks : Locks) (worker : Text) (now : ℕ) (db : Db)
    → claim_from db.tasks locks worker now db ≡ claim_next_task locks worker now db
unfolding claim_from claim_next_task
claim_from-same locks worker now db =
    ap (λ ts. take_task worker now db (oldest ts))
      (keep-all (still_pending db.tasks) (keep (claimable locks db.tasks) db.tasks) (λ t i.
        let (listed, passes) = In-keep (claimable locks db.tasks) t db.tasks i in
        still_pending-In db.tasks t listed (ground arith)))

is_in_progress-pending : (s : TaskStatus) → is_pending s ≡ true → is_in_progress s ≡ false
is_in_progress-pending TaskStatus.pending h = refl
is_in_progress-pending TaskStatus.in_progress h = absurd (cc h)
is_in_progress-pending TaskStatus.completed h = refl
is_in_progress-pending TaskStatus.failed h = refl

-- Nothing is locked: every other transaction is over.
abbrev pub unlocked : Locks
unlocked = record { thread_free = λ _. true; row_free = λ _. true }

claim_next_task_lem :
    (locks : Locks) (worker : Text) (now : ℕ) (db : Db)
    → claim_next_task locks worker now db
      ≡ take_task worker now db (oldest (keep (claimable locks db.tasks) db.tasks))
unfolding claim_next_task
claim_next_task_lem locks worker now db = refl

keep-both :
    (p : Task → Bool) (t u : Task) → p t ≡ true → p u ≡ true → keep p (t ∷ u ∷ []) ≡ t ∷ u ∷ []
unfolding keep
keep-both p t u h k = rw (h, k) refl

keep-second :
    (p : Task → Bool) (t u : Task) → p t ≡ false → p u ≡ true → keep p (t ∷ u ∷ []) ≡ u ∷ []
unfolding keep
keep-second p t u h k = rw (h, k) refl

oldest-both : (t u : Task) → leb t.created_at u.created_at ≡ true → oldest (t ∷ u ∷ []) ≡ some t
unfolding oldest
oldest-both t u h = rw h refl

oldest-one : (u : Task) → oldest (u ∷ []) ≡ some u
unfolding oldest
oldest-one u = refl

-- Of two pending tasks no thread is busy.
is_busy-pending :
    (x : Text) (t u : Task)
    → is_pending t.status ≡ true
    → is_pending u.status ≡ true
    → is_busy x (t ∷ u ∷ []) ≡ false
unfolding is_busy any
is_busy-pending x t u h k =
    ground (arith, is_in_progress-pending t.status h, is_in_progress-pending u.status k)

claim_from_lem :
    (snapshot : List Task) (locks : Locks) (worker : Text) (now : ℕ) (db : Db)
    → claim_from snapshot locks worker now db
      ≡ take_task worker now db
          (oldest (keep (still_pending db.tasks) (keep (claimable locks snapshot) snapshot)))
unfolding claim_from
claim_from_lem snapshot locks worker now db = refl

-- Two pending tasks of one thread, the first no later than the second.
module _ (t u : Task) (db : Db) (rows : db.tasks ≡ t ∷ u ∷ [])
    (t_pending : is_pending t.status ≡ true) (u_pending : is_pending u.status ≡ true)
    (other : text_eq t.id u.id ≡ false) (thread : u.thread_id ≡ t.thread_id)
    (first : leb t.created_at u.created_at ≡ true) (a b : Text) (now : ℕ) where
  abbrev pub after_first : Db
  after_first = record db { tasks = assign a now t ∷ u ∷ [] }

  reversed : text_eq u.id t.id ≡ false
  reversed = ground (arith, text_eq_iff t.id u.id, text_eq_iff u.id t.id)

  candidates : keep (claimable unlocked (t ∷ u ∷ [])) (t ∷ u ∷ []) ≡ t ∷ u ∷ []
  candidates =
      keep-both (claimable unlocked (t ∷ u ∷ [])) t u
        (rw (t_pending, is_busy-pending t.thread_id t u t_pending u_pending) refl)
        (rw (u_pending, is_busy-pending u.thread_id t u t_pending u_pending) refl)

  -- The first claim takes the first task.
  first_taken : claim_next_task unlocked a now db ≡ (some (assign a now t), after_first)
  first_taken =
      claim_next_task_lem unlocked a now db
      ∙ rw (rows, candidates, oldest-both t u first, text_eq_refl t.id, reversed) refl

  still : (still_pending after_first.tasks t ≡ false) × (still_pending after_first.tasks u ≡ true)
  unfolding any
  still = (rw (text_eq_refl t.id, reversed) refl, rw (other, text_eq_refl u.id, u_pending) refl)

  second_taken :
      claim_from db.tasks unlocked b now after_first
      ≡ (some (assign b now u), record db { tasks = assign a now t ∷ assign b now u ∷ [] })
  second_taken =
      claim_from_lem db.tasks unlocked b now after_first
      ∙ rw
          (
            rows,
            candidates,
            keep-second (still_pending after_first.tasks) t u still.0 still.1,
            oldest-one u,
            other,
            text_eq_refl u.id,
          )
          refl

  -- In a table of two pending tasks of one thread: a claim whose snapshot was taken before another
  -- worker's claim, and which goes on after that one is over and holds no lock any more, gets the
  -- second task while the first is in progress. Two workers then have a task of one thread in progress.
  pub claim_from-races :
      a ≢ b
      → ((claim_next_task unlocked a now db).0 ≡ some (assign a now t))
        × ((claim_from db.tasks unlocked b now (claim_next_task unlocked a now db).1).0
            ≡ some (assign b now u))
        × ¬ (
            Exclusive
              ((claim_from db.tasks unlocked b now (claim_next_task unlocked a now db).1).1).tasks)
  claim_from-races different =
      rw (first_taken, second_taken)
        (
          refl,
          refl,
          λ exclusive. different (
              exclusive (assign a now t) (assign b now u) (inl refl) (inr (inl refl)) refl refl
                (sym thread)),
        )
