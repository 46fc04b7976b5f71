-- ===== src/Store/Lease.antt =====
-- The queue as a table of leases: a thread is free, or one worker has it. The statements on the tasks
-- table implement the steps of that table.
use ai_coworker.Prelude.{
  ℕ, ◌≡◌, refl, sym, ap, ◌∙◌, subst, inl, inr, true, false, Option, none, some, List, [], ◌∷◌, map,
  find, any, Text, text_eq, text_eq_iff, text_eq_refl, arith, Bool-cases, All, if◌then◌else◌,
}
use mathlib.Core.Path.{fun_ext}
use ai_coworker.Domain.{Task}
use ai_coworker.Store.Tables.{Db}
use ai_coworker.Store.Tasks.{
  Locks, has_task_id, blocks, is_busy, assign, update_where, claim_next_task,
}
use ai_coworker.Store.Rows.{In, All-of_In, Distinct-unique}
use ai_coworker.Store.Exclusion.{IsValid, claim_next_task-cases}

-- What the table of leases says of each thread.
abbrev pub Leases : Type 0
Leases = Text → Option Text

abbrev pub grant : Text → Text → Leases → Leases
grant thread worker h x = if text_eq thread x then some worker else h x

-- A worker's step: nothing, or the grant of a thread that is free.
pub data Step (worker : Text) : Leases → Leases → Type 0 where
  stay : (h : Leases) → Step worker h h
  acquire : (thread : Text) (h : Leases) → h thread ≡ none → Step worker h (grant thread worker h)

abbrev pub worker_of : Option Task → Option Text
worker_of none = none
worker_of (some t) = some t.worker_id

-- The leases that the rows of the tasks table stand for.
unfoldable pub leases : List Task → Leases
unfolding find
leases ts x = worker_of (find (blocks x) ts)

leases_cons :
    (t : Task) (ts : List Task) (x : Text)
    → leases (t ∷ ts) x ≡ (if blocks x t then some t.worker_id else leases ts x)
unfolding leases find
leases_cons t ts x = elim (Bool-cases (blocks x t)) [
  | inl own ↦ rw own refl
  | inr other ↦ rw other refl
]

leases-idle : (ts : List Task) (x : Text) → is_busy x ts ≡ false → leases ts x ≡ none
unfolding is_busy any leases
leases-idle [] x h = refl
leases-idle (t ∷ ts) x h =
    let idle : blocks x t ≡ false = ground arith in
    rw (leases_cons t ts x, idle) (leases-idle ts x (ground arith))

module _ (worker : Text) (now : ℕ) (c : Task) where
  abbrev claimed : Task → Task
  claimed = update_where (has_task_id c.id) (assign worker now)

  -- A row of the task's id is of its thread.
  abbrev OfThread : Task → Type 0
  OfThread r = r.id ≡ c.id → r.thread_id ≡ c.thread_id

  claimed_hit : (r : Task) → text_eq r.id c.id ≡ true → claimed r ≡ assign worker now r
  claimed_hit r h = rw h refl

  claimed_miss : (r : Task) → text_eq r.id c.id ≡ false → claimed r ≡ r
  claimed_miss r h = rw h refl

  -- A thread but the claimed task's keeps its lease.
  leases-other :
      (ts : List Task) (x : Text)
      → All OfThread ts
      → text_eq c.thread_id x ≡ false
      → leases (map claimed ts) x ≡ leases ts x
  leases-other [] x same other = refl
  leases-other (r ∷ rs) x (here, same) other = elim (Bool-cases (text_eq r.id c.id)) [
    | inr miss ↦
        leases_cons (claimed r) (map claimed rs) x
        ∙ rw (claimed_miss r miss, leases_cons r rs x, leases-other rs x same other) refl
    | inl hit ↦
        let thread = here ((text_eq_iff r.id c.id).0 hit) in
        let away : text_eq r.thread_id x ≡ false = rw thread other in
        leases_cons (claimed r) (map claimed rs) x
        ∙ rw (claimed_hit r hit, leases_cons r rs x, away, leases-other rs x same other) refl
  ]

  -- The claimed task's thread is given to the worker.
  leases-own :
      (ts : List Task)
      → All OfThread ts
      → In c ts
      → is_busy c.thread_id ts ≡ false
      → leases (map claimed ts) c.thread_id ≡ some worker
  unfolding is_busy any
  leases-own [] same listed idle = absurd listed
  leases-own (r ∷ rs) (here, same) listed idle = elim (Bool-cases (text_eq r.id c.id)) [
    | inl hit ↦
        let thread = here ((text_eq_iff r.id c.id).0 hit) in
        leases_cons (claimed r) (map claimed rs) c.thread_id
        ∙ rw (claimed_hit r hit, thread, text_eq_refl c.thread_id) refl
    | inr miss ↦
        let later : In c rs = elim listed [
          | inl e ↦
              let ids : r.id ≡ c.id = ap (λ (t : Task). t.id) (sym e) in
              absurd (ground (arith, text_eq_iff r.id c.id, ids))
          | inr i ↦ i
        ] in
        let away : blocks c.thread_id r ≡ false = ground arith in
        leases_cons (claimed r) (map claimed rs) c.thread_id
        ∙ rw (claimed_miss r miss, away) (leases-own rs same later (ground arith))
  ]

  leases-claimed :
      (ts : List Task)
      → All OfThread ts
      → In c ts
      → is_busy c.thread_id ts ≡ false
      → leases (map claimed ts) ≡ grant c.thread_id worker (leases ts)
  leases-claimed ts same listed idle = fun_ext λ x. elim (Bool-cases (text_eq c.thread_id x)) [
    | inl own ↦ rw own (
        subst (λ y. leases (map claimed ts) y ≡ some worker) ((text_eq_iff c.thread_id x).0 own)
          (leases-own ts same listed idle))
    | inr other ↦ rw other (leases-other ts x same other)
  ]

-- A claim is a step of the table of leases: it changes no lease, or it gives a thread that is free
-- to the worker, whatever the concurrent transactions have locked.
pub claim_next_task-Step :
    (locks : Locks) (worker : Text) (now : ℕ) (db : Db)
    → IsValid db.tasks
    → Step worker (leases db.tasks) (leases ((claim_next_task locks worker now db).1).tasks)
claim_next_task-Step locks worker now db valid = elim (claim_next_task-cases locks worker now db) [
  | inl nothing ↦ rw nothing (Step.stay (leases db.tasks))
  | inr (c, listed, passes, result) ↦
      let idle : is_busy c.thread_id db.tasks ≡ false = ground arith in
      let same : All (OfThread worker now c) db.tasks = All-of_In _ db.tasks (λ r i e.
        ap (λ (t : Task). t.thread_id) (Distinct-unique db.tasks r c valid.distinct i listed e)) in
      rw (result, leases-claimed worker now c db.tasks same listed idle)
        (Step.acquire c.thread_id (leases db.tasks) (leases-idle db.tasks c.thread_id idle))
]
