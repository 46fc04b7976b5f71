-- ===== src/Engine/World.antt =====
-- What a run of the engine acts on, and what stands outside it. Every call of the store is one step
-- of the run; before each of them the other workers and the router may have changed the tables, and
-- the call may fail, before or after its statement took effect.
pub mod Laws
use ai_coworker.Prelude.{
  ℕ, suc, ◌+◌, Bool, true, false, Option, none, some, List, [], ◌∷◌, ◌++◌, Text,
}
use ai_coworker.Domain.{ChannelRef}
use ai_coworker.Store.{Error, fault, Result, ok, err, Db, Locks}

pub data Fate : Type 0 where
  done : Fate
  refused : Text → Fate
  lost : Text → Fate

-- The surroundings of a run, by the number of the step.
pub record Env : Type 0 where
  pub others : ℕ → Db → Db
  pub fate : ℕ → Fate
  pub locks : ℕ → Locks
  pub now : ℕ → ℕ
  pub fresh_id : ℕ → Text
  pub cancelled : ℕ → Bool

-- What leaves the program through an adapter.
pub data Output : Type 0 where
  acknowledged : ChannelRef → Output
  responded : ChannelRef → Text → Output

pub record World : Type 0 where
  pub db : Db
  pub step : ℕ
  pub outputs : List Output

-- A Go function over the world that may return early with an error.
abbrev pub Action : Type 0 → Type 0
Action A = World → Result A × World

infixl 5 ◌>>=◌ ◌>>◌
unfoldable pub ◌>>=◌ : {A B : Type 0} → Action A → (A → Action B) → Action B
◌>>=◌ m f w = let (r, w') = m w in elim r [ ok a ↦ f a w' | err e ↦ (err e, w') ]

abbrev pub ◌>>◌ : {A B : Type 0} → Action A → Action B → Action B
m >> k = m >>= λ _. k

module _ {A : Type 0} where
  abbrev pub pure : A → Action A
  pure a w = (ok a, w)

  abbrev pub raise : Error → Action A
  raise e w = (err e, w)

  -- `x, err := m`
  abbrev pub attempt : Action A → Action (Result A)
  attempt m w = let (r, w') = m w in (ok r, w')

  abbrev pub from_result : Result A → Action A
  from_result r w = (r, w)

abbrev pub emit : Output → Action (Unit {0})
emit o w = (ok tt, record w { outputs = w.outputs ++ o ∷ [] })

-- A call that does not reach the store takes a step too.
abbrev pub pass : Action ℕ
pass w = (ok w.step, record w { step = suc w.step })

-- What a call of the store returns, and the tables after it.
abbrev pub settle : {A : Type 0} → Fate → Db → Result A × Db → Result A × Db
settle done before (r, after) = (r, after)
settle (refused e) before (r, after) = (err (fault e), before)
settle (lost e) before (r, after) = (err (fault e), after)

-- A call of the store; the operation is given the number of the step.
unfoldable pub call : {A : Type 0} → Env → (ℕ → Db → Result A × Db) → Action A
call env op w =
    let before = env.others w.step w.db in
    let (r, db) = settle (env.fate w.step) before (op w.step before) in
    (r, record w { db = db; step = suc w.step })

-- A statement that only reads.
abbrev pub reading : {A : Type 0} → (Db → Result A) → ℕ → Db → Result A × Db
reading op n db = (op db, db)
