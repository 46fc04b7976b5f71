-- ===== src/Store/Migrations.antt =====
-- `Migrate` of internal/store/postgres.go, under its advisory lock: one run at a time. What the
-- transaction of a migration does to the schema, or the error it ends in, is the database's, an
-- argument; so are the errors of the statements that only read or lock.
use ai_coworker.Prelude.{
  ℕ, ◌≡◌, ◌≢◌, refl, sym, ap, subst, ◌∙◌, Bool, true, false, List, [], ◌∷◌, ◌++◌, any, All, Text,
  text, show_nat, ◌==◌, arith, Bool-cases, inl, inr, if◌then◌else◌,
}
use ai_coworker.Store.Errors.{Error, wrap, Result, ok, err, Result-cases}

-- `migration`.
pub record Migration : Type 0 where
  pub version : ℕ
  pub sql : Text

module _ {S : Type 0} (run : Migration → S → Result S) where
  -- The schema, and the versions in `schema_migrations`.
  abbrev pub Schema : Type 0
  Schema = S × List ℕ

  abbrev pub has_version : ℕ → List ℕ → Bool
  has_version v applied = any (λ u. u == v) applied

  abbrev pub Migrated : Type 0
  Migrated = Result (Unit {0}) × Schema

  -- The outcome of the transaction of a migration, and the migrations after it: a failed one is
  -- rolled back and ends the run.
  abbrev pub committed : Migration → Schema → (Schema → Migrated) → Result S → Migrated
  committed m d next (err e) = (err e, d)
  committed m d next (ok s) = next (s, d.1 ++ m.version ∷ [])

  -- `asked` is whether the question for the row of a migration is answered.
  abbrev pub Asked : Type 0
  Asked = Migration → Result (Unit {0})

  abbrev pub answered : Migration → Schema → Result (Unit {0}) → Migrated → Migrated
  answered m d (ok _) next = next
  answered m d (err e) next = (err (wrap (text "checking migration " ++ show_nat m.version) e), d)

  -- The loop over the migrations.
  unfoldable pub migrate_each : Asked → List Migration → Schema → Migrated
  unfolding any
  migrate_each asked [] d = (ok tt, d)
  migrate_each asked (m ∷ ms) d =
      let skipped = migrate_each asked ms d in
      let done = committed m d (migrate_each asked ms) (run m d.0) in
      answered m d (asked m) (if has_version m.version d.1 then skipped else done)

  -- What goes before the loop: the table of the versions, a connection and the lock.
  abbrev pub locked : Result (Unit {0}) → Schema → Migrated → Migrated
  locked (ok _) d next = next
  locked (err e) d next = (err (wrap (text "acquiring migration advisory lock") e), d)

  abbrev pub acquired : Result (Unit {0}) → Schema → Migrated → Migrated
  acquired (ok _) d next = next
  acquired (err e) d next = (err (wrap (text "acquiring connection for migration lock") e), d)

  abbrev pub ensured : Result (Unit {0}) → Schema → Migrated → Migrated
  ensured (ok _) d next = next
  ensured (err e) d next = (err (wrap (text "creating schema_migrations table") e), d)

  -- What the database answers to the statements of a run other than the transactions.
  pub record Database : Type 0 where
    pub table : Result (Unit {0})
    pub connection : Result (Unit {0})
    pub lock : Result (Unit {0})
    pub asked : Asked

  unfoldable pub migrate : Database → List Migration → Schema → Migrated
  unfolding migrate_each
  migrate a ms d =
      ensured a.table d (acquired a.connection d (locked a.lock d (migrate_each a.asked ms d)))

  abbrev pub IsApplied : List ℕ → Migration → Type 0
  IsApplied applied m = has_version m.version applied ≡ true

  any-append :
      (v u : ℕ) (applied : List ℕ)
      → has_version v applied ≡ true
      → has_version v (applied ++ u ∷ []) ≡ true
  unfolding any
  any-append v u [] h = absurd (cc h)
  any-append v u (x ∷ applied) h = ground (arith, any-append v u applied)

  any-last : (v : ℕ) (applied : List ℕ) → has_version v (applied ++ v ∷ []) ≡ true
  unfolding any
  any-last v [] = ground arith
  any-last v (x ∷ applied) = ground (arith, any-last v applied)

  -- What is applied stays so.
  committed-keeps :
      (asked : Asked) (m : Migration) (ms : List Migration) (v : ℕ) (d : Schema) (r : Result S)
      → has_version v d.1 ≡ true
      → ((d' : Schema)
          → has_version v d'.1 ≡ true
          → has_version v ((migrate_each asked ms d').1).1 ≡ true)
      → has_version v ((committed m d (migrate_each asked ms) r).1).1 ≡ true
  committed-keeps asked m ms v d (err e) h later = h
  committed-keeps asked m ms v d (ok s) h later =
      later (s, d.1 ++ m.version ∷ []) (any-append v m.version d.1 h)

  migrate_each-keeps :
      (asked : Asked) (ms : List Migration) (v : ℕ) (d : Schema)
      → has_version v d.1 ≡ true
      → has_version v ((migrate_each asked ms d).1).1 ≡ true
  unfolding migrate_each
  migrate_each-keeps asked [] v d h = h
  migrate_each-keeps asked (m ∷ ms) v d h = elim (Result-cases (asked m)) [
    | inr (e, refused) ↦ rw refused h
    | inl (u, asks) ↦ elim (Bool-cases (has_version m.version d.1)) [
      | inl met ↦ rw (asks, met) (migrate_each-keeps asked ms v d h)
      | inr fresh ↦
          rw (asks, fresh)
            (committed-keeps asked m ms v d (run m d.0) h
              (λ d' h'. migrate_each-keeps asked ms v d' h'))
    ]
  ]

  -- A run of the loop that succeeds, from one schema to another, and has applied every migration.
  abbrev Applies : Asked → List Migration → Schema → Type 0
  Applies asked ms d =
      (migrate_each asked ms d).0 ≡ ok tt → All (IsApplied ((migrate_each asked ms d).1).1) ms

  committed-Applies :
      (asked : Asked) (m : Migration) (ms : List Migration) (d : Schema) (r : Result S)
      → ((d' : Schema) → Applies asked ms d')
      → (committed m d (migrate_each asked ms) r).0 ≡ ok tt
      → All (IsApplied ((committed m d (migrate_each asked ms) r).1).1) (m ∷ ms)
  committed-Applies asked m ms d (err x) later h = absurd (cc h)
  committed-Applies asked m ms d (ok s) later h = (
    migrate_each-keeps asked ms m.version (s, d.1 ++ m.version ∷ []) (any-last m.version d.1),
    later (s, d.1 ++ m.version ∷ []) h,
  )

  migrate_each-met :
      (asked : Asked) (m : Migration) (ms : List Migration) (d : Schema)
      → asked m ≡ ok tt
      → has_version m.version d.1 ≡ true
      → migrate_each asked (m ∷ ms) d ≡ migrate_each asked ms d
  unfolding migrate_each
  migrate_each-met asked m ms d asks met = rw (asks, met) refl

  migrate_each-fresh :
      (asked : Asked) (m : Migration) (ms : List Migration) (d : Schema)
      → asked m ≡ ok tt
      → has_version m.version d.1 ≡ false
      → migrate_each asked (m ∷ ms) d ≡ committed m d (migrate_each asked ms) (run m d.0)
  unfolding migrate_each
  migrate_each-fresh asked m ms d asks fresh = rw (asks, fresh) refl

  migrate_each-refused :
      (asked : Asked) (m : Migration) (ms : List Migration) (d : Schema) (e : Error)
      → asked m ≡ err e
      → (migrate_each asked (m ∷ ms) d).0 ≢ ok tt
  unfolding migrate_each
  migrate_each-refused asked m ms d e refused = rw refused (λ h. cc)

  -- Applied, for an outcome that is known by an equation.
  abbrev AppliesTo : List Migration → Migrated → Type 0
  AppliesTo ms p = p.0 ≡ ok tt → All (IsApplied (p.1).1) ms

  migrate_each-Applies : (asked : Asked) (ms : List Migration) (d : Schema) → Applies asked ms d
  migrate_each-Applies asked [] d = λ e. tt
  migrate_each-Applies asked (m ∷ ms) d = elim (Result-cases (asked m)) [
    | inr (e, refused) ↦ λ h. absurd (migrate_each-refused asked m ms d e refused h)
    | inl (u, asks) ↦ elim (Bool-cases (has_version m.version d.1)) [
      | inl met ↦
          subst (AppliesTo (m ∷ ms)) (sym (migrate_each-met asked m ms d asks met))
            (λ h. (migrate_each-keeps asked ms m.version d met, migrate_each-Applies asked ms d h))
      | inr fresh ↦ subst (AppliesTo (m ∷ ms)) (sym (migrate_each-fresh asked m ms d asks fresh)) (
          committed-Applies asked m ms d (run m d.0) (λ d' h'. migrate_each-Applies asked ms d' h'))
    ]
  ]

  -- Where every migration is applied nothing is, and the loop succeeds if it is answered.
  migrate_each-rest :
      (asked : Asked) (ms : List Migration) (d : Schema)
      → All (IsApplied d.1) ms
      → ((migrate_each asked ms d).1 ≡ d)
        × (((m : Migration) → asked m ≡ ok tt) → migrate_each asked ms d ≡ (ok tt, d))
  unfolding migrate_each
  migrate_each-rest asked [] d h = (refl, (λ _. refl))
  migrate_each-rest asked (m ∷ ms) d (met, h) =
      let (same, succeeds) = migrate_each-rest asked ms d h in
      elim (Result-cases (asked m)) [
        | inr (e, refused) ↦ (rw refused refl, (λ all. absurd (failed-ok e (sym refused ∙ all m))))
        | inl (u, asks) ↦ (rw (asks, met) same, (λ all. rw (asks, met) (succeeds all)))
      ]
    where
      failed-ok : (e : Error) → ◌≡◌ {A = Result (Unit {0})} (err e) (ok tt) → ⊥
      failed-ok e h = cc

  migrate-run :
      (a : Database) (ms : List Migration) (d : Schema)
      → (migrate a ms d).0 ≡ ok tt
      → migrate a ms d ≡ migrate_each a.asked ms d
  unfolding migrate
  migrate-run a ms d = elim (Result-cases a.table) [
    | inr (e, refused) ↦ rw refused (λ h. absurd (cc h))
    | inl (u, table) ↦ elim (Result-cases a.connection) [
      | inr (e, refused) ↦ rw (table, refused) (λ h. absurd (cc h))
      | inl (v, connection) ↦ elim (Result-cases a.lock) [
        | inr (e, refused) ↦ rw (table, connection, refused) (λ h. absurd (cc h))
        | inl (x, lock) ↦ rw (table, connection, lock) (λ h. refl)
      ]
    ]
  ]

  migrate-rest :
      (a : Database) (ms : List Migration) (d : Schema)
      → All (IsApplied d.1) ms
      → ((migrate a ms d).1 ≡ d)
        × (a.table ≡ ok tt
            → a.connection ≡ ok tt
            → a.lock ≡ ok tt
            → ((m : Migration) → a.asked m ≡ ok tt)
            → migrate a ms d ≡ (ok tt, d))
  unfolding migrate
  migrate-rest a ms d h =
      let (same, succeeds) = migrate_each-rest a.asked ms d h in
      (
        elim (Result-cases a.table) [
          | inr (e, refused) ↦ rw refused refl
          | inl (u, table) ↦ elim (Result-cases a.connection) [
            | inr (e, refused) ↦ rw (table, refused) refl
            | inl (v, connection) ↦ elim (Result-cases a.lock) [
              | inr (e, refused) ↦ rw (table, connection, refused) refl
              | inl (x, lock) ↦ rw (table, connection, lock) same
            ]
          ]
        ],
        λ table connection lock all. rw (table, connection, lock) (succeeds all),
      )

  -- After a run of the migrations that succeeds, every migration is recorded, and a second run whose
  -- statements the database answers succeeds and changes nothing: no migration is applied twice.
  pub migrate-again :
      (a b : Database) (ms : List Migration) (d : Schema)
      → (migrate a ms d).0 ≡ ok tt
      → b.table ≡ ok tt
      → b.connection ≡ ok tt
      → b.lock ≡ ok tt
      → ((m : Migration) → b.asked m ≡ ok tt)
      → All (IsApplied ((migrate a ms d).1).1) ms
        × (migrate b ms (migrate a ms d).1 ≡ (ok tt, (migrate a ms d).1))
  migrate-again a b ms d e table connection lock all =
      let ran = migrate-run a ms d e in
      let applied : All (IsApplied ((migrate a ms d).1).1) ms =
        subst (λ (p : Migrated). All (IsApplied (p.1).1) ms) (sym ran)
          (migrate_each-Applies a.asked ms d (ap (λ (p : Migrated). p.0) (sym ran) ∙ e)) in
      (applied, (migrate-rest b ms (migrate a ms d).1 applied).1 table connection lock all)
