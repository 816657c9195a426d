-- ===== src/Migrate/Tables.antt =====
-- The tables after the migration, and its order.
use golang_learning.Prelude.{GoString, Bool, true, false, some, ◌≡◌, refl, subst, ap, arith}
use golang_learning.Domain.{Error, Result, ok, err}
use golang_learning.Config.{load}
use golang_learning.Migrate.{
  Model, session_model, message_model, references, Migrator, Outcome, completed, connect_failed,
  migration_failed, connected, migrated, exit_code, main,
}

-- Documented behaviour of AutoMigrate over PostgreSQL: it creates the table of the model and drops
-- none, and it fails for a missing table only if that of the foreign key is missing.
pub record MigratorLaws (m : Migrator) : Type 0 where
  pub has_table : Model → m.World → Bool
  pub is_missing_table : Error → Bool
  pub creates :
      (model : Model) (w w' : m.World)
      → m.auto_migrate model w ≡ (w', ok tt)
      → has_table model w' ≡ true
  pub keeps :
      (model other : Model) (w : m.World)
      → has_table other w ≡ true
      → has_table other (m.auto_migrate model w).0 ≡ true
  pub refuses :
      (model : Model) (w w' : m.World) (e : Error)
      → m.auto_migrate model w ≡ (w', err e)
      → ((other : Model) → references model ≡ some other → has_table other w ≡ true)
      → is_missing_table e ≡ false

module _ {m : Migrator} (laws : MigratorLaws m) where
  open laws use {has_table, is_missing_table}

  -- What an outcome says of the tables.
  abbrev pub Leaves : m.World → Outcome → Type 0
  Leaves w completed = (model : Model) → has_table model w ≡ true
  Leaves w (migration_failed e) = is_missing_table e ≡ false
  Leaves w (connect_failed e) = Unit

  abbrev After : m.World × Outcome → Type 0
  After p = Leaves p.0 p.1

  connected-After :
      (p : m.World × Result (Unit {0})) (rest : m.World → m.World × Outcome)
      → ((w : m.World) → After (rest w))
      → After (connected m p rest)
  connected-After (w, ok _) rest h = h w
  connected-After (w, err e) rest h = tt

  migrated-After :
      (p : m.World × Result (Unit {0})) (rest : m.World → m.World × Outcome)
      → ((w : m.World) (e : Error) → p ≡ (w, err e) → is_missing_table e ≡ false)
      → ((w : m.World) → p ≡ (w, ok tt) → After (rest w))
      → After (migrated m p rest)
  migrated-After (w, ok _) rest fails h = h w refl
  migrated-After (w, err e) rest fails h = fails w e refl

  run-Leaves :
      (env : GoString → GoString) (w w' : m.World) (outcome : Outcome)
      → main m env w ≡ (w', outcome)
      → Leaves w' outcome
  unfolding main references
  run-Leaves env w w' outcome run = subst After run (
      connected-After (m.open_db (load env).database_url w) _ (λ w₁.
        migrated-After (m.auto_migrate session_model w₁) _
          (λ w₂ e failed.
            laws.refuses session_model w₁ w₂ e failed (λ other wrong. absurd (ground arith)))
          (λ w₂ sessions.
            migrated-After (m.auto_migrate message_model w₂) _
              (λ w₃ e failed. laws.refuses message_model w₂ w₃ e failed (λ other refers.
                subst (λ t. has_table t w₂ ≡ true) (ground (arith, refers))
                  (laws.creates session_model w₁ w₂ sessions)))
              (λ w₃ messages.
                both w₃
                  (subst (λ (v : m.World). has_table session_model v ≡ true)
                    (ap (λ (p : m.World × Result (Unit {0})). p.0) messages)
                    (laws.keeps message_model session_model w₂
                      (laws.creates session_model w₁ w₂ sessions)))
                  (laws.creates message_model w₂ w₃ messages)))))
    where
      both :
          (v : m.World)
          → has_table session_model v ≡ true
          → has_table message_model v ≡ true
          → (model : Model) → has_table model v ≡ true
      both v sessions messages session_model = sessions
      both v sessions messages message_model = messages

  after_success :
      (w : m.World) (outcome : Outcome)
      → Leaves w outcome
      → exit_code outcome ≡ 0
      → (model : Model) → has_table model w ≡ true
  unfolding exit_code
  after_success w completed tables e model = tables model
  after_success w (connect_failed x) tables e model = absurd (ground arith)
  after_success w (migration_failed x) tables e model = absurd (ground arith)

  -- If the migration command exits with 0, both tables are there; and if a migration fails, it is
  -- never because the table that a foreign key refers to is missing, whatever tables there were
  -- before.
  pub main-Leaves :
      (env : GoString → GoString) (w w' : m.World) (outcome : Outcome)
      → main m env w ≡ (w', outcome)
      → Leaves w' outcome × (exit_code outcome ≡ 0 → (model : Model) → has_table model w' ≡ true)
  main-Leaves env w w' outcome run =
      let tables = run-Leaves env w w' outcome run in (tables, after_success w' outcome tables)
