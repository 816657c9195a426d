-- ===== src/Migrate.antt =====
-- cmd/migrate/main.go: the command that creates the two tables. gorm with its PostgreSQL driver is
-- the parameter `Migrator`.
pub mod Tables
mod Tests
use golang_learning.Prelude.{ℕ, GoString, Bool, Option, none, some}
use golang_learning.Domain.{Error, Result, ok, err}
use golang_learning.Config.{load}

-- The models that are migrated, and the table that a model's foreign key refers to.
pub data Model : Type 0 where
  session_model message_model : Model

unfoldable pub references : Model → Option Model
references session_model = none
references message_model = some session_model

pub record Migrator : Type 1 where
  pub World : Type 0
  pub open_db : GoString → World → World × Result (Unit {0})
  pub auto_migrate : Model → World → World × Result (Unit {0})

-- What the command logs at its end.
pub data Outcome : Type 0 where
  completed : Outcome
  connect_failed : Error → Outcome
  migration_failed : Error → Outcome

unfoldable pub exit_code : Outcome → ℕ
exit_code completed = 0
exit_code (connect_failed e) = 1
exit_code (migration_failed e) = 1

module _ (m : Migrator) where
  open m use {World, open_db, auto_migrate}

  -- A migration, and what follows it.
  abbrev migrated : World × Result (Unit {0}) → (World → World × Outcome) → World × Outcome
  migrated (w, ok _) rest = rest w
  migrated (w, err e) rest = (w, migration_failed e)

  abbrev connected : World × Result (Unit {0}) → (World → World × Outcome) → World × Outcome
  connected (w, ok _) rest = rest w
  connected (w, err e) rest = (w, connect_failed e)

  unfoldable pub main : (GoString → GoString) → World → World × Outcome
  main env w = connected (open_db (load env).database_url w) (λ w₁.
      migrated (auto_migrate session_model w₁)
        (λ w₂. migrated (auto_migrate message_model w₂) (λ w₃. (w₃, completed))))
