-- ===== src/Migrate/Tests.antt =====
-- The migration of an empty database.
use golang_learning.Prelude.{[], Bool, true, false, if◌then◌else◌, some, ◌≡◌, refl, arith}
use golang_learning.Domain.{Error, failure, redis_nil, wrapped, Result, ok, err}
use golang_learning.Migrate.{
  Model, session_model, message_model, references, Migrator, exit_code, completed, main,
}
use golang_learning.Migrate.Tables.{MigratorLaws, Leaves, main-Leaves}

-- Which tables there are.
record Tables : Type 0 where
  sessions : Bool
  messages : Bool

abbrev migrate : Model → Tables → Tables × Result (Unit {0})
migrate session_model t = (record t { sessions = true }, ok tt)
migrate message_model t =
    if t.sessions then (record t { messages = true }, ok tt) else (t, err (failure []))

abbrev migrator : Migrator
migrator = record { World = Tables; open_db = λ url t. (t, ok tt); auto_migrate = migrate }

abbrev table : Model → Tables → Bool
table session_model t = t.sessions
table message_model t = t.messages

abbrev is_failure : Error → Bool
is_failure (failure s) = true
is_failure redis_nil = false
is_failure (wrapped s e) = false

creates : (model : Model) (t t' : Tables) → migrate model t ≡ (t', ok tt) → table model t' ≡ true
creates session_model t t' e = ground arith
creates message_model t t' e = ground arith

keeps :
    (model other : Model) (t : Tables)
    → table other t ≡ true
    → table other (migrate model t).0 ≡ true
keeps session_model session_model t e = refl
keeps session_model message_model t e = e
keeps message_model session_model t e = ground arith
keeps message_model message_model t e = ground arith

refuses :
    (model : Model) (t t' : Tables) (x : Error)
    → migrate model t ≡ (t', err x)
    → ((other : Model) → references model ≡ some other → table other t ≡ true)
    → is_failure x ≡ false
unfolding references
refuses session_model t t' x e h = absurd (ground arith)
refuses message_model t t' x e h = let there = h session_model refl in absurd (ground arith)

abbrev laws : MigratorLaws migrator
laws = record {
  has_table = table;
  is_missing_table = is_failure;
  creates = creates;
  keeps = keeps;
  refuses = refuses;
}

abbrev empty : Tables
empty = record { sessions = false; messages = false }

abbrev both : Tables
both = record { sessions = true; messages = true }

main-Leaves_example :
    Leaves laws both completed
    × (exit_code completed ≡ 0 → (model : Model) → table model both ≡ true)
unfolding main
main-Leaves_example = main-Leaves laws (λ name. []) empty both completed refl
