-- ===== src/Persist/Stored.antt =====
-- The persistence path down to the database: the use case over MessageStoreImpl.
use golang_learning.Prelude.{GoString, MapOrder, List, [], ◌++◌, concat, some, ◌≡◌}
use golang_learning.Domain.{TokenEvent, role_assistant}
use golang_learning.Store.{Database, message_store}
use golang_learning.Store.Content.{DatabaseLaws, message_store_laws}
use golang_learning.Persist.{TokenBuffer, PersistSession, or_empty}
use golang_learning.Persist.Batches.{run_batches, text_for, answer-run_batches}

module _ {d : Database} (laws : DatabaseLaws d) (ranging : MapOrder (Unit {0}))
    (first second : MapOrder TokenBuffer) where
  -- However a stream of tokens is cut into batches, if every flush into PostgreSQL succeeds, the
  -- assistant's row of every request holds what it held, followed by the texts of all the tokens of
  -- that request in their order; the thresholds, the timer and Go's map orders have no effect.
  pub content-run_batches :
      (batches : List (List TokenEvent)) (uc uc' : PersistSession) (db db' : d.Db)
      → uc.buffers ≡ []
      → run_batches (message_store d ranging) first second batches uc db ≡ some (uc', db')
      → (id : GoString)
      → or_empty (laws.content db' id role_assistant)
        ≡ or_empty (laws.content db id role_assistant) ++ text_for id (concat batches)
  unfolding message_store_laws
  content-run_batches = answer-run_batches (message_store_laws laws ranging) first second
