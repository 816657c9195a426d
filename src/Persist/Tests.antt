-- ===== src/Persist/Tests.antt =====
-- Runs of the use case over a store in memory, and its theorems at these inputs.
use golang_learning.Prelude.{
  GoString, bytes, ◌==◌, as_inserted, swapped, lookup, insert, MapOrder, [], ◌∷◌, none, some, ◌≡◌,
  refl, true, false,
}
use golang_learning.Domain.{TokenEvent, role_user, role_assistant, ok}
use golang_learning.Store.Interface.{IMessageStore, MessageStoreLaws}
use golang_learning.Store.Content.{message_store_laws}
use golang_learning.Store
use golang_learning.Store.{message_store}
use golang_learning.Store.Memory.{memory, memory_laws, Table, put_all, rows_at, disk_full}
use golang_learning.Persist.{
  TokenBuffer, PersistSession, new_persist_session, add_token, flush, merge,
}
use golang_learning.Persist.Buffers.{add_tokens, tokens_for}
use golang_learning.Persist.Flush.{Flushed, flush-Flushed, flush-loses_on_error}
use golang_learning.Persist.Batches.{run_batches}

abbrev foo : TokenEvent
foo = record {
  request_id = 1 ∷ [];
  session_id = 8 ∷ [];
  user_message = 9 ∷ [];
  delta = bytes "foo";
  done = false;
}

abbrev bar : TokenEvent
bar = record foo { delta = bytes "bar" }

abbrev other : TokenEvent
other = record foo { request_id = 2 ∷ []; delta = bytes "zap"; done = true }

abbrev store : IMessageStore
store = message_store memory (as_inserted (Unit {0}))

abbrev laws : MessageStoreLaws store
laws = message_store_laws memory_laws (as_inserted (Unit {0}))

abbrev fresh : Table
fresh = record { broken = false; at_key = λ i k. none }

abbrev orders : MapOrder TokenBuffer
orders = swapped TokenBuffer

-- A run of it needs to see through the code, the database in memory and the maps.
loaded : PersistSession
unfolding add_tokens add_token new_persist_session flush run_batches merge put_all rows_at lookup
    insert tokens_for ◌==◌ role_user role_assistant bytes Store.get_content_by_request_ids
    Store.bulk_upsert_messages
loaded = add_tokens new_persist_session (foo ∷ other ∷ bar ∷ [])

-- TestFlush_MergesTokensAndPersists, with the tokens of another request between.
merges_tokens :
    (flush store orders orders loaded fresh).1.at_key (1 ∷ []) role_assistant
    ≡ some (bytes "foobar")
unfolding loaded
merges_tokens = refl

-- TestFlush_ClearsBufferAfterFlush: a second flush finds nothing to do.
second_flush_is_noop :
    let (uc, db, _) = flush store orders orders loaded fresh in
    flush store orders orders uc db ≡ (uc, db, ok tt)
unfolding loaded
second_flush_is_noop = refl

abbrev flushed : PersistSession × Table
flushed = let (uc, db, _) = flush store orders orders loaded fresh in (uc, db)

flush-Flushed_example :
    (flushed.0.buffers ≡ [])
    × ((id : GoString) → Flushed laws orders orders (lookup id loaded.buffers) id fresh flushed.1)
unfolding loaded
flush-Flushed_example =
    flush-Flushed laws orders orders loaded flushed.0 fresh flushed.1 (refl, (refl, tt)) refl

abbrev full : Table
full = record fresh { broken = true }

flush-loses_on_error_example :
    (new_persist_session.buffers ≡ []) × (laws.content full ≡ laws.content full)
unfolding loaded
flush-loses_on_error_example =
    flush-loses_on_error laws orders orders loaded new_persist_session full full disk_full
      (refl, (refl, tt)) refl
