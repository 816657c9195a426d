-- ===== src/Persist.antt =====
-- internal/usecase/persist_session.go: the buffer of tokens for each request, and the flush that
-- merges it with what the store holds. The mutex makes each of `add_token`, `should_flush` and
-- `take_snapshot` one step; `flush` is its locked part followed by the read and the write, and
-- Persist/Race interleaves these.
pub mod Buffers
pub mod Flush
pub mod Race
pub mod Batches
pub mod Stored
mod Tests
use golang_learning.Prelude.{
  ℕ, ◌+◌, GoString, GoMap, MapOrder, lookup, insert, keys, map, List, [], ◌∷◌, ◌++◌, Option, none,
  some, Bool, leb,
}
use golang_learning.Domain.{Message, TokenEvent, role_user, role_assistant, Result, ok, err}
use golang_learning.Store.Interface.{IMessageStore}

pub record TokenBuffer : Type 0 where
  pub session_id : GoString
  pub user_message : GoString
  pub content : GoString

-- The use case's own fields; the store is a parameter. `count` stays far below 2^63.
pub record PersistSession : Type 0 where
  pub buffers : GoMap TokenBuffer
  pub count : ℕ

unfoldable pub new_persist_session : PersistSession
new_persist_session = record { buffers = []; count = 0 }

-- The buffer of the request, new if there is none, with the token's text at its end.
unfoldable pub extend_buffer : Option TokenBuffer → TokenEvent → TokenBuffer
extend_buffer none token = record {
  session_id = token.session_id;
  user_message = token.user_message;
  content = [] ++ token.delta;
}
extend_buffer (some buf) token = record buf { content = buf.content ++ token.delta }

unfoldable pub add_token : PersistSession → TokenEvent → PersistSession
unfolding extend_buffer
add_token uc token = record {
  buffers =
      insert token.request_id (extend_buffer (lookup token.request_id uc.buffers) token) uc.buffers;
  count = uc.count + 1;
}

unfoldable pub should_flush : PersistSession → ℕ → Bool
should_flush uc threshold = leb threshold uc.count

-- The part of Flush under the lock: nothing to do, or the buffers, which the use case then lacks.
unfoldable pub take_snapshot : PersistSession → Option (GoMap TokenBuffer) × PersistSession
take_snapshot uc = elim uc.buffers [
  | [] ↦ (none, uc)
  | e ∷ rest ↦ (some (e ∷ rest), record { buffers = []; count = 0 })
]

-- `existing[requestID]`: the empty string if the key is missing
abbrev pub or_empty : Option GoString → GoString
or_empty none = []
or_empty (some s) = s

-- The two messages of each request in the snapshot.
unfoldable pub merge : GoMap GoString → GoMap TokenBuffer → List Message
merge existing [] = []
merge existing ((request_id, buf) ∷ snapshot) =
    record {
      session_id = buf.session_id;
      request_id = request_id;
      role = role_user;
      content = buf.user_message;
    }
    ∷ record {
      session_id = buf.session_id;
      request_id = request_id;
      role = role_assistant;
      content = or_empty (lookup request_id existing) ++ buf.content;
    }
    ∷ merge existing snapshot

-- The orders are those of the two loops over the snapshot.
module _ (store : IMessageStore) (first second : MapOrder TokenBuffer) where
  unfoldable pub read_existing : GoMap TokenBuffer → store.Db → Result (GoMap GoString)
  read_existing snapshot db = store.get_content_by_request_ids (keys (first.order snapshot)) db

  unfoldable pub write_merged :
      GoMap TokenBuffer → Result (GoMap GoString) → store.Db → store.Db × Result (Unit {0})
  unfolding merge
  write_merged snapshot (err e) db = (db, err e)
  write_merged snapshot (ok existing) db =
      store.bulk_upsert_messages (merge existing (second.order snapshot)) db

  abbrev flush_snapshot : Option (GoMap TokenBuffer) → store.Db → store.Db × Result (Unit {0})
  flush_snapshot none db = (db, ok tt)
  flush_snapshot (some snapshot) db = write_merged snapshot (read_existing snapshot db) db

  unfoldable pub flush : PersistSession → store.Db → PersistSession × store.Db × Result (Unit {0})
  unfolding take_snapshot read_existing write_merged
  flush uc db =
      let (snapshot, uc') = take_snapshot uc in
      let (db', result) = flush_snapshot snapshot db in (uc', db', result)
