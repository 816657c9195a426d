-- ===== src/Store.antt =====
-- internal/adapter/gateway/store: message_model.go, session_model.go and message_store.go.
-- PostgreSQL behind gorm is the parameter `Database`: one field for each statement that the store
-- issues. `IMessageStore` (internal/usecase/boundary.go) is what the use cases see of the store.
pub mod Interface
pub mod Content
pub mod Memory
pub mod ForeignKey
mod Tests
use golang_learning.Prelude.{
  ℕ, GoString, GoMap, MapOrder, insert, keys, map, List, [], ◌∷◌, is_empty, bytes, lookup,
}
use golang_learning.Domain.{Message, role_assistant, Result, ok, err}
use Interface.{IMessageStore}

pub record SessionModel : Type 0 where
  pub session_id : GoString

pub record MessageModel : Type 0 where
  pub id : ℕ
  pub session_id : GoString
  pub request_id : GoString
  pub role : GoString
  pub content : GoString
  pub session : SessionModel

unfoldable pub to_entity : MessageModel → Message
to_entity m = record {
  session_id = m.session_id;
  request_id = m.request_id;
  role = m.role;
  content = m.content;
}

unfoldable pub message_from_entity : Message → MessageModel
message_from_entity msg = record {
  id = 0;
  session_id = msg.session_id;
  request_id = msg.request_id;
  role = msg.role;
  content = msg.content;
  session = record { session_id = [] };
}

-- `create_sessions` is ON CONFLICT DO NOTHING; `upsert_messages` is ON CONFLICT (request_id, role)
-- DO UPDATE SET content; `find_by_requests ids role` is WHERE request_id IN ids AND role = role.
pub record Database : Type 1 where
  pub Db : Type 0
  pub create_sessions : List SessionModel → Db → Db × Result (Unit {0})
  pub create_messages : List MessageModel → Db → Db × Result (Unit {0})
  pub upsert_messages : List MessageModel → Db → Db × Result (Unit {0})
  pub find_by_requests : List GoString → GoString → Db → Result (List MessageModel)
  pub find_by_session : GoString → Db → Result (List MessageModel)

-- `seen[m.SessionID] = struct{}{}` for each message
unfoldable pub seen_sessions : List Message → GoMap (Unit {0}) → GoMap (Unit {0})
seen_sessions [] seen = seen
seen_sessions (m ∷ msgs) seen = seen_sessions msgs (insert m.session_id tt seen)

-- `result[r.RequestID] = r.Content` for each row
unfoldable pub collect_contents : List MessageModel → GoMap GoString → GoMap GoString
collect_contents [] result = result
collect_contents (r ∷ rows) result = collect_contents rows (insert r.request_id r.content result)

-- The second statement, if the first has gone through.
abbrev pub and_then :
    {D : Type 0} → D × Result (Unit {0}) → (D → D × Result (Unit {0})) → D × Result (Unit {0})
and_then (db, ok _) f = f db
and_then (db, err e) f = (db, err e)

module _ (d : Database) (ranging : MapOrder (Unit {0})) where
  open d use {
    Db, create_sessions, create_messages, upsert_messages, find_by_requests, find_by_session,
  }

  abbrev session_rows : List Message → List SessionModel
  session_rows msgs =
      map (λ id. record { session_id = id }) (keys (ranging.order (seen_sessions msgs [])))

  unfoldable pub save_message : Message → Db → Db × Result (Unit {0})
  unfolding message_from_entity
  save_message msg db =
      and_then (create_sessions (record { session_id = msg.session_id } ∷ []) db)
        (create_messages (message_from_entity msg ∷ []))

  unfoldable pub bulk_save_messages : List Message → Db → Db × Result (Unit {0})
  unfolding message_from_entity seen_sessions
  bulk_save_messages [] db = (db, ok tt)
  bulk_save_messages (m ∷ ms) db =
      and_then (create_sessions (session_rows (m ∷ ms)) db)
        (create_messages (map message_from_entity (m ∷ ms)))

  unfoldable pub bulk_upsert_messages : List Message → Db → Db × Result (Unit {0})
  unfolding message_from_entity seen_sessions
  bulk_upsert_messages [] db = (db, ok tt)
  bulk_upsert_messages (m ∷ ms) db =
      and_then (create_sessions (session_rows (m ∷ ms)) db)
        (upsert_messages (map message_from_entity (m ∷ ms)))

  abbrev contents_of : Result (List MessageModel) → Result (GoMap GoString)
  contents_of (ok rows) = ok (collect_contents rows [])
  contents_of (err e) = err e

  unfoldable pub get_content_by_request_ids : List GoString → Db → Result (GoMap GoString)
  unfolding collect_contents
  get_content_by_request_ids [] db = ok []
  get_content_by_request_ids (id ∷ ids) db =
      contents_of (find_by_requests (id ∷ ids) role_assistant db)

  abbrev entities_of : Result (List MessageModel) → Result (List Message)
  entities_of (ok rows) = ok (map to_entity rows)
  entities_of (err e) = err e

  unfoldable pub get_history : GoString → Db → Result (List Message)
  unfolding to_entity
  get_history session_id db = entities_of (find_by_session session_id db)

  -- MessageStoreImpl as the use cases see it.
  abbrev pub message_store : IMessageStore
  message_store = record {
    Db = Db;
    save_message = save_message;
    bulk_save_messages = bulk_save_messages;
    bulk_upsert_messages = bulk_upsert_messages;
    get_history = get_history;
    get_content_by_request_ids = get_content_by_request_ids;
  }
