-- ===== src/Store/Interface.antt =====
-- internal/usecase/boundary.go, IMessageStore: the store's operations, and what the use cases rely
-- on, stated by the content of the message that the unique index (request_id, role) finds.
use golang_learning.Prelude.{
  GoString, GoMap, List, map, Option, some, ◌≡◌, ◌≢◌, All, AllDistinct, In, lookup,
}
use golang_learning.Domain.{Message, Error, Result, ok, err, role_assistant}

pub record IMessageStore : Type 1 where
  pub Db : Type 0
  pub save_message : Message → Db → Db × Result (Unit {0})
  pub bulk_save_messages : List Message → Db → Db × Result (Unit {0})
  pub bulk_upsert_messages : List Message → Db → Db × Result (Unit {0})
  pub get_history : GoString → Db → Result (List Message)
  pub get_content_by_request_ids : List GoString → Db → Result (GoMap GoString)

-- What the unique index of a message is made of.
abbrev pub index_key : Message → GoString × GoString
index_key m = (m.request_id, m.role)

pub record MessageStoreLaws (s : IMessageStore) : Type 1 where
  pub content : s.Db → GoString → GoString → Option GoString
  pub upsert_writes :
      (msgs : List Message) (db db' : s.Db)
      → AllDistinct (map index_key msgs)
      → s.bulk_upsert_messages msgs db ≡ (db', ok tt)
      → All (λ m. content db' m.request_id m.role ≡ some m.content) msgs
  pub upsert_keeps :
      (msgs : List Message) (db db' : s.Db) (request_id role : GoString)
      → s.bulk_upsert_messages msgs db ≡ (db', ok tt)
      → All (λ m. index_key m ≢ (request_id, role)) msgs
      → content db' request_id role ≡ content db request_id role
  pub upsert_fails :
      (msgs : List Message) (db db' : s.Db) (e : Error)
      → s.bulk_upsert_messages msgs db ≡ (db', err e)
      → content db' ≡ content db
  pub get_content_lem :
      (ids : List GoString) (db : s.Db) (found : GoMap GoString)
      → s.get_content_by_request_ids ids db ≡ ok found
      → (id : GoString) → In id ids
      → lookup id found ≡ content db id role_assistant
