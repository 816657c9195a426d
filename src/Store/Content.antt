-- ===== src/Store/Content.antt =====
-- What the store relies on of PostgreSQL, and that MessageStoreImpl then keeps the laws of its
-- interface.
use golang_learning.Prelude.{
  GoString, GoMap, MapOrder, insert, List, [], ◌∷◌, map, Option, some, ◌≡◌, ◌≢◌, ◌⊎◌, inl, inr,
  refl, sym, ◌∙◌, ap, subst, All, AllDistinct, In, here, there, lookup, lookup-insert, arith,
  eq_iff, eq_refl, Option-cases,
}
use golang_learning.Domain.{Message, Error, Result, Result-cases, ok, err, role_assistant}
use golang_learning.Store.{
  Database, MessageModel, and_then, message_from_entity, collect_contents, session_rows,
  bulk_upsert_messages, get_content_by_request_ids, message_store,
}
use golang_learning.Store.Interface.{MessageStoreLaws, index_key}

abbrev pub row_key : MessageModel → GoString × GoString
row_key r = (r.request_id, r.role)

-- Documented behaviour of PostgreSQL under the unique index (request_id, role): `content` is the
-- content of the row that the index finds.
pub record DatabaseLaws (d : Database) : Type 1 where
  pub content : d.Db → GoString → GoString → Option GoString
  pub sessions_keep : (rows : _) (db : d.Db) → content (d.create_sessions rows db).0 ≡ content db
  pub upsert_writes :
      (rows : List MessageModel) (db db' : d.Db)
      → AllDistinct (map row_key rows)
      → d.upsert_messages rows db ≡ (db', ok tt)
      → All (λ r. content db' r.request_id r.role ≡ some r.content) rows
  pub upsert_keeps :
      (rows : List MessageModel) (db db' : d.Db) (request_id role : GoString)
      → d.upsert_messages rows db ≡ (db', ok tt)
      → All (λ r. row_key r ≢ (request_id, role)) rows
      → content db' request_id role ≡ content db request_id role
  pub upsert_fails :
      (rows : List MessageModel) (db db' : d.Db) (e : Error)
      → d.upsert_messages rows db ≡ (db', err e)
      → content db' ≡ content db
  pub find_sound :
      (ids : List GoString) (role : GoString) (db : d.Db) (rows : List MessageModel)
      → d.find_by_requests ids role db ≡ ok rows
      → All (λ r. content db r.request_id role ≡ some r.content) rows
  pub find_complete :
      (ids : List GoString) (role : GoString) (db : d.Db) (rows : List MessageModel)
      → d.find_by_requests ids role db ≡ ok rows
      → (id c : GoString) → In id ids
      → content db id role ≡ some c
      → In id (map (λ r. r.request_id) rows)

-- If each row carries the content that `f` gives its request, the loop leaves an entry as it was
-- or sets it to that of `f`.
module _ (f : GoString → Option GoString) where
  abbrev Carries : List MessageModel → Type 0
  Carries = All (λ r. f r.request_id ≡ some r.content)

  lookup-collect_contents :
      (id : GoString) (rows : List MessageModel) (m : GoMap GoString)
      → Carries rows
      → (lookup id (collect_contents rows m) ≡ lookup id m)
        ⊎ (lookup id (collect_contents rows m) ≡ f id)
  unfolding collect_contents
  lookup-collect_contents id [] m h = inl refl
  lookup-collect_contents id (r ∷ rows) m h = ground (
    arith,
    lookup-collect_contents id rows (insert r.request_id r.content m) h.1,
    lookup-insert r.request_id id r.content m,
    eq_iff r.request_id id,
    h.0,
  )

  collect_contents-found :
      (id : GoString) (rows : List MessageModel) (m : GoMap GoString)
      → Carries rows
      → In id (map (λ r. r.request_id) rows)
      → lookup id (collect_contents rows m) ≡ f id
  unfolding collect_contents
  collect_contents-found id [] m h i = elim i [ ]
  collect_contents-found id (r ∷ rows) m h here = ground (
    arith,
    lookup-collect_contents id rows (insert id r.content m) h.1,
    lookup-insert id id r.content m,
    eq_refl id,
    h.0,
  )
  collect_contents-found id (r ∷ rows) m h (there i) = collect_contents-found id rows _ h.1 i

module _ {D : Type 0} (f : D → D × Result (Unit {0})) where
  and_then-eq-ok :
      (p : D × Result (Unit {0})) {db' : D} → and_then p f ≡ (db', ok tt) → f p.0 ≡ (db', ok tt)
  and_then-eq-ok (db, ok _) h = h
  and_then-eq-ok (db, err e) h = cc

  and_then-eq-err :
      (p : D × Result (Unit {0})) {db' : D} {e : Error}
      → and_then p f ≡ (db', err e)
      → (p.0 ≡ db') ⊎ (f p.0 ≡ (db', err e))
  and_then-eq-err (db, ok _) h = inr h
  and_then-eq-err (db, err e) h = inl (ground arith)

All-rows :
    (P : GoString → GoString → GoString → Type 0) (msgs : List Message)
    → All (λ r. P r.request_id r.role r.content) (map message_from_entity msgs)
    → All (λ m. P m.request_id m.role m.content) msgs
unfolding message_from_entity
All-rows P [] h = tt
All-rows P (m ∷ msgs) h = (h.0, All-rows P msgs h.1)

rows-All :
    (P : GoString → GoString → Type 0) (msgs : List Message)
    → All (λ m. P m.request_id m.role) msgs
    → All (λ r. P r.request_id r.role) (map message_from_entity msgs)
unfolding message_from_entity
rows-All P [] h = tt
rows-All P (m ∷ msgs) h = (h.0, rows-All P msgs h.1)

row_key-message_from_entity :
    (msgs : List Message) → map row_key (map message_from_entity msgs) ≡ map index_key msgs
unfolding message_from_entity
row_key-message_from_entity [] = refl
row_key-message_from_entity (m ∷ msgs) = ap (◌∷◌ (index_key m)) (row_key-message_from_entity msgs)

module _ {d : Database} (laws : DatabaseLaws d) (ranging : MapOrder (Unit {0})) where
  open laws use {content}

  abbrev rows_of : List Message → List MessageModel
  rows_of = map message_from_entity

  -- What the statement on the sessions table makes of the database.
  abbrev opened : List Message → d.Db → d.Db × Result (Unit {0})
  opened msgs db = d.create_sessions (session_rows d ranging msgs) db

  abbrev upsert : List Message → d.Db → d.Db × Result (Unit {0})
  upsert msgs = d.upsert_messages (rows_of msgs)

  found-content :
      (ids : List GoString) (db : d.Db) (rows : List MessageModel)
      → d.find_by_requests ids role_assistant db ≡ ok rows
      → (id : GoString) → In id ids
      → lookup id (collect_contents rows []) ≡ content db id role_assistant
  unfolding lookup
  found-content ids db rows e id i =
      let sound = laws.find_sound ids role_assistant db rows e in
      let f = λ (k : GoString). content db k role_assistant in
      elim (Option-cases (content db id role_assistant)) [
        | inl gone ↦ ground (arith, lookup-collect_contents f id rows [] sound)
        | inr (c, there_is) ↦
            collect_contents-found f id rows [] sound
              (laws.find_complete ids role_assistant db rows e id c i there_is)
      ]

  pub get_content_lem :
      (ids : List GoString) (db : d.Db) (found : GoMap GoString)
      → get_content_by_request_ids d ranging ids db ≡ ok found
      → (id : GoString) → In id ids
      → lookup id found ≡ content db id role_assistant
  unfolding get_content_by_request_ids
  get_content_lem [] db found e id i = elim i [ ]
  get_content_lem (j ∷ ids) db found e id i =
      elim (Result-cases (d.find_by_requests (j ∷ ids) role_assistant db)) [
        | inl (rows, r) ↦
            let same : collect_contents rows [] ≡ found = ground arith in
            rw (← same) (found-content (j ∷ ids) db rows r id i)
        | inr (x, r) ↦ absurd (ground arith)
      ]

  pub upsert_writes :
      (msgs : List Message) (db db' : d.Db)
      → AllDistinct (map index_key msgs)
      → bulk_upsert_messages d ranging msgs db ≡ (db', ok tt)
      → All (λ m. content db' m.request_id m.role ≡ some m.content) msgs
  unfolding bulk_upsert_messages
  upsert_writes [] db db' h e = tt
  upsert_writes (m ∷ ms) db db' h e =
      All-rows (λ i r c. content db' i r ≡ some c) (m ∷ ms)
        (laws.upsert_writes (rows_of (m ∷ ms)) (opened (m ∷ ms) db).0 db'
          (subst AllDistinct (sym (row_key-message_from_entity (m ∷ ms))) h)
          (and_then-eq-ok (upsert (m ∷ ms)) (opened (m ∷ ms) db) e))

  pub upsert_keeps :
      (msgs : List Message) (db db' : d.Db) (request_id role : GoString)
      → bulk_upsert_messages d ranging msgs db ≡ (db', ok tt)
      → All (λ m. index_key m ≢ (request_id, role)) msgs
      → content db' request_id role ≡ content db request_id role
  unfolding bulk_upsert_messages
  upsert_keeps [] db db' i r e h = ap (λ t. content t.0 i r) (sym e)
  upsert_keeps (m ∷ ms) db db' i r e h =
      laws.upsert_keeps (rows_of (m ∷ ms)) (opened (m ∷ ms) db).0 db' i r
        (and_then-eq-ok (upsert (m ∷ ms)) (opened (m ∷ ms) db) e)
        (rows-All (λ a b. (a, b) ≢ (i, r)) (m ∷ ms) h)
      ∙ ap (λ (c : GoString → GoString → Option GoString). c i r)
          (laws.sessions_keep (session_rows d ranging (m ∷ ms)) db)

  pub upsert_fails :
      (msgs : List Message) (db db' : d.Db) (e : Error)
      → bulk_upsert_messages d ranging msgs db ≡ (db', err e)
      → content db' ≡ content db
  unfolding bulk_upsert_messages
  upsert_fails [] db db' e h = cc
  upsert_fails (m ∷ ms) db db' e h =
      elim (and_then-eq-err (upsert (m ∷ ms)) (opened (m ∷ ms) db) h) [
        | inl first ↦
            ap content (sym first) ∙ laws.sessions_keep (session_rows d ranging (m ∷ ms)) db
        | inr second ↦
            laws.upsert_fails (rows_of (m ∷ ms)) (opened (m ∷ ms) db).0 db' e second
            ∙ laws.sessions_keep (session_rows d ranging (m ∷ ms)) db
      ]

  -- Over a database with its documented behaviour, MessageStoreImpl is a store as the use cases
  -- expect it: an upsert writes the content of each message and of no other, a failed one changes
  -- none, and a lookup by request ids finds exactly what the assistant's messages hold.
  unfoldable pub message_store_laws : MessageStoreLaws (message_store d ranging)
  message_store_laws = record {
    content = content;
    upsert_writes = upsert_writes;
    upsert_keeps = upsert_keeps;
    upsert_fails = upsert_fails;
    get_content_lem = get_content_lem;
  }
