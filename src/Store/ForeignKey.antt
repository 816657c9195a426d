-- ===== src/Store/ForeignKey.antt =====
-- The foreign key from messages to sessions (message_model.go, line 11), and the order in which the
-- store writes the two tables.
use golang_learning.Prelude.{
  GoString, GoMap, MapOrder, Distinct, lookup, lookup-insert, insert, insert-Distinct, keys, ◌==◌,
  eq_iff, eq_refl, Bool, true, false, List, [], ◌∷◌, map, some, All, In, here, Bool-cases, there,
  ◌≡◌, inl, inr, ap, ◌∙◌, arith, subst,
}
use golang_learning.Domain.{Message, Error, Result, Result-cases, ok, err}
use golang_learning.Store.{
  Database, SessionModel, MessageModel, and_then, seen_sessions, message_from_entity, session_rows,
  save_message, bulk_save_messages, bulk_upsert_messages,
}

-- Documented behaviour of PostgreSQL: a row is written only if the row that it refers to is there,
-- and a statement fails for that reason only if it is not.
pub record ForeignKey (d : Database) : Type 0 where
  pub has_session : GoString → d.Db → Bool
  pub is_violation : Error → Bool
  pub sessions_created :
      (rows : List SessionModel) (db db' : d.Db)
      → d.create_sessions rows db ≡ (db', ok tt)
      → All (λ r. has_session r.session_id db' ≡ true) rows
  pub sessions_free :
      (rows : List SessionModel) (db db' : d.Db) (e : Error)
      → d.create_sessions rows db ≡ (db', err e)
      → is_violation e ≡ false
  pub create_checked :
      (rows : List MessageModel) (db db' : d.Db) (e : Error)
      → All (λ r. has_session r.session_id db ≡ true) rows
      → d.create_messages rows db ≡ (db', err e)
      → is_violation e ≡ false
  pub upsert_checked :
      (rows : List MessageModel) (db db' : d.Db) (e : Error)
      → All (λ r. has_session r.session_id db ≡ true) rows
      → d.upsert_messages rows db ≡ (db', err e)
      → is_violation e ≡ false

-- A key that is found stands among the keys.
In-keys : {V : Type 0} (k : GoString) (m : GoMap V) {v : V} → lookup k m ≡ some v → In k (keys m)
unfolding lookup
In-keys k [] e = absurd (ground arith)
In-keys k ((j, w) ∷ m) {v} e = elim (Bool-cases (j == k)) [
  | inl same ↦ subst (λ x. In x (j ∷ keys m)) ((eq_iff j k).0 same) here
  | inr other ↦ there (In-keys k m {v = v} (ground arith))
]

-- Every session of the messages is seen.
seen_sessions-keeps :
    (k : GoString) (msgs : List Message) (seen : GoMap (Unit {0}))
    → lookup k seen ≡ some tt
    → lookup k (seen_sessions msgs seen) ≡ some tt
unfolding seen_sessions
seen_sessions-keeps k [] seen e = e
seen_sessions-keeps k (m ∷ msgs) seen e =
    seen_sessions-keeps k msgs (insert m.session_id tt seen)
      (ground (arith, lookup-insert m.session_id k tt seen))

lookup-seen_sessions :
    (m : Message) (msgs : List Message) (seen : GoMap (Unit {0}))
    → In m msgs
    → lookup m.session_id (seen_sessions msgs seen) ≡ some tt
unfolding seen_sessions
lookup-seen_sessions m [] seen i = elim i [ ]
lookup-seen_sessions m (n ∷ msgs) seen here =
    seen_sessions-keeps m.session_id msgs (insert m.session_id tt seen)
      (ground (arith, lookup-insert m.session_id m.session_id tt seen, eq_refl m.session_id))
lookup-seen_sessions m (n ∷ msgs) seen (there i) =
    lookup-seen_sessions m msgs (insert n.session_id tt seen) i

seen_sessions-Distinct :
    (msgs : List Message) (seen : GoMap (Unit {0}))
    → Distinct seen
    → Distinct (seen_sessions msgs seen)
unfolding seen_sessions
seen_sessions-Distinct [] seen h = h
seen_sessions-Distinct (m ∷ msgs) seen h =
    seen_sessions-Distinct msgs (insert m.session_id tt seen)
      (insert-Distinct m.session_id tt seen h)

-- The three operations that write.
pub data Write : Type 0 where
  save : Message → Write
  bulk_save : List Message → Write
  bulk_upsert : List Message → Write

abbrev to_session : GoString → SessionModel
to_session id = record { session_id = id }

module _ {d : Database} (key : ForeignKey d) (ranging : MapOrder (Unit {0})) where
  open key use {has_session, is_violation}

  -- The rows of messages whose sessions are there.
  abbrev Rooted : d.Db → List MessageModel → Type 0
  Rooted db = All (λ r. has_session r.session_id db ≡ true)

  rows-Rooted :
      (msgs : List Message) (db : d.Db)
      → ((m : Message) → In m msgs → has_session m.session_id db ≡ true)
      → Rooted db (map message_from_entity msgs)
  unfolding message_from_entity
  rows-Rooted [] db h = tt
  rows-Rooted (m ∷ msgs) db h = (h m here, rows-Rooted msgs db (λ n i. h n (there i)))

  In-session_rows :
      (ids : List GoString) (db : d.Db) (id : GoString)
      → All (λ r. has_session r.session_id db ≡ true) (map to_session ids)
      → In id ids
      → has_session id db ≡ true
  In-session_rows [] db id h i = elim i [ ]
  In-session_rows (x ∷ ids) db id h here = h.0
  In-session_rows (x ∷ ids) db id h (there i) = In-session_rows ids db id h.1 i

  -- After the first statement, the rows of the second are rooted.
  session_rows-Rooted :
      (msgs : List Message) (db db' : d.Db)
      → d.create_sessions (session_rows d ranging msgs) db ≡ (db', ok tt)
      → Rooted db' (map message_from_entity msgs)
  session_rows-Rooted msgs db db' e =
      let seen = seen_sessions msgs [] in
      let distinct = seen_sessions-Distinct msgs [] tt in
      let made = key.sessions_created (session_rows d ranging msgs) db db' e in
      rows-Rooted msgs db' (λ m i.
        In-session_rows (keys (ranging.order seen)) db' m.session_id made (
          In-keys m.session_id (ranging.order seen)
            (ranging.order-lookup m.session_id seen distinct ∙ lookup-seen_sessions m msgs [] i)))

  -- The two statements, if the second only ever fails for another reason on what the first leaves.
  and_then-free :
      (rows : List SessionModel) (db : d.Db) (f : d.Db → d.Db × Result (Unit {0})) {db' : d.Db}
      {e : Error}
      → ((mid : d.Db)
          → d.create_sessions rows db ≡ (mid, ok tt)
          → f mid ≡ (db', err e)
          → is_violation e ≡ false)
      → and_then (d.create_sessions rows db) f ≡ (db', err e)
      → is_violation e ≡ false
  and_then-free rows db f {db'} {e} fine run =
      let first = d.create_sessions rows db in
      elim (Result-cases first.1) [
        | inl (_, done) ↦
            fine first.0 (ap (λ (r : Result (Unit {0})). (first.0, r)) done) (ground arith)
        | inr (x, failed) ↦ key.sessions_free rows db db' e (ground arith)
      ]

  abbrev pub perform : Write → d.Db → d.Db × Result (Unit {0})
  perform (save msg) = save_message d ranging msg
  perform (bulk_save msgs) = bulk_save_messages d ranging msgs
  perform (bulk_upsert msgs) = bulk_upsert_messages d ranging msgs

  -- No write of the store fails because a message's session is missing, whatever messages and
  -- sessions the database holds: each operation first creates the sessions of all its messages.
  pub writes_keep_key :
      (write : Write) (db db' : d.Db) (e : Error)
      → perform write db ≡ (db', err e)
      → is_violation e ≡ false
  unfolding save_message bulk_save_messages bulk_upsert_messages
  writes_keep_key (save msg) db db' e run =
      and_then-free (to_session msg.session_id ∷ []) db
        (d.create_messages (message_from_entity msg ∷ []))
        (λ mid made. key.create_checked (message_from_entity msg ∷ []) mid db' e (
          rows-Rooted (msg ∷ []) mid (λ m i.
            In-session_rows (msg.session_id ∷ []) mid m.session_id
              (key.sessions_created (to_session msg.session_id ∷ []) db mid made) (only m i))))
        run
    where
      only : (m : Message) → In m (msg ∷ []) → In m.session_id (msg.session_id ∷ [])
      only m here = here
      only m (there i) = elim i [ ]
  writes_keep_key (bulk_save []) db db' e run = absurd (ground arith)
  writes_keep_key (bulk_save (m ∷ msgs)) db db' e run =
      and_then-free (session_rows d ranging (m ∷ msgs)) db
        (d.create_messages (map message_from_entity (m ∷ msgs)))
        (λ mid made.
          key.create_checked (map message_from_entity (m ∷ msgs)) mid db' e
            (session_rows-Rooted (m ∷ msgs) db mid made))
        run
  writes_keep_key (bulk_upsert []) db db' e run = absurd (ground arith)
  writes_keep_key (bulk_upsert (m ∷ msgs)) db db' e run =
      and_then-free (session_rows d ranging (m ∷ msgs)) db
        (d.upsert_messages (map message_from_entity (m ∷ msgs)))
        (λ mid made.
          key.upsert_checked (map message_from_entity (m ∷ msgs)) mid db' e
            (session_rows-Rooted (m ∷ msgs) db mid made))
        run
