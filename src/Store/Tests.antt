-- ===== src/Store/Tests.antt =====
-- A database in memory with the two tables, which refuses a message whose session is missing.
use golang_learning.Prelude.{
  insert, GoString, as_inserted, ◌==◌, eq_refl, Bool, true, false, ◌||◌, ◌&&◌, List, [], ◌∷◌, ◌++◌,
  All, if◌then◌else◌, ◌≡◌, refl, ap, subst, arith, ltb, length,
}
use golang_learning.Domain.{Message, Error, failure, redis_nil, wrapped, Result, ok, err}
use golang_learning.Store.{Database, SessionModel, MessageModel}
use golang_learning.Store
use golang_learning.Store.ForeignKey.{ForeignKey, bulk_upsert, writes_keep_key}

-- The sessions, and the number of messages that there is room for.
abbrev Tables : Type 0
Tables = List GoString × List MessageModel

abbrev has : GoString → List GoString → Bool
has id [] = false
has id (x ∷ ids) = x == id || has id ids

abbrev rooted : List GoString → List MessageModel → Bool
rooted ids [] = true
rooted ids (r ∷ rows) = has r.session_id ids && rooted ids rows

abbrev add_sessions : List SessionModel → List GoString → List GoString
add_sessions [] ids = ids
add_sessions (r ∷ rows) ids = r.session_id ∷ add_sessions rows ids

-- `failure` is a violation of the key; a full disk is another error.
abbrev disk_full : Error
disk_full = redis_nil

abbrev add_rows : List MessageModel → Tables → Tables × Result (Unit {0})
add_rows rows (ids, kept) =
    if rooted ids rows
    then if ltb (length kept) 2 then ((ids, rows ++ kept), ok tt) else ((ids, kept), err disk_full)
    else ((ids, kept), err (failure []))

abbrev tables : Database
tables = record {
  Db = Tables;
  create_sessions = λ rows t. ((add_sessions rows t.0, t.1), ok tt);
  create_messages = add_rows;
  upsert_messages = add_rows;
  find_by_requests = λ ids role t. ok [];
  find_by_session = λ session_id t. ok [];
}

abbrev violates : Error → Bool
violates (failure s) = true
violates redis_nil = false
violates (wrapped s e) = false

add_sessions-has :
    (rows : List SessionModel) (ids : List GoString)
    → All (λ r. has r.session_id (add_sessions rows ids) ≡ true) rows
add_sessions-has [] ids = tt
add_sessions-has (r ∷ rows) ids = (
  ground (arith, eq_refl r.session_id),
  later rows (add_sessions rows ids) (add_sessions-has rows ids),
)
  where
    later :
        (some_rows : List SessionModel) (all : List GoString)
        → All (λ x. has x.session_id all ≡ true) some_rows
        → All (λ x. has x.session_id (r.session_id ∷ all) ≡ true) some_rows
    later [] all h = tt
    later (x ∷ some_rows) all h = (ground (arith, h.0), later some_rows all h.1)

rooted-All :
    (rows : List MessageModel) (ids : List GoString)
    → All (λ r. has r.session_id ids ≡ true) rows
    → rooted ids rows ≡ true
rooted-All [] ids h = refl
rooted-All (r ∷ rows) ids h = ground (arith, h.0, rooted-All rows ids h.1)

add_rows-free :
    (rows : List MessageModel) (t t' : Tables) (e : Error)
    → All (λ r. has r.session_id t.0 ≡ true) rows
    → add_rows rows t ≡ (t', err e)
    → violates e ≡ false
add_rows-free rows (ids, kept) t' e h run = ground (arith, rooted-All rows ids h)

sessions-free :
    (rows : List SessionModel) (t t' : Tables) (x : Error)
    → ◌≡◌ {A = Tables × Result (Unit {0})} ((add_sessions rows t.0, t.1), ok tt) (t', err x)
    → violates x ≡ false
sessions-free rows t t' x e = absurd (ground arith)

abbrev foreign_key : ForeignKey tables
foreign_key = record {
  has_session = λ id t. has id t.0;
  is_violation = violates;
  sessions_created = λ rows t t' e.
      subst (λ ids. All (λ r. has r.session_id ids ≡ true) rows)
        (ap (λ (p : Tables × Result (Unit {0})). p.0.0) e) (add_sessions-has rows t.0);
  sessions_free = sessions-free;
  create_checked = add_rows-free;
  upsert_checked = add_rows-free;
}

abbrev message : Message
message = record { session_id = 1 ∷ []; request_id = 2 ∷ []; role = 3 ∷ []; content = 4 ∷ [] }

abbrev row : MessageModel
row = record {
  id = 0;
  session_id = 9 ∷ [];
  request_id = 9 ∷ [];
  role = 3 ∷ [];
  content = [];
  session = record { session_id = [] };
}

-- The disk is full.
writes_keep_key_example : violates disk_full ≡ false
unfolding Store.bulk_upsert_messages Store.seen_sessions Store.message_from_entity ◌==◌ insert
writes_keep_key_example =
    writes_keep_key foreign_key (as_inserted (Unit {0})) (bulk_upsert (message ∷ []))
      ([], row ∷ row ∷ []) ((1 ∷ []) ∷ [], row ∷ row ∷ []) disk_full refl
