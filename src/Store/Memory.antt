-- ===== src/Store/Memory.antt =====
-- A database in memory with the behaviour that DatabaseLaws asks for, to run the store on: the
-- contents by request and role, and a switch that makes every statement fail.
use golang_learning.Prelude.{
  GoString, ◌==◌, eq_iff, eq_refl, Bool, ◌&&◌, List, [], ◌∷◌, map, Option, none, some,
  if◌then◌else◌, ◌≡◌, ◌≢◌, refl, ap, ◌∙◌, All, AllDistinct, In, here, there, arith, inl, inr,
  Option-cases, sym, subst,
}
use golang_learning.Domain.{Error, failure, Result, ok, err}
use golang_learning.Store.{MessageModel, Database}
use golang_learning.Store.Content.{DatabaseLaws, row_key}

pub record Table : Type 0 where
  pub broken : Bool
  pub at_key : GoString → GoString → Option GoString

unfoldable pub put :
    MessageModel → (GoString → GoString → Option GoString) → GoString → GoString → Option GoString
put r f i k = if r.request_id == i && r.role == k then some r.content else f i k

unfoldable pub put_all :
    List MessageModel
    → (GoString → GoString → Option GoString)
    → GoString
    → GoString
    → Option GoString
unfolding put
put_all [] f = f
put_all (r ∷ rows) f = put_all rows (put r f)

-- The row of an id, if there is one, before the others.
unfoldable pub with_row :
    GoString → GoString → Option GoString → List MessageModel → List MessageModel
with_row id role none rows = rows
with_row id role (some c) rows =
    record {
      id = 0;
      session_id = [];
      request_id = id;
      role = role;
      content = c;
      session = record { session_id = [] };
    }
    ∷ rows

unfoldable pub rows_at :
    List GoString → GoString → (GoString → GoString → Option GoString) → List MessageModel
unfolding with_row
rows_at [] role f = []
rows_at (id ∷ ids) role f = with_row id role (f id role) (rows_at ids role f)

abbrev pub disk_full : Error
disk_full = failure []

abbrev pub attempt : {A : Type 0} → Table → A → Result A
attempt t a = if t.broken then err disk_full else ok a

abbrev pub put_rows : List MessageModel → Table → Table × Result (Unit {0})
put_rows rows t =
    (record t { at_key = if t.broken then t.at_key else put_all rows t.at_key }, attempt t tt)

abbrev pub memory : Database
memory = record {
  Db = Table;
  create_sessions = λ rows t. (t, attempt t tt);
  create_messages = put_rows;
  upsert_messages = put_rows;
  find_by_requests = λ ids role t. attempt t (rows_at ids role t.at_key);
  find_by_session = λ session_id t. attempt t [];
}

put_all-keeps :
    (rows : List MessageModel) (f : GoString → GoString → Option GoString) (i k : GoString)
    → All (λ r. row_key r ≢ (i, k)) rows
    → put_all rows f i k ≡ f i k
unfolding put_all
put_all-keeps [] f i k h = refl
put_all-keeps (r ∷ rows) f i k h =
    put_all-keeps rows (put r f) i k h.1
    ∙ ground (arith, eq_iff r.request_id i, eq_iff r.role k, h.0)

distinct-keeps :
    (r : MessageModel) (rows : List MessageModel)
    → All (λ y. row_key r ≢ y) (map row_key rows)
    → All (λ s. row_key s ≢ row_key r) rows
distinct-keeps r [] h = tt
distinct-keeps r (s ∷ rows) h = (λ e. h.0 (sym e), distinct-keeps r rows h.1)

put_all-writes :
    (rows : List MessageModel) (f : GoString → GoString → Option GoString)
    → AllDistinct (map row_key rows)
    → All (λ r. put_all rows f r.request_id r.role ≡ some r.content) rows
unfolding put_all
put_all-writes [] f d = tt
put_all-writes (r ∷ rows) f d = (
  put_all-keeps rows (put r f) r.request_id r.role (distinct-keeps r rows d.0)
      ∙ ground (arith, eq_refl r.request_id, eq_refl r.role),
  put_all-writes rows (put r f) d.1,
)

rows_at_sound :
    (ids : List GoString) (role : GoString) (f : GoString → GoString → Option GoString)
    → All (λ r. f r.request_id role ≡ some r.content) (rows_at ids role f)
unfolding rows_at
rows_at_sound [] role f = tt
rows_at_sound (id ∷ ids) role f = ground (arith, rows_at_sound ids role f)

rows_at_complete :
    (ids : List GoString) (role : GoString) (f : GoString → GoString → Option GoString)
    (id c : GoString)
    → In id ids
    → f id role ≡ some c
    → In id (map (λ r. r.request_id) (rows_at ids role f))
unfolding rows_at
rows_at_complete [] role f id c i e = elim i [ ]
rows_at_complete (j ∷ ids) role f id c here e = rw (e, with_row) here
rows_at_complete (j ∷ ids) role f id c (there i) e =
    let rest = rows_at_complete ids role f id c i e in
    elim (Option-cases (f j role)) [
      | inl gone ↦ rw (gone, with_row) rest
      | inr (x, found) ↦ rw (found, with_row) (there rest)
    ]

put_rows-eq-ok :
    (rows : List MessageModel) (t t' : Table)
    → put_rows rows t ≡ (t', ok tt)
    → put_all rows t.at_key ≡ t'.at_key
put_rows-eq-ok rows t t' e = ground arith

writes :
    (rows : List MessageModel) (t t' : Table)
    → AllDistinct (map row_key rows)
    → put_rows rows t ≡ (t', ok tt)
    → All (λ r. t'.at_key r.request_id r.role ≡ some r.content) rows
writes rows t t' d e =
    subst
      (λ (f : GoString → GoString → Option GoString).
        All (λ r. f r.request_id r.role ≡ some r.content) rows)
      (put_rows-eq-ok rows t t' e) (put_all-writes rows t.at_key d)

fails :
    (rows : List MessageModel) (t t' : Table) (x : Error)
    → put_rows rows t ≡ (t', err x)
    → t'.at_key ≡ t.at_key
fails rows t t' x e = ground arith

find-eq-ok :
    (ids : List GoString) (role : GoString) (t : Table) (rows : List MessageModel)
    → attempt t (rows_at ids role t.at_key) ≡ ok rows
    → rows_at ids role t.at_key ≡ rows
find-eq-ok ids role t rows e = ground arith

pub memory_laws : DatabaseLaws memory
memory_laws = record {
  content = λ t. t.at_key;
  sessions_keep = λ rows t. refl;
  upsert_writes = writes;
  upsert_keeps = λ rows t t' i k e h.
      ap (λ (f : GoString → GoString → Option GoString). f i k) (sym (put_rows-eq-ok rows t t' e))
      ∙ put_all-keeps rows t.at_key i k h;
  upsert_fails = fails;
  find_sound = λ ids role t rows e.
      subst (All (λ r. t.at_key r.request_id role ≡ some r.content)) (find-eq-ok ids role t rows e)
        (rows_at_sound ids role t.at_key);
  find_complete = λ ids role t rows e id c i h.
      subst (λ rs. In id (map (λ r. r.request_id) rs)) (find-eq-ok ids role t rows e)
        (rows_at_complete ids role t.at_key id c i h);
}
