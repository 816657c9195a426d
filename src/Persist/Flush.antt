-- ===== src/Persist/Flush.antt =====
-- What a flush of PersistSessionUseCase leaves in the store, over any store with the laws of its
-- interface.
use golang_learning.Prelude.{
  ℕ, GoString, GoMap, MapOrder, lookup, Distinct, map, keys, eq_iff, List, [], ◌∷◌, ◌++◌, Option,
  none, some, ◌≡◌, ◌≢◌, ◌⊎◌, inl, inr, refl, sym, ap, subst, ◌∙◌, All, AllDistinct, In, here, there,
  arith, Option-cases, Bool-cases, ◌==◌,
}
use mathlib.Core.Path.{subst₂}
use golang_learning.Domain.{
  Message, role_user, role_assistant, Error, Result, ok, err, Result-cases,
}
use golang_learning.Store.Interface.{IMessageStore, MessageStoreLaws, index_key}
use golang_learning.Persist.{
  TokenBuffer, PersistSession, or_empty, merge, read_existing, write_merged, flush,
}

lookup-In :
    {V : Type 0} (id : GoString) (m : GoMap V) {v : V} → lookup id m ≡ some v → In id (keys m)
unfolding lookup
lookup-In id [] {v} e = cc
lookup-In id ((j, w) ∷ m) {v} e = elim (Bool-cases (j == id)) [
  | inl same ↦ subst (λ k. In id (k ∷ keys m)) (sym ((eq_iff j id).0 same)) here
  | inr other ↦ there (lookup-In id m {v = v} (ground arith))
]

roles_differ : role_user ≢ role_assistant
unfolding role_user role_assistant
roles_differ = ground arith

-- No message of the merge is about a request that the snapshot lacks.
merge-keeps :
    (existing : GoMap GoString) (snapshot : GoMap TokenBuffer) (id role : GoString)
    → lookup id snapshot ≡ none
    → All (λ m. index_key m ≢ (id, role)) (merge existing snapshot)
unfolding merge lookup
merge-keeps existing [] id role h = tt
merge-keeps existing ((j, b) ∷ snapshot) id role h =
    ground (arith, eq_iff j id, merge-keeps existing snapshot id role)

merge-fresh :
    (existing : GoMap GoString) (snapshot : GoMap TokenBuffer) (id role : GoString)
    → lookup id snapshot ≡ none
    → All (λ k. (id, role) ≢ k) (map index_key (merge existing snapshot))
unfolding merge lookup
merge-fresh existing [] id role h = tt
merge-fresh existing ((j, b) ∷ snapshot) id role h =
    ground (arith, eq_iff j id, merge-fresh existing snapshot id role)

merge-AllDistinct :
    (existing : GoMap GoString) (snapshot : GoMap TokenBuffer)
    → Distinct snapshot
    → AllDistinct (map index_key (merge existing snapshot))
unfolding merge
merge-AllDistinct existing [] d = tt
merge-AllDistinct existing ((j, b) ∷ snapshot) d = (
  (λ e. roles_differ (ap (λ k. k.1) e), merge-fresh existing snapshot j role_user d.0),
  (merge-fresh existing snapshot j role_assistant d.0, merge-AllDistinct existing snapshot d.1),
)

-- Both messages of a request of the snapshot are in the merge
module _ (P : GoString → GoString → GoString → Type 0) where
  merge-writes :
      (existing : GoMap GoString) (snapshot : GoMap TokenBuffer)
      → All (λ m. P m.request_id m.role m.content) (merge existing snapshot)
      → (id : GoString) (buf : TokenBuffer) → lookup id snapshot ≡ some buf
      → P id role_user buf.user_message
        × P id role_assistant (or_empty (lookup id existing) ++ buf.content)
  unfolding merge lookup
  merge-writes existing [] h id buf e = cc
  merge-writes existing ((j, b) ∷ snapshot) h id buf e = elim (Bool-cases (j == id)) [
    | inl same ↦
        let k = (eq_iff j id).0 same in
        let own : b ≡ buf = ground arith in
        (
          subst₂ (λ i (c : TokenBuffer). P i role_user c.user_message) k own h.0,
          subst₂
              (λ i (c : TokenBuffer).
                P i role_assistant (or_empty (lookup i existing) ++ c.content))
              k own h.1.0,
        )
    | inr other ↦ merge-writes existing snapshot h.1.1 id buf (ground arith)
  ]

module _ {store : IMessageStore} (laws : MessageStoreLaws store)
    (first second : MapOrder TokenBuffer) where
  open laws use {content}

  abbrev Outcome : Type 0
  Outcome = PersistSession × store.Db × Result (Unit {0})

  abbrev write : GoMap TokenBuffer → store.Db → store.Db → store.Db × Result (Unit {0})
  write snapshot db₀ =
      write_merged store first second snapshot (read_existing store first second snapshot db₀)

  -- A snapshot that was read at `db₀` and is written at `db₁`, with the outcome `db'`. The first
  -- two differ if another flush came between.
  module _ (snapshot : GoMap TokenBuffer) (distinct : Distinct snapshot)
      (db₀ db₁ db' : store.Db) where
    abbrev reading : Result (GoMap GoString)
    reading = read_existing store first second snapshot db₀

    -- The messages of the write, if the read has found `existing`.
    abbrev merged : GoMap GoString → List Message
    merged existing = merge existing (second.order snapshot)

    existing-content :
        (existing : GoMap GoString) (id : GoString) (buf : TokenBuffer)
        → reading ≡ ok existing
        → lookup id snapshot ≡ some buf
        → lookup id existing ≡ content db₀ id role_assistant
    unfolding read_existing
    existing-content existing id buf r e =
        laws.get_content_lem (keys (first.order snapshot)) db₀ existing r id (
          lookup-In id (first.order snapshot) {v = buf}
            (first.order-lookup id snapshot distinct ∙ e))

    pub write_merged-writes :
        write snapshot db₀ db₁ ≡ (db', ok tt)
        → (id : GoString) (buf : TokenBuffer) → lookup id snapshot ≡ some buf
        → (content db' id role_user ≡ some buf.user_message)
          × (content db' id role_assistant
              ≡ some (or_empty (content db₀ id role_assistant) ++ buf.content))
    unfolding write_merged
    write_merged-writes w id buf e = elim (Result-cases reading) [
      | inl (existing, r) ↦
          let w' : store.bulk_upsert_messages (merged existing) db₁ ≡ (db', ok tt) = rw r at w in
          let (user, assistant) =
            merge-writes (λ i r c. content db' i r ≡ some c) existing (second.order snapshot)
              (laws.upsert_writes (merged existing) db₁ db'
                (merge-AllDistinct existing (second.order snapshot)
                  (second.order-Distinct snapshot distinct))
                w')
              id buf (second.order-lookup id snapshot distinct ∙ e) in
          (
            user,
            assistant
                ∙ ap (λ (o : Option GoString). some (or_empty o ++ buf.content))
                    (existing-content existing id buf r e),
          )
      | inr (x, r) ↦ absurd (ground arith)
    ]

    pub write_merged-keeps :
        write snapshot db₀ db₁ ≡ (db', ok tt)
        → (id role : GoString) → lookup id snapshot ≡ none
        → content db' id role ≡ content db₁ id role
    unfolding write_merged
    write_merged-keeps w id role e = elim (Result-cases reading) [
      | inl (existing, r) ↦ laws.upsert_keeps (merged existing) db₁ db' id role (rw r at w) (
          merge-keeps existing (second.order snapshot) id role
            (second.order-lookup id snapshot distinct ∙ e))
      | inr (x, r) ↦ absurd (ground arith)
    ]

    pub write_merged-fails :
        (e : Error) → write snapshot db₀ db₁ ≡ (db', err e) → content db' ≡ content db₁
    unfolding write_merged
    write_merged-fails e w = elim (Result-cases reading) [
      | inl (existing, r) ↦ laws.upsert_fails (merged existing) db₁ db' e (rw r at w)
      | inr (x, r) ↦ ap content (sym (ap (λ (p : store.Db × Result (Unit {0})). p.0) (rw r at w)))
    ]

  -- A flush empties the buffers; it does nothing else, or it writes the snapshot.
  flush_cases :
      (buffers : GoMap TokenBuffer) (count : ℕ) (uc' : PersistSession) (db db' : store.Db)
      (r : Result (Unit {0}))
      → flush store first second (record { buffers = buffers; count = count }) db ≡ (uc', db', r)
      → (uc'.buffers ≡ [])
        × (((buffers ≡ []) × (db' ≡ db) × (r ≡ ok tt)) ⊎ (write buffers db db ≡ (db', r)))
  unfolding flush
  flush_cases [] count uc' db db' r h = (
    ap (λ (t : Outcome). t.0.buffers) (sym h),
    inl (refl, ap (λ (t : Outcome). t.1) (sym h), ap (λ (t : Outcome). t.2) (sym h)),
  )
  flush_cases (b ∷ bs) count uc' db db' r h =
      (ap (λ (t : Outcome). t.0.buffers) (sym h), inr (ap (λ (t : Outcome). (t.1, t.2)) h))

  -- What a flush promises of each request: where the snapshot has a buffer, the user's message is
  -- stored as it is and the assistant's grows by the buffered text; all else stays.
  abbrev pub Flushed : Option TokenBuffer → GoString → store.Db → store.Db → Type 0
  Flushed none id db db' = (role : GoString) → content db' id role ≡ content db id role
  Flushed (some buf) id db db' =
      (content db' id role_user ≡ some buf.user_message)
      × (content db' id role_assistant
          ≡ some (or_empty (content db id role_assistant) ++ buf.content))

  -- After a flush that succeeds, whatever the order of the two loops over the map, the buffers are
  -- empty, each buffered request has its user message and its former text with the buffered text
  -- behind it in the store, and the messages of every other request are untouched.
  pub flush-Flushed :
      (uc uc' : PersistSession) (db db' : store.Db)
      → Distinct uc.buffers
      → flush store first second uc db ≡ (uc', db', ok tt)
      → (uc'.buffers ≡ []) × ((id : GoString) → Flushed (lookup id uc.buffers) id db db')
  unfolding lookup
  flush-Flushed uc uc' db db' d h =
      let (emptied, outcome) = flush_cases uc.buffers uc.count uc' db db' (ok tt) h in
      (
        emptied,
        λ id. elim outcome [
          | inl (nothing, same, _) ↦ rw (nothing, lookup) λ role. ap (λ x. content x id role) same
          | inr w ↦ elim (Option-cases (lookup id uc.buffers)) [
            | inl missing ↦
                rw missing λ role. write_merged-keeps uc.buffers d db db db' w id role missing
            | inr (buf, found) ↦
                rw found (write_merged-writes uc.buffers d db db db' w id buf found)
          ]
        ],
      )

  -- If the read or the write fails, the store keeps its contents, but the buffers are empty all the
  -- same: the buffered text is lost.
  pub flush-loses_on_error :
      (uc uc' : PersistSession) (db db' : store.Db) (e : Error)
      → Distinct uc.buffers
      → flush store first second uc db ≡ (uc', db', err e)
      → (uc'.buffers ≡ []) × (content db' ≡ content db)
  flush-loses_on_error uc uc' db db' e d h =
      let (emptied, outcome) = flush_cases uc.buffers uc.count uc' db db' (err e) h in
      (
        emptied,
        elim outcome [
          | inl (_, _, never) ↦ cc
          | inr w ↦ write_merged-fails uc.buffers d db db db' e w
        ],
      )
