-- ===== src/PersistenceWorker/Refinement.antt =====
-- Where the text of each token is that the worker of
-- internal/adapter/controller/consumer/persistence.go has received: in the store, in a flush that
-- is under way, or in a buffer.
use golang_learning.Prelude.{
  GoString, MapOrder, ◌++◌, append-nil, Option, true, false, Bool-cases, ◌⊎◌, ◌≡◌, inl, inr, refl,
  sym, ap, subst, ◌∙◌, arith,
}
use golang_learning.Domain.{TokenEvent}
use golang_learning.Store.Interface.{IMessageStore, MessageStoreLaws}
use golang_learning.Persist.{TokenBuffer}
use golang_learning.Persist.Batches.{text_for, answer}
use golang_learning.PersistenceWorker.{new_persistence_worker}
use golang_learning.PersistenceWorker.System.{
  decoded, Flight, no_flush, taken, read, System, Step, message, ticks, snapshot, reads, writes,
  fails, async_done, tick_done, cancel, shut_down, last_snapshot, last_reads, last_writes,
  last_fails, flusher_done, flies, Reach, start, next,
}
use golang_learning.PersistenceWorker.Whole.{
  buffered, in_flight_text, IsWhole, initial-IsWhole, message-IsWhole, snapshot-IsWhole,
  reads-IsWhole, fails-IsWhole, writes-IsWhole, receive-use_case, tick-use_case,
}
use golang_learning.PersistenceWorker.Shutdown.{Reach-IsShut}

module _ {store : IMessageStore} (laws : MessageStoreLaws store)
    (decode : GoString → Option TokenEvent) (first second : MapOrder TokenBuffer) where
  -- The text of a request in the store, in the flushes under way and in the buffers, in this order.
  abbrev pub whole_text : System store → GoString → GoString
  whole_text s id =
      answer laws first second s.db id
      ++ in_flight_text s.flight id
      ++ in_flight_text s.last id
      ++ buffered s.worker.use_case.buffers id

  abbrev With : store.Db → Flight store → System store → Type 0
  With db x s = IsWhole laws first second db s.db x s.worker.use_case s.received s.failed

  -- Of two flushes that have not overlapped at most one is under way.
  abbrev IsSound : store.Db → System store → Type 0
  IsSound db s =
      s.overlapped ≡ false
      → ((s.last ≡ no_flush) × With db s.flight s) ⊎ ((s.flight ≡ no_flush) × With db s.last s)

  -- What keeps each of the two.
  kept_by :
      {db : store.Db} (s t : System store)
      → t.last ≡ s.last
      → t.flight ≡ s.flight
      → t.overlapped ≡ s.overlapped
      → ((x : Flight store) → With db x s → With db x t)
      → IsSound db s
      → IsSound db t
  kept_by {db} s t same_last same_flight same keeps v o = elim (v (sym same ∙ o)) [
    | inl (idle, w) ↦
        inl (same_last ∙ idle, subst (λ x. With db x t) (sym same_flight) (keeps s.flight w))
    | inr (idle, w) ↦
        inr (same_flight ∙ idle, subst (λ x. With db x t) (sym same_last) (keeps s.last w))
  ]

  -- The one of the two that is under way.
  first_flies :
      {db : store.Db} (s : System store) {x : Flight store}
      → s.flight ≡ x
      → flies store x ≡ true
      → ((s.last ≡ no_flush) × With db s.flight s) ⊎ ((s.flight ≡ no_flush) × With db s.last s)
      → (s.last ≡ no_flush) × With db s.flight s
  first_flies s e f (inl v) = v
  first_flies s e f (inr (idle, w)) = absurd (ground arith)

  last_flies :
      {db : store.Db} (s : System store) {x : Flight store}
      → s.last ≡ x
      → flies store x ≡ true
      → ((s.last ≡ no_flush) × With db s.flight s) ⊎ ((s.flight ≡ no_flush) × With db s.last s)
      → (s.flight ≡ no_flush) × With db s.last s
  last_flies s e f (inl (idle, w)) = absurd (ground arith)
  last_flies s e f (inr v) = v

  flies-no_flush : (x : Flight store) → flies store x ≡ false → x ≡ no_flush
  flies-no_flush no_flush e = refl
  flies-no_flush (taken m) e = absurd (ground arith)
  flies-no_flush (read m reading) e = absurd (ground arith)

  -- When none is under way, either form will do.
  idle-With :
      {db : store.Db} (s : System store)
      → s.flight ≡ no_flush
      → s.last ≡ no_flush
      → ((s.last ≡ no_flush) × With db s.flight s) ⊎ ((s.flight ≡ no_flush) × With db s.last s)
      → With db no_flush s
  idle-With {db} s e f (inl (_, w)) = subst (λ x. With db x s) e w
  idle-With {db} s e f (inr (_, w)) = subst (λ x. With db x s) f w

  Step-IsSound :
      (db : store.Db) {s t : System store}
      → Step store decode first second s t
      → IsSound db s
      → IsSound db t
  Step-IsSound db {s} {t} (message value) v =
      kept_by s t refl refl refl
        (λ x w.
          subst
            (λ uc.
              IsWhole laws first second db s.db x uc (s.received ++ decoded (decode value))
                s.failed)
            (sym (receive-use_case decode value s.worker))
            (message-IsWhole laws first second w (decoded (decode value))))
        v
  Step-IsSound db {s} {t} (ticks e) v =
      kept_by s t refl refl refl
        (λ x w.
          subst (λ uc. IsWhole laws first second db s.db x uc s.received s.failed)
            (sym (tick-use_case s.worker)) w)
        v
  Step-IsSound db {s} {t} (snapshot {m} {uc} l idle e) v = λ o.
      let alone = flies-no_flush s.last (ground (arith, o)) in
      inl (
        alone,
        snapshot-IsWhole laws first second (idle-With s idle alone (v (ground (arith, o)))) m uc
            refl e,
      )
  Step-IsSound db {s} {t} (reads {m} e) v = λ o.
      let (idle, w) = first_flies s e refl (v o) in
      inl (idle, reads-IsWhole laws first second w m e)
  Step-IsSound db {s} {t} (writes {m} {reading} {db'} e w) v = λ o.
      let (idle, f) = first_flies s e refl (v o) in
      inl (idle, writes-IsWhole laws first second m reading e w f)
  Step-IsSound db {s} {t} (fails {db' = after} e w) v = λ o.
      let (idle, f) = first_flies s e refl (v o) in
      inl (idle, fails-IsWhole laws first second f after)
  Step-IsSound db {s} {t} (async_done idle e) v = kept_by s t refl refl refl (λ x w. w) v
  Step-IsSound db {s} {t} (tick_done idle e) v = kept_by s t refl refl refl (λ x w. w) v
  Step-IsSound db {s} {t} cancel v = kept_by s t refl refl refl (λ x w. w) v
  Step-IsSound db {s} {t} (shut_down e c) v = kept_by s t refl refl refl (λ x w. w) v
  Step-IsSound db {s} {t} (last_snapshot {m} {uc} l idle e) v = λ o.
      let alone = flies-no_flush s.flight (ground (arith, o)) in
      inr (
        alone,
        snapshot-IsWhole laws first second (idle-With s alone idle (v (ground (arith, o)))) m uc
            refl e,
      )
  Step-IsSound db {s} {t} (last_reads {m} e) v = λ o.
      let (idle, w) = last_flies s e refl (v o) in inr (idle, reads-IsWhole laws first second w m e)
  Step-IsSound db {s} {t} (last_writes {m} {reading} {db'} e w) v = λ o.
      let (idle, f) = last_flies s e refl (v o) in
      inr (idle, writes-IsWhole laws first second m reading e w f)
  Step-IsSound db {s} {t} (last_fails {db' = after} e w) v = λ o.
      let (idle, f) = last_flies s e refl (v o) in
      inr (idle, fails-IsWhole laws first second f after)
  Step-IsSound db {s} {t} (flusher_done e idle) v = kept_by s t refl refl refl (λ x w. w) v

  Reach-IsSound :
      (db : store.Db) {s : System store} → Reach store decode first second db s → IsSound db s
  unfolding new_persistence_worker
  Reach-IsSound db start = λ o. inl (refl, initial-IsWhole laws first second db)
  Reach-IsSound db (next r e) = Step-IsSound db e (Reach-IsSound db r)

  -- The worker implements one text for each request, which every message extends. In every state
  -- that is reached without a failed flush, and either before the context is cancelled or at least
  -- without the last flush of the shutdown having overlapped another one, what the store holds of a
  -- request, the flushes under way and the buffers together make up what the store held at first,
  -- followed by the texts of all tokens of the request in the order in which they came.
  pub whole_text_refines :
      (db : store.Db) {s : System store}
      → Reach store decode first second db s
      → s.failed ≡ false
      → (s.worker.cancelled ≡ false) ⊎ (s.overlapped ≡ false)
      → (id : GoString) → whole_text s id ≡ answer laws first second db id ++ text_for id s.received
  whole_text_refines db {s} r f apart id =
      let alone : s.overlapped ≡ false = elim (Bool-cases s.overlapped) [
        | inl both ↦ ground (arith, (Reach-IsShut decode first second db r).both both)
        | inr o ↦ o
      ] in
      elim (Reach-IsSound db r alone) [
        | inl (idle, w) ↦
            ap
              (λ (x : Flight store).
                answer laws first second s.db id
                ++ in_flight_text s.flight id
                ++ in_flight_text x id
                ++ buffered s.worker.use_case.buffers id)
              idle
            ∙ ap (λ t. t ++ buffered s.worker.use_case.buffers id)
                (append-nil (answer laws first second s.db id ++ in_flight_text s.flight id))
            ∙ w.whole f id
        | inr (idle, w) ↦
            ap
              (λ (x : Flight store).
                answer laws first second s.db id
                ++ in_flight_text x id
                ++ in_flight_text s.last id
                ++ buffered s.worker.use_case.buffers id)
              idle
            ∙ ap (λ t. t ++ in_flight_text s.last id ++ buffered s.worker.use_case.buffers id)
                (append-nil (answer laws first second s.db id))
            ∙ w.whole f id
      ]
