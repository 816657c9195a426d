-- ===== src/PersistenceWorker/Whole.antt =====
-- The text of a request in the store, in one flush and in the buffers, and what each part of the
-- worker of internal/adapter/controller/consumer/persistence.go does to it.
use golang_learning.Prelude.{
  GoString, GoMap, MapOrder, lookup, Distinct, List, [], ◌∷◌, ◌++◌, append_assoc, append-nil,
  Option, none, some, Bool, true, false, ◌≡◌, inl, inr, refl, sym, ap, subst, ◌∙◌, arith,
  Option-cases,
}
use golang_learning.Domain.{TokenEvent, Result, ok, role_assistant}
use golang_learning.Store.Interface.{IMessageStore, MessageStoreLaws}
use golang_learning.Persist.{
  TokenBuffer, PersistSession, new_persist_session, take_snapshot, read_existing, write_merged,
  or_empty,
}
use golang_learning.Persist.Buffers.{
  add_tokens, tokens_for, text, extended, lookup-add_tokens, add_tokens-Distinct,
}
use golang_learning.Persist.Flush.{write_merged-writes, write_merged-keeps}
use golang_learning.Persist.Batches.{text_for, text_for-append, answer}
use golang_learning.PersistenceWorker.{PersistenceWorker, receive, tick}
use golang_learning.PersistenceWorker.System.{decoded, Flight, no_flush, taken, read}

abbrev text_of : Option TokenBuffer → GoString
text_of none = []
text_of (some buf) = buf.content

text_of-extended :
    (o : Option TokenBuffer) (ts : List TokenEvent) → text_of (extended o ts) ≡ text_of o ++ text ts
text_of-extended none [] = refl
text_of-extended none (t ∷ ts) = refl
text_of-extended (some buf) ts = refl

-- The text that the buffers hold for a request.
abbrev pub buffered : GoMap TokenBuffer → GoString → GoString
buffered m id = text_of (lookup id m)

buffered-add_tokens :
    (uc : PersistSession) (ts : List TokenEvent) (id : GoString)
    → buffered (add_tokens uc ts).buffers id ≡ buffered uc.buffers id ++ text_for id ts
buffered-add_tokens uc ts id =
    ap text_of (lookup-add_tokens uc ts id)
    ∙ text_of-extended (lookup id uc.buffers) (tokens_for id ts)

-- What a message does to the use case.
pub receive-use_case :
    (decode : GoString → Option TokenEvent) (value : GoString) (w : PersistenceWorker)
    → (receive decode value w).use_case ≡ add_tokens w.use_case (decoded (decode value))
unfolding receive add_tokens
receive-use_case decode value w = ground arith

pub tick-use_case : (w : PersistenceWorker) → (tick w).use_case ≡ w.use_case
unfolding tick
tick-use_case w = ground arith

take_snapshot-some :
    (uc uc' : PersistSession) (m : GoMap TokenBuffer)
    → take_snapshot uc ≡ (some m, uc')
    → (m ≡ uc.buffers) × (uc'.buffers ≡ [])
unfolding take_snapshot
take_snapshot-some uc uc' m e = ground arith

abbrev pub in_flight_text : {store : IMessageStore} → Flight store → GoString → GoString
in_flight_text no_flush id = []
in_flight_text (taken m) id = buffered m id
in_flight_text (read m reading) id = buffered m id

module _ {store : IMessageStore} (laws : MessageStoreLaws store)
    (first second : MapOrder TokenBuffer) where
  abbrev pub kept_answer : store.Db → GoString → GoString
  kept_answer = answer laws first second

  -- What the flush under way has read is what the store holds.
  abbrev pub IsFlying : Flight store → store.Db → Type 0
  IsFlying no_flush db = Unit
  IsFlying (taken m) db = Distinct m
  IsFlying (read m reading) db = Distinct m × (reading ≡ read_existing store first second m db)

  -- The text of a request in the store, in one flush and in the buffers, in this order.
  abbrev pub one_text : store.Db → Flight store → PersistSession → GoString → GoString
  one_text now x uc id = kept_answer now id ++ in_flight_text x id ++ buffered uc.buffers id

  pub record IsWhole (db now : store.Db) (x : Flight store) (uc : PersistSession)
      (received : List TokenEvent) (failed : Bool) : Type 0 where
    pub distinct : Distinct uc.buffers
    pub flying : IsFlying x now
    pub whole :
        failed ≡ false
        → (id : GoString) → one_text now x uc id ≡ kept_answer db id ++ text_for id received

  pub initial-IsWhole : (db : store.Db) → IsWhole db db no_flush new_persist_session [] false
  unfolding new_persist_session lookup tokens_for
  initial-IsWhole db = record {
    distinct = tt;
    flying = tt;
    whole = λ f id. append-nil (kept_answer db id ++ []);
  }

  module _ {db now : store.Db} {x : Flight store} {uc : PersistSession} {received : List TokenEvent}
      {failed : Bool} (v : IsWhole db now x uc received failed) where
    pub message-IsWhole :
        (new : List TokenEvent) → IsWhole db now x (add_tokens uc new) (received ++ new) failed
    message-IsWhole new = record {
      distinct = add_tokens-Distinct uc new v.distinct;
      flying = v.flying;
      whole = λ f id.
          let before = kept_answer now id ++ in_flight_text x id in
          ap (◌++◌ before) (buffered-add_tokens uc new id)
          ∙ sym (append_assoc before (buffered uc.buffers id) (text_for id new))
          ∙ ap (λ t. t ++ text_for id new) (v.whole f id)
          ∙ append_assoc (kept_answer db id) (text_for id received) (text_for id new)
          ∙ ap (◌++◌ (kept_answer db id)) (sym (text_for-append id received new));
    }

    pub snapshot-IsWhole :
        (m : GoMap TokenBuffer) (uc' : PersistSession)
        → x ≡ no_flush
        → take_snapshot uc ≡ (some m, uc')
        → IsWhole db now (taken m) uc' received failed
    unfolding lookup
    snapshot-IsWhole m uc' idle e =
        let (all, empty) = take_snapshot-some uc uc' m e in
        record {
          distinct = rw empty tt;
          flying = rw all v.distinct;
          whole = λ f id.
              let a = kept_answer now id in
              ap (λ (b : GoMap TokenBuffer). a ++ buffered m id ++ buffered b id) empty
              ∙ append-nil (a ++ buffered m id)
              ∙ ap (λ (b : GoMap TokenBuffer). a ++ buffered b id) all
              ∙ ap (λ t. t ++ buffered uc.buffers id) (sym (append-nil a))
              ∙ ap (λ (y : Flight store). a ++ in_flight_text y id ++ buffered uc.buffers id)
                  (sym idle)
              ∙ v.whole f id;
        }

    pub reads-IsWhole :
        (m : GoMap TokenBuffer)
        → x ≡ taken m
        → IsWhole db now (read m (read_existing store first second m now)) uc received failed
    reads-IsWhole m e = record {
      distinct = v.distinct;
      flying = (subst (λ y. IsFlying y now) e v.flying, refl);
      whole = λ f id. ap (λ (y : Flight store). one_text now y uc id) (sym e) ∙ v.whole f id;
    }

    pub fails-IsWhole : (after : store.Db) → IsWhole db after no_flush uc received true
    fails-IsWhole after = record { distinct = v.distinct; flying = tt; whole = λ f. cc }

  -- What a write leaves of a request.
  written :
      (m : GoMap TokenBuffer) (db db' : store.Db)
      → Distinct m
      → write_merged store first second m (read_existing store first second m db) db ≡ (db', ok tt)
      → (id : GoString) → kept_answer db' id ≡ kept_answer db id ++ buffered m id
  written m db db' d w id = elim (Option-cases (lookup id m)) [
    | inl missing ↦ rw missing (
        ap or_empty (write_merged-keeps laws first second m d db db db' w id role_assistant missing)
        ∙ sym (append-nil (kept_answer db id)))
    | inr (buf, found) ↦
        rw found
          (ap or_empty (write_merged-writes laws first second m d db db db' w id buf found).1)
  ]

  pub writes-IsWhole :
      {db now after : store.Db} {x : Flight store} {uc : PersistSession}
      {received : List TokenEvent} {failed : Bool} (m : GoMap TokenBuffer)
      (reading : Result (GoMap GoString))
      → x ≡ read m reading
      → write_merged store first second m reading now ≡ (after, ok tt)
      → IsWhole db now x uc received failed
      → IsWhole db after no_flush uc received failed
  writes-IsWhole {now = now} {after = after} {uc = uc} m reading e w v =
      let (d, fresh) : IsFlying (read m reading) now = subst (λ y. IsFlying y now) e v.flying in
      let done =
        written m now after d
          (subst (λ y. write_merged store first second m y now ≡ (after, ok tt)) fresh w) in
      record {
        distinct = v.distinct;
        flying = tt;
        whole = λ f id.
            ap (λ t. t ++ buffered uc.buffers id) (append-nil (kept_answer after id) ∙ done id)
            ∙ ap (λ (y : Flight store). one_text now y uc id) (sym e)
            ∙ v.whole f id;
      }
