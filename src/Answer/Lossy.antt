-- ===== src/Answer/Lossy.antt =====
-- What reaches the database when Kafka keeps only some of the messages that the writers have
-- accepted: the writers are asynchronous, so an accepted message may still be dropped.
use golang_learning.Prelude.{
  GoString, MapOrder, ◌==◌, List, [], ◌∷◌, ◌++◌, append-cancel, map, concat, Option, some,
  if◌then◌else◌, All, Sub, none_left, keep, skip, ◌≡◌, refl, sym, ◌∙◌, arith, Bool-cases, inl, inr,
}
use golang_learning.Domain.{ChatRequest, TokenEvent, role_assistant, ok}
use golang_learning.Publisher.{KafkaMessage, Kafka, Json, topic_persist_llm, execute}
use golang_learning.Publisher.Log.{KafkaLaws}
use golang_learning.Publisher.Process.{events, on, log-execute}
use golang_learning.Persist.{TokenBuffer, PersistSession, or_empty}
use golang_learning.Persist.Buffers.{tokens_for}
use golang_learning.Persist.Batches.{run_batches, text_for}
use golang_learning.Persist.Stored.{content-run_batches}
use golang_learning.Store.{Database, message_store}
use golang_learning.Store.Content.{DatabaseLaws}
use golang_learning.Answer.{token_events}

module _ {kafka : Kafka} (laws : KafkaLaws kafka) (json : Json) (value : TokenEvent → GoString)
    (marshals : (t : TokenEvent) → json.marshal_token t ≡ ok (value t))
    (decode : GoString → Option TokenEvent) where
  abbrev sent : List TokenEvent → List KafkaMessage
  sent ts = map (on laws json value marshals topic_persist_llm) ts

  -- The events of the messages that were kept are some of the events.
  token_events-Sub :
      (ts : List TokenEvent) {ms : List KafkaMessage}
      → All (λ t. decode (value t) ≡ some t) ts
      → Sub ms (sent ts)
      → Sub (token_events decode ms) ts
  unfolding token_events
  token_events-Sub [] decodes none_left = none_left
  token_events-Sub (t ∷ ts) decodes (keep _ s) =
      rw decodes.0 (keep t (token_events-Sub ts decodes.1 s))
  token_events-Sub (t ∷ ts) decodes (skip s) = skip (token_events-Sub ts decodes.1 s)

  -- The text of a request among some of the events of an answer.
  text_for-Sub :
      (req : ChatRequest) (deltas : List GoString) {ts : List TokenEvent}
      → Sub ts (events laws json value marshals req deltas)
      → (kept : List GoString) × Sub kept deltas
        × ((id : GoString) → text_for id ts ≡ (if req.request_id == id then concat kept else []))
  unfolding tokens_for
  text_for-Sub req [] (keep _ none_left) = ([], none_left, λ id. ground arith)
  text_for-Sub req [] (skip none_left) = ([], none_left, λ id. ground arith)
  text_for-Sub req (delta ∷ deltas) (skip s) =
      let (kept, some_of, texts) = text_for-Sub req deltas s in (kept, skip some_of, texts)
  text_for-Sub req (delta ∷ deltas) (keep _ s) =
      let (kept, some_of, texts) = text_for-Sub req deltas s in
      (
        delta ∷ kept,
        keep delta some_of,
        λ id. elim (Bool-cases (req.request_id == id)) [
          | inl own ↦ rw (own, texts id, own) refl
          | inr other ↦ rw (other, texts id, other) refl
        ],
      )

  module _ {d : Database} (rows : DatabaseLaws d) (ranging : MapOrder (Unit {0}))
      (first second : MapOrder TokenBuffer) where
    -- If a request is processed with success, but Kafka keeps only some of the messages that this
    -- adds to the topic of the persistence worker, in their order, and the worker decodes those as
    -- they were encoded and flushes them in any batches without an error, then the assistant's row
    -- of the request holds what it held, followed by some of the parts of the answer in their
    -- order, and the rows of all other requests hold what they held.
    pub kept_answer_is_stored :
        (req : ChatRequest) (deltas : List GoString) (w w' : kafka.World)
        (accepted batch : List KafkaMessage)
        → All (λ t. decode (value t) ≡ some t) (events laws json value marshals req deltas)
        → execute kafka json req (ok deltas) w ≡ (w', ok tt)
        → laws.log topic_persist_llm w' ≡ laws.log topic_persist_llm w ++ accepted
        → Sub batch accepted
        → (batches : List (List TokenEvent)) (uc uc' : PersistSession) (db db' : d.Db)
        → concat batches ≡ token_events decode batch
        → uc.buffers ≡ []
        → run_batches (message_store d ranging) first second batches uc db ≡ some (uc', db')
        → (kept : List GoString) × Sub kept deltas
          × ((id : GoString)
              → or_empty (rows.content db' id role_assistant)
                ≡ or_empty (rows.content db id role_assistant)
                  ++ (if req.request_id == id then concat kept else []))
    kept_answer_is_stored req deltas w w' accepted batch decodes processed grown left batches uc uc'
          db db' read idle run =
        let (parts, same, _, persisted) =
          log-execute laws json value marshals req (ok deltas) w w' processed in
        let all_are = append-cancel (laws.log topic_persist_llm w) (sym grown ∙ persisted) in
        let parts_are : parts ≡ deltas = ground arith in
        let some_left : Sub batch (sent (events laws json value marshals req deltas)) =
          rw (all_are, parts_are) at left in
        let (kept, some_of, texts) =
          text_for-Sub req deltas
            (token_events-Sub (events laws json value marshals req deltas) decodes some_left) in
        (
          kept,
          some_of,
          λ id.
              content-run_batches rows ranging first second batches uc uc' db db' idle run id
              ∙ rw (read, texts id) refl,
        )
