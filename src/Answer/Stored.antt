-- ===== src/Answer/Stored.antt =====
-- The way of an answer into the database.
use golang_learning.Prelude.{
  GoString, MapOrder, ◌==◌, List, [], ◌∷◌, ◌++◌, append-cancel, map, concat, Option, some,
  if◌then◌else◌, All, ◌≡◌, refl, sym, ap, ◌∙◌, arith, Bool-cases, inl, inr,
}
use golang_learning.Domain.{ChatRequest, TokenEvent, role_assistant, ok}
use golang_learning.Publisher.{KafkaMessage, Kafka, Json, topic_persist_llm, execute}
use golang_learning.Publisher.Log.{KafkaLaws}
use golang_learning.Publisher.Process.{events, on, log-execute}
use golang_learning.Persist.{TokenBuffer, PersistSession, or_empty}
use golang_learning.Persist.Buffers.{tokens_for}
use golang_learning.Persist.Batches.{run_batches, text_for}
use golang_learning.Persist.Stored.{content-run_batches}
use golang_learning.Store.{Database, message_store}
use golang_learning.Store.Content.{DatabaseLaws}
use golang_learning.Answer.{token_events}

module _ {kafka : Kafka} (laws : KafkaLaws kafka) (json : Json) (value : TokenEvent → GoString)
    (marshals : (t : TokenEvent) → json.marshal_token t ≡ ok (value t))
    (decode : GoString → Option TokenEvent) where
  token_events-on :
      (ts : List TokenEvent)
      → All (λ t. decode (value t) ≡ some t) ts
      → token_events decode (map (on laws json value marshals topic_persist_llm) ts) ≡ ts
  unfolding token_events
  token_events-on [] decodes = refl
  token_events-on (t ∷ ts) decodes = rw decodes.0 (ap (◌∷◌ t) (token_events-on ts decodes.1))

  -- The text of a request among the events of an answer.
  text_for-events :
      (req : ChatRequest) (deltas : List GoString) (id : GoString)
      → text_for id (events laws json value marshals req deltas)
        ≡ (if req.request_id == id then concat deltas else [])
  unfolding tokens_for
  text_for-events req [] id = ground arith
  text_for-events req (delta ∷ deltas) id = elim (Bool-cases (req.request_id == id)) [
    | inl own ↦ rw (own, text_for-events req deltas id, own) refl
    | inr other ↦ rw (other, text_for-events req deltas id, other) refl
  ]

  module _ {d : Database} (rows : DatabaseLaws d) (ranging : MapOrder (Unit {0}))
      (first second : MapOrder TokenBuffer) where
    -- If a request is processed with success, and the persistence worker decodes what that adds to
    -- its topic as it was encoded and flushes it in any batches without an error, then the
    -- assistant's row of the request holds what it held, followed by all the parts of the answer,
    -- and the rows of all other requests hold what they held.
    pub answer_is_stored :
        (req : ChatRequest) (deltas : List GoString) (w w' : kafka.World)
        (batch : List KafkaMessage)
        → All (λ t. decode (value t) ≡ some t) (events laws json value marshals req deltas)
        → execute kafka json req (ok deltas) w ≡ (w', ok tt)
        → laws.log topic_persist_llm w' ≡ laws.log topic_persist_llm w ++ batch
        → (batches : List (List TokenEvent)) (uc uc' : PersistSession) (db db' : d.Db)
        → concat batches ≡ token_events decode batch
        → uc.buffers ≡ []
        → run_batches (message_store d ranging) first second batches uc db ≡ some (uc', db')
        → (id : GoString)
        → or_empty (rows.content db' id role_assistant)
          ≡ or_empty (rows.content db id role_assistant)
            ++ (if req.request_id == id then concat deltas else [])
    answer_is_stored req deltas w w' batch decodes processed grown batches uc uc' db db' read idle
          run id =
        let (parts, same, _, persisted) =
          log-execute laws json value marshals req (ok deltas) w w' processed in
        let batch_is = append-cancel (laws.log topic_persist_llm w) (sym grown ∙ persisted) in
        let parts_are : parts ≡ deltas = ground arith in
        let events_are =
          read
          ∙ ap (token_events decode) batch_is
          ∙ token_events-on (events laws json value marshals req parts) (rw parts_are decodes) in
        content-run_batches rows ranging first second batches uc uc' db db' idle run id
        ∙ rw (events_are, text_for-events req parts id, parts_are) refl
