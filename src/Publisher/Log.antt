-- ===== src/Publisher/Log.antt =====
-- What the topics hold, and what publishing one token adds to them.
use golang_learning.Prelude.{
  GoString, List, [], ◌∷◌, ◌++◌, append-nil, ◌≡◌, ◌≢◌, ◌⊎◌, inl, inr, refl, sym, ap, ◌∙◌, arith,
}
use golang_learning.Domain.{TokenEvent, Error, Result, ok, err, Result-cases}
use golang_learning.Publisher.{
  KafkaMessage, Writer, stream_writer, persist_writer, Kafka, Json, topic_stream_fe,
  topic_persist_llm, publish_token, token_message,
}

-- `log` is what the writers of a topic have accepted, in order: a write that is accepted puts the
-- message at its end and touches no other topic; one that fails touches none. That the messages
-- are read again is a hypothesis of the theorems in Answer.
pub record KafkaLaws (kafka : Kafka) : Type 1 where
  pub log : GoString → kafka.World → List KafkaMessage
  pub write_own :
      (out : Writer) (m : KafkaMessage) (w w' : kafka.World)
      → kafka.write_messages out m w ≡ (w', ok tt)
      → log m.topic w' ≡ log m.topic w ++ m ∷ []
  pub write_other :
      (out : Writer) (m : KafkaMessage) (w w' : kafka.World) (topic : GoString)
      → kafka.write_messages out m w ≡ (w', ok tt)
      → m.topic ≢ topic
      → log topic w' ≡ log topic w
  pub write_fails :
      (out : Writer) (m : KafkaMessage) (w w' : kafka.World) (e : Error)
      → kafka.write_messages out m w ≡ (w', err e)
      → (topic : GoString) → log topic w' ≡ log topic w

topics_differ : topic_stream_fe ≢ topic_persist_llm
unfolding topic_stream_fe topic_persist_llm
topics_differ e = cc

module _ {kafka : Kafka} (laws : KafkaLaws kafka) (json : Json) where
  open laws use {log}

  abbrev stream_message : TokenEvent → GoString → KafkaMessage
  stream_message = token_message kafka json topic_stream_fe

  abbrev persist_message : TokenEvent → GoString → KafkaMessage
  persist_message = token_message kafka json topic_persist_llm

  -- The first topic takes the message, the second is as it was.
  streamed :
      (token : TokenEvent) (value : GoString) (w w₁ : kafka.World)
      → kafka.write_messages stream_writer (stream_message token value) w ≡ (w₁, ok tt)
      → (log topic_stream_fe w₁ ≡ log topic_stream_fe w ++ stream_message token value ∷ [])
        × (log topic_persist_llm w₁ ≡ log topic_persist_llm w)
  streamed token value w w₁ e = (
    laws.write_own stream_writer (stream_message token value) w w₁ e,
    laws.write_other stream_writer (stream_message token value) w w₁ topic_persist_llm e
        topics_differ,
  )

  persisted :
      (token : TokenEvent) (value : GoString) (w w₁ : kafka.World)
      → kafka.write_messages persist_writer (persist_message token value) w ≡ (w₁, ok tt)
      → (log topic_persist_llm w₁ ≡ log topic_persist_llm w ++ persist_message token value ∷ [])
        × (log topic_stream_fe w₁ ≡ log topic_stream_fe w)
  persisted token value w w₁ e = (
    laws.write_own persist_writer (persist_message token value) w w₁ e,
    laws.write_other persist_writer (persist_message token value) w w₁ topic_stream_fe e
        (λ same. topics_differ (sym same)),
  )

  -- A token that is published stands at the end of both topics, with the same value under the
  -- session's key. One that is not may stand in the first topic only: never in the second alone.
  pub publish_token_cases :
      (token : TokenEvent) (w w' : kafka.World) (result : Result (Unit {0}))
      → publish_token kafka json token w ≡ (w', result)
      → ((value : GoString) × (result ≡ ok tt)
          × (json.marshal_token token ≡ ok value)
          × (log topic_stream_fe w' ≡ log topic_stream_fe w ++ stream_message token value ∷ [])
          × (log topic_persist_llm w'
              ≡ log topic_persist_llm w ++ persist_message token value ∷ []))
        ⊎ ((e : Error) × (sent : List KafkaMessage) × (result ≡ err e)
            × ((sent ≡ [])
                ⊎ ((value : GoString) × (json.marshal_token token ≡ ok value)
                    × (sent ≡ stream_message token value ∷ [])))
            × (log topic_stream_fe w' ≡ log topic_stream_fe w ++ sent)
            × (log topic_persist_llm w' ≡ log topic_persist_llm w))
  unfolding publish_token
  publish_token_cases token w w' result e = elim (Result-cases (json.marshal_token token)) [
    | inl (value, j) ↦
        let sent = kafka.write_messages stream_writer (stream_message token value) w in
        elim (Result-cases sent.1) [
          | inl (_, o) ↦
              let (own, other) =
                streamed token value w sent.0 (ap (λ (r : Result (Unit {0})). (sent.0, r)) o) in
              let kept = kafka.write_messages persist_writer (persist_message token value) sent.0 in
              elim (Result-cases kept.1) [
                | inl (_, o') ↦
                    let ends : kept ≡ (w', result) = ground arith in
                    let (own', other') =
                      persisted token value sent.0 w'
                        (ends ∙ ap (λ (r : Result (Unit {0})). (w', r)) (ground arith)) in
                    inl (value, ground arith, j, other' ∙ own, rw other at own')
                | inr (x, f) ↦
                    let ends : kept ≡ (w', err x) = ground arith in
                    let same =
                      laws.write_fails persist_writer (persist_message token value) sent.0 w' x
                        ends in
                    inr (
                      x,
                      stream_message token value ∷ [],
                      ground arith,
                      inr (value, j, refl),
                      same topic_stream_fe ∙ own,
                      same topic_persist_llm ∙ other,
                    )
              ]
          | inr (x, f) ↦
              let ends : sent ≡ (w', err x) = ground arith in
              let same = laws.write_fails stream_writer (stream_message token value) w w' x ends in
              inr (
                x,
                [],
                ground arith,
                inl refl,
                same topic_stream_fe ∙ sym (append-nil (log topic_stream_fe w)),
                same topic_persist_llm,
              )
        ]
    | inr (x, j) ↦
        let same : w' ≡ w = ground arith in
        inr (
          x,
          [],
          ground arith,
          inl refl,
          rw same (sym (append-nil (log topic_stream_fe w))),
          rw same refl,
        )
  ]
