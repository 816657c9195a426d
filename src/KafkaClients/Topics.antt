-- ===== src/KafkaClients/Topics.antt =====
-- Who reads what the publisher writes.
use golang_learning.Prelude.{
  ℕ, GoString, ◌==◌, eq_iff, List, [], ◌∷◌, ◌++◌, append-nil, Bool, true, false, if◌then◌else◌,
  Bool-cases, ◌≡◌, inl, inr, refl, sym, ap, ◌∙◌, arith,
}
use golang_learning.Config.{Config}
use golang_learning.Domain.{ChatRequest, ChatCompleted, TokenEvent, Result, ok, err, Result-cases}
use golang_learning.Publisher.{
  KafkaMessage, Kafka, Json, Writer, writer, stream_writer, persist_writer, topic_requests,
  topic_completed, topic_stream_fe, topic_persist_llm, publish_request, publish_completed,
  publish_token, write_value, token_message,
}
use golang_learning.Publisher.Log.{KafkaLaws}
use golang_learning.KafkaClients.{
  ReaderConfig, new_worker, new_persistence_worker, new_streaming_worker,
}

-- What the publisher publishes, and the workers that read.
pub data Publication : Type 0 where
  request : ChatRequest → Publication
  completed : ChatCompleted → Publication
  token : TokenEvent → Publication

pub data Worker : Type 0 where
  llm_worker streaming_worker persistence_worker : Worker

unfoldable pub reader : ℕ → Config → Worker → ReaderConfig
reader num_cpu cfg llm_worker = (new_worker num_cpu cfg).reader
reader num_cpu cfg streaming_worker = new_streaming_worker cfg
reader num_cpu cfg persistence_worker = new_persistence_worker cfg

-- A request is for the LLM worker, a token for the two others, and a completion for nobody.
unfoldable pub is_for : Publication → Worker → Bool
is_for (request req) llm_worker = true
is_for (token t) streaming_worker = true
is_for (token t) persistence_worker = true
is_for p r = false

abbrev pub session_of : Publication → GoString
session_of (request req) = req.session_id
session_of (completed c) = c.session_id
session_of (token t) = t.session_id

module _ (kafka : Kafka) (json : Json) where
  abbrev pub marshal : Publication → Result GoString
  marshal (request req) = json.marshal_request req
  marshal (completed c) = json.marshal_completed c
  marshal (token t) = json.marshal_token t

  abbrev pub publish : Publication → kafka.World → kafka.World × Result (Unit {0})
  publish (request req) = publish_request kafka json req
  publish (completed c) = publish_completed kafka json c
  publish (token t) = publish_token kafka json t

abbrev only : {A : Type 0} → Bool → A → List A
only b a = if b then a ∷ [] else []

module _ {kafka : Kafka} (laws : KafkaLaws kafka) (json : Json) where
  open laws use {log}

  -- A write that is accepted, seen from any topic.
  grown :
      (out : Writer) (m : KafkaMessage) (w w' : kafka.World) (topic : GoString)
      → kafka.write_messages out m w ≡ (w', ok tt)
      → log topic w' ≡ log topic w ++ only (m.topic == topic) m
  grown out m w w' topic e = elim (Bool-cases (m.topic == topic)) [
    | inl own ↦
        let same = (eq_iff m.topic topic).0 own in
        rw own (
          ap (λ t. log t w') (sym same)
          ∙ laws.write_own out m w w' e
          ∙ ap (λ t. log t w ++ m ∷ []) same)
    | inr other ↦ rw other (
        laws.write_other out m w w' topic e (λ same. ground (arith, eq_iff m.topic topic))
        ∙ sym (append-nil (log topic w)))
  ]

  -- A write of a value that has been marshalled.
  written :
      (out : Writer) (topic key : GoString) (encoded : Result GoString) (w w' : kafka.World)
      → write_value kafka json out topic key encoded w ≡ (w', ok tt)
      → (value : GoString) × (encoded ≡ ok value)
        × ((other : GoString)
            → log other w'
              ≡ log other w
                ++ only (topic == other) (record { topic = topic; key = key; value = value }))
  written out topic key (err x) w w' e = absurd (ground arith)
  written out topic key (ok value) w w' e = (
    value,
    refl,
    λ other. grown out (record { topic = topic; key = key; value = value }) w w' other e,
  )

  -- The two writes of a token.
  written_both :
      (t : TokenEvent) (w w' : kafka.World)
      → publish_token kafka json t w ≡ (w', ok tt)
      → (value : GoString) × (json.marshal_token t ≡ ok value)
        × ((other : GoString)
            → log other w'
              ≡ (log other w
                  ++ only
                      (topic_stream_fe == other)
                      (token_message kafka json topic_stream_fe t value))
                ++ only
                    (topic_persist_llm == other)
                    (token_message kafka json topic_persist_llm t value))
  unfolding publish_token
  written_both t w w' e = elim (Result-cases (json.marshal_token t)) [
    | inr (x, wrong) ↦ absurd (ground arith)
    | inl (value, encoded) ↦
        let first = token_message kafka json topic_stream_fe t value in
        let second = token_message kafka json topic_persist_llm t value in
        let sent = kafka.write_messages stream_writer first w in
        elim (Result-cases sent.1) [
          | inr (x, wrong) ↦ absurd (ground arith)
          | inl (_, fine) ↦ (
            value,
            encoded,
            λ other.
                grown persist_writer second sent.0 w' other (ground arith)
                ∙ ap (λ l. l ++ only (topic_persist_llm == other) second)
                    (grown stream_writer first w sent.0 other
                      (ap (λ (r : Result (Unit {0})). (sent.0, r)) fine)),
          )
        ]
  ]

  -- What a worker finds at the end of its topic.
  abbrev pub Finds :
      ℕ → Config → Publication → GoString → kafka.World → kafka.World → Worker → Type 0
  Finds num_cpu cfg p value w w' r =
      let topic = (reader num_cpu cfg r).topic in
      log topic w'
      ≡ log topic w
        ++ (if is_for p r
            then record { topic = topic; key = session_of p; value = value } ∷ []
            else [])

  -- When a publication has been accepted, each worker whose reader it is for finds one more message
  -- at the end of its topic, the publication as it was marshalled, under the key of the session;
  -- and the topics of the others are as they were.
  pub topics_meet :
      (num_cpu : ℕ) (cfg : Config) (p : Publication) (w w' : kafka.World)
      → publish kafka json p w ≡ (w', ok tt)
      → (value : GoString) × (marshal kafka json p ≡ ok value)
        × ((r : Worker) → Finds num_cpu cfg p value w w' r)
  unfolding publish_request publish_completed reader is_for new_worker new_persistence_worker
      new_streaming_worker topic_requests topic_completed topic_stream_fe topic_persist_llm ◌==◌
  topics_meet n cfg (request req) w w' e =
      let (value, encoded, logs) =
        written writer topic_requests req.session_id (json.marshal_request req) w w' e in
      (
        value,
        encoded,
        λ r. elim r as (Finds n cfg (request req) value w w') [
          | llm_worker ↦ logs topic_requests
          | streaming_worker ↦ logs topic_stream_fe
          | persistence_worker ↦ logs topic_persist_llm
        ],
      )
  topics_meet n cfg (completed c) w w' e =
      let (value, encoded, logs) =
        written writer topic_completed c.session_id (json.marshal_completed c) w w' e in
      (
        value,
        encoded,
        λ r. elim r as (Finds n cfg (completed c) value w w') [
          | llm_worker ↦ logs topic_requests
          | streaming_worker ↦ logs topic_stream_fe
          | persistence_worker ↦ logs topic_persist_llm
        ],
      )
  topics_meet n cfg (token t) w w' e =
      let (value, encoded, logs) = written_both t w w' e in
      (
        value,
        encoded,
        λ r. elim r as (Finds n cfg (token t) value w w') [
          | llm_worker ↦ logs topic_requests ∙ append-nil (log topic_requests w ++ [])
          | streaming_worker ↦ logs topic_stream_fe ∙ append-nil (log topic_stream_fe w ++ _)
          | persistence_worker ↦
              logs topic_persist_llm
              ∙ ap (λ l. l ++ token_message kafka json topic_persist_llm t value ∷ [])
                  (append-nil (log topic_persist_llm w))
        ],
      )
