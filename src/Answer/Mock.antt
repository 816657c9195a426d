-- ===== src/Answer/Mock.antt =====
-- The ways of an answer of the mock model: every response arrives as it is written in
-- internal/framework/llm/mock.go.
use golang_learning.Prelude.{
  ℕ, ◌<◌, length, GoString, MapOrder, eq_refl, lookup, Bool, true, false, List, [], ◌∷◌, ◌++◌, map,
  concat, Option, none, some, In, All, All-In, ◌≡◌, ◌≢◌, refl, ap, ◌∙◌,
}
use golang_learning.Domain.{ChatRequest, TokenEvent, role_assistant, ok}
use golang_learning.Publisher.{
  KafkaMessage, Kafka, Json, topic_stream_fe, topic_persist_llm, execute,
}
use golang_learning.Publisher.Log.{KafkaLaws}
use golang_learning.Publisher.Process.{events}
use golang_learning.Persist.{TokenBuffer, PersistSession, or_empty}
use golang_learning.Persist.Batches.{run_batches}
use golang_learning.Store.{Database, message_store}
use golang_learning.Store.Content.{DatabaseLaws}
use golang_learning.StreamingWorker.{StreamToken}
use golang_learning.StreamTokens.{Remote, StreamTokens}
use golang_learning.StreamTokens.Relay.{RemoteLaws, execute_all}
use golang_learning.TokenServer.{Outcome, msg, eof, deliver_tokens}
use golang_learning.Hub.{TokenHub, channel_capacity}
use golang_learning.Hub.Delivery.{IsValid}
use golang_learning.ChatStream.{Services, streaming, TokenChunk, token, pump, stream}
use golang_learning.MockLlm.{Runes, responses, text, generate}
use golang_learning.MockLlm.Parts.{generate_lem}
use golang_learning.Answer.{stream_tokens, to_event, token_events}
use golang_learning.Answer.Stored.{answer_is_stored}
use golang_learning.Answer.Streamed.{chunks, answer_reaches_client}

abbrev never : ℕ → Bool
never i = false

-- The parts that are sent for a response.
abbrev pub parts_of : Runes → List GoString
parts_of = generate never

-- What generate_lem says of a response.
parts_of-fits :
    (response : Runes)
    → In response responses
    → (length (parts_of response) < channel_capacity) × (concat (parts_of response) ≡ text response)
parts_of-fits response i =
    let (short, spells) =
      All-In
        (λ response.
          (length (parts_of response) < channel_capacity)
          × (((i : ℕ) → never i ≡ false) → concat (parts_of response) ≡ text response))
        responses (generate_lem never) i in
    (short, spells (λ j. refl))

-- The texts of the chunks of an answer, put together.
abbrev pub text_of : List TokenChunk → GoString
text_of cs = concat (map (λ c. c.delta) cs)

text_of-chunks :
    (id : GoString) (deltas : List GoString) → text_of (chunks id deltas) ≡ concat deltas
text_of-chunks id [] = refl
text_of-chunks id (d ∷ deltas) = ap (◌++◌ d) (text_of-chunks id deltas)

module _ {kafka : Kafka} (laws : KafkaLaws kafka) (json : Json) (value : TokenEvent → GoString)
    (marshals : (t : TokenEvent) → json.marshal_token t ≡ ok (value t)) where
  module _ (decode : GoString → Option TokenEvent) {d : Database} (rows : DatabaseLaws d)
      (ranging : MapOrder (Unit {0})) (first second : MapOrder TokenBuffer) where
    -- If a request is processed with success by the mock model, which is not cancelled, and the
    -- persistence worker decodes what that adds to its topic as it was encoded and flushes it in
    -- any batches without an error, then the response that was picked is appended to the
    -- assistant's row of the request.
    pub mock_answer_is_stored :
        (req : ChatRequest) (response : Runes) (w w' : kafka.World) (batch : List KafkaMessage)
        → In response responses
        → All
            (λ t. decode (value t) ≡ some t)
            (events laws json value marshals req (parts_of response))
        → execute kafka json req (ok (parts_of response)) w ≡ (w', ok tt)
        → laws.log topic_persist_llm w' ≡ laws.log topic_persist_llm w ++ batch
        → (batches : List (List TokenEvent)) (uc uc' : PersistSession) (db db' : d.Db)
        → concat batches ≡ token_events decode batch
        → uc.buffers ≡ []
        → run_batches (message_store d ranging) first second batches uc db ≡ some (uc', db')
        → or_empty (rows.content db' req.request_id role_assistant)
          ≡ or_empty (rows.content db req.request_id role_assistant) ++ text response
    mock_answer_is_stored req response w w' batch i decodes processed grown batches uc uc' db db'
          read idle run =
        let id = req.request_id in
        answer_is_stored laws json value marshals decode rows ranging first second req
          (parts_of response) w w' batch decodes processed grown batches uc uc' db db' read idle run
          id
        ∙ rw (eq_refl id, (parts_of-fits response i).1) refl

  module _ (decode : GoString → Option StreamToken) {r : Remote} (remote : RemoteLaws r)
      (services : Services) (grpc_addr : GoString) where
    -- If a request is processed with success by the mock model, which is not cancelled, and each
    -- token that this adds to the stream's topic is decoded as it was encoded and handed to Execute
    -- in turn, without an error, then one gRPC stream has been used and ended; and the client whose
    -- turn is open, and whose server reads that stream, gets chunks whose texts make up the
    -- response that was picked, upon which the handler returns, if every write to the client
    -- succeeds.
    pub mock_answer_reaches_client :
        (req : ChatRequest) (response : Runes) (w w' : kafka.World) (batch : List KafkaMessage)
        → In response responses
        → All
            (λ t.
              decode (value t)
              ≡ some (record { request_id = t.request_id; delta = t.delta; done = t.done }))
            (events laws json value marshals req (parts_of response))
        → execute kafka json req (ok (parts_of response)) w ≡ (w', ok tt)
        → laws.log topic_stream_fe w' ≡ laws.log topic_stream_fe w ++ batch
        → (s s' : StreamTokens r) → lookup req.request_id s.streams ≡ none
        → execute_all r (map to_event (stream_tokens decode batch)) s ≡ some s'
        → (user_id : GoString) (h h' : TokenHub) (v v' : services.World) (c : ℕ) → IsValid h
        → stream services grpc_addr req.session_id user_id (some req.content) req.request_id h v
          ≡ (v', h', streaming c)
        → req.request_id ≢ []
        → (ack : Outcome) (writes : TokenChunk → Bool) → ((x : TokenChunk) → writes x ≡ true)
        → (st : r.Stream) × (remote.ended st s'.world ≡ true)
          × (let received = map msg (remote.sent st s'.world) ++ eof ∷ [] in
              let after = (deliver_tokens ack received h').0 in
              let (written, returned) = pump writes (map token (after.queue c)) in
              (text_of written ≡ text response) × (returned ≡ true))
    mock_answer_reaches_client req response w w' batch i decodes processed grown s s' fresh ran
          user_id h h' v v' c valid opens named ack writes fine =
        let deltas = parts_of response in
        let small = (parts_of-fits response i).0 in
        let (st, ended, client) =
          answer_reaches_client laws json value marshals decode remote services grpc_addr req deltas
            w w' batch decodes processed grown s s' fresh ran user_id h h' v v' c valid opens named
            small ack writes fine in
        (
          st,
          ended,
          (
            ap (λ (p : List TokenChunk × Bool). text_of p.0) client
                ∙ text_of-chunks req.request_id deltas
                ∙ (parts_of-fits response i).1,
            ap (λ (p : List TokenChunk × Bool). p.1) client,
          ),
        )
