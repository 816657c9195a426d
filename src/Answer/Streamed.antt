-- ===== src/Answer/Streamed.antt =====
-- The way of an answer to the client.
use golang_learning.Prelude.{
  ℕ, ◌≤◌, ◌<◌, ◌+◌, GoString, lookup, eq_refl, is_empty, is_empty_iff, List, [], ◌∷◌, ◌++◌,
  append-cancel, map, Option, none, some, length, All, Bool, true, false, ◌≡◌, ◌≢◌, refl, sym, ap,
  ◌∙◌, arith,
}
use golang_learning.Domain.{ChatRequest, TokenEvent, PubSubToken, ok}
use golang_learning.Publisher.{KafkaMessage, Kafka, Json, topic_stream_fe, execute}
use golang_learning.Publisher.Log.{KafkaLaws}
use golang_learning.Publisher.Process.{events, on, log-execute}
use golang_learning.StreamingWorker.{StreamToken}
use golang_learning.StreamTokens.{Remote, StreamTokens, message}
use golang_learning.StreamTokens.Relay.{RemoteLaws, execute_all}
use golang_learning.StreamTokens.Sends.{execute_all-sends}
use golang_learning.TokenServer.{TokenMessage, Outcome, msg, eof, to_pub_sub, deliver_tokens}
use golang_learning.TokenServer.Tokens.{delivery, Named, deliver_tokens_ends}
use golang_learning.Hub.{TokenHub, register, channel_capacity}
use golang_learning.Hub.Delivery.{IsValid, tokens_of, queue-register}
use golang_learning.ChatStream.{Services, streaming, TokenChunk, to_chunk, token, pump, stream}
use golang_learning.ChatStream.Turn.{stream-eq-streaming}
use golang_learning.Answer.{stream_tokens, to_event}

-- What the client gets for a part of the answer, and at its end.
abbrev pub chunk : GoString → GoString → Bool → TokenChunk
chunk id delta done = record { request_id = id; delta = delta; done = done }

abbrev pub chunks : GoString → List GoString → List TokenChunk
chunks id deltas = map (λ d. chunk id d false) deltas ++ chunk id [] true ∷ []

-- The same as tokens of the hub.
abbrev tok : GoString → GoString → Bool → PubSubToken
tok id delta done = record { request_id = id; delta = delta; done = done }

abbrev toks : GoString → List GoString → List PubSubToken
toks id deltas = map (λ d. tok id d false) deltas ++ tok id [] true ∷ []

abbrev messages : GoString → List GoString → List TokenMessage
messages id deltas =
    map (λ d. record { request_id = id; delta = d; done = false }) deltas
    ++ record { request_id = id; delta = []; done = true } ∷ []

pump-toks :
    (writes : TokenChunk → Bool)
    → ((c : TokenChunk) → writes c ≡ true)
    → (id : GoString) (deltas : List GoString)
    → pump writes (map token (toks id deltas)) ≡ (chunks id deltas, true)
unfolding pump to_chunk
pump-toks writes fine id [] = rw (fine (chunk id [] true)) refl
pump-toks writes fine id (d ∷ deltas) =
    rw (fine (chunk id d false), pump-toks writes fine id deltas) refl

tokens_of-messages :
    (id : GoString) (deltas : List GoString)
    → tokens_of id (map delivery (messages id deltas)) ≡ toks id deltas
unfolding tokens_of to_pub_sub
tokens_of-messages id [] = rw (eq_refl id) refl
tokens_of-messages id (d ∷ deltas) =
    rw (eq_refl id) (ap (◌∷◌ (tok id d false)) (tokens_of-messages id deltas))

messages-Named :
    (id : GoString) (deltas : List GoString) → is_empty id ≡ false → All Named (messages id deltas)
messages-Named id [] h = (h, tt)
messages-Named id (d ∷ deltas) h = (h, messages-Named id deltas h)

length-toks : (id : GoString) (deltas : List GoString) → length (toks id deltas) ≡ length deltas + 1
length-toks id [] = omega arith
length-toks id (d ∷ deltas) = omega (arith, length-toks id deltas)

-- What a gRPC stream of an answer and its end leave for the client.
delivered :
    (ack : Outcome) (id : GoString) (deltas : List GoString) (h : TokenHub)
    (writes : TokenChunk → Bool)
    → IsValid h
    → id ≢ []
    → length deltas < channel_capacity
    → ((c : TokenChunk) → writes c ≡ true)
    → let (c, h') = register id h in
      let (after, outcome) = deliver_tokens ack (map msg (messages id deltas) ++ eof ∷ []) h' in
      (pump writes (map token (after.queue c)) ≡ (chunks id deltas, true)) × (outcome ≡ some ack)
delivered ack id deltas h writes v named small fine =
    let (c, h') = register id h in
    let ms = messages id deltas in
    let ends =
      (deliver_tokens_ends ack ms [] h'
        (messages-Named id deltas (ground (arith, is_empty_iff id)))).0 in
    let few : length (tokens_of id (map delivery ms)) ≤ channel_capacity =
      rw (tokens_of-messages id deltas) (omega (arith, length-toks id deltas)) in
    let held = (queue-register id (map delivery ms) h v).1 few in
    (rw (ends, held, tokens_of-messages id deltas) (pump-toks writes fine id deltas), rw ends refl)

-- The tokens of an answer as processRequest hands them to Execute.
abbrev ev : GoString → GoString → Bool → TokenEvent
ev id delta done = record {
  request_id = id;
  session_id = [];
  user_message = [];
  delta = delta;
  done = done;
}

abbrev parts_of : GoString → List GoString → List TokenEvent
parts_of id deltas = map (λ d. ev id d false) deltas

parts_of-All :
    (id : GoString) (deltas : List GoString)
    → All (λ t. (t.request_id ≡ id) × (t.done ≡ false)) (parts_of id deltas)
parts_of-All id [] = tt
parts_of-All id (d ∷ deltas) = ((refl, refl), parts_of-All id deltas)

messages_of-parts :
    (r : Remote) (id : GoString) (deltas : List GoString)
    → map (message r) (parts_of id deltas ++ ev id [] true ∷ []) ≡ messages id deltas
messages_of-parts r id [] = refl
messages_of-parts r id (d ∷ deltas) =
    ap (◌∷◌ (message r (ev id d false))) (messages_of-parts r id deltas)

module _ {kafka : Kafka} (laws : KafkaLaws kafka) (json : Json) (value : TokenEvent → GoString)
    (marshals : (t : TokenEvent) → json.marshal_token t ≡ ok (value t))
    (decode : GoString → Option StreamToken) where
  routed-on :
      (req : ChatRequest) (deltas : List GoString)
      → All
          (λ t.
            decode (value t)
            ≡ some (record { request_id = t.request_id; delta = t.delta; done = t.done }))
          (events laws json value marshals req deltas)
      → map to_event (
          stream_tokens decode (
            map
              (on laws json value marshals topic_stream_fe)
              (events laws json value marshals req deltas)))
        ≡ parts_of req.request_id deltas ++ ev req.request_id [] true ∷ []
  unfolding stream_tokens to_event
  routed-on req [] decodes = rw decodes.0 refl
  routed-on req (d ∷ deltas) decodes =
      rw decodes.0 (ap (◌∷◌ (ev req.request_id d false)) (routed-on req deltas decodes.1))

  module _ {r : Remote} (remote : RemoteLaws r) (services : Services) (grpc_addr : GoString) where
    -- If a chat request is processed with success, and each token that this adds to the stream's
    -- topic is decoded as it was encoded and handed to Execute in turn, without an error, then one
    -- gRPC stream has been used and ended; and the client whose turn is open, and whose server
    -- reads that stream, gets exactly one chunk for each part of the answer, in order, and a last
    -- one, upon which the handler returns. The answer has less than 1000 parts, and every write to
    -- the client succeeds.
    pub answer_reaches_client :
        (req : ChatRequest) (deltas : List GoString) (w w' : kafka.World)
        (batch : List KafkaMessage)
        → All
            (λ t.
              decode (value t)
              ≡ some (record { request_id = t.request_id; delta = t.delta; done = t.done }))
            (events laws json value marshals req deltas)
        → execute kafka json req (ok deltas) w ≡ (w', ok tt)
        → laws.log topic_stream_fe w' ≡ laws.log topic_stream_fe w ++ batch
        → (s s' : StreamTokens r) → lookup req.request_id s.streams ≡ none
        → execute_all r (map to_event (stream_tokens decode batch)) s ≡ some s'
        → (user_id : GoString) (h h' : TokenHub) (v v' : services.World) (c : ℕ) → IsValid h
        → stream services grpc_addr req.session_id user_id (some req.content) req.request_id h v
          ≡ (v', h', streaming c)
        → req.request_id ≢ []
        → length deltas < channel_capacity
        → (ack : Outcome) (writes : TokenChunk → Bool) → ((x : TokenChunk) → writes x ≡ true)
        → (st : r.Stream) × (remote.ended st s'.world ≡ true)
          × (let received = map msg (remote.sent st s'.world) ++ eof ∷ [] in
              let after = (deliver_tokens ack received h').0 in
              pump writes (map token (after.queue c)) ≡ (chunks req.request_id deltas, true))
    answer_reaches_client req deltas w w' batch decodes processed grown s s' fresh ran user_id h h'
          v v' c valid opens named small ack writes fine =
        let id = req.request_id in
        let (parts, same, streamed, _) =
          log-execute laws json value marshals req (ok deltas) w w' processed in
        let parts_are : parts ≡ deltas = ground arith in
        let batch_is = append-cancel (laws.log topic_stream_fe w) (sym grown ∙ streamed) in
        let tokens_are =
          ap (λ b. map to_event (stream_tokens decode b)) batch_is
          ∙ routed-on req parts (rw parts_are decodes)
          ∙ ap (λ ds. parts_of id ds ++ ev id [] true ∷ []) parts_are in
        let (st, sent, ended) =
          execute_all-sends remote id (parts_of id deltas) (ev id [] true) s s' fresh
            (parts_of-All id deltas) (refl, refl) (rw tokens_are at ran) in
        let registered =
          stream-eq-streaming services grpc_addr req.session_id user_id req.content id h h' v v' c
            opens in
        let client = (delivered ack id deltas h writes valid named small fine).0 in
        (st, ended, rw (sent, messages_of-parts r id deltas) (rw registered at client))
