-- ===== src/ChatStream/Turn.antt =====
-- What a chat turn does: who is refused, what is published, and what the client receives.
use golang_learning.Prelude.{
  ℕ, ◌≤◌, GoString, bytes, is_empty_iff, Bool, true, List, [], ◌∷◌, map, some, if◌then◌else◌,
  length, ◌≡◌, ◌≢◌, refl, arith,
}
use golang_learning.Domain.{PubSubToken, Error, Result, ok, err, ChatRequest}
use golang_learning.Hub.{TokenHub, register, unregister, channel_capacity}
use golang_learning.Hub.Delivery.{IsValid, deliver_all, tokens_of, queue-register}
use golang_learning.ChatStream.{
  Services, refused, failed, streaming, TokenChunk, to_chunk, token, pump, stream,
}

-- The tokens up to the first that is the last of its request.
unfoldable pub through_done : List PubSubToken → List PubSubToken
through_done [] = []
through_done (t ∷ ts) = t ∷ (if t.done then [] else through_done ts)

pump-tokens :
    (writes : TokenChunk → Bool)
    → ((c : TokenChunk) → writes c ≡ true)
    → (ts : List PubSubToken) → (pump writes (map token ts)).0 ≡ map to_chunk (through_done ts)
unfolding pump through_done
pump-tokens writes fine [] = refl
pump-tokens writes fine (t ∷ ts) = ground (arith, fine (to_chunk t), pump-tokens writes fine ts)

module _ (services : Services) (grpc_addr : GoString) where
  open services use {World, claim_owner, set_callback, publish_request}

  -- A stream that is open has registered its request.
  pub stream-eq-streaming :
      (session_id user_id content id : GoString) (h h' : TokenHub) (w w' : World) (c : ℕ)
      → stream services grpc_addr session_id user_id (some content) id h w ≡ (w', h', streaming c)
      → register id h ≡ (c, h')
  unfolding stream
  stream-eq-streaming session_id user_id content id h h' w w' c e = ground arith

  -- Without content the answer is 400 and nothing happens. If the claim of the session fails or
  -- finds another owner, the answer is 403: no channel is registered and nothing is published.
  pub stream-refuses :
      (session_id user_id content id : GoString) (h : TokenHub) (w w' : World) (claim : Result Bool)
      → claim_owner session_id user_id w ≡ (w', claim)
      → ((content ≡ [])
          → stream services grpc_addr session_id user_id (some content) id h w
            ≡ (w, h, refused 400 (bytes "content is required")))
        × (content ≢ []
            → claim ≢ ok true
            → stream services grpc_addr session_id user_id (some content) id h w
              ≡ (w', h, refused 403 (bytes "forbidden")))
  unfolding stream
  stream-refuses session_id user_id content id h w w' claim e =
      (λ empty. rw empty refl, λ filled other. ground (arith, is_empty_iff content))

  abbrev request : GoString → GoString → GoString → ChatRequest
  request session_id content id = record {
    request_id = id;
    session_id = session_id;
    content = content;
    timestamp = 0;
  }

  -- For the owner, the channel is registered, the callback address is set and the request is
  -- published, in this order; a failure of the second changes nothing, and a failure of the third
  -- answers with the error and unregisters the request.
  pub stream-publishes :
      (session_id user_id content id : GoString) (h : TokenHub) (w w₁ : World)
      → content ≢ []
      → claim_owner session_id user_id w ≡ (w₁, ok true)
      → let (c, h') = register id h in
        let (w₂, _) = set_callback id grpc_addr w₁ in
        let (w₃, published) = publish_request (request session_id content id) w₂ in
        let outcome = stream services grpc_addr session_id user_id (some content) id h w in
        (published ≡ ok tt → outcome ≡ (w₃, h', streaming c))
        × ((e : Error) → published ≡ err e → outcome ≡ (w₃, unregister id h', failed e))
  unfolding stream
  stream-publishes session_id user_id content id h w w₁ filled e =
      (λ p. ground (arith, is_empty_iff content), λ x p. ground (arith, is_empty_iff content))

  -- Once the stream of a turn is open, any sequence of deliveries, to this request and to others,
  -- reaches the client as the chunks of the request's own tokens, in their order, up to the first
  -- that is the last; no more than 1000 may be waiting, and every write must succeed.
  pub stream-delivers :
      (session_id user_id content id : GoString) (h h' : TokenHub) (w w' : World) (c : ℕ)
      (writes : TokenChunk → Bool) (ts : List (GoString × PubSubToken))
      → IsValid h
      → stream services grpc_addr session_id user_id (some content) id h w ≡ (w', h', streaming c)
      → length (tokens_of id ts) ≤ channel_capacity
      → ((chunk : TokenChunk) → writes chunk ≡ true)
      → (pump writes (map token ((deliver_all ts h').queue c))).0
        ≡ map to_chunk (through_done (tokens_of id ts))
  stream-delivers session_id user_id content id h h' w w' c writes ts v e l fine =
      let registered = stream-eq-streaming session_id user_id content id h h' w w' c e in
      let whole = (queue-register id ts h v).1 l in
      let same : (deliver_all ts h').queue c ≡ tokens_of id ts = rw registered at whole in
      rw same (pump-tokens writes fine (tokens_of id ts))
