-- ===== src/ChatStream.antt =====
-- internal/adapter/controller/http/handler/chat_stream.go with internal/usecase/send_message.go:
-- the request that starts a chat turn and streams its tokens back. The owner store, the callback
-- store and the publisher (internal/usecase/boundary.go) are the parameter `Services`, over one
-- world that they change.
pub mod Turn
pub mod Keeps
mod Tests
use golang_learning.Prelude.{
  ℕ, GoString, bytes, is_empty, Bool, true, false, List, [], ◌∷◌, Option, none, some, if◌then◌else◌,
}
use golang_learning.Domain.{ChatRequest, PubSubToken, Error, Result, ok, err}
use golang_learning.Hub.{TokenHub, register, unregister}

pub record Services : Type 1 where
  pub World : Type 0
  pub claim_owner : GoString → GoString → World → World × Result Bool
  pub set_callback : GoString → GoString → World → World × Result (Unit {0})
  pub publish_request : ChatRequest → World → World × Result (Unit {0})

-- streamOutputPort
pub record StreamOutputPort : Type 0 where
  pub request_id : GoString
  pub err : Option Error

-- What SendMessageUseCase.Execute presents.
abbrev pub presented : GoString → Result (Unit {0}) → StreamOutputPort
presented request_id (ok _) = record { request_id = request_id; err = none }
presented request_id (err e) = record { request_id = []; err = some e }

-- An HTTP status with the text of its error, or the start of the stream on a channel of the hub.
pub data Response : Type 0 where
  refused : ℕ → GoString → Response
  failed : Error → Response
  streaming : ℕ → Response

pub record TokenChunk : Type 0 where
  pub request_id : GoString
  pub delta : GoString
  pub done : Bool

unfoldable pub to_chunk : PubSubToken → TokenChunk
to_chunk t = record { request_id = t.request_id; delta = t.delta; done = t.done }

-- What the select of the loop finds: the request is cancelled, or a token.
pub data Selected : Type 0 where
  cancelled : Selected
  token : PubSubToken → Selected

-- The loop of Stream over what select finds: the chunks that are written, and whether the handler
-- has returned. `writes` is the outcome of Encode.
unfoldable pub pump : (TokenChunk → Bool) → List Selected → List TokenChunk × Bool
unfolding to_chunk
pump writes [] = ([], false)
pump writes (cancelled ∷ rest) = ([], true)
pump writes (token t ∷ rest) =
    let after = pump writes rest in
    if writes (to_chunk t)
    then (to_chunk t ∷ (if t.done then [] else after.0), if t.done then true else after.1)
    else ([], true)

module _ (services : Services) (grpc_addr : GoString) where
  open services use {World, claim_owner, set_callback, publish_request}

  -- SendMessageUseCase.Execute
  unfoldable pub send_message : GoString → GoString → GoString → World → World × StreamOutputPort
  send_message session_id content request_id w =
      let (w', published) =
        publish_request
          (record {
            request_id = request_id;
            session_id = session_id;
            content = content;
            timestamp = 0;
          })
          w in
      (w', presented request_id published)

  -- The response to what was presented; on an error the deferred cleanup unregisters the request.
  abbrev pub respond :
      GoString → ℕ → TokenHub → World × StreamOutputPort → World × TokenHub × Response
  respond request_id channel h (w, out) = elim out.err [
    | none ↦ (w, h, streaming channel)
    | some e ↦ (w, unregister request_id h, failed e)
  ]

  -- Stream from the claim on: register, set the callback, whose failure is only logged, and publish.
  unfoldable pub open_stream :
      GoString → GoString → GoString → TokenHub → World → World × TokenHub × Response
  unfolding send_message
  open_stream session_id content request_id h w =
      let (channel, h') = register request_id h in
      let (w₁, _) = set_callback request_id grpc_addr w in
      respond request_id channel h' (send_message session_id content request_id w₁)

  abbrev pub claimed :
      GoString → GoString → GoString → TokenHub → World × Result Bool → World × TokenHub × Response
  claimed session_id content request_id h (w, ok true) =
      open_stream session_id content request_id h w
  claimed session_id content request_id h (w, ok false) = (w, h, refused 403 (bytes "forbidden"))
  claimed session_id content request_id h (w, err e) = (w, h, refused 403 (bytes "forbidden"))

  -- Stream up to its loop. `body` is the content of the JSON body, if it binds; `request_id` is
  -- the new UUID.
  unfoldable pub stream :
      GoString
      → GoString
      → Option GoString
      → GoString
      → TokenHub
      → World
      → World × TokenHub × Response
  unfolding open_stream
  stream session_id user_id none request_id h w = (w, h, refused 400 (bytes "content is required"))
  stream session_id user_id (some content) request_id h w =
      if is_empty content
      then (w, h, refused 400 (bytes "content is required"))
      else claimed session_id content request_id h (claim_owner session_id user_id w)
