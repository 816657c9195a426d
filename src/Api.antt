-- ===== src/Api.antt =====
-- cmd/api/main.go, with RegisterRoutes of internal/adapter/controller/http/handler/chat.go and
-- chat_stream.go: the API server as a whole, one hub, Redis, Kafka and the database behind its
-- three endpoints and the gRPC server. gin finds the endpoint of a request and its session id.
pub mod Sessions
pub mod Access
mod Tests
use golang_learning.Prelude.{
  ℕ, GoString, bytes, Bool, true, false, List, [], ◌∷◌, ◌++◌, Option, none, some, if◌then◌else◌,
}
use golang_learning.Domain.{Message, PubSubToken, Result, ok, err}
use golang_learning.Config.{Config}
use golang_learning.Store.Interface.{IMessageStore}
use golang_learning.Publisher.{Kafka, Json, publish_request, publish_completed, publish_token}
use golang_learning.Cache.{
  RecordCodec, claim_owner, get_owner, set_callback, get_callback, save_message, get_history,
  delete_session,
}
use golang_learning.Boundary.{
  IConversationCache, IEventPublisher, ICallbackStore, ITokenHub, ISessionOwnerStore,
}
use golang_learning.Cache.Client.{Redis}
use golang_learning.Hub.{TokenHub, register, unregister, deliver}
use golang_learning.Jwt.{JwtLibrary, Verdict, abort, next, jwt}
use golang_learning.ChatHandler
use golang_learning.ChatHandler.{Gateways, Reply}
use golang_learning.ChatStream.{Services, Response, stream}

pub data Endpoint : Type 0 where
  chat history history_db : Endpoint

-- The method and the pattern under which an endpoint is registered; all three are behind the JWT
-- middleware.
unfoldable pub route : Endpoint → GoString × GoString
unfolding bytes
route chat = (bytes "POST", bytes "/chat/:session_id")
route history = (bytes "GET", bytes "/history/:session_id")
route history_db = (bytes "GET", bytes "/history/:session_id/db")

-- What the server is made of.
pub record Backend : Type 1 where
  pub redis : Redis
  pub kafka : Kafka
  pub json : Json
  pub codec : RecordCodec
  pub store : IMessageStore
  pub library : JwtLibrary

-- `body` is the content of the JSON body, if it binds, and `request_id` the UUID that the chat
-- endpoint makes.
pub record Request : Type 0 where
  pub endpoint : Endpoint
  pub session_id : GoString
  pub authorization : GoString
  pub body : Option GoString
  pub request_id : GoString

-- Status 401 with a text, or what the handlers answer.
pub data ApiReply : Type 0 where
  unauthorized : GoString → ApiReply
  history_reply : Reply → ApiReply
  chat_reply : Response → ApiReply

module _ (b : Backend) where
  open b use {redis, kafka, json, codec, store, library}

  pub record World : Type 0 where
    pub in_redis : redis.World
    pub in_kafka : kafka.World
    pub in_db : store.Db

  pub record Api : Type 0 where
    pub hub : TokenHub
    pub world : World

  abbrev pub on_redis : {A : Type 0} → World → redis.World × Result A → World × Result A
  on_redis w (r, result) = (record w { in_redis = r }, result)

  abbrev pub on_kafka : {A : Type 0} → World → kafka.World × Result A → World × Result A
  on_kafka w (k, result) = (record w { in_kafka = k }, result)

  abbrev pub as_conversation_cache : ℕ → IConversationCache
  as_conversation_cache ttl = record {
    World = redis.World;
    save_message = λ now msg w. save_message redis codec now ttl msg w;
    get_history = λ session_id w. get_history redis codec session_id w;
    delete_session = λ session_id w. delete_session redis codec session_id w;
  }

  abbrev pub as_session_owner_store : ISessionOwnerStore
  as_session_owner_store = record {
    World = redis.World;
    claim_owner = λ session_id user_id w. claim_owner redis session_id user_id w;
    get_owner = λ session_id w. get_owner redis session_id w;
  }

  abbrev pub as_callback_store : ICallbackStore
  as_callback_store = record {
    World = redis.World;
    set_callback = λ request_id addr w. set_callback redis request_id addr w;
    get_callback = λ request_id w. get_callback redis request_id w;
  }

  abbrev pub as_message_store : IMessageStore
  as_message_store = store

  abbrev pub as_event_publisher : IEventPublisher
  as_event_publisher = record {
    World = kafka.World;
    publish_request = λ req w. publish_request kafka json req w;
    publish_completed = λ completed w. publish_completed kafka json completed w;
    publish_token = λ t w. publish_token kafka json t w;
  }

  abbrev pub as_token_hub : ITokenHub
  as_token_hub = record {
    Hub = TokenHub;
    register = λ request_id h. register request_id h;
    unregister = λ request_id h. unregister request_id h;
    deliver = λ request_id t h. deliver request_id t h;
  }

  -- The services of the chat handler, and the gateways of the history handler.
  abbrev pub services : Services
  services = record {
    World = World;
    claim_owner = λ session_id user_id w.
        on_redis w (as_session_owner_store.claim_owner session_id user_id w.in_redis);
    set_callback =
        λ request_id addr w. on_redis w (as_callback_store.set_callback request_id addr w.in_redis);
    publish_request = λ req w. on_kafka w (as_event_publisher.publish_request req w.in_kafka);
  }

  abbrev pub gateways : Gateways
  gateways = record {
    World = World;
    get_owner = λ session_id w. as_session_owner_store.get_owner session_id w.in_redis;
    cached_history = λ session_id w. get_history redis codec session_id w.in_redis;
    stored_history = λ session_id w. as_message_store.get_history session_id w.in_db;
  }

  module _ (cfg : Config) where
    abbrev pub chatted : World × TokenHub × Response → Api × ApiReply
    chatted (w, h, response) = (record { hub = h; world = w }, chat_reply response)

    -- The handler of an endpoint, for the user that the middleware has found.
    unfoldable pub handle : Endpoint → GoString → Request → Api → Api × ApiReply
    handle chat user_id req s = chatted (
        stream services cfg.grpc_advertised_addr req.session_id user_id req.body req.request_id
          s.hub s.world)
    handle history user_id req s =
        (s, history_reply (ChatHandler.get_history gateways user_id req.session_id s.world))
    handle history_db user_id req s =
        (s, history_reply (ChatHandler.get_history_db gateways user_id req.session_id s.world))

    unfoldable pub serve : Request → Api → Api × ApiReply
    unfolding handle
    serve req s = elim (jwt library cfg.jwt_secret req.authorization) [
      | abort text ↦ (s, unauthorized text)
      | next user_id ↦ handle req.endpoint user_id req s
    ]

    -- What happens at the server: a request, the end of a chat handler with its deferred cleanup,
    -- and a token from the gRPC server.
    pub data Event : Type 0 where
      request : Request → Event
      returned : GoString → Event
      delivered : GoString → PubSubToken → Event

    unfoldable pub happen : Event → Api → Api
    unfolding serve
    happen (request req) s = (serve req s).0
    happen (returned request_id) s = record s { hub = unregister request_id s.hub }
    happen (delivered request_id token) s = record s { hub = deliver request_id token s.hub }

    unfoldable pub happen_all : List Event → Api → Api
    unfolding happen
    happen_all [] s = s
    happen_all (e ∷ es) s = happen_all es (happen e s)
