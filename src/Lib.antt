-- ===== src/Lib.antt =====
-- A verification library for golang-learning, an event-driven chat back end in Go.
--
-- The program. A client posts a message to the API (internal/adapter/controller/http/handler), which
-- claims the session for the user in Redis, registers a channel for the request in its token hub,
-- and publishes the request to Kafka. The LLM worker (internal/usecase/process_chat_request.go)
-- publishes each part of the answer to two topics. The streaming worker reads one topic and sends
-- the parts over gRPC to the API instance that waits for them, whose hub hands them to the open
-- HTTP response. The persistence worker reads the other topic, buffers the parts by request and
-- merges them into PostgreSQL.
--
-- The files.
--   Prelude: numbers, lists, Go's strings as bytes, Go's maps as association lists with distinct
--     keys; a range over a map takes its order from a `MapOrder`.
--   Domain: internal/entity, shared/schema.go, the tokens of internal/usecase/boundary.go; errors
--     as values.
--   Boundary: the interfaces of internal/usecase/boundary.go that the gateways fill.
--   Store: internal/adapter/gateway/store over a `Database`; Store/Interface is IMessageStore with
--     its laws, which Store/Content proves of MessageStoreImpl.
--   Persist: internal/usecase/persist_session.go. The locked part of Flush, its read and its write
--     are functions of their own (take_snapshot, read_existing, write_merged).
--   PersistenceWorker: internal/adapter/controller/consumer/persistence.go as a step relation;
--     PersistenceWorker/System adds the store and the parts of a flush, the shutdown included, and
--     PersistenceWorker/Process the lifecycle in cmd/persistence/main.go.
--   Lifecycle: the hooks of the three workers' processes; Lifecycle/Requests cmd/worker/main.go,
--     Lifecycle/Tokens cmd/streaming-worker/main.go.
--   Hub: internal/adapter/gateway/hub/token_hub.go; channels are numbers on a heap.
--   TokenServer: internal/adapter/controller/grpc/token_server.go, the credentials of
--     internal/usecase/stream_tokens.go and internal/adapter/controller/http/handler/token_callback.go.
--   ChatStream: internal/adapter/controller/http/handler/chat_stream.go and
--     internal/usecase/send_message.go.
--   StreamTokens: internal/usecase/stream_tokens.go, in a state and error monad;
--     StreamTokens/Interleaved has each access of a map and each call of the network as a step of
--     one of several goroutines, StreamTokens/Connections getConn with the identity of connections.
--   StreamingWorker: internal/adapter/controller/consumer/streaming_worker.go as a step relation.
--   Cache: internal/adapter/gateway/cache, but for pubsub_stream.go.
--   PubSub: internal/adapter/gateway/cache/pubsub_stream.go as a step relation; PubSub/Failed is
--     about a subscription whose ps.Receive fails, PubSub/InOrder about the tokens of a channel.
--   LlmWorker: internal/adapter/controller/consumer/worker.go as a step relation.
--   ChatHandler: internal/adapter/controller/http/handler/chat.go, internal/usecase/get_history.go
--     and internal/adapter/presenter/http/get_history.go.
--   Jwt: internal/adapter/controller/http/middleware/jwt.go.
--   Publisher: internal/adapter/gateway/broker/publisher.go and
--     internal/usecase/process_chat_request.go.
--   KafkaClients: the writers of NewEventPublisher in internal/adapter/gateway/broker/publisher.go
--     and the readers of internal/adapter/controller/consumer; KafkaClients/Topics who reads what.
--   Generation: the goroutine of internal/framework/llm/mock.go beside the loop of
--     internal/usecase/process_chat_request.go as a step relation.
--   UseCases: internal/usecase/send_message.go, get_history.go and process_chat_request.go over the
--     interfaces of Boundary, and internal/adapter/presenter/http.
--   Answer: an answer on its ways from Kafka to the client and to the database, through the
--     components above.
--   Config: config/config.go and parseAddr of internal/framework/redis/redis.go.
--   MockLlm: internal/framework/llm/mock.go and newTokenGenerator of cmd/worker/main.go.
--   AsyncLogger: internal/adapter/controller/http/middleware/async_logger.go as a step relation.
--   Gentoken: cmd/gentoken/main.go. Migrate: cmd/migrate/main.go.
--   Startup: what cmd/api/main.go, cmd/worker/main.go, cmd/streaming-worker/main.go and
--     cmd/persistence/main.go construct, with internal/framework/postgres/postgres.go and the
--     client of internal/framework/redis/redis.go, and the hooks of the API server.
--   Api: the endpoints of the API server behind the JWT middleware, as cmd/api/main.go puts them
--     together, over one hub, Redis, Kafka and database.
-- A component's functions have the names of the Go functions, in snake case. Children hold the
-- proofs, and Tests the runs.
--
-- Conventions. PostgreSQL, Redis, Kafka, gRPC, golang-jwt and the JSON of the messages are records
-- of operations that the definitions take as parameters; what is relied on of them are the fields
-- of a second record (DatabaseLaws, RedisLaws, RedisFrames, KafkaLaws, RemoteLaws, ForeignKey,
-- MigratorLaws, …), and the tests have an instance of each. The environment is a function. Each
-- call is one step; where goroutines interleave, the steps are those between which the code holds
-- no lock. No definition takes fuel: every loop of the program that is modelled runs over a list,
-- or is a step relation. The counter of buffered tokens is a natural number, since it falls back to
-- 0 at each flush. Expiry in Redis is not modelled.
--
-- Not modelled: fx itself, whose order of construction is written out; logging with zap and slog;
-- what the settings of the Kafka and Redis clients do inside those clients, but that an
-- asynchronous writer may drop what it has accepted, so that the log of a topic is what its writers
-- have accepted; time (timers are steps that may happen); and generated code.
pub mod Prelude
pub mod Domain
pub mod Store
pub mod Persist
pub mod PersistenceWorker
pub mod Hub
pub mod TokenServer
pub mod ChatStream
pub mod StreamTokens
pub mod StreamingWorker
pub mod Cache
pub mod ChatHandler
pub mod Jwt
pub mod PubSub
pub mod LlmWorker
pub mod Publisher
pub mod Answer
pub mod Config
pub mod Gentoken
pub mod MockLlm
pub mod AsyncLogger
pub mod Api
pub mod Boundary
pub mod KafkaClients
pub mod UseCases
pub mod Generation
pub mod Lifecycle
pub mod Migrate
pub mod Startup
