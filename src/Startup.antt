-- ===== src/Startup.antt =====
-- What the four processes are made of when they start: the constructors that cmd/api/main.go,
-- cmd/worker/main.go, cmd/streaming-worker/main.go and cmd/persistence/main.go provide, in the order
-- in which fx needs them, and the hooks of the API server. A constructor that only keeps what it is
-- given has no definition. zap, gorm and the servers are parameters.
pub mod Fleet
mod Tests
use golang_learning.Prelude.{ℕ, GoString, bytes, ◌++◌, List, [], ◌∷◌, Option, none, some}
use golang_learning.Domain.{Error, Result, ok, err, ◌>>=◌}
use golang_learning.Config.{Config, load, parse_addr}
use golang_learning.Publisher.{Writer}
use golang_learning.MockLlm.{TokenGenerator, new_token_generator}
use golang_learning.KafkaClients.{
  WriterConfig, ReaderConfig, WorkerConfig, new_event_publisher, new_worker, new_persistence_worker,
  new_streaming_worker,
}

-- redis.Options as NewClient sets them.
pub record RedisOptions : Type 0 where
  pub addr : GoString
  pub pool_size : ℕ
  pub min_idle_conns : ℕ

unfoldable pub new_client : Config → RedisOptions
unfolding parse_addr
new_client cfg = record { addr = parse_addr cfg.redis_url; pool_size = 1024; min_idle_conns = 16 }

-- zap.NewProduction, gorm.Open on a data source, and the DB method of what it opens.
pub record Platform : Type 1 where
  pub Logger : Type 0
  pub Gorm : Type 0
  pub SqlDb : Type 0
  pub new_production : Result Logger
  pub open_gorm : GoString → Result Gorm
  pub sql_db : Gorm → Result SqlDb

pub record WorkerApp : Type 0 where
  pub generator : TokenGenerator
  pub publisher : Writer → WriterConfig
  pub worker : WorkerConfig

-- `secret` is that of the credentials.
pub record StreamingApp : Type 0 where
  pub redis : RedisOptions
  pub secret : GoString
  pub reader : ReaderConfig

module _ (p : Platform) where
  open p use {Logger, Gorm, SqlDb, new_production, open_gorm, sql_db}

  -- NewDB: the handle, and the connection that its OnStop hook closes.
  unfoldable pub new_db : Config → Result (Gorm × SqlDb)
  new_db cfg = do db ← open_gorm cfg.database_url; sql ← sql_db db; ok (db, sql)

  pub record PersistenceApp : Type 0 where
    pub db : Gorm × SqlDb
    pub reader : ReaderConfig

  -- `http_addr` and `grpc_listen` are where the servers listen, `advertised` is what the chat
  -- handler stores as the callback of a request, `interceptor_secret` that of the gRPC interceptor.
  pub record ApiApp : Type 0 where
    pub redis : RedisOptions
    pub db : Gorm × SqlDb
    pub publisher : Writer → WriterConfig
    pub http_addr : GoString
    pub grpc_listen : GoString
    pub advertised : GoString
    pub interceptor_secret : GoString
    pub jwt_secret : GoString

  unfoldable pub start_worker : ℕ → (GoString → GoString) → Result WorkerApp
  unfolding load
  start_worker num_cpu env = do
    generator ← new_token_generator (load env).llm_provider
    _ ← new_production
    ok (record {
      generator = generator;
      publisher = new_event_publisher (load env);
      worker = new_worker num_cpu (load env);
    })

  -- newStreamTokens gives the use case the callback secret.
  unfoldable pub start_streaming_worker : (GoString → GoString) → Result StreamingApp
  start_streaming_worker env = do
    _ ← new_production
    ok (record {
      redis = new_client (load env);
      secret = (load env).callback_secret;
      reader = new_streaming_worker (load env);
    })

  unfoldable pub start_persistence : (GoString → GoString) → Result PersistenceApp
  start_persistence env = do
    db ← new_db (load env)
    _ ← new_production
    ok (record { db = db; reader = new_persistence_worker (load env) })

  unfoldable pub start_api : (GoString → GoString) → Result ApiApp
  start_api env = do
    db ← new_db (load env)
    _ ← new_production
    ok (record {
      redis = new_client (load env);
      db = db;
      publisher = new_event_publisher (load env);
      http_addr = b':' ∷ (load env).port;
      grpc_listen = b':' ∷ (load env).grpc_port;
      advertised = (load env).grpc_advertised_addr;
      interceptor_secret = (load env).callback_secret;
      jwt_secret = (load env).jwt_secret;
    })

-- The callback address that newSendMessage computes, which NewSendMessage drops.
unfoldable pub callback_addr : GoString → Config → GoString
callback_addr hostname cfg = hostname ++ b':' ∷ cfg.grpc_port

-- The servers of the API process: `listen_and_serve` and `serve` begin goroutines.
pub record Servers : Type 1 where
  pub World : Type 0
  pub Listener : Type 0
  pub listen_and_serve : GoString → World → World
  pub listen : GoString → World → World × Result Listener
  pub serve : Listener → World → World
  pub graceful_stop : World → World
  pub shutdown : World → World × Result (Unit {0})

module _ (servers : Servers) where
  open servers use {World, Listener, listen_and_serve, listen, serve, graceful_stop, shutdown}

  abbrev served : World × Result Listener → World × Result (Unit {0})
  served (w, ok listener) = (serve listener w, ok tt)
  served (w, err e) = (w, err e)

  -- OnStart and OnStop of startServer.
  unfoldable pub on_start : Config → World → World × Result (Unit {0})
  on_start cfg w = served (listen (b':' ∷ cfg.grpc_port) (listen_and_serve (b':' ∷ cfg.port) w))

  unfoldable pub on_stop : World → World × Result (Unit {0})
  on_stop w = shutdown (graceful_stop w)
