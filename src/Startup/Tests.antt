-- ===== src/Startup/Tests.antt =====
-- A platform on which everything opens, and an environment.
use golang_learning.Prelude.{
  GoString, bytes, ◌==◌, [], ◌∷◌, ◌++◌, if◌then◌else◌, some, ◌≡◌, ◌≢◌, ◌↔◌, ◌⊎◌, refl,
}
use golang_learning.Domain.{Result, ok}
use golang_learning.Config.{load}
use golang_learning.Publisher.{Writer}
use golang_learning.MockLlm.{mock, new_token_generator}
use golang_learning.KafkaClients.{
  new_event_publisher, new_worker, new_persistence_worker, new_streaming_worker,
}
use golang_learning.TokenServer.{done, stream_auth_interceptor, get_request_metadata}
use golang_learning.Startup.{
  Platform, WorkerApp, StreamingApp, PersistenceApp, ApiApp, new_client, new_db, start_worker,
  start_streaming_worker, start_persistence, start_api,
}
use golang_learning.Startup.Fleet.{start_worker_iff, fleet_agrees}

abbrev platform : Platform
platform = record {
  Logger = Unit {0};
  Gorm = GoString;
  SqlDb = GoString;
  new_production = ok tt;
  open_gorm = λ url. ok url;
  sql_db = λ db. ok db;
}

abbrev env : GoString → GoString
env name = if name == bytes "CALLBACK_SECRET" then 7 ∷ [] else []

start_worker_iff_example : ((app : WorkerApp) × (start_worker platform 8 env ≡ ok app)) ↔ (
    ((logger : Unit {0}) × (◌≡◌ {A = Result (Unit {0})} (ok tt) (ok logger)))
    × ((env (bytes "LLM_PROVIDER") ≡ bytes "mock") ⊎ (env (bytes "LLM_PROVIDER") ≡ [])))
start_worker_iff_example = start_worker_iff platform env 8

abbrev worker : WorkerApp
worker = record {
  generator = mock;
  publisher = new_event_publisher (load env);
  worker = new_worker 8 (load env);
}

abbrev streaming : StreamingApp
streaming = record {
  redis = new_client (load env);
  secret = (load env).callback_secret;
  reader = new_streaming_worker (load env);
}

abbrev persistence : PersistenceApp platform
persistence = record {
  db = ((load env).database_url, (load env).database_url);
  reader = new_persistence_worker (load env);
}

abbrev api : ApiApp platform
api = record {
  redis = new_client (load env);
  db = ((load env).database_url, (load env).database_url);
  publisher = new_event_publisher (load env);
  http_addr = b':' ∷ (load env).port;
  grpc_listen = b':' ∷ (load env).grpc_port;
  advertised = (load env).grpc_advertised_addr;
  interceptor_secret = (load env).callback_secret;
  jwt_secret = (load env).jwt_secret;
}

fleet_agrees_example :
    ((out : Writer)
      → ((worker.publisher out).addr ≡ streaming.reader.brokers)
        × ((worker.publisher out).addr ≡ persistence.reader.brokers)
        × ((api.publisher out).addr ≡ worker.worker.reader.brokers))
    × (streaming.redis ≡ api.redis)
    × (persistence.db ≡ api.db)
    × ((stream_auth_interceptor api.interceptor_secret
            (some ((get_request_metadata streaming.secret).1 ∷ []))
            done
          ≡ done)
        ↔ (env (bytes "CALLBACK_SECRET") ≢ []))
    × (env (bytes "GRPC_ADVERTISED_ADDR") ≡ [] → api.advertised ≡ bytes "api" ++ api.grpc_listen)
unfolding start_worker start_streaming_worker start_persistence start_api new_db new_token_generator
    load ◌==◌
fleet_agrees_example =
    fleet_agrees platform env 8 {worker = worker} {streaming = streaming}
      {persistence = persistence} {api = api} refl refl refl refl
