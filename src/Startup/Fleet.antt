-- ===== src/Startup/Fleet.antt =====
-- The four processes in one environment.
use golang_learning.Prelude.{
  ℕ, GoString, bytes, is_empty, ◌++◌, [], ◌∷◌, ◌==◌, eq_iff, is_empty_iff, some, ◌≡◌, ◌≢◌, ◌↔◌, ◌⊎◌,
  inl, inr, refl, sym, ◌∙◌, arith, Bool-cases,
}
use golang_learning.Domain.{Error, failure, Result-cases, ok, err}
use golang_learning.Config.{load}
use golang_learning.Publisher.{Writer, writer, stream_writer, persist_writer}
use golang_learning.MockLlm.{mock, new_token_generator}
use golang_learning.KafkaClients.{
  new_event_publisher, new_worker, new_persistence_worker, new_streaming_worker,
}
use golang_learning.TokenServer.{done, stream_auth_interceptor, get_request_metadata}
use golang_learning.TokenServer.Access.{stream_auth_interceptor_iff}
use golang_learning.Startup.{
  Platform, WorkerApp, StreamingApp, PersistenceApp, ApiApp, new_client, new_db, start_worker,
  start_streaming_worker, start_persistence, start_api,
}

addr-publisher :
    (env : GoString → GoString) (out : Writer)
    → (new_event_publisher (load env) out).addr ≡ (load env).kafka_brokers
unfolding new_event_publisher
addr-publisher env writer = refl
addr-publisher env stream_writer = refl
addr-publisher env persist_writer = refl

new_token_generator_cases :
    (provider : GoString)
    → ((new_token_generator provider ≡ ok mock) × ((provider ≡ bytes "mock") ⊎ (provider ≡ [])))
      ⊎ ((provider ≢ bytes "mock")
          × (provider ≢ [])
          × ((x : Error) × (new_token_generator provider ≡ err x)))
unfolding new_token_generator
new_token_generator_cases provider = elim (Bool-cases (provider == bytes "mock")) [
  | inl mocked ↦ inl (rw mocked refl, inl ((eq_iff provider (bytes "mock")).0 mocked))
  | inr other ↦ elim (Bool-cases (is_empty provider)) [
    | inl unset ↦ inl (rw (other, unset) refl, inr ((is_empty_iff provider).0 unset))
    | inr named ↦ inr (
      λ e. ground (arith, eq_iff provider (bytes "mock")),
      λ e. ground (arith, is_empty_iff provider),
      (failure (bytes "unknown LLM provider: " ++ provider), rw (other, named) refl),
    )
  ]
]

module _ (p : Platform) (env : GoString → GoString) where
  abbrev worker_app : ℕ → WorkerApp
  worker_app num_cpu = record {
    generator = mock;
    publisher = new_event_publisher (load env);
    worker = new_worker num_cpu (load env);
  }

  -- The LLM worker starts exactly when its logger can be made and LLM_PROVIDER is "mock" or empty.
  pub start_worker_iff :
      (num_cpu : ℕ)
      → ((app : WorkerApp) × (start_worker p num_cpu env ≡ ok app)) ↔ (
          ((logger : p.Logger) × (p.new_production ≡ ok logger))
          × ((env (bytes "LLM_PROVIDER") ≡ bytes "mock") ⊎ (env (bytes "LLM_PROVIDER") ≡ [])))
  unfolding start_worker load
  start_worker_iff num_cpu = elim (new_token_generator_cases (env (bytes "LLM_PROVIDER"))) [
    | inl (made, known) ↦ elim (Result-cases p.new_production) [
      | inl (logger, logs) ↦
          (λ h. ((logger, logs), known), λ h. (worker_app num_cpu, rw (made, logs) refl))
      | inr (x, fails) ↦ (λ h. absurd (ground (arith, h.1)), λ h. absurd (ground (arith, h.0.1)))
    ]
    | inr (unmocked, named, (x, refused)) ↦
        (λ h. absurd (ground (arith, h.1)), λ h. absurd (ground (arith, h.1)))
  ]

  worker_is :
      (n : ℕ) {app : WorkerApp}
      → start_worker p n env ≡ ok app
      → (app.publisher ≡ new_event_publisher (load env)) × (app.worker ≡ new_worker n (load env))
  unfolding start_worker
  worker_is n e = elim (Result-cases (new_token_generator (load env).llm_provider)) [
    | inl (g, made) ↦ ground arith
    | inr (x, wrong) ↦ absurd (ground arith)
  ]

  streaming_is :
      {app : StreamingApp}
      → start_streaming_worker p env ≡ ok app
      → (app.redis ≡ new_client (load env))
        × (app.secret ≡ (load env).callback_secret)
        × (app.reader ≡ new_streaming_worker (load env))
  unfolding start_streaming_worker
  streaming_is e = ground arith

  persistence_is :
      {app : PersistenceApp p}
      → start_persistence p env ≡ ok app
      → (new_db p (load env) ≡ ok app.db) × (app.reader ≡ new_persistence_worker (load env))
  unfolding start_persistence
  persistence_is e = ground arith

  api_is :
      {app : ApiApp p}
      → start_api p env ≡ ok app
      → (new_db p (load env) ≡ ok app.db)
        × (app.redis ≡ new_client (load env))
        × (app.publisher ≡ new_event_publisher (load env))
        × (app.interceptor_secret ≡ (load env).callback_secret)
        × (app.advertised ≡ (load env).grpc_advertised_addr)
        × (app.grpc_listen ≡ b':' ∷ (load env).grpc_port)
  unfolding start_api
  api_is e = ground arith

  -- If the four processes start in one environment, then all writers and readers of Kafka have the
  -- same brokers; the streaming worker looks up callbacks in the Redis in which the API stores them;
  -- the API reads the database that the persistence worker writes; the API accepts the streaming
  -- worker's credentials exactly when CALLBACK_SECRET is set; and if GRPC_ADVERTISED_ADDR is not
  -- set, the address that it gives out is the host "api" with the port on which it listens.
  pub fleet_agrees :
      (n : ℕ) {worker : WorkerApp} {streaming : StreamingApp} {persistence : PersistenceApp p}
      {api : ApiApp p}
      → start_worker p n env ≡ ok worker
      → start_streaming_worker p env ≡ ok streaming
      → start_persistence p env ≡ ok persistence
      → start_api p env ≡ ok api
      → ((out : Writer)
          → ((worker.publisher out).addr ≡ streaming.reader.brokers)
            × ((worker.publisher out).addr ≡ persistence.reader.brokers)
            × ((api.publisher out).addr ≡ worker.worker.reader.brokers))
        × (streaming.redis ≡ api.redis)
        × (persistence.db ≡ api.db)
        × ((stream_auth_interceptor api.interceptor_secret
                (some ((get_request_metadata streaming.secret).1 ∷ []))
                done
              ≡ done)
            ↔ (env (bytes "CALLBACK_SECRET") ≢ []))
        × (env (bytes "GRPC_ADVERTISED_ADDR") ≡ []
            → api.advertised ≡ bytes "api" ++ api.grpc_listen)
  unfolding new_worker new_persistence_worker new_streaming_worker load get_request_metadata
  fleet_agrees n {worker} {streaming} {persistence} {api} w s q a =
      let (published, reads) = worker_is n w in
      let (redis, secret, tokens) = streaming_is s in
      let (db, events) = persistence_is q in
      let (db', redis', published', secret', advertised, listens) = api_is a in
      let shared = env (bytes "CALLBACK_SECRET") in
      let iff = stream_auth_interceptor_iff shared (some ((get_request_metadata shared).1 ∷ [])) in
      (
        λ out. (
          rw (published, tokens) (addr-publisher env out),
          rw (published, events) (addr-publisher env out),
          rw (published', reads) (addr-publisher env out),
        ),
        redis ∙ sym redis',
        ground (arith, db, db'),
        rw (secret, secret') ((λ e. (iff.0 e).0), (λ set. iff.1 (set, ([], refl)))),
        λ unset. rw (advertised, listens, unset) refl,
      )
