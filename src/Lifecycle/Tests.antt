-- ===== src/Lifecycle/Tests.antt =====
-- An LLM worker's process that is stopped while it processes a request.
use golang_learning.Prelude.{
  ◌+◌, ◌≡◌, refl, inl, arith, GoString, [], ◌∷◌, Bool, Option, some, none,
}
use golang_learning.Domain.{ChatRequest}
use golang_learning.LlmWorker.{Worker, new_worker, fetch, fetches, spawns}
use golang_learning.LlmWorker.Requests.{count, count_waiting}
use golang_learning.Lifecycle.{Process, running, exited, begins, goes, on_start, runs}
use golang_learning.Lifecycle.Requests.{Running, made, Lives, IsFinal, exit_loses_requests}

abbrev decode : GoString → Option ChatRequest
decode value =
    some (record { request_id = 1 ∷ []; session_id = 2 ∷ []; content = value; timestamp = 0 })

abbrev fetched : Worker
fetched = fetch decode (3 ∷ []) new_worker

abbrev processing : Process Running
processing = record {
  phase = running;
  worker = record made {
    worker = record fetched {
      waiting = none;
      sem = 1;
      running =
          record { request_id = 1 ∷ []; session_id = 2 ∷ []; content = 3 ∷ []; timestamp = 0 } ∷ [];
    };
  };
}

Lives-processing : Lives decode 2 processing
unfolding fetch new_worker
Lives-processing =
    goes
      (goes (goes begins (on_start refl))
        (runs (inl refl) (fetches (3 ∷ []) refl refl, refl, λ e. refl)))
      (runs (inl refl) (spawns refl (omega arith), refl, λ e. refl))

exit_loses_requests_example :
    (q : Process Running) × Lives decode 2 q
    × (q.phase ≡ exited)
    × (q.worker.worker ≡ processing.worker.worker)
    × IsFinal decode 2 q
    × ((test : ChatRequest → Bool)
        → count test q.worker.worker.received
          ≡ count_waiting test processing.worker.worker.waiting
            + count test processing.worker.worker.running
            + count test q.worker.worker.processed)
exit_loses_requests_example = exit_loses_requests decode 2 Lives-processing refl
