-- ===== src/LlmWorker/Tests.antt =====
-- The worker's theorems after one request has been fetched and handed to a goroutine.
use golang_learning.Prelude.{
  ◌≤◌, ◌<◌, Bool, GoString, [], ◌∷◌, Option, none, some, ◌≡◌, refl, arith,
}
use golang_learning.Domain.{ChatRequest}
use golang_learning.LlmWorker.{Worker, new_worker, fetch, Reach, start, next, fetches, spawns}
use golang_learning.LlmWorker.Drain.{work, Drain, nothing_yet, requests_finish}
use golang_learning.LlmWorker.Requests.{count}

-- Every message is a request with the message as its content.
abbrev toy_decode : GoString → Option ChatRequest
toy_decode value =
    some (record { request_id = 1 ∷ []; session_id = 2 ∷ []; content = value; timestamp = 0 })

abbrev fetched : Worker
fetched = fetch toy_decode (3 ∷ []) new_worker

abbrev spawned : Worker
spawned = record fetched {
  waiting = none;
  sem = 1;
  running =
      record { request_id = 1 ∷ []; session_id = 2 ∷ []; content = 3 ∷ []; timestamp = 0 } ∷ [];
}

Reach-spawned : Reach toy_decode 2 spawned
unfolding fetch new_worker
Reach-spawned = next (next start (fetches (3 ∷ []) refl refl)) (spawns refl (omega arith))

-- The worker at the beginning of its end, with one goroutine to go.
requests_finish_example :
    (0 ≤ work spawned)
    × (0 < work spawned → (u : Worker) × Drain toy_decode 2 spawned 1 u)
    × (0 ≡ work spawned
        → (spawned.waiting ≡ none)
          × (spawned.running ≡ [])
          × ((test : ChatRequest → Bool)
              → count test spawned.received ≡ count test spawned.processed))
requests_finish_example = requests_finish toy_decode 2 (omega arith) Reach-spawned nothing_yet
