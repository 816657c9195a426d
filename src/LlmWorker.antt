-- ===== src/LlmWorker.antt =====
-- internal/adapter/controller/consumer/worker.go: the loop that hands each chat request to a
-- goroutine, behind a semaphore, as steps of one state. Kafka's messages are the arguments of the
-- steps, the JSON decoder is the parameter `decode`, and what ProcessChatRequestUseCase.Execute
-- does stands in Publisher.
pub mod Requests
pub mod Drain
mod Tests
use golang_learning.Prelude.{
  ℕ, ◌+◌, ◌-◌, ◌<◌, GoString, Bool, true, false, List, [], ◌∷◌, Option, none, some, In, here, there,
  ◌≡◌,
}
use golang_learning.Domain.{ChatRequest}

-- `waiting` is the request that the loop holds before its send on `sem`, `sem` the length of that
-- channel; the goroutines that run and the requests that are done with are lists, and `received`
-- are the requests of all fetched messages, the latest first. `stopped` once Run has returned.
pub record Worker : Type 0 where
  pub waiting : Option ChatRequest
  pub sem : ℕ
  pub running : List ChatRequest
  pub processed : List ChatRequest
  pub received : List ChatRequest
  pub stopped : Bool

unfoldable pub new_worker : Worker
new_worker = record {
  waiting = none;
  sem = 0;
  running = [];
  processed = [];
  received = [];
  stopped = false;
}

-- The loop from the commit up to the semaphore: a message that does not unmarshal is skipped.
unfoldable pub fetch : (GoString → Option ChatRequest) → GoString → Worker → Worker
fetch decode value w = elim (decode value) [
  | none ↦ w
  | some req ↦ record w { waiting = some req; received = req ∷ w.received }
]

unfoldable pub remove_at : {r : ChatRequest} (rs : List ChatRequest) → In r rs → List ChatRequest
remove_at [] i = elim i [ ]
remove_at (r ∷ rs) here = rs
remove_at (r ∷ rs) (there i) = r ∷ remove_at rs i

module _ (decode : GoString → Option ChatRequest) (concurrency : ℕ) where
  pub data Step (w : Worker) : Worker → Type 0 where
    fetches :
        (value : GoString) → w.stopped ≡ false → w.waiting ≡ none → Step w (fetch decode value w)
    spawns :
        {req : ChatRequest}
        → w.waiting ≡ some req
        → w.sem < concurrency
        → Step w (record w { waiting = none; sem = w.sem + 1; running = req ∷ w.running })
    finishes :
        {req : ChatRequest} (i : In req w.running)
        → Step w (record w {
          sem = w.sem - 1;
          running = remove_at w.running i;
          processed = req ∷ w.processed;
        })
    stops : w.waiting ≡ none → Step w (record w { stopped = true })

  pub data Reach : Worker → Type 0 where
    start : Reach new_worker
    next : {w v : Worker} → Reach w → Step w v → Reach v
