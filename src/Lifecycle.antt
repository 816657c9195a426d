-- ===== src/Lifecycle.antt =====
-- The lifecycle hooks of the workers' processes: runPersistence, runStreamingWorker and runWorker in
-- cmd/persistence/main.go, cmd/streaming-worker/main.go and cmd/worker/main.go are the same but for
-- the worker. fx runs OnStart, waits for a signal, runs OnStop and lets main return, which ends all
-- goroutines. PersistenceWorker/Process has them around the persistence worker.
pub mod Requests
pub mod Tokens
mod Tests
use golang_learning.Prelude.{◌≡◌, ◌⊎◌, refl}

pub data Phase : Type 0 where
  created running stopping exited : Phase

pub record Process (Worker : Type 0) : Type 0 where
  pub phase : Phase
  pub worker : Worker

-- The worker as NewWorker makes it, the steps of Run, and what cancelling its context does to it.
module _ {Worker : Type 0} (made : Worker) (RunStep : Worker → Worker → Type 0)
    (cancel : Worker → Worker) where
  abbrev pub initial : Process Worker
  initial = record { phase = created; worker = made }

  -- The worker's goroutines run from OnStart until the process exits; only OnStop cancels their
  -- context, and then returns at once.
  pub data ProcessStep (p : Process Worker) : Process Worker → Type 0 where
    on_start : p.phase ≡ created → ProcessStep p (record p { phase = running })
    runs :
        {v : Worker}
        → (p.phase ≡ running) ⊎ (p.phase ≡ stopping)
        → RunStep p.worker v
        → ProcessStep p (record p { worker = v })
    on_stop :
        p.phase ≡ running → ProcessStep p (record { phase = stopping; worker = cancel p.worker })
    exits : p.phase ≡ stopping → ProcessStep p (record p { phase = exited })

  pub data Lives : Process Worker → Type 0 where
    begins : Lives initial
    goes : {p q : Process Worker} → Lives p → ProcessStep p q → Lives q

  -- A running process can exit with its worker as it is, but for the cancellation.
  pub exits_at_once :
      {p : Process Worker}
      → Lives p
      → p.phase ≡ running
      → Lives (record { phase = exited; worker = cancel p.worker })
  exits_at_once r up = goes (goes r (on_stop up)) (exits refl)
