-- ===== src/Lifecycle/Requests.antt =====
-- cmd/worker/main.go: the process around the LLM worker.
use golang_learning.Prelude.{ℕ, ◌+◌, GoString, Option, Bool, true, false, ◌≡◌, refl, arith}
use golang_learning.Domain.{ChatRequest}
use golang_learning.LlmWorker.{Worker, new_worker, Step, Reach, start, next}
use golang_learning.LlmWorker.Requests.{count, count_waiting, requests_kept}
use golang_learning.Lifecycle
use golang_learning.Lifecycle.{
  Process, ProcessStep, running, exited, begins, goes, on_start, runs, on_stop, exits,
  exits_at_once,
}

-- The worker, and whether its context is cancelled.
pub record Running : Type 0 where
  pub worker : Worker
  pub cancelled : Bool

abbrev pub made : Running
made = record { worker = new_worker; cancelled = false }

abbrev pub cancel : Running → Running
cancel r = record r { cancelled = true }

module _ (decode : GoString → Option ChatRequest) (concurrency : ℕ) where
  -- Run returns only when its context is cancelled.
  abbrev pub RunStep : Running → Running → Type 0
  RunStep r s =
      Step decode concurrency r.worker s.worker
      × (s.cancelled ≡ r.cancelled)
      × (r.cancelled ≡ false → s.worker.stopped ≡ r.worker.stopped)

  abbrev pub Lives : Process Running → Type 0
  Lives = Lifecycle.Lives made RunStep cancel

  -- A process that has exited does nothing any more.
  abbrev pub IsFinal : Process Running → Type 0
  IsFinal p = (q : Process Running) → ¬ ProcessStep made RunStep cancel p q

  Lives-Reach : {p : Process Running} → Lives p → Reach decode concurrency p.worker.worker
  Lives-Reach begins = start
  Lives-Reach (goes r (on_start c)) = Lives-Reach r
  Lives-Reach (goes r (runs up s)) = next (Lives-Reach r) s.0
  Lives-Reach (goes r (on_stop u)) = Lives-Reach r
  Lives-Reach (goes r (exits s)) = Lives-Reach r

  exited-IsFinal : (p : Process Running) → p.phase ≡ exited → IsFinal p
  exited-IsFinal p e q (on_start c) = absurd (ground arith)
  exited-IsFinal p e q (runs up s) = absurd (ground arith)
  exited-IsFinal p e q (on_stop u) = absurd (ground arith)
  exited-IsFinal p e q (exits s) = absurd (ground arith)

  -- A running LLM worker can exit with the requests that it has: OnStop does not wait for them.
  -- Of the requests it has taken from Kafka and committed, those that wait or are being processed
  -- are then not processed, and no step of the process follows.
  pub exit_loses_requests :
      {p : Process Running}
      → Lives p
      → p.phase ≡ running
      → (q : Process Running) × Lives q
        × (q.phase ≡ exited)
        × (q.worker.worker ≡ p.worker.worker)
        × IsFinal q
        × ((test : ChatRequest → Bool)
            → count test q.worker.worker.received
              ≡ count_waiting test p.worker.worker.waiting
                + count test p.worker.worker.running
                + count test q.worker.worker.processed)
  exit_loses_requests {p} r up =
      let q : Process Running = record { phase = exited; worker = cancel p.worker } in
      (
        q,
        exits_at_once made RunStep cancel r up,
        refl,
        refl,
        exited-IsFinal q refl,
        requests_kept decode concurrency (Lives-Reach r),
      )
