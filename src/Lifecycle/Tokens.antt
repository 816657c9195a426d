-- ===== src/Lifecycle/Tokens.antt =====
-- cmd/streaming-worker/main.go: the process around the streaming worker.
use golang_learning.Prelude.{Bool, true, false, ◌≡◌, refl}
use golang_learning.StreamingWorker.{
  StreamingWorker, new_streaming_worker, Step, Reach, start, next,
}
use golang_learning.Lifecycle
use golang_learning.Lifecycle.{
  Process, running, exited, begins, goes, on_start, runs, on_stop, exits, exits_at_once,
}

-- The worker, and whether its context is cancelled.
pub record Running : Type 0 where
  pub worker : StreamingWorker
  pub cancelled : Bool

abbrev pub made : Running
made = record { worker = new_streaming_worker; cancelled = false }

abbrev pub cancel : Running → Running
cancel r = record r { cancelled = true }

abbrev pub RunStep : Running → Running → Type 0
RunStep r s = Step r.worker s.worker × (s.cancelled ≡ r.cancelled)

abbrev pub Lives : Process Running → Type 0
Lives = Lifecycle.Lives made RunStep cancel

Lives-Reach : {p : Process Running} → Lives p → Reach p.worker.worker
Lives-Reach begins = start
Lives-Reach (goes r (on_start c)) = Lives-Reach r
Lives-Reach (goes r (runs up s)) = next (Lives-Reach r) s.0
Lives-Reach (goes r (on_stop u)) = Lives-Reach r
Lives-Reach (goes r (exits s)) = Lives-Reach r

-- A running streaming worker can exit with the tokens that stand in its channels: OnStop does not
-- wait until they are handed to Execute.
pub exit_loses_tokens :
    {p : Process Running}
    → Lives p
    → p.phase ≡ running
    → (q : Process Running) × Lives q
      × (q.phase ≡ exited)
      × (q.worker.worker ≡ p.worker.worker)
      × Reach q.worker.worker
exit_loses_tokens {p} r up = (_, exits_at_once made RunStep cancel r up, refl, refl, Lives-Reach r)
