-- ===== src/PersistenceWorker/Process.antt =====
-- cmd/persistence/main.go: the process around the persistence worker.
use golang_learning.Prelude.{GoString, Option, true, false, ◌≡◌, ◌⊎◌, inl, inr, refl, arith}
use golang_learning.Domain.{TokenEvent}
use golang_learning.Lifecycle
use golang_learning.Lifecycle.{
  Process, created, running, exited, begins, goes, on_start, runs, on_stop, exits, exits_at_once,
}
use golang_learning.PersistenceWorker.{
  PersistenceWorker, waiting, ticking, new_persistence_worker, receive, tick, Step, message,
  snapshot, async_done, ticks, tick_done, cancel, shut_down, flusher_done,
}

-- What cancelling the context does to the worker.
abbrev pub cancelled : PersistenceWorker → PersistenceWorker
cancelled w = record w { cancelled = true }

module _ (decode : GoString → Option TokenEvent) where
  -- The steps of the worker that do not cancel its context, which only OnStop does.
  abbrev pub RunStep : PersistenceWorker → PersistenceWorker → Type 0
  RunStep w v = Step decode w v × (v.cancelled ≡ w.cancelled)

  abbrev pub Lives : Process PersistenceWorker → Type 0
  Lives = Lifecycle.Lives new_persistence_worker RunStep cancelled

  -- Until OnStop the flusher has no reason to begin its last flush.
  abbrev IsUp : PersistenceWorker → Type 0
  IsUp w = (w.cancelled ≡ false) × ((w.flusher ≡ waiting) ⊎ (w.flusher ≡ ticking))

  Step-IsUp :
      {w v : PersistenceWorker} → Step decode w v → v.cancelled ≡ w.cancelled → IsUp w → IsUp v
  unfolding receive tick
  Step-IsUp (message value) e up = ground arith
  Step-IsUp (snapshot l) e up = up
  Step-IsUp (async_done d) e up = up
  Step-IsUp (ticks t) e up = ground arith
  Step-IsUp (tick_done t) e up = (up.0, inl refl)
  Step-IsUp cancel e up = absurd (ground arith)
  Step-IsUp (shut_down t c) e up = absurd (ground arith)
  Step-IsUp (flusher_done l) e up = absurd (ground arith)

  abbrev Early : Process PersistenceWorker → Type 0
  Early p = (p.phase ≡ created) ⊎ (p.phase ≡ running) → IsUp p.worker

  Lives-Early : {p : Process PersistenceWorker} → Lives p → Early p
  unfolding new_persistence_worker
  Lives-Early begins e = (refl, inl refl)
  Lives-Early (goes r (on_start c)) e = Lives-Early r (inl c)
  Lives-Early (goes r (runs up s)) e = Step-IsUp s.0 s.1 (Lives-Early r e)
  Lives-Early (goes r (on_stop u)) e = absurd (ground arith)
  Lives-Early (goes r (exits s)) e = absurd (ground arith)

  -- Whatever a running process has buffered, it can exit with: after OnStop nothing waits for the
  -- last flush, which need not even have begun.
  pub exit_loses_buffers :
      {p : Process PersistenceWorker}
      → Lives p
      → p.phase ≡ running
      → (q : Process PersistenceWorker) × Lives q
        × (q.phase ≡ exited)
        × (q.worker.use_case ≡ p.worker.use_case)
        × ((q.worker.flusher ≡ waiting) ⊎ (q.worker.flusher ≡ ticking))
  exit_loses_buffers {p} r up = (
    _,
    exits_at_once new_persistence_worker RunStep cancelled r up,
    refl,
    refl,
    (Lives-Early r (inr up)).1,
  )
