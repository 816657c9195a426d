-- ===== src/PersistenceWorker.antt =====
-- internal/adapter/controller/consumer/persistence.go: the consumer loop, the goroutines that it
-- starts to flush, and the flusher goroutine, as steps of one state. Kafka's messages are the
-- arguments of the steps, the JSON decoder is the parameter `decode`.
pub mod Overlap
pub mod System
pub mod Whole
pub mod Shutdown
pub mod Refinement
pub mod OneFlush
pub mod Process
mod Tests
use golang_learning.Prelude.{
  ℕ, ◌+◌, suc, GoString, Option, none, some, Bool, true, false, not, ◌&&◌, if◌then◌else◌, ◌≡◌, ◌≤◌,
}
use golang_learning.Domain.{TokenEvent}
use golang_learning.Persist.{
  PersistSession, new_persist_session, add_token, should_flush, take_snapshot,
}

abbrev pub persist_token_threshold : ℕ
persist_token_threshold = 500

-- Where runFlusher stands: in its select, in the flush of a tick, in the last flush, or returned.
pub data Flusher : Type 0 where
  waiting ticking last_flush returned : Flusher

-- `async` counts the goroutines of Run between their CompareAndSwap and their Store(false).
pub record PersistenceWorker : Type 0 where
  pub use_case : PersistSession
  pub flushing : Bool
  pub async : ℕ
  pub flusher : Flusher
  pub cancelled : Bool

unfoldable pub new_persistence_worker : PersistenceWorker
new_persistence_worker = record {
  use_case = new_persist_session;
  flushing = false;
  async = 0;
  flusher = waiting;
  cancelled = false;
}

-- The body of Run's loop from the decoder on: add the token, and start a flush if the threshold is
-- reached and the flag could be set.
unfoldable pub receive :
    (GoString → Option TokenEvent) → GoString → PersistenceWorker → PersistenceWorker
receive decode value w = elim (decode value) [
  | none ↦ w
  | some token ↦
      let uc = add_token w.use_case token in
      if should_flush uc persist_token_threshold && not w.flushing
      then record w { use_case = uc; flushing = true; async = w.async + 1 }
      else record w { use_case = uc }
]

-- A tick of runFlusher up to its CompareAndSwap.
unfoldable pub tick : PersistenceWorker → PersistenceWorker
tick w = if w.flushing then w else record w { flushing = true; flusher = ticking }

abbrev pub busy : Flusher → ℕ
busy waiting = 0
busy ticking = 1
busy last_flush = 1
busy returned = 0

-- The calls of Flush that may be under way.
unfoldable pub in_flight : PersistenceWorker → ℕ
in_flight w = w.async + busy w.flusher

module _ (decode : GoString → Option TokenEvent) where
  -- `snapshot` is the locked part of a flush that is under way. Cancelling the context makes
  -- runFlusher flush once more, without the flag, and return.
  pub data Step (w : PersistenceWorker) : PersistenceWorker → Type 0 where
    message : (value : GoString) → Step w (receive decode value w)
    snapshot : 1 ≤ in_flight w → Step w (record w { use_case = (take_snapshot w.use_case).1 })
    async_done : {n : ℕ} → w.async ≡ suc n → Step w (record w { async = n; flushing = false })
    ticks : w.flusher ≡ waiting → Step w (tick w)
    tick_done : w.flusher ≡ ticking → Step w (record w { flusher = waiting; flushing = false })
    cancel : Step w (record w { cancelled = true })
    shut_down :
        w.flusher ≡ waiting → w.cancelled ≡ true → Step w (record w { flusher = last_flush })
    flusher_done : w.flusher ≡ last_flush → Step w (record w { flusher = returned })

  pub data Reach : PersistenceWorker → Type 0 where
    start : Reach new_persistence_worker
    next : {w v : PersistenceWorker} → Reach w → Step w v → Reach v
