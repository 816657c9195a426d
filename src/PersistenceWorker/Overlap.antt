-- ===== src/PersistenceWorker/Overlap.antt =====
-- How many flushes can be under way at once.
use golang_learning.Prelude.{ℕ, ◌+◌, ◌≤◌, GoString, Option, if◌then◌else◌, ◌≡◌, ◌⊎◌, refl, arith}
use golang_learning.Domain.{TokenEvent}
use golang_learning.PersistenceWorker.{
  PersistenceWorker, new_persistence_worker, ticking, last_flush, receive, tick, in_flight, Step,
  message, snapshot, async_done, ticks, tick_done, cancel, shut_down, flusher_done, Reach, start,
  next,
}

-- The flag is held by exactly one goroutine, the last flush apart.
abbrev holders : PersistenceWorker → ℕ
holders w = w.async + (elim w.flusher [ ticking ↦ 1 | _ ↦ 0 ])

abbrev Held : PersistenceWorker → Type 0
Held w = holders w ≡ (if w.flushing then 1 else 0)

module _ (decode : GoString → Option TokenEvent) where
  Step-Held : {w v : PersistenceWorker} → Step decode w v → Held w → Held v
  unfolding receive tick
  Step-Held (message value) h = ground arith
  Step-Held (snapshot l) h = h
  Step-Held (async_done e) h = ground arith
  Step-Held (ticks e) h = ground arith
  Step-Held (tick_done e) h = ground arith
  Step-Held cancel h = h
  Step-Held (shut_down e c) h = ground arith
  Step-Held (flusher_done e) h = ground arith

  Reach-Held : {w : PersistenceWorker} → Reach decode w → Held w
  unfolding new_persistence_worker
  Reach-Held start = refl
  Reach-Held (next r s) = Step-Held s (Reach-Held r)

  -- In every reachable state at most one flush is under way, unless the flusher is in its last
  -- flush, which does not take the flag: then there may be two.
  pub in_flight_bound :
      {w : PersistenceWorker}
      → Reach decode w
      → (in_flight w ≤ 1) ⊎ ((w.flusher ≡ last_flush) × (in_flight w ≤ 2))
  unfolding in_flight
  in_flight_bound r = ground (arith, Reach-Held r)
