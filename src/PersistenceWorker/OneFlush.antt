-- ===== src/PersistenceWorker/OneFlush.antt =====
-- The worker has one flush under way at most that holds the flag.
use golang_learning.Prelude.{
  ◌+◌, GoString, GoMap, MapOrder, Option, ◌≡◌, ◌⊎◌, ◌≤◌, inl, inr, refl, ap, sym, subst, arith,
}
use golang_learning.Domain.{TokenEvent}
use golang_learning.Store.Interface.{IMessageStore}
use golang_learning.Persist.{TokenBuffer, PersistSession}
use golang_learning.PersistenceWorker.{
  PersistenceWorker, Flusher, waiting, ticking, last_flush, returned, new_persistence_worker,
  in_flight, busy,
}
use golang_learning.PersistenceWorker
use golang_learning.PersistenceWorker.Overlap.{in_flight_bound}
use golang_learning.PersistenceWorker.System.{
  System, Step, message, ticks, snapshot, reads, writes, fails, async_done, tick_done, cancel,
  shut_down, last_snapshot, last_reads, last_writes, last_fails, flusher_done, flagged,
  flag_flights, Reach, start, next,
}

flagged-le-busy : (f : Flusher) → flagged f ≤ busy f
flagged-le-busy waiting = omega arith
flagged-le-busy ticking = omega arith
flagged-le-busy last_flush = omega arith
flagged-le-busy returned = omega arith

in_flight-lower : (w : PersistenceWorker) → 1 ≤ flag_flights w → 1 ≤ in_flight w
unfolding in_flight
in_flight-lower w l = ground (arith, flagged-le-busy w.flusher)

in_flight-last : (w : PersistenceWorker) → w.flusher ≡ last_flush → 1 ≤ in_flight w
unfolding in_flight
in_flight-last w e = rw e (omega arith)

-- Every step of the worker with its store is one of the worker alone, or none.
Step-worker :
    (store : IMessageStore) (decode : GoString → Option TokenEvent)
    (first second : MapOrder TokenBuffer) {s t : System store}
    → Step store decode first second s t
    → (t.worker ≡ s.worker) ⊎ PersistenceWorker.Step decode s.worker t.worker
Step-worker store decode first second (message value) = inr (PersistenceWorker.message value)
Step-worker store decode first second (ticks w) = inr (PersistenceWorker.ticks w)
Step-worker store decode first second {s} (snapshot {m} {uc} l idle e) = inr (
    subst (λ u. PersistenceWorker.Step decode s.worker (record s.worker { use_case = u }))
      (ap (λ (p : Option (GoMap TokenBuffer) × PersistSession). p.1) e)
      (PersistenceWorker.snapshot (in_flight-lower s.worker l)))
Step-worker store decode first second (reads e) = inl refl
Step-worker store decode first second (writes e w) = inl refl
Step-worker store decode first second (fails e w) = inl refl
Step-worker store decode first second (async_done idle e) = inr (PersistenceWorker.async_done e)
Step-worker store decode first second (tick_done idle e) = inr (PersistenceWorker.tick_done e)
Step-worker store decode first second cancel = inr PersistenceWorker.cancel
Step-worker store decode first second (shut_down w c) = inr (PersistenceWorker.shut_down w c)
Step-worker store decode first second {s} (last_snapshot {m} {uc} l idle e) = inr (
    subst (λ u. PersistenceWorker.Step decode s.worker (record s.worker { use_case = u }))
      (ap (λ (p : Option (GoMap TokenBuffer) × PersistSession). p.1) e)
      (PersistenceWorker.snapshot (in_flight-last s.worker l)))
Step-worker store decode first second (last_reads e) = inl refl
Step-worker store decode first second (last_writes e w) = inl refl
Step-worker store decode first second (last_fails e w) = inl refl
Step-worker store decode first second (flusher_done l idle) = inr (PersistenceWorker.flusher_done l)

Reach-worker :
    (store : IMessageStore) (decode : GoString → Option TokenEvent)
    (first second : MapOrder TokenBuffer) (db : store.Db) {s : System store}
    → Reach store decode first second db s
    → PersistenceWorker.Reach decode s.worker
unfolding new_persistence_worker
Reach-worker store decode first second db start = PersistenceWorker.start
Reach-worker store decode first second db (next r e) =
    let earlier = Reach-worker store decode first second db r in
    elim (Step-worker store decode first second e) [
      | inl same ↦ subst (PersistenceWorker.Reach decode) (sym same) earlier
      | inr step ↦ PersistenceWorker.next earlier step
    ]

flag_flights-bound :
    (w : PersistenceWorker)
    → (in_flight w ≤ 1) ⊎ ((w.flusher ≡ last_flush) × (in_flight w ≤ 2))
    → flag_flights w ≤ 1
unfolding in_flight
flag_flights-bound w (inl l) = ground (arith, flagged-le-busy w.flusher)
flag_flights-bound w (inr (e, l)) = let few : w.async + 1 ≤ 2 = rw e at l in rw e (omega arith)

-- In every state of the worker with its store at most one call of Flush that holds the flag is
-- under way: `flight` has the place for it.
pub one_flush :
    (store : IMessageStore) (decode : GoString → Option TokenEvent)
    (first second : MapOrder TokenBuffer) (db : store.Db) {s : System store}
    → Reach store decode first second db s
    → flag_flights s.worker ≤ 1
one_flush store decode first second db {s} r =
    flag_flights-bound s.worker
      (in_flight_bound decode (Reach-worker store decode first second db r))
