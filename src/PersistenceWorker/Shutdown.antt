-- ===== src/PersistenceWorker/Shutdown.antt =====
-- That two flushes of the persistence worker overlap only in a shutdown.
use golang_learning.Prelude.{GoString, MapOrder, Option, true, ◌≡◌, refl, arith}
use golang_learning.Domain.{TokenEvent}
use golang_learning.Store.Interface.{IMessageStore}
use golang_learning.Persist.{TokenBuffer}
use golang_learning.PersistenceWorker.{last_flush, new_persistence_worker, receive, tick}
use golang_learning.PersistenceWorker.System.{
  System, Step, message, ticks, snapshot, reads, writes, fails, async_done, tick_done, cancel,
  shut_down, last_snapshot, last_reads, last_writes, last_fails, flusher_done, flies, Reach, start,
  next,
}

module _ {store : IMessageStore} (decode : GoString → Option TokenEvent)
    (first second : MapOrder TokenBuffer) where
  -- Flushes overlap only in a shutdown.
  pub record IsShut (s : System store) : Type 0 where
    pub late : s.worker.flusher ≡ last_flush → s.worker.cancelled ≡ true
    pub flown : flies store s.last ≡ true → s.worker.cancelled ≡ true
    pub both : s.overlapped ≡ true → s.worker.cancelled ≡ true

  Step-IsShut : {s t : System store} → Step store decode first second s t → IsShut s → IsShut t
  unfolding receive tick
  Step-IsShut (message value) v = record {
    late = λ e. ground (arith, v.late);
    flown = λ e. ground (arith, v.flown);
    both = λ e. ground (arith, v.both);
  }
  Step-IsShut (ticks w) v = record {
    late = λ e. ground (arith, v.late);
    flown = λ e. ground (arith, v.flown);
    both = λ e. ground (arith, v.both);
  }
  Step-IsShut (snapshot l idle e) v = record {
    late = v.late;
    flown = v.flown;
    both = λ o. ground (arith, v.both, v.flown);
  }
  Step-IsShut (reads e) v = record { late = v.late; flown = v.flown; both = v.both }
  Step-IsShut (writes e w) v = record { late = v.late; flown = v.flown; both = v.both }
  Step-IsShut (fails e w) v = record { late = v.late; flown = v.flown; both = v.both }
  Step-IsShut (async_done idle e) v = record { late = v.late; flown = v.flown; both = v.both }
  Step-IsShut (tick_done idle e) v = record { late = λ f. cc; flown = v.flown; both = v.both }
  Step-IsShut cancel v = record { late = λ e. refl; flown = λ e. refl; both = λ e. refl }
  Step-IsShut (shut_down e c) v = record { late = λ f. c; flown = v.flown; both = v.both }
  Step-IsShut (last_snapshot l idle e) v = record {
    late = v.late;
    flown = λ f. v.late l;
    both = λ o. v.late l;
  }
  Step-IsShut (last_reads e) v = record {
    late = v.late;
    flown = λ f. v.flown (ground (arith, e));
    both = v.both;
  }
  Step-IsShut (last_writes e w) v = record { late = v.late; flown = λ f. cc; both = v.both }
  Step-IsShut (last_fails e w) v = record { late = v.late; flown = λ f. cc; both = v.both }
  Step-IsShut (flusher_done e idle) v = record { late = λ f. cc; flown = v.flown; both = v.both }

  pub Reach-IsShut :
      (db : store.Db) {s : System store} → Reach store decode first second db s → IsShut s
  unfolding new_persistence_worker
  Reach-IsShut db start = record { late = λ e. cc; flown = λ e. cc; both = λ e. cc }
  Reach-IsShut db (next r e) = Step-IsShut e (Reach-IsShut db r)
