-- ===== src/PersistenceWorker/System.antt =====
-- The persistence worker with its use case and the store, its shutdown included. The locked part of
-- a flush, its read and its write are steps of their own, between which messages keep coming. The
-- goroutines that take the flag flush one at a time (Overlap), in `flight`; the last flush of
-- runFlusher, which does not take the flag, can run beside them, in `last`. The steps allow more
-- than the code does: a call of Flush may take any number of snapshots.
use golang_learning.Prelude.{
  GoString, GoMap, MapOrder, List, [], ◌∷◌, ◌++◌, Option, none, some, Bool, true, false, ◌≡◌, ◌≤◌,
  ◌||◌, ◌+◌, suc, ℕ,
}
use golang_learning.Domain.{TokenEvent, Error, Result, ok, err}
use golang_learning.Store.Interface.{IMessageStore}
use golang_learning.Persist.{
  TokenBuffer, PersistSession, take_snapshot, read_existing, write_merged,
}
use golang_learning.PersistenceWorker.{
  PersistenceWorker, Flusher, new_persistence_worker, waiting, ticking, receive, tick, last_flush,
  returned,
}

-- The flushes under way that hold the flag.
abbrev pub flagged : Flusher → ℕ
flagged waiting = 0
flagged ticking = 1
flagged last_flush = 0
flagged returned = 0

abbrev pub flag_flights : PersistenceWorker → ℕ
flag_flights w = w.async + flagged w.flusher

abbrev pub decoded : Option TokenEvent → List TokenEvent
decoded none = []
decoded (some t) = t ∷ []

module _ (store : IMessageStore) where
  -- Where the flush stands: none, after its snapshot, or after its read.
  pub data Flight : Type 0 where
    no_flush : Flight
    taken : GoMap TokenBuffer → Flight
    read : GoMap TokenBuffer → Result (GoMap GoString) → Flight

  -- `received` are the tokens of all messages in their order, `failed` whether a flush has failed,
  -- `overlapped` whether two flushes have been under way at once.
  pub record System : Type 0 where
    pub worker : PersistenceWorker
    pub flight : Flight
    pub last : Flight
    pub db : store.Db
    pub received : List TokenEvent
    pub failed : Bool
    pub overlapped : Bool

  abbrev pub initial : store.Db → System
  initial db = record {
    worker = new_persistence_worker;
    flight = no_flush;
    last = no_flush;
    db = db;
    received = [];
    failed = false;
    overlapped = false;
  }

  -- A flush under way.
  abbrev pub flies : Flight → Bool
  flies no_flush = false
  flies (taken m) = true
  flies (read m reading) = true

  module _ (decode : GoString → Option TokenEvent) (first second : MapOrder TokenBuffer) where
    pub data Step (s : System) : System → Type 0 where
      message :
          (value : GoString)
          → Step s (record s {
            worker = receive decode value s.worker;
            received = s.received ++ decoded (decode value);
          })
      ticks : s.worker.flusher ≡ waiting → Step s (record s { worker = tick s.worker })
      snapshot :
          {m : GoMap TokenBuffer} {uc : PersistSession}
          → 1 ≤ flag_flights s.worker
          → s.flight ≡ no_flush
          → take_snapshot s.worker.use_case ≡ (some m, uc)
          → Step s (record s {
            worker = record s.worker { use_case = uc };
            flight = taken m;
            overlapped = s.overlapped || flies s.last;
          })
      reads :
          {m : GoMap TokenBuffer}
          → s.flight ≡ taken m
          → Step s (record s { flight = read m (read_existing store first second m s.db) })
      writes :
          {m : GoMap TokenBuffer} {reading : Result (GoMap GoString)} {db' : store.Db}
          → s.flight ≡ read m reading
          → write_merged store first second m reading s.db ≡ (db', ok tt)
          → Step s (record s { flight = no_flush; db = db' })
      fails :
          {m : GoMap TokenBuffer} {reading : Result (GoMap GoString)} {db' : store.Db} {e : Error}
          → s.flight ≡ read m reading
          → write_merged store first second m reading s.db ≡ (db', err e)
          → Step s (record s { flight = no_flush; db = db'; failed = true })
      async_done :
          {n : ℕ}
          → s.flight ≡ no_flush
          → s.worker.async ≡ suc n
          → Step s (record s { worker = record s.worker { async = n; flushing = false } })
      tick_done :
          s.flight ≡ no_flush
          → s.worker.flusher ≡ ticking
          → Step s (record s { worker = record s.worker { flusher = waiting; flushing = false } })
      cancel : Step s (record s { worker = record s.worker { cancelled = true } })
      shut_down :
          s.worker.flusher ≡ waiting
          → s.worker.cancelled ≡ true
          → Step s (record s { worker = record s.worker { flusher = last_flush } })
      last_snapshot :
          {m : GoMap TokenBuffer} {uc : PersistSession}
          → s.worker.flusher ≡ last_flush
          → s.last ≡ no_flush
          → take_snapshot s.worker.use_case ≡ (some m, uc)
          → Step s (record s {
            worker = record s.worker { use_case = uc };
            last = taken m;
            overlapped = s.overlapped || flies s.flight;
          })
      last_reads :
          {m : GoMap TokenBuffer}
          → s.last ≡ taken m
          → Step s (record s { last = read m (read_existing store first second m s.db) })
      last_writes :
          {m : GoMap TokenBuffer} {reading : Result (GoMap GoString)} {db' : store.Db}
          → s.last ≡ read m reading
          → write_merged store first second m reading s.db ≡ (db', ok tt)
          → Step s (record s { last = no_flush; db = db' })
      last_fails :
          {m : GoMap TokenBuffer} {reading : Result (GoMap GoString)} {db' : store.Db} {e : Error}
          → s.last ≡ read m reading
          → write_merged store first second m reading s.db ≡ (db', err e)
          → Step s (record s { last = no_flush; db = db'; failed = true })
      flusher_done :
          s.worker.flusher ≡ last_flush
          → s.last ≡ no_flush
          → Step s (record s { worker = record s.worker { flusher = returned } })

    pub data Reach (db : store.Db) : System → Type 0 where
      start : Reach db (initial db)
      next : {s t : System} → Reach db s → Step s t → Reach db t
