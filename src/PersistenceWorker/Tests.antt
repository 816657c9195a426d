-- ===== src/PersistenceWorker/Tests.antt =====
-- The worker's theorems after as many tokens as the threshold asks for.
use golang_learning.Prelude.{
  inl, MapOrder, GoMap, as_inserted, ◌∷◌, ◌++◌, none, true, arith, ℕ, zero, suc, ◌≤◌, GoString,
  Option, some, false, ◌≡◌, ◌⊎◌, refl, [], lookup, insert, ◌==◌,
}
use golang_learning.Domain.{TokenEvent}
use golang_learning.Persist.{
  TokenBuffer, add_token, should_flush, new_persist_session, take_snapshot, read_existing,
  write_merged,
}
use golang_learning.Persist.Batches.{text_for, answer}
use golang_learning.Store.Interface.{IMessageStore}
use golang_learning.Store.Content.{message_store_laws}
use golang_learning.Store.{message_store, bulk_upsert_messages, get_content_by_request_ids}
use golang_learning.Store.Memory.{memory, memory_laws, Table}
use golang_learning.PersistenceWorker.{
  PersistenceWorker, last_flush, waiting, ticking, new_persistence_worker, in_flight, receive, tick,
}
use golang_learning.PersistenceWorker
use golang_learning.Lifecycle.{Process, running, exited, begins, goes, on_start, runs}
use golang_learning.PersistenceWorker.Process.{Lives, exit_loses_buffers}
use golang_learning.PersistenceWorker.System.{
  System, initial, no_flush, taken, Reach, start, next, message, ticks, snapshot, reads, writes,
}
use golang_learning.PersistenceWorker.Refinement.{whole_text, whole_text_refines}
use golang_learning.PersistenceWorker.Overlap.{in_flight_bound}

abbrev any_token : GoString → Option TokenEvent
any_token value =
    some (record { request_id = []; session_id = []; user_message = []; delta = []; done = false })

-- The worker after a number of tokens.
fed : ℕ → PersistenceWorker
fed zero = new_persistence_worker
fed (suc n) = receive any_token [] (fed n)

Reach-fed : (n : ℕ) → PersistenceWorker.Reach any_token (fed n)
unfolding fed
Reach-fed zero = PersistenceWorker.start
Reach-fed (suc n) = PersistenceWorker.next (Reach-fed n) (PersistenceWorker.message [])

in_flight_bound_example :
    (in_flight (fed 500) ≤ 1) ⊎ (((fed 500).flusher ≡ last_flush) × (in_flight (fed 500) ≤ 2))
in_flight_bound_example = in_flight_bound any_token (Reach-fed 500)

-- The worker with a store in memory: one token comes, a tick starts a flush, and it has been
-- written.
abbrev store : IMessageStore
store = message_store memory (as_inserted (Unit {0}))

abbrev orders : MapOrder TokenBuffer
orders = as_inserted TokenBuffer

abbrev fresh : Table
fresh = record { broken = false; at_key = λ i k. none }

abbrev hello : TokenEvent
hello = record {
  request_id = 1 ∷ [];
  session_id = 2 ∷ [];
  user_message = [];
  delta = 4 ∷ [];
  done = true;
}

abbrev decode : GoString → Option TokenEvent
decode value = some hello

abbrev fed_once : System store
fed_once = record (initial store fresh) {
  worker = receive decode [] new_persistence_worker;
  received = hello ∷ [];
}

abbrev buffer : GoMap TokenBuffer
buffer = (1 ∷ [], record { session_id = 2 ∷ []; user_message = []; content = 4 ∷ [] }) ∷ []

abbrev flying : System store
flying = record fed_once {
  worker = record (tick fed_once.worker) { use_case = new_persist_session };
  flight = taken buffer;
}

Reach-flying : Reach store decode orders orders fresh flying
unfolding receive new_persistence_worker tick in_flight take_snapshot new_persist_session add_token
    should_flush insert lookup ◌==◌
Reach-flying = next (next (next start (message [])) (ticks refl)) (snapshot (omega arith) refl refl)

abbrev written : System store
written = record flying {
  flight = no_flush;
  db =
      (write_merged store orders orders buffer (read_existing store orders orders buffer fresh)
        fresh).0;
}

Reach-written : Reach store decode orders orders fresh written
unfolding read_existing write_merged bulk_upsert_messages get_content_by_request_ids
Reach-written = next (next Reach-flying (reads refl)) (writes refl refl)

whole_text_refines_example :
    let laws = message_store_laws memory_laws (as_inserted (Unit {0})) in
    whole_text laws decode orders orders written (1 ∷ [])
    ≡ answer laws orders orders fresh (1 ∷ []) ++ text_for (1 ∷ []) (hello ∷ [])
unfolding tick receive should_flush add_token new_persistence_worker new_persist_session
whole_text_refines_example =
    whole_text_refines (message_store_laws memory_laws (as_inserted (Unit {0}))) decode orders
      orders fresh Reach-written refl (inl refl) (1 ∷ [])

-- A process that has buffered one token.
abbrev buffering : Process PersistenceWorker
buffering = record { phase = running; worker = receive decode [] new_persistence_worker }

Lives-buffering : Lives decode buffering
unfolding receive new_persistence_worker add_token should_flush new_persist_session insert lookup
    ◌==◌
Lives-buffering =
    goes (goes begins (on_start refl)) (runs (inl refl) (PersistenceWorker.message [], refl))

exit_loses_buffers_example :
    (q : Process PersistenceWorker) × Lives decode q
    × (q.phase ≡ exited)
    × (q.worker.use_case ≡ buffering.worker.use_case)
    × ((q.worker.flusher ≡ waiting) ⊎ (q.worker.flusher ≡ ticking))
exit_loses_buffers_example = exit_loses_buffers decode Lives-buffering refl
