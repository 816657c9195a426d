-- ===== src/AsyncLogger/Tests.antt =====
-- Two requests, of which the first has been logged.
use golang_learning.Prelude.{ℕ, ◌≤◌, [], ◌∷◌, Sub, length, ◌≡◌, refl}
use golang_learning.AsyncLogger.{
  LogEntry, AsyncLogger, new_async_logger, after_request, channel_capacity, Reach, start, next,
  serves, logs,
}
use golang_learning.AsyncLogger.Entries.{accepted, entries_in_order}

abbrev entry : ℕ → LogEntry
entry n = record { method = []; path = n ∷ []; status = 200; latency = 0; client_ip = [] }

abbrev served_two : AsyncLogger
served_two = after_request (entry 2) (after_request (entry 1) new_async_logger)

abbrev logged_one : AsyncLogger
logged_one = record served_two { channel = entry 2 ∷ []; logged = entry 1 ∷ [] }

Reach-logged_one : Reach logged_one
unfolding after_request new_async_logger
Reach-logged_one = next (next (next start (serves (entry 1))) (serves (entry 2))) (logs refl)

entries_in_order_example :
    Sub (accepted logged_one) logged_one.served
    × (length logged_one.channel ≤ channel_capacity)
    × (length logged_one.served ≤ channel_capacity → accepted logged_one ≡ logged_one.served)
entries_in_order_example = entries_in_order Reach-logged_one
