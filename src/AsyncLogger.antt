-- ===== src/AsyncLogger.antt =====
-- internal/adapter/controller/http/middleware/async_logger.go: the middleware that hands the log
-- entry of each request to a goroutine over a bounded channel, as steps of one state. Writing an
-- entry with zap is the step `logs`.
pub mod Entries
mod Tests
use golang_learning.Prelude.{ℕ, GoString, List, [], ◌∷◌, ◌++◌, if◌then◌else◌, ltb, length, ◌≡◌}

-- The latency is a number of nanoseconds.
pub record LogEntry : Type 0 where
  pub method : GoString
  pub path : GoString
  pub status : ℕ
  pub latency : ℕ
  pub client_ip : GoString

abbrev pub channel_capacity : ℕ
channel_capacity = 8192

-- `logged` and `served` are the entries that have been written and those of all requests, the
-- latest first.
pub record AsyncLogger : Type 0 where
  pub channel : List LogEntry
  pub logged : List LogEntry
  pub served : List LogEntry

unfoldable pub new_async_logger : AsyncLogger
new_async_logger = record { channel = []; logged = []; served = [] }

-- The middleware, after the request has been served: a send that drops the entry if the channel is
-- full.
unfoldable pub after_request : LogEntry → AsyncLogger → AsyncLogger
after_request e l = record l {
  channel = if ltb (length l.channel) channel_capacity then l.channel ++ e ∷ [] else l.channel;
  served = e ∷ l.served;
}

pub data Step (l : AsyncLogger) : AsyncLogger → Type 0 where
  serves : (e : LogEntry) → Step l (after_request e l)
  logs :
      {e : LogEntry} {rest : List LogEntry}
      → l.channel ≡ e ∷ rest
      → Step l (record l { channel = rest; logged = e ∷ l.logged })

pub data Reach : AsyncLogger → Type 0 where
  start : Reach new_async_logger
  next : {l m : AsyncLogger} → Reach l → Step l m → Reach m
