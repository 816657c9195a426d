-- ===== src/StreamingWorker.antt =====
-- internal/adapter/controller/consumer/streaming_worker.go: the router, which is one goroutine, and
-- the goroutines that process one request each, as steps of one state. Channels are numbers;
-- `queue` holds what is buffered in each, and `sending` the send that the router is blocked in.
pub mod Processors
pub mod Stranded
pub mod Blocked
pub mod Queued
pub mod Taken
pub mod Order
mod Tests
use golang_learning.Prelude.{
  ℕ, ◌+◌, ◌<◌, GoString, GoMap, lookup, insert, delete, Bool, true, false, List, [], ◌∷◌, ◌++◌,
  Option, none, some, if◌then◌else◌, nat_eq, length, In, here, there, ◌≡◌,
}

pub record StreamToken : Type 0 where
  pub request_id : GoString
  pub delta : GoString
  pub done : Bool

abbrev pub channel_capacity : ℕ
channel_capacity = 32

-- A goroutine in processRequest; `leaving` once its loop has returned and the deferred removal of
-- the channel is still to come.
pub record Processor : Type 0 where
  pub request_id : GoString
  pub channel : ℕ
  pub leaving : Bool

-- `handled` are the tokens that have been handed to StreamTokensUseCase.Execute, the latest first.
pub record StreamingWorker : Type 0 where
  pub channels : GoMap ℕ
  pub processors : List Processor
  pub queue : ℕ → List StreamToken
  pub next_channel : ℕ
  pub sending : Option (ℕ × StreamToken)
  pub handled : List StreamToken

unfoldable pub new_streaming_worker : StreamingWorker
new_streaming_worker = record {
  channels = [];
  processors = [];
  queue = λ c. [];
  next_channel = 0;
  sending = none;
  handled = [];
}

abbrev pub set_queue : (ℕ → List StreamToken) → ℕ → List StreamToken → ℕ → List StreamToken
set_queue queue c tokens d = if nat_eq c d then tokens else queue d

-- route under its lock: the channel of the request, new and with a goroutine if there is none; the
-- router then stands before the send.
unfoldable pub route : StreamToken → StreamingWorker → StreamingWorker
route token w = elim (lookup token.request_id w.channels) [
  | some c ↦ record w { sending = some (c, token) }
  | none ↦ record w {
    channels = insert token.request_id w.next_channel w.channels;
    processors =
        record { request_id = token.request_id; channel = w.next_channel; leaving = false }
        ∷ w.processors;
    queue = set_queue w.queue w.next_channel [];
    next_channel = w.next_channel + 1;
    sending = some (w.next_channel, token);
  }
]

-- The list with one position taken out, and with one position replaced.
unfoldable pub remove_at : {p : Processor} (ps : List Processor) → In p ps → List Processor
remove_at [] i = elim i [ ]
remove_at (p ∷ ps) here = ps
remove_at (p ∷ ps) (there i) = p ∷ remove_at ps i

unfoldable pub leave_at : {p : Processor} (ps : List Processor) → In p ps → List Processor
leave_at [] i = elim i [ ]
leave_at (p ∷ ps) here = record p { leaving = true } ∷ ps
leave_at (p ∷ ps) (there i) = p ∷ leave_at ps i

-- `take` receives and executes a token that is not the last of its request, `take_last` one that
-- is; `give_up` is the timeout or the end of the context; `exit` is the deferred removal.
pub data Step (w : StreamingWorker) : StreamingWorker → Type 0 where
  routes : (token : StreamToken) → w.sending ≡ none → Step w (route token w)
  sends :
      {c : ℕ} {token : StreamToken}
      → w.sending ≡ some (c, token)
      → length (w.queue c) < channel_capacity
      → Step w (record w { queue = set_queue w.queue c (w.queue c ++ token ∷ []); sending = none })
  abandons : Step w (record w { sending = none })
  take :
      {p : Processor} {token : StreamToken} {rest : List StreamToken} (i : In p w.processors)
      → p.leaving ≡ false
      → w.queue p.channel ≡ token ∷ rest
      → token.done ≡ false
      → Step w (record w { queue = set_queue w.queue p.channel rest; handled = token ∷ w.handled })
  take_last :
      {p : Processor} {token : StreamToken} {rest : List StreamToken} (i : In p w.processors)
      → p.leaving ≡ false
      → w.queue p.channel ≡ token ∷ rest
      → token.done ≡ true
      → Step w (record w {
        queue = set_queue w.queue p.channel rest;
        handled = token ∷ w.handled;
        processors = leave_at w.processors i;
      })
  give_up :
      {p : Processor} (i : In p w.processors)
      → p.leaving ≡ false
      → Step w (record w { processors = leave_at w.processors i })
  exit :
      {p : Processor} (i : In p w.processors)
      → p.leaving ≡ true
      → Step w (record w {
        processors = remove_at w.processors i;
        channels = delete p.request_id w.channels;
      })

pub data Reach : StreamingWorker → Type 0 where
  start : Reach new_streaming_worker
  next : {w v : StreamingWorker} → Reach w → Step w v → Reach v
