-- ===== src/Hub.antt =====
-- internal/adapter/gateway/hub/token_hub.go: the channels of the requests that wait for tokens. A
-- channel outlives its entry in the map, since the handler holds it: channels are numbers, and
-- `queue` holds what is buffered in each.
pub mod Delivery
mod Tests
use golang_learning.Prelude.{
  ℕ, ◌+◌, GoString, GoMap, lookup, insert, delete, List, [], ◌∷◌, ◌++◌, Option, none, some,
  if◌then◌else◌, ltb, nat_eq, length,
}
use golang_learning.Domain.{PubSubToken}

-- The capacity of a channel.
abbrev pub channel_capacity : ℕ
channel_capacity = 1000

pub record TokenHub : Type 0 where
  pub pending : GoMap ℕ
  pub queue : ℕ → List PubSubToken
  pub next_channel : ℕ

unfoldable pub new_hub : TokenHub
new_hub = record { pending = []; queue = λ c. []; next_channel = 0 }

-- `queue` with one channel's buffer replaced.
abbrev pub set_queue : (ℕ → List PubSubToken) → ℕ → List PubSubToken → ℕ → List PubSubToken
set_queue queue c tokens d = if nat_eq c d then tokens else queue d

-- The new channel, and the hub with it; `unregister` is the cleanup that goes with it.
unfoldable pub register : GoString → TokenHub → ℕ × TokenHub
register request_id h = (
  h.next_channel,
  record {
    pending = insert request_id h.next_channel h.pending;
    queue = set_queue h.queue h.next_channel [];
    next_channel = h.next_channel + 1;
  },
)

unfoldable pub unregister : GoString → TokenHub → TokenHub
unregister request_id h = record h { pending = delete request_id h.pending }

-- A send that never blocks: a full channel drops the token.
unfoldable pub deliver : GoString → PubSubToken → TokenHub → TokenHub
deliver request_id token h = elim (lookup request_id h.pending) [
  | none ↦ h
  | some c ↦
      if ltb (length (h.queue c)) channel_capacity
      then record h { queue = set_queue h.queue c (h.queue c ++ token ∷ []) }
      else h
]
