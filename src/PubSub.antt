-- ===== src/PubSub.antt =====
-- internal/adapter/gateway/cache/pubsub_stream.go: one Redis subscription for each session, its
-- dispatch goroutine, and the channels of those who subscribe, as steps of one state. A
-- subscription outlives its entry in the map: subscriptions and channels are numbers. JSON is the
-- parameter `Json`, and what Redis delivers is the argument of a step.
pub mod Sessions
pub mod Payload
mod Senders
pub mod Failed
pub mod Tally
pub mod InOrder
mod Tests
use golang_learning.Prelude.{
  ℕ, ◌+◌, ◌<◌, GoString, GoMap, bytes, ◌==◌, lookup, insert, delete, Bool, true, false, List, [],
  ◌∷◌, ◌++◌, Option, none, some, if◌then◌else◌, nat_eq, length, ◌≡◌,
}
use golang_learning.Domain.{PubSubToken, Result}

-- The capacity of a channel that Subscribe makes.
abbrev pub channel_capacity : ℕ
channel_capacity = 100

-- Where a subscription stands: in ps.Receive, in the loop of its goroutine, between the two
-- deferred statements, or at its end.
pub data Phase : Type 0 where
  connecting dispatching closing over : Phase

-- sessionSub; `sending` is the send that its goroutine is blocked in.
pub record SessionSub : Type 0 where
  pub session_id : GoString
  pub current : Option ℕ
  pub dead : Bool
  pub phase : Phase
  pub sending : Option (ℕ × PubSubToken)

-- PubSubStreamImpl
pub record PubSubStream : Type 0 where
  pub sessions : GoMap ℕ
  pub subs : ℕ → SessionSub
  pub next_sub : ℕ
  pub queue : ℕ → List PubSubToken
  pub next_channel : ℕ

abbrev pub new_sub : GoString → SessionSub
new_sub session_id = record {
  session_id = session_id;
  current = none;
  dead = false;
  phase = connecting;
  sending = none;
}

unfoldable pub new_pub_sub_stream : PubSubStream
new_pub_sub_stream = record {
  sessions = [];
  subs = λ i. record (new_sub []) { phase = over };
  next_sub = 0;
  queue = λ c. [];
  next_channel = 0;
}

-- A function with one value replaced.
abbrev pub update {ℓ} : {A : Type ℓ} → (ℕ → A) → ℕ → A → ℕ → A
update f i a j = if nat_eq i j then a else f j

abbrev pub set_sub : ℕ → SessionSub → PubSubStream → PubSubStream
set_sub i sub s = record s { subs = update s.subs i sub }

abbrev pub create : GoString → PubSubStream → ℕ × PubSubStream
create session_id s = (
  s.next_sub,
  record s {
    sessions = insert session_id s.next_sub s.sessions;
    subs = update s.subs s.next_sub (new_sub session_id);
    next_sub = s.next_sub + 1;
  },
)

abbrev pub forget : GoString → PubSubStream → PubSubStream
forget session_id s = record s { sessions = delete session_id s.sessions }

-- The locked part of getOrCreate: the subscription of the session, a new one if there is none or
-- if it is dead.
unfoldable pub find_or_create : GoString → PubSubStream → ℕ × PubSubStream
find_or_create session_id s = elim (lookup session_id s.sessions) [
  | none ↦ create session_id s
  | some i ↦ if (s.subs i).dead then create session_id (forget session_id s) else (i, s)
]

-- The rest of Subscribe: a new channel, which becomes the current one.
unfoldable pub subscribe : ℕ → PubSubStream → ℕ × PubSubStream
subscribe i s = (
  s.next_channel,
  record s {
    subs = update s.subs i (record (s.subs i) { current = some s.next_channel });
    queue = update s.queue s.next_channel [];
    next_channel = s.next_channel + 1;
  },
)

-- The cleanup that Subscribe returns for a channel.
unfoldable pub cleanup : ℕ → ℕ → PubSubStream → PubSubStream
cleanup i c s = elim (s.subs i).current [
  | none ↦ s
  | some d ↦ if nat_eq d c then set_sub i (record (s.subs i) { current = none }) s else s
]

pub record Json : Type 0 where
  pub marshal : GoMap GoString → GoString
  pub unmarshal : GoString → Option (GoMap GoString)

-- The map that Publish marshals.
unfoldable pub payload : GoString → GoString → Bool → GoMap GoString
unfolding bytes
payload request_id delta done =
    (bytes "request_id", request_id)
    ∷ (bytes "delta", delta)
    ∷ (bytes "done", if done then bytes "1" else bytes "0")
    ∷ []

-- `data[key]`
abbrev pub field : GoMap GoString → GoString → GoString
field fields key = elim (lookup key fields) [ none ↦ [] | some value ↦ value ]

-- The token that the goroutine makes of the unmarshalled map.
unfoldable pub to_token : GoMap GoString → PubSubToken
unfolding bytes
to_token fields = record {
  request_id = field fields (bytes "request_id");
  delta = field fields (bytes "delta");
  done = field fields (bytes "done") == bytes "1";
}

unfoldable pub session_key : GoString → GoString
unfolding bytes
session_key session_id = bytes "pubsub:session:" ++ session_id

-- Publish, over the client's Publish; marshalling a map of strings does not fail.
module _ (json : Json) {World : Type 0}
    (client_publish : GoString → GoString → World → World × Result (Unit {0})) where
  unfoldable pub publish : GoString → GoString → GoString → Bool → World → World × Result (Unit {0})
  unfolding session_key payload
  publish session_id request_id delta done =
      client_publish (session_key session_id) (json.marshal (payload request_id delta done))

module _ (json : Json) where
  -- The body of the loop up to the send: a message that does not unmarshal, or that finds no
  -- current channel, is dropped.
  unfoldable pub dispatch : ℕ → GoString → PubSubStream → PubSubStream
  unfolding to_token
  dispatch i message s = elim (json.unmarshal message) [
    | none ↦ s
    | some fields ↦ elim (s.subs i).current [
      | none ↦ s
      | some c ↦ set_sub i (record (s.subs i) { sending = some (c, to_token fields) }) s
    ]
  ]

  -- `takes` is the caller that receives from its channel.
  pub data Step (s : PubSubStream) : PubSubStream → Type 0 where
    opens : (session_id : GoString) → Step s (find_or_create session_id s).1
    connects :
        {i : ℕ}
        → (s.subs i).phase ≡ connecting
        → Step s (set_sub i (record (s.subs i) { phase = dispatching }) s)
    refuses :
        {i : ℕ}
        → (s.subs i).phase ≡ connecting
        → Step s (forget (s.subs i).session_id (set_sub i (record (s.subs i) { phase = over }) s))
    subscribes : {i : ℕ} → i < s.next_sub → Step s (subscribe i s).1
    cleans : (i c : ℕ) → Step s (cleanup i c s)
    receives :
        {i : ℕ} (message : GoString)
        → (s.subs i).phase ≡ dispatching
        → (s.subs i).sending ≡ none
        → Step s (dispatch i message s)
    sends :
        {i c : ℕ} {token : PubSubToken}
        → (s.subs i).sending ≡ some (c, token)
        → length (s.queue c) < channel_capacity
        → Step s (
            set_sub i
              (record (s.subs i) { sending = none })
              (record s { queue = update s.queue c (s.queue c ++ token ∷ []) }))
    takes :
        {c : ℕ} {token : PubSubToken} {rest : List PubSubToken}
        → s.queue c ≡ token ∷ rest
        → Step s (record s { queue = update s.queue c rest })
    disconnects :
        {i : ℕ}
        → (s.subs i).phase ≡ dispatching
        → (s.subs i).sending ≡ none
        → Step s (set_sub i (record (s.subs i) { phase = closing; dead = true }) s)
    forgets :
        {i : ℕ}
        → (s.subs i).phase ≡ closing
        → Step s (forget (s.subs i).session_id (set_sub i (record (s.subs i) { phase = over }) s))

  pub data Reach : PubSubStream → Type 0 where
    start : Reach new_pub_sub_stream
    next : {s t : PubSubStream} → Reach s → Step s t → Reach t
