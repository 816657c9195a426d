-- ===== src/Cache.antt =====
-- internal/adapter/gateway/cache: session_owner.go, callback_store.go and conversation_cache.go.
-- The Redis client is the parameter `Redis`, one field for each command that the gateways issue.
pub mod Client
pub mod Ownership
pub mod Claims
pub mod History
pub mod Saved
pub mod Memory
mod Tests
use golang_learning.Prelude.{
  ℕ, GoString, bytes, ◌==◌, Bool, true, false, List, [], ◌∷◌, ◌++◌, Option, none, some,
  if◌then◌else◌, nat_eq, ◌≡◌,
}
use golang_learning.Domain.{Message, Result, ok, err}
use Client.{Redis}

-- The prefixes of the keys.
unfoldable pub session_owner_key : GoString → GoString
unfolding bytes
session_owner_key session_id = bytes "session_owner:" ++ session_id

unfoldable pub callback_key : GoString → GoString
unfolding bytes
callback_key request_id = bytes "stream:callback:" ++ request_id

unfoldable pub conversation_key : GoString → GoString
unfolding bytes
conversation_key session_id = bytes "conversation:" ++ session_id

-- Lifetimes in seconds: 24 hours and 5 minutes.
abbrev pub owner_ttl : ℕ
owner_ttl = 86400

abbrev pub callback_ttl : ℕ
callback_ttl = 300

-- messageRecord
pub record MessageRecord : Type 0 where
  pub role : GoString
  pub content : GoString
  pub request_id : GoString

-- encoding/json on messageRecord. `valid` is utf8.ValidString: other bytes are replaced.
pub record RecordCodec : Type 0 where
  pub marshal : MessageRecord → GoString
  pub unmarshal : GoString → Option MessageRecord
  pub valid : GoString → Bool
  pub unmarshal-marshal :
      (m : MessageRecord)
      → valid m.role ≡ true
      → valid m.content ≡ true
      → valid m.request_id ≡ true
      → unmarshal (marshal m) ≡ some m

module _ (r : Redis) where
  open r use {World, stored, set_ex, eval, set, get, z_add, expire, del, z_range}

  -- claimOwnerScript, which Redis runs as one step.
  unfoldable pub claim_owner_script : GoString → GoString → ℕ → World → World × ℕ
  claim_owner_script key user ttl w = elim (stored key w) [
    | none ↦ (set_ex key user ttl w, 1)
    | some existing ↦ if existing == user then (w, 1) else (w, 0)
  ]

  abbrev pub is_one : World × Result ℕ → World × Result Bool
  is_one (w, ok n) = (w, ok (nat_eq n 1))
  is_one (w, err e) = (w, err e)

  unfoldable pub claim_owner : GoString → GoString → World → World × Result Bool
  unfolding session_owner_key
  claim_owner session_id user_id w =
      is_one (eval (claim_owner_script (session_owner_key session_id) user_id owner_ttl) w)

  unfoldable pub get_owner : GoString → World → Result GoString
  get_owner session_id w = get (session_owner_key session_id) w

  unfoldable pub set_callback : GoString → GoString → World → World × Result (Unit {0})
  set_callback request_id grpc_addr w = set (callback_key request_id) grpc_addr callback_ttl w

  unfoldable pub get_callback : GoString → World → Result GoString
  get_callback request_id w = get (callback_key request_id) w

  module _ (codec : RecordCodec) where
    abbrev pub and_then :
        World × Result (Unit {0}) → (World → World × Result (Unit {0})) → World × Result (Unit {0})
    and_then (w, ok _) f = f w
    and_then (w, err e) f = (w, err e)

    -- `now` is the score: the time of the call.
    unfoldable pub save_message : ℕ → ℕ → Message → World → World × Result (Unit {0})
    save_message now ttl msg w =
        let key = conversation_key msg.session_id in
        and_then
          (z_add key now
            (codec.marshal
              (record { role = msg.role; content = msg.content; request_id = msg.request_id }))
            w)
          (expire key ttl)

    unfoldable pub delete_session : GoString → World → World × Result (Unit {0})
    delete_session session_id w = del (conversation_key session_id) w

    abbrev pub to_message : GoString → MessageRecord → Message
    to_message session_id m = record {
      session_id = session_id;
      request_id = m.request_id;
      role = m.role;
      content = m.content;
    }

    abbrev pub push : GoString → Option MessageRecord → List Message → List Message
    push session_id none messages = messages
    push session_id (some m) messages = to_message session_id m ∷ messages

    -- The loop of GetHistory: a member that does not unmarshal is skipped.
    unfoldable pub unmarshal_all : GoString → List GoString → List Message
    unmarshal_all session_id [] = []
    unmarshal_all session_id (m ∷ raw) =
        push session_id (codec.unmarshal m) (unmarshal_all session_id raw)

    abbrev messages_of : GoString → Result (List GoString) → Result (List Message)
    messages_of session_id (ok raw) = ok (unmarshal_all session_id raw)
    messages_of session_id (err e) = err e

    -- The last 20 members: those from -20 to -1.
    unfoldable pub get_history : GoString → World → Result (List Message)
    unfolding unmarshal_all
    get_history session_id w = messages_of session_id (z_range (conversation_key session_id) 20 1 w)
