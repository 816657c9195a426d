-- ===== src/PubSub/Payload.antt =====
-- What Publish writes and what the goroutine reads.
use golang_learning.Prelude.{
  ℕ, bytes, ◌==◌, GoString, GoMap, lookup, Bool, true, false, some, ◌≡◌, refl, arith,
}
use golang_learning.PubSub.{PubSubStream, Json, payload, to_token, dispatch, set_sub}

-- The token of a published map is the one that was published.
to_token-payload :
    (request_id delta : GoString) (done : Bool)
    → to_token (payload request_id delta done)
      ≡ record { request_id = request_id; delta = delta; done = done }
unfolding to_token payload lookup bytes ◌==◌
to_token-payload request_id delta true = refl
to_token-payload request_id delta false = refl

to_token-ext :
    (a b : GoMap GoString)
    → ((key : GoString) → lookup key a ≡ lookup key b)
    → to_token a ≡ to_token b
unfolding to_token
to_token-ext a b same =
    ground (arith, same (bytes "request_id"), same (bytes "delta"), same (bytes "done"))

module _ (json : Json) where
  -- If unmarshalling what Publish marshals gives back a map with the same entries, then a
  -- subscription whose current channel is c goes on to send the published token on c, and changes
  -- nothing else.
  pub dispatch-payload :
      (request_id delta : GoString) (done : Bool) (fields : GoMap GoString)
      → json.unmarshal (json.marshal (payload request_id delta done)) ≡ some fields
      → ((key : GoString) → lookup key fields ≡ lookup key (payload request_id delta done))
      → (i c : ℕ) (s : PubSubStream) → (s.subs i).current ≡ some c
      → dispatch json i (json.marshal (payload request_id delta done)) s
        ≡ set_sub i
            (record (s.subs i) {
              sending = some (c, record { request_id = request_id; delta = delta; done = done });
            })
            s
  unfolding dispatch
  dispatch-payload request_id delta done fields read same i c s busy = ground (
    arith,
    read,
    busy,
    to_token-ext fields (payload request_id delta done) same,
    to_token-payload request_id delta done,
  )
