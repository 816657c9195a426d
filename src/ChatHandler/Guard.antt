-- ===== src/ChatHandler/Guard.antt =====
-- Who can read a history.
use golang_learning.Prelude.{
  GoString, eq_iff, eq_refl, false, List, map, none, ◌≡◌, ◌≢◌, ◌⊎◌, inl, inr, arith, Bool-cases,
}
use golang_learning.Domain.{Message, Error, is_redis_nil, ok, err, Result-cases}
use golang_learning.ChatHandler.{
  to_dto, forbidden, internal_error, failed, messages, Gateways, guard_session, get_history,
  get_history_db,
}

module _ (g : Gateways) where
  open g use {World, get_owner, cached_history, stored_history}

  guard_session_owner :
      (user_id session_id : GoString) (w : World)
      → get_owner session_id w ≡ ok user_id
      → guard_session g user_id session_id w ≡ none
  unfolding guard_session
  guard_session_owner user_id session_id w e = ground (arith, eq_refl user_id)

  -- For the recorded owner of a session the two endpoints answer with the cached and with the
  -- stored messages, or with the error of the read.
  pub get_history_owner :
      (user_id session_id : GoString) (w : World)
      → get_owner session_id w ≡ ok user_id
      → ((ms : List Message)
          → cached_history session_id w ≡ ok ms
          → get_history g user_id session_id w ≡ messages (map to_dto ms))
        × ((e : Error)
            → cached_history session_id w ≡ err e
            → get_history g user_id session_id w ≡ failed e)
        × ((ms : List Message)
            → stored_history session_id w ≡ ok ms
            → get_history_db g user_id session_id w ≡ messages (map to_dto ms))
        × ((e : Error)
            → stored_history session_id w ≡ err e
            → get_history_db g user_id session_id w ≡ failed e)
  unfolding get_history get_history_db
  get_history_owner user_id session_id w e =
      let passed = guard_session_owner user_id session_id w e in
      (λ ms h. ground arith, λ x h. ground arith, λ ms h. ground arith, λ x h. ground arith)

  -- For anyone else no endpoint answers with messages: the reply is 403 if the session has no owner
  -- or another one, and 500 if the owner cannot be read.
  pub get_history_others :
      (user_id session_id : GoString) (w : World)
      → get_owner session_id w ≢ ok user_id
      → let reply = get_history g user_id session_id w in
        (get_history_db g user_id session_id w ≡ reply)
        × ((reply ≡ forbidden)
            ⊎ ((e : Error) × (get_owner session_id w ≡ err e)
                × (is_redis_nil e ≡ false)
                × (reply ≡ internal_error)))
  unfolding get_history get_history_db
  get_history_others user_id session_id w ne = elim (Result-cases (get_owner session_id w)) [
    | inl (owner, e) ↦ (ground (arith, eq_iff owner user_id), ground (arith, eq_iff owner user_id))
    | inr (x, e) ↦ elim (Bool-cases (is_redis_nil x)) [
      | inl missing ↦ (ground arith, inl (ground arith))
      | inr broken ↦ (ground arith, inr (x, e, broken, ground arith))
    ]
  ]
