-- ===== src/Cache/History.antt =====
-- What the conversation cache returns.
use golang_learning.Prelude.{
  ◌≤◌, GoString, List, [], ◌∷◌, map, length, ◌≡◌, refl, ap, sym, ◌∙◌, arith, All, subst, inl, inr,
  Option-cases, Option, none, some, true,
}
use golang_learning.Domain.{Message, Result, ok, Result-cases}
use golang_learning.Cache.Client.{Redis, RedisLaws}
use golang_learning.Cache.{MessageRecord, RecordCodec, unmarshal_all, get_history, conversation_key}

ok-injective {ℓ} : {A : Type ℓ} {a b : A} → ◌≡◌ {A = Result A} (ok a) (ok b) → a ≡ b
ok-injective e = ground arith

-- The message that is read from a record, if there is one.
abbrev read_as : GoString → Message → Option MessageRecord → Message
read_as session_id m none = m
read_as session_id m (some rec) = record {
  session_id = session_id;
  request_id = rec.request_id;
  role = rec.role;
  content = rec.content;
}

module _ {r : Redis} (laws : RedisLaws r) (codec : RecordCodec) where
  -- The member that SaveMessage adds for a message.
  abbrev pub stored_as : Message → GoString
  stored_as m =
      codec.marshal (record { role = m.role; content = m.content; request_id = m.request_id })

  -- A message of the session whose texts are UTF-8.
  pub record IsSavable (session_id : GoString) (m : Message) : Type 0 where
    pub of_session : m.session_id ≡ session_id
    pub valid_role : codec.valid m.role ≡ true
    pub valid_content : codec.valid m.content ≡ true
    pub valid_request_id : codec.valid m.request_id ≡ true

  unmarshal-stored_as :
      (session_id : GoString) (m : Message)
      → IsSavable session_id m
      → codec.unmarshal (stored_as m)
        ≡ some (record { role = m.role; content = m.content; request_id = m.request_id })
  unmarshal-stored_as session_id m v =
      codec.unmarshal-marshal
        (record { role = m.role; content = m.content; request_id = m.request_id }) v.valid_role
        v.valid_content v.valid_request_id

  -- Messages of the session that have one member are one message.
  pub stored_as-injective :
      (session_id : GoString) (m n : Message)
      → IsSavable session_id m
      → IsSavable session_id n
      → stored_as m ≡ stored_as n
      → m ≡ n
  stored_as-injective session_id m n v u e =
      let same =
        sym (unmarshal-stored_as session_id m v)
        ∙ ap codec.unmarshal e
        ∙ unmarshal-stored_as session_id n u in
      ap (λ (s : GoString). record m { session_id = s }) v.of_session
      ∙ ap (read_as session_id m) same
      ∙ ap (λ (s : GoString). record n { session_id = s }) (sym u.of_session)

  pub unmarshal_all-map :
      (session_id : GoString) (ms : List Message)
      → All (IsSavable session_id) ms
      → unmarshal_all r codec session_id (map stored_as ms) ≡ ms
  unfolding unmarshal_all
  unmarshal_all-map session_id [] h = refl
  unmarshal_all-map session_id (m ∷ ms) h =
      rw (unmarshal-stored_as session_id m h.0, unmarshal_all-map session_id ms h.1)
        (ap (λ (s : GoString). record m { session_id = s } ∷ ms) (sym h.0.of_session))

  All-unmarshal_all :
      (session_id : GoString) (raw : List GoString)
      → All (λ m. m.session_id ≡ session_id) (unmarshal_all r codec session_id raw)
        × (length (unmarshal_all r codec session_id raw) ≤ length raw)
  unfolding unmarshal_all
  All-unmarshal_all session_id [] = (tt, omega arith)
  All-unmarshal_all session_id (m ∷ raw) =
      let (own, short) = All-unmarshal_all session_id raw in
      elim (Option-cases (codec.unmarshal m)) [
        | inl skipped ↦ rw skipped (own, omega arith)
        | inr (rec, read) ↦ rw read ((refl, own), omega arith)
      ]

  -- A history that is returned was made from the members that ZRANGE has answered with.
  pub get_history-eq-ok :
      (session_id : GoString) (w : r.World) (found : List Message)
      → get_history r codec session_id w ≡ ok found
      → (raw : List GoString) × (r.z_range (conversation_key session_id) 20 1 w ≡ ok raw)
        × (unmarshal_all r codec session_id raw ≡ found)
  unfolding get_history
  get_history-eq-ok session_id w found e =
      elim (Result-cases (r.z_range (conversation_key session_id) 20 1 w)) [
        | inl (raw, z) ↦ (raw, z, ok-injective (rw (z, get_history) at e))
        | inr (x, z) ↦ absurd (ground arith)
      ]

  -- A history that is returned has at most 20 messages, all of the session that was asked for,
  -- whatever the members of the sorted set are.
  pub get_history_bounds :
      (session_id : GoString) (w : r.World) (found : List Message)
      → get_history r codec session_id w ≡ ok found
      → (length found ≤ 20) × All (λ m. m.session_id ≡ session_id) found
  get_history_bounds session_id w found e =
      let (raw, z, same) = get_history-eq-ok session_id w found e in
      let (own, short) = All-unmarshal_all session_id raw in
      let (few, _) = laws.z_range_last (conversation_key session_id) 20 w raw z in
      subst (λ ms. (length ms ≤ 20) × All (λ m. m.session_id ≡ session_id) ms) same
        (omega arith, own)
