-- ===== src/PubSub/Sessions.antt =====
-- Which subscription the map names, and who sends on a channel.
use golang_learning.Prelude.{
  ℕ, ◌<◌, GoString, lookup, lookup-insert, lookup-delete, eq_iff, eq_refl, true, false, none, some,
  ◌≡◌, ◌≢◌, refl, arith, subst, Option-cases, Bool-cases, inl, inr, nat_eq, ◌⊎◌,
}
use golang_learning.PubSub.{
  dispatching, closing, over, SessionSub, PubSubStream, new_pub_sub_stream, find_or_create,
  subscribe, cleanup, dispatch, Json, Step, opens, connects, refuses, subscribes, to_token, cleans,
  receives, sends, takes, disconnects, forgets, Reach, start, next, create, forget, set_sub,
}

-- The map names a subscription of its session; one that is not dead unless its goroutine ends; and
-- a channel is current in one subscription only.
pub record IsValid (s : PubSubStream) : Type 0 where
  pub named :
      (id : GoString) (i : ℕ)
      → lookup id s.sessions ≡ some i
      → ((s.subs i).session_id ≡ id) × (i < s.next_sub)
  pub fresh : (i c : ℕ) → (s.subs i).current ≡ some c → c < s.next_channel
  pub single : (i j c : ℕ) → (s.subs i).current ≡ some c → (s.subs j).current ≡ some c → i ≡ j
  pub ended : (i : ℕ) → (s.subs i).phase ≡ closing → (s.subs i).dead ≡ true

new-IsValid : IsValid new_pub_sub_stream
unfolding new_pub_sub_stream lookup
new-IsValid = record {
  named = λ id i e. cc;
  fresh = λ i c e. cc;
  single = λ i j c e f. cc;
  ended = λ i e. cc;
}

create-IsValid : (id : GoString) (s : PubSubStream) → IsValid s → IsValid (create id s).1
create-IsValid id s v = record {
  named =
      λ j i e. ground (arith, lookup-insert id j s.next_sub s.sessions, eq_iff id j, v.named j i);
  fresh = λ i c e. ground (arith, v.fresh i c);
  single = λ i j c e f. ground (arith, v.single i j c);
  ended = λ i e. ground (arith, v.ended i);
}

forget-IsValid : (id : GoString) (s : PubSubStream) → IsValid s → IsValid (forget id s)
forget-IsValid id s v = record {
  named = λ j i e. ground (arith, lookup-delete id j s.sessions, v.named j i);
  fresh = v.fresh;
  single = v.single;
  ended = v.ended;
}

find_or_create-IsValid :
    (id : GoString) (s : PubSubStream) → IsValid s → IsValid (find_or_create id s).1
unfolding find_or_create
find_or_create-IsValid id s v = elim (Option-cases (lookup id s.sessions)) [
  | inl missing ↦ rw (missing, find_or_create) (create-IsValid id s v)
  | inr (i, found) ↦ elim (Bool-cases (s.subs i).dead) [
    | inl dead ↦
        rw (found, dead, find_or_create) (create-IsValid id (forget id s) (forget-IsValid id s v))
    | inr alive ↦ rw (found, alive, find_or_create) v
  ]
]

subscribe-IsValid : (i : ℕ) (s : PubSubStream) → IsValid s → IsValid (subscribe i s).1
unfolding subscribe
subscribe-IsValid i s v = record {
  named = λ id j e. ground (arith, v.named id j);
  fresh = λ j c e. ground (arith, v.fresh j c);
  single = λ j k c e f. ground (arith, v.single j k c, v.fresh j c, v.fresh k c);
  ended = λ j e. ground (arith, v.ended i, v.ended j);
}

-- Replacing a subscription by one of its session that has the same channel or none.
set_sub-IsValid :
    (i : ℕ) (sub : SessionSub) (s : PubSubStream)
    → sub.session_id ≡ (s.subs i).session_id
    → (sub.current ≡ (s.subs i).current) ⊎ (sub.current ≡ none)
    → (sub.phase ≡ closing → sub.dead ≡ true)
    → IsValid s
    → IsValid (set_sub i sub s)
set_sub-IsValid i sub s same channel dead v = record {
  named = λ id j e. ground (arith, v.named id j, same);
  fresh = λ j c e. ground (arith, v.fresh i c, v.fresh j c, channel);
  single = λ j k c e f. ground (arith, v.single j k c, channel);
  ended = λ j e. ground (arith, v.ended j, dead);
}

cleanup-IsValid : (i c : ℕ) (s : PubSubStream) → IsValid s → IsValid (cleanup i c s)
unfolding cleanup
cleanup-IsValid i c s v = elim (Option-cases (s.subs i).current) [
  | inl idle ↦ rw (idle, cleanup) v
  | inr (d, busy) ↦ elim (Bool-cases (nat_eq d c)) [
    | inl same ↦
        rw (busy, same, cleanup)
          (set_sub-IsValid i (record (s.subs i) { current = none }) s refl (inr refl) (v.ended i) v)
    | inr other ↦ rw (busy, other, cleanup) v
  ]
]

-- A dead subscription is replaced.
find_or_create-dead :
    (id : GoString) (i : ℕ) (s : PubSubStream)
    → lookup id s.sessions ≡ some i
    → (s.subs i).dead ≡ true
    → find_or_create id s ≡ create id (forget id s)
unfolding find_or_create
find_or_create-dead id i s found dead = rw (found, dead, find_or_create) refl

find_or_create-missing :
    (id : GoString) (s : PubSubStream)
    → lookup id s.sessions ≡ none
    → (find_or_create id s).0 ≡ s.next_sub
unfolding find_or_create
find_or_create-missing id s missing = rw (missing, find_or_create) refl

module _ (json : Json) where
  dispatch-IsValid :
      (i : ℕ) (message : GoString) (s : PubSubStream)
      → IsValid s
      → IsValid (dispatch json i message s)
  unfolding dispatch
  dispatch-IsValid i message s v = elim (Option-cases (json.unmarshal message)) [
    | inl broken ↦ rw (broken, dispatch) v
    | inr (fields, read) ↦ elim (Option-cases (s.subs i).current) [
      | inl idle ↦ rw (read, idle, dispatch) v
      | inr (c, busy) ↦
          rw (read, busy, dispatch)
            (set_sub-IsValid i (record (s.subs i) { sending = some (c, to_token fields) }) s refl
              (inl refl) (v.ended i) v)
    ]
  ]

  Step-IsValid : {s t : PubSubStream} → Step json s t → IsValid s → IsValid t
  Step-IsValid {s} (opens id) v = find_or_create-IsValid id s v
  Step-IsValid {s} (connects {i} e) v =
      set_sub-IsValid i (record (s.subs i) { phase = dispatching }) s refl (inl refl) (λ c. cc) v
  Step-IsValid {s} (refuses {i} e) v =
      let ended : PubSubStream = set_sub i (record (s.subs i) { phase = over }) s in
      forget-IsValid (s.subs i).session_id ended
        (set_sub-IsValid i (record (s.subs i) { phase = over }) s refl (inl refl) (λ c. cc) v)
  Step-IsValid {s} (subscribes {i} l) v = subscribe-IsValid i s v
  Step-IsValid {s} (cleans i c) v = cleanup-IsValid i c s v
  Step-IsValid {s} (receives {i} message e f) v = dispatch-IsValid i message s v
  Step-IsValid {s} (sends {i} {c} {token} e l) v =
      let w =
        set_sub-IsValid i (record (s.subs i) { sending = none }) s refl (inl refl) (v.ended i) v in
      record { named = w.named; fresh = w.fresh; single = w.single; ended = w.ended }
  Step-IsValid (takes more) v = record {
    named = v.named;
    fresh = v.fresh;
    single = v.single;
    ended = v.ended;
  }
  Step-IsValid {s} (disconnects {i} e f) v =
      set_sub-IsValid i (record (s.subs i) { phase = closing; dead = true }) s refl (inl refl)
        (λ c. refl) v
  Step-IsValid {s} (forgets {i} e) v =
      let ended : PubSubStream = set_sub i (record (s.subs i) { phase = over }) s in
      forget-IsValid (s.subs i).session_id ended
        (set_sub-IsValid i (record (s.subs i) { phase = over }) s refl (inl refl) (λ c. cc) v)

  pub Reach-IsValid : {s : PubSubStream} → Reach json s → IsValid s
  Reach-IsValid start = new-IsValid
  Reach-IsValid (next r e) = Step-IsValid e (Reach-IsValid r)

  -- In every state that the steps reach, the map names for a session a subscription of that
  -- session, and a channel is the current one of at most one subscription.
  pub channel_of_one_session :
      {s : PubSubStream}
      → Reach json s
      → ((id : GoString) (i : ℕ) → lookup id s.sessions ≡ some i → (s.subs i).session_id ≡ id)
        × ((i j c : ℕ) → (s.subs i).current ≡ some c → (s.subs j).current ≡ some c → i ≡ j)
  channel_of_one_session r = let v = Reach-IsValid r in (λ id i e. (v.named id i e).0, v.single)

  -- If the goroutine of a session's subscription has closed `dead` and not yet removed the session
  -- from the map, then there is a reachable state in which a new subscription of the session is
  -- connected and not dead, but the map does not name it, so that the next call of getOrCreate
  -- makes another one.
  pub stale_forget_orphans :
      {s : PubSubStream} {i : ℕ}
      → Reach json s
      → (s.subs i).phase ≡ closing
      → lookup (s.subs i).session_id s.sessions ≡ some i
      → (t : PubSubStream) × Reach json t
        × (lookup (s.subs i).session_id t.sessions ≡ none)
        × ((t.subs s.next_sub).session_id ≡ (s.subs i).session_id)
        × ((t.subs s.next_sub).phase ≡ dispatching)
        × ((t.subs s.next_sub).dead ≡ false)
        × ((find_or_create (s.subs i).session_id t).0 ≢ s.next_sub)
  stale_forget_orphans {s} {i} r closed found =
      let id = (s.subs i).session_id in
      let v = Reach-IsValid r in
      let n = s.next_sub in
      let opened = create id (forget id s) in
      let other = (v.named id i found).1 in
      let made = find_or_create-dead id i s found (v.ended i closed) in
      let r₁ : Reach json opened.1 = subst (λ o. Reach json o.1) made (next r (opens id)) in
      let connected = set_sub n (record (opened.1.subs n) { phase = dispatching }) opened.1 in
      let r₂ : Reach json connected = next r₁ (connects {i = n} (ground arith)) in
      let same : (connected.subs i).session_id ≡ id = ground arith in
      let t =
        forget (connected.subs i).session_id
          (set_sub i (record (connected.subs i) { phase = over }) connected) in
      let gone : lookup id t.sessions ≡ none =
        rw (same, lookup-delete id id connected.sessions, eq_refl id) refl in
      (
        t,
        next r₂ (forgets {i = i} (ground arith)),
        gone,
        ground arith,
        ground arith,
        ground arith,
        λ e. ground (arith, find_or_create-missing id t gone),
      )
