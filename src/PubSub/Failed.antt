-- ===== src/PubSub/Failed.antt =====
-- The callers that share a subscription whose ps.Receive fails (getOrCreate, lines 88-103).
use golang_learning.Prelude.{
  ℕ, ◌<◌, GoString, lookup, [], true, false, none, some, ◌≡◌, ◌≢◌, ◌⊎◌, refl, arith, Option-cases,
  Bool-cases, inl, inr, nat_eq,
}
use golang_learning.Domain.{PubSubToken}
use golang_learning.PubSub.{
  connecting, dispatching, closing, over, SessionSub, PubSubStream, find_or_create, subscribe,
  cleanup, dispatch, Json, Step, opens, connects, refuses, subscribes, cleans, receives, sends,
  takes, disconnects, forgets, Reach, next, create, forget, set_sub,
}
use golang_learning.PubSub.Sessions.{IsValid, Reach-IsValid}
use golang_learning.PubSub.Senders.{IsOwned, Reach-IsOwned}

-- Subscription i has failed, and nobody sends on channel c, which is empty.
record IsSilent (i c : ℕ) (s : PubSubStream) : Type 0 where
  pub known : i < s.next_sub
  pub ended : (s.subs i).phase ≡ over
  pub alive : (s.subs i).dead ≡ false
  pub made : c < s.next_channel
  pub idle : (j : ℕ) → (s.subs j).current ≡ some c → j ≡ i
  pub unsent : (j : ℕ) (token : PubSubToken) → (s.subs j).sending ≢ some (c, token)
  pub empty : s.queue c ≡ []

module _ {i c : ℕ} where
  create-IsSilent :
      (id : GoString) (s : PubSubStream) → IsSilent i c s → IsSilent i c (create id s).1
  create-IsSilent id s v = record {
    known = ground (arith, v.known);
    ended = ground (arith, v.ended, v.known);
    alive = ground (arith, v.alive, v.known);
    made = v.made;
    idle = λ j e. ground (arith, v.idle j);
    unsent = λ j token e. ground (arith, v.unsent j token);
    empty = v.empty;
  }

  forget-IsSilent : (id : GoString) (s : PubSubStream) → IsSilent i c s → IsSilent i c (forget id s)
  forget-IsSilent id s v = record {
    known = v.known;
    ended = v.ended;
    alive = v.alive;
    made = v.made;
    idle = v.idle;
    unsent = v.unsent;
    empty = v.empty;
  }

  find_or_create-IsSilent :
      (id : GoString) (s : PubSubStream) → IsSilent i c s → IsSilent i c (find_or_create id s).1
  unfolding find_or_create
  find_or_create-IsSilent id s v = elim (Option-cases (lookup id s.sessions)) [
    | inl missing ↦ rw (missing, find_or_create) (create-IsSilent id s v)
    | inr (j, found) ↦ elim (Bool-cases (s.subs j).dead) [
      | inl dead ↦
          rw (found, dead, find_or_create)
            (create-IsSilent id (forget id s) (forget-IsSilent id s v))
      | inr live ↦ rw (found, live, find_or_create) v
    ]
  ]

  subscribe-IsSilent : (j : ℕ) (s : PubSubStream) → IsSilent i c s → IsSilent i c (subscribe j s).1
  unfolding subscribe
  subscribe-IsSilent j s v = record {
    known = v.known;
    ended = ground (arith, v.ended);
    alive = ground (arith, v.alive);
    made = ground (arith, v.made);
    idle = λ k e. ground (arith, v.idle k, v.made);
    unsent = λ k token e. ground (arith, v.unsent k token, v.unsent j token);
    empty = ground (arith, v.empty, v.made);
  }

  -- Replacing a subscription by one that sends on nothing, or on what the old one sends on.
  set_sub-IsSilent :
      (j : ℕ) (sub : SessionSub) (s : PubSubStream)
      → (sub.current ≡ (s.subs j).current) ⊎ (sub.current ≡ none)
      → (sub.sending ≡ none) ⊎ (sub.sending ≡ (s.subs j).sending)
      → ((s.subs j).phase ≡ over → (sub.phase ≡ over) × (sub.dead ≡ (s.subs j).dead))
      → IsSilent i c s
      → IsSilent i c (set_sub j sub s)
  set_sub-IsSilent j sub s channel sent stays v = record {
    known = v.known;
    ended = ground (arith, v.ended, stays);
    alive = ground (arith, v.alive, v.ended, stays);
    made = v.made;
    idle = λ k e. ground (arith, v.idle k, v.idle j, channel);
    unsent = λ k token e. ground (arith, v.unsent k token, v.unsent j token, sent);
    empty = v.empty;
  }

  cleanup-IsSilent : (j d : ℕ) (s : PubSubStream) → IsSilent i c s → IsSilent i c (cleanup j d s)
  unfolding cleanup
  cleanup-IsSilent j d s v = elim (Option-cases (s.subs j).current) [
    | inl idle ↦ rw (idle, cleanup) v
    | inr (x, busy) ↦ elim (Bool-cases (nat_eq x d)) [
      | inl same ↦
          rw (busy, same, cleanup)
            (set_sub-IsSilent j (record (s.subs j) { current = none }) s (inr refl) (inr refl)
              (λ e. (e, refl)) v)
      | inr other ↦ rw (busy, other, cleanup) v
    ]
  ]

module _ (json : Json) where
  dispatch-IsSilent :
      {i c : ℕ} (j : ℕ) (message : GoString) (s : PubSubStream)
      → (s.subs j).phase ≡ dispatching
      → IsSilent i c s
      → IsSilent i c (dispatch json j message s)
  unfolding dispatch
  dispatch-IsSilent {i} {c} j message s runs v = elim (Option-cases (json.unmarshal message)) [
    | inl broken ↦ rw (broken, dispatch) v
    | inr (fields, read) ↦ elim (Option-cases (s.subs j).current) [
      | inl idle ↦ rw (read, idle, dispatch) v
      | inr (d, busy) ↦
          rw (read, busy, dispatch)
            (record {
              known = v.known;
              ended = ground (arith, v.ended);
              alive = ground (arith, v.alive);
              made = v.made;
              idle = λ k e. ground (arith, v.idle k, v.idle j);
              unsent = λ k token e. ground (arith, v.unsent k token, v.idle j, v.ended);
              empty = v.empty;
            })
    ]
  ]

  Step-IsSilent : {i c : ℕ} {s t : PubSubStream} → Step json s t → IsSilent i c s → IsSilent i c t
  Step-IsSilent {s = s} (opens id) v = find_or_create-IsSilent id s v
  Step-IsSilent {s = s} (connects {i = j} e) v =
      set_sub-IsSilent j (record (s.subs j) { phase = dispatching }) s (inl refl) (inr refl)
        (λ f. cc) v
  Step-IsSilent {s = s} (refuses {i = j} e) v =
      forget-IsSilent (s.subs j).session_id (set_sub j (record (s.subs j) { phase = over }) s) (
        set_sub-IsSilent j (record (s.subs j) { phase = over }) s (inl refl) (inr refl)
          (λ f. (refl, refl)) v)
  Step-IsSilent {s = s} (subscribes {i = j} l) v = subscribe-IsSilent j s v
  Step-IsSilent {s = s} (cleans j d) v = cleanup-IsSilent j d s v
  Step-IsSilent {s = s} (receives {i = j} message e f) v = dispatch-IsSilent j message s e v
  Step-IsSilent {c = c} {s = s} (sends {i = j} {c = d} {token = token} e l) v =
      let w =
        set_sub-IsSilent j (record (s.subs j) { sending = none }) s (inl refl) (inl refl)
          (λ f. (f, refl)) v in
      record {
        known = w.known;
        ended = w.ended;
        alive = w.alive;
        made = w.made;
        idle = w.idle;
        unsent = w.unsent;
        empty = ground (arith, v.empty, v.unsent j token);
      }
  Step-IsSilent (takes more) v = record {
    known = v.known;
    ended = v.ended;
    alive = v.alive;
    made = v.made;
    idle = v.idle;
    unsent = v.unsent;
    empty = ground (arith, v.empty);
  }
  Step-IsSilent {s = s} (disconnects {i = j} e f) v =
      set_sub-IsSilent j (record (s.subs j) { phase = closing; dead = true }) s (inl refl) (inl f)
        (λ g. cc) v
  Step-IsSilent {s = s} (forgets {i = j} e) v =
      forget-IsSilent (s.subs j).session_id (set_sub j (record (s.subs j) { phase = over }) s) (
        set_sub-IsSilent j (record (s.subs j) { phase = over }) s (inl refl) (inr refl)
          (λ f. (refl, refl)) v)

  -- What the steps reach from a state.
  pub data Later (s : PubSubStream) : PubSubStream → Type 0 where
    now : Later s s
    then : {t u : PubSubStream} → Later s t → Step json t u → Later s u

  Later-IsSilent : {i c : ℕ} {s t : PubSubStream} → Later s t → IsSilent i c s → IsSilent i c t
  Later-IsSilent now v = v
  Later-IsSilent (then l e) v = Step-IsSilent e (Later-IsSilent l v)

  -- ps.Receive fails for a subscription.
  abbrev pub refused : ℕ → PubSubStream → PubSubStream
  refused i s = forget (s.subs i).session_id (set_sub i (record (s.subs i) { phase = over }) s)

  refused-IsSilent :
      {i : ℕ} {s : PubSubStream}
      → IsValid s
      → IsOwned s
      → (s.subs i).phase ≡ connecting
      → IsSilent i s.next_channel (refused i (subscribe i s).1)
  unfolding subscribe
  refused-IsSilent {i} {s} valid v e = record {
    known = ground (arith, v.pending i);
    ended = ground arith;
    alive = ground (arith, v.pending i);
    made = ground arith;
    idle = λ j f. ground (arith, valid.fresh j s.next_channel);
    unsent = λ j token f. ground (arith, v.made j s.next_channel token);
    empty = ground arith;
  }

  -- While the goroutine that made a session's subscription still waits in ps.Receive, a second call
  -- of getOrCreate for the session returns that subscription at once, and Subscribe gives its
  -- caller a new channel. The Receive can then fail; and if it does, then in every later state the
  -- channel is empty, the subscription has no goroutine, and its `dead` is not closed.
  pub failed_receive_strands :
      {s : PubSubStream} {i : ℕ}
      → Reach json s
      → (s.subs i).phase ≡ connecting
      → lookup (s.subs i).session_id s.sessions ≡ some i
      → (find_or_create (s.subs i).session_id s ≡ (i, s))
        × Reach json (refused i (subscribe i s).1)
        × ((t : PubSubStream)
            → Later (refused i (subscribe i s).1) t
            → (t.queue (subscribe i s).0 ≡ [])
              × ((t.subs i).phase ≡ over)
              × ((t.subs i).dead ≡ false))
  unfolding subscribe find_or_create
  failed_receive_strands {s} {i} r waits found =
      let v = Reach-IsOwned json r in
      let (known, alive) = v.pending i waits in
      (
        rw (found, find_or_create, alive) refl,
        next (next r (subscribes known)) (refuses {i = i} (ground arith)),
        λ t l.
            let w = Later-IsSilent l (refused-IsSilent (Reach-IsValid json r) v waits) in
            (w.empty, w.ended, w.alive),
      )
