-- ===== src/PubSub/Senders.antt =====
-- Which goroutine of a subscription sends on a channel, and when.
use golang_learning.Prelude.{
  ℕ, ◌<◌, GoString, lookup, true, false, none, some, ◌≡◌, refl, ◌⊎◌, arith, Option-cases,
  Bool-cases, inl, inr, nat_eq,
}
use golang_learning.PubSub.{
  connecting, dispatching, closing, over, SessionSub, PubSubStream, new_pub_sub_stream,
  find_or_create, subscribe, cleanup, dispatch, Json, Step, opens, connects, refuses, subscribes,
  cleans, receives, sends, takes, disconnects, forgets, Reach, start, next, create, forget, set_sub,
}
use golang_learning.Domain.{PubSubToken}
use golang_learning.PubSub.Sessions.{IsValid, Reach-IsValid}

-- A goroutine sends on a channel only while it runs, and on one that no other subscription has; a
-- subscription that is not yet connected is one that has been made, and it is not dead.
pub record IsOwned (s : PubSubStream) : Type 0 where
  pub running :
      (i c : ℕ) (token : PubSubToken)
      → (s.subs i).sending ≡ some (c, token)
      → (s.subs i).phase ≡ dispatching
  pub made :
      (i c : ℕ) (token : PubSubToken) → (s.subs i).sending ≡ some (c, token) → c < s.next_channel
  pub owned :
      (i j c : ℕ) (token : PubSubToken)
      → (s.subs i).sending ≡ some (c, token)
      → (s.subs j).current ≡ some c
      → i ≡ j
  pub pending :
      (i : ℕ) → (s.subs i).phase ≡ connecting → (i < s.next_sub) × ((s.subs i).dead ≡ false)

new-IsOwned : IsOwned new_pub_sub_stream
unfolding new_pub_sub_stream
new-IsOwned = record {
  running = λ i c token e. cc;
  made = λ i c token e. cc;
  owned = λ i j c token e f. cc;
  pending = λ i e. cc;
}

create-IsOwned : (id : GoString) (s : PubSubStream) → IsOwned s → IsOwned (create id s).1
create-IsOwned id s v = record {
  running = λ i c token e. ground (arith, v.running i c token);
  made = λ i c token e. ground (arith, v.made i c token);
  owned = λ i j c token e f. ground (arith, v.owned i j c token);
  pending = λ i e. ground (arith, v.pending i);
}

forget-IsOwned : (id : GoString) (s : PubSubStream) → IsOwned s → IsOwned (forget id s)
forget-IsOwned id s v = record {
  running = v.running;
  made = v.made;
  owned = v.owned;
  pending = v.pending;
}

find_or_create-IsOwned :
    (id : GoString) (s : PubSubStream) → IsOwned s → IsOwned (find_or_create id s).1
unfolding find_or_create
find_or_create-IsOwned id s v = elim (Option-cases (lookup id s.sessions)) [
  | inl missing ↦ rw (missing, find_or_create) (create-IsOwned id s v)
  | inr (i, found) ↦ elim (Bool-cases (s.subs i).dead) [
    | inl dead ↦
        rw (found, dead, find_or_create) (create-IsOwned id (forget id s) (forget-IsOwned id s v))
    | inr alive ↦ rw (found, alive, find_or_create) v
  ]
]

subscribe-IsOwned : (i : ℕ) (s : PubSubStream) → IsOwned s → IsOwned (subscribe i s).1
unfolding subscribe
subscribe-IsOwned i s v = record {
  running = λ j c token e. ground (arith, v.running j c token);
  made = λ j c token e. ground (arith, v.made j c token);
  owned = λ j k c token e f. ground (arith, v.owned j k c token, v.made j c token);
  pending = λ j e. ground (arith, v.pending j, v.pending i);
}

-- Replacing a subscription by one that sends on nothing, or on what the old one sends on.
set_sub-IsOwned :
    (i : ℕ) (sub : SessionSub) (s : PubSubStream)
    → (sub.current ≡ (s.subs i).current) ⊎ (sub.current ≡ none)
    → (sub.sending ≡ none)
      ⊎ ((sub.sending ≡ (s.subs i).sending)
          × ((s.subs i).phase ≡ dispatching → sub.phase ≡ dispatching))
    → (sub.phase ≡ connecting → (i < s.next_sub) × (sub.dead ≡ false))
    → IsOwned s
    → IsOwned (set_sub i sub s)
set_sub-IsOwned i sub s channel sent waits v = record {
  running = λ j c token e. ground (arith, v.running j c token, v.running i c token, sent);
  made = λ j c token e. ground (arith, v.made j c token, v.made i c token, sent);
  owned = λ j k c token e f. ground (
    arith,
    v.owned j k c token,
    v.owned i k c token,
    v.owned j i c token,
    v.owned i i c token,
    sent,
    channel,
  );
  pending = λ j e. ground (arith, v.pending j, waits);
}

cleanup-IsOwned : (i c : ℕ) (s : PubSubStream) → IsOwned s → IsOwned (cleanup i c s)
unfolding cleanup
cleanup-IsOwned i c s v = elim (Option-cases (s.subs i).current) [
  | inl idle ↦ rw (idle, cleanup) v
  | inr (d, busy) ↦ elim (Bool-cases (nat_eq d c)) [
    | inl same ↦
        rw (busy, same, cleanup)
          (set_sub-IsOwned i (record (s.subs i) { current = none }) s (inr refl)
            (inr (refl, λ e. e)) (v.pending i) v)
    | inr other ↦ rw (busy, other, cleanup) v
  ]
]

module _ (json : Json) where
  dispatch-IsOwned :
      (i : ℕ) (message : GoString) (s : PubSubStream)
      → (s.subs i).phase ≡ dispatching
      → IsValid s
      → IsOwned s
      → IsOwned (dispatch json i message s)
  unfolding dispatch
  dispatch-IsOwned i message s runs valid v = elim (Option-cases (json.unmarshal message)) [
    | inl broken ↦ rw (broken, dispatch) v
    | inr (fields, read) ↦ elim (Option-cases (s.subs i).current) [
      | inl idle ↦ rw (read, idle, dispatch) v
      | inr (c, busy) ↦
          rw (read, busy, dispatch)
            (record {
              running = λ j d token e. ground (arith, v.running j d token);
              made = λ j d token e. ground (arith, v.made j d token, valid.fresh i c);
              owned = λ j k d token e f. ground (arith, v.owned j k d token, valid.single i k c);
              pending = λ j e. ground (arith, v.pending j, v.pending i);
            })
    ]
  ]

  Step-IsOwned : {s t : PubSubStream} → Step json s t → IsValid s → IsOwned s → IsOwned t
  Step-IsOwned {s} (opens id) valid v = find_or_create-IsOwned id s v
  Step-IsOwned {s} (connects {i} e) valid v =
      set_sub-IsOwned i (record (s.subs i) { phase = dispatching }) s (inl refl)
        (inr (refl, λ f. refl)) (λ f. cc) v
  Step-IsOwned {s} (refuses {i} e) valid v =
      forget-IsOwned (s.subs i).session_id (set_sub i (record (s.subs i) { phase = over }) s) (
        set_sub-IsOwned i (record (s.subs i) { phase = over }) s (inl refl) (inr (refl, λ f. cc))
          (λ f. cc) v)
  Step-IsOwned {s} (subscribes {i} l) valid v = subscribe-IsOwned i s v
  Step-IsOwned {s} (cleans i c) valid v = cleanup-IsOwned i c s v
  Step-IsOwned {s} (receives {i} message e f) valid v = dispatch-IsOwned i message s e valid v
  Step-IsOwned {s} (sends {i} {c} {token} e l) valid v =
      let w =
        set_sub-IsOwned i (record (s.subs i) { sending = none }) s (inl refl) (inl refl)
          (v.pending i) v in
      record { running = w.running; made = w.made; owned = w.owned; pending = w.pending }
  Step-IsOwned (takes more) valid v = record {
    running = v.running;
    made = v.made;
    owned = v.owned;
    pending = v.pending;
  }
  Step-IsOwned {s} (disconnects {i} e f) valid v =
      set_sub-IsOwned i (record (s.subs i) { phase = closing; dead = true }) s (inl refl) (inl f)
        (λ g. cc) v
  Step-IsOwned {s} (forgets {i} e) valid v =
      forget-IsOwned (s.subs i).session_id (set_sub i (record (s.subs i) { phase = over }) s) (
        set_sub-IsOwned i (record (s.subs i) { phase = over }) s (inl refl) (inr (refl, λ f. cc))
          (λ f. cc) v)

  pub Reach-IsOwned : {s : PubSubStream} → Reach json s → IsOwned s
  Reach-IsOwned start = new-IsOwned
  Reach-IsOwned (next r e) = Step-IsOwned e (Reach-IsValid json r) (Reach-IsOwned r)
