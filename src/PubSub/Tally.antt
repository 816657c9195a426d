-- ===== src/PubSub/Tally.antt =====
-- The tokens of each channel, counted along a run, and what each operation does to the count.
use golang_learning.Prelude.{
  ℕ, ◌≤◌, ◌<◌, GoString, lookup, List, [], ◌∷◌, ◌++◌, append_assoc, append-nil, Option, none, some,
  if◌then◌else◌, nat_eq, ◌≡◌, ◌⊎◌, inl, inr, refl, sym, subst, ap, ◌∙◌, arith, Option-cases,
  Bool-cases,
}
use golang_learning.Domain.{PubSubToken}
use golang_learning.PubSub.{
  SessionSub, PubSubStream, new_pub_sub_stream, find_or_create, subscribe, cleanup, Json, opens,
  connects, refuses, subscribes, to_token, cleans, receives, sends, takes, disconnects, forgets,
  Reach, start, next, create, forget, set_sub, update,
}
use golang_learning.PubSub.Sessions.{IsValid}
use golang_learning.PubSub.Senders.{IsOwned}

-- What has happened on each channel: the tokens whose messages found it current, those that its
-- caller has received, and the subscription that it was made for.
pub record Tally : Type 0 where
  pub dispatched : ℕ → List PubSubToken
  pub taken : ℕ → List PubSubToken
  pub owner : ℕ → ℕ

-- The token that a goroutine is about to send on a channel.
abbrev pub pending : ℕ → Option (ℕ × PubSubToken) → List PubSubToken
pending c none = []
pending c (some (d, token)) = if nat_eq d c then token ∷ [] else []

module _ (json : Json) where
  -- A message arrives.
  unfoldable pub arrives : ℕ → GoString → PubSubStream → Tally → Tally
  arrives i message s t = elim (json.unmarshal message) [
    | none ↦ t
    | some fields ↦ elim (s.subs i).current [
      | none ↦ t
      | some c ↦ record t {
        dispatched = update t.dispatched c (t.dispatched c ++ to_token fields ∷ []);
      }
    ]
  ]

  unfoldable pub tally : {s : PubSubStream} → Reach json s → Tally
  tally start = record { dispatched = λ c. []; taken = λ c. []; owner = λ c. 0 }
  tally (next {s} r (receives {i} message e f)) = arrives i message s (tally r)
  tally (next r (takes {c} {token} {rest} more)) =
      let t = tally r in record t { taken = update t.taken c (t.taken c ++ token ∷ []) }
  tally (next {s} r (subscribes {i} l)) =
      let t = tally r in record t { owner = update t.owner s.next_channel i }
  tally (next r (opens id)) = tally r
  tally (next r (connects e)) = tally r
  tally (next r (refuses e)) = tally r
  tally (next r (cleans i c)) = tally r
  tally (next r (sends e l)) = tally r
  tally (next r (disconnects e f)) = tally r
  tally (next r (forgets e)) = tally r

pub record IsFifo (s : PubSubStream) (t : Tally) : Type 0 where
  pub mine : (j c : ℕ) → (s.subs j).current ≡ some c → j ≡ t.owner c
  pub sender :
      (j c : ℕ) (token : PubSubToken) → (s.subs j).sending ≡ some (c, token) → j ≡ t.owner c
  pub unused :
      (c : ℕ) → s.next_channel ≤ c → (t.dispatched c ≡ []) × (t.taken c ≡ []) × (s.queue c ≡ [])
  pub known : (c : ℕ) → c < s.next_channel → t.owner c < s.next_sub
  pub fifo :
      (c : ℕ)
      → c < s.next_channel
      → t.dispatched c ≡ t.taken c ++ s.queue c ++ pending c (s.subs (t.owner c)).sending

pub new-IsFifo :
    (t : Tally) → t.dispatched ≡ (λ c. []) → t.taken ≡ (λ c. []) → IsFifo new_pub_sub_stream t
unfolding new_pub_sub_stream
new-IsFifo t e f = record {
  mine = λ j c g. cc;
  sender = λ j c token g. cc;
  unused = λ c l.
      (ap (λ (h : ℕ → List PubSubToken). h c) e, ap (λ (h : ℕ → List PubSubToken). h c) f, refl);
  known = λ c l. absurd (ground arith);
  fifo = λ c l. absurd (ground arith);
}

create-IsFifo :
    (id : GoString) (s : PubSubStream) (t : Tally) → IsFifo s t → IsFifo (create id s).1 t
create-IsFifo id s t v = record {
  mine = λ j c e. ground (arith, v.mine j c);
  sender = λ j c token e. ground (arith, v.sender j c token);
  unused = v.unused;
  known = λ c l. ground (arith, v.known c);
  fifo = λ c l. ground (arith, v.fifo c, v.known c);
}

pub forget-IsFifo :
    (id : GoString) (s : PubSubStream) (t : Tally) → IsFifo s t → IsFifo (forget id s) t
forget-IsFifo id s t v = record {
  mine = v.mine;
  sender = v.sender;
  unused = v.unused;
  known = v.known;
  fifo = v.fifo;
}

pub find_or_create-IsFifo :
    (id : GoString) (s : PubSubStream) (t : Tally) → IsFifo s t → IsFifo (find_or_create id s).1 t
unfolding find_or_create
find_or_create-IsFifo id s t v = elim (Option-cases (lookup id s.sessions)) [
  | inl missing ↦ rw (missing, find_or_create) (create-IsFifo id s t v)
  | inr (i, found) ↦ elim (Bool-cases (s.subs i).dead) [
    | inl dead ↦
        rw (found, dead, find_or_create) (create-IsFifo id (forget id s) t (forget-IsFifo id s t v))
    | inr alive ↦ rw (found, alive, find_or_create) v
  ]
]

-- Replacing a subscription by one that sends the same.
pub set_sub-IsFifo :
    (i : ℕ) (sub : SessionSub) (s : PubSubStream) (t : Tally)
    → (sub.current ≡ (s.subs i).current) ⊎ (sub.current ≡ none)
    → sub.sending ≡ (s.subs i).sending
    → IsFifo s t
    → IsFifo (set_sub i sub s) t
set_sub-IsFifo i sub s t channel sent v = record {
  mine = λ j c e. ground (arith, v.mine j c, v.mine i c, channel);
  sender = λ j c token e. ground (arith, v.sender j c token, v.sender i c token, sent);
  unused = v.unused;
  known = v.known;
  fifo = λ c l. ground (arith, v.fifo c, sent);
}

pub cleanup-IsFifo :
    (i c : ℕ) (s : PubSubStream) (t : Tally) → IsFifo s t → IsFifo (cleanup i c s) t
unfolding cleanup
cleanup-IsFifo i c s t v = elim (Option-cases (s.subs i).current) [
  | inl idle ↦ rw (idle, cleanup) v
  | inr (d, busy) ↦ elim (Bool-cases (nat_eq d c)) [
    | inl same ↦
        rw (busy, same, cleanup)
          (set_sub-IsFifo i (record (s.subs i) { current = none }) s t (inr refl) refl v)
    | inr other ↦ rw (busy, other, cleanup) v
  ]
]

pending-fresh :
    (i c : ℕ) (s : PubSubStream)
    → IsOwned s
    → s.next_channel ≤ c
    → pending c (s.subs i).sending ≡ []
pending-fresh i c s own l = elim (Option-cases (s.subs i).sending) [
  | inl idle ↦ ground (arith, idle)
  | inr ((d, token), busy) ↦ ground (arith, busy, own.made i d token)
]

pub subscribe-IsFifo :
    (i : ℕ) (s : PubSubStream) (t : Tally)
    → i < s.next_sub
    → IsValid s
    → IsOwned s
    → IsFifo s t
    → IsFifo (subscribe i s).1 (record t { owner = update t.owner s.next_channel i })
unfolding subscribe
subscribe-IsFifo i s t l valid own v = record {
  mine = λ j c e. ground (arith, v.mine j c, valid.fresh j c);
  sender = λ j c token e. ground (arith, v.sender j c token, own.made j c token);
  unused = λ c m. ground (arith, v.unused c);
  known = λ c m. ground (arith, v.known c, l);
  fifo = λ c m. elim (Bool-cases (nat_eq s.next_channel c)) [
    | inl fresh ↦ ground (arith, v.unused c, pending-fresh i c s own)
    | inr old ↦ ground (arith, v.fifo c)
  ];
}

pub takes-IsFifo :
    {c : ℕ} {token : PubSubToken} {rest : List PubSubToken} (s : PubSubStream) (t : Tally)
    → s.queue c ≡ token ∷ rest
    → IsFifo s t
    → IsFifo
        (record s { queue = update s.queue c rest })
        (record t { taken = update t.taken c (t.taken c ++ token ∷ []) })
takes-IsFifo {c} {token} {rest} s t more v = record {
  mine = v.mine;
  sender = v.sender;
  unused = λ d m. ground (arith, v.unused d);
  known = v.known;
  fifo = λ d m. elim (Bool-cases (nat_eq c d)) [
    | inl same ↦
        let c_is : c ≡ d = ground arith in
        let within : c < s.next_channel = ground arith in
        rw same (
          subst
            (λ x.
              t.dispatched x
              ≡ (t.taken c ++ token ∷ []) ++ rest ++ pending x (s.subs (t.owner x)).sending)
            c_is
            (v.fifo c within
              ∙ ap (λ q. q ++ pending c (s.subs (t.owner c)).sending)
                  (ap (λ q. t.taken c ++ q) more
                    ∙ sym (append_assoc (t.taken c) (token ∷ []) rest))))
    | inr other ↦ ground (arith, v.fifo d)
  ];
}

pub sends-IsFifo :
    {i c : ℕ} {token : PubSubToken} (s : PubSubStream) (t : Tally)
    → (s.subs i).sending ≡ some (c, token)
    → IsOwned s
    → IsFifo s t
    → IsFifo
        (set_sub i
          (record (s.subs i) { sending = none })
          (record s { queue = update s.queue c (s.queue c ++ token ∷ []) }))
        t
sends-IsFifo {i} {c} {token} s t e own v = record {
  mine = λ j d f. ground (arith, v.mine j d, v.mine i d);
  sender = λ j d x f. ground (arith, v.sender j d x);
  unused = λ d m. ground (arith, v.unused d, own.made i c token);
  known = v.known;
  fifo = λ d m. elim (Bool-cases (nat_eq c d)) [
    | inl same ↦
        let c_is : c ≡ d = ground arith in
        let within : c < s.next_channel = ground arith in
        let sent = record (s.subs i) { sending = none } in
        let busy : pending c (s.subs (t.owner c)).sending ≡ token ∷ [] =
          ground (arith, v.sender i c token) in
        let quiet : pending c (update s.subs i sent (t.owner c)).sending ≡ [] =
          ground (arith, v.sender i c token) in
        rw same (
          subst
            (λ x.
              t.dispatched x
              ≡ t.taken x
                ++ (s.queue c ++ token ∷ [])
                ++ pending x (update s.subs i sent (t.owner x)).sending)
            c_is
            (v.fifo c within
              ∙ ap (λ q. t.taken c ++ s.queue c ++ q) busy
              ∙ append_assoc (t.taken c) (s.queue c) (token ∷ [])
              ∙ sym (append-nil (t.taken c ++ (s.queue c ++ token ∷ [])))
              ∙ ap (λ q. t.taken c ++ (s.queue c ++ token ∷ []) ++ q) (sym quiet)))
    | inr other ↦ ground (arith, v.fifo d, v.sender i c token)
  ];
}
