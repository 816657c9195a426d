-- ===== src/Hub/Delivery.antt =====
-- What the channel of a request holds after any sequence of deliveries.
use golang_learning.Prelude.{
  ℕ, zero, suc, ◌<◌, ◌≤◌, GoString, lookup, lookup-insert, lookup-delete, ◌==◌, eq_iff, eq_refl,
  List, [], ◌∷◌, ◌++◌, append_assoc, append-nil, some, if◌then◌else◌, ltb, length, length-append,
  ◌≡◌, refl, sym, ap, ◌∙◌, arith, Bool-cases, inl, inr,
}
use golang_learning.Domain.{PubSubToken}
use golang_learning.Hub.{TokenHub, new_hub, register, unregister, deliver, channel_capacity}

-- Deliveries for any requests, in their order.
unfoldable pub deliver_all : List (GoString × PubSubToken) → TokenHub → TokenHub
deliver_all [] h = h
deliver_all ((id, t) ∷ ts) h = deliver_all ts (deliver id t h)

unfoldable pub tokens_of : GoString → List (GoString × PubSubToken) → List PubSubToken
tokens_of id [] = []
tokens_of id ((j, t) ∷ ts) = if j == id then t ∷ tokens_of id ts else tokens_of id ts

abbrev pub take : ℕ → List PubSubToken → List PubSubToken
take zero xs = []
take (suc n) [] = []
take (suc n) (x ∷ xs) = x ∷ take n xs

-- Two requests never share a channel, and new channels are new.
pub record IsValid (h : TokenHub) : Type 0 where
  pub own :
      (i j : GoString) (c : ℕ) → lookup i h.pending ≡ some c → lookup j h.pending ≡ some c → i ≡ j
  pub old : (i : GoString) (c : ℕ) → lookup i h.pending ≡ some c → c < h.next_channel

pub new_hub-IsValid : IsValid new_hub
unfolding new_hub lookup
new_hub-IsValid = record { own = λ i j c p q. cc; old = λ i c p. cc }

pub register-IsValid : (id : GoString) (h : TokenHub) → IsValid h → IsValid (register id h).1
unfolding register
register-IsValid id h v = record {
  own = λ i j c p q. ground (
    arith,
    lookup-insert id i h.next_channel h.pending,
    lookup-insert id j h.next_channel h.pending,
    eq_iff id i,
    eq_iff id j,
    v.own i j c,
    v.old i c,
    v.old j c,
  );
  old = λ i c p. ground (arith, lookup-insert id i h.next_channel h.pending, v.old i c);
}

pub unregister-IsValid : (id : GoString) (h : TokenHub) → IsValid h → IsValid (unregister id h)
unfolding unregister
unregister-IsValid id h v = record {
  own = λ i j c p q.
      ground (arith, lookup-delete id i h.pending, lookup-delete id j h.pending, v.own i j c);
  old = λ i c p. ground (arith, lookup-delete id i h.pending, v.old i c);
}

deliver_frame :
    (id : GoString) (t : PubSubToken) (h : TokenHub)
    → ((deliver id t h).pending ≡ h.pending) × ((deliver id t h).next_channel ≡ h.next_channel)
unfolding deliver
deliver_frame id t h = ground arith

pub deliver-IsValid :
    (id : GoString) (t : PubSubToken) (h : TokenHub) → IsValid h → IsValid (deliver id t h)
deliver-IsValid id t h v =
    let (same, next) = deliver_frame id t h in
    record {
      own = λ i j c p q. v.own i j c (rw same at p) (rw same at q);
      old = λ i c p. rw next (v.old i c (rw same at p));
    }

length-take_all : (n : ℕ) (xs : List PubSubToken) → length xs ≤ n → take n xs ≡ xs
length-take_all zero [] h = refl
length-take_all zero (x ∷ xs) h = absurd (omega arith)
length-take_all (suc n) [] h = refl
length-take_all (suc n) (x ∷ xs) h = ap (◌∷◌ x) (length-take_all n xs (omega arith))

take-append_full : (n : ℕ) (xs ys : List PubSubToken) → length xs ≡ n → take n (xs ++ ys) ≡ xs
take-append_full zero [] ys h = refl
take-append_full zero (x ∷ xs) ys h = absurd (omega arith)
take-append_full (suc n) [] ys h = absurd (omega arith)
take-append_full (suc n) (x ∷ xs) ys h = ap (◌∷◌ x) (take-append_full n xs ys (omega arith))

module _ (n : ℕ) where
  -- A channel's buffer after one more send, with room for `n`.
  abbrev sent_to : List PubSubToken → PubSubToken → List PubSubToken
  sent_to q t = if ltb (length q) n then q ++ t ∷ [] else q

  take-sent :
      (q ts : List PubSubToken) (t : PubSubToken)
      → length q ≤ n
      → (take n (sent_to q t ++ ts) ≡ take n (q ++ t ∷ ts)) × (length (sent_to q t) ≤ n)
  take-sent q ts t h = elim (Bool-cases (ltb (length q) n)) [
    | inl room ↦
        rw room (ap (take n) (append_assoc q (t ∷ []) ts), ground (arith, length-append q (t ∷ [])))
    | inr none_left ↦
        let full : length q ≡ n = ground arith in
        rw none_left (take-append_full n q ts full ∙ sym (take-append_full n q (t ∷ ts) full), h)
  ]

queue-deliver :
    (id j : GoString) (c : ℕ) (t : PubSubToken) (h : TokenHub)
    → IsValid h
    → lookup id h.pending ≡ some c
    → (deliver j t h).queue c
      ≡ (if j == id then sent_to channel_capacity (h.queue c) t else h.queue c)
unfolding deliver
queue-deliver id j c t h v e = ground (arith, eq_iff j id, v.own j id c)

-- The channel of a request collects that request's tokens, in their order and up to its capacity,
-- whatever is delivered to other requests in between.
pub queue-deliver_all :
    (id : GoString) (c : ℕ) (ts : List (GoString × PubSubToken)) (h : TokenHub)
    → IsValid h
    → lookup id h.pending ≡ some c
    → length (h.queue c) ≤ channel_capacity
    → (deliver_all ts h).queue c ≡ take channel_capacity (h.queue c ++ tokens_of id ts)
unfolding deliver_all tokens_of
queue-deliver_all id c [] h v e l =
    sym (
      length-take_all channel_capacity (h.queue c ++ []) (rw append-nil l) ∙ append-nil (h.queue c))
queue-deliver_all id c ((j, t) ∷ ts) h v e l =
    let h' = deliver j t h in
    let step = queue-deliver id j c t h v e in
    let rest =
      queue-deliver_all id c ts h' (deliver-IsValid j t h v) (rw (deliver_frame j t h).0 e) in
    elim (Bool-cases (j == id)) [
      | inl own ↦
          let (same, small) = take-sent channel_capacity (h.queue c) (tokens_of id ts) t l in
          let now : h'.queue c ≡ sent_to channel_capacity (h.queue c) t = rw own at step in
          rw own (rest (rw now small) ∙ rw now same)
      | inr other ↦
          let now : h'.queue c ≡ h.queue c = rw other at step in
          rw other (rest (rw now l) ∙ rw now refl)
    ]

register_empty : (id : GoString) (h : TokenHub) → let (c, h') = register id h in h'.queue c ≡ []
unfolding register
register_empty id h = ground arith

register_small :
    (id : GoString) (h : TokenHub)
    → let (c, h') = register id h in length (h'.queue c) ≤ channel_capacity
register_small id h = rw (register_empty id h) (omega arith)

registered :
    (id : GoString) (h : TokenHub) → let (c, h') = register id h in lookup id h'.pending ≡ some c
unfolding register
registered id h = rw (lookup-insert id id h.next_channel h.pending, eq_refl id) refl

-- After Register the channel of the request starts empty, so it will hold the first 1000 tokens
-- that are delivered to the request, in their order; no token is lost if there are no more.
pub queue-register :
    (id : GoString) (ts : List (GoString × PubSubToken)) (h : TokenHub)
    → IsValid h
    → let (c, h') = register id h in
      ((deliver_all ts h').queue c ≡ take channel_capacity (tokens_of id ts))
      × (length (tokens_of id ts) ≤ channel_capacity
          → (deliver_all ts h').queue c ≡ tokens_of id ts)
queue-register id ts h v =
    let (c, h') = register id h in
    let kept =
      queue-deliver_all id c ts h' (register-IsValid id h v) (registered id h)
        (register_small id h) in
    let first =
      kept ∙ ap (λ q. take channel_capacity (q ++ tokens_of id ts)) (register_empty id h) in
    (first, λ l. first ∙ length-take_all channel_capacity (tokens_of id ts) l)

-- A delivery to a request that is not registered, or no more, changes nothing.
pub deliver-unregister :
    (id : GoString) (t : PubSubToken) (h : TokenHub)
    → deliver id t (unregister id h) ≡ unregister id h
unfolding deliver unregister
deliver-unregister id t h = ground (arith, lookup-delete id id h.pending, eq_refl id)
