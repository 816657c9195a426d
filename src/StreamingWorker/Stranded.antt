-- ===== src/StreamingWorker/Stranded.antt =====
-- The token that reaches a channel whose goroutine has left its loop.
use golang_learning.Prelude.{
  ℕ, ◌<◌, GoString, delete, lookup, lookup-insert, lookup-delete, eq_iff, eq_refl, [], ◌∷◌, ◌++◌,
  length, some, none, true, In, All, All-In, All-intro, ◌≡◌, ◌≢◌, refl, arith, subst, Option-cases,
  inl, inr,
}
use golang_learning.StreamingWorker.{
  StreamToken, Processor, StreamingWorker, new_streaming_worker, channel_capacity, route, Step,
  routes, sends, abandons, take, take_last, give_up, exit, Reach, start, next,
}
use golang_learning.StreamingWorker.Processors.{Reach-IsValid}

-- Two requests never share a channel, and new channels are new.
pub record Owned (w : StreamingWorker) : Type 0 where
  pub own :
      (i j : GoString) (c : ℕ) → lookup i w.channels ≡ some c → lookup j w.channels ≡ some c → i ≡ j
  pub old : (i : GoString) (c : ℕ) → lookup i w.channels ≡ some c → c < w.next_channel

route-Owned : (token : StreamToken) (w : StreamingWorker) → Owned w → Owned (route token w)
unfolding route
route-Owned token w o = elim (Option-cases (lookup token.request_id w.channels)) [
  | inl fresh ↦
      let id = token.request_id in
      rw (fresh, route)
        (record {
          own = λ i j c p q. ground (
            arith,
            lookup-insert id i w.next_channel w.channels,
            lookup-insert id j w.next_channel w.channels,
            eq_iff id i,
            eq_iff id j,
            o.own i j c,
            o.old i c,
            o.old j c,
          );
          old = λ i c p. ground (arith, lookup-insert id i w.next_channel w.channels, o.old i c);
        })
  | inr (c, known) ↦ rw (known, route) (record { own = o.own; old = o.old })
]

Step-Owned : {w v : StreamingWorker} → Step w v → Owned w → Owned v
Step-Owned {w} (routes token e) o = route-Owned token w o
Step-Owned {w} (exit {p} i a) o = record {
  own = λ j k c e f. ground (
    arith,
    lookup-delete p.request_id j w.channels,
    lookup-delete p.request_id k w.channels,
    o.own j k c,
  );
  old = λ j c e. ground (arith, lookup-delete p.request_id j w.channels, o.old j c);
}
Step-Owned (sends e l) o = record { own = o.own; old = o.old }
Step-Owned abandons o = record { own = o.own; old = o.old }
Step-Owned (take i a b c) o = record { own = o.own; old = o.old }
Step-Owned (take_last i a b c) o = record { own = o.own; old = o.old }
Step-Owned (give_up i a) o = record { own = o.own; old = o.old }

pub Reach-Owned : {w : StreamingWorker} → Reach w → Owned w
unfolding new_streaming_worker lookup
Reach-Owned start = record { own = λ i j c e f. cc; old = λ i c e. cc }
Reach-Owned (next r s) = Step-Owned s (Reach-Owned r)

pub route-known :
    (token : StreamToken) (w : StreamingWorker) (c : ℕ)
    → lookup token.request_id w.channels ≡ some c
    → route token w ≡ record w { sending = some (c, token) }
unfolding route
route-known token w c known = rw (known, route) refl

-- Once the channel of a request is removed, no goroutine has it.
pub removed_alone :
    {w v : StreamingWorker} (id : GoString) (c : ℕ)
    → Reach w
    → Reach v
    → lookup id w.channels ≡ some c
    → v.channels ≡ delete id w.channels
    → All (λ q. q.channel ≢ c) v.processors
removed_alone {w} {v} id c r left known gone =
    let o = Reach-Owned r in
    All-intro (λ q. q.channel ≢ c) v.processors
      (λ q j e.
        let mine = All-In _ _ (Reach-IsValid left).listed j in
        let there_too : lookup q.request_id (delete id w.channels) ≡ some q.channel =
          subst (λ m. lookup q.request_id m ≡ some q.channel) gone mine in
        ground (
          arith,
          lookup-delete id q.request_id w.channels,
          eq_refl id,
          eq_iff id q.request_id,
          o.own id q.request_id c,
        ))

-- If the goroutine of a request has left its loop but not yet removed its channel, and the channel
-- has room, then for every token of the request there is a reachable state in which the token has
-- been sent into that channel and not been handled, no goroutine has the channel, and the channels
-- that are still to be made are others.
pub token_stranded :
    {w : StreamingWorker} {p : Processor}
    → Reach w
    → (i : In p w.processors) → p.leaving ≡ true
    → w.sending ≡ none
    → length (w.queue p.channel) < channel_capacity
    → (token : StreamToken) → token.request_id ≡ p.request_id
    → (v : StreamingWorker) × Reach v
      × (v.queue p.channel ≡ w.queue p.channel ++ token ∷ [])
      × (v.handled ≡ w.handled)
      × All (λ q. q.channel ≢ p.channel) v.processors
      × (p.channel < v.next_channel)
token_stranded {w} {p} r i leaving idle room token same =
    let known : lookup p.request_id w.channels ≡ some p.channel =
      All-In (λ q. lookup q.request_id w.channels ≡ some q.channel) w.processors
        (Reach-IsValid r).listed i in
    let routed =
      subst Reach (route-known token w p.channel (rw same known)) (next r (routes token idle)) in
    let left = next (next routed (sends refl room)) (exit i leaving) in
    (
      _,
      left,
      ground arith,
      refl,
      removed_alone p.request_id p.channel r left known refl,
      (Reach-Owned r).old p.request_id p.channel known,
    )
