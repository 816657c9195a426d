-- ===== src/PubSub/InOrder.antt =====
-- What becomes of the tokens of a channel, from the message to the caller that receives them.
use golang_learning.Prelude.{
  ℕ, ◌<◌, GoString, [], ◌∷◌, ◌++◌, append-nil, none, some, nat_eq, true, ◌≡◌, inl, inr, refl, sym,
  subst, ap, ◌∙◌, arith, Option-cases, Bool-cases,
}
use golang_learning.PubSub.{
  dispatching, closing, over, PubSubStream, dispatch, Json, opens, connects, refuses, subscribes,
  to_token, cleans, receives, sends, takes, disconnects, forgets, Reach, start, next, set_sub,
  update,
}
use golang_learning.PubSub.Sessions.{IsValid, Reach-IsValid}
use golang_learning.PubSub.Senders.{Reach-IsOwned}
use golang_learning.PubSub.Tally.{
  Tally, pending, arrives, tally, IsFifo, new-IsFifo, forget-IsFifo, find_or_create-IsFifo,
  set_sub-IsFifo, cleanup-IsFifo, subscribe-IsFifo, takes-IsFifo, sends-IsFifo,
}

module _ (json : Json) where
  arrives-IsFifo :
      (i : ℕ) (message : GoString) (s : PubSubStream) (t : Tally)
      → (s.subs i).sending ≡ none
      → IsValid s
      → IsFifo s t
      → IsFifo (dispatch json i message s) (arrives json i message s t)
  unfolding dispatch arrives
  arrives-IsFifo i message s t idle valid v = elim (Option-cases (json.unmarshal message)) [
    | inl broken ↦ rw (broken, dispatch, arrives) v
    | inr (fields, read) ↦ elim (Option-cases (s.subs i).current) [
      | inl alone ↦ rw (read, alone, dispatch, arrives) v
      | inr (c, busy) ↦
          rw (read, busy, dispatch, arrives)
            (record {
              mine = λ j d e. ground (arith, v.mine j d);
              sender = λ j d token e. ground (arith, v.sender j d token, v.mine i c);
              unused = λ d m. ground (arith, v.unused d, valid.fresh i c);
              known = v.known;
              fifo = λ d m. elim (Bool-cases (nat_eq c d)) [
                | inl same ↦
                    let c_is : c ≡ d = ground arith in
                    let within : c < s.next_channel = ground arith in
                    let token = to_token fields in
                    let sent = record (s.subs i) { sending = some (c, token) } in
                    let nothing : pending c (s.subs (t.owner c)).sending ≡ [] =
                      ground (arith, v.mine i c) in
                    let ready : pending c (update s.subs i sent (t.owner c)).sending ≡ token ∷ [] =
                      ground (arith, v.mine i c) in
                    rw same (
                      subst
                        (λ x.
                          t.dispatched c ++ token ∷ []
                          ≡ t.taken x
                            ++ s.queue x
                            ++ pending x (update s.subs i sent (t.owner x)).sending)
                        c_is
                        (ap (λ l. l ++ token ∷ [])
                            (v.fifo c within
                              ∙ ap (λ q. t.taken c ++ s.queue c ++ q) nothing
                              ∙ append-nil (t.taken c ++ s.queue c))
                          ∙ ap (λ q. t.taken c ++ s.queue c ++ q) (sym ready)))
                | inr other ↦ ground (arith, v.fifo d, idle)
              ];
            })
    ]
  ]

  Reach-IsFifo : {s : PubSubStream} (r : Reach json s) → IsFifo s (tally json r)
  unfolding tally
  Reach-IsFifo start = new-IsFifo _ refl refl
  Reach-IsFifo (next {s} r (opens id)) = find_or_create-IsFifo id s _ (Reach-IsFifo r)
  Reach-IsFifo (next {s} r (connects {i} e)) =
      set_sub-IsFifo i (record (s.subs i) { phase = dispatching }) s _ (inl refl) refl
        (Reach-IsFifo r)
  Reach-IsFifo (next {s} r (refuses {i} e)) =
      forget-IsFifo (s.subs i).session_id (set_sub i (record (s.subs i) { phase = over }) s) _
        (set_sub-IsFifo i (record (s.subs i) { phase = over }) s _ (inl refl) refl (Reach-IsFifo r))
  Reach-IsFifo (next {s} r (subscribes {i} l)) =
      subscribe-IsFifo i s _ l (Reach-IsValid json r) (Reach-IsOwned json r) (Reach-IsFifo r)
  Reach-IsFifo (next {s} r (cleans i c)) = cleanup-IsFifo i c s _ (Reach-IsFifo r)
  Reach-IsFifo (next {s} r (receives {i} message e f)) =
      arrives-IsFifo i message s _ f (Reach-IsValid json r) (Reach-IsFifo r)
  Reach-IsFifo (next {s} r (sends e l)) = sends-IsFifo s _ e (Reach-IsOwned json r) (Reach-IsFifo r)
  Reach-IsFifo (next {s} r (takes more)) = takes-IsFifo s _ more (Reach-IsFifo r)
  Reach-IsFifo (next {s} r (disconnects {i} e f)) =
      set_sub-IsFifo i (record (s.subs i) { phase = closing; dead = true }) s _ (inl refl) refl
        (Reach-IsFifo r)
  Reach-IsFifo (next {s} r (forgets {i} e)) =
      forget-IsFifo (s.subs i).session_id (set_sub i (record (s.subs i) { phase = over }) s) _
        (set_sub-IsFifo i (record (s.subs i) { phase = over }) s _ (inl refl) refl (Reach-IsFifo r))

  -- In every run, the tokens whose messages found a channel current are, in their order and each of
  -- them once, those that the channel's caller has received, then those that wait in the channel,
  -- and then the one that the goroutine of
  -- its subscription is about to send on it.
  pub channel_in_order :
      {s : PubSubStream} (r : Reach json s) (c : ℕ)
      → c < s.next_channel
      → let t = tally json r in
        t.dispatched c ≡ t.taken c ++ s.queue c ++ pending c (s.subs (t.owner c)).sending
  channel_in_order r c l = (Reach-IsFifo r).fifo c l
