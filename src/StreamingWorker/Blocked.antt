-- ===== src/StreamingWorker/Blocked.antt =====
-- The router in a send on a channel that nobody reads.
use golang_learning.Prelude.{
  ℕ, ◌≤◌, lookup, List, [], ◌∷◌, length, some, none, true, false, In, here, there, All, All-In, ◌≡◌,
  ◌≢◌, ◌⊎◌, inl, inr, refl, arith,
}
use golang_learning.StreamingWorker.{
  StreamToken, Processor, StreamingWorker, channel_capacity, leave_at, Step, routes, sends,
  abandons, take, take_last, give_up, exit, Reach, next,
}
use golang_learning.StreamingWorker.Processors.{Reach-IsValid, remove_at-All}
use golang_learning.StreamingWorker.Stranded.{removed_alone}

-- The router is in the send of the token on the channel, which is full and has no goroutine.
pub record IsBlocked (c : ℕ) (token : StreamToken) (w : StreamingWorker) : Type 0 where
  pub in_send : w.sending ≡ some (c, token)
  pub full : channel_capacity ≤ length (w.queue c)
  pub alone : All (λ q. q.channel ≢ c) w.processors

leave_at-alone :
    {p : Processor} (c : ℕ) (ps : List Processor) (i : In p ps)
    → All (λ q. q.channel ≢ c) ps
    → All (λ q. q.channel ≢ c) (leave_at ps i)
unfolding leave_at
leave_at-alone c [] i h = elim i [ ]
leave_at-alone c (p ∷ ps) here h = h
leave_at-alone c (p ∷ ps) (there i) h = (h.0, leave_at-alone c ps i h.1)

In-leave_at :
    {p : Processor} (ps : List Processor) (i : In p ps)
    → In (record p { leaving = true }) (leave_at ps i)
unfolding leave_at
In-leave_at [] i = elim i [ ]
In-leave_at (p ∷ ps) here = here
In-leave_at (p ∷ ps) (there i) = there (In-leave_at ps i)

-- A router that sends on a full channel without a goroutine stays there whatever step is taken,
-- but for the one in which the context ends and the router abandons the send.
pub IsBlocked-stays :
    {c : ℕ} {token : StreamToken} {w v : StreamingWorker}
    → IsBlocked c token w
    → Step w v
    → IsBlocked c token v ⊎ (v ≡ record w { sending = none })
IsBlocked-stays b (routes token e) = ground (arith, b.in_send)
IsBlocked-stays b (sends e l) = ground (arith, b.in_send, b.full)
IsBlocked-stays b abandons = inr refl
IsBlocked-stays {c} {token} {w} b (take i x y z) =
    let away = All-In (λ q. q.channel ≢ c) w.processors b.alone i in
    inl (record { in_send = b.in_send; full = ground (arith, b.full, away); alone = b.alone })
IsBlocked-stays {c} {token} {w} b (take_last i x y z) =
    let away = All-In (λ q. q.channel ≢ c) w.processors b.alone i in
    inl (record {
      in_send = b.in_send;
      full = ground (arith, b.full, away);
      alone = leave_at-alone c w.processors i b.alone;
    })
IsBlocked-stays {c} {token} {w} b (give_up i x) =
    inl (record {
      in_send = b.in_send;
      full = b.full;
      alone = leave_at-alone c w.processors i b.alone;
    })
IsBlocked-stays {c} {token} {w} b (exit i x) = inl (record {
  in_send = b.in_send;
  full = b.full;
  alone = remove_at-All (λ q. q.channel ≢ c) w.processors i b.alone;
})

-- If the router is in a send on the full channel of a goroutine that is still in its loop, then a
-- state can be reached in which the router is in that send and the channel has no goroutine.
pub router_blocks :
    {w : StreamingWorker} {p : Processor} {token : StreamToken}
    → Reach w
    → In p w.processors
    → p.leaving ≡ false
    → w.sending ≡ some (p.channel, token)
    → channel_capacity ≤ length (w.queue p.channel)
    → (v : StreamingWorker) × Reach v × IsBlocked p.channel token v
router_blocks {w} {p} r i alive busy full =
    let known : lookup p.request_id w.channels ≡ some p.channel =
      All-In (λ q. lookup q.request_id w.channels ≡ some q.channel) w.processors
        (Reach-IsValid r).listed i in
    let left = next (next r (give_up i alive)) (exit (In-leave_at w.processors i) refl) in
    (
      _,
      left,
      record {
        in_send = busy;
        full = full;
        alone = removed_alone p.request_id p.channel r left known refl;
      },
    )
