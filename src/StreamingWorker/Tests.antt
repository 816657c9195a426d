-- ===== src/StreamingWorker/Tests.antt =====
-- The worker's theorems after the first token of a request, and after the timeout that follows it.
use golang_learning.Prelude.{
  zero, suc, insert, ◌==◌, ◌≤◌, subst, length-append, ℕ, GoString, lookup, [], ◌∷◌, map, some, none,
  true, false, AllDistinct, All, In, here, Sub, ◌≡◌, ◌≢◌, refl, ◌<◌, ◌++◌, length, arith,
}
use golang_learning.StreamingWorker.{
  StreamToken, Processor, StreamingWorker, new_streaming_worker, route, leave_at, Reach, start,
  next, routes, sends, take, set_queue, abandons, give_up,
}
use golang_learning.StreamingWorker.Queued.{of_request}
use golang_learning.StreamingWorker.Order.{arrived, handled_in_order}
use golang_learning.StreamingWorker.Processors.{one_processor_each}
use golang_learning.StreamingWorker.Stranded.{route-known, token_stranded}
use golang_learning.StreamingWorker.Blocked.{IsBlocked, router_blocks}

abbrev token : StreamToken
token = record { request_id = 1 ∷ []; delta = []; done = false }

routed : StreamingWorker
routed = route token new_streaming_worker

Reach-routed : Reach routed
unfolding routed new_streaming_worker
Reach-routed = next start (routes token refl)

one_processor_each_example :
    AllDistinct (map (λ p. p.request_id) routed.processors)
    × All (λ p. lookup p.request_id routed.channels ≡ some p.channel) routed.processors
    × ((id : GoString) (c : ℕ)
        → lookup id routed.channels ≡ some c
        → In id (map (λ p. p.request_id) routed.processors))
one_processor_each_example = one_processor_each Reach-routed

abbrev idle : StreamingWorker
idle = record routed { sending = none }

-- The goroutine of the request, before and after its timeout.
abbrev running : Processor
running = record { request_id = 1 ∷ []; channel = 0; leaving = false }

abbrev left : Processor
left = record running { leaving = true }

In-running : In running idle.processors
unfolding routed route new_streaming_worker lookup
In-running = here

abbrev timed_out : StreamingWorker
timed_out = record idle { processors = leave_at idle.processors In-running }

Reach-timed_out : Reach timed_out
Reach-timed_out = next (next Reach-routed abandons) (give_up In-running refl)

In-left : In left timed_out.processors
unfolding In-running leave_at routed route new_streaming_worker lookup
In-left = here

has_room : length (timed_out.queue 0) < 32
unfolding routed route new_streaming_worker lookup
has_room = omega arith

token_stranded_example :
    (v : StreamingWorker) × Reach v
    × (v.queue 0 ≡ timed_out.queue 0 ++ token ∷ [])
    × (v.handled ≡ timed_out.handled)
    × All (λ q. q.channel ≢ 0) v.processors
    × (0 < v.next_channel)
token_stranded_example = token_stranded Reach-timed_out In-left refl refl has_room token refl

-- The router in its send, with that many tokens in the channel of the request.
unfoldable filled : ℕ → StreamingWorker
filled zero = routed
filled (suc n) =
    let w = filled n in
    record w { queue = set_queue w.queue 0 (w.queue 0 ++ token ∷ []); sending = some (0, token) }

filled-sending : (n : ℕ) → (filled n).sending ≡ some (0, token)
unfolding filled routed route new_streaming_worker lookup
filled-sending zero = refl
filled-sending (suc n) = refl

filled-known : (n : ℕ) → lookup token.request_id (filled n).channels ≡ some 0
unfolding filled routed route new_streaming_worker lookup insert ◌==◌
filled-known zero = refl
filled-known (suc n) = filled-known n

filled-processors : (n : ℕ) → In running (filled n).processors
unfolding filled
filled-processors zero = In-running
filled-processors (suc n) = filled-processors n

length-filled : (n : ℕ) → length ((filled n).queue 0) ≡ n
unfolding filled routed route new_streaming_worker lookup
length-filled zero = refl
length-filled (suc n) =
    ground (arith, length-filled n, length-append ((filled n).queue 0) (token ∷ []))

Reach-filled : (n : ℕ) → n ≤ 32 → Reach (filled n)
unfolding filled
Reach-filled zero l = Reach-routed
Reach-filled (suc n) l =
    let w = filled n in
    let sent : StreamingWorker = record w {
      queue = set_queue w.queue 0 (w.queue 0 ++ token ∷ []);
      sending = none;
    } in
    subst Reach (route-known token sent 0 (filled-known n)) (
      next
        (next (Reach-filled n (omega arith))
          (sends (filled-sending n) (omega (arith, length-filled n))))
        (routes token refl))

router_blocks_example : (v : StreamingWorker) × Reach v × IsBlocked 0 token v
router_blocks_example =
    router_blocks {w = filled 32} (Reach-filled 32 (omega arith)) (filled-processors 32) refl
      (filled-sending 32) (omega (arith, length-filled 32))

-- The token has been put into the channel, and taken out.
abbrev queued : StreamingWorker
queued = record routed {
  queue = set_queue routed.queue 0 (routed.queue 0 ++ token ∷ []);
  sending = none;
}

Reach-queued : Reach queued
unfolding routed route new_streaming_worker lookup
Reach-queued = next Reach-routed (sends refl (omega arith))

abbrev executed : StreamingWorker
executed = record queued { queue = set_queue queued.queue 0 []; handled = token ∷ [] }

Reach-executed : Reach executed
unfolding routed route new_streaming_worker lookup
Reach-executed = next Reach-queued (take In-running refl refl refl)

handled_in_order_example :
    Sub (of_request (1 ∷ []) executed.handled) (of_request (1 ∷ []) (arrived Reach-executed))
handled_in_order_example = handled_in_order Reach-executed (1 ∷ [])
