-- ===== src/PubSub/Tests.antt =====
-- The theorems on a session whose connection to Redis has not begun or has just ended, and on one
-- published token.
use golang_learning.Prelude.{
  subst, arith, ◌<◌, zero, suc, GoString, GoMap, bytes, lookup, insert, ◌==◌, List, [], ◌∷◌, ◌++◌,
  true, false, none, some, ◌≡◌, ◌≢◌, refl,
}
use golang_learning.PubSub.{
  to_token, subscribes, receives, sends, PubSubStream, new_pub_sub_stream, connecting, over,
  find_or_create, set_sub, dispatching, closing, Json, payload, dispatch, subscribe, Reach, start,
  next, opens, connects, disconnects,
}
use golang_learning.PubSub.Sessions.{stale_forget_orphans}
use golang_learning.PubSub.Failed.{Later, refused, failed_receive_strands}
use golang_learning.PubSub.Tally.{tally, pending}
use golang_learning.PubSub.InOrder.{channel_in_order}
use golang_learning.PubSub.Payload.{dispatch-payload}

-- A codec that ends each string by 0.
encode : GoString → GoString
encode [] = 0 ∷ []
encode (x ∷ xs) = suc x ∷ encode xs

encode_all : GoMap GoString → GoString
unfolding encode
encode_all [] = []
encode_all ((k, v) ∷ m) = encode k ++ encode v ++ encode_all m

split : GoString → GoString → List GoString
split [] read = []
split (zero ∷ rest) read = read ∷ split rest []
split (suc x ∷ rest) read = split rest (read ++ x ∷ [])

pairs : List GoString → GoMap GoString
pairs [] = []
pairs (k ∷ []) = []
pairs (k ∷ v ∷ rest) = (k, v) ∷ pairs rest

abbrev toy_json : Json
toy_json = record { marshal = encode_all; unmarshal = λ s. some (pairs (split s [])) }

abbrev session : GoString
session = 7 ∷ []

abbrev opened : PubSubStream
opened = (find_or_create session new_pub_sub_stream).1

Reach-opened : Reach toy_json opened
unfolding find_or_create new_pub_sub_stream lookup
Reach-opened = next start (opens session)

opened-connecting : (opened.subs 0).phase ≡ connecting
unfolding find_or_create new_pub_sub_stream lookup
opened-connecting = refl

opened-found : lookup (opened.subs 0).session_id opened.sessions ≡ some 0
unfolding find_or_create new_pub_sub_stream lookup insert ◌==◌
opened-found = refl

failed_receive_strands_example :
    (find_or_create (opened.subs 0).session_id opened ≡ (0, opened))
    × Reach toy_json (refused toy_json 0 (subscribe 0 opened).1)
    × ((t : PubSubStream)
        → Later toy_json (refused toy_json 0 (subscribe 0 opened).1) t
        → (t.queue (subscribe 0 opened).0 ≡ [])
          × ((t.subs 0).phase ≡ over)
          × ((t.subs 0).dead ≡ false))
failed_receive_strands_example =
    failed_receive_strands toy_json Reach-opened opened-connecting opened-found

abbrev connected : PubSubStream
connected = set_sub 0 (record (opened.subs 0) { phase = dispatching }) opened

abbrev ended : PubSubStream
ended = set_sub 0 (record (connected.subs 0) { phase = closing; dead = true }) connected

Reach-ended : Reach toy_json ended
unfolding find_or_create new_pub_sub_stream lookup
Reach-ended =
    next (next (next start (opens session)) (connects {i = 0} refl)) (disconnects {i = 0} refl refl)

ended-closing : (ended.subs 0).phase ≡ closing
unfolding find_or_create new_pub_sub_stream lookup
ended-closing = refl

ended-found : lookup (ended.subs 0).session_id ended.sessions ≡ some 0
unfolding find_or_create new_pub_sub_stream lookup insert ◌==◌
ended-found = refl

stale_forget_orphans_example :
    (t : PubSubStream) × Reach toy_json t
    × (lookup (ended.subs 0).session_id t.sessions ≡ none)
    × ((t.subs ended.next_sub).session_id ≡ (ended.subs 0).session_id)
    × ((t.subs ended.next_sub).phase ≡ dispatching)
    × ((t.subs ended.next_sub).dead ≡ false)
    × ((find_or_create (ended.subs 0).session_id t).0 ≢ ended.next_sub)
stale_forget_orphans_example = stale_forget_orphans toy_json Reach-ended ended-closing ended-found

abbrev subscribed : PubSubStream
subscribed = (subscribe 0 connected).1

subscribed-current : (subscribed.subs 0).current ≡ some 0
unfolding find_or_create new_pub_sub_stream lookup subscribe
subscribed-current = refl

toy_json-payload :
    toy_json.unmarshal (toy_json.marshal (payload (5 ∷ []) (1 ∷ 2 ∷ []) true))
    ≡ some (payload (5 ∷ []) (1 ∷ 2 ∷ []) true)
unfolding payload bytes encode_all split pairs
toy_json-payload = refl

dispatch-payload_example :
    dispatch toy_json 0 (toy_json.marshal (payload (5 ∷ []) (1 ∷ 2 ∷ []) true)) subscribed
    ≡ set_sub 0
        (record (subscribed.subs 0) {
          sending = some (0, record { request_id = 5 ∷ []; delta = 1 ∷ 2 ∷ []; done = true });
        })
        subscribed
dispatch-payload_example =
    dispatch-payload toy_json (5 ∷ []) (1 ∷ 2 ∷ []) true (payload (5 ∷ []) (1 ∷ 2 ∷ []) true)
      toy_json-payload (λ key. refl) 0 0 subscribed subscribed-current

-- A message has arrived, and its token waits in the channel.
Reach-sent : (s : PubSubStream) × Reach toy_json s × (1 ≡ s.next_channel)
unfolding find_or_create new_pub_sub_stream lookup subscribe dispatch encode_all payload bytes ◌==◌
    split pairs to_token
Reach-sent =
    let subscribed_to =
      next (next Reach-opened (connects {i = 0} refl)) (subscribes {i = 0} (omega arith)) in
    let message = toy_json.marshal (payload (5 ∷ []) (1 ∷ 2 ∷ []) true) in
    let received = next subscribed_to (receives {i = 0} message refl refl) in
    (_, next received (sends {i = 0} refl (omega arith)), refl)

channel_in_order_example :
    let s = Reach-sent.0 in
    let t = tally toy_json Reach-sent.1 in
    t.dispatched 0 ≡ t.taken 0 ++ s.queue 0 ++ pending 0 (s.subs (t.owner 0)).sending
channel_in_order_example =
    channel_in_order toy_json Reach-sent.1 0 (subst (λ n. 0 < n) Reach-sent.2 (omega arith))
