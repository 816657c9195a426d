-- ===== src/StreamingWorker/Order.antt =====
-- The order in which the tokens of one request reach StreamTokensUseCase.Execute.
use golang_learning.Prelude.{
  GoString, lookup, lookup-delete, delete, List, [], ◌∷◌, none, some, All-In, In, Sub, none_left,
  ◌≡◌, subst, arith, Option-cases, inl, inr,
}
use golang_learning.StreamingWorker.{
  StreamToken, Processor, StreamingWorker, new_streaming_worker, route, routes, sends, abandons,
  take, take_last, give_up, exit, Reach, start, next,
}
use golang_learning.StreamingWorker.Processors.{Reach-IsValid}
use golang_learning.StreamingWorker.Stranded.{Reach-Owned}
use golang_learning.StreamingWorker.Queued.{of_request, Ordered, route_known, route_fresh}
use golang_learning.StreamingWorker.Taken.{sent_on, sent_off, taken}

-- The tokens that the router has been given, the latest first.
unfoldable pub arrived : {w : StreamingWorker} → Reach w → List StreamToken
arrived start = []
arrived (next r (routes token e)) = token ∷ arrived r
arrived (next r _) = arrived r

abbrev InOrder : StreamingWorker → List StreamToken → Type 0
InOrder w seen = Ordered w.channels w.queue w.sending w.handled seen

removed :
    (id : GoString) (w : StreamingWorker) (seen : List StreamToken)
    → InOrder w seen
    → Ordered (delete id w.channels) w.queue w.sending w.handled seen
removed id w seen o = record {
  owned = λ j d e. o.owned j d (ground (arith, lookup-delete id j w.channels));
  waiting = λ j d e. o.waiting j d (ground (arith, lookup-delete id j w.channels));
  done = o.done;
}

routed :
    (token : StreamToken) {w : StreamingWorker} (seen : List StreamToken)
    → Reach w
    → w.sending ≡ none
    → InOrder w seen
    → InOrder (route token w) (token ∷ seen)
unfolding route
routed token {w} seen r idle o =
    let own = (Reach-Owned r).own in
    let o' : Ordered w.channels w.queue none w.handled seen =
      subst (λ s. Ordered w.channels w.queue s w.handled seen) idle o in
    elim (Option-cases (lookup token.request_id w.channels)) [
      | inl missing ↦
          rw (missing, route)
            (route_fresh w.channels w.queue w.handled seen own token w.next_channel
              (λ id d e. ground (arith, (Reach-Owned r).old id d)) o')
      | inr (c, known) ↦
          rw (known, route) (route_known w.channels w.queue w.handled seen own token c known o')
    ]

channel_of :
    {w : StreamingWorker} {p : Processor}
    → Reach w
    → In p w.processors
    → lookup p.request_id w.channels ≡ some p.channel
channel_of {w} r i =
    All-In (λ q. lookup q.request_id w.channels ≡ some q.channel) w.processors
      (Reach-IsValid r).listed i

Reach-InOrder : {w : StreamingWorker} (r : Reach w) → InOrder w (arrived r)
unfolding arrived new_streaming_worker lookup of_request
Reach-InOrder start = record {
  owned = λ id c e. cc;
  waiting = λ id c e. cc;
  done = λ id. none_left;
}
Reach-InOrder (next r (routes token idle)) = routed token (arrived r) r idle (Reach-InOrder r)
Reach-InOrder (next {w} r (sends {c} {token} e l)) =
    sent_on w.channels w.queue w.handled (arrived r) c token
      (subst (λ s. Ordered w.channels w.queue s w.handled (arrived r)) e (Reach-InOrder r))
Reach-InOrder (next {w} r abandons) =
    sent_off w.channels w.queue w.handled (arrived r) w.sending (Reach-InOrder r)
Reach-InOrder (next {w} r (take {p} {token} {rest} i alive e more)) =
    taken w.channels w.queue w.handled (arrived r) (Reach-Owned r).own w.sending p.request_id
      p.channel token rest (channel_of r i) e (Reach-InOrder r)
Reach-InOrder (next {w} r (take_last {p} {token} {rest} i alive e last)) =
    taken w.channels w.queue w.handled (arrived r) (Reach-Owned r).own w.sending p.request_id
      p.channel token rest (channel_of r i) e (Reach-InOrder r)
Reach-InOrder (next r (give_up i alive)) = Reach-InOrder r
Reach-InOrder (next {w} r (exit {p} i left)) = removed p.request_id w (arrived r) (Reach-InOrder r)

-- In every run, the tokens of a request that have been handed to Execute are tokens that the router
-- was given for it, in the same order and none of them twice.
pub handled_in_order :
    {w : StreamingWorker} (r : Reach w) (id : GoString)
    → Sub (of_request id w.handled) (of_request id (arrived r))
handled_in_order r id = (Reach-InOrder r).done id
