-- ===== src/TokenServer/Tokens.antt =====
-- What a gRPC stream of tokens leaves in the hub.
use golang_learning.Prelude.{
  GoString, is_empty, false, List, [], ◌∷◌, ◌++◌, map, some, ◌≡◌, refl, All, ◌∙◌, bytes,
}
use golang_learning.Domain.{PubSubToken, Error}
use golang_learning.Hub.{TokenHub}
use golang_learning.Hub.Delivery.{deliver_all}
use golang_learning.TokenServer.{
  invalid_argument, Outcome, status, failed, TokenMessage, Received, msg, eof, broken, to_pub_sub,
  deliver_tokens,
}

abbrev pub delivery : TokenMessage → GoString × PubSubToken
delivery m = (m.request_id, to_pub_sub m)

abbrev pub Named : TokenMessage → Type 0
Named m = is_empty m.request_id ≡ false

deliver_tokens-append :
    (ack : Outcome) (ms : List TokenMessage) (rest : List Received) (h : TokenHub)
    → All Named ms
    → deliver_tokens ack (map msg ms ++ rest) h
      ≡ deliver_tokens ack rest (deliver_all (map delivery ms) h)
unfolding deliver_tokens deliver_all
deliver_tokens-append ack [] rest h n = refl
deliver_tokens-append ack (m ∷ ms) rest h n = rw n.0 (deliver_tokens-append ack ms rest _ n.1)

-- Every message that comes before the end of the stream, before an error or before a message with
-- no request id is delivered, in order, to the request that it names. The call ends with the
-- acknowledgement, with the error, or with InvalidArgument, and what comes later is not delivered.
pub deliver_tokens_ends :
    (ack : Outcome) (ms : List TokenMessage) (rest : List Received) (h : TokenHub)
    → All Named ms
    → let delivered = deliver_all (map delivery ms) h in
      (deliver_tokens ack (map msg ms ++ eof ∷ rest) h ≡ (delivered, some ack))
      × ((e : Error)
          → deliver_tokens ack (map msg ms ++ broken e ∷ rest) h ≡ (delivered, some (failed e)))
      × ((bad : TokenMessage)
          → bad.request_id ≡ []
          → deliver_tokens ack (map msg ms ++ msg bad ∷ rest) h
            ≡ (delivered, some (status invalid_argument (bytes "request_id required"))))
unfolding deliver_tokens
deliver_tokens_ends ack ms rest h n = (
  deliver_tokens-append ack ms (eof ∷ rest) h n,
  (λ e. deliver_tokens-append ack ms (broken e ∷ rest) h n),
  (λ bad empty. deliver_tokens-append ack ms (msg bad ∷ rest) h n ∙ rw empty refl),
)
