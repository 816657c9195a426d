-- ===== src/StreamTokens/Tests.antt =====
-- The use case over a network that logs what is sent.
use golang_learning.Prelude.{
  ℕ, some, arith, ◌≡◌, ◌≢◌, refl, GoString, List, [], ◌∷◌, true, false, lookup, insert, delete,
  ◌==◌, nat_eq, if◌then◌else◌,
}
use golang_learning.Domain.{TokenEvent, ok}
use golang_learning.TokenServer.{TokenMessage}
use golang_learning.StreamTokens.Connections.{
  Connections, no_connections, holding, Reach, start, get_conn_duplicates,
}
use golang_learning.StreamTokens.{
  Remote, StreamTokens, new_stream_tokens, execute, evict, get_or_open_stream, resolve_addr,
  get_conn, send_token,
}
use golang_learning.StreamTokens.Interleaved.{
  Calls, Event, goes, begins, loading_stream, happen_all,
}
use golang_learning.StreamTokens.Apart.{Apart, others-Apart}

abbrev network : Remote
network = record {
  World = List TokenMessage;
  Conn = GoString;
  Stream = GoString;
  get_callback = λ id w. (w, ok (1 ∷ []));
  new_client = λ addr secret w. (w, ok addr);
  open_stream = λ conn w. (w, ok conn);
  send = λ stream m w. (m ∷ w, ok tt);
  close_and_recv = λ stream w. w;
}

abbrev first : TokenEvent
first = record {
  request_id = 4 ∷ [];
  session_id = [];
  user_message = [];
  delta = 9 ∷ [];
  done = false;
}

abbrev last : TokenEvent
last = record first { done = true }

abbrev idle : StreamTokens network
idle = new_stream_tokens network [] []

-- After the first token the stream is cached.
started : StreamTokens network
unfolding execute get_or_open_stream resolve_addr get_conn send_token evict new_stream_tokens lookup
    insert delete ◌==◌
started = (execute network first idle).0

-- Goroutine 0 delivers tokens of request 5, goroutine 1 the last token of the request that has been
-- started.
abbrev two_calls : Calls network
two_calls = record {
  shared = started;
  calls = λ i. record {
    token = if nat_eq i 0 then record first { request_id = 5 ∷ [] } else last;
    phase = loading_stream;
  };
}

-- Goroutine 1 loads its stream, sends, closes the stream and forgets its request.
abbrev last_steps : List (Event network)
last_steps = goes 1 ∷ goes 1 ∷ goes 1 ∷ goes 1 ∷ goes 1 ∷ begins 1 last ∷ []

others-Apart_example :
    Apart network (5 ∷ []) started (happen_all network last_steps two_calls).shared
unfolding ◌==◌
others-Apart_example =
    others-Apart network 0 (5 ∷ []) last_steps two_calls
      (
        (λ e. omega arith),
        (
          (λ e. omega arith),
          (
            (λ e. omega arith),
            ((λ e. omega arith), ((λ e. omega arith), (((λ e. omega arith), λ e. cc), tt))),
          ),
        ),
      )
      (λ i ne same. ground arith)

get_conn_duplicates_example :
    ((k c : ℕ) (a : GoString)
      → no_connections.callers k ≡ holding a c
      → no_connections.addr_of c ≡ a)
    × ((t : Connections) × (c : ℕ) × (d : ℕ) × Reach t
        × (c ≢ d)
        × (t.callers 0 ≡ holding (6 ∷ []) c)
        × (t.callers 1 ≡ holding (6 ∷ []) d)
        × (t.addr_of c ≡ 6 ∷ [])
        × (t.addr_of d ≡ 6 ∷ [])
        × (lookup (6 ∷ []) t.conn_map ≡ some d))
unfolding no_connections lookup
get_conn_duplicates_example =
    get_conn_duplicates {s = no_connections} 0 1 (6 ∷ []) start (λ e. omega arith) refl refl refl
