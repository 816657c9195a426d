-- ===== src/StreamTokens.antt =====
-- internal/usecase/stream_tokens.go: the streaming worker's side of the token path. Each request
-- has one gRPC stream to the API instance that waits for it; streams and addresses are cached by
-- request, connections by address. Each function here is a call that no other goroutine interrupts;
-- Interleaved has the single steps of several goroutines. The callback store and gRPC are the parameter `Remote`, over a
-- world that their calls change.
pub mod Cache
pub mod Relay
pub mod Sends
pub mod Interleaved
pub mod Alone
pub mod Apart
pub mod Connections
mod Tests
use golang_learning.Prelude.{
  ℕ, GoString, bytes, GoMap, lookup, insert, delete, Bool, true, false, List, [], ◌∷◌, Option, none,
  some, if◌then◌else◌,
}
use golang_learning.Domain.{TokenEvent, Error, wrapped, Result, ok, err}
use golang_learning.TokenServer.{TokenMessage}

pub record Remote : Type 1 where
  pub World : Type 0
  pub Conn : Type 0
  pub Stream : Type 0
  pub get_callback : GoString → World → World × Result GoString
  pub new_client : GoString → GoString → World → World × Result Conn
  pub open_stream : Conn → World → World × Result Stream
  pub send : Stream → TokenMessage → World → World × Result (Unit {0})
  pub close_and_recv : Stream → World → World

module _ (r : Remote) where
  open r use {World, Conn, Stream, get_callback, new_client, open_stream, send, close_and_recv}

  -- The use case and the world that its calls change.
  pub record StreamTokens : Type 0 where
    pub secret : GoString
    pub streams : GoMap Stream
    pub addr_map : GoMap GoString
    pub conn_map : GoMap Conn
    pub world : World

  unfoldable pub new_stream_tokens : GoString → World → StreamTokens
  new_stream_tokens secret w = record {
    secret = secret;
    streams = [];
    addr_map = [];
    conn_map = [];
    world = w;
  }

  abbrev pub M : Type 0 → Type 0
  M A = StreamTokens → StreamTokens × Result A

  abbrev pub continue :
      {A B : Type 0} → (A → M B) → StreamTokens × Result A → StreamTokens × Result B
  continue f (s, ok a) = f a s
  continue f (s, err e) = (s, err e)

  infixl 5 ◌>>=◌
  abbrev pub ◌>>=◌ : {First Second : Type 0} → M First → (First → M Second) → M Second
  ◌>>=◌ first after s = continue after (first s)

  abbrev pub return : {A : Type 0} → A → M A
  return a s = (s, ok a)

  -- A call of the world.
  abbrev pub call : {A : Type 0} → (World → World × Result A) → M A
  call f s = let (w, result) = f s.world in (record s { world = w }, result)

  abbrev pub rewrap : {A : Type 0} → GoString → StreamTokens × Result A → StreamTokens × Result A
  rewrap text (s, ok a) = (s, ok a)
  rewrap text (s, err e) = (s, err (wrapped text e))

  -- fmt.Errorf("text: %w", err)
  abbrev pub wrapping : {A : Type 0} → GoString → M A → M A
  wrapping text m s = rewrap text (m s)

  abbrev pub modify : (StreamTokens → StreamTokens) → M (Unit {0})
  modify f s = (f s, ok tt)

  unfoldable pub resolve_addr : GoString → M GoString
  resolve_addr request_id s = elim (lookup request_id s.addr_map) [
    | some addr ↦ (s, ok addr)
    | none ↦
        (do
          addr ← call (get_callback request_id)
          modify (λ s'. record s' { addr_map = insert request_id addr s'.addr_map }) >>= λ _.
              return addr)
          s
  ]

  unfoldable pub get_conn : GoString → M Conn
  get_conn addr s = elim (lookup addr s.conn_map) [
    | some conn ↦ (s, ok conn)
    | none ↦
        (do
          conn ← call (new_client addr s.secret)
          modify (λ s'. record s' { conn_map = insert addr conn s'.conn_map }) >>= λ _. return conn)
          s
  ]

  abbrev pub store_stream : GoString → Stream → M Stream
  store_stream request_id stream s =
      (record s { streams = insert request_id stream s.streams }, ok stream)

  -- The parts of getOrOpenStream from the connection on, and from the address on.
  unfoldable pub open_over : GoString → Conn → M Stream
  open_over request_id conn = do
    stream ← wrapping (bytes "grpc stream: ") (call (open_stream conn))
    store_stream request_id stream

  unfoldable pub open_at : GoString → GoString → M Stream
  unfolding open_over
  open_at request_id addr = do
    conn ← wrapping (bytes "grpc conn: ") (get_conn addr)
    open_over request_id conn

  unfoldable pub get_or_open_stream : GoString → M Stream
  unfolding open_at
  get_or_open_stream request_id s = elim (lookup request_id s.streams) [
    | some stream ↦ (s, ok stream)
    | none ↦
        (do
          addr ← wrapping (bytes "resolve addr: ") (resolve_addr request_id)
          open_at request_id addr)
          s
  ]

  -- The stream and the address of a request are forgotten.
  unfoldable pub evict : GoString → StreamTokens → StreamTokens
  evict request_id s = record s {
    streams = delete request_id s.streams;
    addr_map = delete request_id s.addr_map;
  }

  abbrev pub message : TokenEvent → TokenMessage
  message token = record { request_id = token.request_id; delta = token.delta; done = token.done }

  -- Execute from the outcome of Send on.
  abbrev pub after_send :
      TokenEvent → Stream → StreamTokens × Result (Unit {0}) → StreamTokens × Result (Unit {0})
  after_send token stream (s, err e) =
      (evict token.request_id s, err (wrapped (bytes "send failed: ") e))
  after_send token stream (s, ok _) =
      if token.done
      then (evict token.request_id (record s { world = close_and_recv stream s.world }), ok tt)
      else (s, ok tt)

  unfoldable pub send_token : TokenEvent → Stream → M (Unit {0})
  unfolding evict
  send_token token stream s = after_send token stream (call (send stream (message token)) s)

  -- A call of Execute with no other goroutine in between; StreamTokens/Interleaved has its steps, and
  -- those of other goroutines between them.
  unfoldable pub execute : TokenEvent → M (Unit {0})
  execute token = get_or_open_stream token.request_id >>= send_token token
