-- ===== src/StreamTokens/Interleaved.antt =====
-- Execute of internal/usecase/stream_tokens.go as the goroutines of several requests run it at
-- once: every access of a shared map and every call of the network is a step of its own, and the
-- steps of the goroutines come in any order.
use golang_learning.Prelude.{
  ℕ, GoString, bytes, lookup, insert, delete, nat_eq, List, [], ◌∷◌, none, some, if◌then◌else◌,
}
use golang_learning.Domain.{TokenEvent, wrapped, Result, ok, err}
use golang_learning.StreamTokens.{Remote, StreamTokens, call, message}

module _ (r : Remote) where
  open r use {World, Conn, Stream, get_callback, new_client, open_stream, send, close_and_recv}

  -- What a call of Execute does next.
  pub data Phase : Type 0 where
    loading_stream loading_addr asking : Phase
    storing_addr loading_conn creating : GoString → Phase
    storing_conn : GoString → Conn → Phase
    opening : Conn → Phase
    storing_stream sending closing : Stream → Phase
    deleting_stream deleting_addr returned : Result (Unit {0}) → Phase

  abbrev pub Stage : Type 0
  Stage = StreamTokens r × Phase

  -- On from a call of the network, or out of Execute with its error.
  abbrev pub proceed : {A : Type 0} → GoString → (A → Phase) → StreamTokens r × Result A → Stage
  proceed text f (s, ok a) = (s, f a)
  proceed text f (s, err e) = (s, returned (err (wrapped text e)))

  abbrev pub sent : TokenEvent → Stream → StreamTokens r × Result (Unit {0}) → Stage
  sent token stream (s, err e) = (s, deleting_stream (err (wrapped (bytes "send failed: ") e)))
  sent token stream (s, ok _) = if token.done then (s, closing stream) else (s, returned (ok tt))

  -- One step of a call of Execute.
  unfoldable pub advance : TokenEvent → Phase → StreamTokens r → Stage
  advance token loading_stream s = elim (lookup token.request_id s.streams) [
    | some stream ↦ (s, sending stream)
    | none ↦ (s, loading_addr)
  ]
  advance token loading_addr s = elim (lookup token.request_id s.addr_map) [
    | some addr ↦ (s, loading_conn addr)
    | none ↦ (s, asking)
  ]
  advance token asking s =
      proceed (bytes "resolve addr: ") storing_addr (call r (get_callback token.request_id) s)
  advance token (storing_addr addr) s =
      (record s { addr_map = insert token.request_id addr s.addr_map }, loading_conn addr)
  advance token (loading_conn addr) s = elim (lookup addr s.conn_map) [
    | some conn ↦ (s, opening conn)
    | none ↦ (s, creating addr)
  ]
  advance token (creating addr) s =
      proceed (bytes "grpc conn: ") (storing_conn addr) (call r (new_client addr s.secret) s)
  advance token (storing_conn addr conn) s =
      (record s { conn_map = insert addr conn s.conn_map }, opening conn)
  advance token (opening conn) s =
      proceed (bytes "grpc stream: ") storing_stream (call r (open_stream conn) s)
  advance token (storing_stream stream) s =
      (record s { streams = insert token.request_id stream s.streams }, sending stream)
  advance token (sending stream) s = sent token stream (call r (send stream (message r token)) s)
  advance token (closing stream) s =
      (record s { world = close_and_recv stream s.world }, deleting_stream (ok tt))
  advance token (deleting_stream result) s =
      (record s { streams = delete token.request_id s.streams }, deleting_addr result)
  advance token (deleting_addr result) s =
      (record s { addr_map = delete token.request_id s.addr_map }, returned result)
  advance token (returned result) s = (s, returned result)

  -- The goroutine `i` is in a call of Execute with the token, and the caches that all share.
  pub record Call : Type 0 where
    pub token : TokenEvent
    pub phase : Phase

  pub record Calls : Type 0 where
    pub shared : StreamTokens r
    pub calls : ℕ → Call

  -- A goroutine takes a step, or calls Execute with its next token if it has returned.
  pub data Event : Type 0 where
    goes : ℕ → Event
    begins : ℕ → TokenEvent → Event

  abbrev pub set_call : ℕ → Call → (ℕ → Call) → ℕ → Call
  set_call i c calls j = if nat_eq i j then c else calls j

  abbrev pub moved : ℕ → TokenEvent → Stage → Calls → Calls
  moved i token (shared, phase) s = record {
    shared = shared;
    calls = set_call i (record { token = token; phase = phase }) s.calls;
  }

  abbrev pub begun : ℕ → TokenEvent → Phase → Calls → Calls
  begun i token (returned result) s = record s {
    calls = set_call i (record { token = token; phase = loading_stream }) s.calls;
  }
  begun i token phase s = s

  unfoldable pub happen : Event → Calls → Calls
  happen (goes i) s = let c = s.calls i in moved i c.token (advance c.token c.phase s.shared) s
  happen (begins i token) s = begun i token (s.calls i).phase s

  unfoldable pub happen_all : List Event → Calls → Calls
  happen_all [] s = s
  happen_all (e ∷ es) s = happen_all es (happen e s)
