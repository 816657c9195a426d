-- ===== src/StreamTokens/Alone.antt =====
-- That a goroutine which no other one interrupts does in Execute what `execute` of StreamTokens says.
use golang_learning.Prelude.{GoString, bytes, lookup, insert, inl, inr, Option-cases, Bool-cases}
use golang_learning.Domain.{TokenEvent, wrapped, Result, ok, err}
use golang_learning.StreamTokens.{
  Remote, StreamTokens, call, continue, after_send, rewrap, evict, send_token, store_stream,
  open_over, open_at, resolve_addr, get_conn, get_or_open_stream, execute, message,
}
use golang_learning.StreamTokens.Interleaved.{
  Phase, loading_stream, loading_addr, asking, storing_addr, loading_conn, creating, storing_conn,
  opening, storing_stream, sending, closing, deleting_stream, deleting_addr, returned, Stage,
  proceed, sent, advance,
}

module _ (r : Remote) where
  open r use {World, Conn, Stream, get_callback, new_client, open_stream, send, close_and_recv}

  -- A call of Execute that nothing interrupts ends with an outcome.
  pub data Ends (token : TokenEvent) : Stage r → StreamTokens r × Result (Unit {0}) → Type 0 where
    at_end :
        (s : StreamTokens r) (result : Result (Unit {0}))
        → Ends token (s, returned result) (s, result)
    later :
        (s : StreamTokens r) (phase : Phase r) {out : StreamTokens r × Result (Unit {0})}
        → Ends token (advance r token phase s) out
        → Ends token (s, phase) out

  sent-Ends :
      (token : TokenEvent) (stream : Stream) (p : StreamTokens r × Result (Unit {0}))
      → Ends token (sent r token stream p) (after_send r token stream p)
  unfolding advance evict
  sent-Ends token stream (s, err e) =
      let result = err (wrapped (bytes "send failed: ") e) in
      later s (deleting_stream result) (later _ (deleting_addr result) (at_end _ result))
  sent-Ends token stream (s, ok _) = elim (Bool-cases token.done) [
    | inl last ↦ rw last (
        later s (closing stream)
          (later _ (deleting_stream (ok tt)) (later _ (deleting_addr (ok tt)) (at_end _ (ok tt)))))
    | inr more ↦ rw more (at_end s (ok tt))
  ]

  sending-Ends :
      (token : TokenEvent) (stream : Stream) (s : StreamTokens r)
      → Ends token (s, sending stream) (send_token r token stream s)
  unfolding advance send_token
  sending-Ends token stream s =
      later s (sending stream) (sent-Ends token stream (call r (send stream (message r token)) s))

  -- Behind OpenStream, behind NewClient and behind GetCallback.
  opened-Ends :
      (token : TokenEvent) (p : StreamTokens r × Result Stream)
      → Ends token (proceed r (bytes "grpc stream: ") storing_stream p) (
          continue r
            (send_token r token)
            (continue r (store_stream r token.request_id) (rewrap r (bytes "grpc stream: ") p)))
  unfolding advance
  opened-Ends token (s, ok stream) =
      later s (storing_stream stream) (
        sending-Ends token stream (record s { streams = insert token.request_id stream s.streams }))
  opened-Ends token (s, err e) = at_end s (err (wrapped (bytes "grpc stream: ") e))

  opening-Ends :
      (token : TokenEvent) (conn : Conn) (s : StreamTokens r)
      → Ends token
          (s, opening conn)
          (continue r (send_token r token) (open_over r token.request_id conn s))
  unfolding advance open_over
  opening-Ends token conn s =
      later s (opening conn) (opened-Ends token (call r (open_stream conn) s))

  abbrev store_conn : GoString → Conn → StreamTokens r → StreamTokens r × Result Conn
  store_conn addr conn s = (record s { conn_map = insert addr conn s.conn_map }, ok conn)

  abbrev store_addr : GoString → GoString → StreamTokens r → StreamTokens r × Result GoString
  store_addr request_id addr s =
      (record s { addr_map = insert request_id addr s.addr_map }, ok addr)

  created-Ends :
      (token : TokenEvent) (addr : GoString) (p : StreamTokens r × Result Conn)
      → Ends token (proceed r (bytes "grpc conn: ") (storing_conn addr) p) (
          continue r (send_token r token) (
            continue r
              (open_over r token.request_id)
              (rewrap r (bytes "grpc conn: ") (continue r (store_conn addr) p))))
  unfolding advance
  created-Ends token addr (s, ok conn) =
      later s (storing_conn addr conn)
        (opening-Ends token conn (record s { conn_map = insert addr conn s.conn_map }))
  created-Ends token addr (s, err e) = at_end s (err (wrapped (bytes "grpc conn: ") e))

  loading_conn-Ends :
      (token : TokenEvent) (addr : GoString) (s : StreamTokens r)
      → Ends token
          (s, loading_conn addr)
          (continue r (send_token r token) (open_at r token.request_id addr s))
  unfolding advance open_at get_conn
  loading_conn-Ends token addr s = elim (Option-cases (lookup addr s.conn_map)) [
    | inl missing ↦ later s (loading_conn addr) (
        rw (missing, advance, get_conn)
          (later s (creating addr) (created-Ends token addr (call r (new_client addr s.secret) s))))
    | inr (conn, found) ↦
        later s (loading_conn addr) (rw (found, advance, get_conn) (opening-Ends token conn s))
  ]

  asked-Ends :
      (token : TokenEvent) (p : StreamTokens r × Result GoString)
      → Ends token (proceed r (bytes "resolve addr: ") storing_addr p) (
          continue r (send_token r token) (
            continue r
              (open_at r token.request_id)
              (rewrap r (bytes "resolve addr: ") (continue r (store_addr token.request_id) p))))
  unfolding advance
  asked-Ends token (s, ok addr) = later s (storing_addr addr) (
      loading_conn-Ends token addr
        (record s { addr_map = insert token.request_id addr s.addr_map }))
  asked-Ends token (s, err e) = at_end s (err (wrapped (bytes "resolve addr: ") e))

  loading_addr-Ends :
      (token : TokenEvent) (s : StreamTokens r)
      → Ends token
          (s, loading_addr)
          (continue r (send_token r token) (
            continue r
              (open_at r token.request_id)
              (rewrap r (bytes "resolve addr: ") (resolve_addr r token.request_id s))))
  unfolding advance resolve_addr
  loading_addr-Ends token s = elim (Option-cases (lookup token.request_id s.addr_map)) [
    | inl missing ↦ later s loading_addr (
        rw (missing, advance, resolve_addr)
          (later s asking (asked-Ends token (call r (get_callback token.request_id) s))))
    | inr (addr, found) ↦
        later s loading_addr (rw (found, advance, resolve_addr) (loading_conn-Ends token addr s))
  ]

  -- A call of Execute whose steps nothing interrupts ends, with the caches, the calls of the network
  -- and the result of `execute`.
  pub execute-Ends :
      (token : TokenEvent) (s : StreamTokens r) → Ends token (s, loading_stream) (execute r token s)
  unfolding advance execute get_or_open_stream
  execute-Ends token s = elim (Option-cases (lookup token.request_id s.streams)) [
    | inl missing ↦
        later s loading_stream
          (rw (missing, advance, get_or_open_stream) (loading_addr-Ends token s))
    | inr (stream, found) ↦
        later s loading_stream
          (rw (found, advance, get_or_open_stream) (sending-Ends token stream s))
  ]
