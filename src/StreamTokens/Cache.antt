-- ===== src/StreamTokens/Cache.antt =====
-- What a call of Execute does to the cached stream and address of its request.
use golang_learning.Prelude.{
  bytes, lookup, lookup-delete, eq_refl, none, some, true, false, ◌≡◌, arith,
}
use golang_learning.Domain.{TokenEvent, Error, wrapped, Result, ok, err}
use golang_learning.StreamTokens.{
  Remote, StreamTokens, get_or_open_stream, evict, send_token, execute, message, continue,
}

module _ (r : Remote) where
  open r use {World, Conn, Stream, get_callback, new_client, open_stream, send, close_and_recv}

  -- With the stream in the cache, a delivery is one Send and nothing else of the network; after it
  -- the stream is still there, unless the send failed or the token was the last: then the stream
  -- and the address of the request are gone, and a last token has closed the stream.
  pub execute-cached :
      (token : TokenEvent) (stream : Stream) (s : StreamTokens r)
      → lookup token.request_id s.streams ≡ some stream
      → let (w, sent) = send stream (message r token) s.world in
        let after = record s { world = w } in
        (token.done ≡ false → sent ≡ ok tt → execute r token s ≡ (after, ok tt))
        × (token.done ≡ true
            → sent ≡ ok tt
            → execute r token s
              ≡ (evict r token.request_id (record s { world = close_and_recv stream w }), ok tt))
        × ((e : Error)
            → sent ≡ err e
            → execute r token s
              ≡ (evict r token.request_id after, err (wrapped (bytes "send failed: ") e)))
  unfolding execute send_token get_or_open_stream
  execute-cached token stream s e = (λ f o. ground arith, λ f o. ground arith, λ x o. ground arith)

  send_token-forgets :
      (token : TokenEvent) (p : StreamTokens r × Result Stream)
      → token.done ≡ true
      → let (after, result) = continue r (send_token r token) p in
        result ≡ ok tt
        → (lookup token.request_id after.streams ≡ none)
          × (lookup token.request_id after.addr_map ≡ none)
  unfolding send_token
  send_token-forgets token (t, ok stream) last o = ground (
    arith,
    lookup-delete token.request_id token.request_id t.streams,
    lookup-delete token.request_id token.request_id t.addr_map,
    eq_refl token.request_id,
  )
  send_token-forgets token (t, err e) last o = cc

  -- When the last token of a request has been delivered, nothing of the request stays in the
  -- caches, whether its stream was cached or had to be opened.
  pub execute-forgets :
      (token : TokenEvent) (s : StreamTokens r)
      → token.done ≡ true
      → let (after, result) = execute r token s in
        result ≡ ok tt
        → (lookup token.request_id after.streams ≡ none)
          × (lookup token.request_id after.addr_map ≡ none)
  unfolding execute
  execute-forgets token s = send_token-forgets token (get_or_open_stream r token.request_id s)
