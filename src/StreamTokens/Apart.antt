-- ===== src/StreamTokens/Apart.antt =====
-- What the goroutines of other requests leave alone in the caches that all share.
use golang_learning.Prelude.{
  ℕ, GoString, bytes, GoMap, lookup, insert, lookup-insert, lookup-delete, eq_iff, ◌==◌, List, [],
  ◌∷◌, some, All, ◌≡◌, ◌≢◌, refl, ◌∙◌, arith, inl, inr, Option-cases, Bool-cases,
}
use golang_learning.Domain.{TokenEvent, Result, ok, err}
use golang_learning.StreamTokens.{Remote, StreamTokens, call, message}
use golang_learning.StreamTokens.Interleaved.{
  Phase, loading_stream, loading_addr, asking, storing_addr, loading_conn, creating, storing_conn,
  opening, storing_stream, sending, closing, deleting_stream, deleting_addr, returned, proceed,
  sent, advance, Calls, Event, goes, begins, begun, happen, happen_all,
}

module _ (r : Remote) where
  open r use {World, Conn, Stream, get_callback, new_client, open_stream, send, close_and_recv}

  -- The entries of a request are the same, and an address that had a connection has one.
  pub record Apart (j : GoString) (s s' : StreamTokens r) : Type 0 where
    pub same_stream : lookup j s'.streams ≡ lookup j s.streams
    pub same_addr : lookup j s'.addr_map ≡ lookup j s.addr_map
    pub has_conn :
        (addr : GoString) (conn : Conn)
        → lookup addr s.conn_map ≡ some conn
        → (conn' : Conn) × (lookup addr s'.conn_map ≡ some conn')

  Apart-refl : (j : GoString) (s : StreamTokens r) → Apart j s s
  Apart-refl j s = record {
    same_stream = refl;
    same_addr = refl;
    has_conn = λ addr conn e. (conn, e);
  }

  Apart-trans : {j : GoString} {s t u : StreamTokens r} → Apart j s t → Apart j t u → Apart j s u
  Apart-trans k l = record {
    same_stream = l.same_stream ∙ k.same_stream;
    same_addr = l.same_addr ∙ k.same_addr;
    has_conn = λ addr conn e. let (conn', e') = k.has_conn addr conn e in l.has_conn addr conn' e';
  }

  proceed-Apart :
      {A : Type 0} (j text : GoString) (f : A → Phase r) (s : StreamTokens r) (p : World × Result A)
      → Apart j s (proceed r text f (let (w, result) = p in (record s { world = w }, result))).0
  proceed-Apart j text f s (w, ok a) = record {
    same_stream = refl;
    same_addr = refl;
    has_conn = λ addr conn e. (conn, e);
  }
  proceed-Apart j text f s (w, err e) = record {
    same_stream = refl;
    same_addr = refl;
    has_conn = λ addr conn e. (conn, e);
  }

  sent-world :
      (token : TokenEvent) (stream : Stream) (p : StreamTokens r × Result (Unit {0}))
      → (sent r token stream p).0 ≡ p.0
  sent-world token stream (s, ok _) = ground arith
  sent-world token stream (s, err e) = refl

  stored-has_conn :
      (addr a : GoString) (conn c : Conn) (m : GoMap Conn)
      → lookup a m ≡ some c
      → (c' : Conn) × (lookup a (insert addr conn m) ≡ some c')
  stored-has_conn addr a conn c m e = elim (Bool-cases (addr == a)) [
    | inl same ↦ (conn, ground (arith, lookup-insert addr a conn m))
    | inr other ↦ (c, ground (arith, lookup-insert addr a conn m))
  ]

  -- A step of another request's call.
  advance-Apart :
      (token : TokenEvent) (j : GoString) (phase : Phase r) (s : StreamTokens r)
      → token.request_id ≢ j
      → Apart j s (advance r token phase s).0
  unfolding advance
  advance-Apart token j loading_stream s ne =
      elim (Option-cases (lookup token.request_id s.streams)) [
        | inl missing ↦ rw (missing, advance) (Apart-refl j s)
        | inr (stream, found) ↦ rw (found, advance) (Apart-refl j s)
      ]
  advance-Apart token j loading_addr s ne =
      elim (Option-cases (lookup token.request_id s.addr_map)) [
        | inl missing ↦ rw (missing, advance) (Apart-refl j s)
        | inr (addr, found) ↦ rw (found, advance) (Apart-refl j s)
      ]
  advance-Apart token j asking s ne =
      proceed-Apart j (bytes "resolve addr: ") storing_addr s
        (get_callback token.request_id s.world)
  advance-Apart token j (storing_addr addr) s ne = record {
    same_stream = refl;
    same_addr =
        ground (arith, lookup-insert token.request_id j addr s.addr_map, eq_iff token.request_id j);
    has_conn = λ a conn e. (conn, e);
  }
  advance-Apart token j (loading_conn addr) s ne = elim (Option-cases (lookup addr s.conn_map)) [
    | inl missing ↦ rw (missing, advance) (Apart-refl j s)
    | inr (conn, found) ↦ rw (found, advance) (Apart-refl j s)
  ]
  advance-Apart token j (creating addr) s ne =
      proceed-Apart j (bytes "grpc conn: ") (storing_conn addr) s (new_client addr s.secret s.world)
  advance-Apart token j (storing_conn addr conn) s ne = record {
    same_stream = refl;
    same_addr = refl;
    has_conn = λ a c e. stored-has_conn addr a conn c s.conn_map e;
  }
  advance-Apart token j (opening conn) s ne =
      proceed-Apart j (bytes "grpc stream: ") storing_stream s (open_stream conn s.world)
  advance-Apart token j (storing_stream stream) s ne = record {
    same_stream =
        ground
          (arith, lookup-insert token.request_id j stream s.streams, eq_iff token.request_id j);
    same_addr = refl;
    has_conn = λ a conn e. (conn, e);
  }
  advance-Apart token j (sending stream) s ne =
      rw (sent-world token stream (call r (send stream (message r token)) s))
        (record { same_stream = refl; same_addr = refl; has_conn = λ addr conn e. (conn, e) })
  advance-Apart token j (closing stream) s ne = record {
    same_stream = refl;
    same_addr = refl;
    has_conn = λ addr conn e. (conn, e);
  }
  advance-Apart token j (deleting_stream result) s ne = record {
    same_stream =
        ground (arith, lookup-delete token.request_id j s.streams, eq_iff token.request_id j);
    same_addr = refl;
    has_conn = λ a conn e. (conn, e);
  }
  advance-Apart token j (deleting_addr result) s ne = record {
    same_stream = refl;
    same_addr =
        ground (arith, lookup-delete token.request_id j s.addr_map, eq_iff token.request_id j);
    has_conn = λ a conn e. (conn, e);
  }
  advance-Apart token j (returned result) s ne = Apart-refl j s

  -- An event of a goroutine other than the one of the request.
  abbrev pub IsOther : ℕ → GoString → Event r → Type 0
  IsOther k j (goes i) = i ≢ k
  IsOther k j (begins i token) = (i ≢ k) × (token.request_id ≢ j)

  abbrev pub OthersApart : ℕ → GoString → Calls r → Type 0
  OthersApart k j s = (i : ℕ) → i ≢ k → (s.calls i).token.request_id ≢ j

  begun-shared :
      (i : ℕ) (token : TokenEvent) (phase : Phase r) (s : Calls r)
      → (begun r i token phase s).shared ≡ s.shared
  begun-shared i token phase s = ground arith

  begun-OthersApart :
      (k i : ℕ) (j : GoString) (token : TokenEvent) (phase : Phase r) (s : Calls r)
      → token.request_id ≢ j
      → OthersApart k j s
      → OthersApart k j (begun r i token phase s)
  begun-OthersApart k i j token phase s ne v n apart = ground (arith, v n apart)

  happen-Apart :
      (k : ℕ) (j : GoString) (e : Event r) (s : Calls r)
      → IsOther k j e
      → OthersApart k j s
      → Apart j s.shared (happen r e s).shared × OthersApart k j (happen r e s)
  unfolding happen
  happen-Apart k j (goes i) s other v = (
    advance-Apart (s.calls i).token j (s.calls i).phase s.shared (v i other),
    λ n apart. ground (arith, v n apart, v i other),
  )
  happen-Apart k j (begins i token) s (other, ne) v = (
    rw (begun-shared i token (s.calls i).phase s) (Apart-refl j s.shared),
    begun-OthersApart k i j token (s.calls i).phase s ne v,
  )

  -- Between two steps of the goroutine of a request, the goroutines of other requests may call
  -- Execute and take its steps in any order: they leave the cached stream and address of the request
  -- as they are, and every address that has a connection in the cache keeps one, though it may be
  -- another one.
  pub others-Apart :
      (k : ℕ) (j : GoString) (es : List (Event r)) (s : Calls r)
      → All (IsOther k j) es
      → OthersApart k j s
      → Apart j s.shared (happen_all r es s).shared
  unfolding happen_all
  others-Apart k j [] s others v = Apart-refl j s.shared
  others-Apart k j (e ∷ es) s (other, others) v =
      let (first, kept) = happen-Apart k j e s other v in
      Apart-trans first (others-Apart k j es (happen r e s) others kept)
