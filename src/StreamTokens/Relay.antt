-- ===== src/StreamTokens/Relay.antt =====
-- What Execute sends for the tokens of one request, from the first to the last.
use golang_learning.Prelude.{
  GoString, bytes, lookup, insert, lookup-insert, eq_refl, Option, none, some, true, false, Bool,
  List, [], ◌∷◌, ◌++◌, ◌≡◌, refl, sym, ap, ◌∙◌, arith, inl, inr, Bool-cases,
}
use golang_learning.Domain.{TokenEvent, Result, ok, err, Result-cases}
use golang_learning.TokenServer.{TokenMessage}
use golang_learning.StreamTokens.{
  Remote, StreamTokens, M, continue, rewrap, call, get_or_open_stream, open_at, open_over,
  store_stream, resolve_addr, get_conn, evict, execute, message,
}
use golang_learning.StreamTokens.Cache.{execute-cached}

-- What is relied on of gRPC: a stream carries the messages that Send has accepted, in their order,
-- from none when it is opened; CloseAndRecv ends it and leaves them as they are.
pub record RemoteLaws (r : Remote) : Type 1 where
  pub sent : r.Stream → r.World → List TokenMessage
  pub ended : r.Stream → r.World → Bool
  pub open_empty :
      (conn : r.Conn) (stream : r.Stream) (w w' : r.World)
      → r.open_stream conn w ≡ (w', ok stream)
      → sent stream w' ≡ []
  pub send_ok :
      (stream : r.Stream) (m : TokenMessage) (w w' : r.World)
      → r.send stream m w ≡ (w', ok tt)
      → sent stream w' ≡ sent stream w ++ m ∷ []
  pub close_keeps :
      (stream : r.Stream) (w : r.World) → sent stream (r.close_and_recv stream w) ≡ sent stream w
  pub close_ends :
      (stream : r.Stream) (w : r.World) → ended stream (r.close_and_recv stream w) ≡ true

module _ (r : Remote) where
  -- The calls of Execute for a list of tokens; `none` if one of them fails.
  unfoldable pub execute_all : List TokenEvent → StreamTokens r → Option (StreamTokens r)
  execute_all [] s = some s
  execute_all (t ∷ ts) s =
      let (s', result) = execute r t s in elim result [ ok _ ↦ execute_all ts s' | err _ ↦ none ]

  pub continue-eq-ok :
      {A B : Type 0} (f : A → M r B) (p : StreamTokens r × Result A) {s' : StreamTokens r} {b : B}
      → continue r f p ≡ (s', ok b)
      → (a : A) × (p ≡ (p.0, ok a)) × (f a p.0 ≡ (s', ok b))
  continue-eq-ok f (s, ok a) e = (a, refl, e)
  continue-eq-ok f (s, err x) e = absurd (ground arith)

  rewrap-eq-ok :
      {A : Type 0} (text : GoString) (p : StreamTokens r × Result A) {s' : StreamTokens r} {a : A}
      → rewrap r text p ≡ (s', ok a)
      → p ≡ (s', ok a)
  rewrap-eq-ok text (s, ok a) e = e
  rewrap-eq-ok text (s, err x) e = absurd (ground arith)

  pub execute_all-cons :
      (t : TokenEvent) (ts : List TokenEvent) (s s' : StreamTokens r)
      → execute_all (t ∷ ts) s ≡ some s'
      → (s₁ : StreamTokens r) × (execute r t s ≡ (s₁, ok tt)) × (execute_all ts s₁ ≡ some s')
  unfolding execute_all
  execute_all-cons t ts s s' e = elim (Result-cases (execute r t s).1) [
    | inl (_, fine) ↦ (
      (execute r t s).0,
      ap (λ (x : Result (Unit {0})). ((execute r t s).0, x)) fine,
      rw (fine, execute_all) at e,
    )
    | inr (x, wrong) ↦ absurd (ground arith)
  ]

  pub execute_all-step :
      (t : TokenEvent) (ts : List TokenEvent) (s s₁ : StreamTokens r)
      → execute r t s ≡ (s₁, ok tt)
      → execute_all (t ∷ ts) s ≡ execute_all ts s₁
  unfolding execute_all
  execute_all-step t ts s s₁ e =
      ap
        (λ (p : StreamTokens r × Result (Unit {0})). elim p.1 [
          | ok _ ↦ execute_all ts p.0
          | err _ ↦ none
        ])
        e

module _ {r : Remote} (laws : RemoteLaws r) where
  open laws use {sent, ended}

  pub get_or_open_stream-cached :
      (id : GoString) (stream : r.Stream) (s : StreamTokens r)
      → lookup id s.streams ≡ some stream
      → get_or_open_stream r id s ≡ (s, ok stream)
  unfolding get_or_open_stream
  get_or_open_stream-cached id stream s cached = rw (cached, get_or_open_stream) refl

  stored :
      (id : GoString) (s s' : StreamTokens r) (conn : r.Conn) (stream st : r.Stream)
      {t : StreamTokens r}
      → call r (r.open_stream conn) s ≡ (t, ok st)
      → store_stream r id st t ≡ (s', ok stream)
      → (lookup id s'.streams ≡ some stream) × (sent stream s'.world ≡ [])
  stored id s s' conn stream st {t} e f =
      let same : st ≡ stream = ground arith in
      let world : t.world ≡ s'.world = ground arith in
      let streams : insert id st t.streams ≡ s'.streams = ground arith in
      let opening : r.open_stream conn s.world ≡ (t.world, ok st) = ground arith in
      (
        rw (← streams, lookup-insert id id st t.streams, eq_refl id, same) refl,
        rw (← same, ← world) (laws.open_empty conn st s.world t.world opening),
      )

  -- A stream that had to be opened is empty, and is in the cache.
  pub opened :
      (id : GoString) (s s' : StreamTokens r) (stream : r.Stream)
      → lookup id s.streams ≡ none
      → get_or_open_stream r id s ≡ (s', ok stream)
      → (lookup id s'.streams ≡ some stream) × (sent stream s'.world ≡ [])
  unfolding get_or_open_stream open_at open_over
  opened id s s' stream missing e =
      let resolved = rewrap r (bytes "resolve addr: ") (resolve_addr r id s) in
      let (addr, _, e₁) =
        continue-eq-ok r (open_at r id) resolved (rw (missing, get_or_open_stream) at e) in
      let connected = rewrap r (bytes "grpc conn: ") (get_conn r addr resolved.0) in
      let (conn, _, e₂) = continue-eq-ok r (open_over r id) connected e₁ in
      let called = call r (r.open_stream conn) connected.0 in
      let (st, e₃, e₄) =
        continue-eq-ok r (store_stream r id) (rewrap r (bytes "grpc stream: ") called) e₂ in
      stored id connected.0 s' conn stream st (rewrap-eq-ok r (bytes "grpc stream: ") called e₃) e₄

  sent_on :
      (stream : r.Stream) (m : TokenMessage) (w : r.World)
      → (r.send stream m w).1 ≡ ok tt
      → sent stream (r.send stream m w).0 ≡ sent stream w ++ m ∷ []
  sent_on stream m w fine =
      laws.send_ok stream m w (r.send stream m w).0
        (ap (λ (x : Result (Unit {0})). ((r.send stream m w).0, x)) fine)

  -- A token on a cached stream, and the last token.
  pub sends_one :
      (token : TokenEvent) (stream : r.Stream) (s s' : StreamTokens r)
      → lookup token.request_id s.streams ≡ some stream
      → execute r token s ≡ (s', ok tt)
      → (sent stream s'.world ≡ sent stream s.world ++ message r token ∷ [])
        × (token.done ≡ false → lookup token.request_id s'.streams ≡ some stream)
        × (token.done ≡ true → ended stream s'.world ≡ true)
  unfolding evict
  sends_one token stream s s' cached e =
      let sending = r.send stream (message r token) s.world in
      let (going, closing, failing) = execute-cached r token stream s cached in
      elim (Result-cases sending.1) [
        | inl (_, fine) ↦
            let more = sent_on stream (message r token) s.world fine in
            elim (Bool-cases token.done) [
              | inl last ↦
                  let is =
                    ap (λ (x : StreamTokens r × Result (Unit {0})). x.0.world)
                      (sym e ∙ closing last fine) in
                  (
                    ap (sent stream) is ∙ laws.close_keeps stream sending.0 ∙ more,
                    (λ f. absurd (ground arith)),
                    λ _. ap (ended stream) is ∙ laws.close_ends stream sending.0,
                  )
              | inr not_last ↦
                  let is =
                    ap (λ (x : StreamTokens r × Result (Unit {0})). x.0)
                      (sym e ∙ going not_last fine) in
                  (
                    ap (λ (x : StreamTokens r). sent stream x.world) is ∙ more,
                    (λ f.
                        ap (λ (x : StreamTokens r). lookup token.request_id x.streams) is ∙ cached),
                    λ f. absurd (ground arith),
                  )
            ]
        | inr (x, wrong) ↦ absurd (ground (arith, failing x wrong))
      ]
