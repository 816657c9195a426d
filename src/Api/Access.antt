-- ===== src/Api/Access.antt =====
-- What the API server answers to whom.
use golang_learning.Prelude.{
  ℕ, GoString, bytes, is_empty, Bool, true, false, ◌++◌, List, Option, none, some, ◌≡◌, ◌≢◌, ◌⊎◌,
  inl, inr, refl, sym, ap, ◌∙◌, subst, arith, Bool-cases,
}
use golang_learning.Domain.{Result, ok, Result-cases}
use golang_learning.Config.{Config}
use golang_learning.TokenServer.{bearer_prefix}
use golang_learning.Cache.{claim_owner, get_owner, session_owner_key}
use golang_learning.Cache.Client.{RedisLaws}
use golang_learning.Cache.Ownership.{claim_owner_cases}
use golang_learning.Hub.{TokenHub}
use golang_learning.Jwt.{next, jwt, parse_jwt, Verdict-cases}
use golang_learning.Jwt.Access.{jwt_iff}
use golang_learning.ChatHandler
use golang_learning.ChatHandler.{forbidden, internal_error}
use golang_learning.ChatHandler.Guard.{get_history_others}
use golang_learning.ChatStream.{Response, refused, streaming, stream, claimed}
use golang_learning.Api.{
  Backend, World, Api, ApiReply, unauthorized, history_reply, chat_reply, Request, Endpoint, chat,
  history, history_db, services, gateways, on_redis, handle, serve, Event, happen_all,
}
use golang_learning.Cache.Client.{RedisFrames}
use golang_learning.Cache.Claims.{claim_owner-idle}
use golang_learning.Api.Sessions.{stream-IsOwned, happen_all-IsOwned}

-- The replies that carry nothing of a session: to a body without content, and to a user who does
-- not own the session.
pub data Denied : ApiReply → Type 0 where
  no_content : Denied (chat_reply (refused 400 (bytes "content is required")))
  not_owner : Denied (chat_reply (refused 403 (bytes "forbidden")))
  not_reader : Denied (history_reply forbidden)
  unknown_owner : Denied (history_reply internal_error)

module _ (b : Backend) (cfg : Config) where
  -- A request that does not carry "Bearer " and a token that ParseJWT accepts under JWT_SECRET is
  -- answered 401 and changes nothing; with such a token its endpoint handles it for the token's
  -- user.
  pub serve_cases :
      (req : Request) (s : Api b)
      → ((text : GoString) × (serve b cfg req s ≡ (s, unauthorized text))
          × ((raw user_id : GoString)
              → req.authorization ≡ bearer_prefix ++ raw
              → parse_jwt b.library raw cfg.jwt_secret ≢ ok user_id))
        ⊎ ((raw : GoString) × (user_id : GoString) × (req.authorization ≡ bearer_prefix ++ raw)
            × (parse_jwt b.library raw cfg.jwt_secret ≡ ok user_id)
            × (serve b cfg req s ≡ handle b cfg req.endpoint user_id req s))
  unfolding serve
  serve_cases req s =
      let secret = cfg.jwt_secret in
      elim (Verdict-cases (jwt b.library secret req.authorization)) [
        | inl (text, stopped) ↦ inl (
          text,
          rw (stopped, serve) refl,
          λ raw user_id e p.
              let passed = (jwt_iff b.library secret req.authorization user_id).1 (raw, e, p) in
              ground arith,
        )
        | inr (user_id, passed) ↦
            let (raw, e, p) = (jwt_iff b.library secret req.authorization user_id).0 passed in
            inr (raw, user_id, e, p, rw (passed, serve) refl)
      ]

module _ (b : Backend) (cfg : Config) (frames : RedisFrames b.redis) (laws : RedisLaws b.redis)
    (id alice : GoString) where
  abbrev Owned : World b → Type 0
  Owned w = b.redis.stored (session_owner_key id) w.in_redis ≡ some alice

  claimed-denied :
      (bob content request_id : GoString) (h : TokenHub) (w : World b)
      (p : b.redis.World × Result Bool)
      → Owned w
      → alice ≢ bob
      → claim_owner b.redis id bob w.in_redis ≡ p
      → claimed (services b) cfg.grpc_advertised_addr id content request_id h (on_redis b w p)
        ≡ (w, h, refused 403 (bytes "forbidden"))
  claimed-denied bob content request_id h w (r, answer) o ne ran =
      let same : r ≡ w.in_redis =
        ap (λ (x : b.redis.World × Result Bool). x.0) (sym ran)
        ∙ claim_owner-idle frames id alice bob w.in_redis o ne in
      elim (Result-cases answer) [
        | inl (true, yes') ↦
            let claims = claim_owner_cases laws id bob w.in_redis r true (rw yes' at ran) in
            absurd (ne ((claims.0 refl).1 alice o).0)
        | inl (false, no') ↦ rw (no', same) refl
        | inr (e, broken) ↦ rw (broken, same) refl
      ]

  stream-Denied :
      (bob request_id : GoString) (body : Option GoString) (h : TokenHub) (w : World b)
      → Owned w
      → alice ≢ bob
      → (response : Response) × (stream
            (services b)
            cfg.grpc_advertised_addr
            id
            bob
            body
            request_id
            h
            w
          ≡ (w, h, response))
        × Denied (chat_reply response)
  unfolding stream
  stream-Denied bob request_id none h w o ne = (_, refl, no_content)
  stream-Denied bob request_id (some content) h w o ne = elim (Bool-cases (is_empty content)) [
    | inl empty ↦ (_, rw (empty, stream) refl, no_content)
    | inr filled ↦ (
      _,
      rw (filled, stream)
          (claimed-denied bob content request_id h w (claim_owner b.redis id bob w.in_redis) o ne
            refl),
      not_owner,
    )
  ]

  history-Denied :
      (bob : GoString) (w : World b)
      → Owned w
      → alice ≢ bob
      → Denied (history_reply (ChatHandler.get_history (gateways b) bob id w))
        × Denied (history_reply (ChatHandler.get_history_db (gateways b) bob id w))
  unfolding get_owner
  history-Denied bob w o ne =
      let other : (gateways b).get_owner id w ≢ ok bob =
        λ e. ground (arith, laws.get_found (session_owner_key id) bob w.in_redis e) in
      let (same, reply) = get_history_others (gateways b) bob id w other in
      elim reply [
        | inl other' ↦ (rw other' not_reader, rw (same, other') not_reader)
        | inr (e, _, _, broken) ↦ (rw broken unknown_owner, rw (same, broken) unknown_owner)
      ]

  handle-Denied :
      (endpoint : Endpoint) (bob : GoString) (req : Request) (s : Api b)
      → req.session_id ≡ id
      → Owned s.world
      → alice ≢ bob
      → (reply : ApiReply) × (handle b cfg endpoint bob req s ≡ (s, reply)) × Denied reply
  unfolding handle
  handle-Denied chat bob req s same o ne =
      let (response, ran, denied) = stream-Denied bob req.request_id req.body s.hub s.world o ne in
      (chat_reply response, rw (same, ran) refl, denied)
  handle-Denied history bob req s same o ne = (_, refl, rw same (history-Denied bob s.world o ne).0)
  handle-Denied history_db bob req s same o ne =
      (_, refl, rw same (history-Denied bob s.world o ne).1)

  handle-opens :
      (endpoint : Endpoint) (req : Request) (s : Api b) (channel : ℕ)
      → req.session_id ≡ id
      → (handle b cfg endpoint alice req s).1 ≡ chat_reply (streaming channel)
      → Owned (handle b cfg endpoint alice req s).0.world
  unfolding handle
  handle-opens chat req s channel same e =
      let end =
        stream (services b) cfg.grpc_advertised_addr req.session_id alice req.body req.request_id
          s.hub s.world in
      let opened : end.2 ≡ streaming channel = ground arith in
      subst (λ x. b.redis.stored (session_owner_key x) end.0.in_redis ≡ some alice) same
        (stream-IsOwned b cfg frames req.session_id alice laws req.body req.request_id s.hub s.world
          channel opened)
  handle-opens history req s channel same e = absurd (ground arith)
  handle-opens history_db req s channel same e = absurd (ground arith)

  -- Once a chat request of a user has opened a stream on a session, every request of another user
  -- on that session, at whatever endpoint and after whatever events at the server, changes nothing
  -- and is answered 400, 403 or "internal error". The key of the owner does not expire meanwhile.
  pub sessions_stay_private :
      (bob : GoString) (first : Request) (s : Api b) (channel : ℕ) (es : List (Event b cfg))
      (req : Request)
      → first.session_id ≡ id
      → jwt b.library cfg.jwt_secret first.authorization ≡ next alice
      → (serve b cfg first s).1 ≡ chat_reply (streaming channel)
      → req.session_id ≡ id
      → jwt b.library cfg.jwt_secret req.authorization ≡ next bob
      → alice ≢ bob
      → let t = happen_all b cfg es (serve b cfg first s).0 in
        (reply : ApiReply) × (serve b cfg req t ≡ (t, reply)) × Denied reply
  unfolding serve
  sessions_stay_private bob first s channel es req at_first is_alice opened at_req is_bob ne =
      let t = happen_all b cfg es (serve b cfg first s).0 in
      let o : Owned (serve b cfg first s).0.world =
        rw (is_alice, serve)
          (handle-opens first.endpoint first s channel at_first (rw (is_alice, serve) at opened)) in
      let (reply, ran, denied) =
        handle-Denied req.endpoint bob req t at_req
          (happen_all-IsOwned b cfg frames id alice es (serve b cfg first s).0 o) ne in
      (reply, rw (is_bob, serve) ran, denied)
