-- ===== src/Api/Sessions.antt =====
-- A session keeps its owner, whatever happens at the server.
use golang_learning.Prelude.{
  ℕ, GoString, Bool, true, List, [], ◌∷◌, Option, some, ◌≡◌, ◌≢◌, inl, inr, refl, ap, ◌∙◌, subst,
}
use golang_learning.Domain.{Result, ok}
use golang_learning.Config.{Config}
use golang_learning.Cache.{claim_owner, set_callback, session_owner_key, callback_key, callback_ttl}
use golang_learning.Cache.Client.{Redis, RedisLaws, RedisFrames}
use golang_learning.Cache.Ownership.{claim_owner_cases}
use golang_learning.Cache.Claims.{Owned, claim_owner-Owned}
use golang_learning.Hub.{TokenHub}
use golang_learning.Jwt.{jwt, Verdict-cases}
use golang_learning.ChatStream.Keeps.{stream-keeps, stream-opens}
use golang_learning.ChatStream.{streaming, stream}
use golang_learning.Api.{
  Backend, World, Api, Request, Endpoint, chat, history, history_db, on_redis, services, handle,
  serve, Event, request, returned, delivered, happen, happen_all,
}

callback_key-ne-session_owner_key : (s t : GoString) → callback_key s ≢ session_owner_key t
unfolding callback_key session_owner_key
callback_key-ne-session_owner_key s t e = cc

module _ {r : Redis} (frames : RedisFrames r) (id alice : GoString) where
  set_callback-Owned :
      (request_id addr : GoString) (w : r.World)
      → Owned frames id alice w
      → Owned frames id alice (set_callback r request_id addr w).0
  unfolding set_callback
  set_callback-Owned request_id addr w o =
      frames.set_other (callback_key request_id) (session_owner_key id) addr callback_ttl w
        (callback_key-ne-session_owner_key request_id id)
      ∙ o

module _ (b : Backend) (cfg : Config) (frames : RedisFrames b.redis) (id alice : GoString) where
  abbrev pub IsOwned : World b → Type 0
  IsOwned w = b.redis.stored (session_owner_key id) w.in_redis ≡ some alice

  handle-IsOwned :
      (endpoint : Endpoint) (user_id : GoString) (req : Request) (s : Api b)
      → IsOwned s.world
      → IsOwned (handle b cfg endpoint user_id req s).0.world
  unfolding handle
  handle-IsOwned chat user_id req s o =
      stream-keeps (services b) cfg.grpc_advertised_addr IsOwned
        (λ request_id addr w p. set_callback-Owned frames id alice request_id addr w.in_redis p)
        (λ r w p. p)
        (λ session_id user w p. claim_owner-Owned frames id alice session_id user w.in_redis p)
        req.session_id user_id req.body req.request_id s.hub s.world o
  handle-IsOwned history user_id req s o = o
  handle-IsOwned history_db user_id req s o = o

  serve-IsOwned :
      (req : Request) (s : Api b) → IsOwned s.world → IsOwned (serve b cfg req s).0.world
  unfolding serve
  serve-IsOwned req s o = elim (Verdict-cases (jwt b.library cfg.jwt_secret req.authorization)) [
    | inl (text, stopped) ↦ rw (stopped, serve) o
    | inr (user_id, passed) ↦ rw (passed, serve) (handle-IsOwned req.endpoint user_id req s o)
  ]

  happen-IsOwned :
      (e : Event b cfg) (s : Api b) → IsOwned s.world → IsOwned (happen b cfg e s).world
  unfolding happen
  happen-IsOwned (request req) s o = serve-IsOwned req s o
  happen-IsOwned (returned i) s o = o
  happen-IsOwned (delivered i token) s o = o

  granted-IsOwned :
      (laws : RedisLaws b.redis) (w w₁ : World b) (p : b.redis.World × Result Bool)
      → claim_owner b.redis id alice w.in_redis ≡ p
      → on_redis b w p ≡ (w₁, ok true)
      → IsOwned w₁
  granted-IsOwned laws w w₁ (r, answer) ran e =
      let done : answer ≡ ok true = ap (λ (x : World b × Result Bool). x.1) e in
      let same : record w { in_redis = r } ≡ w₁ = ap (λ (x : World b × Result Bool). x.0) e in
      let yes = ((claim_owner_cases laws id alice w.in_redis r true (rw done at ran)).0 refl).0 in
      subst IsOwned same yes

  -- A turn that is open has made its user the owner of the session.
  pub stream-IsOwned :
      (laws : RedisLaws b.redis) (body : Option GoString) (request_id : GoString) (h : TokenHub)
      (w : World b) (c : ℕ)
      → let end = stream (services b) cfg.grpc_advertised_addr id alice body request_id h w in
        end.2 ≡ streaming c → IsOwned end.0
  stream-IsOwned laws body request_id h w c opened =
      let end = stream (services b) cfg.grpc_advertised_addr id alice body request_id h w in
      stream-opens (services b) cfg.grpc_advertised_addr IsOwned
        (λ i addr w p. set_callback-Owned frames id alice i addr w.in_redis p) (λ r w p. p) id alice
        body request_id h w end c refl opened
        (λ w₁ claim. granted-IsOwned laws w w₁ (claim_owner b.redis id alice w.in_redis) refl claim)

  pub happen_all-IsOwned :
      (es : List (Event b cfg)) (s : Api b)
      → IsOwned s.world
      → IsOwned (happen_all b cfg es s).world
  unfolding happen_all
  happen_all-IsOwned [] s o = o
  happen_all-IsOwned (e ∷ es) s o = happen_all-IsOwned es (happen b cfg e s) (happen-IsOwned e s o)
