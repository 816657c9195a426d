-- ===== src/ChatStream/Keeps.antt =====
-- What the three services keep, a chat turn keeps.
use golang_learning.Prelude.{
  ℕ, GoString, is_empty, Bool, true, false, Option, none, some, inl, inr, Bool-cases, Option-cases,
  ◌≡◌, refl, subst, arith,
}
use golang_learning.Domain.{ChatRequest, Result, ok, err}
use golang_learning.Hub.{TokenHub, register}
use golang_learning.ChatStream.{
  Services, StreamOutputPort, Response, streaming, send_message, respond, open_stream, claimed,
  stream,
}

module _ (services : Services) (grpc_addr : GoString) (P : services.World → Type 0)
    (sets : (request_id addr : GoString) (w : services.World)
      → P w
      → P (services.set_callback request_id addr w).0)
    (publishes : (req : ChatRequest) (w : services.World)
      → P w
      → P (services.publish_request req w).0) where
  respond-world :
      (request_id : GoString) (channel : ℕ) (h : TokenHub) (q : services.World × StreamOutputPort)
      → (respond services grpc_addr request_id channel h q).0 ≡ q.0
  respond-world request_id channel h (w, out) = elim (Option-cases out.err) [
    | inl fine ↦ rw fine refl
    | inr (e, wrong) ↦ rw wrong refl
  ]

  open_stream-keeps :
      (session_id content request_id : GoString) (h : TokenHub) (w : services.World)
      → P w
      → P (open_stream services grpc_addr session_id content request_id h w).0
  unfolding open_stream send_message
  open_stream-keeps session_id content request_id h w p =
      let (channel, h') = register request_id h in
      let w₁ = (services.set_callback request_id grpc_addr w).0 in
      let sent = send_message services grpc_addr session_id content request_id w₁ in
      rw (respond-world request_id channel h' sent) (publishes _ w₁ (sets request_id grpc_addr w p))

  module _
      (claims : (session_id user_id : GoString) (w : services.World)
        → P w
        → P (services.claim_owner session_id user_id w).0) where
    claimed-keeps :
        (session_id content request_id : GoString) (h : TokenHub)
        (claim : services.World × Result Bool)
        → P claim.0
        → P (claimed services grpc_addr session_id content request_id h claim).0
    claimed-keeps session_id content request_id h (w, ok true) p =
        open_stream-keeps session_id content request_id h w p
    claimed-keeps session_id content request_id h (w, ok false) p = p
    claimed-keeps session_id content request_id h (w, err e) p = p

    pub stream-keeps :
        (session_id user_id : GoString) (body : Option GoString) (request_id : GoString)
        (h : TokenHub) (w : services.World)
        → P w
        → P (stream services grpc_addr session_id user_id body request_id h w).0
    unfolding stream
    stream-keeps session_id user_id none request_id h w p = p
    stream-keeps session_id user_id (some content) request_id h w p =
        elim (Bool-cases (is_empty content)) [
          | inl empty ↦ rw (empty, stream) p
          | inr filled ↦
              rw (filled, stream)
                (claimed-keeps session_id content request_id h
                  (services.claim_owner session_id user_id w) (claims session_id user_id w p))
        ]

  claimed-opens :
      (session_id content request_id : GoString) (h : TokenHub)
      (claim : services.World × Result Bool) {end : services.World × TokenHub × Response} {c : ℕ}
      → claimed services grpc_addr session_id content request_id h claim ≡ end
      → end.2 ≡ streaming c
      → ((w : services.World) → claim ≡ (w, ok true) → P w)
      → P end.0
  claimed-opens session_id content request_id h (w, ok true) e o grant =
      subst (λ x. P x.0) e (open_stream-keeps session_id content request_id h w (grant w refl))
  claimed-opens session_id content request_id h (w, ok false) e o grant = absurd (ground arith)
  claimed-opens session_id content request_id h (w, err x) e o grant = absurd (ground arith)

  -- A turn whose stream is open keeps what its claim has brought about.
  pub stream-opens :
      (session_id user_id : GoString) (body : Option GoString) (request_id : GoString)
      (h : TokenHub) (w : services.World) (end : services.World × TokenHub × Response) (c : ℕ)
      → stream services grpc_addr session_id user_id body request_id h w ≡ end
      → end.2 ≡ streaming c
      → ((w₁ : services.World) → services.claim_owner session_id user_id w ≡ (w₁, ok true) → P w₁)
      → P end.0
  unfolding stream
  stream-opens session_id user_id none request_id h w end c e o grant = absurd (ground arith)
  stream-opens session_id user_id (some content) request_id h w end c e o grant =
      elim (Bool-cases (is_empty content)) [
        | inl empty ↦ absurd (ground arith)
        | inr filled ↦
            claimed-opens session_id content request_id h
              (services.claim_owner session_id user_id w) (rw (filled, stream) at e) o grant
      ]
