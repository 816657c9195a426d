-- ===== src/TokenServer/Access.antt =====
-- Who gets past the shared secret.
use golang_learning.Prelude.{
  GoString, ◌==◌, eq_iff, is_empty, is_empty_iff, has_prefix, trim_prefix, has_prefix-append,
  trim_prefix-append, has_prefix_iff, List, [], ◌∷◌, ◌++◌, Option, none, some, true, false, ◌≡◌,
  ◌≢◌, ◌↔◌, ◌⊎◌, inl, inr, refl, arith, Bool-cases, sym, ap, ◌∙◌,
}
use golang_learning.Domain.{PubSubToken}
use golang_learning.Hub.{TokenHub, deliver}
use golang_learning.TokenServer.{
  bearer_prefix, get_request_metadata, done, stream_auth_interceptor, handle,
}

-- A header value is the prefix and the secret exactly when it has the prefix and the secret is left.
bearer_iff :
    (value secret : GoString)
    → ((has_prefix bearer_prefix value ≡ true)
        × ((trim_prefix bearer_prefix value == secret) ≡ true))
      ↔ (value ≡ bearer_prefix ++ secret)
bearer_iff value secret = (
  λ h.
      sym ((has_prefix_iff bearer_prefix value).0 h.0)
      ∙ ap (◌++◌ bearer_prefix) ((eq_iff _ _).0 h.1),
  λ e. rw e (
    has_prefix-append bearer_prefix secret,
    (eq_iff _ _).1 (trim_prefix-append bearer_prefix secret),
  ),
)

-- The interceptor lets a call through to its handler exactly when a secret is configured and the
-- first authorization value is "Bearer " followed by that secret. (The handler's outcome is one
-- that the interceptor never answers with.)
pub stream_auth_interceptor_iff :
    (secret : GoString) (metadata : Option (List GoString))
    → (stream_auth_interceptor secret metadata done ≡ done) ↔ (
        (secret ≢ [])
        × ((rest : List GoString) × (metadata ≡ some ((bearer_prefix ++ secret) ∷ rest))))
unfolding stream_auth_interceptor
stream_auth_interceptor_iff secret none = (λ e. absurd (ground arith), λ h. absurd (ground arith))
stream_auth_interceptor_iff secret (some []) =
    (λ e. absurd (ground arith), λ h. absurd (ground arith))
stream_auth_interceptor_iff secret (some (v ∷ rest)) = (
  λ e. (
    ground arith,
    (
      rest,
      ap (λ (w : GoString). some (w ∷ rest)) ((bearer_iff v secret).0 (ground arith, ground arith)),
    ),
  ),
  λ h.
      let same = h.1.1 in
      let nonempty = h.0 in
      let value : v ≡ bearer_prefix ++ secret = ground arith in
      ground (arith, is_empty_iff secret, (bearer_iff v secret).1 value),
)

prefixed-injective : (p s t : GoString) → p ++ s ≡ p ++ t → s ≡ t
prefixed-injective p s t e =
    sym (trim_prefix-append p s) ∙ ap (trim_prefix p) e ∙ trim_prefix-append p t

-- The credentials that the streaming worker attaches pass the server's interceptor exactly when
-- both are configured with the same secret and it is not empty.
pub stream_auth_interceptor-get_request_metadata :
    (client server : GoString) (rest : List GoString)
    → (stream_auth_interceptor server (some ((get_request_metadata client).1 ∷ rest)) done ≡ done)
      ↔ ((server ≢ []) × (client ≡ server))
unfolding get_request_metadata
stream_auth_interceptor-get_request_metadata client server rest =
    let passes = stream_auth_interceptor_iff server (some ((bearer_prefix ++ client) ∷ rest)) in
    (
      λ e.
          let (nonempty, more) = passes.0 e in
          (nonempty, prefixed-injective bearer_prefix client server (ground arith)),
      λ h. passes.1 (h.0, (rest, rw h.1 refl)),
    )

-- Without a secret, or with any other header than "Bearer " followed by it, the callback answers
-- 401 and the hub stays as it is. With it, a body that binds is delivered to the request in the
-- path and answered with 200, and any other is answered with 400 and delivers nothing.
pub handle_access :
    (secret authz request_id : GoString) (h : TokenHub)
    → ((body : Option PubSubToken)
        → (secret ≡ []) ⊎ (authz ≢ bearer_prefix ++ secret)
        → handle secret authz request_id body h ≡ (h, 401))
      × (secret ≢ []
          → authz ≡ bearer_prefix ++ secret
          → ((token : PubSubToken)
              → handle secret authz request_id (some token) h ≡ (deliver request_id token h, 200))
            × (handle secret authz request_id none h ≡ (h, 400)))
unfolding handle
handle_access secret authz request_id h = (
  λ body bad. elim (Bool-cases (has_prefix bearer_prefix authz)) [
    | inl has ↦ rw has (
        ground (
          arith,
          is_empty_iff secret,
          bearer_iff authz secret,
          eq_iff (trim_prefix bearer_prefix authz) secret,
        ))
    | inr lacks ↦ rw lacks (ground (arith, is_empty_iff secret, eq_iff [] secret))
  ],
  λ set good.
      let (has, same) = (bearer_iff authz secret).1 good in
      let some_secret : is_empty secret ≡ false = ground (arith, is_empty_iff secret) in
      (λ token. rw (has, same, some_secret) refl, rw (has, same, some_secret) refl),
)
