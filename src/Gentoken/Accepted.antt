-- ===== src/Gentoken/Accepted.antt =====
-- Which signed tokens the JWT middleware accepts.
use golang_learning.Prelude.{
  GoString, GoMap, bytes, lookup, eq_refl, is_empty_iff, has_prefix-append, trim_prefix-append,
  List, [], ◌∷◌, ◌++◌, some, ◌≡◌, ◌≢◌, refl, arith,
}
use golang_learning.Domain.{ok, err}
use golang_learning.Config.{load}
use golang_learning.TokenServer.{bearer_prefix}
use golang_learning.Jwt.{
  Claim, text, JwtLibrary, user_id_key, hmac_key, parse_jwt, jwt, next, abort, user_of,
}
use golang_learning.Gentoken.{Signer, IsReadable, printed, claims_of, main}

claims_of-user : (user_id : GoString) → lookup user_id_key (claims_of user_id) ≡ some (text user_id)
unfolding lookup
claims_of-user user_id = rw (eq_refl user_id_key) refl

module _ {lib : JwtLibrary} (signer : Signer lib) where
  parse_jwt-signed_string :
      (claims : GoMap Claim) (secret raw : GoString)
      → signer.signed_string claims secret ≡ ok raw
      → IsReadable signer claims
      → parse_jwt lib raw secret ≡ user_of (lookup user_id_key claims)
  unfolding parse_jwt
  parse_jwt-signed_string claims secret raw e v =
      let (found, parsed, same) =
        signer.parse-signed_string claims secret raw (hmac_key secret) e refl v.in_time v.is_utf8 in
      rw (parsed, same user_id_key) refl

  jwt-bearer :
      (secret raw : GoString)
      → jwt lib secret (bearer_prefix ++ raw) ≡ elim (parse_jwt lib raw secret) [
        | err e ↦ abort (bytes "invalid token")
        | ok user_id ↦ next user_id
      ]
  unfolding jwt
  jwt-bearer secret raw =
      rw (has_prefix-append bearer_prefix raw, trim_prefix-append bearer_prefix raw) refl

  accepted :
      (claims : GoMap Claim) (secret raw user_id : GoString)
      → signer.signed_string claims secret ≡ ok raw
      → IsReadable signer claims
      → lookup user_id_key claims ≡ some (text user_id)
      → user_id ≢ []
      → jwt lib secret (bearer_prefix ++ raw) ≡ next user_id
  accepted claims secret raw user_id e v named filled =
      rw (jwt-bearer secret raw, parse_jwt-signed_string claims secret raw e v, named)
        (ground (arith, is_empty_iff user_id))

  -- A token that the command prints, for a user whose id is UTF-8, is accepted, until it expires, by
  -- a server with the same environment, as a token of the user that was asked for; but a token for
  -- the empty user is not.
  pub main-accepted :
      (env : GoString → GoString) (user_id raw : GoString) (args : List GoString)
      → main signer (user_id ∷ args) env ≡ printed raw
      → IsReadable signer (claims_of user_id)
      → (user_id ≢ [] → jwt lib (load env).jwt_secret (bearer_prefix ++ raw) ≡ next user_id)
        × (user_id ≡ []
            → jwt lib (load env).jwt_secret (bearer_prefix ++ raw) ≡ abort (bytes "invalid token"))
  unfolding main load
  main-accepted env user_id raw args e v =
      let secret = env (bytes "JWT_SECRET") in
      let signed : signer.signed_string (claims_of user_id) secret ≡ ok raw = ground arith in
      (
        accepted (claims_of user_id) secret raw user_id signed v (claims_of-user user_id),
        λ empty.
            rw
              (
                jwt-bearer secret raw,
                parse_jwt-signed_string (claims_of user_id) secret raw signed v,
                claims_of-user user_id,
                empty,
              )
              refl,
      )

  -- If JWT_SECRET is not set, the server accepts a token that is signed under the empty key, as one
  -- of the user in its claims, whose id is not empty, if the strings in its claims are UTF-8 and
  -- the checks of its times pass, so that it has not expired.
  pub unset_secret_accepts :
      (env : GoString → GoString) (claims : GoMap Claim) (raw user_id : GoString)
      → env (bytes "JWT_SECRET") ≡ []
      → signer.signed_string claims [] ≡ ok raw
      → IsReadable signer claims
      → lookup user_id_key claims ≡ some (text user_id)
      → user_id ≢ []
      → jwt lib (load env).jwt_secret (bearer_prefix ++ raw) ≡ next user_id
  unfolding load
  unset_secret_accepts env claims raw user_id unset e v named filled =
      rw unset (accepted claims [] raw user_id e v named filled)
