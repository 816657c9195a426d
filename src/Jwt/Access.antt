-- ===== src/Jwt/Access.antt =====
-- Which requests get past the JWT middleware.
use golang_learning.Prelude.{
  GoString, lookup, is_empty_iff, GoMap, has_prefix, trim_prefix, has_prefix_iff, has_prefix-append,
  trim_prefix-append, ◌++◌, [], Bool, true, Option, none, some, ◌≡◌, ◌≢◌, ◌↔◌, refl, sym, subst,
  arith, inl, inr, Bool-cases,
}
use golang_learning.Domain.{Result, ok, err}
use golang_learning.TokenServer.{bearer_prefix}
use golang_learning.Jwt.{
  Claim, text, other, Token, JwtLibrary, user_id_key, hmac_key, parse_jwt, jwt, next, checked,
  claimed_user, user_of,
}

user_of-eq-ok :
    (o : Option Claim) (user_id : GoString)
    → user_of o ≡ ok user_id
    → (o ≡ some (text user_id)) × (user_id ≢ [])
user_of-eq-ok none user_id e = absurd (ground arith)
user_of-eq-ok (some other) user_id e = absurd (ground arith)
user_of-eq-ok (some (text u)) user_id e = (ground arith, ground (arith, is_empty_iff u))

claimed_user-eq-ok :
    (o : Option (GoMap Claim)) (user_id : GoString)
    → claimed_user o ≡ ok user_id
    → (claims : GoMap Claim) × (o ≡ some claims)
      × (lookup user_id_key claims ≡ some (text user_id))
      × (user_id ≢ [])
claimed_user-eq-ok none user_id e = absurd (ground arith)
claimed_user-eq-ok (some claims) user_id e =
    let (found, filled) = user_of-eq-ok (lookup user_id_key claims) user_id e in
    (claims, refl, found, filled)

-- A token was accepted only if it was valid and its claims name the user.
checked-eq-ok :
    (r : Result Token) (user_id : GoString)
    → checked r ≡ ok user_id
    → (t : Token) × (r ≡ ok t) × (t.valid ≡ true) × (claimed_user t.claims ≡ ok user_id)
checked-eq-ok (err x) user_id e = absurd (ground arith)
checked-eq-ok (ok t) user_id e = elim (Bool-cases t.valid) [
  | inl valid ↦ (t, refl, valid, rw valid at e)
  | inr invalid ↦ absurd (ground arith)
]

hmac_key-eq-ok :
    (secret key : GoString) (hmac : Bool)
    → hmac_key secret hmac ≡ ok key
    → (hmac ≡ true) × (secret ≡ key)
hmac_key-eq-ok secret key hmac e = ground arith

module _ (lib : JwtLibrary) where
  -- A user id comes from a token that is signed under the secret by an HMAC method, is valid, and
  -- has the id, which is not empty, as its claim.
  pub parse_jwt-ok :
      (raw secret user_id : GoString)
      → parse_jwt lib raw secret ≡ ok user_id
      → (t : Token) × (t.hmac ≡ true)
        × (t.valid ≡ true)
        × lib.Signed raw secret
        × ((claims : GoMap Claim) × (t.claims ≡ some claims)
            × (lookup user_id_key claims ≡ some (text user_id)))
        × (user_id ≢ [])
  unfolding parse_jwt
  parse_jwt-ok raw secret user_id e =
      let (t, parsed, valid, named) = checked-eq-ok (lib.parse raw (hmac_key secret)) user_id e in
      let (key, given, signed) = lib.parse_signed raw (hmac_key secret) t parsed in
      let (hmac, same) = hmac_key-eq-ok secret key t.hmac given in
      let (claims, are, found, filled) = claimed_user-eq-ok t.claims user_id named in
      (t, hmac, valid, subst (lib.Signed raw) (sym same) signed, (claims, are, found), filled)

  -- The middleware lets a request on as a user exactly when its header is "Bearer " followed by a
  -- token that ParseJWT accepts for that user.
  pub jwt_iff :
      (secret header user_id : GoString)
      → (jwt lib secret header ≡ next user_id) ↔ (
          (raw : GoString) × (header ≡ bearer_prefix ++ raw)
          × (parse_jwt lib raw secret ≡ ok user_id))
  unfolding jwt
  jwt_iff secret header user_id = (passes, allowed)
    where
      passes :
          jwt lib secret header ≡ next user_id
          → (raw : GoString) × (header ≡ bearer_prefix ++ raw)
            × (parse_jwt lib raw secret ≡ ok user_id)
      passes e = elim (Bool-cases (has_prefix bearer_prefix header)) [
        | inl has ↦ (
          trim_prefix bearer_prefix header,
          sym ((has_prefix_iff bearer_prefix header).0 has),
          ground arith,
        )
        | inr lacks ↦ absurd (ground arith)
      ]

      allowed :
          (raw : GoString) × (header ≡ bearer_prefix ++ raw)
            × (parse_jwt lib raw secret ≡ ok user_id)
          → jwt lib secret header ≡ next user_id
      allowed (raw, e, p) = rw e (
          ground (arith, has_prefix-append bearer_prefix raw, trim_prefix-append bearer_prefix raw))
