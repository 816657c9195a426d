-- ===== src/Gentoken.antt =====
-- cmd/gentoken/main.go: the command that prints a token for a user. Signing is golang-jwt, the
-- parameter `Signer`; `env` is os.Getenv.
pub mod Accepted
mod Tests
use golang_learning.Prelude.{
  GoString, GoMap, bytes, is_empty, Bool, true, List, [], ◌∷◌, All, lookup, some, if◌then◌else◌,
  ◌≡◌,
}
use golang_learning.Domain.{Error, Result, ok, err}
use golang_learning.Jwt.{Claim, text, other, Token, JwtLibrary, user_id_key}

abbrev pub is_valid : (GoString → Bool) → Claim → Bool
is_valid valid (text s) = valid s
is_valid valid other = true

-- `valid` is utf8.ValidString, and `timely` the check of the claims exp, nbf and iat in Parse, at the
-- time of the request. A token that was signed by HS256 parses as a valid token with its claims,
-- under a key function that answers with its key, if it is timely and its strings are UTF-8, which
-- encoding/json keeps.
pub record Signer (lib : JwtLibrary) : Type 0 where
  pub signed_string : GoMap Claim → GoString → Result GoString
  pub valid : GoString → Bool
  pub timely : GoMap Claim → Bool
  pub parse-signed_string :
      (claims : GoMap Claim) (key raw : GoString) (key_of : Bool → Result GoString)
      → signed_string claims key ≡ ok raw
      → key_of true ≡ ok key
      → timely claims ≡ true
      → All (λ (c : GoString × Claim). (valid c.0 ≡ true) × (is_valid valid c.1 ≡ true)) claims
      → (found : GoMap Claim) × (lib.parse raw key_of
          ≡ ok (record { hmac = true; valid = true; claims = some found }))
        × ((k : GoString) → lookup k found ≡ lookup k claims)

-- A token of these claims can be read back now.
pub record IsReadable {lib : JwtLibrary} (signer : Signer lib) (claims : GoMap Claim) : Type 0 where
  pub in_time : signer.timely claims ≡ true
  pub is_utf8 :
      All
        (λ (c : GoString × Claim). (signer.valid c.0 ≡ true) × (is_valid signer.valid c.1 ≡ true))
        claims

-- Exit status 1 with a text or an error on the standard error, or the token.
pub data Outcome : Type 0 where
  usage : GoString → Outcome
  failed : Error → Outcome
  printed : GoString → Outcome

-- The expiry, 24 hours from now, is a number.
abbrev pub claims_of : GoString → GoMap Claim
claims_of user_id = (user_id_key, text user_id) ∷ (bytes "exp", other) ∷ []

abbrev pub print : Result GoString → Outcome
print (ok signed) = printed signed
print (err e) = failed e

module _ {lib : JwtLibrary} (signer : Signer lib) where
  -- `args` are the arguments behind the program's name.
  unfoldable pub main : List GoString → (GoString → GoString) → Outcome
  main [] env = usage (bytes "usage: gentoken <user_id>")
  main (user_id ∷ args) env =
      let secret = env (bytes "JWT_SECRET") in
      if is_empty secret
      then usage (bytes "JWT_SECRET is not set")
      else print (signer.signed_string (claims_of user_id) secret)
