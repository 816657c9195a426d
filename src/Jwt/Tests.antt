-- ===== src/Jwt/Tests.antt =====
-- The middleware over a library whose tokens are the secret followed by the user's id.
use golang_learning.Prelude.{
  GoString, GoMap, lookup, has_prefix, trim_prefix, ◌==◌, [], ◌∷◌, ◌++◌, Bool, true, some,
  if◌then◌else◌, ◌≡◌, ◌≢◌, refl, arith,
}
use golang_learning.Domain.{failure, Result, ok, err}
use golang_learning.Jwt.{Claim, text, Token, JwtLibrary, user_id_key, parse_jwt}
use golang_learning.Jwt.Access.{parse_jwt-ok}

abbrev token_of : GoString → Token
token_of user = record { hmac = true; valid = true; claims = some ((user_id_key, text user) ∷ []) }

abbrev verify : GoString → Result GoString → Result Token
verify raw (err e) = err e
verify raw (ok key) =
    if has_prefix key raw then ok (token_of (trim_prefix key raw)) else err (failure [])

Signed : GoString → GoString → Type 0
Signed raw key = has_prefix key raw ≡ true

verify-Signed :
    (raw : GoString) (key_of : Bool → Result GoString) (t : Token) (given : Result GoString)
    → key_of true ≡ given
    → verify raw given ≡ ok t
    → (key : GoString) × (key_of t.hmac ≡ ok key) × Signed raw key
unfolding Signed
verify-Signed raw key_of t (err x) g e = absurd (ground arith)
verify-Signed raw key_of t (ok key) g e = (key, ground arith, ground arith)

abbrev library : JwtLibrary
library = record {
  Signed = Signed;
  parse = λ raw key_of. verify raw (key_of true);
  parse_signed = λ raw key_of t e. verify-Signed raw key_of t (key_of true) refl e;
}

abbrev secret : GoString
secret = b'k' ∷ []

parse_jwt-ok_example :
    (t : Token) × (t.hmac ≡ true)
    × (t.valid ≡ true)
    × Signed (secret ++ 7 ∷ []) secret
    × ((claims : GoMap Claim) × (t.claims ≡ some claims)
        × (lookup user_id_key claims ≡ some (text (7 ∷ []))))
    × (◌≢◌ {A = GoString} (7 ∷ []) [])
unfolding parse_jwt has_prefix trim_prefix lookup ◌==◌ user_id_key
parse_jwt-ok_example = parse_jwt-ok library (secret ++ 7 ∷ []) secret (7 ∷ []) refl
