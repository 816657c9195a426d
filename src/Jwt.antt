-- ===== src/Jwt.antt =====
-- internal/adapter/controller/http/middleware/jwt.go. The package golang-jwt is the parameter
-- `JwtLibrary`: Parse asks the key function for the key of the token's signing method.
pub mod Access
mod Tests
use golang_learning.Prelude.{
  GoString, bytes, GoMap, lookup, is_empty, has_prefix, trim_prefix, Bool, true, false, not, [],
  Option, none, some, if◌then◌else◌, ◌≡◌, ◌⊎◌, inl, inr, refl,
}
use golang_learning.Domain.{Error, failure, Result, ok, err}
use golang_learning.TokenServer.{bearer_prefix}

-- A claim's value: a string, or of another JSON type.
pub data Claim : Type 0 where
  text : GoString → Claim
  other : Claim

-- `hmac` says whether the signing method is a *SigningMethodHMAC; `claims` is none if the claims
-- are no MapClaims.
pub record Token : Type 0 where
  pub hmac : Bool
  pub valid : Bool
  pub claims : Option (GoMap Claim)

-- Parse succeeds only with a key from the key function, under which the token's signature verifies.
pub record JwtLibrary : Type 1 where
  pub Signed : GoString → GoString → Type 0
  pub parse : GoString → (Bool → Result GoString) → Result Token
  pub parse_signed :
      (raw : GoString) (key_of : Bool → Result GoString) (t : Token)
      → parse raw key_of ≡ ok t
      → (key : GoString) × (key_of t.hmac ≡ ok key) × Signed raw key

unfoldable pub user_id_key : GoString
unfolding bytes
user_id_key = bytes "user_id"

abbrev pub signature_invalid : Error
signature_invalid = failure []

-- The key function: no key but for HMAC.
abbrev pub hmac_key : GoString → Bool → Result GoString
hmac_key secret hmac = if hmac then ok secret else err signature_invalid

abbrev pub user_of : Option Claim → Result GoString
user_of none = err signature_invalid
user_of (some other) = err signature_invalid
user_of (some (text user_id)) = if is_empty user_id then err signature_invalid else ok user_id

abbrev pub claimed_user : Option (GoMap Claim) → Result GoString
claimed_user none = err signature_invalid
claimed_user (some claims) = user_of (lookup user_id_key claims)

abbrev pub checked : Result Token → Result GoString
checked (err e) = err signature_invalid
checked (ok t) = if not t.valid then err signature_invalid else claimed_user t.claims

-- What the middleware does with a request: status 401 and a text, or on with the user's id.
pub data Verdict : Type 0 where
  abort : GoString → Verdict
  next : GoString → Verdict

pub Verdict-cases :
    (v : Verdict)
    → ((text : GoString) × (v ≡ abort text)) ⊎ ((user_id : GoString) × (v ≡ next user_id))
Verdict-cases (abort t) = inl (t, refl)
Verdict-cases (next user_id) = inr (user_id, refl)

module _ (lib : JwtLibrary) where
  unfoldable pub parse_jwt : GoString → GoString → Result GoString
  parse_jwt raw secret = checked (lib.parse raw (hmac_key secret))

  unfoldable pub jwt : GoString → GoString → Verdict
  unfolding parse_jwt
  jwt secret header =
      if not (has_prefix bearer_prefix header)
      then abort (bytes "missing token")
      else elim (parse_jwt (trim_prefix bearer_prefix header) secret) [
        | err e ↦ abort (bytes "invalid token")
        | ok user_id ↦ next user_id
      ]
