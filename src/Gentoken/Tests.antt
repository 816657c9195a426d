-- ===== src/Gentoken/Tests.antt =====
-- The command over a library whose tokens are the key followed by the user's id.
use golang_learning.Prelude.{
  ℕ, zero, suc, length, eq_refl, GoString, GoMap, lookup, ◌==◌, Bool, true, [], ◌∷◌, ◌++◌, Option,
  none, some, if◌then◌else◌, ◌≡◌, refl, arith,
}
use golang_learning.Domain.{failure, Result, ok, err}
use golang_learning.Config.{load}
use golang_learning.TokenServer.{bearer_prefix}
use golang_learning.Jwt.{Claim, text, other, Token, JwtLibrary, user_id_key, jwt, next}
use golang_learning.Gentoken.{Signer, IsReadable, printed, claims_of, main}
use golang_learning.Gentoken.Accepted.{unset_secret_accepts}

-- A string, ended by 0, at the front of a text.
encode : GoString → GoString → GoString
encode [] rest = 0 ∷ rest
encode (x ∷ s) rest = suc x ∷ encode s rest

take_string : GoString → GoString × GoString
take_string [] = ([], [])
take_string (zero ∷ rest) = ([], rest)
take_string (suc x ∷ rest) = let (s, after) = take_string rest in (x ∷ s, after)

take_string-encode : (s rest : GoString) → take_string (encode s rest) ≡ (s, rest)
unfolding take_string encode
take_string-encode [] rest = refl
take_string-encode (x ∷ s) rest = rw (take_string-encode s rest) refl

-- The claims, each behind its kind.
encode_all : GoMap Claim → GoString
unfolding encode
encode_all [] = []
encode_all ((k, text v) ∷ claims) = 1 ∷ encode k (encode v (encode_all claims))
encode_all ((k, other) ∷ claims) = 0 ∷ encode k (encode_all claims)

decode_all : ℕ → GoString → GoMap Claim
unfolding take_string
decode_all zero rest = []
decode_all (suc n) [] = []
decode_all (suc n) (zero ∷ rest) =
    let (k, after) = take_string rest in (k, other) ∷ decode_all n after
decode_all (suc n) (suc x ∷ rest) =
    let (k, after) = take_string rest in
    let (v, last) = take_string after in (k, text v) ∷ decode_all n last

decode_all-encode_all :
    (claims : GoMap Claim) → decode_all (length claims) (encode_all claims) ≡ claims
unfolding decode_all encode_all
decode_all-encode_all [] = refl
decode_all-encode_all ((k, text v) ∷ claims) =
    rw
      (
        take_string-encode k (encode v (encode_all claims)),
        take_string-encode v (encode_all claims),
        decode_all-encode_all claims,
      )
      refl
decode_all-encode_all ((k, other) ∷ claims) =
    rw (take_string-encode k (encode_all claims), decode_all-encode_all claims) refl

-- A token is its key, the number of its claims and the claims.
abbrev sealed : GoMap Claim → GoString → GoString
sealed claims key = encode key (length claims ∷ encode_all claims)

abbrev opened : GoString → Option (GoMap Claim)
opened [] = none
opened (n ∷ rest) = some (decode_all n rest)

abbrev token_of : GoString → Token
token_of rest = record { hmac = true; valid = true; claims = opened rest }

abbrev verify : GoString → Result GoString → Result Token
verify raw (err e) = err e
verify raw (ok key) =
    if (take_string raw).0 == key then ok (token_of (take_string raw).1) else err (failure [])

abbrev Signed : GoString → GoString → Type 0
Signed raw key = ((take_string raw).0 == key) ≡ true

verify-Signed :
    (raw : GoString) (key_of : Bool → Result GoString) (t : Token) (given : Result GoString)
    → key_of true ≡ given
    → verify raw given ≡ ok t
    → (key : GoString) × (key_of t.hmac ≡ ok key) × Signed raw key
verify-Signed raw key_of t (err x) g e = absurd (ground arith)
verify-Signed raw key_of t (ok key) g e = (key, ground arith, ground arith)

abbrev library : JwtLibrary
library = record {
  Signed = Signed;
  parse = λ raw key_of. verify raw (key_of true);
  parse_signed = λ raw key_of t e. verify-Signed raw key_of t (key_of true) refl e;
}

verify-sealed :
    (claims : GoMap Claim) (key raw : GoString) (given : Result GoString)
    → ◌≡◌ {A = Result GoString} (ok (sealed claims key)) (ok raw)
    → given ≡ ok key
    → verify raw given ≡ ok (record { hmac = true; valid = true; claims = some claims })
verify-sealed claims key raw given e g =
    let is : sealed claims key ≡ raw = ground arith in
    rw
      (
        g,
        ← is,
        take_string-encode key (length claims ∷ encode_all claims),
        eq_refl key,
        decode_all-encode_all claims,
      )
      refl

abbrev signer : Signer library
signer = record {
  signed_string = λ claims key. ok (sealed claims key);
  valid = λ s. true;
  timely = λ claims. true;
  parse-signed_string = λ claims key raw key_of e g in_time is_utf8.
      (claims, verify-sealed claims key raw (key_of true) e g, λ k. refl);
}

abbrev alice : GoString
alice = 7 ∷ []

readable : IsReadable signer (claims_of alice)
readable = record { in_time = refl; is_utf8 = ((refl, refl), ((refl, refl), tt)) }

-- Every variable is set to one text, and none is.
abbrev same_env : GoString → GoString
same_env name = 5 ∷ []

abbrev no_env : GoString → GoString
no_env name = []

printed_lem : main signer (alice ∷ []) same_env ≡ printed (sealed (claims_of alice) (5 ∷ []))
unfolding main
printed_lem = refl

claims_of-alice : lookup user_id_key (claims_of alice) ≡ some (text alice)
unfolding lookup
claims_of-alice = rw (eq_refl user_id_key) refl

unset_secret_accepts_example :
    jwt library (load no_env).jwt_secret (bearer_prefix ++ sealed (claims_of alice) []) ≡ next alice
unset_secret_accepts_example =
    unset_secret_accepts signer no_env (claims_of alice) (sealed (claims_of alice) []) alice refl
      refl readable claims_of-alice (λ e. cc)
