-- ===== src/Cache/Claims.antt =====
-- A session keeps its owner through all claims that follow.
use golang_learning.Prelude.{
  ℕ, GoString, ◌==◌, eq_iff, Bool, true, List, [], ◌∷◌, some, ◌≡◌, ◌≢◌, ◌⊎◌, inl, inr, refl, ap,
  ◌∙◌, arith, Option-cases, Bool-cases,
}
use golang_learning.Domain.{redis_nil, Error, Result, ok, err, Result-cases}
use golang_learning.Cache.{
  claim_owner, claim_owner_script, get_owner, session_owner_key, owner_ttl, is_one,
}
use golang_learning.Cache.Client.{Redis, RedisLaws, RedisFrames}
use golang_learning.Cache.Ownership.{claim_owner_cases}

is_one-world : (r : Redis) (p : r.World × Result ℕ) → (is_one r p).0 ≡ p.0
is_one-world r (w, ok n) = refl
is_one-world r (w, err e) = refl

module _ {r : Redis} (frames : RedisFrames r) (id alice : GoString) where
  abbrev pub Owned : r.World → Type 0
  Owned w = r.stored (session_owner_key id) w ≡ some alice

  script-Owned :
      (session_id user : GoString) (w : r.World)
      → Owned w
      → Owned (claim_owner_script r (session_owner_key session_id) user owner_ttl w).0
  unfolding claim_owner_script
  script-Owned session_id user w o =
      elim (Option-cases (r.stored (session_owner_key session_id) w)) [
        | inl missing ↦
            let apart : session_owner_key session_id ≢ session_owner_key id =
              λ same. ground (arith, ap (λ k. r.stored k w) same) in
            rw (missing, claim_owner_script)
              (frames.set_ex_other (session_owner_key session_id) (session_owner_key id) user
                  owner_ttl w apart
                ∙ o)
        | inr (v, found) ↦ elim (Bool-cases (v == user)) [
          | inl same ↦ rw (found, same, claim_owner_script) o
          | inr other ↦ rw (found, other, claim_owner_script) o
        ]
      ]

  pub claim_owner-Owned :
      (session_id user : GoString) (w : r.World)
      → Owned w
      → Owned (claim_owner r session_id user w).0
  unfolding claim_owner
  claim_owner-Owned session_id user w o =
      let script = claim_owner_script r (session_owner_key session_id) user owner_ttl in
      let is = is_one-world r (r.eval script w) in
      elim (frames.eval_runs script w) [
        | inl idle ↦ rw is (rw idle o)
        | inr ran ↦ rw is (rw ran (script-Owned session_id user w o))
      ]

  -- A claim by another user changes nothing in Redis.
  pub claim_owner-idle :
      (bob : GoString) (w : r.World) → Owned w → alice ≢ bob → (claim_owner r id bob w).0 ≡ w
  unfolding claim_owner claim_owner_script
  claim_owner-idle bob w o ne =
      let script = claim_owner_script r (session_owner_key id) bob owner_ttl in
      let is = is_one-world r (r.eval script w) in
      let idle : (script w).0 ≡ w = elim (Bool-cases (alice == bob)) [
        | inl same ↦ absurd (ne ((eq_iff alice bob).0 same))
        | inr other ↦ rw (o, other, claim_owner_script) refl
      ] in
      elim (frames.eval_runs script w) [ inl kept ↦ is ∙ kept | inr ran ↦ is ∙ ran ∙ idle ]

-- A sequence of claims, each of a session by a user, whatever they are answered.
unfoldable pub claim_all : (r : Redis) → List (GoString × GoString) → r.World → r.World
claim_all r [] w = w
claim_all r ((session_id, user) ∷ claims) w = claim_all r claims (claim_owner r session_id user w).0

claim_all-Owned :
    {r : Redis} (frames : RedisFrames r) (id alice : GoString) (claims : List (GoString × GoString))
    (w : r.World)
    → Owned frames id alice w
    → Owned frames id alice (claim_all r claims w)
unfolding claim_all
claim_all-Owned frames id alice [] w o = o
claim_all-Owned {r} frames id alice ((session_id, user) ∷ claims) w o =
    claim_all-Owned frames id alice claims (claim_owner r session_id user w).0
      (claim_owner-Owned frames id alice session_id user w o)

module _ {r : Redis} (laws : RedisLaws r) (frames : RedisFrames r) where
  -- While the key of its owner does not expire: after a claim that was granted, and any claims of
  -- any sessions behind it, a claim on the session that is answered is granted if and only if the
  -- user is the owner; and GetOwner names the owner or fails with another error than redis.Nil.
  pub claim_owner_exclusive :
      (session_id alice bob : GoString) (claims : List (GoString × GoString)) (w w₁ w₂ : r.World)
      (granted : Bool)
      → claim_owner r session_id alice w ≡ (w₁, ok true)
      → claim_owner r session_id bob (claim_all r claims w₁) ≡ (w₂, ok granted)
      → (granted ≡ (alice == bob))
        × ((get_owner r session_id (claim_all r claims w₁) ≡ ok alice)
            ⊎ ((e : Error) × (get_owner r session_id (claim_all r claims w₁) ≡ err e)
                × (e ≢ redis_nil)))
  unfolding get_owner
  claim_owner_exclusive session_id alice bob claims w w₁ w₂ granted first second =
      let held =
        claim_all-Owned frames session_id alice claims w₁
          ((claim_owner_cases laws session_id alice w w₁ true first).0 refl).0 in
      let now = claim_all r claims w₁ in
      let (taken, refused) = claim_owner_cases laws session_id bob now w₂ granted second in
      let key = session_owner_key session_id in
      (
        elim (Bool-cases granted) [
          | inl yes' ↦ let same = ((taken yes').1 alice held).0 in ground (arith, eq_iff alice bob)
          | inr no' ↦ let (_, (v, found, other)) = refused no' in ground (arith, eq_iff alice bob)
        ],
        elim (Result-cases (r.get key now)) [
          | inl (v, answered) ↦ let found = laws.get_found key v now answered in inl (ground arith)
          | inr (e, failed) ↦ inr (
            e,
            failed,
            λ nil. let missing = laws.get_missing key now (failed ∙ ap err nil) in ground arith,
          )
        ],
      )
