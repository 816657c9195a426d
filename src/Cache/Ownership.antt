-- ===== src/Cache/Ownership.antt =====
-- Who owns a session.
use golang_learning.Prelude.{
  ℕ, GoString, ◌==◌, eq_iff, Bool, true, false, Option, some, ◌≡◌, ◌≢◌, inl, inr, refl, ap, subst,
  ◌∙◌, arith, Option-cases, Bool-cases, nat_eq,
}
use golang_learning.Domain.{Result, ok, err}
use golang_learning.Cache.Client.{Redis, RedisLaws}
use golang_learning.Cache.{claim_owner, claim_owner_script, session_owner_key, owner_ttl, is_one}

module _ {r : Redis} (laws : RedisLaws r) where
  -- The owner that Redis holds for a session.
  abbrev pub owner : GoString → r.World → Option GoString
  owner session_id = r.stored (session_owner_key session_id)

  script_cases :
      (key user : GoString) (w w' : r.World) (n : ℕ)
      → claim_owner_script r key user owner_ttl w ≡ (w', n)
      → (nat_eq n 1 ≡ true
          → (r.stored key w' ≡ some user)
            × ((v : GoString) → r.stored key w ≡ some v → (v ≡ user) × (w' ≡ w)))
        × (nat_eq n 1 ≡ false
            → (w' ≡ w) × ((v : GoString) × (r.stored key w ≡ some v) × (v ≢ user)))
  unfolding claim_owner_script
  script_cases key user w w' n e = elim (Option-cases (r.stored key w)) [
    | inl gone ↦
        let ran : ◌≡◌ {A = r.World × ℕ} (r.set_ex key user owner_ttl w, 1) (w', n) =
          rw (gone, claim_owner_script) at e in
        (
          λ one. (
            subst (λ x. r.stored key x ≡ some user) (ap (λ (p : r.World × ℕ). p.0) ran)
                (laws.stored-set_ex key user owner_ttl w),
            λ v held. absurd (ground arith),
          ),
          λ zero. absurd (ground arith),
        )
    | inr (v, held) ↦ elim (Bool-cases (v == user)) [
      | inl same ↦ (
        λ one. (
          ground (arith, eq_iff v user),
          λ u held'. (ground (arith, eq_iff v user), ground arith),
        ),
        λ zero. absurd (ground arith),
      )
      | inr other ↦ (
        λ one. absurd (ground arith),
        λ zero. (ground arith, (v, held, λ e'. ground (arith, eq_iff v user))),
      )
    ]
  ]

  answered :
      (key user : GoString) (w : r.World) (p : r.World × Result ℕ) {w' : r.World} {granted : Bool}
      → r.eval (claim_owner_script r key user owner_ttl) w ≡ p
      → is_one r p ≡ (w', ok granted)
      → (n : ℕ) × (claim_owner_script r key user owner_ttl w ≡ (w', n)) × (nat_eq n 1 ≡ granted)
  answered key user w (u, ok n) e h = (
    n,
    laws.eval_ok _ w _ n e
        ∙ ap (λ (x : r.World). (x, n)) (ap (λ (t : r.World × Result Bool). t.0) h),
    ground arith,
  )
  answered key user w (u, err x) e h = absurd (ground arith)

  -- If a claim is answered, it says whether the caller owns the session now. A claim that is
  -- granted found no owner, or the caller and then changes nothing; one that is refused found
  -- another owner and changes nothing.
  pub claim_owner_cases :
      (session_id user : GoString) (w w' : r.World) (granted : Bool)
      → claim_owner r session_id user w ≡ (w', ok granted)
      → (granted ≡ true
          → (owner session_id w' ≡ some user)
            × ((v : GoString) → owner session_id w ≡ some v → (v ≡ user) × (w' ≡ w)))
        × (granted ≡ false
            → (w' ≡ w) × ((v : GoString) × (owner session_id w ≡ some v) × (v ≢ user)))
  unfolding claim_owner
  claim_owner_cases session_id user w w' granted e =
      let key = session_owner_key session_id in
      let (n, ran, answer) =
        answered key user w (r.eval (claim_owner_script r key user owner_ttl) w) refl e in
      let (taken, refused) = script_cases key user w w' n ran in
      (λ yes'. taken (answer ∙ yes'), λ no'. refused (answer ∙ no'))
