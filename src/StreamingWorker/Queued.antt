-- ===== src/StreamingWorker/Queued.antt =====
-- What stands before and in the channel of a request, as tokens move through it.
use golang_learning.Prelude.{
  ℕ, GoString, GoMap, lookup, lookup-insert, ◌==◌, eq_iff, insert, List, [], ◌∷◌, ◌++◌, Option,
  none, some, true, false, if◌then◌else◌, nat_eq, nat_eq_iff, All, Sub, keep, skip, rev, ◌≡◌, ◌≢◌,
  refl, ap, arith, Bool-cases, inl, inr,
}
use golang_learning.StreamingWorker.{StreamToken, set_queue}

-- The tokens of one request.
unfoldable pub of_request : GoString → List StreamToken → List StreamToken
of_request id [] = []
of_request id (t ∷ ts) = if t.request_id == id then t ∷ of_request id ts else of_request id ts

-- What is on its way into the channel and in it, the latest first.
abbrev pub in_send : ℕ → Option (ℕ × StreamToken) → List StreamToken
in_send c none = []
in_send c (some (d, t)) = if nat_eq d c then t ∷ [] else []

abbrev pub Owns : GoString → List StreamToken → Type 0
Owns id = All (λ t. t.request_id ≡ id)

module _ (channels : GoMap ℕ) (queue : ℕ → List StreamToken) (sending : Option (ℕ × StreamToken))
    (handled seen : List StreamToken) where
  pub record Ordered : Type 0 where
    pub owned :
        (id : GoString) (c : ℕ)
        → lookup id channels ≡ some c
        → Owns id (queue c) × Owns id (in_send c sending)
    pub waiting :
        (id : GoString) (c : ℕ)
        → lookup id channels ≡ some c
        → Sub (in_send c sending ++ rev (queue c) ++ of_request id handled) (of_request id seen)
    pub done : (id : GoString) → Sub (of_request id handled) (of_request id seen)

pub Owns-push :
    (id : GoString) (ts : List StreamToken) (t : StreamToken)
    → Owns id ts
    → t.request_id ≡ id
    → Owns id (ts ++ t ∷ [])
Owns-push id [] t h e = (e, tt)
Owns-push id (u ∷ ts) t h e = (h.0, Owns-push id ts t h.1 e)

pub of_request-own :
    (id : GoString) (t : StreamToken) (ts : List StreamToken)
    → t.request_id ≡ id
    → of_request id (t ∷ ts) ≡ t ∷ of_request id ts
unfolding of_request
of_request-own id t ts e = ground (arith, eq_iff t.request_id id)

pub of_request-other :
    (id : GoString) (t : StreamToken) (ts : List StreamToken)
    → t.request_id ≢ id
    → of_request id (t ∷ ts) ≡ of_request id ts
unfolding of_request
of_request-other id t ts ne = ground (arith, eq_iff t.request_id id)

module _ (channels : GoMap ℕ) (queue : ℕ → List StreamToken) (handled seen : List StreamToken)
    (single : (i j : GoString) (c : ℕ)
      → lookup i channels ≡ some c
      → lookup j channels ≡ some c
      → i ≡ j)
    (token : StreamToken) where
  seen_more :
      (id : GoString) {ts : List StreamToken}
      → Sub ts (of_request id seen)
      → Sub ts (of_request id (token ∷ seen))
  seen_more id h = elim (Bool-cases (token.request_id == id)) [
    | inl own ↦ rw (of_request-own id token seen ((eq_iff token.request_id id).0 own)) (skip h)
    | inr other ↦
        rw (of_request-other id token seen (λ e. ground (arith, eq_iff token.request_id id))) h
  ]

  at_own :
      (id : GoString) (c d : ℕ)
      → (token.request_id == id) ≡ true
      → lookup id (insert token.request_id c channels) ≡ some d
      → c ≡ d
  at_own id c d own e = ground (arith, lookup-insert token.request_id id c channels)

  at_other :
      (id : GoString) (c d : ℕ)
      → (token.request_id == id) ≡ false
      → lookup id (insert token.request_id c channels) ≡ some d
      → lookup id channels ≡ some d
  at_other id c d other e = ground (arith, lookup-insert token.request_id id c channels)

  -- The router is given a token of a request that has a channel.
  pub route_known :
      (c : ℕ)
      → lookup token.request_id channels ≡ some c
      → Ordered channels queue none handled seen
      → Ordered channels queue (some (c, token)) handled (token ∷ seen)
  route_known c known o = record {
    owned = λ id d e. elim (Bool-cases (nat_eq c d)) [
      | inl same ↦ (
        (o.owned id d e).0,
        rw same (single token.request_id id d (rw ((nat_eq_iff c d).0 same) at known) e, tt),
      )
      | inr other ↦ ((o.owned id d e).0, rw other tt)
    ];
    waiting = λ id d e. elim (Bool-cases (nat_eq c d)) [
      | inl same ↦
          let own = single token.request_id id d (rw ((nat_eq_iff c d).0 same) at known) e in
          rw (same, of_request-own id token seen own) (keep token (o.waiting id d e))
      | inr other ↦
          let away : token.request_id ≢ id =
            λ own. ground (arith, ap (λ j. lookup j channels) own) in
          rw (other, of_request-other id token seen away) (o.waiting id d e)
    ];
    done = λ id. seen_more id (o.done id);
  }

  -- The router is given a token of a request that has none: a new channel.
  pub route_fresh :
      (c : ℕ)
      → ((id : GoString) (d : ℕ) → lookup id channels ≡ some d → d ≢ c)
      → Ordered channels queue none handled seen
      → Ordered
          (insert token.request_id c channels)
          (set_queue queue c [])
          (some (c, token))
          handled
          (token ∷ seen)
  route_fresh c new o = record {
    owned = λ id d e. elim (Bool-cases (token.request_id == id)) [
      | inl own ↦
          let same : c ≡ d = at_own id c d own e in
          let mine = (eq_iff token.request_id id).0 own in
          rw (← same, (nat_eq_iff c c).1 refl) (tt, (mine, tt))
      | inr other ↦
          let e' = at_other id c d other e in
          let apart : nat_eq c d ≡ false = ground (arith, new id d e') in
          rw apart ((o.owned id d e').0, tt)
    ];
    waiting = λ id d e. elim (Bool-cases (token.request_id == id)) [
      | inl own ↦
          let same : c ≡ d = at_own id c d own e in
          rw
            (
              ← same,
              (nat_eq_iff c c).1 refl,
              of_request-own id token seen ((eq_iff token.request_id id).0 own),
            )
            (keep token (o.done id))
      | inr other ↦
          let e' = at_other id c d other e in
          let apart : nat_eq c d ≡ false = ground (arith, new id d e') in
          rw
            (
              apart,
              of_request-other id token seen (λ own. ground (arith, eq_iff token.request_id id)),
            )
            (o.waiting id d e')
    ];
    done = λ id. seen_more id (o.done id);
  }
