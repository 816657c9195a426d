-- ===== src/StreamingWorker/Taken.antt =====
-- What stands before and in the channel of a request, as its tokens enter it and are taken out.
use golang_learning.Prelude.{
  ℕ, GoString, GoMap, lookup, ◌==◌, eq_iff, List, [], ◌∷◌, ◌++◌, append_assoc, Option, none, some,
  nat_eq, nat_eq_iff, Sub, Sub-drop, rev, rev-push, ◌≡◌, ◌≢◌, sym, ap, ◌∙◌, arith, Bool-cases, inl,
  inr,
}
use golang_learning.StreamingWorker.{StreamToken, set_queue}
use golang_learning.StreamingWorker.Queued.{
  of_request, of_request-own, of_request-other, in_send, Owns, Owns-push, Ordered,
}

regroup :
    (xs ys : List StreamToken) (t : StreamToken) (zs : List StreamToken)
    → (xs ++ (ys ++ t ∷ [])) ++ zs ≡ (xs ++ ys) ++ t ∷ zs
regroup xs ys t zs = simp append_assoc

module _ (channels : GoMap ℕ) (queue : ℕ → List StreamToken) (handled seen : List StreamToken) where
  -- The token on its way enters its channel.
  pub sent_on :
      (c : ℕ) (token : StreamToken)
      → Ordered channels queue (some (c, token)) handled seen
      → Ordered channels (set_queue queue c (queue c ++ token ∷ [])) none handled seen
  sent_on c token o = record {
    owned = λ id d e. elim (Bool-cases (nat_eq c d)) [
      | inl same ↦
          let h = o.owned id d e in
          let h' : Owns id (queue d) × Owns id (token ∷ []) = (h.0, rw same at h.1) in
          (rw (same, (nat_eq_iff c d).0 same) (Owns-push id (queue d) token h'.0 h'.1.0), tt)
      | inr other ↦ rw other ((o.owned id d e).0, tt)
    ];
    waiting = λ id d e. elim (Bool-cases (nat_eq c d)) [
      | inl same ↦
          rw (same, (nat_eq_iff c d).0 same, rev-push (queue d) token)
            (rw same at (o.waiting id d e))
      | inr other ↦ rw other (rw other at (o.waiting id d e))
    ];
    done = o.done;
  }

  -- The send is abandoned.
  pub sent_off :
      (sending : Option (ℕ × StreamToken))
      → Ordered channels queue sending handled seen
      → Ordered channels queue none handled seen
  sent_off sending o = record {
    owned = λ id d e. ((o.owned id d e).0, tt);
    waiting = λ id d e. Sub-drop (in_send d sending) (
        rw (append_assoc (in_send d sending) (rev (queue d)) (of_request id handled)) at
          (o.waiting id d e));
    done = o.done;
  }

  -- A goroutine takes the first token of its channel.
  pub taken :
      (single : (i j : GoString) (c : ℕ)
        → lookup i channels ≡ some c
        → lookup j channels ≡ some c
        → i ≡ j)
      (sending : Option (ℕ × StreamToken)) (id : GoString) (c : ℕ) (token : StreamToken)
      (rest : List StreamToken)
      → lookup id channels ≡ some c
      → queue c ≡ token ∷ rest
      → Ordered channels queue sending handled seen
      → Ordered channels (set_queue queue c rest) sending (token ∷ handled) seen
  taken single sending id c token rest known first o = record {
    owned = λ j d e. elim (Bool-cases (nat_eq c d)) [
      | inl same ↦
          let h = o.owned j d e in
          let h' : Owns j (token ∷ rest) = rw (← (nat_eq_iff c d).0 same, first) at h.0 in
          rw same (h'.1, h.1)
      | inr other ↦ rw other (o.owned j d e)
    ];
    waiting = λ j d e. elim (Bool-cases (nat_eq c d)) [
      | inl same ↦
          let at_c = (nat_eq_iff c d).0 same in
          let is_id = single id j c known (rw (← at_c) at e) in rw (same, ← at_c, ← is_id) passed
      | inr other ↦
          let away : token.request_id ≢ j =
            λ is. ground (arith, ap (λ k. lookup k channels) (sym is_request ∙ is)) in
          rw (other, of_request-other j token handled away) (o.waiting j d e)
    ];
    done = λ j. elim (Bool-cases (token.request_id == j)) [
      | inl own ↦
          let is_id : id ≡ j = sym is_request ∙ (eq_iff token.request_id j).0 own in
          rw (← is_id) (Sub-drop (in_send c sending ++ rev rest) passed)
      | inr other ↦
          rw (of_request-other j token handled (λ is. ground (arith, eq_iff token.request_id j)))
            (o.done j)
    ];
  }
    where
      is_request : token.request_id ≡ id
      is_request = let h : Owns id (token ∷ rest) = rw first at (o.owned id c known).0 in h.0

      passed :
          Sub
            (in_send c sending ++ rev rest ++ of_request id (token ∷ handled))
            (of_request id seen)
      passed =
          rw
            (
              of_request-own id token handled is_request,
              ← regroup (in_send c sending) (rev rest) token (of_request id handled),
            )
            (rw first at (o.waiting id c known))
