-- ===== src/Config/Split.antt =====
-- The list of Kafka brokers.
use golang_learning.Prelude.{
  ℕ, GoString, bytes, List, [], ◌∷◌, ◌++◌, append_assoc, append-nil, All, ◌≡◌, ◌≢◌, refl, sym, ◌∙◌,
  arith, nat_eq, nat_eq_iff, Bool-cases, inl, inr,
}
use golang_learning.Config.{split_from, split, load}

-- The parts with the separator between them.
unfoldable pub joined : ℕ → List GoString → GoString
joined sep [] = []
joined sep (p ∷ []) = p
joined sep (p ∷ q ∷ ps) = p ++ sep ∷ joined sep (q ∷ ps)

abbrev pub Lacks : ℕ → GoString → Type 0
Lacks sep s = All (λ c. c ≢ sep) s

Lacks-push : (sep c : ℕ) (s : GoString) → Lacks sep s → c ≢ sep → Lacks sep (s ++ c ∷ [])
Lacks-push sep c [] h ne = (ne, tt)
Lacks-push sep c (x ∷ s) h ne = (h.0, Lacks-push sep c s h.1 ne)

-- A split is never empty.
split_from-cons :
    (sep : ℕ) (cur s : GoString)
    → (p : GoString) × (ps : List GoString) × (split_from sep cur s ≡ p ∷ ps)
unfolding split_from
split_from-cons sep cur [] = (cur, [], refl)
split_from-cons sep cur (c ∷ s) = elim (Bool-cases (nat_eq c sep)) [
  | inl same ↦ rw (same, split_from) (cur, split_from sep [] s, refl)
  | inr other ↦ rw (other, split_from) (split_from-cons sep (cur ++ c ∷ []) s)
]

joined-cons :
    (sep : ℕ) (p : GoString) (ps : List GoString)
    → ps ≢ []
    → joined sep (p ∷ ps) ≡ p ++ sep ∷ joined sep ps
unfolding joined
joined-cons sep p [] ne = absurd (ne refl)
joined-cons sep p (q ∷ ps) ne = refl

joined-split_from : (sep : ℕ) (cur s : GoString) → joined sep (split_from sep cur s) ≡ cur ++ s
unfolding split_from joined
joined-split_from sep cur [] = sym (append-nil cur)
joined-split_from sep cur (c ∷ s) = elim (Bool-cases (nat_eq c sep)) [
  | inl same ↦
      let (p, ps, e) = split_from-cons sep [] s in
      let filled : split_from sep [] s ≢ [] = λ empty. ground arith in
      rw (same, split_from)
        (joined-cons sep cur (split_from sep [] s) filled
          ∙ rw (joined-split_from sep [] s, (nat_eq_iff c sep).0 same) refl)
  | inr other ↦
      rw (other, split_from) (joined-split_from sep (cur ++ c ∷ []) s ∙ append_assoc cur (c ∷ []) s)
]

split_from-Lacks :
    (sep : ℕ) (cur s : GoString) → Lacks sep cur → All (Lacks sep) (split_from sep cur s)
unfolding split_from
split_from-Lacks sep cur [] h = (h, tt)
split_from-Lacks sep cur (c ∷ s) h = elim (Bool-cases (nat_eq c sep)) [
  | inl same ↦ rw (same, split_from) (h, split_from-Lacks sep [] s tt)
  | inr other ↦
      rw (other, split_from)
        (split_from-Lacks sep (cur ++ c ∷ []) s (Lacks-push sep c cur h (λ e. ground arith)))
]

-- The brokers of the configuration, with commas between them, are the variable as it was set, and
-- none of them holds a comma; there is always at least one, which is empty if the variable is.
pub brokers_lem :
    (env : GoString → GoString)
    → let brokers = (load env).kafka_brokers in
      (joined b',' brokers ≡ env (bytes "KAFKA_BOOTSTRAP_SERVERS"))
      × All (Lacks b',') brokers
      × (brokers ≢ [])
unfolding load split
brokers_lem env =
    let s = env (bytes "KAFKA_BOOTSTRAP_SERVERS") in
    let (p, ps, e) = split_from-cons b',' [] s in
    (joined-split_from b',' [] s, split_from-Lacks b',' [] s tt, λ empty. ground arith)
