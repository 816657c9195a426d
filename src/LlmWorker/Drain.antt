-- ===== src/LlmWorker/Drain.antt =====
-- What happens when no more messages come.
use golang_learning.Prelude.{
  ℕ, suc, ◌+◌, ◌≤◌, ◌<◌, GoString, Bool, true, false, List, [], ◌∷◌, Option, none, some, In, here,
  length, ◌≡◌, refl, arith, Option-cases, inl, inr, Bool-cases, ltb,
}
use golang_learning.Domain.{ChatRequest}
use golang_learning.LlmWorker.{Worker, Step, fetches, spawns, finishes, stops, Reach, next}
use golang_learning.LlmWorker.Requests.{
  count, count_waiting, length-remove_at, requests_kept, Reach-held,
}

-- The steps that are still to be taken for the requests that the worker has.
unfoldable pub work : Worker → ℕ
work w = (elim w.waiting [ none ↦ 0 | some _ ↦ 2 ]) + length w.running

work-zero : (w : Worker) → work w ≡ 0 → (w.waiting ≡ none) × (w.running ≡ [])
unfolding work
work-zero w e = elim (Option-cases w.waiting) [
  | inl idle ↦ (idle, nothing w.running (ground arith))
  | inr (req, waits) ↦ absurd (ground arith)
]
  where
    nothing : (rs : List ChatRequest) → length rs ≡ 0 → rs ≡ []
    nothing [] e = refl
    nothing (r ∷ rs) e = absurd (omega arith)

some_running : (rs : List ChatRequest) → 1 ≤ length rs → (r : ChatRequest) × In r rs
some_running [] l = absurd (omega arith)
some_running (r ∷ rs) l = (r, here)

module _ (decode : GoString → Option ChatRequest) (concurrency : ℕ) where
  -- A request is handed to a goroutine, or a goroutine is done with it.
  abbrev pub is_work : {w v : Worker} → Step decode concurrency w v → Bool
  is_work (fetches value alive idle) = false
  is_work (spawns e l) = true
  is_work (finishes i) = true
  is_work (stops idle) = false

  -- A number of such steps, one after the other.
  pub data Drain (w : Worker) : ℕ → Worker → Type 0 where
    nothing_yet : Drain w 0 w
    further :
        {n : ℕ} {v u : Worker}
        → Drain w n v
        → (s : Step decode concurrency v u) → is_work s ≡ true
        → Drain w (suc n) u

  Step-work :
      {w v : Worker} (s : Step decode concurrency w v) → is_work s ≡ true → work w ≡ suc (work v)
  unfolding work
  Step-work (fetches value alive idle) e = absurd (ground arith)
  Step-work (spawns waits l) e = ground arith
  Step-work {w} (finishes i) e = ground (arith, length-remove_at w.running i)
  Step-work (stops idle) e = absurd (ground arith)

  Drain-work : {w v : Worker} {n : ℕ} → Drain w n v → n + work v ≡ work w
  Drain-work nothing_yet = omega arith
  Drain-work (further d s e) = omega (arith, Drain-work d, Step-work s e)

  Drain-Reach :
      {w v : Worker} {n : ℕ} → Reach decode concurrency w → Drain w n v → Reach decode concurrency v
  Drain-Reach r nothing_yet = r
  Drain-Reach r (further d s e) = next (Drain-Reach r d) s

  goes_on :
      {w : Worker}
      → 0 < concurrency
      → Reach decode concurrency w
      → 0 < work w
      → (v : Worker) × (s : Step decode concurrency w v) × (is_work s ≡ true)
  unfolding work
  goes_on {w} many r left = elim (Option-cases w.waiting) [
    | inl idle ↦ let (req, i) = some_running w.running (ground arith) in (_, finishes i, refl)
    | inr (req, waits) ↦ elim (Bool-cases (ltb w.sem concurrency)) [
      | inl room ↦ (_, spawns waits (ground arith), refl)
      | inr full ↦
          let (done, i) =
            some_running w.running (ground (arith, Reach-held decode concurrency r)) in
          (_, finishes i, refl)
    ]
  ]

  -- If `concurrency` is not 0 and no more messages are fetched, the worker comes to an end: from a
  -- reachable state every sequence of steps has at most as many as `work` says, it can be
  -- continued as long as it has less, and then all requests of fetched messages, with their
  -- multiplicity, have been processed.
  pub requests_finish :
      {w v : Worker} {n : ℕ}
      → 0 < concurrency
      → Reach decode concurrency w
      → Drain w n v
      → (n ≤ work w)
        × (n < work w → (u : Worker) × Drain w (suc n) u)
        × (n ≡ work w
            → (v.waiting ≡ none)
              × (v.running ≡ [])
              × ((test : ChatRequest → Bool) → count test v.received ≡ count test v.processed))
  unfolding count count_waiting
  requests_finish {w} {v} {n} many r d =
      let total = Drain-work d in
      let reached = Drain-Reach r d in
      (
        omega (arith, total),
        λ less. let (u, s, e) = goes_on many reached (omega (arith, total)) in (u, further d s e),
        λ all_done.
            let (idle, quiet) = work-zero v (omega (arith, total)) in
            (idle, quiet, λ test. ground (arith, requests_kept decode concurrency reached test)),
      )
