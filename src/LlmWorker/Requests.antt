-- ===== src/LlmWorker/Requests.antt =====
-- How many requests are processed at once, and where each request is.
use golang_learning.Prelude.{
  ℕ, ◌+◌, ◌≤◌, GoString, Bool, List, [], ◌∷◌, Option, none, some, In, here, there, if◌then◌else◌,
  length, ◌≡◌, refl, arith, Option-cases, inl, inr,
}
use golang_learning.Domain.{ChatRequest}
use golang_learning.LlmWorker.{
  Worker, new_worker, fetch, remove_at, Step, fetches, spawns, finishes, stops, Reach, start, next,
}

pub length-remove_at :
    {r : ChatRequest} (rs : List ChatRequest) (i : In r rs)
    → length rs ≡ 1 + length (remove_at rs i)
unfolding remove_at
length-remove_at [] i = elim i [ ]
length-remove_at (r ∷ rs) here = omega arith
length-remove_at (r ∷ rs) (there i) = ground (arith, length-remove_at rs i)

-- The requests of the list that the test accepts, counted.
unfoldable pub count : (ChatRequest → Bool) → List ChatRequest → ℕ
count test [] = 0
count test (r ∷ rs) = (if test r then 1 else 0) + count test rs

unfoldable pub count_waiting : (ChatRequest → Bool) → Option ChatRequest → ℕ
count_waiting test none = 0
count_waiting test (some r) = if test r then 1 else 0

module _ (test : ChatRequest → Bool) where
  count-remove_at :
      {r : ChatRequest} (rs : List ChatRequest) (i : In r rs)
      → count test rs ≡ (if test r then 1 else 0) + count test (remove_at rs i)
  unfolding remove_at count
  count-remove_at [] i = elim i [ ]
  count-remove_at (r ∷ rs) here = refl
  count-remove_at (r ∷ rs) (there i) = ground (arith, count-remove_at rs i)

module _ (decode : GoString → Option ChatRequest) (concurrency : ℕ) where
  record IsValid (w : Worker) : Type 0 where
    held : w.sem ≡ length w.running
    bounded : w.sem ≤ concurrency
    kept :
        (test : ChatRequest → Bool)
        → count test w.received
          ≡ count_waiting test w.waiting + count test w.running + count test w.processed

  new-IsValid : IsValid new_worker
  unfolding new_worker count count_waiting
  new-IsValid = record { held = refl; bounded = ground arith; kept = λ test. refl }

  fetch-IsValid :
      (value : GoString) (w : Worker)
      → w.waiting ≡ none
      → IsValid w
      → IsValid (fetch decode value w)
  unfolding fetch count count_waiting
  fetch-IsValid value w idle v = elim (Option-cases (decode value)) [
    | inl broken ↦ rw (broken, fetch) v
    | inr (req, read) ↦
        rw (read, fetch)
          (record {
            held = v.held;
            bounded = v.bounded;
            kept = λ test. ground (arith, v.kept test);
          })
  ]

  Step-IsValid : {w v : Worker} → Step decode concurrency w v → IsValid w → IsValid v
  unfolding count count_waiting
  Step-IsValid {w} (fetches value alive idle) v = fetch-IsValid value w idle v
  Step-IsValid {w} (spawns e l) v = record {
    held = ground (arith, v.held);
    bounded = ground arith;
    kept = λ test. ground (arith, v.kept test);
  }
  Step-IsValid {w} (finishes i) v = record {
    held = ground (arith, v.held, length-remove_at w.running i);
    bounded = ground (arith, v.bounded);
    kept = λ test. ground (arith, v.kept test, count-remove_at test w.running i);
  }
  Step-IsValid (stops idle) v = record { held = v.held; bounded = v.bounded; kept = v.kept }

  Reach-IsValid : {w : Worker} → Reach decode concurrency w → IsValid w
  Reach-IsValid start = new-IsValid
  Reach-IsValid (next r s) = Step-IsValid s (Reach-IsValid r)

  pub Reach-held : {w : Worker} → Reach decode concurrency w → w.sem ≡ length w.running
  Reach-held r = (Reach-IsValid r).held

  -- In every reachable state at most `concurrency` requests are processed at once.
  pub running_bound : {w : Worker} → Reach decode concurrency w → length w.running ≤ concurrency
  running_bound r = let v = Reach-IsValid r in ground (arith, v.held, v.bounded)

  -- In every reachable state each request of a fetched message waits, is being processed, or has
  -- been processed, and stands there as often as it was received: the counts agree for every test
  -- on requests.
  pub requests_kept :
      {w : Worker}
      → Reach decode concurrency w
      → (test : ChatRequest → Bool)
      → count test w.received
        ≡ count_waiting test w.waiting + count test w.running + count test w.processed
  requests_kept r = (Reach-IsValid r).kept
