-- ===== src/Generation/Leak.antt =====
-- That Execute returns, and what becomes of the goroutine of Generate when it does.
use golang_learning.Prelude.{
  ℕ, ◌+◌, ◌*◌, ◌<◌, length, Bool, true, false, List, [], ◌∷◌, ◌≡◌, ◌⊎◌, inl, inr, refl, arith,
  Bool-cases, GoString, if◌then◌else◌,
}
use golang_learning.Domain.{ChatRequest, Error, Result, ok, err}
use golang_learning.Publisher.{Kafka, Json, publish_token, part}
use golang_learning.MockLlm.{Runes}
use golang_learning.Generation.{
  Consumer, receiving, publishing, finishing, gave_up, returned, Generation, after_part, Step,
  hands_over, stops, closes, publishes, range_ends, publishes_end, cancels,
}

abbrev rank : Consumer → ℕ
rank receiving = 2
rank (publishing delta) = 3
rank finishing = 1
rank (gave_up result) = 0
rank (returned result) = 0

abbrev pub has_returned : Consumer → Bool
has_returned receiving = false
has_returned (publishing delta) = false
has_returned finishing = false
has_returned (gave_up result) = true
has_returned (returned result) = true

-- The steps that can still be taken.
unfoldable pub work : {World : Type 0} → Generation World → ℕ
work s = 2 * length s.left + (if s.closed then 0 else 1) + rank s.consumer

List-cases : {A : Type 0} (xs : List A) → (xs ≡ []) ⊎ ((x : A) × (rest : List A) × (xs ≡ x ∷ rest))
List-cases [] = inl refl
List-cases (x ∷ rest) = inr (x, rest, refl)

module _ (kafka : Kafka) (json : Json) (req : ChatRequest) where
  open kafka use {World}

  abbrev pub is_cancel : {s t : Generation World} → Step kafka json req s t → Bool
  is_cancel (hands_over unclosed more waits) = false
  is_cancel (stops unclosed done) = false
  is_cancel (closes unclosed end) = false
  is_cancel (publishes waits) = false
  is_cancel (range_ends over waits) = false
  is_cancel (publishes_end waits) = false
  is_cancel cancels = true

  work-after_part :
      {delta : GoString} (s : Generation World) (published : World × Result (Unit {0}))
      → s.consumer ≡ publishing delta
      → work (after_part kafka json req s published) < work s
  unfolding work
  work-after_part s (w, ok _) waits = ground arith
  work-after_part s (w, err e) waits = ground arith

  Step-work :
      {s t : Generation World} (e : Step kafka json req s t) → is_cancel e ≡ false → work t < work s
  unfolding work
  Step-work {s} (hands_over unclosed more waits) f = ground (arith, more)
  Step-work (stops unclosed done) f = ground arith
  Step-work (closes unclosed end) f = ground arith
  Step-work {s} (publishes {delta} waits) f =
      work-after_part s (publish_token kafka json (part kafka json req delta) s.world) waits
  Step-work (range_ends over waits) f = ground arith
  Step-work (publishes_end waits) f = ground arith
  Step-work cancels f = absurd (ground arith)

  -- As long as Execute has not returned there is a step that is not the cancellation.
  goes_on :
      (s : Generation World)
      → has_returned s.consumer ≡ false
      → (t : Generation World) × (e : Step kafka json req s t) × (is_cancel e ≡ false)
  goes_on s runs = from s.consumer refl
    where
      from :
          (c : Consumer)
          → s.consumer ≡ c
          → (t : Generation World) × (e : Step kafka json req s t) × (is_cancel e ≡ false)
      from receiving at_receive = elim (Bool-cases s.closed) [
        | inl over ↦ (_, range_ends over at_receive, refl)
        | inr unclosed ↦ elim (List-cases s.left) [
          | inl end ↦ (_, closes unclosed end, refl)
          | inr (word, words, more) ↦ (_, hands_over unclosed more at_receive, refl)
        ]
      ]
      from (publishing delta) at_part = (_, publishes at_part, refl)
      from finishing at_end = (_, publishes_end at_end, refl)
      from (gave_up result) ended = absurd (ground arith)
      from (returned result) ended = absurd (ground arith)

  -- Execute returns: each step but the cancellation of the context makes `work` smaller, and as long
  -- as Execute has not returned there is such a step. Nothing is said of the goroutine of Generate
  -- after that.
  pub execute_returns :
      (s : Generation World)
      → ((t : Generation World) (e : Step kafka json req s t)
          → is_cancel e ≡ false
          → work t < work s)
        × (has_returned s.consumer ≡ false
            → (t : Generation World) × (e : Step kafka json req s t) × (is_cancel e ≡ false))
  execute_returns s = (λ t e f. Step-work e f, goes_on s)

  -- Execute has returned, and until the context is cancelled the goroutine is not at its end.
  record IsLeft (word : Runes) (words : List Runes) (s : Generation World) : Type 0 where
    pub ended : (e : Error) × (s.consumer ≡ gave_up (err e))
    pub waits : s.cancelled ≡ false → (s.closed ≡ false) × (s.left ≡ word ∷ words)
