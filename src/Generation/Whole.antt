-- ===== src/Generation/Whole.antt =====
-- The two goroutines together do what Execute does with a list of parts.
use golang_learning.Prelude.{
  ℕ, ◌+◌, leb, length, GoString, false, List, [], ◌∷◌, ◌++◌, append-nil, ◌⊎◌, inl, inr,
  append_assoc, ◌≡◌, refl, sym, ap, subst, ◌∙◌, arith,
}
use golang_learning.Domain.{ChatRequest, Result, ok, err}
use golang_learning.Publisher.{
  Kafka, Json, publish_token, part, finish, publish_parts, execute, and_then,
}
use golang_learning.MockLlm.{Runes, fields, send_from, generate}
use golang_learning.Generation.{
  Consumer, receiving, publishing, finishing, gave_up, returned, Generation, token_of, generating,
  after_part, after_end, Step, hands_over, stops, closes, publishes, range_ends, publishes_end,
  cancels, Reach, start, next,
}

-- The parts of the first words of a response.
abbrev parts : List Runes → List GoString
parts words = send_from (λ i. false) 0 words

send_from-push :
    (m : ℕ) (given : List Runes) (word : Runes)
    → send_from (λ i. false) m (given ++ word ∷ [])
      ≡ send_from (λ i. false) m given ++ token_of (m + length given) word ∷ []
unfolding send_from
send_from-push m [] word = ground arith
send_from-push m (x ∷ given) word = ground (arith, send_from-push (m + 1) given word)

parts-push :
    (given : List Runes) (word : Runes)
    → parts (given ++ word ∷ []) ≡ parts given ++ token_of (length given) word ∷ []
parts-push given word =
    send_from-push 0 given word ∙ ap (λ i. parts given ++ token_of i word ∷ []) (omega arith)

-- What is sent if the context is done from some word on.
send_from-until :
    (m : ℕ) (given left : List Runes)
    → send_from (λ i. leb (m + length given) i) m (given ++ left) ≡ send_from (λ i. false) m given
unfolding send_from
send_from-until m [] [] = refl
send_from-until m [] (x ∷ left) = ground arith
send_from-until m (x ∷ given) left = ground (arith, send_from-until (m + 1) given left)

module _ (kafka : Kafka) (json : Json) (req : ChatRequest) where
  open kafka use {World}

  abbrev publish_all : List GoString → World → World × Result (Unit {0})
  publish_all = publish_parts kafka json req

  -- What Execute does with a list of parts that begins with those that were given, from where it
  -- stands.
  module _ (first : World) (s : Generation World) where
    abbrev Stands : Consumer → Type 0
    Stands receiving =
        (later : List GoString)
        → publish_all (parts s.given ++ later) first ≡ publish_all later s.world
    Stands (publishing delta) =
        (later : List GoString)
        → publish_all (parts s.given ++ later) first ≡ publish_all (delta ∷ later) s.world
    Stands finishing =
        (later : List GoString)
        → publish_all (parts s.given ++ later) first ≡ publish_all later s.world
    Stands (gave_up result) =
        (later : List GoString) → publish_all (parts s.given ++ later) first ≡ (s.world, result)
    Stands (returned result) = publish_all (parts s.given) first ≡ (s.world, result)

  record IsValid (words : List Runes) (first : World) (s : Generation World) : Type 0 where
    pub split : s.given ++ s.left ≡ words
    pub stands : Stands first s s.consumer

  after_part-IsValid :
      {words : List Runes} {first : World} (s : Generation World)
      (published : World × Result (Unit {0}))
      → s.given ++ s.left ≡ words
      → ((later : List GoString)
          → publish_all (parts s.given ++ later) first
            ≡ and_then kafka json published (publish_all later))
      → IsValid words first (after_part kafka json req s published)
  after_part-IsValid s (w, ok _) split runs = record { split = split; stands = runs }
  after_part-IsValid s (w, err e) split runs = record { split = split; stands = runs }

  after_end-IsValid :
      {words : List Runes} {first : World} (s : Generation World)
      (published : World × Result (Unit {0}))
      → s.given ++ s.left ≡ words
      → publish_all (parts s.given) first ≡ published
      → IsValid words first (after_end kafka json req s published)
  after_end-IsValid s (w, result) split runs = record { split = split; stands = runs }

  -- What is known where Execute stands.
  here :
      (first : World) (s : Generation World) {c : Consumer}
      → s.consumer ≡ c
      → Stands first s s.consumer
      → Stands first s c
  here first s e h = subst (Stands first s) e h

  Step-IsValid :
      {words : List Runes} {first : World} {s t : Generation World}
      → Step kafka json req s t
      → IsValid words first s
      → IsValid words first t
  unfolding publish_parts
  Step-IsValid {first = first} {s = s} (hands_over {word} {words} unclosed more waits) v = record {
    split = append_assoc s.given (word ∷ []) words ∙ ap (λ l. s.given ++ l) (sym more) ∙ v.split;
    stands = λ later.
        ap (λ l. publish_all (l ++ later) first) (parts-push s.given word)
        ∙ ap (λ l. publish_all l first) (append_assoc (parts s.given) (_ ∷ []) later)
        ∙ here first s waits v.stands (_ ∷ later);
  }
  Step-IsValid (stops unclosed done) v = record { split = v.split; stands = v.stands }
  Step-IsValid (closes unclosed end) v = record { split = v.split; stands = v.stands }
  Step-IsValid {first = first} {s = s} (publishes {delta} waits) v =
      after_part-IsValid s (publish_token kafka json (part kafka json req delta) s.world) v.split
        (here first s waits v.stands)
  Step-IsValid {first = first} {s = s} (range_ends over waits) v = record {
    split = v.split;
    stands = here first s waits v.stands;
  }
  Step-IsValid {first = first} {s = s} (publishes_end waits) v =
      after_end-IsValid s (publish_token kafka json (finish kafka json req) s.world) v.split (
        ap (λ l. publish_all l first) (sym (append-nil (parts s.given)))
        ∙ here first s waits v.stands [])
  Step-IsValid cancels v = record { split = v.split; stands = v.stands }

  generating-IsValid :
      (response : Runes) (w : World) → IsValid (fields response) w (generating response w)
  unfolding generating send_from
  generating-IsValid response w = record { split = refl; stands = λ later. refl }

  Reach-IsValid :
      (response : Runes) (w : World) {s : Generation World}
      → Reach kafka json req (generating response w) s
      → IsValid (fields response) w s
  Reach-IsValid response w start = generating-IsValid response w
  Reach-IsValid response w (next r e) = Step-IsValid e (Reach-IsValid response w r)

  -- What the two goroutines have done when Execute returns, with success or with an error, from
  -- its loop or behind it, is what Execute does with the list of all that Generate sends, for some
  -- word from which on the context is done.
  pub generation_refines :
      (response : Runes) (w : World) {s : Generation World} {result : Result (Unit {0})}
      → Reach kafka json req (generating response w) s
      → (s.consumer ≡ gave_up result) ⊎ (s.consumer ≡ returned result)
      → (n : ℕ) × (execute kafka json req (ok (generate (λ i. leb n i) response)) w
          ≡ (s.world, result))
  unfolding execute generate
  generation_refines response w {s} {result} r ends =
      let v = Reach-IsValid response w r in
      let cut : send_from (λ i. leb (length s.given) i) 0 (fields response) ≡ parts s.given =
        ap (send_from (λ i. leb (length s.given) i) 0) (sym v.split)
        ∙ ap (λ n. send_from (λ i. leb n i) 0 (s.given ++ s.left)) (omega arith)
        ∙ send_from-until 0 s.given s.left in
      (
        length s.given,
        ap (λ l. publish_all l w) cut ∙ elim ends [
          | inl left_loop ↦
              ap (λ l. publish_all l w) (sym (append-nil (parts s.given)))
              ∙ here w s left_loop v.stands []
          | inr behind_loop ↦ here w s behind_loop v.stands
        ],
      )
