-- ===== src/MockLlm/Parts.antt =====
-- The parts of a response spell it.
use golang_learning.Prelude.{
  ℕ, ◌+◌, ◌<◌, ◌≤◌, utf8, Bool, true, false, ◌&&◌, nat_eq, List, [], ◌∷◌, ◌++◌, append_assoc,
  append-nil, concat, length, All, All-In, All-intro, if◌then◌else◌, ◌≡◌, refl, sym, ap, ◌∙◌, arith,
  Bool-cases, inl, inr,
}
use golang_learning.Config.Split.{joined}
use golang_learning.Hub.{channel_capacity}
use golang_learning.MockLlm.{
  Runes, responses, is_space, end_field, fields_from, fields, text, send_from, generate,
}

-- One space between words, and none before the first or behind the last; `open_word` says that a
-- word has begun.
unfoldable pub is_spaced : Bool → Runes → Bool
is_spaced open_word [] = open_word
is_spaced open_word (r ∷ s) =
    let ended = open_word && nat_eq r 0x20 && is_spaced false s in
    let longer = is_spaced true s in if is_space r then ended else longer

text-append : (a b : Runes) → text (a ++ b) ≡ text a ++ text b
text-append [] b = refl
text-append (r ∷ a) b = rw (text-append a b) (sym (append_assoc (utf8 r) (text a) (text b)))

module _ (cancelled : ℕ → Bool) (never : (i : ℕ) → cancelled i ≡ false) where
  send_from-cons :
      (i : ℕ) (word : Runes) (words : List Runes)
      → 0 < i
      → send_from cancelled i (word ∷ words)
        ≡ text (0x20 ∷ word) ∷ send_from cancelled (i + 1) words
  unfolding send_from
  send_from-cons i word words l =
      let later : nat_eq i 0 ≡ false = ground arith in rw (never i, later, send_from) refl

  -- Every word but the first has a space before it.
  send_from-later :
      (i : ℕ) (word : Runes) (words : List Runes)
      → 0 < i
      → concat (send_from cancelled i (word ∷ words)) ≡ text (0x20 ∷ joined 0x20 (word ∷ words))
  unfolding joined send_from
  send_from-later i word [] l = rw (send_from-cons i word [] l) (append-nil (text (0x20 ∷ word)))
  send_from-later i word (next ∷ words) l =
      rw (send_from-cons i word (next ∷ words) l, send_from-later (i + 1) next words (omega arith))
        (sym (text-append (0x20 ∷ word) (0x20 ∷ joined 0x20 (next ∷ words))))

  concat-send_from :
      (words : List Runes) → concat (send_from cancelled 0 words) ≡ text (joined 0x20 words)
  unfolding joined send_from
  concat-send_from [] = refl
  concat-send_from (word ∷ []) = rw (never 0) (append-nil (text word))
  concat-send_from (word ∷ next ∷ words) = rw (never 0) (
      ap (◌++◌ (text word)) (send_from-later 1 next words (omega arith))
      ∙ sym (text-append word (0x20 ∷ joined 0x20 (next ∷ words))))

abbrev is_open : Runes → Bool
is_open [] = false
is_open (r ∷ word) = true

is_open-push : (word : Runes) (r : ℕ) → is_open (word ++ r ∷ []) ≡ true
is_open-push [] r = refl
is_open-push (x ∷ word) r = refl

end_field-open :
    (word : Runes) (later : List Runes) → is_open word ≡ true → end_field word later ≡ word ∷ later
end_field-open [] later o = cc
end_field-open (r ∷ word) later o = refl

-- There is a field left where a word has begun or one space separates from the next.
fields_from-cons :
    (word s : Runes)
    → is_spaced (is_open word) s ≡ true
    → (w : Runes) × (ws : List Runes) × (fields_from word s ≡ w ∷ ws)
unfolding fields_from is_spaced
fields_from-cons word [] h = (word, [], end_field-open word [] h)
fields_from-cons word (r ∷ s) h = elim (Bool-cases (is_space r)) [
  | inl space ↦
      let h' = rw (space, is_spaced) at h in
      let o : is_open word ≡ true = ground arith in
      (word, fields_from [] s, rw (space, fields_from) (end_field-open word (fields_from [] s) o))
  | inr letter ↦
      let h' = rw (letter, is_spaced) at h in
      let (w, ws, e) = fields_from-cons (word ++ r ∷ []) s (rw (is_open-push word r) h') in
      (w, ws, rw (letter, fields_from) e)
]

joined-fields_from :
    (word s : Runes)
    → is_spaced (is_open word) s ≡ true
    → joined 0x20 (fields_from word s) ≡ word ++ s
unfolding fields_from is_spaced joined
joined-fields_from word [] h = rw (end_field-open word [] h) (sym (append-nil word))
joined-fields_from word (r ∷ s) h = elim (Bool-cases (is_space r)) [
  | inl space ↦
      let h' = rw (space, is_spaced) at h in
      let o : is_open word ≡ true = ground arith in
      let blank : r ≡ 0x20 = ground arith in
      let rest : is_spaced false s ≡ true = ground arith in
      let (w, ws, e) = fields_from-cons [] s rest in
      rw (space, fields_from, end_field-open word (fields_from [] s) o, e, joined)
        (ap (λ l. word ++ 0x20 ∷ l) (rw e at (joined-fields_from [] s rest)) ∙ rw blank refl)
  | inr letter ↦
      let h' = rw (letter, is_spaced) at h in
      rw (letter, fields_from)
        (joined-fields_from (word ++ r ∷ []) s (rw (is_open-push word r) h')
          ∙ append_assoc word (r ∷ []) s)
]

-- A response with single spaces is spelled by its parts.
generate-spaced :
    (cancelled : ℕ → Bool)
    → ((i : ℕ) → cancelled i ≡ false)
    → (response : Runes) → is_spaced false response ≡ true
    → concat (generate cancelled response) ≡ text response
unfolding generate
generate-spaced cancelled never response h =
    concat-send_from cancelled never (fields response)
    ∙ ap text (unfold fields in joined-fields_from [] response h)

length-send_from :
    (cancelled : ℕ → Bool) (i : ℕ) (words : List Runes)
    → length (send_from cancelled i words) ≤ length words
unfolding send_from
length-send_from cancelled i [] = omega arith
length-send_from cancelled i (word ∷ words) =
    ground (arith, length-send_from cancelled (i + 1) words)

abbrev Fits : Runes → Type 0
Fits response = (is_spaced false response ≡ true) × (length (fields response) < channel_capacity)

responses-Fits : All Fits responses
unfolding is_spaced is_space fields
responses-Fits = (
  (refl, omega arith),
  ((refl, omega arith), ((refl, omega arith), ((refl, omega arith), ((refl, omega arith), tt)))),
)

fits :
    (cancelled : ℕ → Bool) (response : Runes)
    → length (fields response) < channel_capacity
    → length (generate cancelled response) < channel_capacity
unfolding generate
fits cancelled response l = omega (arith, length-send_from cancelled 0 (fields response))

-- Whichever response is picked, its parts fit in the channel of a request together with the end of
-- the answer; and if the context is not cancelled, they spell the response, byte for byte.
pub generate_lem :
    (cancelled : ℕ → Bool)
    → All
        (λ response.
          (length (generate cancelled response) < channel_capacity)
          × (((i : ℕ) → cancelled i ≡ false)
              → concat (generate cancelled response) ≡ text response))
        responses
generate_lem cancelled =
    All-intro
      (λ response.
        (length (generate cancelled response) < channel_capacity)
        × (((i : ℕ) → cancelled i ≡ false) → concat (generate cancelled response) ≡ text response))
      responses
      (λ response i.
        let (spaced, short) = All-In Fits responses responses-Fits i in
        (fits cancelled response short, λ never. generate-spaced cancelled never response spaced))
