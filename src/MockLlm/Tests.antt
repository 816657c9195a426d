-- ===== src/MockLlm/Tests.antt =====
-- The mock with no cancellation, and with one after the second word.
use golang_learning.Prelude.{
  ℕ, ◌<◌, bytes, runes, ◌==◌, false, leb, [], ◌∷◌, concat, length, All, ◌≡◌, refl,
}
use golang_learning.Domain.{ok}
use golang_learning.Hub.{channel_capacity}
use golang_learning.MockLlm.{responses, fields, is_space, text, generate, mock, new_token_generator}
use golang_learning.MockLlm.Parts.{generate_lem}

splits_at_spaces : fields (runes " a\tbc  d") ≡ runes "a" ∷ runes "bc" ∷ runes "d" ∷ []
unfolding fields is_space
splits_at_spaces = refl

stops_when_cancelled :
    generate (λ i. leb 2 i) (runes "one two three") ≡ bytes "one" ∷ bytes " two" ∷ []
unfolding generate bytes
stops_when_cancelled = refl

mock_is_default : new_token_generator [] ≡ ok mock
unfolding new_token_generator ◌==◌
mock_is_default = refl

generate_lem_example :
    All
      (λ response.
        (length (generate (λ i. false) response) < channel_capacity)
        × (((i : ℕ) → false ≡ false) → concat (generate (λ i. false) response) ≡ text response))
      responses
generate_lem_example = generate_lem (λ i. false)
