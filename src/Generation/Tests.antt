-- ===== src/Generation/Tests.antt =====
-- A response of two words: its generation to the end, and one whose first publication fails.
use golang_learning.Prelude.{◌<◌, false, ℕ, leb, List, [], ◌∷◌, ◌≡◌, inr, refl}
use golang_learning.Domain.{ChatRequest, failure, ok, err}
use golang_learning.Publisher.{
  KafkaMessage, Kafka, publish_token, execute, topic_stream_fe, topic_persist_llm,
}
use golang_learning.Publisher.Memory.{kafka, json}
use golang_learning.MockLlm.{Runes, fields, fields_from, is_space, generate}
use golang_learning.Generation.{
  publishing, returned, Generation, generating, Step, hands_over, closes, publishes, range_ends,
  publishes_end, Reach, start, next,
}
use golang_learning.Generation.Whole.{generation_refines}
use golang_learning.Generation.Leak.{work, has_returned, is_cancel, execute_returns}

abbrev request : ChatRequest
request = record { request_id = 1 ∷ []; session_id = 2 ∷ []; content = 3 ∷ []; timestamp = 0 }

-- "a b"
abbrev response : Runes
response = 97 ∷ 32 ∷ 98 ∷ []

abbrev begun : Generation (List KafkaMessage)
begun = generating response []

abbrev given_one : Generation (List KafkaMessage)
given_one = record begun {
  given = (97 ∷ []) ∷ [];
  left = (98 ∷ []) ∷ [];
  consumer = publishing (97 ∷ []);
}

given_one-Reach : Reach kafka json request begun given_one
unfolding generating fields fields_from is_space
given_one-Reach = next start (hands_over refl refl refl)

execute_returns_example :
    ((t : Generation (List KafkaMessage)) (e : Step kafka json request given_one t)
      → is_cancel kafka json request e ≡ false
      → work t < work given_one)
    × (has_returned given_one.consumer ≡ false
        → (t : Generation (List KafkaMessage)) × (e : Step kafka json request given_one t)
          × (is_cancel kafka json request e ≡ false))
execute_returns_example = execute_returns kafka json request given_one

run :
    (s : Generation (List KafkaMessage)) × Reach kafka json request begun s
    × (s.consumer ≡ returned (ok tt))
unfolding generating fields fields_from is_space publish_token topic_stream_fe topic_persist_llm
run =
    let first = next given_one-Reach (publishes refl) in
    let second = next (next first (hands_over refl refl refl)) (publishes refl) in
    let closed = next (next second (closes refl refl)) (range_ends refl refl) in
    (_, next closed (publishes_end refl), refl)

generation_refines_example :
    (n : ℕ) × (execute kafka json request (ok (generate (λ i. leb n i) response)) []
      ≡ (run.0.world, ok tt))
generation_refines_example = generation_refines kafka json request response [] run.1 (inr run.2)

-- A Kafka that refuses every message.
abbrev refusing : Kafka
refusing = record {
  World = Unit {0};
  write_messages = λ out m w. (w, err (failure []));
  close = λ out w. (w, ok tt);
}

abbrev refused : Generation (Unit {0})
refused = record {
  given = (97 ∷ []) ∷ [];
  left = (98 ∷ []) ∷ [];
  closed = false;
  cancelled = false;
  consumer = publishing (97 ∷ []);
  world = tt;
}
