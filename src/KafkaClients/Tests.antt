-- ===== src/KafkaClients/Tests.antt =====
-- A token that is published into the Kafka in memory, and who finds it.
use golang_learning.Prelude.{GoString, false, List, [], ◌∷◌, ◌≡◌, refl}
use golang_learning.Domain.{TokenEvent, ok}
use golang_learning.Config.{Config, load}
use golang_learning.Publisher.{KafkaMessage, publish_token, topic_stream_fe, topic_persist_llm}
use golang_learning.Publisher.Memory.{kafka, json, laws}
use golang_learning.KafkaClients.Topics.{token, marshal, Worker, Finds, topics_meet}

abbrev event : TokenEvent
event = record {
  request_id = 1 ∷ [];
  session_id = 2 ∷ [];
  user_message = 3 ∷ [];
  delta = 4 ∷ [];
  done = false;
}

abbrev cfg : Config
cfg = load (λ name. [])

published : List KafkaMessage
unfolding publish_token topic_stream_fe topic_persist_llm
published = (publish_token kafka json event []).0

topics_meet_example :
    (value : GoString) × (marshal kafka json (token event) ≡ ok value)
    × ((r : Worker) → Finds laws json 8 cfg (token event) value [] published r)
unfolding publish_token published
topics_meet_example = topics_meet laws json 8 cfg (token event) [] published refl
