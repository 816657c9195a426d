-- ===== src/Answer.antt =====
-- The ways of an answer through the program, from Kafka on: what the consumer loops of
-- internal/adapter/controller/consumer/streaming_worker.go and persistence.go make of the messages
-- that they fetch. The JSON decoders are parameters.
pub mod Streamed
pub mod Stored
pub mod Lossy
pub mod Mock
pub mod Memory
mod Tests
use golang_learning.Prelude.{GoString, List, [], ◌∷◌, Option, none, some}
use golang_learning.Domain.{TokenEvent}
use golang_learning.Publisher.{KafkaMessage}
use golang_learning.StreamingWorker.{StreamToken}

abbrev pub push {ℓ} : {A : Type ℓ} → Option A → List A → List A
push none ts = ts
push (some t) ts = t ∷ ts

-- The tokens that StreamingWorker.Run routes: a message that does not unmarshal is skipped.
unfoldable pub stream_tokens :
    (GoString → Option StreamToken) → List KafkaMessage → List StreamToken
stream_tokens decode [] = []
stream_tokens decode (m ∷ ms) = push (decode m.value) (stream_tokens decode ms)

-- What processRequest hands to Execute for a token.
unfoldable pub to_event : StreamToken → TokenEvent
to_event t = record {
  request_id = t.request_id;
  session_id = [];
  user_message = [];
  delta = t.delta;
  done = t.done;
}

-- The tokens that PersistenceWorker.Run adds.
unfoldable pub token_events : (GoString → Option TokenEvent) → List KafkaMessage → List TokenEvent
token_events decode [] = []
token_events decode (m ∷ ms) = push (decode m.value) (token_events decode ms)
