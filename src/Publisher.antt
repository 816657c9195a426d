-- ===== src/Publisher.antt =====
-- internal/adapter/gateway/broker/publisher.go and internal/usecase/process_chat_request.go: the
-- worker's side, from a chat request to the two topics that its tokens go to. Kafka is the
-- parameter `Kafka`, encoding/json the parameter `Json`.
pub mod Log
pub mod Process
pub mod Failure
pub mod Memory
mod Tests
use golang_learning.Prelude.{ℕ, GoString, bytes, Bool, true, false, List, [], ◌∷◌}
use golang_learning.Domain.{ChatRequest, ChatCompleted, TokenEvent, Error, Result, ok, err}

unfoldable pub topic_requests : GoString
unfolding bytes
topic_requests = bytes "chat.requests"

unfoldable pub topic_completed : GoString
unfolding bytes
topic_completed = bytes "chat.completed"

unfoldable pub topic_stream_fe : GoString
unfolding bytes
topic_stream_fe = bytes "stream-llm-fe"

unfoldable pub topic_persist_llm : GoString
unfolding bytes
topic_persist_llm = bytes "persistence-llm"

-- kafka.Message
pub record KafkaMessage : Type 0 where
  pub topic : GoString
  pub key : GoString
  pub value : GoString

-- The publisher's three writers.
pub data Writer : Type 0 where
  writer stream_writer persist_writer : Writer

pub record Kafka : Type 1 where
  pub World : Type 0
  pub write_messages : Writer → KafkaMessage → World → World × Result (Unit {0})
  pub close : Writer → World → World × Result (Unit {0})

-- json.Marshal at the types that are published.
pub record Json : Type 0 where
  pub marshal_request : ChatRequest → Result GoString
  pub marshal_completed : ChatCompleted → Result GoString
  pub marshal_token : TokenEvent → Result GoString

module _ (kafka : Kafka) (json : Json) where
  open kafka use {World, write_messages, close}

  abbrev pub write_value :
      Writer → GoString → GoString → Result GoString → World → World × Result (Unit {0})
  write_value out topic key (err e) w = (w, err e)
  write_value out topic key (ok value) w =
      write_messages out (record { topic = topic; key = key; value = value }) w

  unfoldable pub publish_request : ChatRequest → World → World × Result (Unit {0})
  publish_request req = write_value writer topic_requests req.session_id (json.marshal_request req)

  unfoldable pub publish_completed : ChatCompleted → World → World × Result (Unit {0})
  publish_completed completed =
      write_value writer topic_completed completed.session_id (json.marshal_completed completed)

  -- The message that a token makes on a topic.
  abbrev pub token_message : GoString → TokenEvent → GoString → KafkaMessage
  token_message topic token value = record { topic = topic; key = token.session_id; value = value }

  -- `if err := …; err != nil { return err }`, then the rest.
  abbrev pub and_then :
      World × Result (Unit {0}) → (World → World × Result (Unit {0})) → World × Result (Unit {0})
  and_then (w, ok _) f = f w
  and_then (w, err e) f = (w, err e)

  abbrev write_both : TokenEvent → Result GoString → World → World × Result (Unit {0})
  write_both token (err e) w = (w, err e)
  write_both token (ok value) w =
      and_then (write_messages stream_writer (token_message topic_stream_fe token value) w)
        (write_messages persist_writer (token_message topic_persist_llm token value))

  unfoldable pub publish_token : TokenEvent → World → World × Result (Unit {0})
  publish_token token = write_both token (json.marshal_token token)

  -- Close: the errors of the first two are dropped.
  unfoldable pub close_all : World → World × Result (Unit {0})
  close_all w =
      let (w₁, _) = close stream_writer w in
      let (w₂, _) = close persist_writer w₁ in close writer w₂

  -- The token event of a part of the answer, and the last one.
  abbrev pub part : ChatRequest → GoString → TokenEvent
  part req delta = record {
    request_id = req.request_id;
    session_id = req.session_id;
    user_message = req.content;
    delta = delta;
    done = false;
  }

  abbrev pub finish : ChatRequest → TokenEvent
  finish req = record (part req []) { done = true }

  -- The loop of ProcessChatRequestUseCase.Execute over what the channel yields, and what follows.
  unfoldable pub publish_parts : ChatRequest → List GoString → World → World × Result (Unit {0})
  publish_parts req [] w = publish_token (finish req) w
  publish_parts req (delta ∷ deltas) w =
      and_then (publish_token (part req delta) w) (publish_parts req deltas)

  -- Execute, over what Generate returns.
  unfoldable pub execute : ChatRequest → Result (List GoString) → World → World × Result (Unit {0})
  unfolding publish_parts
  execute req (err e) w = (w, err e)
  execute req (ok deltas) w = publish_parts req deltas w
