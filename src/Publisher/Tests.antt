-- ===== src/Publisher/Tests.antt =====
-- Publishing into the Kafka in memory.
use golang_learning.Prelude.{
  if◌then◌else◌, ltb, length, ap, arith, GoString, List, [], ◌∷◌, ◌++◌, ◌≡◌, refl,
}
use golang_learning.Domain.{ChatRequest, Error, failure, Result, ok, err}
use golang_learning.Publisher.{
  KafkaMessage, Kafka, topic_stream_fe, topic_persist_llm, publish_token, publish_parts, execute,
}
use golang_learning.Publisher.Memory.{
  kafka, json, on_topic, on_topic-append_own, on_topic-append_other,
}
use golang_learning.Publisher.Failure.{StopsAt, execute-StopsAt}
use golang_learning.Publisher.Log.{KafkaLaws}
use golang_learning.Publisher.Process.{events}

abbrev request : ChatRequest
request = record { request_id = 1 ∷ []; session_id = 2 ∷ []; content = 3 ∷ []; timestamp = 0 }

abbrev answer : List GoString
answer = (4 ∷ []) ∷ (5 ∷ []) ∷ []

processed : List KafkaMessage
unfolding execute publish_parts publish_token topic_stream_fe topic_persist_llm
processed = (execute kafka json request (ok answer) []).0

-- A broker whose disk is full after three messages.
abbrev store_message : KafkaMessage → List KafkaMessage → List KafkaMessage × Result (Unit {0})
store_message m w = if ltb (length w) 3 then (w ++ m ∷ [], ok tt) else (w, err (failure []))

abbrev small : Kafka
small = record {
  World = List KafkaMessage;
  write_messages = λ out m w. store_message m w;
  close = λ out w. (w, ok tt);
}

stored :
    (m : KafkaMessage) (w w' : List KafkaMessage)
    → store_message m w ≡ (w', ok tt)
    → w ++ m ∷ [] ≡ w'
stored m w w' e = ground arith

not_stored :
    (m : KafkaMessage) (w w' : List KafkaMessage) (x : Error)
    → store_message m w ≡ (w', err x)
    → w' ≡ w
not_stored m w w' x e = ground arith

small_laws : KafkaLaws small
small_laws = record {
  log = on_topic;
  write_own = λ out m w w' e. rw (stored m w w' e) at (on_topic-append_own m w);
  write_other =
      λ out m w w' topic e ne. rw (stored m w w' e) at (on_topic-append_other topic m w ne);
  write_fails = λ out m w w' x e topic. ap (on_topic topic) (not_stored m w w' x e);
}

abbrev cut_off : List KafkaMessage
cut_off = (execute small json request (ok answer) []).0

execute-StopsAt_example :
    StopsAt small_laws json
      (λ t. t.delta)
      (λ t. refl)
      (events small_laws json (λ t. t.delta) (λ t. refl) request answer)
      []
      cut_off
unfolding execute publish_parts publish_token topic_stream_fe topic_persist_llm
execute-StopsAt_example =
    execute-StopsAt small_laws json (λ t. t.delta) (λ t. refl) request answer [] cut_off
      (failure []) refl
