-- ===== src/Publisher/Memory.antt =====
-- A Kafka in memory that keeps all that has been written, in order.
use golang_learning.Prelude.{
  GoString, ◌==◌, eq_iff, List, [], ◌∷◌, ◌++◌, if◌then◌else◌, ◌≡◌, ◌≢◌, arith, eq_refl, ap,
}
use golang_learning.Domain.{Result, ok}
use golang_learning.Publisher.{KafkaMessage, Kafka, Json}
use golang_learning.Publisher.Log.{KafkaLaws}

-- The messages on a topic.
abbrev pub on_topic : GoString → List KafkaMessage → List KafkaMessage
on_topic topic [] = []
on_topic topic (m ∷ ms) = if m.topic == topic then m ∷ on_topic topic ms else on_topic topic ms

abbrev pub kafka : Kafka
kafka = record {
  World = List KafkaMessage;
  write_messages = λ out m w. (w ++ m ∷ [], ok tt);
  close = λ out w. (w, ok tt);
}

abbrev pub json : Json
json = record {
  marshal_request = λ req. ok req.content;
  marshal_completed = λ completed. ok [];
  marshal_token = λ t. ok t.delta;
}

pub on_topic-append_own :
    (m : KafkaMessage) (w : List KafkaMessage)
    → on_topic m.topic (w ++ m ∷ []) ≡ on_topic m.topic w ++ m ∷ []
on_topic-append_own m [] = ground (arith, eq_refl m.topic)
on_topic-append_own m (x ∷ w) = ground (arith, on_topic-append_own m w)

pub on_topic-append_other :
    (topic : GoString) (m : KafkaMessage) (w : List KafkaMessage)
    → m.topic ≢ topic
    → on_topic topic (w ++ m ∷ []) ≡ on_topic topic w
on_topic-append_other topic m [] ne = ground (arith, eq_iff m.topic topic)
on_topic-append_other topic m (x ∷ w) ne = ground (arith, on_topic-append_other topic m w)

written :
    (m : KafkaMessage) (w w' : List KafkaMessage)
    → ◌≡◌ {A = List KafkaMessage × Result (Unit {0})} (w ++ m ∷ [], ok tt) (w', ok tt)
    → w ++ m ∷ [] ≡ w'
written m w w' e = ap (λ (p : List KafkaMessage × Result (Unit {0})). p.0) e

pub laws : KafkaLaws kafka
laws = record {
  log = on_topic;
  write_own = λ out m w w' e. rw (written m w w' e) at (on_topic-append_own m w);
  write_other =
      λ out m w w' topic e ne. rw (written m w w' e) at (on_topic-append_other topic m w ne);
  write_fails = λ out m w w' x e. absurd (ground arith);
}

pub log-laws : (topic : GoString) (w : List KafkaMessage) → laws.log topic w ≡ on_topic topic w
unfolding laws
log-laws topic w = λ i. on_topic topic w
