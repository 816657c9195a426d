-- ===== src/Publisher/Failure.antt =====
-- What processing a chat request leaves in the topics when it fails.
use golang_learning.Prelude.{
  GoString, List, [], ◌∷◌, ◌++◌, map, append_assoc, append-nil, ◌≡◌, ◌⊎◌, inl, inr, refl, sym, ap,
  ◌∙◌, arith,
}
use golang_learning.Domain.{ChatRequest, TokenEvent, Error, Result, ok, err, Result-cases}
use golang_learning.Publisher.{
  KafkaMessage, Kafka, Json, topic_stream_fe, topic_persist_llm, publish_token, part, finish,
  publish_parts, execute,
}
use golang_learning.Publisher.Log.{KafkaLaws, publish_token_cases}
use golang_learning.Publisher.Process.{events, on, published}

module _ {kafka : Kafka} (laws : KafkaLaws kafka) (json : Json) (value : TokenEvent → GoString)
    (marshals : (t : TokenEvent) → json.marshal_token t ≡ ok (value t)) where
  open laws use {log}

  -- The messages of events on a topic.
  abbrev added : GoString → List TokenEvent → List KafkaMessage
  added topic ts = map (on laws json value marshals topic) ts

  -- The events that stand in both topics, the one that failed, and those that were not tried; the
  -- one that failed may stand in the topic of the stream.
  pub record StopsAt (all : List TokenEvent) (w w' : kafka.World) : Type 0 where
    pub written : List TokenEvent
    pub failed : TokenEvent
    pub untried : List TokenEvent
    pub are : all ≡ written ++ failed ∷ untried
    pub persisted :
        log topic_persist_llm w' ≡ log topic_persist_llm w ++ added topic_persist_llm written
    pub streamed :
        (log topic_stream_fe w' ≡ log topic_stream_fe w ++ added topic_stream_fe written)
        ⊎ (log topic_stream_fe w'
            ≡ log topic_stream_fe w ++ added topic_stream_fe (written ++ failed ∷ []))

  publish_token-StopsAt :
      (t : TokenEvent) (rest : List TokenEvent) (w w' : kafka.World) (e : Error)
      → publish_token kafka json t w ≡ (w', err e)
      → StopsAt (t ∷ rest) w w'
  publish_token-StopsAt t rest w w' e run =
      elim (publish_token_cases laws json t w w' (err e) run) [
        | inl (v, wrong, _, _, _) ↦ absurd (ground arith)
        | inr (x, sent, _, what, stream, persist) ↦ record {
          written = [];
          failed = t;
          untried = rest;
          are = refl;
          persisted = persist ∙ sym (append-nil (log topic_persist_llm w));
          streamed = elim what [
            | inl nothing ↦ inl (rw nothing at stream)
            | inr (v, m, one) ↦
                let same : v ≡ value t = ground (arith, marshals t) in
                inr (stream ∙ ap (λ l. log topic_stream_fe w ++ l) (rw (one, same) refl))
          ];
        }
      ]

  -- A topic that has taken one event and then others has taken them all.
  grown :
      (topic : GoString) (t : TokenEvent) (ts : List TokenEvent) (l₀ : List KafkaMessage)
      {l₁ l₂ : List KafkaMessage}
      → l₁ ≡ l₀ ++ on laws json value marshals topic t ∷ []
      → l₂ ≡ l₁ ++ added topic ts
      → l₂ ≡ l₀ ++ added topic (t ∷ ts)
  grown topic t ts l₀ one more =
      more
      ∙ ap (λ l. l ++ added topic ts) one
      ∙ append_assoc l₀ (on laws json value marshals topic t ∷ []) (added topic ts)

  StopsAt-cons :
      (t : TokenEvent) (rest : List TokenEvent) (w w₁ w' : kafka.World)
      → publish_token kafka json t w ≡ (w₁, ok tt)
      → StopsAt rest w₁ w'
      → StopsAt (t ∷ rest) w w'
  StopsAt-cons t rest w w₁ w' first stop =
      let at_stream = published laws json value marshals t w w₁ first topic_stream_fe (inl refl) in
      let at_persist =
        published laws json value marshals t w w₁ first topic_persist_llm (inr refl) in
      record {
        written = t ∷ stop.written;
        failed = stop.failed;
        untried = stop.untried;
        are = ap (◌∷◌ t) stop.are;
        persisted =
            grown topic_persist_llm t stop.written (log topic_persist_llm w) at_persist
              stop.persisted;
        streamed = elim stop.streamed [
          | inl before ↦
              inl (grown topic_stream_fe t stop.written (log topic_stream_fe w) at_stream before)
          | inr after ↦ inr (
              grown topic_stream_fe t (stop.written ++ stop.failed ∷ []) (log topic_stream_fe w)
                at_stream after)
        ];
      }

  publish_parts-StopsAt :
      (req : ChatRequest) (deltas : List GoString) (w w' : kafka.World) (e : Error)
      → publish_parts kafka json req deltas w ≡ (w', err e)
      → StopsAt (events laws json value marshals req deltas) w w'
  unfolding publish_parts
  publish_parts-StopsAt req [] w w' e run =
      publish_token-StopsAt (finish kafka json req) [] w w' e run
  publish_parts-StopsAt req (delta ∷ deltas) w w' e run =
      let t = part kafka json req delta in
      let rest = events laws json value marshals req deltas in
      let first = publish_token kafka json t w in
      elim (Result-cases first.1) [
        | inl (_, fine) ↦
            let ends : first ≡ (first.0, ok tt) =
              ap (λ (r : Result (Unit {0})). (first.0, r)) fine in
            StopsAt-cons t rest w first.0 w' ends
              (publish_parts-StopsAt req deltas first.0 w' e (rw ends at run))
        | inr (x, wrong) ↦
            let ends : first ≡ (first.0, err x) =
              ap (λ (r : Result (Unit {0})). (first.0, r)) wrong in
            let stays : ◌≡◌ {A = kafka.World × Result (Unit {0})} (first.0, err x) (w', err e) =
              rw ends at run in
            publish_token-StopsAt t rest w w' x
              (ends ∙ ap (λ (p : kafka.World × Result (Unit {0})). (p.0, err x)) stays)
      ]

  -- If processing a request whose answer has come fails, it has stopped at one of the events of the
  -- answer: those before it stand in both topics, in order, those behind it in none, and it itself
  -- in the topic of the stream at most.
  pub execute-StopsAt :
      (req : ChatRequest) (deltas : List GoString) (w w' : kafka.World) (e : Error)
      → execute kafka json req (ok deltas) w ≡ (w', err e)
      → StopsAt (events laws json value marshals req deltas) w w'
  unfolding execute
  execute-StopsAt = publish_parts-StopsAt
