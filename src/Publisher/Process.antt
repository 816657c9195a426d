-- ===== src/Publisher/Process.antt =====
-- What processing one chat request adds to the topics.
use golang_learning.Prelude.{
  GoString, List, [], ◌∷◌, ◌++◌, map, append_assoc, ◌≡◌, ◌⊎◌, inl, inr, refl, ap, ◌∙◌, arith,
}
use golang_learning.Domain.{ChatRequest, TokenEvent, Result, ok, err}
use golang_learning.Publisher.{
  KafkaMessage, Kafka, Json, topic_stream_fe, topic_persist_llm, publish_token, token_message, part,
  finish, publish_parts, execute, and_then,
}
use golang_learning.Publisher.Log.{KafkaLaws, publish_token_cases}

module _ {kafka : Kafka} (laws : KafkaLaws kafka) (json : Json) (value : TokenEvent → GoString)
    (marshals : (t : TokenEvent) → json.marshal_token t ≡ ok (value t)) where
  open laws use {log}

  -- The events of a request, and their messages on a topic.
  abbrev pub events : ChatRequest → List GoString → List TokenEvent
  events req deltas = map (part kafka json req) deltas ++ finish kafka json req ∷ []

  abbrev pub on : GoString → TokenEvent → KafkaMessage
  on topic t = token_message kafka json topic t (value t)

  pub published :
      (t : TokenEvent) (w w' : kafka.World)
      → publish_token kafka json t w ≡ (w', ok tt)
      → (topic : GoString) → (topic ≡ topic_stream_fe) ⊎ (topic ≡ topic_persist_llm)
      → log topic w' ≡ log topic w ++ on topic t ∷ []
  published t w w' e topic which = elim (publish_token_cases laws json t w w' (ok tt) e) [
    | inl (v, _, m, streamed, persisted) ↦
        let same : v ≡ value t = ground (arith, marshals t) in
        elim which [ inl s ↦ rw (s, ← same) streamed | inr p ↦ rw (p, ← same) persisted ]
    | inr (x, sent, wrong, _, _, _) ↦ absurd (ground arith)
  ]

  and_then-eq-ok :
      (p : kafka.World × Result (Unit {0})) (f : kafka.World → kafka.World × Result (Unit {0}))
      {w' : kafka.World}
      → and_then kafka json p f ≡ (w', ok tt)
      → (p.1 ≡ ok tt) × (f p.0 ≡ (w', ok tt))
  and_then-eq-ok (w, ok _) f e = (refl, e)
  and_then-eq-ok (w, err x) f e = absurd (ground arith)

  split_ok :
      (req : ChatRequest) (delta : GoString) (deltas : List GoString) (w w' : kafka.World)
      → publish_parts kafka json req (delta ∷ deltas) w ≡ (w', ok tt)
      → (w₁ : kafka.World) × (publish_token kafka json (part kafka json req delta) w ≡ (w₁, ok tt))
        × (publish_parts kafka json req deltas w₁ ≡ (w', ok tt))
  unfolding publish_parts
  split_ok req delta deltas w w' e =
      let first = publish_token kafka json (part kafka json req delta) w in
      let (fine, rest) = and_then-eq-ok first (publish_parts kafka json req deltas) e in
      (first.0, ap (λ (r : Result (Unit {0})). (first.0, r)) fine, rest)

  log-publish_parts :
      (req : ChatRequest) (deltas : List GoString) (w w' : kafka.World)
      → publish_parts kafka json req deltas w ≡ (w', ok tt)
      → (topic : GoString) → (topic ≡ topic_stream_fe) ⊎ (topic ≡ topic_persist_llm)
      → log topic w' ≡ log topic w ++ map (on topic) (events req deltas)
  unfolding publish_parts
  log-publish_parts req [] w w' e topic which = published (finish kafka json req) w w' e topic which
  log-publish_parts req (delta ∷ deltas) w w' e topic which =
      let (w₁, first, rest) = split_ok req delta deltas w w' e in
      log-publish_parts req deltas w₁ w' rest topic which
      ∙ ap (λ l. l ++ map (on topic) (events req deltas))
          (published (part kafka json req delta) w w₁ first topic which)
      ∙ append_assoc (log topic w) (on topic (part kafka json req delta) ∷ [])
          (map (on topic) (events req deltas))

  pub log-execute :
      (req : ChatRequest) (generated : Result (List GoString)) (w w' : kafka.World)
      → execute kafka json req generated w ≡ (w', ok tt)
      → (deltas : List GoString) × (generated ≡ ok deltas)
        × (log topic_stream_fe w'
            ≡ log topic_stream_fe w ++ map (on topic_stream_fe) (events req deltas))
        × (log topic_persist_llm w'
            ≡ log topic_persist_llm w ++ map (on topic_persist_llm) (events req deltas))
  unfolding execute
  log-execute req (err x) w w' e = absurd (ground arith)
  log-execute req (ok deltas) w w' e = (
    deltas,
    refl,
    log-publish_parts req deltas w w' e topic_stream_fe (inl refl),
    log-publish_parts req deltas w w' e topic_persist_llm (inr refl),
  )
