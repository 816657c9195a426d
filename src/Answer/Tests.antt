-- ===== src/Answer/Tests.antt =====
-- An answer of two parts on its ways to the database and to the client.
use golang_learning.Prelude.{
  GoString, ◌==◌, as_inserted, lookup, insert, delete, List, [], ◌∷◌, ◌++◌, map, concat, Bool, true,
  false, if◌then◌else◌, ◌≡◌, refl, sym, ap, ◌∙◌, arith, Sub, none_left, keep, skip,
}
use golang_learning.Domain.{TokenEvent, role_assistant, ok}
use golang_learning.Publisher.{
  KafkaMessage, topic_stream_fe, topic_persist_llm, publish_token, publish_parts, execute,
}
use golang_learning.Publisher.Memory.{kafka, on_topic, laws, log-laws}
use golang_learning.Publisher.Process.{events}
use golang_learning.Persist.{PersistSession, new_persist_session, add_token, flush, or_empty}
use golang_learning.Persist.Buffers.{add_tokens}
use golang_learning.Persist.Batches.{run_batches}
use golang_learning.Store.{message_store}
use golang_learning.Store
use golang_learning.Store.Memory.{memory, memory_laws, Table}
use golang_learning.StreamTokens.{
  Remote, StreamTokens, new_stream_tokens, get_or_open_stream, resolve_addr, get_conn, send_token,
}
use golang_learning.StreamTokens
use golang_learning.StreamTokens.Relay.{execute_all}
use golang_learning.TokenServer.{TokenMessage, done, msg, eof, deliver_tokens}
use golang_learning.Hub.{new_hub, register}
use golang_learning.Hub.Delivery.{new_hub-IsValid}
use golang_learning.ChatStream.{stream, token, pump}
use golang_learning.Answer.Memory.{
  value, json, decode, all_decode, all_stream, request, orders, fresh, network, network_laws,
  stream_token, services,
}
use golang_learning.Answer.{stream_tokens, to_event, token_events}
use golang_learning.Answer.Streamed.{chunks, answer_reaches_client}
use golang_learning.Answer.Stored.{answer_is_stored}
use golang_learning.Answer.Lossy.{kept_answer_is_stored}

abbrev parts : List GoString
parts = (4 ∷ []) ∷ (5 ∷ []) ∷ []

abbrev events_of : List GoString → List TokenEvent
events_of = events laws json value (λ t. refl) request

processed : List KafkaMessage
unfolding execute publish_parts publish_token topic_stream_fe topic_persist_llm
processed = (execute kafka json request (ok parts) []).0

-- What has been added to a topic.
added :
    (topic : GoString) → laws.log topic processed ≡ laws.log topic [] ++ on_topic topic processed
added topic =
    log-laws topic processed ∙ sym (ap (λ l. l ++ on_topic topic processed) (log-laws topic []))

read_events : List TokenEvent
unfolding token_events processed
read_events = token_events decode (on_topic topic_persist_llm processed)

abbrev flushed : PersistSession × Table
flushed =
    let (uc, db, _) =
      flush (message_store memory (as_inserted (Unit {0}))) orders orders
        (add_tokens new_persist_session read_events) fresh in
    (uc, db)

answer_is_stored_example :
    or_empty (memory_laws.content flushed.1 (1 ∷ []) role_assistant)
    ≡ or_empty (memory_laws.content fresh (1 ∷ []) role_assistant)
      ++ (if ◌==◌ (1 ∷ []) (1 ∷ []) then concat parts else [])
unfolding read_events ◌==◌ new_persist_session run_batches flush add_tokens add_token insert
    Store.get_content_by_request_ids Store.bulk_upsert_messages
answer_is_stored_example =
    answer_is_stored laws json value (λ t. refl) decode memory_laws (as_inserted (Unit {0})) orders
      orders request parts [] processed (on_topic topic_persist_llm processed)
      (all_decode (events_of parts)) refl (added topic_persist_llm) (read_events ∷ [])
      new_persist_session flushed.0 fresh flushed.1 refl refl refl (1 ∷ [])

-- The first message is lost.
abbrev rest_of : List KafkaMessage → List KafkaMessage
rest_of [] = []
rest_of (m ∷ ms) = ms

Sub-refl : (ms : List KafkaMessage) → Sub ms ms
Sub-refl [] = none_left
Sub-refl (m ∷ ms) = keep m (Sub-refl ms)

Sub-rest_of : (ms : List KafkaMessage) → Sub (rest_of ms) ms
Sub-rest_of [] = none_left
Sub-rest_of (m ∷ ms) = skip (Sub-refl ms)

kept_events : List TokenEvent
unfolding token_events processed
kept_events = token_events decode (rest_of (on_topic topic_persist_llm processed))

abbrev kept_flushed : PersistSession × Table
kept_flushed =
    let (uc, db, _) =
      flush (message_store memory (as_inserted (Unit {0}))) orders orders
        (add_tokens new_persist_session kept_events) fresh in
    (uc, db)

kept_answer_is_stored_example :
    (kept : List GoString) × Sub kept parts
    × ((id : GoString)
        → or_empty (memory_laws.content kept_flushed.1 id role_assistant)
          ≡ or_empty (memory_laws.content fresh id role_assistant)
            ++ (if ◌==◌ (1 ∷ []) id then concat kept else []))
unfolding kept_events ◌==◌ new_persist_session run_batches flush add_tokens add_token insert
    Store.get_content_by_request_ids Store.bulk_upsert_messages
kept_answer_is_stored_example =
    kept_answer_is_stored laws json value (λ t. refl) decode memory_laws (as_inserted (Unit {0}))
      orders orders request parts [] processed (on_topic topic_persist_llm processed)
      (rest_of (on_topic topic_persist_llm processed)) (all_decode (events_of parts)) refl
      (added topic_persist_llm) (Sub-rest_of (on_topic topic_persist_llm processed))
      (kept_events ∷ []) new_persist_session kept_flushed.0 fresh kept_flushed.1 refl refl refl

abbrev sent : GoString → Bool → TokenMessage
sent delta end = record { request_id = 1 ∷ []; delta = delta; done = end }

-- The use case at the end: the stream and the address are forgotten, the connection is kept.
abbrev relayed : StreamTokens network
relayed = record {
  secret = [];
  streams = [];
  addr_map = [];
  conn_map = (6 ∷ [], 6 ∷ []) ∷ [];
  world = record {
    log = sent (4 ∷ []) false ∷ sent (5 ∷ []) false ∷ sent [] true ∷ [];
    closed = true;
  };
}

answer_reaches_client_example :
    let (c, h') = register (1 ∷ []) new_hub in
    (st : Unit {0}) × (network_laws.ended st relayed.world ≡ true)
    × (let received = map msg (network_laws.sent st relayed.world) ++ eof ∷ [] in
        let after = (deliver_tokens done received h').0 in
        pump (λ x. true) (map token (after.queue c)) ≡ (chunks (1 ∷ []) parts, true))
unfolding processed lookup new_stream_tokens execute_all stream_tokens ◌==◌ StreamTokens.execute
    get_or_open_stream resolve_addr get_conn send_token to_event insert delete stream register
    new_hub
answer_reaches_client_example =
    answer_reaches_client laws json value (λ t. refl) (λ s. stream_token (decode s)) network_laws
      services [] request parts [] processed (on_topic topic_stream_fe processed)
      (all_stream (events_of parts)) refl (added topic_stream_fe)
      (new_stream_tokens network [] (record { log = []; closed = false })) relayed refl refl
      (7 ∷ []) new_hub (register (1 ∷ []) new_hub).1 tt tt 0 new_hub-IsValid refl (λ e. cc)
      (omega arith) done (λ x. true) (λ x. refl)
