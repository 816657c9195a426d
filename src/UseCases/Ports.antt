-- ===== src/UseCases/Ports.antt =====
-- The use cases with the ports that the handlers give them are those of ChatStream and ChatHandler.
use golang_learning.Prelude.{GoString, List, Bool, ◌≡◌, refl, none, []}
use golang_learning.Domain.{Message, Result, Result-cases}
use golang_learning.Prelude.{some, inl, inr}
use golang_learning.Boundary.{IEventPublisher, ISendMessageOutputPort, IConversationCache}
use golang_learning.ChatStream
use golang_learning.ChatStream.{Services, StreamOutputPort}
use golang_learning.ChatHandler
use golang_learning.ChatHandler.{Gateways, GetHistoryPresenter}
use golang_learning.UseCases.{
  send_message, get_history, SendMessagePresenter, present_request_id, present_send_error,
  send_message_presenter, get_history_presenter,
}

-- streamOutputPort as an output port.
abbrev pub stream_output_port : ISendMessageOutputPort
stream_output_port = record {
  Port = StreamOutputPort;
  present_request_id = λ id p. record p { request_id = id };
  present_error = λ e p. record p { err = some e };
}

abbrev no_stream_output : StreamOutputPort
no_stream_output = record { request_id = []; err = none }

abbrev no_output : SendMessagePresenter
no_output = record { request_id = []; err = none }

module _ (publisher : IEventPublisher)
    (claim_owner : GoString → GoString → publisher.World → publisher.World × Result Bool)
    (set_callback : GoString → GoString → publisher.World → publisher.World × Result (Unit {0}))
    (grpc_addr session_id content request_id : GoString) (w : publisher.World) where
  abbrev services : Services
  services = record {
    World = publisher.World;
    claim_owner = claim_owner;
    set_callback = set_callback;
    publish_request = publisher.publish_request;
  }

  abbrev presented : publisher.World × SendMessagePresenter
  presented =
      send_message publisher send_message_presenter session_id content request_id no_output w

  -- Stream hands Execute an empty streamOutputPort; an empty SendMessagePresenter gets the same.
  pub send_message-ports :
      let streamed = ChatStream.send_message services grpc_addr session_id content request_id w in
      (send_message publisher stream_output_port session_id content request_id no_stream_output w
        ≡ streamed)
      × (presented
          ≡ (streamed.0, record { request_id = streamed.1.request_id; err = streamed.1.err }))
  unfolding send_message ChatStream.send_message present_request_id present_send_error
  send_message-ports =
      let published =
        publisher.publish_request
          (record {
            request_id = request_id;
            session_id = session_id;
            content = content;
            timestamp = 0;
          })
          w in
      elim (Result-cases published.1) [
        | inl (_, fine) ↦ (rw fine refl, rw fine refl)
        | inr (e, failed) ↦ (rw failed refl, rw failed refl)
      ]

module _ (cache : IConversationCache) (get_owner : GoString → cache.World → Result GoString)
    (stored_history : GoString → cache.World → Result (List Message)) where
  abbrev gateways : Gateways
  gateways = record {
    World = cache.World;
    get_owner = get_owner;
    cached_history = cache.get_history;
    stored_history = stored_history;
  }

  pub get_history-presenter :
      (session_id : GoString) (w : cache.World) (p : GetHistoryPresenter)
      → get_history cache get_history_presenter session_id w p
        ≡ ChatHandler.execute gateways session_id w p
  unfolding get_history ChatHandler.execute
  get_history-presenter session_id w p = refl
