-- ===== src/UseCases.antt =====
-- internal/usecase/send_message.go, get_history.go and process_chat_request.go over the interfaces
-- of internal/usecase/boundary.go, and the presenters of internal/adapter/presenter/http.
-- ChatStream, ChatHandler and Publisher have them with the ports and gateways that the program
-- gives them.
pub mod Ports
use golang_learning.Prelude.{GoString, List, Option, none, some, map}
use golang_learning.Domain.{Message, ChatRequest, Error, Result, ok, err}
use golang_learning.Boundary.{
  IEventPublisher, IConversationCache, ITokenGenerator, ISendMessageOutputPort,
  IGetHistoryOutputPort,
}
use golang_learning.Publisher.{Kafka, Json, execute}
use golang_learning.ChatHandler.{GetHistoryPresenter, present_messages, present_error}

-- SendMessageUseCase.Execute
module _ (publisher : IEventPublisher) (port : ISendMessageOutputPort) where
  abbrev answer : GoString → Result (Unit {0}) → port.Port → port.Port
  answer request_id (ok _) out = port.present_request_id request_id out
  answer request_id (err e) out = port.present_error e out

  unfoldable pub send_message :
      GoString → GoString → GoString → port.Port → publisher.World → publisher.World × port.Port
  send_message session_id content request_id out w =
      let (w', published) =
        publisher.publish_request
          (record {
            request_id = request_id;
            session_id = session_id;
            content = content;
            timestamp = 0;
          })
          w in
      (w', answer request_id published out)

-- GetHistoryUseCase.Execute
module _ (cache : IConversationCache) (port : IGetHistoryOutputPort) where
  unfoldable pub get_history : GoString → cache.World → port.Port → port.Port
  get_history session_id w out = elim (cache.get_history session_id w) [
    | ok ms ↦ port.present_messages ms out
    | err e ↦ port.present_error e out
  ]

-- ProcessChatRequestUseCase.Execute with its generator.
module _ (generator : ITokenGenerator) (kafka : Kafka) (json : Json) where
  unfoldable pub process_chat_request :
      ChatRequest
      → generator.World
      → kafka.World
      → generator.World × kafka.World × Result (Unit {0})
  unfolding execute
  process_chat_request req g w =
      let (g', generated) = generator.generate req.content g in
      let (w', result) = execute kafka json req generated w in (g', w', result)

-- SendMessagePresenter
pub record SendMessagePresenter : Type 0 where
  pub request_id : GoString
  pub err : Option Error

unfoldable pub present_request_id : GoString → SendMessagePresenter → SendMessagePresenter
present_request_id id p = record p { request_id = id }

unfoldable pub present_send_error : Error → SendMessagePresenter → SendMessagePresenter
present_send_error e p = record p { err = some e }

-- The presenters as output ports.
abbrev pub send_message_presenter : ISendMessageOutputPort
send_message_presenter = record {
  Port = SendMessagePresenter;
  present_request_id = present_request_id;
  present_error = present_send_error;
}

abbrev pub get_history_presenter : IGetHistoryOutputPort
get_history_presenter = record {
  Port = GetHistoryPresenter;
  present_messages = present_messages;
  present_error = present_error;
}
