-- ===== src/Boundary.antt =====
-- internal/usecase/boundary.go: the interfaces through which the use cases reach the gateways,
-- IMessageStore (Store/Interface) apart. Each is over a world that its calls change; the gateways
-- fill them in Api, as cmd/api/main.go does. The output ports are over the values that presenters
-- write; UseCases has the use cases over them.
use golang_learning.Prelude.{ℕ, GoString, Bool, List}
use golang_learning.Domain.{
  Message, ChatRequest, ChatCompleted, TokenEvent, PubSubToken, Error, Result,
}

-- `save_message` gets the time in nanoseconds, which the gateway asks the clock for.
pub record IConversationCache : Type 1 where
  pub World : Type 0
  pub save_message : ℕ → Message → World → World × Result (Unit {0})
  pub get_history : GoString → World → Result (List Message)
  pub delete_session : GoString → World → World × Result (Unit {0})

pub record IEventPublisher : Type 1 where
  pub World : Type 0
  pub publish_request : ChatRequest → World → World × Result (Unit {0})
  pub publish_completed : ChatCompleted → World → World × Result (Unit {0})
  pub publish_token : TokenEvent → World → World × Result (Unit {0})

pub record ICallbackStore : Type 1 where
  pub World : Type 0
  pub set_callback : GoString → GoString → World → World × Result (Unit {0})
  pub get_callback : GoString → World → Result GoString

-- `unregister` is the function that Register returns.
pub record ITokenHub : Type 1 where
  pub Hub : Type 0
  pub register : GoString → Hub → ℕ × Hub
  pub unregister : GoString → Hub → Hub
  pub deliver : GoString → PubSubToken → Hub → Hub

pub record ISessionOwnerStore : Type 1 where
  pub World : Type 0
  pub claim_owner : GoString → GoString → World → World × Result Bool
  pub get_owner : GoString → World → Result GoString

-- `subscribe` gives a channel and its cleanup.
pub record IPubSubStream : Type 1 where
  pub World : Type 0
  pub publish : GoString → GoString → GoString → Bool → World → World × Result (Unit {0})
  pub subscribe : GoString → World → World × Result (ℕ × (World → World))

-- The channel that Generate returns is the list of what it yields until it is closed.
pub record ITokenGenerator : Type 1 where
  pub World : Type 0
  pub generate : GoString → World → World × Result (List GoString)

pub record ISendMessageOutputPort : Type 1 where
  pub Port : Type 0
  pub present_request_id : GoString → Port → Port
  pub present_error : Error → Port → Port

pub record IGetHistoryOutputPort : Type 1 where
  pub Port : Type 0
  pub present_messages : List Message → Port → Port
  pub present_error : Error → Port → Port
