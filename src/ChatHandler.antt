-- ===== src/ChatHandler.antt =====
-- internal/adapter/controller/http/handler/chat.go, with internal/usecase/get_history.go and the
-- presenter internal/adapter/presenter/http/get_history.go: reading a session's history from the
-- cache or the database, for its owner. The gateways are the parameter `Gateways`.
pub mod Guard
mod Tests
use golang_learning.Prelude.{
  GoString, ◌==◌, Bool, true, false, List, [], map, Option, none, some, if◌then◌else◌, not,
}
use golang_learning.Domain.{Message, Error, is_redis_nil, Result, ok, err}

pub record MessageDto : Type 0 where
  pub role : GoString
  pub content : GoString
  pub request_id : GoString

unfoldable pub to_dto : Message → MessageDto
to_dto m = record { role = m.role; content = m.content; request_id = m.request_id }

-- GetHistoryPresenter
pub record GetHistoryPresenter : Type 0 where
  pub messages : List MessageDto
  pub err : Option Error

unfoldable pub present_messages : List Message → GetHistoryPresenter → GetHistoryPresenter
unfolding to_dto
present_messages ms p = record p { messages = map to_dto ms }

unfoldable pub present_error : Error → GetHistoryPresenter → GetHistoryPresenter
present_error e p = record p { err = some e }

abbrev pub new_presenter : GetHistoryPresenter
new_presenter = record { messages = []; err = none }

-- Status 403, status 500 with "internal error" or with the error's text, and status 200.
pub data Reply : Type 0 where
  forbidden internal_error : Reply
  failed : Error → Reply
  messages : List MessageDto → Reply

pub record Gateways : Type 1 where
  pub World : Type 0
  pub get_owner : GoString → World → Result GoString
  pub cached_history : GoString → World → Result (List Message)
  pub stored_history : GoString → World → Result (List Message)

module _ (g : Gateways) where
  open g use {World, get_owner, cached_history, stored_history}

  -- GetHistoryUseCase.Execute
  unfoldable pub execute : GoString → World → GetHistoryPresenter → GetHistoryPresenter
  unfolding present_messages present_error
  execute session_id w out = elim (cached_history session_id w) [
    | ok ms ↦ present_messages ms out
    | err e ↦ present_error e out
  ]

  -- guardSession: the reply with which it stops the request, if it does.
  unfoldable pub guard_session : GoString → GoString → World → Option Reply
  guard_session user_id session_id w = elim (get_owner session_id w) [
    | err e ↦ if is_redis_nil e then some forbidden else some internal_error
    | ok owner ↦ if not (owner == user_id) then some forbidden else none
  ]

  abbrev pub presented : GetHistoryPresenter → Reply
  presented p = elim p.err [ some e ↦ failed e | none ↦ messages p.messages ]

  unfoldable pub get_history : GoString → GoString → World → Reply
  unfolding guard_session execute
  get_history user_id session_id w = elim (guard_session user_id session_id w) [
    | some reply ↦ reply
    | none ↦ presented (execute session_id w new_presenter)
  ]

  abbrev pub stored : Result (List Message) → Reply
  stored (err e) = failed e
  stored (ok ms) = messages (present_messages ms new_presenter).messages

  unfoldable pub get_history_db : GoString → GoString → World → Reply
  unfolding guard_session present_messages
  get_history_db user_id session_id w = elim (guard_session user_id session_id w) [
    | some reply ↦ reply
    | none ↦ stored (stored_history session_id w)
  ]
