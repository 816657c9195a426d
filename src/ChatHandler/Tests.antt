-- ===== src/ChatHandler/Tests.antt =====
-- The endpoints for the owner of session 1 and for another user.
use golang_learning.Prelude.{GoString, [], ◌∷◌, ◌==◌, ◌≡◌, refl}
use golang_learning.Domain.{Message, failure, ok, err}
use golang_learning.ChatHandler.{
  forbidden, failed, messages, to_dto, Gateways, guard_session, execute, present_messages,
  get_history, get_history_db,
}

abbrev alice : GoString
alice = 7 ∷ []

abbrev bob : GoString
bob = 8 ∷ []

abbrev hello : Message
hello = record { session_id = 1 ∷ []; request_id = 2 ∷ []; role = []; content = 4 ∷ [] }

abbrev gateways : Gateways
gateways = record {
  World = Unit {0};
  get_owner = λ session_id w. ok alice;
  cached_history = λ session_id w. ok (hello ∷ []);
  stored_history = λ session_id w. err (failure []);
}

reads_own_history : get_history gateways alice (1 ∷ []) tt ≡ messages (to_dto hello ∷ [])
unfolding get_history guard_session execute present_messages ◌==◌
reads_own_history = refl

forbids_other_history : get_history gateways bob (1 ∷ []) tt ≡ forbidden
unfolding get_history guard_session ◌==◌
forbids_other_history = refl

reports_broken_database : get_history_db gateways alice (1 ∷ []) tt ≡ failed (failure [])
unfolding get_history_db guard_session ◌==◌
reports_broken_database = refl
