-- ===== src/ChatStream/Tests.antt =====
-- A chat turn over services that grant every claim of one user and keep a log of what is published.
use golang_learning.Prelude.{
  ℕ, GoString, Bool, true, false, List, [], ◌∷◌, map, ◌==◌, ◌≡◌, refl, arith,
}
use golang_learning.Domain.{ChatRequest, PubSubToken, ok}
use golang_learning.Hub.{new_hub, register}
use golang_learning.Hub.Delivery.{new_hub-IsValid, deliver_all, tokens_of}
use golang_learning.ChatStream.{Services, to_chunk, token, pump, stream}
use golang_learning.ChatStream.Turn.{through_done, stream-delivers}

abbrev alice : GoString
alice = 7 ∷ []

abbrev services : Services
services = record {
  World = List ChatRequest;
  claim_owner = λ session_id user_id w. (w, ok (user_id == alice));
  set_callback = λ request_id addr w. (w, ok tt);
  publish_request = λ req w. (req ∷ w, ok tt);
}

abbrev published : ChatRequest
published = record { request_id = 1 ∷ []; session_id = 4 ∷ []; content = 9 ∷ []; timestamp = 0 }

abbrev tok : ℕ → Bool → PubSubToken
tok n last = record { request_id = 1 ∷ []; delta = n ∷ []; done = last }

abbrev deliveries : List (GoString × PubSubToken)
deliveries =
    (1 ∷ [], tok 5 false) ∷ (2 ∷ [], tok 6 true) ∷ (1 ∷ [], tok 7 true) ∷ (1 ∷ [], tok 8 false) ∷ []

stream-delivers_example :
    let (c, h') = register (1 ∷ []) new_hub in
    (pump (λ chunk. true) (map token ((deliver_all deliveries h').queue c))).0
    ≡ to_chunk (tok 5 false) ∷ to_chunk (tok 7 true) ∷ []
unfolding ◌==◌ stream register tokens_of through_done new_hub
stream-delivers_example =
    stream-delivers services alice (4 ∷ []) alice (9 ∷ []) (1 ∷ []) new_hub
      (register (1 ∷ []) new_hub).1 [] (published ∷ []) 0 (λ chunk. true) deliveries new_hub-IsValid
      refl (omega arith) (λ chunk. refl)
