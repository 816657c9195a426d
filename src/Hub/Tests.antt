-- ===== src/Hub/Tests.antt =====
-- The hub's theorem where another request gets tokens in between.
use golang_learning.Prelude.{GoString, List, [], ◌∷◌, ◌≡◌, ◌≤◌, false, length, ◌==◌, ℕ}
use golang_learning.Domain.{PubSubToken}
use golang_learning.Hub.{TokenHub, new_hub, register, channel_capacity}
use golang_learning.Hub.Delivery.{
  register-IsValid, new_hub-IsValid, deliver_all, tokens_of, queue-register,
}

abbrev tok : ℕ → PubSubToken
tok n = record { request_id = 1 ∷ []; delta = n ∷ []; done = false }

abbrev deliveries : List (GoString × PubSubToken)
deliveries = (1 ∷ [], tok 5) ∷ (2 ∷ [], tok 6) ∷ (1 ∷ [], tok 7) ∷ []

-- A hub in which request 2 waits already.
abbrev waiting : TokenHub
waiting = (register (2 ∷ []) new_hub).1

queue-register_example :
    let (c, h') = register (1 ∷ []) waiting in
    ((deliver_all deliveries h').queue c ≡ tok 5 ∷ tok 7 ∷ [])
    × (length (tokens_of (1 ∷ []) deliveries) ≤ channel_capacity
        → (deliver_all deliveries h').queue c ≡ tokens_of (1 ∷ []) deliveries)
unfolding tokens_of ◌==◌
queue-register_example =
    queue-register (1 ∷ []) deliveries waiting (register-IsValid (2 ∷ []) new_hub new_hub-IsValid)
