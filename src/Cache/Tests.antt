-- ===== src/Cache/Tests.antt =====
-- The gateways over the Redis in memory.
use golang_learning.Prelude.{
  GoString, lookup, insert, ◌==◌, false, List, [], ◌∷◌, ◌≡◌, ◌≢◌, ◌⊎◌, refl,
}
use golang_learning.Domain.{Message, Error, redis_nil, ok, err}
use golang_learning.Cache.{claim_owner, claim_owner_script, get_owner, session_owner_key}
use golang_learning.Cache.Memory.{World, in_memory, in_memory_laws, in_memory_frames, codec}
use golang_learning.Cache.Claims.{claim_all, claim_owner_exclusive}
use golang_learning.Cache.Saved.{Timed, save_all}

abbrev alice : GoString
alice = 7 ∷ []

abbrev bob : GoString
bob = 8 ∷ []

abbrev empty : World
empty = record { strings = []; sets = [] }

abbrev claimed : World
claimed = record empty { strings = (session_owner_key (1 ∷ []), alice) ∷ [] }

-- Bob claims both sessions, and gets the second.
abbrev attempts : List (GoString × GoString)
attempts = (1 ∷ [], bob) ∷ (2 ∷ [], bob) ∷ []

claim_owner_exclusive_example :
    let w = claim_all in_memory attempts claimed in
    (false ≡ (alice == bob))
    × ((get_owner in_memory (1 ∷ []) w ≡ ok alice)
        ⊎ ((e : Error) × (get_owner in_memory (1 ∷ []) w ≡ err e) × (e ≢ redis_nil)))
unfolding claim_all claim_owner claim_owner_script session_owner_key lookup insert ◌==◌
claim_owner_exclusive_example =
    claim_owner_exclusive in_memory_laws in_memory_frames (1 ∷ []) alice bob attempts empty claimed
      (claim_all in_memory attempts claimed) false refl refl

abbrev hello : Message
hello = record { session_id = 1 ∷ []; request_id = 2 ∷ []; role = 3 ∷ []; content = 4 ∷ 5 ∷ [] }

abbrev answer : Message
answer = record hello { role = 6 ∷ []; content = 5 ∷ [] }

abbrev talk : List Timed
talk = (100, hello) ∷ (101, answer) ∷ []

abbrev saved : World
saved = (save_all in_memory codec 60 talk empty).0
