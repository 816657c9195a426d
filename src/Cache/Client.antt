-- ===== src/Cache/Client.antt =====
-- The Redis client, third-party code: its commands, and what the gateways rely on of them, for keys
-- that do not expire in between.
use golang_learning.Prelude.{
  ℕ, ◌≤◌, ◌<◌, GoString, List, [], ◌∷◌, map, All, length, Option, none, some, ◌≡◌, ◌≢◌, ◌⊎◌, ◌++◌,
}
use golang_learning.Domain.{redis_nil, Result, ok, err}

-- `stored` and `set_ex` are GET and SET … EX inside a script, and `eval` runs a script. `z_range k
-- a b` is ZRANGE k -a -b.
pub record Redis : Type 1 where
  pub World : Type 0
  pub stored : GoString → World → Option GoString
  pub set_ex : GoString → GoString → ℕ → World → World
  pub eval : (World → World × ℕ) → World → World × Result ℕ
  pub set : GoString → GoString → ℕ → World → World × Result (Unit {0})
  pub get : GoString → World → Result GoString
  pub z_add : GoString → ℕ → GoString → World → World × Result (Unit {0})
  pub expire : GoString → ℕ → World → World × Result (Unit {0})
  pub del : GoString → World → World × Result (Unit {0})
  pub z_range : GoString → ℕ → ℕ → World → Result (List GoString)

-- A script runs as a whole, or the call fails; GET answers with what is stored, and with redis.Nil
-- exactly for a key that is not. `entries` are the scores and members of a sorted set in its order:
-- ZADD of a new member with a score above all others puts it at the end, EXPIRE with a lifetime
-- changes none, and ZRANGE -n -1 answers with the last n members, or with all if they are fewer.
pub record RedisLaws (r : Redis) : Type 1 where
  pub stored-set_ex :
      (k v : GoString) (ttl : ℕ) (w : r.World) → r.stored k (r.set_ex k v ttl w) ≡ some v
  pub eval_ok :
      (f : r.World → r.World × ℕ) (w w' : r.World) (n : ℕ) → r.eval f w ≡ (w', ok n) → f w ≡ (w', n)
  pub get_found : (k v : GoString) (w : r.World) → r.get k w ≡ ok v → r.stored k w ≡ some v
  pub get_missing : (k : GoString) (w : r.World) → r.get k w ≡ err redis_nil → r.stored k w ≡ none
  pub entries : GoString → r.World → List (ℕ × GoString)
  pub z_add_new :
      (k : GoString) (score : ℕ) (m : GoString) (w w' : r.World)
      → r.z_add k score m w ≡ (w', ok tt)
      → All (λ (p : ℕ × GoString). (p.0 < score) × (p.1 ≢ m)) (entries k w)
      → entries k w' ≡ entries k w ++ (score, m) ∷ []
  pub expire_keeps :
      (k j : GoString) (ttl : ℕ) (w : r.World)
      → 0 < ttl
      → entries j (r.expire k ttl w).0 ≡ entries j w
  pub z_range_last :
      (k : GoString) (n : ℕ) (w : r.World) (found : List GoString)
      → r.z_range k n 1 w ≡ ok found
      → (length found ≤ n)
        × ((before : List GoString) × (map (λ (p : ℕ × GoString). p.1) (entries k w)
              ≡ before ++ found)
            × ((before ≡ []) ⊎ (length found ≡ n)))

-- A command touches no key but its own, and a script that fails has run as a whole or not at all.
pub record RedisFrames (r : Redis) : Type 1 where
  pub set_ex_other :
      (k j v : GoString) (ttl : ℕ) (w : r.World)
      → k ≢ j
      → r.stored j (r.set_ex k v ttl w) ≡ r.stored j w
  pub set_other :
      (k j v : GoString) (ttl : ℕ) (w : r.World)
      → k ≢ j
      → r.stored j (r.set k v ttl w).0 ≡ r.stored j w
  pub eval_runs :
      (f : r.World → r.World × ℕ) (w : r.World) → ((r.eval f w).0 ≡ w) ⊎ ((r.eval f w).0 ≡ (f w).0)
