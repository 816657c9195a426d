-- ===== src/Cache/Saved.antt =====
-- That GetHistory returns the messages that SaveMessage has saved.
use golang_learning.Prelude.{ℕ, ◌<◌, GoString, List, [], ◌∷◌, map, ◌≢◌, All}
use golang_learning.Domain.{Message, Result, ok}
use golang_learning.Cache.Client.{Redis, RedisLaws}
use golang_learning.Cache.{RecordCodec, save_message, and_then, conversation_key}
use golang_learning.Cache.History.{stored_as, IsSavable}

-- A time and the message that is saved at it.
abbrev pub Timed : Type 0
Timed = ℕ × Message

-- A message that is saved later, and is another one.
abbrev pub Follows : Timed → Timed → Type 0
Follows p q = (p.0 < q.0) × (p.1 ≢ q.1)

abbrev pub InOrder : List Timed → Type 0
InOrder [] = Unit
InOrder (p ∷ ps) = All (Follows p) ps × InOrder ps

abbrev pub messages : List Timed → List Message
messages = map (λ p. p.1)

-- SaveMessage of one message after the other, up to the first error.
unfoldable pub save_all :
    (r : Redis) → RecordCodec → ℕ → List Timed → r.World → r.World × Result (Unit {0})
save_all r codec ttl [] w = (w, ok tt)
save_all r codec ttl ((now, m) ∷ ps) w =
    and_then r codec (save_message r codec now ttl m w) (save_all r codec ttl ps)

module _ {r : Redis} (laws : RedisLaws r) (codec : RecordCodec) (session_id : GoString)
    (ttl : ℕ) where
  abbrev IsGood : Timed → Type 0
  IsGood p = IsSavable laws codec session_id p.1

  abbrev entry : Timed → ℕ × GoString
  entry p = (p.0, stored_as laws codec p.1)

  abbrev held : r.World → List (ℕ × GoString)
  held w = laws.entries (conversation_key session_id) w

  -- Each message that is to be saved follows all that are.
  abbrev IsReady : List Timed → List Timed → Type 0
  IsReady saved ps = All (λ p. All (λ q. IsGood q × Follows q p) saved) ps
