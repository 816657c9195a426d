-- ===== src/Generation.antt =====
-- The goroutine of Generate in internal/framework/llm/mock.go beside the loop of Execute in
-- internal/usecase/process_chat_request.go, which receives from its unbuffered channel, as steps of
-- one state. The time that the goroutine sleeps between two words is not modelled.
pub mod Whole
pub mod Leak
mod Tests
use golang_learning.Prelude.{
  ℕ, GoString, nat_eq, length, if◌then◌else◌, Bool, true, false, List, [], ◌∷◌, ◌++◌, ◌≡◌,
}
use golang_learning.Domain.{ChatRequest, Result, ok, err}
use golang_learning.Publisher.{Kafka, Json, publish_token, part, finish}
use golang_learning.MockLlm.{Runes, text, fields}

-- Where Execute stands: at its receive, in the publication of a part, in that of the end, or
-- returned, from the loop or behind it.
pub data Consumer : Type 0 where
  receiving : Consumer
  publishing : GoString → Consumer
  finishing : Consumer
  gave_up : Result (Unit {0}) → Consumer
  returned : Result (Unit {0}) → Consumer

-- `given` are the words that have been sent, `left` those from the loop's index on; `closed` once
-- the goroutine has closed the channel.
pub record Generation (World : Type 0) : Type 0 where
  pub given : List Runes
  pub left : List Runes
  pub closed : Bool
  pub cancelled : Bool
  pub consumer : Consumer
  pub world : World

-- The token that is made of the i-th word.
abbrev pub token_of : ℕ → Runes → GoString
token_of i word = text (if nat_eq i 0 then word else 0x20 ∷ word)

-- Generate has been called, and the response that it picks has these words.
unfoldable pub generating : {World : Type 0} → Runes → World → Generation World
unfolding fields
generating response w = record {
  given = [];
  left = fields response;
  closed = false;
  cancelled = false;
  consumer = receiving;
  world = w;
}

module _ (kafka : Kafka) (json : Json) (req : ChatRequest) where
  open kafka use {World}

  -- After the publication of a part: on with the loop, or out of Execute with the error.
  abbrev pub after_part : Generation World → World × Result (Unit {0}) → Generation World
  after_part s (w, ok _) = record s { consumer = receiving; world = w }
  after_part s (w, err e) = record s { consumer = gave_up (err e); world = w }

  abbrev pub after_end : Generation World → World × Result (Unit {0}) → Generation World
  after_end s (w, result) = record s { consumer = returned result; world = w }

  -- Either channel operation of the goroutine's select may be taken when both can.
  pub data Step (s : Generation World) : Generation World → Type 0 where
    hands_over :
        {word : Runes} {words : List Runes}
        → s.closed ≡ false
        → s.left ≡ word ∷ words
        → s.consumer ≡ receiving
        → Step s (record s {
          given = s.given ++ word ∷ [];
          left = words;
          consumer = publishing (token_of (length s.given) word);
        })
    stops : s.closed ≡ false → s.cancelled ≡ true → Step s (record s { closed = true })
    closes : s.closed ≡ false → s.left ≡ [] → Step s (record s { closed = true })
    publishes :
        {delta : GoString}
        → s.consumer ≡ publishing delta
        → Step s (after_part s (publish_token kafka json (part kafka json req delta) s.world))
    range_ends :
        s.closed ≡ true → s.consumer ≡ receiving → Step s (record s { consumer = finishing })
    publishes_end :
        s.consumer ≡ finishing
        → Step s (after_end s (publish_token kafka json (finish kafka json req) s.world))
    cancels : Step s (record s { cancelled = true })

  pub data Reach (first : Generation World) : Generation World → Type 0 where
    start : Reach first first
    next : {s t : Generation World} → Reach first s → Step s t → Reach first t
