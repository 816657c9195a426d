-- ===== src/MockLlm.antt =====
-- internal/framework/llm/mock.go, and newTokenGenerator of cmd/worker/main.go, which chooses it. A
-- response is a list of code points, the parts that are sent are its bytes.
pub mod Parts
mod Tests
use golang_learning.Prelude.{
  ℕ, ◌+◌, GoString, bytes, utf8, runes, ◌==◌, is_empty, Bool, true, false, ◌||◌, ◌&&◌, leb, nat_eq,
  List, [], ◌∷◌, ◌++◌, map, Option, none, some, if◌then◌else◌,
}
use golang_learning.Domain.{Error, failure, Result, ok, err}

abbrev pub Runes : Type 0
Runes = List ℕ

abbrev pub responses : List Runes
responses =
    runes "Xin chào! Tôi là một AI trợ lý. Tôi có thể giúp gì cho bạn?"
    ∷ runes "Đây là một hệ thống event-driven streaming sử dụng Kafka và Go."
    ∷ runes "Latency là thời gian để một packet đi từ sender đến receiver."
    ∷ runes "Throughput là lượng data thực sự được truyền thành công mỗi giây."
    ∷ runes "Redis sorted sets rất phù hợp để lưu conversation history theo thứ tự thời gian."
    ∷ []

-- unicode.IsSpace
unfoldable pub is_space : ℕ → Bool
is_space r =
    leb 0x9 r && leb r 0xd
    || nat_eq r 0x20
    || nat_eq r 0x85
    || nat_eq r 0xa0
    || nat_eq r 0x1680
    || leb 0x2000 r && leb r 0x200a
    || nat_eq r 0x2028
    || nat_eq r 0x2029
    || nat_eq r 0x202f
    || nat_eq r 0x205f
    || nat_eq r 0x3000

-- A word ends: it is a field, unless it is empty.
abbrev pub end_field : Runes → List Runes → List Runes
end_field [] later = later
end_field (r ∷ word) later = (r ∷ word) ∷ later

-- strings.Fields; `word` is what has been read of a word.
unfoldable pub fields_from : Runes → Runes → List Runes
unfolding is_space
fields_from word [] = end_field word []
fields_from word (r ∷ s) =
    let ended = end_field word (fields_from [] s) in
    let longer = fields_from (word ++ r ∷ []) s in if is_space r then ended else longer

unfoldable pub fields : Runes → List Runes
unfolding fields_from
fields s = fields_from [] s

abbrev pub text : Runes → GoString
text [] = []
text (r ∷ s) = utf8 r ++ text s

-- The loop of Generate from the i-th word on: `cancelled i` says that the select finds the context
-- done there.
unfoldable pub send_from : (ℕ → Bool) → ℕ → List Runes → List GoString
send_from cancelled i [] = []
send_from cancelled i (word ∷ words) =
    let rest = send_from cancelled (i + 1) words in
    let token = if nat_eq i 0 then word else 0x20 ∷ word in
    if cancelled i then [] else text token ∷ rest

-- What Generate sends for the response that the random number picks.
unfoldable pub generate : (ℕ → Bool) → Runes → List GoString
unfolding fields send_from
generate cancelled response = send_from cancelled 0 (fields response)

-- The generators that there are.
pub data TokenGenerator : Type 0 where
  mock : TokenGenerator

unfoldable pub new_token_generator : GoString → Result TokenGenerator
unfolding bytes
new_token_generator provider =
    if provider == bytes "mock" || is_empty provider
    then ok mock
    else err (failure (bytes "unknown LLM provider: " ++ provider))
