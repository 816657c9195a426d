-- ===== src/Persist/Buffers.antt =====
-- What the buffers of PersistSessionUseCase hold after any sequence of tokens.
use golang_learning.Prelude.{
  ℕ, ◌+◌, ◌≤◌, GoString, ◌==◌, eq_iff, lookup, Distinct, insert-Distinct, lookup-insert, map, List,
  [], ◌∷◌, ◌++◌, append_assoc, append-nil, Option, none, some, if◌then◌else◌, true, concat, length,
  ◌≡◌, ◌↔◌, refl, sym, ap, ◌∙◌, arith, Bool-cases, inl, inr,
}
use golang_learning.Domain.{TokenEvent}
use golang_learning.Persist.{
  TokenBuffer, PersistSession, extend_buffer, add_token, should_flush, new_persist_session,
}

-- The calls of AddToken for a sequence of tokens.
unfoldable pub add_tokens : PersistSession → List TokenEvent → PersistSession
add_tokens uc [] = uc
add_tokens uc (t ∷ ts) = add_tokens (add_token uc t) ts

-- The tokens of one request, in their order.
unfoldable pub tokens_for : GoString → List TokenEvent → List TokenEvent
tokens_for id [] = []
tokens_for id (t ∷ ts) = if t.request_id == id then t ∷ tokens_for id ts else tokens_for id ts

abbrev pub text : List TokenEvent → GoString
text ts = concat (map (λ t. t.delta) ts)

-- A buffer with the texts of the tokens at its end; a new one has the session and the user's
-- message of the first token.
abbrev pub extended : Option TokenBuffer → List TokenEvent → Option TokenBuffer
extended none [] = none
extended none (t ∷ ts) =
    some
      (record { session_id = t.session_id; user_message = t.user_message; content = text (t ∷ ts) })
extended (some buf) ts = some (record buf { content = buf.content ++ text ts })

extended-extend_buffer :
    (o : Option TokenBuffer) (t : TokenEvent) (ts : List TokenEvent)
    → extended (some (extend_buffer o t)) ts ≡ extended o (t ∷ ts)
unfolding extend_buffer
extended-extend_buffer none t ts = refl
extended-extend_buffer (some buf) t ts =
    ap (λ (c : GoString). some (record buf { content = c }))
      (append_assoc buf.content t.delta (text ts))

extended-nil : (o : Option TokenBuffer) → extended o [] ≡ o
extended-nil none = refl
extended-nil (some buf) =
    ap (λ (c : GoString). some (record buf { content = c })) (append-nil buf.content)

lookup-add_token :
    (uc : PersistSession) (t : TokenEvent) (id : GoString)
    → lookup id (add_token uc t).buffers ≡ (
        if t.request_id == id
        then some (extend_buffer (lookup id uc.buffers) t)
        else lookup id uc.buffers)
unfolding add_token
lookup-add_token uc t id =
    lookup-insert t.request_id id (extend_buffer (lookup t.request_id uc.buffers) t) uc.buffers
    ∙ ground (arith, eq_iff t.request_id id)

-- After any sequence of tokens the buffer of a request is what it was, extended by the texts of
-- that request's tokens in their order: tokens of other requests leave no trace in it.
pub lookup-add_tokens :
    (uc : PersistSession) (ts : List TokenEvent) (id : GoString)
    → lookup id (add_tokens uc ts).buffers ≡ extended (lookup id uc.buffers) (tokens_for id ts)
unfolding add_tokens tokens_for
lookup-add_tokens uc [] id = sym (extended-nil (lookup id uc.buffers))
lookup-add_tokens uc (t ∷ ts) id = lookup-add_tokens (add_token uc t) ts id ∙ stored
  where
    stored :
        extended (lookup id (add_token uc t).buffers) (tokens_for id ts)
        ≡ extended
            (lookup id uc.buffers)
            (if t.request_id == id then t ∷ tokens_for id ts else tokens_for id ts)
    stored = elim (Bool-cases (t.request_id == id)) [
      | inl same ↦
          rw (lookup-add_token uc t id, same)
            (extended-extend_buffer (lookup id uc.buffers) t (tokens_for id ts))
      | inr other ↦ rw (lookup-add_token uc t id, other) refl
    ]

pub add_tokens-Distinct :
    (uc : PersistSession) (ts : List TokenEvent)
    → Distinct uc.buffers
    → Distinct (add_tokens uc ts).buffers
unfolding add_tokens add_token
add_tokens-Distinct uc [] d = d
add_tokens-Distinct uc (t ∷ ts) d =
    add_tokens-Distinct (add_token uc t) ts (insert-Distinct t.request_id _ uc.buffers d)

count-add_tokens :
    (uc : PersistSession) (ts : List TokenEvent) → (add_tokens uc ts).count ≡ uc.count + length ts
unfolding add_tokens add_token
count-add_tokens uc [] = omega arith
count-add_tokens uc (t ∷ ts) = omega (arith, count-add_tokens (add_token uc t) ts)

-- From an empty buffer, ShouldFlush answers true exactly when at least `threshold` tokens have been
-- added, whatever their requests.
pub should_flush-add_tokens :
    (ts : List TokenEvent) (threshold : ℕ)
    → (should_flush (add_tokens new_persist_session ts) threshold ≡ true) ↔ (threshold ≤ length ts)
unfolding should_flush new_persist_session
should_flush-add_tokens ts threshold = ground (arith, count-add_tokens new_persist_session ts)
