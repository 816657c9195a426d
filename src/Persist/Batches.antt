-- ===== src/Persist/Batches.antt =====
-- The whole persistence path: tokens come in batches, each followed by a flush.
use golang_learning.Prelude.{
  GoString, MapOrder, ◌==◌, lookup, List, [], ◌∷◌, ◌++◌, append_assoc, append-nil, Option, none,
  some, ◌≡◌, refl, sym, ap, ◌∙◌, arith, concat, Distinct, Bool-cases, inl, inr, subst,
}
use mathlib.Core.Path.{◌≡⟨◌⟩◌, ◌∎}
use golang_learning.Domain.{TokenEvent, role_assistant, Result, Result-cases, ok, err}
use golang_learning.Store.Interface.{IMessageStore, MessageStoreLaws}
use golang_learning.Persist.{TokenBuffer, PersistSession, or_empty, flush}
use golang_learning.Persist.Buffers.{
  add_tokens, tokens_for, text, extended, lookup-add_tokens, add_tokens-Distinct,
}
use golang_learning.Persist.Flush.{Flushed, flush-Flushed}

concat-append : (xs ys : List GoString) → concat (xs ++ ys) ≡ concat xs ++ concat ys
concat-append [] ys = refl
concat-append (x ∷ xs) ys = rw (concat-append xs ys, append_assoc) refl

text-append : (ts us : List TokenEvent) → text (ts ++ us) ≡ text ts ++ text us
text-append [] us = refl
text-append (t ∷ ts) us = rw (text-append ts us) (sym (append_assoc t.delta (text ts) (text us)))

tokens_for-append :
    (id : GoString) (ts us : List TokenEvent)
    → tokens_for id (ts ++ us) ≡ tokens_for id ts ++ tokens_for id us
unfolding tokens_for
tokens_for-append id [] us = refl
tokens_for-append id (t ∷ ts) us = elim (Bool-cases (t.request_id == id)) [
  | inl own ↦ rw own (ap (◌∷◌ t) (tokens_for-append id ts us))
  | inr other ↦ rw other (tokens_for-append id ts us)
]

-- The text of a request in a stream of tokens.
abbrev pub text_for : GoString → List TokenEvent → GoString
text_for id ts = text (tokens_for id ts)

pub text_for-append :
    (id : GoString) (ts us : List TokenEvent)
    → text_for id (ts ++ us) ≡ text_for id ts ++ text_for id us
text_for-append id ts us =
    rw (tokens_for-append id ts us) (text-append (tokens_for id ts) (tokens_for id us))

module _ (store : IMessageStore) (first second : MapOrder TokenBuffer) where
  -- Each batch is added token by token and then flushed; `none` means that a flush has failed.
  unfoldable pub run_batches :
      List (List TokenEvent) → PersistSession → store.Db → Option (PersistSession × store.Db)
  run_batches [] uc db = some (uc, db)
  run_batches (ts ∷ batches) uc db =
      let (uc', db', result) = flush store first second (add_tokens uc ts) db in
      elim result [ ok _ ↦ run_batches batches uc' db' | err _ ↦ none ]

module _ {store : IMessageStore} (laws : MessageStoreLaws store)
    (first second : MapOrder TokenBuffer) where
  open laws use {content}

  -- What the store holds of the assistant's answer to a request.
  abbrev pub answer : store.Db → GoString → GoString
  answer db id = or_empty (content db id role_assistant)

  grown :
      (id : GoString) (db db' : store.Db) (ts : List TokenEvent)
      → Flushed laws first second (extended none ts) id db db'
      → answer db' id ≡ answer db id ++ text ts
  grown id db db' [] h = rw (h role_assistant) (sym (append-nil (answer db id)))
  grown id db db' (t ∷ ts) h = ap or_empty h.1

  batch :
      (uc uc' : PersistSession) (db db' : store.Db) (ts : List TokenEvent)
      → uc.buffers ≡ []
      → flush store first second (add_tokens uc ts) db ≡ (uc', db', ok tt)
      → (uc'.buffers ≡ []) × ((id : GoString) → answer db' id ≡ answer db id ++ text_for id ts)
  unfolding lookup
  batch uc uc' db db' ts e h =
      let distinct : Distinct uc.buffers = subst Distinct (sym e) tt in
      let (emptied, flushed) =
        flush-Flushed laws first second (add_tokens uc ts) uc' db db'
          (add_tokens-Distinct uc ts distinct) h in
      (
        emptied,
        λ id. grown id db db' (tokens_for id ts) (
            subst (λ o. Flushed laws first second o id db db')
              (lookup-add_tokens uc ts id ∙ ap (λ m. extended (lookup id m) (tokens_for id ts)) e)
              (flushed id)),
      )

  -- A run over one more batch has flushed it, and goes on from there.
  run_batches-cons :
      (batches : List (List TokenEvent)) (ts : List TokenEvent) (uc : PersistSession)
      (db : store.Db) (end : PersistSession × store.Db)
      → run_batches store first second (ts ∷ batches) uc db ≡ some end
      → let outcome = flush store first second (add_tokens uc ts) db in
        (outcome.2 ≡ ok tt)
        × (run_batches store first second batches outcome.0 outcome.1 ≡ some end)
  unfolding run_batches
  run_batches-cons batches ts uc db end h =
      elim (Result-cases (flush store first second (add_tokens uc ts) db).2) [
        | inl (_, fine) ↦ (fine, rw (fine, run_batches) at h)
        | inr (x, failed) ↦ absurd (ground arith)
      ]

  -- However a stream of tokens is cut into batches, if all flushes succeed the stored answer of
  -- every request ends up as it was, followed by the texts of all its tokens in their order; so the
  -- thresholds and the timer have no effect on what is stored.
  pub answer-run_batches :
      (batches : List (List TokenEvent)) (uc uc' : PersistSession) (db db' : store.Db)
      → uc.buffers ≡ []
      → run_batches store first second batches uc db ≡ some (uc', db')
      → (id : GoString) → answer db' id ≡ answer db id ++ text_for id (concat batches)
  unfolding run_batches tokens_for
  answer-run_batches [] uc uc' db db' e h id =
      ap (λ (d : store.Db). answer d id) (ground arith) ∙ sym (append-nil (answer db id))
  answer-run_batches (ts ∷ batches) uc uc' db db' e h id =
      let outcome = flush store first second (add_tokens uc ts) db in
      let (fine, rest) = run_batches-cons batches ts uc db (uc', db') h in
      let (emptied, grew) =
        batch uc outcome.0 db outcome.1 ts e
          (ap (λ (r : Result (Unit {0})). (outcome.0, outcome.1, r)) fine) in
      answer db' id
      ≡⟨ answer-run_batches batches outcome.0 uc' outcome.1 db' emptied rest id ⟩
        answer outcome.1 id ++ text_for id (concat batches)
      ≡⟨ rw (grew id, append_assoc) refl ⟩
        answer db id ++ (text_for id ts ++ text_for id (concat batches))
      ≡⟨ rw (text_for-append id ts (concat batches)) refl ⟩
        answer db id ++ text_for id (ts ++ concat batches) ∎
