-- ===== src/Persist/Race.antt =====
-- Two flushes of PersistSessionUseCase whose reads and writes interleave.
use golang_learning.Prelude.{
  GoString, GoMap, MapOrder, lookup, Distinct, ◌++◌, some, ◌≡◌, ◌∙◌, ap, Option,
}
use golang_learning.Domain.{role_assistant, ok}
use golang_learning.Store.Interface.{IMessageStore, MessageStoreLaws}
use golang_learning.Persist.{TokenBuffer, or_empty, read_existing, write_merged}
use golang_learning.Persist.Flush.{write_merged-writes}

module _ {store : IMessageStore} (laws : MessageStoreLaws store)
    (first second : MapOrder TokenBuffer) (early late : GoMap TokenBuffer) (db db₁ : store.Db) where
  open laws use {content}

  -- Two snapshots hold text of one request. If the second flush reads after the write of the first,
  -- the stored answer has both texts in order; if both read before either writes, the second write
  -- drops the text of the first flush.
  pub interleaved-loses_text :
      Distinct early
      → Distinct late
      → write_merged store first second early (read_existing store first second early db) db
        ≡ (db₁, ok tt)
      → (serial racy : store.Db)
      → write_merged store first second late (read_existing store first second late db₁) db₁
        ≡ (serial, ok tt)
      → write_merged store first second late (read_existing store first second late db) db₁
        ≡ (racy, ok tt)
      → (id : GoString) (a b : TokenBuffer) → lookup id early ≡ some a
      → lookup id late ≡ some b
      → let before = or_empty (content db id role_assistant) in
        (content serial id role_assistant ≡ some (before ++ a.content ++ b.content))
        × (content racy id role_assistant ≡ some (before ++ b.content))
  interleaved-loses_text d e w₁ serial racy ws wr id a b ha hb =
      let (_, one) = write_merged-writes laws first second early d db db db₁ w₁ id a ha in
      let (_, two) = write_merged-writes laws first second late e db₁ db₁ serial ws id b hb in
      let (_, race) = write_merged-writes laws first second late e db db₁ racy wr id b hb in
      (two ∙ ap (λ (o : Option GoString). some (or_empty o ++ b.content)) one, race)
