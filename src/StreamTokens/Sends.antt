-- ===== src/StreamTokens/Sends.antt =====
-- All that Execute sends for one request.
use golang_learning.Prelude.{
  GoString, lookup, none, some, true, false, List, [], ◌∷◌, ◌++◌, append_assoc, map, All, ◌≡◌, refl,
  sym, ◌∙◌, arith, subst,
}
use golang_learning.Domain.{TokenEvent, ok}
use golang_learning.StreamTokens.{
  Remote, StreamTokens, continue, get_or_open_stream, execute, send_token, message,
}
use golang_learning.StreamTokens.Relay.{
  RemoteLaws, execute_all, execute_all-cons, execute_all-step, continue-eq-ok, opened, sends_one,
  get_or_open_stream-cached,
}

module _ {r : Remote} (laws : RemoteLaws r) where
  open laws use {sent, ended}

  -- Tokens of one request on its cached stream, the last of them at the end.
  relayed_from :
      (id : GoString) (stream : r.Stream) (ts : List TokenEvent) (last : TokenEvent)
      (s s' : StreamTokens r)
      → lookup id s.streams ≡ some stream
      → All (λ t. (t.request_id ≡ id) × (t.done ≡ false)) ts
      → (last.request_id ≡ id) × (last.done ≡ true)
      → execute_all r (ts ++ last ∷ []) s ≡ some s'
      → (sent stream s'.world ≡ sent stream s.world ++ map (message r) (ts ++ last ∷ []))
        × (ended stream s'.world ≡ true)
  unfolding execute_all
  relayed_from id stream [] last s s' cached all (own, done) e =
      let (s₁, first, rest) = execute_all-cons r last [] s s' e in
      let is : s₁ ≡ s' = ground arith in
      let (more, _, ends) = sends_one laws last stream s s₁ (rw own cached) first in
      (rw (← is) more, rw (← is) (ends done))
  relayed_from id stream (t ∷ ts) last s s' cached ((own, going), all) final e =
      let (s₁, first, rest) = execute_all-cons r t (ts ++ last ∷ []) s s' e in
      let (more, kept, _) = sends_one laws t stream s s₁ (rw own cached) first in
      let (grown, ends) =
        relayed_from id stream ts last s₁ s'
          (subst (λ j. lookup j s₁.streams ≡ some stream) own (kept going)) all final rest in
      (
        grown
            ∙ rw more (
                append_assoc (sent stream s.world) (message r t ∷ [])
                  (map (message r) (ts ++ last ∷ []))),
        ends,
      )

  -- A token that opens the stream does what it does on the cached stream.
  execute-opened :
      (token : TokenEvent) (s s₁ : StreamTokens r) (stream : r.Stream)
      → get_or_open_stream r token.request_id s ≡ (s₁, ok stream)
      → lookup token.request_id s₁.streams ≡ some stream
      → execute r token s ≡ execute r token s₁
  unfolding execute
  execute-opened token s s₁ stream opens cached =
      rw (opens, get_or_open_stream-cached laws token.request_id stream s₁ cached) refl

  -- The first token opens the stream, and all is as if it had been open.
  from_first :
      (token : TokenEvent) (ts : List TokenEvent) (s s' : StreamTokens r)
      → lookup token.request_id s.streams ≡ none
      → execute_all r (token ∷ ts) s ≡ some s'
      → (s₁ : StreamTokens r) × (stream : r.Stream) × (lookup token.request_id s₁.streams
          ≡ some stream)
        × (sent stream s₁.world ≡ [])
        × (execute_all r (token ∷ ts) s₁ ≡ some s')
  unfolding execute_all
  from_first token ts s s' missing e =
      let (s₂, first, rest) = execute_all-cons r token ts s s' e in
      let found = get_or_open_stream r token.request_id s in
      let run : continue r (send_token r token) found ≡ (s₂, ok tt) = unfold execute in first in
      let (stream, opens, _) = continue-eq-ok r (send_token r token) found run in
      let (cached, empty) = opened laws token.request_id s found.0 stream missing opens in
      let same = execute-opened token s found.0 stream opens cached in
      (
        found.0,
        stream,
        cached,
        empty,
        execute_all-step r token ts found.0 s₂ (sym same ∙ first) ∙ rest,
      )

  -- If the tokens of a request, the last of them at the end, are handed to Execute one after the
  -- other and none fails, then all of them have been sent on one stream, each once and in their
  -- order, nothing else has been sent on it, and it has been ended.
  pub execute_all-sends :
      (id : GoString) (ts : List TokenEvent) (last : TokenEvent) (s s' : StreamTokens r)
      → lookup id s.streams ≡ none
      → All (λ t. (t.request_id ≡ id) × (t.done ≡ false)) ts
      → (last.request_id ≡ id) × (last.done ≡ true)
      → execute_all r (ts ++ last ∷ []) s ≡ some s'
      → (stream : r.Stream) × (sent stream s'.world ≡ map (message r) (ts ++ last ∷ []))
        × (ended stream s'.world ≡ true)
  execute_all-sends id [] last s s' missing all final e =
      let (s₁, stream, cached, empty, e₁) = from_first last [] s s' (rw final.0 missing) e in
      let (all_sent, ends) =
        relayed_from id stream [] last s₁ s'
          (subst (λ j. lookup j s₁.streams ≡ some stream) final.0 cached) tt final e₁ in
      (stream, rw empty at all_sent, ends)
  execute_all-sends id (t ∷ ts) last s s' missing all final e =
      let (s₁, stream, cached, empty, e₁) =
        from_first t (ts ++ last ∷ []) s s' (rw all.0.0 missing) e in
      let (all_sent, ends) =
        relayed_from id stream (t ∷ ts) last s₁ s'
          (subst (λ j. lookup j s₁.streams ≡ some stream) all.0.0 cached) all final e₁ in
      (stream, rw empty at all_sent, ends)
