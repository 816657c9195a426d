-- ===== src/AsyncLogger/Entries.antt =====
-- Which entries are logged, and in which order.
use golang_learning.Prelude.{
  ◌≤◌, ◌<◌, ltb, List, [], ◌∷◌, ◌++◌, append_assoc, rev, rev-push, Sub, none_left, keep, skip,
  length, length-append, ◌≡◌, ◌⊎◌, inl, inr, refl, ap, ◌∙◌, subst, arith, Bool-cases,
}
use golang_learning.AsyncLogger.{
  LogEntry, AsyncLogger, new_async_logger, after_request, channel_capacity, Step, serves, logs,
  Reach, start, next,
}

-- The entries that have been logged or wait to be, the latest first.
abbrev pub accepted : AsyncLogger → List LogEntry
accepted l = rev l.channel ++ l.logged

record IsValid (l : AsyncLogger) : Type 0 where
  bounded : length l.channel ≤ channel_capacity
  in_order : Sub (accepted l) l.served
  none_lost : (accepted l ≡ l.served) ⊎ (channel_capacity < length l.served)
  counted : length (accepted l) ≤ length l.served
  waiting : length l.channel ≤ length (accepted l)

length-rev : (xs : List LogEntry) → length (rev xs) ≡ length xs
length-rev [] = refl
length-rev (x ∷ xs) = omega (arith, length-rev xs, length-append (rev xs) (x ∷ []))

after_request-IsValid : (e : LogEntry) (l : AsyncLogger) → IsValid l → IsValid (after_request e l)
unfolding after_request
after_request-IsValid e l v = elim (Bool-cases (ltb (length l.channel) channel_capacity)) [
  | inl room ↦
      let grown = rev-push l.channel e in
      let longer = length-append l.channel (e ∷ []) in
      rw (room, after_request)
        (record {
          bounded = ground (arith, longer, v.bounded);
          in_order = rw grown (keep e v.in_order);
          none_lost = elim v.none_lost [
            | inl same ↦ inl (ap (λ xs. xs ++ l.logged) grown ∙ ap (◌∷◌ e) same)
            | inr many ↦ inr (omega (arith, many))
          ];
          counted = rw grown (omega (arith, v.counted));
          waiting = rw grown (omega (arith, longer, v.waiting));
        })
  | inr full ↦
      rw (full, after_request)
        (record {
          bounded = v.bounded;
          in_order = skip v.in_order;
          none_lost = inr (ground (arith, v.counted, v.waiting));
          counted = omega (arith, v.counted);
          waiting = v.waiting;
        })
]

logs-IsValid :
    (e : LogEntry) (rest : List LogEntry) (l : AsyncLogger)
    → l.channel ≡ e ∷ rest
    → IsValid l
    → IsValid (record l { channel = rest; logged = e ∷ l.logged })
logs-IsValid e rest l first v =
    let moved : accepted l ≡ rev rest ++ e ∷ l.logged =
      ap (λ c. rev c ++ l.logged) first ∙ append_assoc (rev rest) (e ∷ []) l.logged in
    let shorter = ap length first in
    record {
      bounded = omega (arith, v.bounded, shorter);
      in_order = subst (λ xs. Sub xs l.served) moved v.in_order;
      none_lost =
          subst (λ xs. (xs ≡ l.served) ⊎ (channel_capacity < length l.served)) moved v.none_lost;
      counted = subst (λ xs. length xs ≤ length l.served) moved v.counted;
      waiting = omega (arith, length-append (rev rest) (e ∷ l.logged), length-rev rest);
    }

Step-IsValid : {l m : AsyncLogger} → Step l m → IsValid l → IsValid m
Step-IsValid {l} (serves e) v = after_request-IsValid e l v
Step-IsValid {l} (logs {e} {rest} first) v = logs-IsValid e rest l first v

Reach-IsValid : {l : AsyncLogger} → Reach l → IsValid l
unfolding new_async_logger
Reach-IsValid start = record {
  bounded = omega arith;
  in_order = none_left;
  none_lost = inl refl;
  counted = omega arith;
  waiting = omega arith;
}
Reach-IsValid (next r s) = Step-IsValid s (Reach-IsValid r)

-- At any time the entries that have been logged or wait are entries of requests, each at most as
-- often as it came and in the order of the requests; no more than 8192 wait, and as long as there
-- have been no more than 8192 requests, none has been dropped.
pub entries_in_order :
    {l : AsyncLogger}
    → Reach l
    → Sub (accepted l) l.served
      × (length l.channel ≤ channel_capacity)
      × (length l.served ≤ channel_capacity → accepted l ≡ l.served)
entries_in_order r =
    let v = Reach-IsValid r in
    (
      v.in_order,
      v.bounded,
      λ few. elim v.none_lost [ inl same ↦ same | inr many ↦ absurd (omega (arith, many)) ],
    )
