-- ===== src/StreamingWorker/Processors.antt =====
-- Each request has one goroutine at a time.
use golang_learning.Prelude.{
  ℕ, GoString, GoMap, lookup, insert, delete, lookup-insert, lookup-delete, ◌==◌, eq_iff, eq_refl,
  List, [], ◌∷◌, map, none, some, In, here, there, All, AllDistinct, ◌≡◌, ◌≢◌, refl, sym, ap, arith,
  subst, Option-cases, inl, inr, ◌⊎◌, Bool-cases,
}
use golang_learning.StreamingWorker.{
  StreamToken, Processor, StreamingWorker, new_streaming_worker, route, remove_at, leave_at, Step,
  routes, sends, abandons, take, take_last, give_up, exit, Reach, start, next,
}

abbrev ids : List Processor → List GoString
ids = map (λ p. p.request_id)

-- The channel of every goroutine is that of its request in the map; no request has two goroutines;
-- and every channel of the map has a goroutine.
pub record IsValid (w : StreamingWorker) : Type 0 where
  pub listed : All (λ p. lookup p.request_id w.channels ≡ some p.channel) w.processors
  single : AllDistinct (ids w.processors)
  served : (id : GoString) (c : ℕ) → lookup id w.channels ≡ some c → In id (ids w.processors)

new-IsValid : IsValid new_streaming_worker
unfolding new_streaming_worker lookup
new-IsValid = record { listed = tt; single = tt; served = λ id c e. cc }

module _ (channels : GoMap ℕ) where
  abbrev Listed : List Processor → Type 0
  Listed = All (λ p. lookup p.request_id channels ≡ some p.channel)

  leave_at-Listed :
      {p : Processor} (ps : List Processor) (i : In p ps) → Listed ps → Listed (leave_at ps i)
  unfolding leave_at
  leave_at-Listed [] i l = elim i [ ]
  leave_at-Listed (p ∷ ps) here l = l
  leave_at-Listed (p ∷ ps) (there i) l = (l.0, leave_at-Listed ps i l.1)

  -- An id that no goroutine has is new to the list.
  absent :
      (id : GoString) (ps : List Processor)
      → lookup id channels ≡ none
      → Listed ps
      → All (λ j. id ≢ j) (ids ps)
  absent id [] e l = tt
  absent id (p ∷ ps) e l = (λ same. ground arith, absent id ps e l.1)

  insert-Listed :
      (id : GoString) (c : ℕ) (ps : List Processor)
      → lookup id channels ≡ none
      → Listed ps
      → All (λ p. lookup p.request_id (insert id c channels) ≡ some p.channel) ps
  insert-Listed id c [] e l = tt
  insert-Listed id c (p ∷ ps) e l = (
    ground (arith, lookup-insert id p.request_id c channels, eq_iff id p.request_id),
    insert-Listed id c ps e l.1,
  )

  delete-Listed :
      (id : GoString) (ps : List Processor)
      → All (λ j. id ≢ j) (ids ps)
      → Listed ps
      → All (λ p. lookup p.request_id (delete id channels) ≡ some p.channel) ps
  delete-Listed id [] d l = tt
  delete-Listed id (p ∷ ps) d l = (
    ground (arith, lookup-delete id p.request_id channels, eq_iff id p.request_id, d.0),
    delete-Listed id ps d.1 l.1,
  )

ids-leave_at : {p : Processor} (ps : List Processor) (i : In p ps) → ids (leave_at ps i) ≡ ids ps
unfolding leave_at
ids-leave_at [] i = elim i [ ]
ids-leave_at (p ∷ ps) here = refl
ids-leave_at (p ∷ ps) (there i) = ap (◌∷◌ p.request_id) (ids-leave_at ps i)

module _ (P : Processor → Type 0) where
  pub remove_at-All :
      {p : Processor} (ps : List Processor) (i : In p ps) → All P ps → All P (remove_at ps i)
  unfolding remove_at
  remove_at-All [] i h = elim i [ ]
  remove_at-All (p ∷ ps) here h = h.1
  remove_at-All (p ∷ ps) (there i) h = (h.0, remove_at-All ps i h.1)

module _ (P : GoString → Type 0) where
  remove_at-All_ids :
      {p : Processor} (ps : List Processor) (i : In p ps)
      → All P (ids ps)
      → All P (ids (remove_at ps i))
  unfolding remove_at
  remove_at-All_ids [] i h = elim i [ ]
  remove_at-All_ids (p ∷ ps) here h = h.1
  remove_at-All_ids (p ∷ ps) (there i) h = (h.0, remove_at-All_ids ps i h.1)

  All-ids : {p : Processor} (ps : List Processor) (i : In p ps) → All P (ids ps) → P p.request_id
  All-ids [] i h = elim i [ ]
  All-ids (p ∷ ps) here h = h.0
  All-ids (p ∷ ps) (there i) h = All-ids ps i h.1

remove_at-single :
    {p : Processor} (ps : List Processor) (i : In p ps)
    → AllDistinct (ids ps)
    → AllDistinct (ids (remove_at ps i)) × All (λ j. p.request_id ≢ j) (ids (remove_at ps i))
unfolding remove_at
remove_at-single [] i d = elim i [ ]
remove_at-single (p ∷ ps) here d = (d.1, d.0)
remove_at-single {p} (q ∷ ps) (there i) d =
    let (rest, away) = remove_at-single ps i d.1 in
    (
      (remove_at-All_ids (λ j. q.request_id ≢ j) ps i d.0, rest),
      (λ e. All-ids (λ j. q.request_id ≢ j) ps i d.0 (sym e), away),
    )

In-cases : {A : Type 0} {a x : A} {xs : List A} → In a (x ∷ xs) → (x ≡ a) ⊎ In a xs
In-cases here = inl refl
In-cases (there i) = inr i

In-remove_at :
    {p : Processor} (id : GoString) (ps : List Processor) (i : In p ps)
    → p.request_id ≢ id
    → In id (ids ps)
    → In id (ids (remove_at ps i))
unfolding remove_at
In-remove_at id [] i ne j = elim i [ ]
In-remove_at id (p ∷ ps) here ne j = elim (In-cases j) [
  | inl same ↦ absurd (ne same)
  | inr later ↦ later
]
In-remove_at id (q ∷ ps) (there i) ne j = elim (In-cases j) [
  | inl same ↦ subst (λ k. In k (q.request_id ∷ ids (remove_at ps i))) same here
  | inr later ↦ there (In-remove_at id ps i ne later)
]

route-IsValid : (token : StreamToken) (w : StreamingWorker) → IsValid w → IsValid (route token w)
unfolding route
route-IsValid token w v = elim (Option-cases (lookup token.request_id w.channels)) [
  | inl fresh ↦
      rw (fresh, route)
        (record {
          listed = (
            ground (
              arith,
              lookup-insert token.request_id token.request_id w.next_channel w.channels,
              eq_refl token.request_id,
            ),
            insert-Listed w.channels token.request_id w.next_channel w.processors fresh v.listed,
          );
          single = (absent w.channels token.request_id w.processors fresh v.listed, v.single);
          served = λ id c e. elim (Bool-cases (token.request_id == id)) [
            | inl same ↦
                subst (λ k. In k (token.request_id ∷ ids w.processors))
                  ((eq_iff token.request_id id).0 same) here
            | inr other ↦ there (
                v.served id c
                  (ground (arith, lookup-insert token.request_id id w.next_channel w.channels)))
          ];
        })
  | inr (c, known) ↦
      rw (known, route) (record { listed = v.listed; single = v.single; served = v.served })
]

exit-IsValid :
    {p : Processor} (w : StreamingWorker) (i : In p w.processors)
    → IsValid w
    → IsValid (record w {
      processors = remove_at w.processors i;
      channels = delete p.request_id w.channels;
    })
exit-IsValid {p} w i v =
    let (single, away) = remove_at-single w.processors i v.single in
    record {
      listed = delete-Listed w.channels p.request_id (remove_at w.processors i) away (
          remove_at-All (λ q. lookup q.request_id w.channels ≡ some q.channel) w.processors i
            v.listed);
      single = single;
      served = λ id c e.
          In-remove_at id w.processors i
            (λ same.
              ground (arith, lookup-delete p.request_id id w.channels, eq_iff p.request_id id))
            (v.served id c
              (ground (arith, lookup-delete p.request_id id w.channels, eq_iff p.request_id id)));
    }

Step-IsValid : {w v : StreamingWorker} → Step w v → IsValid w → IsValid v
Step-IsValid {w} (routes token e) v = route-IsValid token w v
Step-IsValid (sends e l) v = record { listed = v.listed; single = v.single; served = v.served }
Step-IsValid abandons v = record { listed = v.listed; single = v.single; served = v.served }
Step-IsValid (take i a b c) v = record { listed = v.listed; single = v.single; served = v.served }
Step-IsValid {w} (take_last i a b c) v = record {
  listed = leave_at-Listed w.channels w.processors i v.listed;
  single = subst AllDistinct (sym (ids-leave_at w.processors i)) v.single;
  served = λ id c e. subst (In id) (sym (ids-leave_at w.processors i)) (v.served id c e);
}
Step-IsValid {w} (give_up i a) v = record {
  listed = leave_at-Listed w.channels w.processors i v.listed;
  single = subst AllDistinct (sym (ids-leave_at w.processors i)) v.single;
  served = λ id c e. subst (In id) (sym (ids-leave_at w.processors i)) (v.served id c e);
}
Step-IsValid {w} (exit i a) v = exit-IsValid w i v

pub Reach-IsValid : {w : StreamingWorker} → Reach w → IsValid w
Reach-IsValid start = new-IsValid
Reach-IsValid (next r s) = Step-IsValid s (Reach-IsValid r)

-- In every reachable state no request has two goroutines, each goroutine reads the channel that the
-- map has for its request, and every channel of the map has a goroutine: so Execute runs in one
-- goroutine per request.
pub one_processor_each :
    {w : StreamingWorker}
    → Reach w
    → AllDistinct (map (λ p. p.request_id) w.processors)
      × All (λ p. lookup p.request_id w.channels ≡ some p.channel) w.processors
      × ((id : GoString) (c : ℕ)
          → lookup id w.channels ≡ some c
          → In id (map (λ p. p.request_id) w.processors))
one_processor_each r = let v = Reach-IsValid r in (v.single, v.listed, v.served)
