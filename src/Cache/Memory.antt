-- ===== src/Cache/Memory.antt =====
-- A Redis in memory that keeps a map of strings and one of sorted sets, and a codec, to run the
-- gateways on.
use golang_learning.Prelude.{
  ℕ, ◌<◌, map, delete, eq_iff, All, true, ◌≢◌, ◌⊎◌, sym, ◌∙◌, ◌==◌, zero, suc, ◌≤◌, GoString, GoMap,
  lookup, insert, lookup-insert, eq_refl, List, [], ◌∷◌, ◌++◌, Option, none, some, length, leb,
  if◌then◌else◌, ◌≡◌, refl, ap, arith, inl, inr, Bool-cases,
}
use golang_learning.Domain.{redis_nil, Result, ok, err}
use golang_learning.Cache.{MessageRecord, RecordCodec}
use golang_learning.Cache.Client.{Redis, RedisLaws, RedisFrames}

pub record World : Type 0 where
  pub strings : GoMap GoString
  pub sets : GoMap (List (ℕ × GoString))

-- The last `n` members.
abbrev pub last : ℕ → List GoString → List GoString
last n [] = []
last n (x ∷ xs) = if leb (length (x ∷ xs)) n then x ∷ xs else last n xs

-- A sorted set without a member, and with one at its place.
abbrev pub without : GoString → List (ℕ × GoString) → List (ℕ × GoString)
without m [] = []
without m ((t, n) ∷ set) = let rest = without m set in if n == m then rest else (t, n) ∷ rest

abbrev pub place : ℕ → GoString → List (ℕ × GoString) → List (ℕ × GoString)
place s m [] = (s, m) ∷ []
place s m ((t, n) ∷ set) =
    let rest = place s m set in if leb t s then (t, n) ∷ rest else (s, m) ∷ (t, n) ∷ set

abbrev pub set_of : Option (List (ℕ × GoString)) → List (ℕ × GoString)
set_of none = []
set_of (some set) = set

abbrev pub sorted_set : GoString → World → List (ℕ × GoString)
sorted_set k w = set_of (lookup k w.sets)

abbrev pub members : List (ℕ × GoString) → List GoString
members = map (λ (p : ℕ × GoString). p.1)

abbrev pub found_or_nil : Option GoString → Result GoString
found_or_nil none = err redis_nil
found_or_nil (some v) = ok v

abbrev pub in_memory : Redis
in_memory = record {
  World = World;
  stored = λ k w. lookup k w.strings;
  set_ex = λ k v ttl w. record w { strings = insert k v w.strings };
  eval = λ f w. ((f w).0, ok (f w).1);
  set = λ k v ttl w. (record w { strings = insert k v w.strings }, ok tt);
  get = λ k w. found_or_nil (lookup k w.strings);
  z_add = λ k score m w.
      (record w { sets = insert k (place score m (without m (sorted_set k w))) w.sets }, ok tt);
  expire = λ k ttl w. (w, ok tt);
  del = λ k w. (record w { sets = delete k w.sets }, ok tt);
  z_range = λ k n m w. ok (last n (members (sorted_set k w)));
}

last_lem :
    (n : ℕ) (xs : List GoString)
    → (length (last n xs) ≤ n)
      × ((before : List GoString) × (xs ≡ before ++ last n xs)
          × ((before ≡ []) ⊎ (length (last n xs) ≡ n)))
last_lem n [] = (omega arith, ([], refl, inl refl))
last_lem n (x ∷ xs) = elim (Bool-cases (leb (length (x ∷ xs)) n)) [
  | inl small ↦ rw small (ground arith, ([], refl, inl refl))
  | inr large ↦
      let (short, (before, e, whole)) = last_lem n xs in
      rw large (
        short,
        (
          x ∷ before,
          ap (◌∷◌ x) e,
          elim whole [ inl none_before ↦ inr (ground (arith, e, short)) | inr full ↦ inr full ],
        ),
      )
]

abbrev IsNew : ℕ → GoString → List (ℕ × GoString) → Type 0
IsNew score m = All (λ (p : ℕ × GoString). (p.0 < score) × (p.1 ≢ m))

without-new :
    (score : ℕ) (m : GoString) (set : List (ℕ × GoString)) → IsNew score m set → without m set ≡ set
without-new score m [] h = refl
without-new score m ((t, n) ∷ set) h =
    ground (arith, without-new score m set h.1, eq_iff n m, h.0.1)

place-new :
    (score : ℕ) (m : GoString) (set : List (ℕ × GoString))
    → IsNew score m set
    → place score m set ≡ set ++ (score, m) ∷ []
place-new score m [] h = refl
place-new score m ((t, n) ∷ set) h =
    let later : leb t score ≡ true = ground (arith, h.0.0) in
    rw later (ap (◌∷◌ (t, n)) (place-new score m set h.1))

pub in_memory_laws : RedisLaws in_memory
in_memory_laws = record {
  stored-set_ex = λ k v ttl w. set_ex_lem k v w;
  eval_ok = λ f w w' n e. ground arith;
  get_found = λ k v w e. ground arith;
  get_missing = λ k w e. ground arith;
  entries = sorted_set;
  z_add_new = λ k score m w w' e h. z_add_lem k score m w w' e h;
  expire_keeps = λ k j ttl w lasts. refl;
  z_range_last = λ k n w found e. last_found k n w found e;
}
  where
    set_ex_lem : (k v : GoString) (w : World) → lookup k (insert k v w.strings) ≡ some v
    set_ex_lem k v w = ground (arith, lookup-insert k k v w.strings, eq_refl k)

    z_add_lem :
        (k : GoString) (score : ℕ) (m : GoString) (w w' : World)
        → in_memory.z_add k score m w ≡ (w', ok tt)
        → IsNew score m (sorted_set k w)
        → sorted_set k w' ≡ sorted_set k w ++ (score, m) ∷ []
    z_add_lem k score m w w' e h =
        let set = sorted_set k w in
        let is : lookup k (insert k (place score m (without m set)) w.sets)
            ≡ some (place score m (without m set)) =
          ground (arith, lookup-insert k k (place score m (without m set)) w.sets, eq_refl k) in
        ap (sorted_set k) (sym (ap (λ (p : World × Result (Unit {0})). p.0) e))
        ∙ ap set_of is
        ∙ ap (place score m) (without-new score m set h)
        ∙ place-new score m set h

    last_found :
        (k : GoString) (n : ℕ) (w : World) (found : List GoString)
        → ◌≡◌ {A = Result (List GoString)} (ok (last n (members (sorted_set k w)))) (ok found)
        → (length found ≤ n)
          × ((before : List GoString) × (members (sorted_set k w) ≡ before ++ found)
              × ((before ≡ []) ⊎ (length found ≡ n)))
    last_found k n w found e =
        let same : last n (members (sorted_set k w)) ≡ found = ground arith in
        rw same at (last_lem n (members (sorted_set k w)))

pub entries-in_memory : (k : GoString) (w : World) → in_memory_laws.entries k w ≡ sorted_set k w
unfolding in_memory_laws
entries-in_memory k w = refl

pub in_memory_frames : RedisFrames in_memory
in_memory_frames = record {
  set_ex_other = λ k j v ttl w ne. lookup-other k j v w ne;
  set_other = λ k j v ttl w ne. lookup-other k j v w ne;
  eval_runs = λ f w. inr refl;
}
  where
    lookup-other :
        (k j v : GoString) (w : World)
        → k ≢ j
        → lookup j (insert k v w.strings) ≡ lookup j w.strings
    lookup-other k j v w ne = ground (arith, lookup-insert k j v w.strings, eq_iff k j)

-- A codec that can tell three strings apart: each byte is followed by a mark, 1 inside a string and
-- 0 at its end.
abbrev pub write : GoString → GoString → GoString
write [] rest = 0 ∷ rest
write (b ∷ s) rest = 1 ∷ b ∷ write s rest

abbrev pub before : ℕ → Option (GoString × GoString) → Option (GoString × GoString)
before b none = none
before b (some (s, rest)) = some (b ∷ s, rest)

abbrev pub read : GoString → Option (GoString × GoString)
read [] = none
read (zero ∷ rest) = some ([], rest)
read (suc k ∷ []) = none
read (suc k ∷ b ∷ s) = before b (read s)

pub read-write : (s rest : GoString) → read (write s rest) ≡ some (s, rest)
read-write [] rest = refl
read-write (b ∷ s) rest = ap (before b) (read-write s rest)

infixl 5 ◌>>=◌
abbrev pub ◌>>=◌ : {A B : Type 0} → Option A → (A → Option B) → Option B
none >>= f = none
some a >>= f = f a

abbrev pub read_record : GoString → Option MessageRecord
read_record s = read s >>= λ r. read r.1 >>= λ c.
    read c.1 >>= λ i. some (record { role = r.0; content = c.0; request_id = i.0 })

pub read_record-write :
    (m : MessageRecord)
    → read_record (write m.role (write m.content (write m.request_id []))) ≡ some m
read_record-write m =
    rw
      (
        read-write m.role (write m.content (write m.request_id [])),
        read-write m.content (write m.request_id []),
        read-write m.request_id [],
      )
      refl

abbrev pub codec : RecordCodec
codec = record {
  marshal = λ m. write m.role (write m.content (write m.request_id []));
  unmarshal = read_record;
  valid = λ s. true;
  unmarshal-marshal = λ m f g h. read_record-write m;
}
