-- ===== src/StreamTokens/Connections.antt =====
-- getConn of internal/usecase/stream_tokens.go as the goroutines of several requests call it at
-- once: it reads the map under one lock, makes a client without a lock, and stores it under
-- another. Connections and callers are numbers.
use golang_learning.Prelude.{
  ℕ, ◌+◌, ◌<◌, GoString, GoMap, lookup, insert, lookup-insert, eq_iff, eq_refl, nat_eq,
  if◌then◌else◌, [], none, some, ◌≡◌, ◌≢◌, refl, subst, arith, inl, inr, Option-cases,
}

-- Where a caller stands: not in getConn, before grpc.NewClient, before the second lock, or with
-- the connection that it returns.
pub data Caller : Type 0 where
  idle : Caller
  creating : GoString → Caller
  storing : GoString → ℕ → Caller
  holding : GoString → ℕ → Caller

-- `addr_of` is the address that a connection was made for.
pub record Connections : Type 0 where
  pub conn_map : GoMap ℕ
  pub addr_of : ℕ → GoString
  pub next_conn : ℕ
  pub callers : ℕ → Caller

unfoldable pub no_connections : Connections
no_connections = record { conn_map = []; addr_of = λ c. []; next_conn = 0; callers = λ i. idle }

abbrev pub set_caller : ℕ → Caller → Connections → Connections
set_caller i caller s = record s { callers = λ j. if nat_eq i j then caller else s.callers j }

-- The first lock.
unfoldable pub read_conn : ℕ → GoString → Connections → Connections
read_conn i addr s = elim (lookup addr s.conn_map) [
  | some c ↦ set_caller i (holding addr c) s
  | none ↦ set_caller i (creating addr) s
]

-- grpc.NewClient, if it succeeds.
abbrev pub create_conn : ℕ → GoString → Connections → Connections
create_conn i addr s = set_caller i (storing addr s.next_conn) (record s {
  addr_of = λ c. if nat_eq s.next_conn c then addr else s.addr_of c;
  next_conn = s.next_conn + 1;
})

-- The second lock.
abbrev pub store_conn : ℕ → GoString → ℕ → Connections → Connections
store_conn i addr c s =
    set_caller i (holding addr c) (record s { conn_map = insert addr c s.conn_map })

pub data Step (s : Connections) : Connections → Type 0 where
  reads : {i : ℕ} (addr : GoString) → s.callers i ≡ idle → Step s (read_conn i addr s)
  creates : {i : ℕ} {addr : GoString} → s.callers i ≡ creating addr → Step s (create_conn i addr s)
  fails : {i : ℕ} {addr : GoString} → s.callers i ≡ creating addr → Step s (set_caller i idle s)
  stores :
      {i c : ℕ} {addr : GoString} → s.callers i ≡ storing addr c → Step s (store_conn i addr c s)
  returns :
      {i c : ℕ} {addr : GoString} → s.callers i ≡ holding addr c → Step s (set_caller i idle s)

pub data Reach : Connections → Type 0 where
  start : Reach no_connections
  next : {s t : Connections} → Reach s → Step s t → Reach t

-- A connection that is in the map, or that a caller has, was made for the address.
pub record IsValid (s : Connections) : Type 0 where
  pub mapped :
      (addr : GoString) (c : ℕ)
      → lookup addr s.conn_map ≡ some c
      → (c < s.next_conn) × (s.addr_of c ≡ addr)
  pub made :
      (i c : ℕ) (addr : GoString)
      → s.callers i ≡ storing addr c
      → (c < s.next_conn) × (s.addr_of c ≡ addr)
  pub held :
      (i c : ℕ) (addr : GoString)
      → s.callers i ≡ holding addr c
      → (c < s.next_conn) × (s.addr_of c ≡ addr)

read_conn-IsValid :
    (i : ℕ) (addr : GoString) (s : Connections) → IsValid s → IsValid (read_conn i addr s)
unfolding read_conn
read_conn-IsValid i addr s v = elim (Option-cases (lookup addr s.conn_map)) [
  | inl missing ↦
      rw (missing, read_conn)
        (record {
          mapped = v.mapped;
          made = λ j c a e. ground (arith, v.made j c a);
          held = λ j c a e. ground (arith, v.held j c a);
        })
  | inr (d, found) ↦
      rw (found, read_conn)
        (record {
          mapped = v.mapped;
          made = λ j c a e. ground (arith, v.made j c a);
          held = λ j c a e. ground (arith, v.held j c a, v.mapped addr d);
        })
]

Step-IsValid : {s t : Connections} → Step s t → IsValid s → IsValid t
Step-IsValid {s} (reads {i} addr e) v = read_conn-IsValid i addr s v
Step-IsValid {s} (creates {i} {addr} e) v = record {
  mapped = λ a c f. ground (arith, v.mapped a c);
  made = λ j c a f. ground (arith, v.made j c a);
  held = λ j c a f. ground (arith, v.held j c a);
}
Step-IsValid {s} (fails {i} e) v = record {
  mapped = v.mapped;
  made = λ j c a f. ground (arith, v.made j c a);
  held = λ j c a f. ground (arith, v.held j c a);
}
Step-IsValid {s} (stores {i} {c} {addr} e) v = record {
  mapped = λ a d f.
      ground
        (arith, v.mapped a d, lookup-insert addr a c s.conn_map, eq_iff addr a, v.made i c addr);
  made = λ j d a f. ground (arith, v.made j d a);
  held = λ j d a f. ground (arith, v.held j d a, v.made i c addr);
}
Step-IsValid {s} (returns {i} e) v = record {
  mapped = v.mapped;
  made = λ j c a f. ground (arith, v.made j c a);
  held = λ j c a f. ground (arith, v.held j c a);
}

new-IsValid : IsValid no_connections
unfolding no_connections lookup
new-IsValid = record { mapped = λ a c e. cc; made = λ i c a e. cc; held = λ i c a e. cc }

pub Reach-IsValid : {s : Connections} → Reach s → IsValid s
Reach-IsValid start = new-IsValid
Reach-IsValid (next r e) = Step-IsValid e (Reach-IsValid r)

read_conn-missing :
    (i : ℕ) (addr : GoString) (s : Connections)
    → lookup addr s.conn_map ≡ none
    → read_conn i addr s ≡ set_caller i (creating addr) s
unfolding read_conn
read_conn-missing i addr s missing = rw (missing, read_conn) refl

-- In every reachable state, a connection that a caller of getConn gets was made for the address that
-- it asked for. But if two callers are not in getConn and an address is not in the map, then a state
-- can be reached in which they have two different connections of that address, of which the map
-- names only one.
pub get_conn_duplicates :
    {s : Connections} (i j : ℕ) (addr : GoString)
    → Reach s
    → i ≢ j
    → s.callers i ≡ idle
    → s.callers j ≡ idle
    → lookup addr s.conn_map ≡ none
    → ((k c : ℕ) (a : GoString) → s.callers k ≡ holding a c → s.addr_of c ≡ a)
      × ((t : Connections) × (c : ℕ) × (d : ℕ) × Reach t
          × (c ≢ d)
          × (t.callers i ≡ holding addr c)
          × (t.callers j ≡ holding addr d)
          × (t.addr_of c ≡ addr)
          × (t.addr_of d ≡ addr)
          × (lookup addr t.conn_map ≡ some d))
get_conn_duplicates {s} i j addr r differ i_idle j_idle missing =
    let s₁ = set_caller i (creating addr) s in
    let r₁ : Reach s₁ =
      subst Reach (read_conn-missing i addr s missing) (next r (reads addr i_idle)) in
    let s₂ = set_caller j (creating addr) s₁ in
    let r₂ : Reach s₂ =
      subst Reach (read_conn-missing j addr s₁ missing) (next r₁ (reads addr (ground arith))) in
    let s₃ = create_conn i addr s₂ in
    let r₃ : Reach s₃ = next r₂ (creates (ground arith)) in
    let s₄ = create_conn j addr s₃ in
    let r₄ : Reach s₄ = next r₃ (creates (ground arith)) in
    let c = s.next_conn in
    let d = s.next_conn + 1 in
    let s₅ = store_conn i addr c s₄ in
    let r₅ : Reach s₅ = next r₄ (stores (ground arith)) in
    let s₆ = store_conn j addr d s₅ in
    let r₆ : Reach s₆ = next r₅ (stores (ground arith)) in
    (
      λ k e a h. ((Reach-IsValid r).held k e a h).1,
      (
        s₆,
        c,
        d,
        r₆,
        (λ e. omega arith),
        ground arith,
        ground arith,
        ground arith,
        ground arith,
        ground (arith, lookup-insert addr addr d s₅.conn_map, eq_refl addr),
      ),
    )
