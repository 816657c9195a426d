-- ===== src/Prelude/Maps.antt =====
-- Go's `map[string]V` (and `sync.Map` with string keys): an association list with distinct keys.
use mathlib.Core.Path.{◌≡◌, refl}
use mathlib.Core.Option.{Option, none, some}
use mathlib.Core.List.{List, [], ◌∷◌, map}
use native.Mathlib.Omega.{arith}
use golang_learning.Prelude.Tests.{if◌then◌else◌}
use golang_learning.Prelude.Strings.{GoString, ◌==◌, eq_iff}

abbrev pub GoMap {ℓ} : Type ℓ → Type ℓ
GoMap V = List (GoString × V)

module _ {ℓ} {V : Type ℓ} where
  abbrev pub keys : GoMap V → List GoString
  keys = map (λ e. e.0)

  abbrev pub values : GoMap V → List V
  values = map (λ e. e.1)

  -- `v, ok := m[k]`
  unfoldable pub lookup : GoString → GoMap V → Option V
  lookup wanted [] = none
  lookup wanted (entry ∷ rest) = if entry.0 == wanted then some entry.1 else lookup wanted rest

  -- `m[k] = v`
  unfoldable pub insert : GoString → V → GoMap V → GoMap V
  insert key value [] = (key, value) ∷ []
  insert key value (entry ∷ rest) =
      if entry.0 == key then (key, value) ∷ rest else entry ∷ insert key value rest

  -- `delete(m, k)`
  unfoldable pub delete : GoString → GoMap V → GoMap V
  delete key [] = []
  delete key (entry ∷ rest) = if entry.0 == key then delete key rest else entry ∷ delete key rest

  -- No key stands twice.
  abbrev pub Distinct : GoMap V → Type ℓ
  Distinct [] = Unit
  Distinct ((k, v) ∷ m) = (lookup k m ≡ none) × Distinct m

  pub lookup-insert :
      (k j : GoString) (v : V) (m : GoMap V)
      → lookup j (insert k v m) ≡ (if k == j then some v else lookup j m)
  unfolding lookup insert
  lookup-insert new asked v [] = refl
  lookup-insert new asked v ((old, _) ∷ rest) =
      ground
        (arith, lookup-insert new asked v rest, eq_iff old asked, eq_iff old new, eq_iff new asked)

  pub lookup-delete :
      (k j : GoString) (m : GoMap V) → lookup j (delete k m) ≡ (if k == j then none else lookup j m)
  unfolding lookup delete
  lookup-delete gone asked [] = ground arith
  lookup-delete gone asked ((old, _) ∷ rest) =
      ground
        (arith, lookup-delete gone asked rest, eq_iff old asked, eq_iff old gone, eq_iff gone asked)

  pub insert-Distinct : (k : GoString) (v : V) (m : GoMap V) → Distinct m → Distinct (insert k v m)
  unfolding insert lookup
  insert-Distinct k v [] d = (refl, tt)
  insert-Distinct k v ((i, w) ∷ m) d =
      ground (arith, eq_iff i k, eq_iff k i, lookup-insert k i v m, insert-Distinct k v m d.1)

  pub delete-Distinct : (k : GoString) (m : GoMap V) → Distinct m → Distinct (delete k m)
  unfolding delete lookup
  delete-Distinct k [] d = tt
  delete-Distinct k ((i, w) ∷ m) d =
      ground (arith, lookup-delete k i m, eq_iff k i, eq_iff i k, delete-Distinct k m d.1)

-- `for k, v := range m` visits every entry of the map once, in an order that Go leaves open: an
-- order of the map is another list of the same entries.
pub record MapOrder {ℓ} (V : Type ℓ) : Type ℓ where
  pub order : GoMap V → GoMap V
  pub order-lookup : (k : GoString) (m : GoMap V) → Distinct m → lookup k (order m) ≡ lookup k m
  pub order-Distinct : (m : GoMap V) → Distinct m → Distinct (order m)

-- Two orders, to run the model with: as inserted, and with the first two entries swapped.
abbrev pub as_inserted {ℓ} : (V : Type ℓ) → MapOrder V
as_inserted V = record { order = λ m. m; order-lookup = λ k m d. refl; order-Distinct = λ m d. d }

module _ {ℓ} {V : Type ℓ} where
  abbrev pub swap_front : GoMap V → GoMap V
  swap_front [] = []
  swap_front (e ∷ []) = e ∷ []
  swap_front (e ∷ f ∷ m) = f ∷ e ∷ m

  pub lookup-swap_front :
      (k : GoString) (m : GoMap V) → Distinct m → lookup k (swap_front m) ≡ lookup k m
  unfolding lookup
  lookup-swap_front k [] d = refl
  lookup-swap_front k (e ∷ []) d = refl
  lookup-swap_front k ((i, v) ∷ (j, w) ∷ m) d =
      ground (arith, eq_iff i k, eq_iff j k, eq_iff j i, eq_iff i j)

  pub swap_front-Distinct : (m : GoMap V) → Distinct m → Distinct (swap_front m)
  unfolding lookup
  swap_front-Distinct [] d = tt
  swap_front-Distinct (e ∷ []) d = d
  swap_front-Distinct ((i, v) ∷ (j, w) ∷ m) d = ground (arith, eq_iff j i, eq_iff i j)

abbrev pub swapped {ℓ} : (V : Type ℓ) → MapOrder V
swapped V = record {
  order = swap_front;
  order-lookup = lookup-swap_front;
  order-Distinct = swap_front-Distinct;
}
