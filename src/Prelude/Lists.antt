-- ===== src/Prelude/Lists.antt =====
-- Lists measured by native numbers, and the predicates that the components state over them.
use Prim.Native.Nat.{ℕ, suc, ◌+◌}
use mathlib.Core.Path.{◌≡◌, refl, ap}
use mathlib.Core.Logic.{◌≢◌}
use mathlib.Core.List.{List, [], ◌∷◌, ◌++◌, map}
use native.Mathlib.Omega.{arith}

module _ {ℓ} {A : Type ℓ} where
  abbrev pub length : List A → ℕ
  length [] = 0
  length (x ∷ xs) = suc (length xs)

  abbrev pub concat : List (List A) → List A
  concat [] = []
  concat (x ∷ xs) = x ++ concat xs

  pub length-append : (xs ys : List A) → length (xs ++ ys) ≡ length xs + length ys
  length-append [] ys = omega arith
  length-append (x ∷ xs) ys = omega (arith, length-append xs ys)

  abbrev pub All {κ} : (A → Type κ) → List A → Type κ
  All P [] = Unit
  All P (x ∷ xs) = P x × All P xs

  -- A position of an element.
  pub data In (a : A) : List A → Type ℓ where
    here : {xs : List A} → In a (a ∷ xs)
    there : {x : A} {xs : List A} → In a xs → In a (x ∷ xs)

  pub All-In {κ} : (P : A → Type κ) (xs : List A) {a : A} → All P xs → In a xs → P a
  All-In P [] h i = elim i [ ]
  All-In P (x ∷ xs) h here = h.0
  All-In P (x ∷ xs) h (there i) = All-In P xs h.1 i

  pub All-intro {κ} : (P : A → Type κ) (xs : List A) → ((a : A) → In a xs → P a) → All P xs
  All-intro P [] h = tt
  All-intro P (x ∷ xs) h = (h x here, All-intro P xs (λ a i. h a (there i)))

pub length-map {ℓ κ} :
    {A : Type ℓ} {B : Type κ} (f : A → B) (xs : List A) → length (map f xs) ≡ length xs
length-map f [] = refl
length-map f (x ∷ xs) = ap suc (length-map f xs)

module _ {ℓ} {A : Type ℓ} where
  -- No element stands twice.
  abbrev pub AllDistinct : List A → Type ℓ
  AllDistinct [] = Unit
  AllDistinct (x ∷ xs) = All (λ y. x ≢ y) xs × AllDistinct xs

module _ {ℓ} {A : Type ℓ} where
  -- The first list is the second with some elements left out.
  pub data Sub : List A → List A → Type ℓ where
    none_left : Sub [] []
    keep : (x : A) {xs ys : List A} → Sub xs ys → Sub (x ∷ xs) (x ∷ ys)
    skip : {y : A} {xs ys : List A} → Sub xs ys → Sub xs (y ∷ ys)

  pub Sub-tail : (x : A) {xs ys : List A} → Sub (x ∷ xs) ys → Sub xs ys
  Sub-tail x (keep _ s) = skip s
  Sub-tail x (skip s) = skip (Sub-tail x s)

  pub Sub-drop : (xs : List A) {ys zs : List A} → Sub (xs ++ ys) zs → Sub ys zs
  Sub-drop [] s = s
  Sub-drop (x ∷ xs) s = Sub-drop xs (Sub-tail x s)

  abbrev pub rev : List A → List A
  rev [] = []
  rev (x ∷ xs) = rev xs ++ x ∷ []

  pub rev-push : (xs : List A) (a : A) → rev (xs ++ a ∷ []) ≡ a ∷ rev xs
  rev-push [] a = refl
  rev-push (x ∷ xs) a = ap (λ l. l ++ x ∷ []) (rev-push xs a)

  pub append-cancel : (xs : List A) {ys zs : List A} → xs ++ ys ≡ xs ++ zs → ys ≡ zs
  append-cancel [] e = e
  append-cancel (x ∷ xs) e = append-cancel xs (cc)
