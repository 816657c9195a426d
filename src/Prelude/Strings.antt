-- ===== src/Prelude/Strings.antt =====
-- Go's strings: sequences of bytes, with `==`, `+` (which is `++`) and the functions of the
-- package strings that the program calls.
use Prim.Native.Nat.{ℕ, ◌+◌, ◌/◌, ◌%◌}
use Prim.Native.Char.{code}
use Prim.Native.String.{String}
use mathlib.Core.Path.{◌≡◌, refl}
use mathlib.Core.Logic.{◌↔◌}
use mathlib.Core.Bool.{Bool, true, false, ◌&&◌}
use mathlib.Core.List.{List, [], ◌∷◌, ◌++◌}
use native.Mathlib.Omega.{arith}
use golang_learning.Prelude.Tests.{nat_eq, ltb, if◌then◌else◌}

abbrev pub GoString : Type 0
GoString = List ℕ

-- The UTF-8 encoding of a code point.
abbrev pub utf8 : ℕ → GoString
utf8 c =
    if ltb c 0x80
    then c ∷ []
    else if ltb c 0x800
    then (0xc0 + c / 0x40) ∷ (0x80 + c % 0x40) ∷ []
    else if ltb c 0x10000
    then (0xe0 + c / 0x1000) ∷ (0x80 + c / 0x40 % 0x40) ∷ (0x80 + c % 0x40) ∷ []
    else (0xf0 + c / 0x40000)
      ∷ (0x80 + c / 0x1000 % 0x40)
      ∷ (0x80 + c / 0x40 % 0x40)
      ∷ (0x80 + c % 0x40)
      ∷ []

-- The bytes of a string literal.
unfoldable pub bytes : String → GoString
bytes String.[] = []
bytes (String.◌∷◌ c s) = utf8 (code c) ++ bytes s

-- The code points of a string literal.
abbrev pub runes : String → List ℕ
runes String.[] = []
runes (String.◌∷◌ c s) = code c ∷ runes s

infix 50 ◌==◌
unfoldable pub ◌==◌ : GoString → GoString → Bool
[] == [] = true
[] == (y ∷ ys) = false
(x ∷ xs) == [] = false
(x ∷ xs) == (y ∷ ys) = nat_eq x y && xs == ys

pub eq_refl : (s : GoString) → (s == s) ≡ true
unfolding ◌==◌
eq_refl [] = refl
eq_refl (x ∷ s) = ground (arith, eq_refl s)

eq_sound : (s t : GoString) → (s == t) ≡ true → s ≡ t
unfolding ◌==◌
eq_sound [] [] h = refl
eq_sound [] (y ∷ t) h = cc
eq_sound (x ∷ s) [] h = cc
eq_sound (x ∷ s) (y ∷ t) h = ground (arith, eq_sound s t)

pub eq_iff : (s t : GoString) → ((s == t) ≡ true) ↔ (s ≡ t)
eq_iff s t = (eq_sound s t, λ e. rw e (eq_refl t))

abbrev pub is_empty : GoString → Bool
is_empty [] = true
is_empty (x ∷ s) = false

pub is_empty_iff : (s : GoString) → (is_empty s ≡ true) ↔ (s ≡ [])
is_empty_iff s = ground arith

-- strings.HasPrefix(s, p), with the prefix first.
unfoldable pub has_prefix : GoString → GoString → Bool
has_prefix [] s = true
has_prefix (x ∷ p) [] = false
has_prefix (x ∷ p) (y ∷ s) = nat_eq x y && has_prefix p s

drop_prefix : GoString → GoString → GoString
drop_prefix [] s = s
drop_prefix (x ∷ p) [] = []
drop_prefix (x ∷ p) (y ∷ s) = drop_prefix p s

-- strings.TrimPrefix(s, p), with the prefix first.
unfoldable pub trim_prefix : GoString → GoString → GoString
unfolding has_prefix drop_prefix
trim_prefix p s = if has_prefix p s then drop_prefix p s else s

pub has_prefix-append : (p s : GoString) → has_prefix p (p ++ s) ≡ true
unfolding has_prefix
has_prefix-append [] s = refl
has_prefix-append (x ∷ p) s = ground (arith, has_prefix-append p s)

drop_prefix-append : (p s : GoString) → drop_prefix p (p ++ s) ≡ s
unfolding drop_prefix
drop_prefix-append [] s = refl
drop_prefix-append (x ∷ p) s = drop_prefix-append p s

pub trim_prefix-append : (p s : GoString) → trim_prefix p (p ++ s) ≡ s
trim_prefix-append p s = unfold trim_prefix in rw (has_prefix-append p s) (drop_prefix-append p s)

append-drop_prefix : (p s : GoString) → has_prefix p s ≡ true → p ++ drop_prefix p s ≡ s
unfolding has_prefix drop_prefix
append-drop_prefix [] s h = refl
append-drop_prefix (x ∷ p) [] h = cc
append-drop_prefix (x ∷ p) (y ∷ s) h = ground (arith, append-drop_prefix p s)

-- A string has the prefix exactly when the prefix and what is left after it make it up.
pub has_prefix_iff : (p s : GoString) → (has_prefix p s ≡ true) ↔ (p ++ trim_prefix p s ≡ s)
has_prefix_iff p s = (
  λ h. unfold trim_prefix in rw h (append-drop_prefix p s h),
  λ e. rw e at (has_prefix-append p (trim_prefix p s)),
)
