-- ===== src/Base/Bytes.antt =====
-- Go strings and byte slices as lists of bytes, with what the code uses of package strings:
-- `==`, `Contains` of one byte, `Split` at one byte, `Join`.
use Prim.Native.Char.{code}
use Prim.Native.Nat.{ℕ}
use Prim.Native.String.{String}
use mathlib.Core.Path.{◌≡◌, refl}
use mathlib.Core.Logic.{◌≢◌, ◌⊎◌, inl, inr}
use mathlib.Core.Bool.{Bool, true, false, ◌&&◌, ◌||◌}
use mathlib.Core.List.{List, [], ◌∷◌, ◌++◌}
use native.Mathlib.Omega.{arith}
use tokenfactory.Base.Tests.{◌==◌, if◌then◌else◌, Bool-cases}

abbrev pub Bytes : Type 0
Bytes = List ℕ

-- The bytes of an ASCII text.
abbrev pub text : String → Bytes
text String.[] = []
text (String.◌∷◌ c s) = code c ∷ text s

-- Go's `a == b` on strings.
unfoldable pub same : Bytes → Bytes → Bool
same [] [] = true
same [] (y ∷ ys) = false
same (x ∷ xs) [] = false
same (x ∷ xs) (y ∷ ys) = x == y && same xs ys

-- `strings.Contains(s, sep)` for a separator of one byte.
unfoldable pub contains : ℕ → Bytes → Bool
contains sep [] = false
contains sep (c ∷ cs) = c == sep || contains sep cs

unfoldable pub add_to_head : ℕ → List Bytes → List Bytes
add_to_head c [] = (c ∷ []) ∷ []
add_to_head c (p ∷ ps) = (c ∷ p) ∷ ps

-- `strings.Split(s, sep)` for a separator of one byte.
unfoldable pub split : ℕ → Bytes → List Bytes
unfolding add_to_head
split sep [] = [] ∷ []
split sep (c ∷ cs) =
    let parts = split sep cs in if c == sep then [] ∷ parts else add_to_head c parts

-- `strings.Join(parts, sep)`
abbrev pub join : Bytes → List Bytes → Bytes
join sep [] = []
join sep (p ∷ []) = p
join sep (p ∷ (q ∷ ps)) = p ++ (sep ++ join sep (q ∷ ps))

pub same→eq : (a b : Bytes) → same a b ≡ true → a ≡ b
unfolding same
same→eq [] [] h = refl
same→eq [] (y ∷ ys) h = cc
same→eq (x ∷ xs) [] h = cc
same→eq (x ∷ xs) (y ∷ ys) h = ground (arith, same→eq xs ys)

pub same_refl : (a : Bytes) → same a a ≡ true
unfolding same
same_refl [] = refl
same_refl (x ∷ xs) = ground (arith, same_refl xs)

pub eq→same : (a b : Bytes) → a ≡ b → same a b ≡ true
eq→same a b h = rw h (same_refl b)

pub ne→same : (a b : Bytes) → a ≢ b → same a b ≡ false
ne→same a b h = elim (Bool-cases (same a b)) [ inl e ↦ absurd (h (same→eq a b e)) | inr e ↦ e ]

pub same-cases : (a b : Bytes) → (a ≡ b) × (same a b ≡ true) ⊎ (a ≢ b) × (same a b ≡ false)
same-cases a b = elim (Bool-cases (same a b)) [
  | inl e ↦ inl (same→eq a b e, e)
  | inr e ↦ inr ((λ p. cc (eq→same a b p)), e)
]
