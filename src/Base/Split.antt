-- ===== src/Base/Split.antt =====
-- Splitting a byte string at a separator, and joining the parts.

use tokenfactory.Base.Tests.{◌==◌, Bool-cases}
use tokenfactory.Base.Lists.{All}
use tokenfactory.Base.Bytes.{Bytes, contains, split, add_to_head, join}
use Prim.Native.Nat.{ℕ}
use mathlib.Core.Path.{◌≡◌, refl, ap, ap₂, ◌∙◌}
use mathlib.Core.Logic.{inl, inr}
use mathlib.Core.Bool.{true, false}
use mathlib.Core.List.{List, [], ◌∷◌, ◌++◌}
use native.Mathlib.Omega.{arith}

module _ (sep : ℕ) where
  -- A part without the separator is the first part of the split.
  pub split-append :
      (x r : Bytes) → contains sep x ≡ false → split sep (x ++ (sep ∷ r)) ≡ x ∷ split sep r
  unfolding contains split
  split-append [] r h = ground arith
  split-append (c ∷ x) r h = ground (arith, split-append x r)

  ==→eq : (c : ℕ) → (c == sep) ≡ true → sep ≡ c
  ==→eq c e = ground arith

  contains-cons :
      (c : ℕ) (p : Bytes)
      → (c == sep) ≡ false
      → contains sep p ≡ false
      → contains sep (c ∷ p) ≡ false
  unfolding contains
  contains-cons c p e h = rw (e, h)

  contains-nil : contains sep [] ≡ false
  unfolding contains
  contains-nil = refl

  -- A split at the separator, and one at any other byte.
  split-sep : (c : ℕ) (s : Bytes) → (c == sep) ≡ true → split sep (c ∷ s) ≡ [] ∷ split sep s
  unfolding split
  split-sep c s e = rw e

  split-other :
      (c : ℕ) (s p : Bytes) (ps : List Bytes)
      → (c == sep) ≡ false
      → split sep s ≡ p ∷ ps
      → split sep (c ∷ s) ≡ (c ∷ p) ∷ ps
  unfolding split add_to_head
  split-other c s p ps e h = rw e (rw (h, add_to_head))

  -- The split of any string has a first part.
  pub split_nonempty : (s : Bytes) → (p : Bytes) × (ps : List Bytes) × (split sep s ≡ p ∷ ps)
  split_nonempty [] = unfold split in ([], [], refl)
  split_nonempty (c ∷ s) =
      let (p, ps, h) = split_nonempty s in
      elim (Bool-cases (c == sep)) [
        | inl e ↦ ([], split sep s, split-sep c s e)
        | inr e ↦ (c ∷ p, ps, split-other c s p ps e h)
      ]

  join-cons_head :
      (c : ℕ) (p : Bytes) (ps : List Bytes)
      → join (sep ∷ []) ((c ∷ p) ∷ ps) ≡ c ∷ join (sep ∷ []) (p ∷ ps)
  join-cons_head c p [] = refl
  join-cons_head c p (q ∷ ps) = refl

  -- Joining the parts of a split gives the string back.
  pub join-split : (s : Bytes) → join (sep ∷ []) (split sep s) ≡ s
  join-split [] = unfold split in refl
  join-split (c ∷ s) =
      let (p, ps, h) = split_nonempty s in
      let ih : join (sep ∷ []) (p ∷ ps) ≡ s = rw h at (join-split s) in
      elim (Bool-cases (c == sep)) [
        | inl e ↦ rw (split-sep c s e) (rw h (ap₂ (λ a t. a ∷ t) (==→eq c e) ih))
        | inr e ↦ rw (split-other c s p ps e h) (join-cons_head c p ps ∙ ap (λ t. c ∷ t) ih)
      ]

  -- No part of a split contains the separator.
  pub split-contains : (s : Bytes) → All (λ p. contains sep p ≡ false) (split sep s)
  split-contains [] = unfold split contains in (refl, tt)
  split-contains (c ∷ s) =
      let (p, ps, h) = split_nonempty s in
      let ih : All (λ q. contains sep q ≡ false) (p ∷ ps) = rw h at (split-contains s) in
      elim (Bool-cases (c == sep)) [
        | inl e ↦ rw (split-sep c s e) (contains-nil, split-contains s)
        | inr e ↦ rw (split-other c s p ps e h) (contains-cons c p e ih.0, ih.1)
      ]

  -- What is no part of a string is no part of what it is made of.
  pub contains-append :
      (x y : Bytes)
      → contains sep (x ++ y) ≡ false
      → (contains sep x ≡ false) × (contains sep y ≡ false)
  unfolding contains
  contains-append [] y h = (refl, h)
  contains-append (c ∷ x) y h = ground (arith, contains-append x y)
