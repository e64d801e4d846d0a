-- ===== src/Codec/Laws/Total.antt =====
-- Unmarshal ends on every input: neither of its loops runs out of fuel, and nothing in it panics.
use native.Mathlib.Nat.{le_refl}
use tokenfactory.Base.{
  ℕ, zero, suc, ◌+◌, ◌-◌, ◌%◌, ◌≤◌, ◌<◌, ◌≡◌, refl, [], ◌∷◌, arith, length, take, drop, length-drop,
  not, ltb, ◌||◌, ◌⊎◌, inl, inr, Bool, Bool-cases, true, false, ◌==◌, if◌then◌else◌, leb,
}
use tokenfactory.Base.Bytes.{Bytes}
use tokenfactory.Base.Outcome.{
  Outcome, Error, ok, err, panic, ◌>>=◌, ◌>>◌, fail_if, invalid_length, unexpected_eof,
  wrong_wire_type, end_group, illegal_tag,
}
use tokenfactory.Types.Authority.{DenomAuthorityMetadata}
use tokenfactory.Codec.Varint.{read_varint}
use tokenfactory.Codec.Skip.{
  Cursor, int_limit, advance, move_to, skip_value, skip_round, return_or, skip_from, skip,
}
use tokenfactory.Codec.Authority.{
  cut, field_num, not_positive_int32, unmarshal_admin, skip_field, unmarshal_field, unmarshal_from,
}
use tokenfactory.Codec.Laws.Varints.{read_varint_takes, read_varint-ne-panic}

-- A step ends in an error, or in a result of which `P` holds.
pub data Ends {A : Type 0} (P : A → Type 0) : Outcome A → Type 0 where
  with_ok : {a : A} → P a → Ends P (ok a)
  with_err : {e : Error} → Ends P (err e)

pub Ends-ok_or_err :
    {A : Type 0} {P : A → Type 0} (m : Outcome A)
    → Ends P m
    → ((a : A) × (m ≡ ok a)) ⊎ ((e : Error) × (m ≡ err e))
Ends-ok_or_err m (with_ok {a} h) = inl (a, refl)
Ends-ok_or_err m (with_err {e}) = inr (e, refl)

pub Ends-bind :
    {A B : Type 0} (P : A → Type 0) (Q : B → Type 0) (m : Outcome A) (f : A → Outcome B)
    → Ends P m
    → ((a : A) → P a → Ends Q (f a))
    → Ends Q (m >>= f)
Ends-bind P Q m f (with_ok {a} h) k = k a h
Ends-bind P Q m f with_err k = with_err

pub Ends-weaken :
    {A : Type 0} {P Q : A → Type 0} {m : Outcome A} → Ends P m → ((a : A) → P a → Q a) → Ends Q m
Ends-weaken (with_ok {a} h) k = with_ok (k a h)
Ends-weaken with_err k = with_err

pub Ends-if :
    {A : Type 0} (P : A → Type 0) (b : Bool) (m n : Outcome A)
    → Ends P m
    → Ends P n
    → Ends P (if b then m else n)
Ends-if P true m n hm hn = hm
Ends-if P false m n hm hn = hn

pub Ends-fail_if :
    {A : Type 0} (P : A → Type 0) (b : Bool) (e : Error) (n : Outcome A)
    → Ends P n
    → Ends P (fail_if b e >> n)
Ends-fail_if P true e n h = with_err
Ends-fail_if P false e n h = h

-- What follows a test that did not stop.
Ends-guard :
    {A : Type 0} (P : A → Type 0) (b : Bool) (e : Error) (n : Outcome A)
    → (b ≡ false → Ends P n)
    → Ends P (fail_if b e >> n)
Ends-guard P true e n h = with_err
Ends-guard P false e n h = h refl

-- A slice that stays within the bytes does not panic.
cut-Ends :
    (n : ℕ) (bytes : Bytes) → n ≤ length bytes → Ends (λ r. length r.1 ≤ length bytes) (cut n bytes)
cut-Ends n bytes h =
    let within : leb n (length bytes) ≡ true = ground arith in
    rw within (with_ok {a = (take n bytes, drop n bytes)} (omega (arith, length-drop {0} n bytes)))

within_bytes : (l n left : ℕ) → ltb l ((l - left) + n) ≡ false → n ≤ left
within_bytes l n left h = ground arith

pub read_varint-Ends : (bs : Bytes) → Ends (λ r. length r.1 < length bs) (read_varint bs)
read_varint-Ends bs = go (read_varint bs) refl
  where
    go : (r : Outcome (ℕ × Bytes)) → read_varint bs ≡ r → Ends (λ p. length p.1 < length bs) r
    go (ok (v, rest)) e = with_ok (read_varint_takes bs v rest e)
    go (err x) e = with_err
    go (panic x) e = absurd (read_varint-ne-panic bs x e)

-- The cursor has not moved back.
abbrev NotBehind : Cursor → Cursor → Type 0
NotBehind c c' = (length c'.rest ≤ length c.rest) × (c.index ≤ c'.index)

-- The cursor has moved on.
abbrev Ahead : Cursor → Cursor → Type 0
Ahead c c' = (length c'.rest < length c.rest) × (c.index < c'.index)

NotBehind-refl : (c : Cursor) → NotBehind c c
NotBehind-refl c = (le_refl _, le_refl _)

advance-NotBehind : (n : ℕ) (c : Cursor) → NotBehind c (advance n c)
advance-NotBehind n c = omega (arith, length-drop {0} n c.rest)

module _ (c : Cursor) where
  skip_varint-Ends : Ends (NotBehind c) (read_varint c.rest >>= λ r. ok (move_to r.1 c))
  skip_varint-Ends = Ends-bind _ _ _ _ (read_varint-Ends c.rest) (λ r h. with_ok (omega arith))

  skip_bytes-Ends : Ends (NotBehind c) (
      read_varint c.rest >>= λ r.
      fail_if (leb int_limit r.0) invalid_length >> ok (advance r.0 (move_to r.1 c)))
  skip_bytes-Ends =
      Ends-bind _ _ _ _ (read_varint-Ends c.rest)
        λ r h. Ends-fail_if _ _ _ _ (with_ok (omega (arith, length-drop {0} r.0 r.1)))

  skip_value-Ends : (w : ℕ) → Ends (NotBehind c) (skip_value w c)
  unfolding skip_value
  skip_value-Ends w = Ends-if _ (w == 0) _ _ skip_varint-Ends (
      Ends-if _ (w == 1) _ _ (with_ok (advance-NotBehind 8 c)) (
        Ends-if _ (w == 2) _ _ skip_bytes-Ends (
          Ends-if _ (w == 3) _ _ (with_ok (NotBehind-refl c)) (
            Ends-if _ (w == 4) _ _ (Ends-fail_if _ (c.depth == 0) _ _ (with_ok (NotBehind-refl c)))
              (Ends-if _ (w == 5) _ _ (with_ok (advance-NotBehind 4 c)) with_err)))))

skip_round-Ends : (c : Cursor) → Ends (Ahead c) (skip_round c)
unfolding skip_round
skip_round-Ends c = Ends-bind _ _ _ _ (read_varint-Ends c.rest) λ r h.
    Ends-bind _ _ _ _ (skip_value-Ends (move_to r.1 c) (r.0 % 8))
      λ c' h'. Ends-fail_if _ _ _ _ (with_ok (omega arith))

Ends-return_or :
    (next : Cursor → Outcome ℕ) (c : Cursor)
    → 0 < c.index
    → Ends (λ n. 0 < n) (next c)
    → Ends (λ n. 0 < n) (return_or next c)
unfolding return_or
Ends-return_or next c moved h = elim (Bool-cases (c.depth == 0)) [
  | inl e ↦ rw (e, return_or) (with_ok moved)
  | inr e ↦ rw (e, return_or) h
]

skip_from-Ends :
    (fuel index : ℕ) (rest : Bytes) (depth : ℕ)
    → length rest < fuel
    → Ends (λ n. 0 < n) (skip_from fuel (record { index = index; rest = rest; depth = depth }))
unfolding skip_from
skip_from-Ends zero index rest depth h = absurd (omega arith)
skip_from-Ends (suc fuel) index [] depth h = with_err
skip_from-Ends (suc fuel) index (b ∷ bs) depth h =
    Ends-bind _ _ _ _ (skip_round-Ends (record { index = index; rest = b ∷ bs; depth = depth }))
      λ c shorter.
        Ends-return_or (skip_from fuel) c (omega arith)
          (skip_from-Ends fuel c.index c.rest c.depth (omega arith))

-- Skipping an unknown field ends, with a length that is not 0 or an error.
skip-Ends : (bytes : Bytes) → Ends (λ n. 0 < n) (skip bytes)
unfolding skip
skip-Ends bytes = skip_from-Ends (length bytes + 1) 0 bytes 0 (omega arith)

length-drop_lt : (n : ℕ) (xs : Bytes) → 0 < n → 0 < length xs → length (drop n xs) < length xs
length-drop_lt n xs h h' = omega (arith, length-drop {0} n xs)

pub skip_field-Ends :
    (l : ℕ) (bytes : Bytes)
    → 0 < length bytes
    → Ends (λ rest. length rest < length bytes) (skip_field l bytes)
unfolding skip_field
skip_field-Ends l bytes h = Ends-bind _ _ _ _ (skip-Ends bytes) λ n moved.
    Ends-fail_if _ (leb int_limit n || leb int_limit ((l - length bytes) + n)) invalid_length _ (
      Ends-fail_if _ (ltb l ((l - length bytes) + n)) unexpected_eof _
        (with_ok (length-drop_lt n bytes moved h)))

pub unmarshal_admin-Ends :
    (l w : ℕ) (bytes : Bytes) → Ends (λ r. length r.1 < length bytes) (unmarshal_admin l w bytes)
unfolding unmarshal_admin
unmarshal_admin-Ends l w bytes = Ends-fail_if _ (not (w == 2)) wrong_wire_type _ (
    Ends-bind _ _ _ _ (read_varint-Ends bytes) λ r h.
      Ends-fail_if _ (leb int_limit r.0) invalid_length _ (
        Ends-fail_if _ (leb int_limit ((l - length r.1) + r.0)) invalid_length _ (
          Ends-guard _ (ltb l ((l - length r.1) + r.0)) unexpected_eof _ λ within.
            Ends-weaken (cut-Ends r.0 r.1 (within_bytes l r.0 (length r.1) within))
              (λ p h'. omega arith))))

unmarshal_field-Ends :
    (l : ℕ) (m : DenomAuthorityMetadata) (bytes : Bytes)
    → 0 < length bytes
    → Ends (λ r. length r.1 < length bytes) (unmarshal_field l m bytes)
unfolding unmarshal_field
unmarshal_field-Ends l m bytes h = Ends-bind _ _ _ _ (read_varint-Ends bytes) λ r shorter.
    Ends-fail_if _ (r.0 % 8 == 4) end_group _ (
      Ends-fail_if _ (not_positive_int32 (field_num r.0)) illegal_tag _ (
        Ends-if _ (field_num r.0 == 1) _ _
          (Ends-bind _ _ _ _ (unmarshal_admin-Ends l (r.0 % 8) r.1)
            (λ a h'. with_ok {a = (record { admin = a.0 }, a.1)} (omega arith)))
          (Ends-bind _ _ _ _ (skip_field-Ends l bytes h) (λ rest h'. with_ok h'))))

pub unmarshal_from-Ends :
    (fuel l : ℕ) (m : DenomAuthorityMetadata) (bytes : Bytes)
    → length bytes ≤ fuel
    → Ends (λ r. Unit {0}) (unmarshal_from fuel l m bytes)
unfolding unmarshal_from
unmarshal_from-Ends fuel l m [] h = with_ok tt
unmarshal_from-Ends zero l m (b ∷ bs) h = absurd (omega arith)
unmarshal_from-Ends (suc fuel) l m (b ∷ bs) h =
    Ends-bind _ _ _ _ (unmarshal_field-Ends l m (b ∷ bs) (omega arith))
      λ r shorter. unmarshal_from-Ends fuel l r.0 r.1 (omega arith)
