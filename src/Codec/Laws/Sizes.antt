-- ===== src/Codec/Laws/Sizes.antt =====
-- sov is the number of bytes of a varint.
use native.Mathlib.Nat.{pow-succ'}
use tokenfactory.Base.{
  ℕ, zero, suc, ◌+◌, ◌*◌, ◌/◌, ◌^◌, ◌≤◌, ◌<◌, ◌≡◌, refl, sym, ap, ◌∙◌, arith, length,
}
use tokenfactory.Codec.Varint.{encode_groups, encode_varint, bit_length, sov}

bit_length-zero : (k : ℕ) → bit_length k 0 ≡ 0
unfolding bit_length
bit_length-zero zero = refl
bit_length-zero (suc k) = refl

bit_length-pos : (k x : ℕ) → 0 < x → bit_length (suc k) x ≡ suc (bit_length k (x / 2))
unfolding bit_length
bit_length-pos k x h = ground arith

-- Numbers of at least seven bits, by their highest ones.
abbrev seven_more : ℕ → ℕ
seven_more k = suc (suc (suc (suc (suc (suc (suc k))))))

bit_length-half : (k x : ℕ) → bit_length (suc k) x ≤ 1 + bit_length k (x / 2)
unfolding bit_length
bit_length-half k x = ground arith

bit_length-seven : (k x : ℕ) → 64 ≤ x → bit_length (seven_more k) x ≡ 7 + bit_length k (x / 128)
bit_length-seven k x h = omega (
  arith,
  bit_length-pos (suc (suc (suc (suc (suc (suc k)))))) x,
  bit_length-pos (suc (suc (suc (suc (suc k))))) (x / 2),
  bit_length-pos (suc (suc (suc (suc k)))) (x / 2 / 2),
  bit_length-pos (suc (suc (suc k))) (x / 2 / 2 / 2),
  bit_length-pos (suc (suc k)) (x / 2 / 2 / 2 / 2),
  bit_length-pos (suc k) (x / 2 / 2 / 2 / 2 / 2),
  bit_length-pos k (x / 2 / 2 / 2 / 2 / 2 / 2),
  ap (bit_length k) (let e : x / 2 / 2 / 2 / 2 / 2 / 2 / 2 ≡ x / 128 = omega arith in e),
)

bit_length-short : (k x : ℕ) → 0 < x → x < 128 → bit_length (seven_more k) x ≤ 7
bit_length-short k x h h' = omega (
  arith,
  bit_length-half (suc (suc (suc (suc (suc (suc k)))))) x,
  bit_length-half (suc (suc (suc (suc (suc k))))) (x / 2),
  bit_length-half (suc (suc (suc (suc k)))) (x / 2 / 2),
  bit_length-half (suc (suc (suc k))) (x / 2 / 2 / 2),
  bit_length-half (suc (suc k)) (x / 2 / 2 / 2 / 2),
  bit_length-half (suc k) (x / 2 / 2 / 2 / 2 / 2),
  bit_length-half k (x / 2 / 2 / 2 / 2 / 2 / 2),
  ap (bit_length k) (let e : x / 2 / 2 / 2 / 2 / 2 / 2 / 2 ≡ 0 = omega arith in e),
  bit_length-zero k,
)

-- `x | 1` has as many bits as an x that is not 0.
abbrev or_one : ℕ → ℕ
or_one x = x / 2 * 2 + 1

bit_length-or_one : (k x : ℕ) → 0 < x → bit_length k (or_one x) ≡ bit_length k x
bit_length-or_one zero x h = unfold bit_length in refl
bit_length-or_one (suc k) x h =
    bit_length-pos k (or_one x) (omega arith)
    ∙ ap (λ t. suc (bit_length k t)) (let e : or_one x / 2 ≡ x / 2 = omega arith in e)
    ∙ sym (bit_length-pos k x h)

-- The bits of `j` groups of seven and one more.
abbrev bits : ℕ → ℕ
bits zero = 1
bits (suc j) = seven_more (bits j)

seven_doublings : (k : ℕ) → 2 ^ seven_more k ≡ 128 * 2 ^ k
seven_doublings k = simp (pow-succ') (omega arith)

fewer_bits : (j v : ℕ) → v < 2 ^ bits (suc j) → v / 128 < 2 ^ bits j
fewer_bits j v h = omega (arith, seven_doublings (bits j))

length-encode_groups :
    (j v : ℕ)
    → v < 2 ^ bits j
    → (bit_length (bits j) (or_one v) + 6) / 7 ≡ length (encode_groups j v)
unfolding encode_groups
length-encode_groups zero v h = omega (
  arith,
  bit_length-pos 0 (or_one v),
  bit_length-zero 0,
  ap (bit_length 0) (let e : or_one v / 2 ≡ 0 = omega arith in e),
)
length-encode_groups (suc j) v h = ground (
  arith,
  bit_length-short (bits j) (or_one v),
  bit_length-pos (suc (suc (suc (suc (suc (suc (bits j))))))) (or_one v),
  bit_length-seven (bits j) (or_one v),
  ap (bit_length (bits j)) (let e : or_one v / 128 ≡ v / 128 = omega arith in e),
  bit_length-or_one (bits j) (v / 128),
  fewer_bits j v h,
  length-encode_groups j (v / 128) (fewer_bits j v h),
)

-- sov is the number of bytes that the varint takes.
pub length-encode_varint : (v : ℕ) → v < 2 ^ 64 → length (encode_varint v) ≡ sov v
unfolding encode_varint sov
length-encode_varint v h = sym (length-encode_groups 9 v h)
