-- ===== src/Codec/Laws/Varints.antt =====
-- Varints: reading back what was written, and how many bytes a read takes.
use native.Mathlib.Nat.{div-add-mod}
use native.Mathlib.Numerals.{towards_suc}
use tokenfactory.Base.{
  ℕ, zero, suc, ◌+◌, ◌*◌, ◌/◌, ◌%◌, ◌^◌, ◌<◌, ◌≡◌, ◌≢◌, ap, [], ◌∷◌, ◌++◌, arith, length,
}
use tokenfactory.Base.Bytes.{Bytes}
use tokenfactory.Base.Outcome.{Error, ok, panic}
use tokenfactory.Codec.Varint.{
  encode_groups, encode_varint, add_group, read_varint_from, read_varint,
}

-- A group that still fits is read whole.
last_group :
    (w acc shift : ℕ) (rest : Bytes)
    → w < 128
    → shift < 64
    → acc + w * 2 ^ shift < 2 ^ 64
    → read_varint_from (w ∷ rest) shift acc ≡ ok (acc + w * 2 ^ shift, rest)
unfolding read_varint_from
last_group w acc shift rest hw hs fits = ground arith

inner_group :
    (g acc shift : ℕ) (rest : Bytes)
    → g < 128
    → shift < 64
    → acc + g * 2 ^ shift < 2 ^ 64
    → read_varint_from ((g + 128) ∷ rest) shift acc
      ≡ read_varint_from rest (shift + 7) (acc + g * 2 ^ shift)
unfolding read_varint_from
inner_group g acc shift rest hg hs fits = ground arith

power_step : (s : ℕ) → 2 ^ (s + 7) ≡ 128 * 2 ^ s
power_step s = simp towards_suc (omega arith)

-- A number at bit `s` is its low seven bits there and the rest seven bits up.
split_low : (w s : ℕ) → w * 2 ^ s ≡ w % 128 * 2 ^ s + w / 128 * 2 ^ (s + 7)
split_low w s = omega (
  arith,
  ap (λ (t : ℕ). t * 2 ^ s) (div-add-mod w 128),
  ap (λ (t : ℕ). w / 128 * t) (power_step s),
)

read-encode_groups :
    (k w acc shift : ℕ) (rest : Bytes)
    → w < 128 ^ suc k
    → shift + 7 * k < 64
    → acc + w * 2 ^ shift < 2 ^ 64
    → read_varint_from (encode_groups k w ++ rest) shift acc ≡ ok (acc + w * 2 ^ shift, rest)
unfolding encode_groups
read-encode_groups zero w acc shift rest hw hs fits = ground (arith, last_group w acc shift rest)
read-encode_groups (suc k) w acc shift rest hw hs fits = ground (
  arith,
  last_group w acc shift rest,
  split_low w shift,
  inner_group (w % 128) acc shift (encode_groups k (w / 128) ++ rest),
  read-encode_groups k (w / 128) (acc + w % 128 * 2 ^ shift) (shift + 7) rest (omega arith),
)

-- Reading a varint gives back the uint64 that was written, and the bytes behind it.
pub read_varint-encode_varint :
    (v : ℕ) (rest : Bytes) → v < 2 ^ 64 → read_varint (encode_varint v ++ rest) ≡ ok (v, rest)
unfolding read_varint encode_varint
read_varint-encode_varint v rest h = ground (arith, read-encode_groups 9 v 0 0 rest)

read_varint_from_takes :
    (bs : Bytes) (shift acc v : ℕ) (rest : Bytes)
    → read_varint_from bs shift acc ≡ ok (v, rest)
    → length rest < length bs
unfolding read_varint_from
read_varint_from_takes [] shift acc v rest e = ground arith
read_varint_from_takes (b ∷ bs) shift acc v rest e =
    ground (arith, read_varint_from_takes bs (shift + 7) (add_group acc b shift) v rest)

-- A read takes a byte at least.
pub read_varint_takes :
    (bs : Bytes) (v : ℕ) (rest : Bytes) → read_varint bs ≡ ok (v, rest) → length rest < length bs
unfolding read_varint
read_varint_takes bs v rest e = read_varint_from_takes bs 0 0 v rest e

read_varint_from-ne-panic :
    (bs : Bytes) (shift acc : ℕ) (e : Error) → read_varint_from bs shift acc ≢ panic e
unfolding read_varint_from
read_varint_from-ne-panic [] shift acc e h = ground arith
read_varint_from-ne-panic (b ∷ bs) shift acc e h =
    ground (arith, read_varint_from-ne-panic bs (shift + 7) (add_group acc b shift) e)

pub read_varint-ne-panic : (bs : Bytes) (e : Error) → read_varint bs ≢ panic e
unfolding read_varint
read_varint-ne-panic bs e = read_varint_from-ne-panic bs 0 0 e
