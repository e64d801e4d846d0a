-- ===== src/Codec/Varint.antt =====
-- encodeVarint…, sov…, and the loop that reads a varint, which the generated code repeats inline.
use tokenfactory.Base.{
  ℕ, zero, suc, ◌+◌, ◌*◌, ◌/◌, ◌%◌, ◌^◌, [], ◌∷◌, ltb, leb, ◌==◌, if◌then◌else◌,
}
use tokenfactory.Base.Bytes.{Bytes}
use tokenfactory.Base.Outcome.{Outcome, ok, err, int_overflow, unexpected_eof}

-- The loop of `encodeVarint`, by the rounds that may be left: `v&0x7f | 0x80` is `v % 128 + 128`, and
-- `v >>= 7` is `v / 128`. The source fills a buffer of the size that `sov` says.
unfoldable pub encode_groups : ℕ → ℕ → Bytes
encode_groups zero v = v % 256 ∷ []
encode_groups (suc k) v =
    let rest = encode_groups k (v / 128) in if ltb v 128 then v ∷ [] else (v % 128 + 128) ∷ rest

-- A uint64 has ten groups of seven bits at most.
unfoldable pub encode_varint : ℕ → Bytes
unfolding encode_groups
encode_varint v = encode_groups 9 v

-- bits.Len64, by the bits that may be left.
unfoldable pub bit_length : ℕ → ℕ → ℕ
bit_length zero x = 0
bit_length (suc k) x = let rest = bit_length k (x / 2) in if x == 0 then 0 else suc rest

-- sov: `x | 1` is the odd number of `x` and its neighbour.
unfoldable pub sov : ℕ → ℕ
unfolding bit_length
sov x = (bit_length 64 (x / 2 * 2 + 1) + 6) / 7

-- `acc |= uint64(b & 0x7F) << shift`. The bits of `acc` lie below `shift`, so `|` adds.
abbrev pub add_group : ℕ → ℕ → ℕ → ℕ
add_group acc b shift = acc + b % 128 * 2 ^ shift % 2 ^ 64

-- `for shift := uint(0); ; shift += 7 { … }`: the number that was read and the bytes behind it.
unfoldable pub read_varint_from : Bytes → ℕ → ℕ → Outcome (ℕ × Bytes)
read_varint_from [] shift acc = if leb 64 shift then err int_overflow else err unexpected_eof
read_varint_from (b ∷ bs) shift acc =
    let acc' = add_group acc b shift in
    let more = read_varint_from bs (shift + 7) acc' in
    if leb 64 shift then err int_overflow else if ltb b 128 then ok (acc', bs) else more

unfoldable pub read_varint : Bytes → Outcome (ℕ × Bytes)
unfolding read_varint_from
read_varint bytes = read_varint_from bytes 0 0
