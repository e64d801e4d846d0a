-- ===== src/Codec/Authority.antt =====
-- DenomAuthorityMetadata's Marshal, Size and Unmarshal in types/authorityMetadata.pb.go.
use tokenfactory.Base.{
  ℕ, zero, suc, ◌+◌, ◌-◌, ◌/◌, ◌%◌, ◌^◌, [], ◌∷◌, ◌++◌, ltb, leb, ◌==◌, if◌then◌else◌, not, ◌||◌,
  length, take, drop, Bool,
}
use tokenfactory.Base.Bytes.{Bytes}
use tokenfactory.Base.Outcome.{
  Outcome, ok, panic, invalid_length, unexpected_eof, wrong_wire_type, illegal_tag, end_group,
  out_of_fuel, index_out_of_range, ◌>>=◌, ◌>>◌, fail_if,
}
use tokenfactory.Codec.Varint.{encode_varint, sov, read_varint}
use tokenfactory.Codec.Skip.{int_limit, skip}
use tokenfactory.Types.Authority.{DenomAuthorityMetadata, no_admin}

-- MarshalToSizedBuffer: the buffer is filled from its end, so each write goes in front.
unfoldable pub marshal : DenomAuthorityMetadata → Bytes
marshal m = if ltb 0 (length m.admin) then 0xa ∷ (encode_varint (length m.admin) ++ m.admin) else []

-- Size
unfoldable pub size : DenomAuthorityMetadata → ℕ
size m = let l = length m.admin in if ltb 0 l then 1 + l + sov l else 0

-- `fieldNum := int32(wire >> 3)`, and its test `fieldNum <= 0`.
abbrev pub field_num : ℕ → ℕ
field_num wire = wire / 8 % 2 ^ 32

abbrev pub not_positive_int32 : ℕ → Bool
not_positive_int32 n = n == 0 || leb (2 ^ 31) n

-- `dAtA[iNdEx:iNdEx+n]`, and the bytes behind it. A slice that passes the end of the bytes panics.
abbrev pub cut : ℕ → Bytes → Outcome (Bytes × Bytes)
cut n rest = if leb n (length rest) then ok (take n rest, drop n rest) else panic index_out_of_range

-- `case 1`, from behind the tag: `l` is the length of the whole input, `rest` what is left of it.
unfoldable pub unmarshal_admin : ℕ → ℕ → Bytes → Outcome (Bytes × Bytes)
unmarshal_admin l wire_type rest = do
  fail_if (not (wire_type == 2)) wrong_wire_type
  (string_len, rest') ← read_varint rest
  fail_if (leb int_limit string_len) invalid_length
  fail_if (leb int_limit ((l - length rest') + string_len)) invalid_length
  fail_if (ltb l ((l - length rest') + string_len)) unexpected_eof
  cut string_len rest'

-- `default`, from the tag on.
unfoldable pub skip_field : ℕ → Bytes → Outcome Bytes
skip_field l bytes = do
  skippy ← skip bytes
  fail_if (leb int_limit skippy || leb int_limit ((l - length bytes) + skippy)) invalid_length
  fail_if (ltb l ((l - length bytes) + skippy)) unexpected_eof
  ok (drop skippy bytes)

-- One round of the loop: the message and the bytes that are left.
unfoldable pub unmarshal_field :
    ℕ → DenomAuthorityMetadata → Bytes → Outcome (DenomAuthorityMetadata × Bytes)
unfolding unmarshal_admin skip_field
unmarshal_field l m bytes = do
  (wire, rest) ← read_varint bytes
  fail_if (wire % 8 == 4) end_group
  fail_if (not_positive_int32 (field_num wire)) illegal_tag
  if field_num wire == 1
      then (do
        (admin, rest') ← unmarshal_admin l (wire % 8) rest
        ok (record { admin = admin }, rest'))
      else (do rest' ← skip_field l bytes; ok (m, rest'))

-- `for iNdEx < l`, with fuel. A round takes a byte at least.
unfoldable pub unmarshal_from :
    ℕ → ℕ → DenomAuthorityMetadata → Bytes → Outcome DenomAuthorityMetadata
unfolding unmarshal_field
unmarshal_from fuel l m [] = ok m
unmarshal_from zero l m (b ∷ bs) = panic out_of_fuel
unmarshal_from (suc fuel) l m (b ∷ bs) =
    unmarshal_field l m (b ∷ bs) >>= λ r. unmarshal_from fuel l r.0 r.1

-- Unmarshal into a fresh message.
unfoldable pub unmarshal : Bytes → Outcome DenomAuthorityMetadata
unfolding unmarshal_from
unmarshal bytes = unmarshal_from (length bytes) (length bytes) no_admin bytes
