-- ===== src/Codec/Fields.antt =====
-- What the generator writes for each field of a message and around them: MarshalToSizedBuffer and Size
-- field by field, and the loop of Unmarshal with its `switch` on the field number. The code is the
-- same in types/tx.pb.go, types/query.pb.go, types/params.pb.go and types/genesis.pb.go; a message
-- states its fields.
use tokenfactory.Base.{
  ℕ, zero, suc, ◌+◌, ◌-◌, ◌*◌, ◌%◌, List, [], ◌∷◌, ◌++◌, Option, none, some, ltb, ◌==◌, not,
  if◌then◌else◌, length,
}
use tokenfactory.Base.Bytes.{Bytes}
use tokenfactory.Base.Outcome.{
  Outcome, ok, panic, end_group, illegal_tag, wrong_wire_type, out_of_fuel, ◌>>=◌, ◌>>◌, fail_if,
}
use tokenfactory.Codec.Varint.{encode_varint, sov, read_varint}
use tokenfactory.Codec.Authority.{unmarshal_admin, skip_field, field_num, not_positive_int32}

-- The buffer is filled from its end; these are the bytes that stand there behind it, for field
-- number `k`. A tag is one byte up to number 15, and no message here has more than four fields.
-- A message field that is no pointer is always written.
unfoldable pub message_field : ℕ → Bytes → Bytes
message_field k b = (k * 8 + 2) ∷ (encode_varint (length b) ++ b)

-- `if len(m.Field) > 0`
unfoldable pub string_field : ℕ → Bytes → Bytes
string_field k s = if ltb 0 (length s) then message_field k s else []

-- `if m.Field != 0`
unfoldable pub uint64_field : ℕ → ℕ → Bytes
uint64_field k v = if v == 0 then [] else (k * 8) ∷ encode_varint v

-- `for iNdEx := len(m.Field) - 1; iNdEx >= 0; iNdEx--`: the last one is written first.
unfoldable pub repeated_field : {A : Type 0} → ℕ → (A → Outcome Bytes) → List A → Outcome Bytes
repeated_field k marshal [] = ok []
repeated_field k marshal (x ∷ xs) = do
  behind ← repeated_field k marshal xs
  b ← marshal x
  ok (message_field k b ++ behind)

-- The fields of a message, in order.
abbrev pub concat : List Bytes → Bytes
concat [] = []
concat (b ∷ bs) = b ++ concat bs

-- `n += 1 + l + sov(uint64(l))`
unfoldable pub message_size : ℕ → ℕ
message_size l = 1 + l + sov l

-- `if l > 0`
unfoldable pub string_size : Bytes → ℕ
string_size s = if ltb 0 (length s) then message_size (length s) else 0

-- `if m.Field != 0`
unfoldable pub uint64_size : ℕ → ℕ
uint64_size v = if v == 0 then 0 else 1 + sov v

-- `for _, e := range m.Field`
unfoldable pub repeated_size : {A : Type 0} → (A → ℕ) → List A → ℕ
repeated_size size [] = 0
repeated_size size (x ∷ xs) = message_size (size x) + repeated_size size xs

-- A case of the `switch`, from behind the tag: from the length of the whole input, the wire type, the
-- message and the bytes that are left, to the message and the bytes behind the field.
abbrev pub Case : Type 0 → Type 0
Case M = ℕ → ℕ → M → Bytes → Outcome (M × Bytes)

-- The case of a message: its bytes are cut out and handed to its own Unmarshal.
unfoldable pub message_case : {M : Type 0} → (M → Bytes → Outcome M) → Case M
message_case read l wire_type m rest = do
  (b, rest') ← unmarshal_admin l wire_type rest
  m' ← read m b
  ok (m', rest')

-- The case of a string: its bytes are stored.
unfoldable pub string_case : {M : Type 0} → (M → Bytes → M) → Case M
unfolding message_case
string_case store = message_case (λ m b. ok (store m b))

-- The case of a uint64.
unfoldable pub uint64_case : {M : Type 0} → (M → ℕ → M) → Case M
uint64_case store l wire_type m rest = do
  fail_if (not (wire_type == 0)) wrong_wire_type
  (v, rest') ← read_varint rest
  ok (store m v, rest')

-- `switch fieldNum` over fields that are numbered from 1.
abbrev pub case_at : {M : Type 0} → List (Case M) → ℕ → Option (Case M)
case_at [] k = none
case_at (c ∷ cs) zero = some c
case_at (c ∷ cs) (suc k) = case_at cs k

-- The case that was found, or `default`.
unfoldable pub run_case :
    {M : Type 0} → Option (Case M) → ℕ → ℕ → M → Bytes → Bytes → Outcome (M × Bytes)
run_case none l wire_type m bytes rest = do rest' ← skip_field l bytes; ok (m, rest')
run_case (some c) l wire_type m bytes rest = c l wire_type m rest

-- One round of the loop: the message and the bytes that are left.
unfoldable pub message_round : {M : Type 0} → List (Case M) → ℕ → M → Bytes → Outcome (M × Bytes)
unfolding run_case
message_round cases l m bytes = do
  (wire, rest) ← read_varint bytes
  fail_if (wire % 8 == 4) end_group
  fail_if (not_positive_int32 (field_num wire)) illegal_tag
  run_case (case_at cases (field_num wire - 1)) l (wire % 8) m bytes rest

-- `for iNdEx < l`, with fuel. A round takes a byte at least.
unfoldable pub message_from : {M : Type 0} → List (Case M) → ℕ → ℕ → M → Bytes → Outcome M
unfolding message_round
message_from cases fuel l m [] = ok m
message_from cases zero l m (b ∷ bs) = panic out_of_fuel
message_from cases (suc fuel) l m (b ∷ bs) =
    message_round cases l m (b ∷ bs) >>= λ r. message_from cases fuel l r.0 r.1

-- Unmarshal into a message that is there.
unfoldable pub unmarshal_into : {M : Type 0} → List (Case M) → M → Bytes → Outcome M
unfolding message_from
unmarshal_into cases m bytes = message_from cases (length bytes) (length bytes) m bytes
