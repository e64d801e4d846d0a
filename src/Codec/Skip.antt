-- ===== src/Codec/Skip.antt =====
-- skipAuthorityMetadata: the length of a field that the message does not know.
use tokenfactory.Base.{
  ℕ, zero, suc, ◌+◌, ◌-◌, ◌%◌, ◌^◌, [], ◌∷◌, leb, ◌==◌, if◌then◌else◌, length, drop, true, false,
}
use tokenfactory.Base.Bytes.{Bytes}
use tokenfactory.Base.Outcome.{
  Outcome, ok, err, panic, invalid_length, unexpected_eof, unexpected_end_of_group,
  illegal_wire_type, out_of_fuel, ◌>>=◌, ◌>>◌, fail_if,
}
use tokenfactory.Codec.Varint.{read_varint}

-- The first number that Go's int cannot hold: what passes it comes out negative.
abbrev pub int_limit : ℕ
int_limit = 2 ^ 63

-- The variables of the loop: `iNdEx`, the bytes from there on, `depth`.
pub record Cursor : Type 0 where
  pub index : ℕ
  pub rest : Bytes
  pub depth : ℕ

-- `iNdEx += n`, which may pass the end of the bytes.
abbrev pub advance : ℕ → Cursor → Cursor
advance n c = record { index = c.index + n; rest = drop n c.rest; depth = c.depth }

-- A cursor behind a varint: `rest` is what the read has left.
abbrev pub move_to : Bytes → Cursor → Cursor
move_to rest c = record {
  index = c.index + (length c.rest - length rest);
  rest = rest;
  depth = c.depth;
}

-- The `switch` on the wire type, from behind the tag.
unfoldable pub skip_value : ℕ → Cursor → Outcome Cursor
skip_value wire_type c =
    if wire_type == 0
    then (do (_, rest) ← read_varint c.rest; ok (move_to rest c))
    else if wire_type == 1
    then ok (advance 8 c)
    else if wire_type == 2
    then (do
      (n, rest) ← read_varint c.rest
      fail_if (leb int_limit n) invalid_length
      ok (advance n (move_to rest c)))
    else if wire_type == 3
    then ok (record c { depth = c.depth + 1 })
    else if wire_type == 4
    then (do fail_if (c.depth == 0) unexpected_end_of_group; ok (record c { depth = c.depth - 1 }))
    else if wire_type == 5
    then ok (advance 4 c)
    else err illegal_wire_type

-- One round: the tag, the value, and the test for a negative index.
unfoldable pub skip_round : Cursor → Outcome Cursor
unfolding skip_value
skip_round c = do
  (wire, rest) ← read_varint c.rest
  c' ← skip_value (wire % 8) (move_to rest c)
  fail_if (leb int_limit c'.index) invalid_length
  ok c'

-- `if depth == 0 { return iNdEx, nil }`, or the next round.
unfoldable pub return_or : (Cursor → Outcome ℕ) → Cursor → Outcome ℕ
return_or next c = elim (c.depth == 0) [ true ↦ ok c.index | false ↦ next c ]

-- `for iNdEx < l`, with fuel. A round takes a byte at least.
unfoldable pub skip_from : ℕ → Cursor → Outcome ℕ
unfolding skip_round return_or
skip_from zero c = panic out_of_fuel
skip_from (suc fuel) c = elim c.rest [
  | [] ↦ err unexpected_eof
  | b ∷ bs ↦ skip_round c >>= return_or (skip_from fuel)
]

unfoldable pub skip : Bytes → Outcome ℕ
unfolding skip_from
skip bytes = skip_from (length bytes + 1) (record { index = 0; rest = bytes; depth = 0 })
