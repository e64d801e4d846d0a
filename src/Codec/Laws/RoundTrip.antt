-- ===== src/Codec/Laws/RoundTrip.antt =====
-- Authority metadata survives its encoding.

use tokenfactory.Base.{
  ℕ, suc, ◌^◌, ◌≤◌, ◌<◌, ◌≡◌, refl, ap, [], ◌∷◌, ◌++◌, arith, length, length-append, take, drop,
}
use tokenfactory.Base.Bytes.{Bytes}
use tokenfactory.Base.Outcome.{ok}
use tokenfactory.Types.Authority.{DenomAuthorityMetadata, no_admin}
use tokenfactory.Codec.Varint.{encode_varint, read_varint, read_varint_from}
use tokenfactory.Codec.Authority.{
  marshal, unmarshal_admin, unmarshal_field, unmarshal_from, unmarshal,
}
use tokenfactory.Codec.Laws.Varints.{read_varint-encode_varint}

take_all : (xs : Bytes) → take (length xs) xs ≡ xs
take_all [] = refl
take_all (x ∷ xs) = ap (λ t. x ∷ t) (take_all xs)

drop_all : (xs : Bytes) → drop (length xs) xs ≡ []
drop_all [] = refl
drop_all (x ∷ xs) = drop_all xs

-- The field that `marshal` writes behind its tag is read back whole.
unmarshal_admin-encode :
    (l : ℕ) (admin : Bytes)
    → length admin ≤ l
    → l < 2 ^ 63
    → unmarshal_admin l 2 (encode_varint (length admin) ++ admin) ≡ ok (admin, [])
unfolding unmarshal_admin
unmarshal_admin-encode l admin h fits =
    ground (arith, read_varint-encode_varint (length admin) admin, take_all admin, drop_all admin)

read_tag : (rest : Bytes) → read_varint (0xa ∷ rest) ≡ ok (10, rest)
unfolding read_varint read_varint_from
read_tag rest = refl

unmarshal_field-encode :
    (l : ℕ) (m : DenomAuthorityMetadata) (admin : Bytes)
    → length admin ≤ l
    → l < 2 ^ 63
    → unmarshal_field l m (0xa ∷ (encode_varint (length admin) ++ admin))
      ≡ ok (record { admin = admin }, [])
unfolding unmarshal_field
unmarshal_field-encode l m admin h fits =
    rw (read_tag (encode_varint (length admin) ++ admin))
      (rw (unmarshal_admin-encode l admin h fits))

unmarshal_from-encode :
    (f l : ℕ) (admin : Bytes)
    → length admin ≤ l
    → l < 2 ^ 63
    → unmarshal_from (suc f) l no_admin (0xa ∷ (encode_varint (length admin) ++ admin))
      ≡ ok (record { admin = admin })
unfolding unmarshal_from
unmarshal_from-encode f l admin h fits =
    rw (unmarshal_field-encode l no_admin admin h fits, unmarshal_from)

marshal-cons :
    (b : ℕ) (bs : Bytes)
    → marshal (record { admin = b ∷ bs }) ≡ 0xa ∷ (encode_varint (length (b ∷ bs)) ++ (b ∷ bs))
unfolding marshal
marshal-cons b bs = ground arith

unmarshal-encode :
    (admin : Bytes)
    → length (0xa ∷ (encode_varint (length admin) ++ admin)) < 2 ^ 63
    → unmarshal (0xa ∷ (encode_varint (length admin) ++ admin)) ≡ ok (record { admin = admin })
unfolding unmarshal
unmarshal-encode admin h =
    unmarshal_from-encode _ _ admin
      (omega (arith, length-append (encode_varint (length admin)) admin)) h

round_trip_of :
    (admin : Bytes)
    → length (marshal (record { admin = admin })) < 2 ^ 63
    → unmarshal (marshal (record { admin = admin })) ≡ ok (record { admin = admin })
round_trip_of [] h = unfold marshal unmarshal unmarshal_from in refl
round_trip_of (b ∷ bs) h =
    rw (marshal-cons b bs) (unmarshal-encode (b ∷ bs) (rw (marshal-cons b bs) at h))

-- Unmarshal gives back the metadata that Marshal wrote, if the encoding is no longer than a Go slice
-- can be.
pub unmarshal-marshal :
    (m : DenomAuthorityMetadata) → length (marshal m) < 2 ^ 63 → unmarshal (marshal m) ≡ ok m
unmarshal-marshal m h = round_trip_of m.admin h
