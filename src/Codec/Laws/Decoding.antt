-- ===== src/Codec/Laws/Decoding.antt =====
-- The loop of Unmarshal reads the fields of a message one by one.
use mathlib.Core.List.{append_assoc}
use tokenfactory.Base.{
  ℕ, zero, suc, ◌+◌, ◌*◌, ◌^◌, ◌≤◌, ◌<◌, ◌≡◌, refl, List, [], ◌∷◌, ◌++◌, some, arith, length,
  length-append, take-append, drop-append,
}
use tokenfactory.Base.Bytes.{Bytes}
use tokenfactory.Base.Outcome.{Outcome, ok, >>=-eq-ok}
use tokenfactory.Codec.Varint.{encode_varint, read_varint, read_varint_from}
use tokenfactory.Codec.Authority.{unmarshal_admin}
use tokenfactory.Codec.Fields.{
  message_field, string_field, uint64_field, repeated_field, Case, message_case, string_case,
  uint64_case, case_at, run_case, message_round, message_from, unmarshal_into,
}
use tokenfactory.Codec.Laws.Varints.{read_varint-encode_varint}

-- A string with its length in front is read back, and what follows it is left.
unmarshal_admin-behind :
    (l : ℕ) (s rest : Bytes)
    → length s + length rest ≤ l
    → l < 2 ^ 63
    → unmarshal_admin l 2 (encode_varint (length s) ++ (s ++ rest)) ≡ ok (s, rest)
unfolding unmarshal_admin
unmarshal_admin-behind l s rest h fits = ground (
  arith,
  read_varint-encode_varint (length s) (s ++ rest),
  take-append s rest,
  drop-append s rest,
  length-append s rest,
)

read_short_tag : (t : ℕ) (rest : Bytes) → t < 128 → read_varint (t ∷ rest) ≡ ok (t, rest)
unfolding read_varint read_varint_from
read_short_tag t rest h = ground arith

string_field-cons : (k x : ℕ) (s : Bytes) → string_field k (x ∷ s) ≡ message_field k (x ∷ s)
unfolding string_field
string_field-cons k x s = ground arith

uint64_field-suc : (k v : ℕ) → uint64_field k (suc v) ≡ (k * 8) ∷ encode_varint (suc v)
unfolding uint64_field
uint64_field-suc k v = ground arith

module _ {M : Type 0} (cases : List (Case M)) (l : ℕ) where
  -- From `m` on, the loop reads `bytes` and returns `r`, with any fuel that is enough.
  abbrev pub Decodes : M → Bytes → M → Type 0
  Decodes m bytes r =
      (fuel : ℕ) → length bytes ≤ fuel → length bytes ≤ l → message_from cases fuel l m bytes ≡ ok r

  pub Decodes-nil : (m : M) → Decodes m [] m
  unfolding message_from
  Decodes-nil m fuel h h' = refl

  -- A round that reads a field, and the loop behind it.
  Decodes-round :
      (tag : ℕ) (rest rest' : Bytes) (m m' r : M)
      → length rest' ≤ length rest
      → (length (tag ∷ rest) ≤ l → message_round cases l m (tag ∷ rest) ≡ ok (m', rest'))
      → Decodes m' rest' r
      → Decodes m (tag ∷ rest) r
  unfolding message_from
  Decodes-round tag rest rest' m m' r shorter round later zero h h' = absurd (omega arith)
  Decodes-round tag rest rest' m m' r shorter round later (suc fuel) h h' =
      rw (round h') (later fuel (omega arith) (omega arith))

-- The elements are appended one by one.
abbrev pub add_all : {M A : Type 0} → (M → A → M) → M → List A → M
add_all add m [] = m
add_all add m (x ∷ xs) = add_all add (add m x) xs

module _ {M A : Type 0} (l : ℕ) (marshal : A → Outcome Bytes) (read : M → Bytes → Outcome M)
    (add : M → A → M) where
  -- What was written of the elements is read back, one by one.
  abbrev pub ReadsBack : List A → Type 0
  ReadsBack [] = Unit
  ReadsBack (x ∷ xs) =
      ((m : M) (b : Bytes) → marshal x ≡ ok b → length b ≤ l → read m b ≡ ok (add m x))
      × ReadsBack xs

module _ {M : Type 0} (cases : List (Case M)) (l : ℕ) (fits : l < 2 ^ 63) where
  message_round-message :
      (k : ℕ) (read : M → Bytes → Outcome M) (b rest : Bytes) (m m' : M)
      → case_at cases k ≡ some (message_case read)
      → k < 15
      → read m b ≡ ok m'
      → length b + length rest ≤ l
      → message_round cases l m ((suc k * 8 + 2) ∷ (encode_varint (length b) ++ (b ++ rest)))
        ≡ ok (m', rest)
  unfolding message_round run_case message_case
  message_round-message k read b rest m m' found few hr h = ground (
    arith,
    read_short_tag (suc k * 8 + 2) (encode_varint (length b) ++ (b ++ rest)),
    unmarshal_admin-behind l b rest h fits,
  )

  message_round-uint64 :
      (k : ℕ) (store : M → ℕ → M) (v : ℕ) (rest : Bytes) (m : M)
      → case_at cases k ≡ some (uint64_case store)
      → k < 15
      → v < 2 ^ 64
      → message_round cases l m ((suc k * 8) ∷ (encode_varint v ++ rest)) ≡ ok (store m v, rest)
  unfolding message_round run_case uint64_case
  message_round-uint64 k store v rest m found few hv = ground (
    arith,
    read_short_tag (suc k * 8) (encode_varint v ++ rest),
    read_varint-encode_varint v rest hv,
  )

  -- What each field adds to the message.
  pub Decodes-message :
      (k : ℕ) (read : M → Bytes → Outcome M) (b rest : Bytes) (m m' r : M)
      → case_at cases k ≡ some (message_case read)
      → k < 15
      → (length b ≤ l → read m b ≡ ok m')
      → Decodes cases l m' rest r
      → Decodes cases l m (message_field (suc k) b ++ rest) r
  unfolding message_field
  Decodes-message k read b rest m m' r found few hr later =
      rw (append_assoc (encode_varint (length b)) b rest) (
        Decodes-round cases l (suc k * 8 + 2) (encode_varint (length b) ++ (b ++ rest)) rest m m' r
          (omega (arith, whole))
          (λ h.
            message_round-message k read b rest m m' found few (hr (omega (arith, whole)))
              (omega (arith, whole)))
          later)
    where
      whole :
          length (encode_varint (length b) ++ (b ++ rest))
          ≡ length (encode_varint (length b)) + length b + length rest
      whole =
          omega (arith, length-append (encode_varint (length b)) (b ++ rest), length-append b rest)

  pub Decodes-string :
      (k : ℕ) (store : M → Bytes → M) (s rest : Bytes) (m r : M)
      → case_at cases k ≡ some (string_case store)
      → k < 15
      → store m [] ≡ m
      → Decodes cases l (store m s) rest r
      → Decodes cases l m (string_field (suc k) s ++ rest) r
  unfolding string_field string_case
  Decodes-string k store [] rest m r found few same later = rw (same) at later
  Decodes-string k store (x ∷ s) rest m r found few same later =
      rw (string_field-cons (suc k) x s) (
        Decodes-message k (λ m b. ok (store m b)) (x ∷ s) rest m (store m (x ∷ s)) r found few
          (λ h. refl) later)

  pub Decodes-uint64 :
      (k : ℕ) (store : M → ℕ → M) (v : ℕ) (rest : Bytes) (m r : M)
      → case_at cases k ≡ some (uint64_case store)
      → k < 15
      → v < 2 ^ 64
      → store m 0 ≡ m
      → Decodes cases l (store m v) rest r
      → Decodes cases l m (uint64_field (suc k) v ++ rest) r
  unfolding uint64_field
  Decodes-uint64 k store zero rest m r found few hv same later = rw (same) at later
  Decodes-uint64 k store (suc v) rest m r found few hv same later =
      rw (uint64_field-suc (suc k) v) (
        Decodes-round cases l (suc k * 8) (encode_varint (suc v) ++ rest) rest m (store m (suc v)) r
          (omega (arith, length-append (encode_varint (suc v)) rest))
          (λ h. message_round-uint64 k store (suc v) rest m found few hv) later)

  module _ {A : Type 0} (k : ℕ) (marshal : A → Outcome Bytes) (read : M → Bytes → Outcome M)
      (add : M → A → M) where
    pub Decodes-repeated :
        (xs : List A) (bytes rest : Bytes) (m r : M)
        → case_at cases k ≡ some (message_case read)
        → k < 15
        → ReadsBack l marshal read add xs
        → repeated_field (suc k) marshal xs ≡ ok bytes
        → Decodes cases l (add_all add m xs) rest r
        → Decodes cases l m (bytes ++ rest) r
    unfolding repeated_field
    Decodes-repeated [] bytes rest m r found few back written later =
        let e : bytes ≡ [] = cc in rw e later
    Decodes-repeated (x ∷ xs) bytes rest m r found few back written later =
        let (behind, eb, h) = >>=-eq-ok (repeated_field (suc k) marshal xs) _ written in
        let (b, ex, h') = >>=-eq-ok (marshal x) _ h in
        let e : bytes ≡ message_field (suc k) b ++ behind = cc in
        rw (e, append_assoc (message_field (suc k) b) behind rest)
          (Decodes-message k read b (behind ++ rest) m (add m x) r found few (back.0 m b ex)
            (Decodes-repeated xs behind rest (add m x) r found few back.1 eb later))

-- Unmarshal returns what the loop reads.
pub unmarshal_into-Decodes :
    {M : Type 0} (cases : List (Case M)) (m r : M) (bytes : Bytes)
    → Decodes cases (length bytes) m bytes r
    → unmarshal_into cases m bytes ≡ ok r
unfolding unmarshal_into
unmarshal_into-Decodes cases m r bytes d = d (length bytes) (omega arith) (omega arith)
