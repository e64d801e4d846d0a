-- ===== src/Codec/Laws/MessagesTotal.antt =====
-- Unmarshal of a message ends on every input: its loop does not run out of fuel, and nothing panics
-- where the codecs of the SDK do not.
use tokenfactory.Base.{
  ℕ, zero, suc, ◌-◌, ◌%◌, ◌≤◌, ◌<◌, ◌≡◌, List, [], ◌∷◌, arith, length, ◌⊎◌, inl, inr, ◌==◌, not,
  All,
}
use tokenfactory.Base.Bytes.{Bytes}
use tokenfactory.Base.Outcome.{
  Outcome, Error, ok, err, ◌>>=◌, end_group, illegal_tag, wrong_wire_type,
}
use tokenfactory.Env.{Env}
use tokenfactory.Types.Messages.{MsgCreateDenom, MsgChangeAdmin}
use tokenfactory.Codec.Authority.{field_num, not_positive_int32}
use tokenfactory.Codec.Wire.{Wire}
use tokenfactory.Codec.Fields.{
  Case, message_case, string_case, uint64_case, case_at, run_case, message_round, message_from,
  unmarshal_into,
}
use tokenfactory.Codec.Messages.{
  create_denom_cases, unmarshal_create_denom, change_admin_cases, unmarshal_change_admin,
}
use tokenfactory.Codec.Laws.Total.{
  Ends, with_ok, with_err, Ends-bind, Ends-fail_if, Ends-ok_or_err, read_varint-Ends,
  unmarshal_admin-Ends, skip_field-Ends,
}

-- A result or an error, of which nothing is said.
abbrev pub Returns : {A : Type 0} → Outcome A → Type 0
Returns {A} o = Ends (λ (a : A). Unit {0}) o

pub Returns-of :
    {A : Type 0} (o : Outcome A) → ((a : A) × (o ≡ ok a)) ⊎ ((e : Error) × (o ≡ err e)) → Returns o
Returns-of o (inl (a, e)) = rw e (with_ok tt)
Returns-of o (inr (x, e)) = rw e with_err

pub Returns-then :
    {A B : Type 0} (o : Outcome A) (f : A → B) → Returns o → Returns (o >>= λ a. ok (f a))
Returns-then o f h = Ends-bind _ _ o _ h (λ a _. with_ok tt)

-- A case ends, behind bytes that it was given.
abbrev pub CaseEnds : {M : Type 0} → Case M → Type 0
CaseEnds {M} c =
    (l w : ℕ) (m : M) (bytes : Bytes) → Ends (λ r. length r.1 ≤ length bytes) (c l w m bytes)

module _ {M : Type 0} where
  pub message_case-Ends :
      (read : M → Bytes → Outcome M)
      → ((m : M) (b : Bytes) → Returns (read m b))
      → CaseEnds (message_case read)
  unfolding message_case
  message_case-Ends read h l w m bytes =
      Ends-bind _ _ _ _ (unmarshal_admin-Ends l w bytes)
        λ r shorter. Ends-bind _ _ _ _ (h m r.0) (λ m' _. with_ok (omega arith))

  pub string_case-Ends : (store : M → Bytes → M) → CaseEnds (string_case store)
  unfolding string_case
  string_case-Ends store = message_case-Ends _ (λ m b. with_ok tt)

  pub uint64_case-Ends : (store : M → ℕ → M) → CaseEnds (uint64_case store)
  unfolding uint64_case
  uint64_case-Ends store l w m bytes =
      Ends-fail_if _ (not (w == 0)) wrong_wire_type _
        (Ends-bind _ _ _ _ (read_varint-Ends bytes) (λ r shorter. with_ok (omega arith)))

  run_case-Ends :
      (cases : List (Case M)) (k l w : ℕ) (m : M) (bytes rest : Bytes)
      → All CaseEnds cases
      → length rest < length bytes
      → Ends (λ r. length r.1 < length bytes) (run_case (case_at cases k) l w m bytes rest)
  unfolding run_case
  run_case-Ends [] k l w m bytes rest hs h =
      Ends-bind _ _ _ _ (skip_field-Ends l bytes (omega arith)) (λ r h'. with_ok h')
  run_case-Ends (c ∷ cs) zero l w m bytes rest (hc, hs) h = shorter (hc l w m rest)
    where
      shorter :
          {o : Outcome (M × Bytes)}
          → Ends (λ (r : M × Bytes). length r.1 ≤ length rest) o
          → Ends (λ (r : M × Bytes). length r.1 < length bytes) o
      shorter (with_ok p) = with_ok (omega arith)
      shorter with_err = with_err
  run_case-Ends (c ∷ cs) (suc k) l w m bytes rest (hc, hs) h =
      run_case-Ends cs k l w m bytes rest hs h

  message_round-Ends :
      (cases : List (Case M)) (l : ℕ) (m : M) (bytes : Bytes)
      → All CaseEnds cases
      → Ends (λ r. length r.1 < length bytes) (message_round cases l m bytes)
  unfolding message_round
  message_round-Ends cases l m bytes hs = Ends-bind _ _ _ _ (read_varint-Ends bytes) λ r shorter.
      Ends-fail_if _ (r.0 % 8 == 4) end_group _ (
        Ends-fail_if _ (not_positive_int32 (field_num r.0)) illegal_tag _
          (run_case-Ends cases (field_num r.0 - 1) l (r.0 % 8) m bytes r.1 hs shorter))

  message_from-Ends :
      (cases : List (Case M)) (fuel l : ℕ) (m : M) (bytes : Bytes)
      → All CaseEnds cases
      → length bytes ≤ fuel
      → Returns (message_from cases fuel l m bytes)
  unfolding message_from
  message_from-Ends cases fuel l m [] hs h = with_ok tt
  message_from-Ends cases zero l m (b ∷ bs) hs h = absurd (omega arith)
  message_from-Ends cases (suc fuel) l m (b ∷ bs) hs h =
      Ends-bind _ _ _ _ (message_round-Ends cases l m (b ∷ bs) hs)
        λ r shorter. message_from-Ends cases fuel l r.0 r.1 hs (omega arith)

  pub unmarshal_into-Ends :
      (cases : List (Case M)) (m : M) (bytes : Bytes)
      → All CaseEnds cases
      → Returns (unmarshal_into cases m bytes)
  unfolding unmarshal_into
  unmarshal_into-Ends cases m bytes hs = message_from-Ends cases _ _ m bytes hs (omega arith)

create_denom-Ends : (bytes : Bytes) → Returns (unmarshal_create_denom bytes)
unfolding unmarshal_create_denom
create_denom-Ends bytes =
    unmarshal_into-Ends create_denom_cases _ bytes (string_case-Ends _, (string_case-Ends _, tt))

change_admin-Ends : (bytes : Bytes) → Returns (unmarshal_change_admin bytes)
unfolding unmarshal_change_admin
change_admin-Ends bytes =
    unmarshal_into-Ends change_admin_cases _ bytes
      (string_case-Ends _, (string_case-Ends _, (string_case-Ends _, tt)))

-- Unmarshal of a MsgCreateDenom returns a message or an error on every input of bytes.
pub unmarshal_create_denom_total :
    (bytes : Bytes)
    → ((m : MsgCreateDenom) × (unmarshal_create_denom bytes ≡ ok m))
      ⊎ ((e : Error) × (unmarshal_create_denom bytes ≡ err e))
unmarshal_create_denom_total bytes = Ends-ok_or_err _ (create_denom-Ends bytes)

-- Unmarshal of a MsgChangeAdmin returns a message or an error on every input of bytes.
pub unmarshal_change_admin_total :
    (bytes : Bytes)
    → ((m : MsgChangeAdmin) × (unmarshal_change_admin bytes ≡ ok m))
      ⊎ ((e : Error) × (unmarshal_change_admin bytes ≡ err e))
unmarshal_change_admin_total bytes = Ends-ok_or_err _ (change_admin-Ends bytes)
