-- ===== src/Keeper/MsgServer/Authority.antt =====
-- Only the admin of a denom acts on it.
use tokenfactory.Base.{◌≡◌, refl, sym, ap, subst, ◌∙◌, Option, none, some, not, ◌⊎◌, inl, inr}
use tokenfactory.Base.Bytes.{Bytes, same, same→eq, ne→same, same-cases}
use tokenfactory.Base.Outcome.{Outcome, ok, err, panic, unauthorized, fail_if-eq-ok, ok-injective}
use tokenfactory.Env.{Env}
use tokenfactory.Types.Authority.{DenomAuthorityMetadata}
use tokenfactory.Types.Messages.{
  Msg, MsgMint, MsgBurn, MsgForceTransfer, MsgChangeAdmin, MsgSetDenomMetadata, sender_of,
}
use tokenfactory.Keeper.Exec.{after, asks, fail_if, ◌>>◌}
use tokenfactory.Keeper.Exec.Laws.{>>=-eq-ok}
use tokenfactory.Keeper.State.{State, Action}
use tokenfactory.Keeper.Admins.{get_authority_metadata, set_authority_metadata, set_admin}
use tokenfactory.Keeper.MsgServer.{
  check_admin, handle_mint, handle_burn, handle_force_transfer, handle_change_admin,
  handle_set_denom_metadata, handle,
}
use tokenfactory.Keeper.MsgServer.Refuses.{
  Refuses, not-eq-false, Refuses-bind, Refuses-lift, Refuses-gets, Refuses-fail_if, Refuses-asks,
  Refuses-same,
}

module _ (env : Env) where
  -- What the check has found out when it lets a message pass.
  pub check_admin_passed :
      (d x : Bytes) (s t : State env) {u : Unit {0}}
      → check_admin env d x s ≡ (ok u, t)
      → (t ≡ s) × (get_authority_metadata env d s ≡ ok (record { admin = x }))
  unfolding check_admin
  check_admin_passed d x s t h =
      let (m, s', read, test) = >>=-eq-ok (asks (get_authority_metadata env d)) _ s h in
      let e : x ≡ m.admin =
        same→eq _ _ (not-eq-false _ (fail_if-eq-ok _ unauthorized (ap (λ r. r.0) test))) in
      (
        sym (ap (λ r. r.1) test) ∙ sym (ap (λ r. r.1) read),
        ap (λ r. r.0) read ∙ ap (λ a. ok (record { admin = a })) (sym e),
      )

  pub check_admin_unchanged : (d x : Bytes) (s : State env) → (check_admin env d x s).1 ≡ s
  unfolding check_admin
  check_admin_unchanged d x s = go (get_authority_metadata env d s)
    where
      go :
          (r : Outcome DenomAuthorityMetadata)
          → (after (λ m. fail_if (not (same x m.admin)) unauthorized) (r, s)).1 ≡ s
      go (ok m) = refl
      go (err e) = refl
      go (panic e) = refl

  -- The text is the admin of the denom on record; no record counts as the empty admin.
  abbrev pub IsAdmin : State env → Bytes → Bytes → Type 0
  IsAdmin s d x = get_authority_metadata env d s ≡ ok (record { admin = x })

  -- The admin that setAdmin reads it replaces, and keeps nothing else.
  pub set_admin-set_authority_metadata :
      (s : State env) (d x a : Bytes)
      → IsAdmin s d x
      → set_admin env d a s ≡ set_authority_metadata env d (record { admin = a }) s
  unfolding set_admin
  set_admin-set_authority_metadata s d x a h =
      ap (λ r. after (λ m. set_authority_metadata env d (record m { admin = a })) (r, s)) h

  check_admin-Refuses :
      (d x : Bytes) (s : State env) → ¬ IsAdmin s d x → Refuses (check_admin env d x) s
  unfolding check_admin
  check_admin-Refuses d x s n = Refuses-asks s (get_authority_metadata env d) _ λ m found.
      Refuses-same s (same x m.admin) unauthorized
        (ne→same x m.admin (λ e. n (found ∙ ap (λ a. ok (record { admin = a })) (sym e))))

  -- The denom on which a message acts; CreateDenom acts on none that is there.
  abbrev pub subject : Msg env → Option Bytes
  subject (Msg.create_denom m) = none
  subject (Msg.mint m) = some m.amount.denom
  subject (Msg.burn m) = some m.amount.denom
  subject (Msg.force_transfer m) = some m.amount.denom
  subject (Msg.change_admin m) = some m.denom
  subject (Msg.set_denom_metadata m) = some (env.base m.metadata)

  Refuses-check_admin :
      {B : Type 0} (s : State env) (d x : Bytes) (k : Action env B)
      → ¬ IsAdmin s d x
      → Refuses (check_admin env d x >> k) s
  Refuses-check_admin s d x k n =
      Refuses-bind (check_admin env d x) (λ _. k) s (check_admin-Refuses d x s n)

  module _ (s : State env) where
    handle_mint-Refuses :
        (x : MsgMint) → ¬ IsAdmin s x.amount.denom x.sender → Refuses (handle_mint env x) s
    unfolding handle_mint
    handle_mint-Refuses x n =
        search (Refuses-gets, Refuses-fail_if, Refuses-check_admin s x.amount.denom x.sender)

    handle_burn-Refuses :
        (x : MsgBurn) → ¬ IsAdmin s x.amount.denom x.sender → Refuses (handle_burn env x) s
    unfolding handle_burn
    handle_burn-Refuses x n = Refuses-check_admin s x.amount.denom x.sender _ n

    handle_force_transfer-Refuses :
        (x : MsgForceTransfer)
        → ¬ IsAdmin s x.amount.denom x.sender
        → Refuses (handle_force_transfer env x) s
    unfolding handle_force_transfer
    handle_force_transfer-Refuses x n = Refuses-check_admin s x.amount.denom x.sender _ n

    handle_change_admin-Refuses :
        (x : MsgChangeAdmin) → ¬ IsAdmin s x.denom x.sender → Refuses (handle_change_admin env x) s
    unfolding handle_change_admin
    handle_change_admin-Refuses x n = Refuses-check_admin s x.denom x.sender _ n

    handle_set_denom_metadata-Refuses :
        (x : MsgSetDenomMetadata env)
        → ¬ IsAdmin s (env.base x.metadata) x.sender
        → Refuses (handle_set_denom_metadata env x) s
    unfolding handle_set_denom_metadata
    handle_set_denom_metadata-Refuses x n =
        Refuses-lift s (env.metadata_validate x.metadata) _
          (λ _. Refuses-check_admin s (env.base x.metadata) x.sender _ n)

  not-IsAdmin_at :
      (s : State env) (d' d x : Bytes) → some d' ≡ some d → ¬ IsAdmin s d x → ¬ IsAdmin s d' x
  not-IsAdmin_at s d' d x e n h =
      let same_denom : d' ≡ d = cc in n (subst (λ (t : Bytes). IsAdmin s t x) same_denom h)

  -- A message that acts on a denom of which its sender is not the admin fails, and changes nothing: not
  -- the module's store, not the bank, not the events.
  pub handle-Refuses :
      (msg : Msg env) (s : State env) (d : Bytes)
      → subject msg ≡ some d
      → ¬ IsAdmin s d (sender_of env msg)
      → Refuses (handle env msg) s
  unfolding handle
  handle-Refuses (Msg.create_denom x) s d e n = cc
  handle-Refuses (Msg.mint x) s d e n =
      Refuses-bind _ _ s (handle_mint-Refuses s x (not-IsAdmin_at s _ d _ e n))
  handle-Refuses (Msg.burn x) s d e n =
      Refuses-bind _ _ s (handle_burn-Refuses s x (not-IsAdmin_at s _ d _ e n))
  handle-Refuses (Msg.force_transfer x) s d e n =
      Refuses-bind _ _ s (handle_force_transfer-Refuses s x (not-IsAdmin_at s _ d _ e n))
  handle-Refuses (Msg.change_admin x) s d e n =
      Refuses-bind _ _ s (handle_change_admin-Refuses s x (not-IsAdmin_at s _ d _ e n))
  handle-Refuses (Msg.set_denom_metadata x) s d e n =
      Refuses-bind _ _ s (handle_set_denom_metadata-Refuses s x (not-IsAdmin_at s _ d _ e n))

  -- Whether the text is the admin can be told.
  IsAdmin-dec : (s : State env) (d x : Bytes) → IsAdmin s d x ⊎ (¬ IsAdmin s d x)
  IsAdmin-dec s d x = go (get_authority_metadata env d s) refl
    where
      go :
          (r : Outcome DenomAuthorityMetadata)
          → get_authority_metadata env d s ≡ r
          → IsAdmin s d x ⊎ (¬ IsAdmin s d x)
      go (ok m) e = elim (same-cases m.admin x) [
        | inl (p, _) ↦ inl (e ∙ ap (λ a. ok (record { admin = a })) p)
        | inr (n, _) ↦ inr (λ h. n (ap DenomAuthorityMetadata.admin (ok-injective (sym e ∙ h))))
      ]
      go (err y) e = inr (λ h. cc)
      go (panic y) e = inr (λ h. cc)

  -- A message that goes through on a denom was sent by the admin that the denom had before it.
  pub handle_needs-IsAdmin :
      (msg : Msg env) (s t : State env) (d : Bytes) {r : Option Bytes}
      → subject msg ≡ some d
      → handle env msg s ≡ (ok r, t)
      → IsAdmin s d (sender_of env msg)
  handle_needs-IsAdmin msg s t d e h = elim (IsAdmin-dec s d (sender_of env msg)) [
    | inl is ↦ is
    | inr n ↦ absurd (rw h at (handle-Refuses msg s d e n).failed)
  ]
