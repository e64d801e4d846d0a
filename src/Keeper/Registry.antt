-- ===== src/Keeper/Registry.antt =====
-- What the keeper promises of its state, without keys, bytes or order: who the admin of each denom is,
-- and which denoms each creator has.
pub mod Refines
pub mod Run
pub mod Supply
pub mod Listed
use tokenfactory.Base.{◌≡◌, ◌⊎◌, ◌↔◌, List, [], ◌∷◌, Elem, false, if◌then◌else◌}
use tokenfactory.Base.Bytes.{Bytes, same, contains}
use tokenfactory.Base.Outcome.{Outcome, ok}
use tokenfactory.Env.{Env}
use tokenfactory.Types.Keys.Separation.{bar}
use tokenfactory.Types.Denoms.{token_denom}
use tokenfactory.Types.Authority.{DenomAuthorityMetadata}
use tokenfactory.Types.Messages.{Msg, sender_of}
use tokenfactory.Keeper.State.{State}
use tokenfactory.Keeper.Admins.{get_authority_metadata}
use tokenfactory.Keeper.Creators.{get_denoms_from_creator}

pub record Registry : Type 1 where
  pub admin_of : Bytes → Outcome DenomAuthorityMetadata
  pub is_listed : Bytes → Bytes → Type 0

-- The denom gets the admin.
unfoldable pub assign : Bytes → Bytes → Registry → Registry
assign d a r = record r {
  admin_of = λ e. if same d e then ok (record { admin = a }) else r.admin_of e;
}

-- The creator gets the denom, and is its admin.
unfoldable pub register : Bytes → Bytes → Registry → Registry
unfolding assign
register c d r = record (assign d c r) {
  is_listed = λ c' e. ((c ≡ c') × (d ≡ e)) ⊎ r.is_listed c' e;
}

-- The same admins, and the same denoms for each creator without "|" in its name.
pub record Agrees (r r' : Registry) : Type 0 where
  pub admins : (d : Bytes) → r.admin_of d ≡ r'.admin_of d
  pub lists : (c e : Bytes) → contains bar c ≡ false → r.is_listed c e ↔ r'.is_listed c e

module _ (env : Env) where
  -- The registry that a state of the keeper holds.
  unfoldable pub view : State env → Registry
  view s = record {
    admin_of = λ d. get_authority_metadata env d s;
    is_listed = λ c e. Elem e (get_denoms_from_creator env c s);
  }

  -- What a message does to the registry when it is carried out.
  unfoldable pub transition : Msg env → Registry → Registry
  unfolding register
  transition (Msg.create_denom m) r = register m.sender (token_denom m.sender m.subdenom) r
  transition (Msg.mint m) r = r
  transition (Msg.burn m) r = r
  transition (Msg.force_transfer m) r = r
  transition (Msg.change_admin m) r = assign m.denom m.new_admin r
  transition (Msg.set_denom_metadata m) r = r

  unfoldable pub transitions : List (Msg env) → Registry → Registry
  transitions [] r = r
  transitions (m ∷ ms) r = transitions ms (transition m r)

  -- The sender is the admin of the denom that the message acts on.
  unfoldable pub IsPermitted : Msg env → Registry → Type 0
  IsPermitted (Msg.create_denom m) r = Unit
  IsPermitted (Msg.mint m) r = r.admin_of m.amount.denom ≡ ok (record { admin = m.sender })
  IsPermitted (Msg.burn m) r = r.admin_of m.amount.denom ≡ ok (record { admin = m.sender })
  IsPermitted (Msg.force_transfer m) r =
      r.admin_of m.amount.denom ≡ ok (record { admin = m.sender })
  IsPermitted (Msg.change_admin m) r = r.admin_of m.denom ≡ ok (record { admin = m.sender })
  IsPermitted (Msg.set_denom_metadata m) r =
      r.admin_of (env.base m.metadata) ≡ ok (record { admin = m.sender })

  -- Each message is permitted in the registry that those before it leave.
  unfoldable pub ArePermitted : List (Msg env) → Registry → Type 0
  ArePermitted [] r = Unit
  ArePermitted (m ∷ ms) r = IsPermitted m r × ArePermitted ms (transition m r)
