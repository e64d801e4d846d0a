-- ===== src/Keeper/CreateDenom/Metadata.antt =====
-- What CreateDenom does to the denom metadata that the bank keeps.
use tokenfactory.Base.{
  ℕ, ◌≡◌, ◌≢◌, refl, ap, ◌∙◌, Bool, true, false, none, some, [], ◌∷◌, if◌then◌else◌,
}
use tokenfactory.Base.Bytes.{Bytes, same_refl, ne→same}
use tokenfactory.Base.Outcome.{Outcome}
use tokenfactory.Env.{Env, BankLaws, Coins, Effect}
use tokenfactory.Keeper.Exec.{lift, asks, pure, ◌>>=◌}
use tokenfactory.Keeper.Exec.Laws.{Does, Does-bind}
use tokenfactory.Keeper.State.{State, Action, call}
use tokenfactory.Keeper.CreateDenom.{
  charge_fee, charge_gas, charge_for_create_denom, register_metadata,
}
use tokenfactory.Keeper.CreateDenom.Laws.{register_metadata_new}

module _ (env : Env) where
  -- The bank has the same metadata for the same denoms.
  pub record SameMetadata (s t : State env) : Type 0 where
    pub at : (d : Bytes) → env.get_denom_metadata t.chain d ≡ env.get_denom_metadata s.chain d

  SameMetadata-trans : (s t u : State env) → SameMetadata s t → SameMetadata t u → SameMetadata s u
  SameMetadata-trans s t u h k = record { at = λ d. k.at d ∙ h.at d }

  abbrev KeepsMetadata : {A : Type 0} → Action env A → Type 0
  KeepsMetadata m = Does SameMetadata m

  module _ {A : Type 0} where
    KeepsMetadata-lift : (r : Outcome A) → KeepsMetadata (lift r)
    KeepsMetadata-lift r = record { at = λ s. record { at = λ d. refl } }

    KeepsMetadata-asks : (f : State env → Outcome A) → KeepsMetadata (asks f)
    KeepsMetadata-asks f = record { at = λ s. record { at = λ d. refl } }

    KeepsMetadata-pure : (a : A) → KeepsMetadata (pure a)
    KeepsMetadata-pure a = record { at = λ s. record { at = λ d. refl } }

    KeepsMetadata-call :
        (f : Effect env.Chain A)
        → ((c : env.Chain) (d : Bytes)
            → env.get_denom_metadata (f c).1 d ≡ env.get_denom_metadata c d)
        → KeepsMetadata (call env f)
    KeepsMetadata-call f h = record { at = λ s. record { at = h s.chain } }

    KeepsMetadata-if :
        (b : Bool) (m n : Action env A)
        → KeepsMetadata m
        → KeepsMetadata n
        → KeepsMetadata (if b then m else n)
    KeepsMetadata-if true m n hm hn = hm
    KeepsMetadata-if false m n hm hn = hn

  KeepsMetadata-bind :
      {A B : Type 0} (m : Action env A) (f : A → Action env B)
      → KeepsMetadata m
      → ((a : A) → KeepsMetadata (f a))
      → KeepsMetadata (m >>= f)
  KeepsMetadata-bind m f = Does-bind SameMetadata-trans m f

  ruleset keeps_metadata_rules = (
    KeepsMetadata-lift, KeepsMetadata-asks, KeepsMetadata-pure, KeepsMetadata-call,
    KeepsMetadata-if, KeepsMetadata-bind,
  )

  module _ (bank : BankLaws env) where
    charge_fee-KeepsMetadata : (fee : Coins) (c : Bytes) → KeepsMetadata (charge_fee env fee c)
    unfolding charge_fee
    charge_fee-KeepsMetadata none c = KeepsMetadata-pure tt
    charge_fee-KeepsMetadata (some fee) c =
        search (keeps_metadata_rules, bank.get-fund_community_pool)

    charge_gas-KeepsMetadata : (gas : ℕ) → KeepsMetadata (charge_gas env gas)
    unfolding charge_gas
    charge_gas-KeepsMetadata gas = search (keeps_metadata_rules, bank.get-consume_gas)

    -- The charge leaves the metadata of every denom alone.
    pub charge_for_create_denom-KeepsMetadata :
        (c : Bytes) → KeepsMetadata (charge_for_create_denom env c)
    unfolding charge_for_create_denom
    charge_for_create_denom-KeepsMetadata c =
        search (keeps_metadata_rules, charge_fee-KeepsMetadata, charge_gas-KeepsMetadata)

    -- Registration writes the metadata of the one denom.
    pub register_metadata_self :
        (d : Bytes) (s : State env)
        → env.get_denom_metadata s.chain d ≡ none
        → env.get_denom_metadata (register_metadata env d s).chain d
          ≡ some (env.new_metadata ((d, 0) ∷ []) d)
    register_metadata_self d s e =
        ap (λ (x : State env). env.get_denom_metadata x.chain d) (register_metadata_new env d s e)
        ∙ bank.get-set (env.new_metadata ((d, 0) ∷ []) d) d s.chain
        ∙ rw (bank.base-new_metadata, same_refl) refl

    pub register_metadata_ne :
        (d e : Bytes) (s : State env)
        → env.get_denom_metadata s.chain d ≡ none
        → d ≢ e
        → env.get_denom_metadata (register_metadata env d s).chain e
          ≡ env.get_denom_metadata s.chain e
    register_metadata_ne d e s new n =
        ap (λ (x : State env). env.get_denom_metadata x.chain e) (register_metadata_new env d s new)
        ∙ bank.get-set (env.new_metadata ((d, 0) ∷ []) d) e s.chain
        ∙ rw (bank.base-new_metadata, ne→same d e n) refl
