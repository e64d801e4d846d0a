-- ===== src/Keeper/Registry/Listed.antt =====
-- What the indices of the creators list, along any run of the chain.
use tokenfactory.Base.{◌≡◌, ap, ◌∙◌, sym, ◌⊎◌, inl, inr, Elem, false}
use tokenfactory.Base.Bytes.{Bytes, contains}
use tokenfactory.Base.Outcome.{ok}
use tokenfactory.Env.{Env, StoreLaws, AddressLaws, BankLaws, DenomLaws}
use tokenfactory.Types.Keys.Separation.{bar}
use tokenfactory.Types.Denoms.{token_denom}
use tokenfactory.Types.Messages.{Msg, validate_basic}
use tokenfactory.Types.Messages.Signers.{sender-Decodes}
use tokenfactory.Keeper.State.{State}
use tokenfactory.Keeper.Creators.{get_denoms_from_creator}
use tokenfactory.Keeper.Invariant.Reach.{Happens, Reaches}
use tokenfactory.Keeper.Registry.{Registry, view, transition, assign, register}
use tokenfactory.Keeper.Registry.Run.{same_store-Agrees, handle-Agrees}

module _ (env : Env) where
  -- The denom is `factory/{c'}/{...}`, where c' is a text for the same address as the creator's.
  abbrev pub IsOf : Bytes → Bytes → Type 0
  IsOf c d =
      (c' sub a : Bytes) × (d ≡ token_denom c' sub)
      × (env.address_from_bech32 c' ≡ ok a)
      × (env.address_from_bech32 c ≡ ok a)

  -- Each creator without "|" in its name is listed with denoms of its own alone.
  pub record ListsOwn (s : State env) : Type 0 where
    pub own :
        (c d : Bytes) → contains bar c ≡ false → Elem d (get_denoms_from_creator env c s) → IsOf c d

  -- A transition that is valid lists a creator with denoms of its own, and drops none.
  transition-new :
      (m : Msg env) (r : Registry) (c d : Bytes)
      → validate_basic env m ≡ ok tt
      → (transition env m r).is_listed c d
      → IsOf c d ⊎ r.is_listed c d
  unfolding transition register assign
  transition-new (Msg.create_denom m) r c d v i = elim i [
    | inl (p, q) ↦
        let (a, e) = sender-Decodes env (Msg.create_denom m) v in
        inl (m.sender, m.subdenom, a, sym q, e, ap env.address_from_bech32 (sym p) ∙ e)
    | inr old ↦ inr old
  ]
  transition-new (Msg.mint m) r c d v i = inr i
  transition-new (Msg.burn m) r c d v i = inr i
  transition-new (Msg.force_transfer m) r c d v i = inr i
  transition-new (Msg.change_admin m) r c d v i = inr i
  transition-new (Msg.set_denom_metadata m) r c d v i = inr i

  transition-old :
      (m : Msg env) (r : Registry) (c d : Bytes)
      → r.is_listed c d
      → (transition env m r).is_listed c d
  unfolding transition register assign
  transition-old (Msg.create_denom m) r c d i = inr i
  transition-old (Msg.mint m) r c d i = i
  transition-old (Msg.burn m) r c d i = i
  transition-old (Msg.force_transfer m) r c d i = i
  transition-old (Msg.change_admin m) r c d i = i
  transition-old (Msg.set_denom_metadata m) r c d i = i

module _ {env : Env} (stores : StoreLaws env) (laws : AddressLaws env) (bank : BankLaws env)
    (denoms : DenomLaws env) (c d : Bytes) (no_bar : contains bar c ≡ false) where
  Happens-new :
      {s t : State env}
      → Happens env s t
      → Elem d (get_denoms_from_creator env c t)
      → IsOf env c d ⊎ Elem d (get_denoms_from_creator env c s)
  unfolding view
  Happens-new {s} {t} (Happens.delivered m v e) i =
      transition-new env m (view env s) c d v
        (((handle-Agrees stores laws bank denoms m s t e).lists c d no_bar).0 i)
  Happens-new {s} {t} (Happens.elsewhere same knows) i =
      inr (((same_store-Agrees stores laws s t same).lists c d no_bar).0 i)

  Happens-old :
      {s t : State env}
      → Happens env s t
      → Elem d (get_denoms_from_creator env c s)
      → Elem d (get_denoms_from_creator env c t)
  unfolding view
  Happens-old {s} {t} (Happens.delivered m v e) i =
      ((handle-Agrees stores laws bank denoms m s t e).lists c d no_bar).1
        (transition-old env m (view env s) c d i)
  Happens-old {s} {t} (Happens.elsewhere same knows) i =
      ((same_store-Agrees stores laws s t same).lists c d no_bar).1 i

-- Along any run of valid messages and of what other modules do, a creator whose name holds no "|" is
-- listed with denoms of its own alone, `factory/{c}/...` for a text c of the creator's address, if that
-- was so before; and a denom that it is listed with stays listed.
pub Reaches-ListsOwn :
    {env : Env} (stores : StoreLaws env) (laws : AddressLaws env) (bank : BankLaws env)
    (denoms : DenomLaws env) {s t : State env}
    → Reaches env s t
    → ListsOwn env s
    → ListsOwn env t
      × ((c d : Bytes)
          → contains bar c ≡ false
          → Elem d (get_denoms_from_creator env c s)
          → Elem d (get_denoms_from_creator env c t))
Reaches-ListsOwn stores laws bank denoms Reaches.here own = (own, (λ c d nb i. i))
Reaches-ListsOwn stores laws bank denoms (Reaches.next r h) own =
    let (owns, stay) = Reaches-ListsOwn stores laws bank denoms r own in
    (
      record {
        own = λ c d nb i. elim (Happens-new stores laws bank denoms c d nb h i) [
          | inl new ↦ new
          | inr old ↦ owns.own c d nb old
        ];
      },
      (λ c d nb i. Happens-old stores laws bank denoms c d nb h (stay c d nb i)),
    )
