-- ===== src/Simulation/Deliveries.antt =====
-- What the operations hand over: who sends it, for which denom, and how much.
use tokenfactory.Base.{
  All, ◌≡◌, refl, sym, ap, subst, ◌∙◌, List, [], ◌∷◌, Bool, true, false, ◌⊎◌, inl, inr,
  if◌then◌else◌, Elem, Option, none, some,
}
use tokenfactory.Base.Bytes.{Bytes, same}
use tokenfactory.Base.Outcome.{Outcome, Error, ok, err, panic, no_creator}
use tokenfactory.Env.{Env, AddressLaws, Coin, ℤ}
use tokenfactory.Types.Keys.{module_name}
use tokenfactory.Types.Messages.Construct.{type_of}
use tokenfactory.Types.Messages.{Msg, sender_of, address_or_nil, get_signers}
use tokenfactory.Keeper.Exec.{pure}
use tokenfactory.Keeper.Exec.Laws
use tokenfactory.Keeper.State.{State}
use tokenfactory.Simulation.Random.{Random, RandomLaws}
use tokenfactory.Simulation.Accounts.{
  Simulator, Draw, account_created_token_factory_denom, random_sim_account_with_constraint,
  get_token_factory_denom_and_its_admin,
}
use tokenfactory.Simulation.Messages.{
  OperationInput, Operation, no_op, deliver, deliver_msg, or_no_op, with_creator,
}
use tokenfactory.Simulation.Laws.{
  Chosen, random_sim_account_with_constraint_lem, get_token_factory_denom_and_its_admin-Chosen,
}

-- sdk.NewCoin keeps the denom and the amount that it is given, where it does not panic.
pub record SimulatorLaws {env : Env} (sim : Simulator env) : Type 0 where
  pub random : RandomLaws sim.random
  pub new_coin_same :
      (d : Bytes) (n : ℤ) {c : Coin}
      → sim.new_coin d n ≡ ok c
      → c ≡ record { denom = d; amount = n }

module _ {env : Env} (sim : Simulator env) where
  abbrev pub Source : Type 0
  Source = Random.Rand sim.random

  -- The account of a delivery, the denom of its message and the address that sends it: the account is
  -- one of the list, the denom is in its index, and the address is that of the denom's admin.
  pub record Delivery (s : State env) (accs : List sim.Account) (acc : sim.Account) (d addr : Bytes)
      : Type 0 where
    pub listed : Elem acc accs
    pub chosen : Chosen sim s acc d addr

  pub or_no_op-deliver :
      {A : Type 0} (ty : Bytes) (k : A → Draw sim (Operation sim)) (m : Outcome A × Source)
      {i : OperationInput sim} {r' : Source}
      → or_no_op sim ty k m ≡ (ok (deliver i), r')
      → (a : A) × (r : Source) × (m ≡ (ok a, r)) × (k a r ≡ (ok (deliver i), r'))
  unfolding or_no_op
  or_no_op-deliver ty k (ok a, r) h = (a, r, refl, h)
  or_no_op-deliver ty k (err e, r) h = cc
  or_no_op-deliver ty k (panic e, r) h = cc

  -- `if b { return simtypes.NoOpMsg(…) }` in front of a delivery.
  pub unless_no_op-deliver :
      (b : Bool) (ty : Bytes) (e : Option Error) (k : Draw sim (Operation sim)) (r : Source)
      {i : OperationInput sim} {r' : Source}
      → (if b then pure (no_op ty e) else k) r ≡ (ok (deliver i), r')
      → k r ≡ (ok (deliver i), r')
  unless_no_op-deliver true ty e k r h = cc
  unless_no_op-deliver false ty e k r h = h

  -- How the search for an account that has created a denom ends.
  abbrev Search : State env → List sim.Account → Option sim.Account → Type 0
  Search s accs found =
      ((found ≡ none) × All (λ a. account_created_token_factory_denom sim s a ≡ false) accs)
      ⊎ ((a : sim.Account) × (found ≡ some a)
          × Elem a accs
          × (account_created_token_factory_denom sim s a ≡ true))

  found-deliver :
      (ty : Bytes) (s : State env) (accs : List sim.Account)
      (k : sim.Account → Draw sim (Operation sim)) (found : Option sim.Account) (r : Source)
      {i : OperationInput sim} {r' : Source}
      → Search s accs found
      → (elim found as (λ _. Draw sim (Operation sim)) [
        | none ↦ pure (no_op ty (some no_creator))
        | some acc ↦ k acc
      ])
          r
        ≡ (ok (deliver i), r')
      → (acc : sim.Account) × (r1 : Source) × Elem acc accs × (k acc r1 ≡ (ok (deliver i), r'))
  found-deliver ty s accs k none r c e = cc
  found-deliver ty s accs k (some acc) r (inl (clash, _)) e = cc
  found-deliver ty s accs k (some acc) r (inr (a, q, j, _)) e =
      let eq : acc ≡ a = cc in (acc, r, subst (λ x. Elem x accs) (sym eq) j, e)

  with_creator-deliver :
      (ty : Bytes) (s : State env) (accs : List sim.Account)
      (k : sim.Account → Draw sim (Operation sim)) (r : Source) {i : OperationInput sim}
      {r' : Source}
      → with_creator sim ty s accs k r ≡ (ok (deliver i), r')
      → (acc : sim.Account) × (r1 : Source) × Elem acc accs × (k acc r1 ≡ (ok (deliver i), r'))
  unfolding with_creator
  with_creator-deliver ty s accs k r h =
      let (found, r1, drawn, rest) =
        Laws.>>=-eq-ok
          (random_sim_account_with_constraint sim accs (account_created_token_factory_denom sim s))
          _ r h in
      found-deliver ty s accs k found r1
        (random_sim_account_with_constraint_lem sim accs (account_created_token_factory_denom sim s)
          r r1 found drawn)
        rest

  -- The start that the mint, the burn and the change of the admin share.
  pub started :
      (ty : Bytes) (e : Option Error) (s : State env) (accs : List sim.Account)
      (k : sim.Account → Bytes × Bytes → Draw sim (Operation sim)) (r : Source)
      {i : OperationInput sim} {r' : Source}
      → with_creator sim ty s accs
          (λ acc r1.
            or_no_op sim ty
              (λ found. if same found.1 [] then pure (no_op ty e) else k acc found)
              (get_token_factory_denom_and_its_admin sim s acc r1))
          r
        ≡ (ok (deliver i), r')
      → (acc : sim.Account) × (d : Bytes) × (addr : Bytes) × (r2 : Source) × Delivery s accs acc d
          addr
        × (k acc (d, addr) r2 ≡ (ok (deliver i), r'))
  started ty e s accs k r h =
      let (acc, r1, j, h1) = with_creator-deliver ty s accs _ r h in
      let (found, r2, h2, h3) =
        or_no_op-deliver ty _ (get_token_factory_denom_and_its_admin sim s acc r1) h1 in
      (
        acc,
        found.0,
        found.1,
        r2,
        record {
          listed = j;
          chosen = get_token_factory_denom_and_its_admin-Chosen sim s acc r1 r2 h2;
        },
        unless_no_op-deliver (same found.1 []) ty e (k acc found) r2 h3,
      )

  pub signed :
      (laws : AddressLaws env) {s : State env} {acc : sim.Account} {d addr : Bytes} (m : Msg env)
      → Chosen sim s acc d addr
      → sender_of env m ≡ env.address_string addr
      → get_signers env m ≡ ok (addr ∷ [])
  unfolding get_signers address_or_nil
  signed laws m c e =
      let decodes = ap env.address_from_bech32 e ∙ laws.print c.admin c.decodes in rw decodes

  -- What a delivery hands over.
  pub handed_over :
      (acc : sim.Account) (m : Msg env) (r : Source) {i : OperationInput sim} {r' : Source}
      → pure (deliver_msg sim acc m) r ≡ (ok (deliver i), r')
      → (acc ≡ i.sim_account) × (m ≡ i.msg)
  handed_over acc m r {i} h =
      let same_input : (record {
        msg = m;
        msg_type = type_of env m;
        sim_account = acc;
        module_of = module_name;
      })
          ≡ i =
        cc in
      (
        ap (λ (x : OperationInput sim). x.sim_account) same_input,
        ap (λ (x : OperationInput sim). x.msg) same_input,
      )

  -- The operation hands over a message on a denom, sent by an address: the account beside it is one
  -- of the list, the denom is in its index, the address is that of the denom's admin and the only
  -- signer that the message names.
  pub record Sends (s : State env) (accs : List sim.Account) (i : OperationInput sim)
      (d addr : Bytes) (m : Msg env) : Type 0 where
    pub listed : Elem i.sim_account accs
    pub chosen : Chosen sim s i.sim_account d addr
    pub sent : i.msg ≡ m
    pub signers : get_signers env i.msg ≡ ok (addr ∷ [])

  pub Delivery-Sends :
      (laws : AddressLaws env) (s : State env) (accs : List sim.Account) (acc : sim.Account)
      (d addr : Bytes) (msg : Msg env) (r : Source) {i : OperationInput sim} {r' : Source}
      → Delivery s accs acc d addr
      → sender_of env msg ≡ env.address_string addr
      → pure (deliver_msg sim acc msg) r ≡ (ok (deliver i), r')
      → Sends s accs i d addr msg
  Delivery-Sends laws s accs acc d addr msg r c by h =
      let (a, m) = handed_over acc msg r h in
      record {
        listed = subst (λ x. Elem x accs) a c.listed;
        chosen = subst (λ x. Chosen sim s x d addr) a c.chosen;
        sent = sym m;
        signers = subst (λ x. get_signers env x ≡ ok (addr ∷ [])) m (signed laws msg c.chosen by);
      }
