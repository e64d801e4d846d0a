-- ===== src/Simulation/Handover.antt =====
-- The changes of an admin that are handed over.
use tokenfactory.Base.{◌≡◌, ◌≢◌, refl, List, false, Bool-cases, inl, inr, if◌then◌else◌, Elem, some}
use tokenfactory.Base.Bytes.{Bytes, same, eq→same}
use tokenfactory.Base.Outcome.{Outcome, ok, no_admin_address, same_admin}
use tokenfactory.Env.{Env, AddressLaws}
use tokenfactory.Types.Events.{type_msg_change_admin}
use tokenfactory.Types.Messages.{Msg}
use tokenfactory.Keeper.Exec.{pure, ◌>>=◌}
use tokenfactory.Keeper.Exec.Laws.{>>=-eq-ok}
use tokenfactory.Keeper.State.{State}
use tokenfactory.Simulation.Accounts.{Simulator, random_sim_account}
use tokenfactory.Simulation.Messages.{
  OperationInput, Operation, no_op, deliver, deliver_msg, simulate_msg_change_admin,
}
use tokenfactory.Simulation.Laws.{random_sim_account-Elem}
use tokenfactory.Simulation.Deliveries.{Source, Delivery, Sends, Delivery-Sends, started}

-- The message that the operation makes of a denom and of the text of its admin's address.
abbrev pub give_to : (env : Env) → Bytes → Bytes → Bytes → Msg env
give_to env new d a = Msg.change_admin (record { sender = a; denom = d; new_admin = new })

module _ {env : Env} (sim : Simulator env) (addresses : AddressLaws env) (s : State env)
    (accs : List sim.Account) where
  differ : {a b : Bytes} → same a b ≡ false → a ≢ b
  differ e q = let clash = eq→same _ _ q in cc

  change_drawn :
      (acc : sim.Account) (d addr : Bytes) (r r' : Source sim) {i : OperationInput sim}
      → Delivery sim s accs acc d addr
      → (random_sim_account sim accs >>= λ new_admin.
            if same (env.address_string (sim.address new_admin)) (env.address_string addr)
            then pure (no_op type_msg_change_admin (some same_admin))
            else pure (
                deliver_msg sim acc (
                  give_to env
                    (env.address_string (sim.address new_admin))
                    d
                    (env.address_string addr))))
          r
        ≡ (ok (deliver i), r')
      → (new : sim.Account) × Elem new accs
        × Sends sim s accs i d addr
            (give_to env (env.address_string (sim.address new)) d (env.address_string addr))
        × (env.address_string (sim.address new) ≢ env.address_string addr)
  change_drawn acc d addr r r' {i} found h =
      let (new, r2, drawn, h2) = >>=-eq-ok (random_sim_account sim accs) _ r h in
      let text_of = env.address_string (sim.address new) in
      elim (Bool-cases (same text_of (env.address_string addr))) [
        | inl e ↦
            let gave_up : Outcome (Operation sim) × Source sim =
              (ok (no_op type_msg_change_admin (some same_admin)), r2) in
            let over : gave_up ≡ (ok (deliver i), r') = rw e at h2 in cc
        | inr e ↦
            let over : pure (deliver_msg sim acc (give_to env text_of d (env.address_string addr)))
                  r2
                ≡ (ok (deliver i), r') =
              rw e at h2 in
            (
              new,
              random_sim_account-Elem sim accs r r2 drawn,
              Delivery-Sends sim addresses s accs acc d addr
                  (give_to env text_of d (env.address_string addr)) r2 found refl over,
              differ e,
            )
      ]

  -- A change of the admin that the simulation hands over gives a denom of the index of an account of
  -- the list to another account of the list than the admin's, whose address is the sender and the only
  -- signer that GetSigners names. The account that is handed over beside it, to sign, is the account of
  -- that index.
  pub simulate_msg_change_admin-Sends :
      (r r' : Source sim) {i : OperationInput sim}
      → simulate_msg_change_admin sim s accs r ≡ (ok (deliver i), r')
      → (d addr : Bytes) × (new : sim.Account) × Elem new accs
        × Sends sim s accs i d addr
            (give_to env (env.address_string (sim.address new)) d (env.address_string addr))
        × (env.address_string (sim.address new) ≢ env.address_string addr)
  unfolding simulate_msg_change_admin
  simulate_msg_change_admin-Sends r r' {i} h =
      let (acc, d, addr, r2, found, h2) =
        started sim type_msg_change_admin (some no_admin_address) s accs _ r h in
      let (new, listed, sends, other) = change_drawn acc d addr r2 r' found h2 in
      (d, addr, new, listed, sends, other)
