-- ===== src/Simulation/Goes.antt =====
-- A simulated change of an admin, carried out by the keeper.
use tokenfactory.Base.{◌≡◌, ap, subst, ◌∙◌, List, Elem, none}
use tokenfactory.Base.Bytes.{Bytes}
use tokenfactory.Base.Outcome.{ok}
use tokenfactory.Env.{Env, StoreLaws, AddressLaws}
use tokenfactory.Types.Messages.Signers.{Decodes}
use tokenfactory.Keeper.State.{State}
use tokenfactory.Keeper.MsgServer.{handle}
use tokenfactory.Keeper.MsgServer.Authority.{IsAdmin}
use tokenfactory.Keeper.MsgServer.Progress.{handle_change_admin_goes}
use tokenfactory.Simulation.Accounts.{Simulator}
use tokenfactory.Simulation.Messages.{OperationInput, deliver, simulate_msg_change_admin}
use tokenfactory.Simulation.Deliveries.{Source}
use tokenfactory.Simulation.Handover.{simulate_msg_change_admin-Sends}

-- The message of a simulated change of an admin that is handed over goes through at the keeper, and makes
-- an account of the list the admin, where the accounts print as addresses and the admins on record stand
-- as the SDK prints them.
pub handle-simulate_msg_change_admin :
    {env : Env} (stores : StoreLaws env) (addresses : AddressLaws env) (sim : Simulator env)
    (s : State env) (accs : List sim.Account)
    → ((a : sim.Account) → Elem a accs → Decodes env (env.address_string (sim.address a)))
    → ((d x a : Bytes)
        → IsAdmin env s d x
        → env.address_from_bech32 x ≡ ok a
        → x ≡ env.address_string a)
    → (r r' : Source sim) {i : OperationInput sim}
    → simulate_msg_change_admin sim s accs r ≡ (ok (deliver i), r')
    → (d : Bytes) × (new : sim.Account) × (t : State env) × Elem new accs
      × (handle env i.msg s ≡ (ok none, t))
      × IsAdmin env t d (env.address_string (sim.address new))
handle-simulate_msg_change_admin {env} stores addresses sim s accs known printed r r' {i} h =
    let (d, addr, new, listed, sends, _) =
      simulate_msg_change_admin-Sends sim addresses s accs r r' h in
    let same = printed d sends.chosen.admin addr sends.chosen.is_admin sends.chosen.decodes in
    let admin : IsAdmin env s d (env.address_string addr) =
      subst (IsAdmin env s d) same sends.chosen.is_admin in
    let (t, e, became) =
      handle_change_admin_goes stores addresses
        (record {
          sender = env.address_string addr;
          denom = d;
          new_admin = env.address_string (sim.address new);
        })
        s (known new listed) admin in
    (d, new, t, listed, ap (λ m. handle env m s) sends.sent ∙ e, became)
