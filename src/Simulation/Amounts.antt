-- ===== src/Simulation/Amounts.antt =====
-- The mints and burns that are handed over.
use tokenfactory.Base.{
  ℕ, ◌≤◌, ◌<◌, ◌≡◌, refl, ap, subst, ◌∙◌, List, [], if◌then◌else◌, none, some, arith,
}
use tokenfactory.Base.Bytes.{Bytes}
use tokenfactory.Base.Outcome.{ok, no_admin_address, no_balance}
use tokenfactory.Env.{Env, AddressLaws, ℤ, pos}
use tokenfactory.Types.Events.{type_msg_mint, type_msg_burn}
use tokenfactory.Types.Messages.{Msg}
use tokenfactory.Keeper.Exec.{pure, lift, ◌>>=◌}
use tokenfactory.Keeper.Exec.Laws.{>>=-eq-ok}
use tokenfactory.Keeper.State.{State}
use tokenfactory.Simulation.Random.{rand_positive_int}
use tokenfactory.Simulation.Accounts.{Simulator}
use tokenfactory.Simulation.Messages.{
  OperationInput, or_no_op, no_op, deliver, deliver_msg, mint_amount, value_or_unset,
  simulate_msg_mint_denom, simulate_msg_burn_denom,
}
use tokenfactory.Simulation.Laws.{rand_positive_int-bounds}
use tokenfactory.Simulation.Deliveries.{
  SimulatorLaws, Source, Delivery, Sends, Delivery-Sends, started, or_no_op-deliver,
  unless_no_op-deliver,
}

-- The messages that the operations make of a denom and of the text of its admin's address.
abbrev pub mint_of : (env : Env) → ℕ → Bytes → Bytes → Msg env
mint_of env k d a =
    Msg.mint
      (record { sender = a; amount = record { denom = d; amount = pos k }; mint_to_address = [] })

abbrev pub burn_of : (env : Env) → ℕ → Bytes → Bytes → Msg env
burn_of env k d a =
    Msg.burn
      (record { sender = a; amount = record { denom = d; amount = pos k }; burn_from_address = [] })

module _ {env : Env} (sim : Simulator env) (laws : SimulatorLaws sim) where
  -- The drawn amount of a mint is positive and below 1000_000000: the bound is no error.
  mint_amount-bounds :
      (r r' : Source sim) {n : ℤ}
      → mint_amount sim r ≡ (ok n, r')
      → (k : ℕ) × (n ≡ pos k) × (1 ≤ k) × (k < 1_000_000_000)
  unfolding mint_amount value_or_unset rand_positive_int
  mint_amount-bounds r r' {n} h =
      let (m, k, max, e, low, high, below) =
        rand_positive_int-bounds sim.random laws.random (pos 1_000_000_000) n r r' h in
      let same_max : 1_000_000_000 ≡ m = cc in (k, e, low, omega (arith, below (omega arith)))

  module _ (addresses : AddressLaws env) (s : State env) (accs : List sim.Account) where
    mint_drawn :
        (acc : sim.Account) (d addr : Bytes) (r r' : Source sim) {i : OperationInput sim}
        → Delivery sim s accs acc d addr
        → (mint_amount sim >>= λ amount. lift (sim.new_coin d amount) >>= λ coin. pure (
              deliver_msg sim acc (
                Msg.mint (record {
                  sender = env.address_string addr;
                  amount = coin;
                  mint_to_address = [];
                }))))
            r
          ≡ (ok (deliver i), r')
        → (k : ℕ) × Sends sim s accs i d addr (mint_of env k d (env.address_string addr))
          × (1 ≤ k)
          × (k < 1_000_000_000)
    mint_drawn acc d addr r r' {i} found h =
        let (n, r3, drawn, h3) = >>=-eq-ok (mint_amount sim) _ r h in
        let (c, r4, coin, h4) = >>=-eq-ok (lift (sim.new_coin d n)) _ r3 h3 in
        let (k, e, low, high) = mint_amount-bounds r r3 drawn in
        let kept : c ≡ record { denom = d; amount = pos k } =
          laws.new_coin_same d n (ap (λ x. x.0) coin)
          ∙ ap (λ x. record { denom = d; amount = x }) e in
        (
          k,
          Delivery-Sends sim addresses s accs acc d addr (mint_of env k d (env.address_string addr))
              r4 found refl
              (subst
                (λ x.
                  pure
                    (deliver_msg sim acc (
                      Msg.mint (record {
                        sender = env.address_string addr;
                        amount = x;
                        mint_to_address = [];
                      })))
                    r4
                  ≡ (ok (deliver i), r'))
                kept h4),
          low,
          high,
        )

    -- A mint that the simulation hands over mints between 1 and 999,999,999 of a denom of the index of
    -- an account of the list to the sender, who is the admin of the denom and the only signer that GetSigners
    -- names. The account that is handed over beside it, to sign, is the account of that index.
    pub simulate_msg_mint_denom-Sends :
        (r r' : Source sim) {i : OperationInput sim}
        → simulate_msg_mint_denom sim s accs r ≡ (ok (deliver i), r')
        → (d addr : Bytes) × (k : ℕ) × Sends sim s accs i d addr
            (mint_of env k d (env.address_string addr))
          × (1 ≤ k)
          × (k < 1_000_000_000)
    unfolding simulate_msg_mint_denom
    simulate_msg_mint_denom-Sends r r' {i} h =
        let (acc, d, addr, r2, found, h2) = started sim type_msg_mint none s accs _ r h in
        let (k, sends, low, high) = mint_drawn acc d addr r2 r' found h2 in
        (d, addr, k, sends, low, high)

    burn_drawn :
        (acc : sim.Account) (d addr : Bytes) (r r' : Source sim) {i : OperationInput sim}
        → Delivery sim s accs acc d addr
        → (lift (sim.is_zero (sim.get_balance s.chain addr d)) >>= λ empty.
              if empty then pure (no_op type_msg_burn (some no_balance)) else λ r'.
              or_no_op sim type_msg_burn
                (λ amount. lift (sim.new_coin d amount) >>= λ coin. pure (
                  deliver_msg sim acc (
                    Msg.burn (record {
                      sender = env.address_string addr;
                      amount = coin;
                      burn_from_address = [];
                    }))))
                (rand_positive_int sim.random ((sim.get_balance s.chain addr d).amount) r'))
            r
          ≡ (ok (deliver i), r')
        → (m k : ℕ) × Sends sim s accs i d addr (burn_of env k d (env.address_string addr))
          × ((sim.get_balance s.chain addr d).amount ≡ pos m)
          × (1 ≤ k)
          × (k ≤ m)
          × (2 ≤ m → k < m)
    burn_drawn acc d addr r r' {i} found h =
        let (empty, r2, _, h2) =
          >>=-eq-ok (lift (sim.is_zero (sim.get_balance s.chain addr d))) _ r h in
        let h3 = unless_no_op-deliver sim empty type_msg_burn (some no_balance) _ r2 h2 in
        let (n, r4, drawn, h4) = or_no_op-deliver sim type_msg_burn _ _ h3 in
        let (c, r5, coin, h5) = >>=-eq-ok (lift (sim.new_coin d n)) _ r4 h4 in
        let (m, k, held, e, low, high, last) =
          rand_positive_int-bounds sim.random laws.random _ n r2 r4 drawn in
        let kept : c ≡ record { denom = d; amount = pos k } =
          laws.new_coin_same d n (ap (λ x. x.0) coin)
          ∙ ap (λ x. record { denom = d; amount = x }) e in
        (
          m,
          k,
          Delivery-Sends sim addresses s accs acc d addr (burn_of env k d (env.address_string addr))
              r5 found refl
              (subst
                (λ x.
                  pure
                    (deliver_msg sim acc (
                      Msg.burn (record {
                        sender = env.address_string addr;
                        amount = x;
                        burn_from_address = [];
                      })))
                    r5
                  ≡ (ok (deliver i), r'))
                kept h5),
          held,
          low,
          high,
          last,
        )

    -- A burn that the simulation hands over burns, of a denom of the index of an account of the list,
    -- at least 1 and at most what its sender holds, and all of it only where that is 1; the sender is
    -- the admin of the denom and the only signer that GetSigners
    -- names. The account that is handed over beside it, to sign, is the account of that index.
    pub simulate_msg_burn_denom-Sends :
        (r r' : Source sim) {i : OperationInput sim}
        → simulate_msg_burn_denom sim s accs r ≡ (ok (deliver i), r')
        → (d addr : Bytes) × (m k : ℕ) × Sends sim s accs i d addr
            (burn_of env k d (env.address_string addr))
          × ((sim.get_balance s.chain addr d).amount ≡ pos m)
          × (1 ≤ k)
          × (k ≤ m)
          × (2 ≤ m → k < m)
    unfolding simulate_msg_burn_denom
    simulate_msg_burn_denom-Sends r r' {i} h =
        let (acc, d, addr, r2, found, h2) =
          started sim type_msg_burn (some no_admin_address) s accs _ r h in
        let (m, k, sends, held, low, high, last) = burn_drawn acc d addr r2 r' found h2 in
        (d, addr, m, k, sends, held, low, high, last)
