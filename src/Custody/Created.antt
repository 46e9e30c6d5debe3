-- ===== src/Custody/Created.antt =====
-- handleCreated and handleDeposited: funds that come in from a chain.
use wthelly.Base.{ℕ, String, not, ◌==◌, eq_ℕ, ltb, none, some, List, [], ◌∷◌, length, get_elem?}
use wthelly.Base.Int.{pos, eq_ℤ, ltb_ℤ}
use wthelly.Error.{Error}
use wthelly.Effect.{Effect, Result, ok, err, or_fail, pure, reads, guard, ◌>>=◌, ◌>>◌}
use wthelly.Money.{DecimalOps, Addresses}
use wthelly.Store.{State, Db, Channel, UnsignedState, deposit}
use wthelly.Store.Transaction.{transaction}
use wthelly.Channels.{create_channel, check_existing_channels}
use wthelly.Ledger.{new_account_id, record_entry}
use wthelly.Transactions.{record_ledger_transaction}
use wthelly.Custody.{
  Custody, EventAllocation, EventState, CreatedEvent, DepositedEvent, Notification, channel_update,
  index_or_panic, save_contract_event, asset_token, raw_to_decimal, stored_allocations,
  new_balance_notification, deposit_through,
}

-- no open channel of the wallet for the token
unfoldable pub check_no_open_channel :
    {Decimal : Type 0} → String → String → ℕ → Db Decimal → Result (Unit {0})
check_no_open_channel wallet token chain_id db =
    elim (check_existing_channels wallet token chain_id db) [
      | none ↦ ok tt
      | some _ ↦ err Error.open_channel_exists
    ]

module _ {Decimal : Type 0} ⦃dec : DecimalOps Decimal⦄ where
  open dec use {from_big_int}

  -- the state of a channel as its event reports it; its signatures are not recorded
  unfoldable pub reported_state : EventState → UnsignedState Decimal
  unfolding stored_allocations
  reported_state st = record {
    intent = st.intent;
    version = st.version;
    state_data = st.state_data;
    allocations = stored_allocations st.allocations;
  }

  module _ ⦃adr : Addresses⦄ where
    -- the body of the transaction, for a channel with its first participant and allocation
    unfoldable pub record_created :
        Custody → CreatedEvent → String → EventAllocation → Effect (State Decimal) (Channel Decimal)
    record_created c ev participant initial = do
      save_contract_event c "created" ev.raw
      reads λ s. check_no_open_channel ev.wallet initial.token c.chain_id s.db
      ch ←
          create_channel ev.channel_id ev.wallet participant ev.nonce ev.challenge ev.adjudicator
            c.chain_id initial.token (from_big_int initial.amount 0) (reported_state ev.initial)
      asset ← reads λ s. or_fail (asset_token c initial.token) Error.token_not_supported
      deposit_through ev.wallet (new_account_id ev.channel_id) (new_account_id ev.wallet)
          asset.symbol (raw_to_decimal (some initial.amount) asset.token.decimals)
      pure ch

    -- `handleCreated`
    unfoldable pub handle_created :
        Custody → CreatedEvent → Effect (State Decimal) (List (Notification Decimal))
    handle_created c ev = do
      guard (eq_ℕ (length ev.participants) 2) Error.unsupported_participants
      participant ← reads λ s. index_or_panic (get_elem? ev.participants 0)
      broker ← reads λ s. index_or_panic (get_elem? ev.participants 1)
      initial ← reads λ s. index_or_panic (get_elem? ev.initial.allocations 0)
      of_broker ← reads λ s. index_or_panic (get_elem? ev.initial.allocations 1)
      guard (eq_ℤ of_broker.amount (pos 0)) Error.non_zero_broker_amount
      guard (not (ltb ev.challenge 3600)) Error.invalid_challenge_period
      guard (ev.adjudicator == c.adjudicator_address) Error.unsupported_adjudicator
      guard (broker == c.broker) Error.not_the_broker
      ch ← transaction (record_created c ev participant initial)
      reads λ s. ok (channel_update ch ∷ new_balance_notification ch.wallet s ∷ [])

    -- the body of the transaction of a deposit
    unfoldable pub record_deposited :
        Custody → DepositedEvent → String → Decimal → Effect (State Decimal) (Unit {0})
    record_deposited c ev asset amount = do
      save_contract_event c "deposited" ev.raw
      record_entry ev.wallet (new_account_id ev.wallet) asset amount none
      _ ←
          record_ledger_transaction deposit (new_account_id "custody") (new_account_id ev.wallet)
            asset amount
      pure tt

    -- `handleDeposited`
    unfoldable pub handle_deposited :
        Custody → DepositedEvent → Effect (State Decimal) (List (Notification Decimal))
    handle_deposited c ev = do
      guard (ltb_ℤ (pos 0) ev.amount) Error.invalid_deposit_event
      asset ← reads λ s. or_fail (asset_token c ev.token) Error.token_not_supported
      transaction (
          record_deposited c ev asset.symbol (raw_to_decimal (some ev.amount) asset.token.decimals))
      reads λ s. ok (new_balance_notification ev.wallet s ∷ [])
