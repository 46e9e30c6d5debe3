-- ===== src/Custody/Closed.antt =====
-- handleClosed, and the choice of the handler for an event.
use wthelly.Base.{String, none, some, List, [], ◌∷◌, get_elem?, if◌then◌else◌}
use wthelly.Error.{Error}
use wthelly.Effect.{Effect, ok, or_fail, pure, fail, reads, ◌>>=◌, ◌>>◌}
use wthelly.Money.{DecimalOps, Addresses}
use wthelly.Store.{State, Channel, Allocation, closed, withdrawal, escrow_unlock}
use wthelly.Store.Transaction.{transaction}
use wthelly.Channels.{get_channel_by_id, save_channel}
use wthelly.Ledger.{new_account_id, balance, record_entry}
use wthelly.Transactions.{record_ledger_transaction}
use wthelly.Custody.{
  Custody, EventAllocation, EventState, CreatedEvent, DepositedEvent, ChallengedEvent, ResizedEvent,
  ClosedEvent, Notification, channel_update, index_or_panic, save_contract_event, asset_token,
  raw_to_decimal, stored_allocations, new_balance_notification,
}
use wthelly.Custody.Created.{handle_created, handle_deposited}
use wthelly.Custody.Resized.{handle_challenged, handle_resized}

-- a parsed log of the contract, or one that is no event of it or that does not parse
pub data CustodyEvent : Type 0 where
  created : CreatedEvent → CustodyEvent
  deposited : DepositedEvent → CustodyEvent
  joined : CustodyEvent
  challenged_event : ChallengedEvent → CustodyEvent
  resized_event : ResizedEvent → CustodyEvent
  closed_event : ClosedEvent → CustodyEvent
  unparsable : CustodyEvent

module _ {Decimal : Type 0} ⦃dec : DecimalOps Decimal⦄ where
  open dec use {zero_d, neg, is_zero}

  -- the final allocations, if there are two
  unfoldable pub final_allocations :
      List EventAllocation → List (Allocation Decimal) → List (Allocation Decimal)
  unfolding stored_allocations
  final_allocations (a ∷ b ∷ []) allocs = stored_allocations (a ∷ b ∷ [])
  final_allocations _ allocs = allocs

  -- the channel in its final state
  unfoldable pub closed_with : EventState → Channel Decimal → Channel Decimal
  unfolding final_allocations
  closed_with final channel = record channel {
    state = record {
      intent = final.intent;
      version = final.version;
      state_data = final.state_data;
      allocations = final_allocations final.allocations channel.state.allocations;
    };
    server_state_signature = none;
    user_state_signature = none;
    status = closed;
    raw_amount = zero_d;
  }

  module _ ⦃adr : Addresses⦄ where
    -- what is locked in the channel's account goes back to the wallet's own
    unfoldable pub unlock_escrow :
        Channel Decimal → String → Decimal → Effect (State Decimal) (Unit {0})
    unlock_escrow channel asset locked = if is_zero locked then pure tt else (do
      record_entry (adr.hex_address channel.wallet) (new_account_id channel.channel_id) asset
          (neg locked) none
      record_entry (adr.hex_address channel.wallet) (new_account_id channel.wallet) asset locked
          none
      _ ←
          record_ledger_transaction escrow_unlock (new_account_id channel.channel_id)
            (new_account_id channel.wallet) asset locked
      pure tt)

    -- what the chain paid out leaves the wallet's account through the channel's
    unfoldable pub pay_out : Channel Decimal → String → Decimal → Effect (State Decimal) (Unit {0})
    pay_out channel asset amount = do
      record_entry (adr.hex_address channel.wallet) (new_account_id channel.wallet) asset
          (neg amount) none
      record_entry (adr.hex_address channel.wallet) (new_account_id channel.channel_id) asset amount
          none
      record_entry (adr.hex_address channel.wallet) (new_account_id channel.channel_id) asset
          (neg amount) none
      _ ←
          record_ledger_transaction withdrawal (new_account_id channel.wallet)
            (new_account_id channel.channel_id) asset amount
      pure tt

    -- the body of the transaction
    unfoldable pub record_closed : Custody → ClosedEvent → Effect (State Decimal) (Channel Decimal)
    record_closed c ev = do
      save_contract_event c "closed" ev.raw
      channel ← reads λ s. get_channel_by_id ev.channel_id s.db
      asset ← reads λ s. or_fail (asset_token c channel.token) Error.token_not_supported
      final ← reads λ s. index_or_panic (get_elem? ev.final_state.allocations 0)
      locked ← reads (
          balance (adr.hex_address channel.wallet) (new_account_id channel.channel_id) asset.symbol)
      unlock_escrow channel asset.symbol locked
      pay_out channel asset.symbol (raw_to_decimal (some final.amount) asset.token.decimals)
      save_channel (closed_with ev.final_state channel)
      pure (closed_with ev.final_state channel)

    -- `handleClosed`
    unfoldable pub handle_closed :
        Custody → ClosedEvent → Effect (State Decimal) (List (Notification Decimal))
    handle_closed c ev = do
      channel ← transaction (record_closed c ev)
      reads λ s. ok (new_balance_notification channel.wallet s ∷ channel_update channel ∷ [])

    -- `handleBlockChainEvent`
    unfoldable pub handle_block_chain_event :
        Custody → CustodyEvent → Effect (State Decimal) (List (Notification Decimal))
    handle_block_chain_event c (created ev) = handle_created c ev
    handle_block_chain_event c (deposited ev) = handle_deposited c ev
    handle_block_chain_event c joined = pure []
    handle_block_chain_event c (challenged_event ev) = handle_challenged c ev
    handle_block_chain_event c (resized_event ev) = handle_resized c ev
    handle_block_chain_event c (closed_event ev) = handle_closed c ev
    handle_block_chain_event c unparsable = fail Error.unparsable_event
