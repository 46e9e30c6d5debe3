-- ===== src/Custody/Resized.antt =====
-- handleChallenged and handleResized: channels that change on their chain.
use wthelly.Base.{String, not, ltb, Option, none, some, List, [], ◌∷◌, if◌then◌else◌}
use wthelly.Base.Int.{ℤ, pos, ◌+ℤ◌, eq_ℤ, ltb_ℤ}
use wthelly.Base.Word.{next_uint64}
use wthelly.Error.{Error}
use wthelly.Effect.{Effect, ok, or_fail, pure, fail, reads, guard, ◌>>=◌, ◌>>◌}
use wthelly.Money.{DecimalOps, Addresses}
use wthelly.Store.{State, Channel, Allocation, open_status, challenged, withdrawal}
use wthelly.Store.Transaction.{transaction}
use wthelly.BlockchainActions.{create_checkpoint}
use wthelly.Channels.{get_channel_by_id, save_channel}
use wthelly.Ledger.{new_account_id, record_entry}
use wthelly.Transactions.{record_ledger_transaction}
use wthelly.Custody.{
  Custody, ChallengedEvent, ResizedEvent, Notification, channel_update, save_contract_event,
  asset_token, raw_to_decimal, new_balance_notification, deposit_through,
}

module _ {Decimal : Type 0} where
  -- the answer to a challenge, if both have signed the stored state
  unfoldable pub answer :
      Custody
      → ChallengedEvent
      → Channel Decimal
      → Option String
      → Option String
      → Effect (State Decimal) (Unit {0})
  answer c ev channel (some user_sig) (some server_sig) =
      create_checkpoint ev.channel_id c.chain_id channel.state user_sig server_sig
  answer c ev channel _ _ = pure tt

  -- A challenge with an old state is answered with the stored one.
  unfoldable pub answer_challenge :
      Custody → ChallengedEvent → Channel Decimal → Effect (State Decimal) (Unit {0})
  unfolding answer
  answer_challenge c ev channel =
      if ltb ev.state.version channel.state.version
      then answer c ev channel channel.user_state_signature channel.server_state_signature
      else pure tt

  -- the body of the transaction
  unfoldable pub record_challenged :
      Custody → ChallengedEvent → Effect (State Decimal) (Channel Decimal)
  record_challenged c ev = do
    save_contract_event c "challenged" ev.raw
    channel ← reads λ s. get_channel_by_id ev.channel_id s.db
    answer_challenge c ev channel
    save_channel (record channel { status = challenged })
    pure (record channel { status = challenged })

  -- `handleChallenged`
  unfoldable pub handle_challenged :
      Custody → ChallengedEvent → Effect (State Decimal) (List (Notification Decimal))
  handle_challenged c ev = do
    channel ← transaction (record_challenged c ev)
    reads λ s. ok (channel_update channel ∷ [])

module _ {Decimal : Type 0} ⦃dec : DecimalOps Decimal⦄ where
  open dec use {add, from_big_int, big_int, neg, is_positive, is_negative}

  unfoldable pub resized_allocations : ℤ → ℤ → List (Allocation Decimal) → List (Allocation Decimal)
  resized_allocations d e (a ∷ b ∷ []) =
      record a { raw_amount = add a.raw_amount (from_big_int d 0) }
      ∷ record b { raw_amount = add b.raw_amount (from_big_int e 0) }
      ∷ []
  resized_allocations d e allocs = allocs

  -- the channel after a resize
  unfoldable pub resized : ℤ → ℤ → Channel Decimal → Channel Decimal
  unfolding resized_allocations
  resized d e channel = record channel {
    raw_amount = from_big_int (big_int channel.raw_amount +ℤ d +ℤ e) 0;
    status = open_status;
    server_state_signature = none;
    user_state_signature = none;
    state = record channel.state {
      version = next_uint64 channel.state.version;
      allocations = resized_allocations d e channel.state.allocations;
    };
  }

  module _ ⦃adr : Addresses⦄ where
    -- The participant's share of a resize: a deposit reaches the wallet's own account, a withdrawal
    -- leaves the channel's.
    unfoldable pub book_resize :
        Channel Decimal → String → Decimal → Effect (State Decimal) (Unit {0})
    book_resize channel asset amount =
        if is_positive amount
        then deposit_through (adr.hex_address channel.wallet) (new_account_id channel.channel_id)
            (new_account_id channel.wallet) asset amount
        else if is_negative amount
        then (do
          record_entry (adr.hex_address channel.wallet) (new_account_id channel.channel_id) asset
              amount none
          _ ←
              record_ledger_transaction withdrawal (new_account_id channel.wallet)
                (new_account_id channel.channel_id) asset amount
          pure tt)
        else pure tt

    -- the body of the transaction, for the changes of the two allocations
    unfoldable pub record_resized :
        Custody → ResizedEvent → ℤ → ℤ → Effect (State Decimal) (Channel Decimal)
    record_resized c ev d e = do
      save_contract_event c "resized" ev.raw
      channel ← reads λ s. get_channel_by_id ev.channel_id s.db
      guard (not (ltb_ℤ (big_int channel.raw_amount +ℤ d +ℤ e) (pos 0)))
          Error.negative_channel_balance
      save_channel (resized d e channel)
      (if eq_ℤ d (pos 0) then pure tt else (do
        asset ← reads λ s. or_fail (asset_token c channel.token) Error.token_not_supported
        book_resize channel asset.symbol (raw_to_decimal (some d) asset.token.decimals)))
      pure (resized d e channel)

    -- the handler, for a list of changes
    unfoldable pub handle_deltas :
        Custody → ResizedEvent → List ℤ → Effect (State Decimal) (List (Notification Decimal))
    handle_deltas c ev (d ∷ e ∷ []) = do
      channel ← transaction (record_resized c ev d e)
      reads λ s. ok (new_balance_notification channel.wallet s ∷ channel_update channel ∷ [])
    handle_deltas c ev _ = fail Error.unsupported_participants

    -- `handleResized`
    unfoldable pub handle_resized :
        Custody → ResizedEvent → Effect (State Decimal) (List (Notification Decimal))
    unfolding handle_deltas
    handle_resized c ev = handle_deltas c ev ev.delta_allocations
