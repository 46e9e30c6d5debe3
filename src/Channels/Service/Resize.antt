-- ===== src/Channels/Service/Resize.antt =====
-- RequestResize.
pub mod Solvent
pub mod Locks
pub mod Once
use wthelly.Base.{String, Bool, not, ◌&&◌, Option, none, some, List, [], ◌∷◌, if◌then◌else◌}
use wthelly.Base.Int.{ℤ, pos}
use wthelly.Error.{Error}
use wthelly.Effect.{Effect, Result, ok, or_fail, and_then, pure, reads, guard, ◌>>=◌, ◌>>◌}
use wthelly.Money.{DecimalOps, Addresses}
use wthelly.Store.{State, Channel, open_status, resizing, escrow_lock}
use wthelly.Store.Transaction.{transaction}
use wthelly.Assets.{AssetTokenConfig}
use wthelly.Channels.{same_status, get_channel_by_id, save_channel, check_challenged_channels}
use wthelly.Ledger.{new_account_id, balance, record_entry}
use wthelly.Transactions.{record_ledger_transaction}
use wthelly.Custody.{raw_to_decimal}
use wthelly.Channels.Service.{
  ChannelService, ResizeChannelParams, ChannelOperationResponse, intent_resize, has_signed,
  next_version, token_of, signed_response, two_allocations,
}

unfoldable pub as_resizing : {Decimal : Type 0} → Channel Decimal → Channel Decimal
as_resizing channel = record channel { status = resizing }

module _ {Decimal : Type 0} ⦃dec : DecimalOps Decimal⦄ where
  open dec use {zero_d, add, neg, is_zero, less_than, shift, big_int}

  -- an amount that is left out is zero
  unfoldable pub amount_or_zero : Option Decimal → Decimal
  amount_or_zero none = zero_d
  amount_or_zero (some amount) = amount

  module _ ⦃adr : Addresses⦄ where
    -- What a withdrawal takes out is locked in the channel's account.
    unfoldable pub lock_escrow :
        Channel Decimal → AssetTokenConfig → Decimal → Effect (State Decimal) (Unit {0})
    lock_escrow channel asset resize =
        if less_than resize zero_d
        then (let amount : Decimal = raw_to_decimal (some (big_int resize)) asset.token.decimals in
            do
              record_entry (adr.hex_address channel.wallet) (new_account_id channel.wallet)
                  asset.symbol amount none
              record_entry (adr.hex_address channel.wallet) (new_account_id channel.channel_id)
                  asset.symbol (neg amount) none
              _ ←
                  record_ledger_transaction escrow_lock (new_account_id channel.wallet)
                    (new_account_id channel.channel_id) asset.symbol amount
              pure tt)
        else pure tt

    -- the checks of the amounts: the channel's new amount is covered by what the wallet has, and is
    -- not negative
    unfoldable pub check_amounts :
        Channel Decimal → AssetTokenConfig → Decimal → Decimal → Effect (State Decimal) (Unit {0})
    check_amounts channel asset allocate resize = do
      guard (not (is_zero resize && is_zero allocate)) Error.no_op_resize
      held ←
          reads
            (balance (adr.hex_address channel.wallet) (new_account_id channel.wallet) asset.symbol)
      guard (not (less_than (shift held asset.token.decimals) (add channel.raw_amount allocate)))
          Error.insufficient_unified_balance
      guard (not (less_than (add (add channel.raw_amount allocate) resize) zero_d))
          Error.negative_channel_amount

    -- the body of the transaction
    unfoldable pub start_resize :
        ChannelService
        → ResizeChannelParams Decimal
        → List String
        → Effect (State Decimal) (Channel Decimal)
    start_resize service params signers = do
      channel ← reads λ s. get_channel_by_id params.channel_id s.db
      reads λ s. check_challenged_channels channel.wallet s.db
      guard (not (same_status channel.status resizing)) Error.resize_ongoing
      guard (same_status channel.status open_status) Error.channel_not_open
      guard (has_signed signers channel.wallet) Error.invalid_signature
      asset ←
          reads
            λ s. or_fail (token_of service channel.token channel.chain_id) Error.token_not_supported
      check_amounts channel asset (amount_or_zero params.allocate_amount)
          (amount_or_zero params.resize_amount)
      save_channel (as_resizing channel)
      lock_escrow channel asset (amount_or_zero params.resize_amount)
      pure (as_resizing channel)

    -- the new amount of the channel, in its smallest units
    unfoldable pub resized_amount : Channel Decimal → ResizeChannelParams Decimal → ℤ
    unfolding amount_or_zero
    resized_amount channel params = big_int (
        add (add channel.raw_amount (amount_or_zero params.allocate_amount))
          (amount_or_zero params.resize_amount))

    -- `RequestResize`
    unfoldable pub request_resize :
        ChannelService
        → ResizeChannelParams Decimal
        → List String
        → Effect (State Decimal) (ChannelOperationResponse Decimal)
    request_resize service params signers = do
      channel ← transaction (start_resize service params signers)
      reads λ s.
          and_then
            (service.signing.pack_amounts (
              big_int (amount_or_zero params.resize_amount)
              ∷ big_int (amount_or_zero params.allocate_amount)
              ∷ []))
            λ intentions.
              signed_response service.signing channel.channel_id
                (record {
                  intent = intent_resize;
                  version = next_version channel.state.version;
                  state_data = intentions;
                  allocations =
                      two_allocations service (adr.hex_address params.funds_destination)
                        channel.token (resized_amount channel params) (pos 0);
                })
                none
