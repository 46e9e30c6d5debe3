-- ===== src/Channels/Service/Close.antt =====
-- RequestClose.
pub mod Divides
use wthelly.Base.{String, Bool, not, ◌||◌, Option, none, List, [], ◌∷◌, if◌then◌else◌}
use wthelly.Base.Int.{ℤ, ◌-ℤ◌, ltb_ℤ}
use wthelly.Error.{Error}
use wthelly.Effect.{Result, ok, or_fail, and_then, check}
use wthelly.Money.{DecimalOps, Addresses}
use wthelly.Store.{State, Channel, open_status, resizing}
use wthelly.Channels.{same_status, get_channel_by_id, check_challenged_channels}
use wthelly.Ledger.{new_account_id, balance}
use wthelly.Channels.Service.{
  ChannelService, CloseChannelParams, ChannelOperationResponse, intent_finalize, has_signed,
  next_version, token_of, signed_response, two_allocations,
}

-- the smaller of what the wallet has and what the channel holds
unfoldable pub user_allocation : ℤ → ℤ → ℤ
user_allocation held in_channel = if ltb_ℤ in_channel held then in_channel else held

module _ {Decimal : Type 0} ⦃dec : DecimalOps Decimal⦄ ⦃adr : Addresses⦄ where
  open dec use {add, is_negative, shift, big_int}

  -- what is due to the wallet: its own balance, which may not be negative, and the channel's
  unfoldable pub due_balance : Channel Decimal → String → State Decimal → Result Decimal
  due_balance channel asset s =
      and_then (balance (adr.hex_address channel.wallet) (new_account_id channel.wallet) asset s)
        λ own. and_then (check (not (is_negative own)) Error.negative_balance) λ _.
          and_then
            (balance (adr.hex_address channel.wallet) (new_account_id channel.channel_id) asset s)
            λ escrow. ok (add own escrow)

  -- the channel that may be closed
  unfoldable pub closable :
      CloseChannelParams → List String → State Decimal → Result (Channel Decimal)
  unfolding has_signed
  closable params signers s = and_then (get_channel_by_id params.channel_id s.db) λ channel.
      and_then (check_challenged_channels channel.wallet s.db) λ _.
        and_then
          (check (same_status channel.status open_status || same_status channel.status resizing)
            Error.channel_not_open)
          λ _.
            and_then (check (has_signed signers channel.wallet) Error.invalid_signature)
              λ _. ok channel

  -- `RequestClose`
  unfoldable pub request_close :
      ChannelService
      → CloseChannelParams
      → List String
      → State Decimal
      → Result (ChannelOperationResponse Decimal)
  unfolding closable due_balance user_allocation signed_response two_allocations next_version
  request_close service params signers s = and_then (closable params signers s) λ channel.
      and_then (or_fail (token_of service channel.token channel.chain_id) Error.token_not_supported)
        λ asset. and_then (due_balance channel asset.symbol s) λ due.
          let in_channel : ℤ = big_int channel.raw_amount in
          let held : ℤ = user_allocation (big_int (shift due asset.token.decimals)) in_channel in
          signed_response service.signing channel.channel_id
            (record {
              intent = intent_finalize;
              version = next_version channel.state.version;
              state_data = "0x";
              allocations =
                  two_allocations service (adr.hex_address params.funds_destination) channel.token
                    held (in_channel -ℤ held);
            })
            none
