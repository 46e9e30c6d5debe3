-- ===== src/Tests/ChannelRequests.antt =====
-- The theorems on the requests for channels and on the configured chains, applied.
use wthelly.Base.{◌≡◌, refl, true, false, some, none, [], ◌∷◌, All, any, select, find, update, ◌==◌}
use wthelly.Base.Int.{ℤ, pos, negsuc, ◌+ℤ◌, ◌-ℤ◌}
use wthelly.Base.Word.{add_int64}
use wthelly.Error.{Error}
use wthelly.Effect.{ok, err, ◌>>=◌, pure, fail, reads, modify, guard}
use wthelly.Store.{State, Channel}
use wthelly.Store.Transaction.{transaction}
use wthelly.Assets.{enabled_on, with_asset, get_asset_token_by_address_and_chain_id}
use wthelly.Blockchains.{
  BlockchainConfig, BlockchainsConfig, Formats, is_default, address_or_default, verify_addresses,
  verify_blockchain, verify_blockchains, verify_chains,
}
use wthelly.Blockchains.Verified.{IsVerified, chains-IsVerified}
use wthelly.Channels.{
  same_status, get_channel_by_id, save_channel, get_channels_by_wallet, check_challenged_channels,
}
use wthelly.Channels.Service.{
  ChannelService, Signing, CloseChannelParams, ResizeChannelParams, has_signed, next_version,
  uint64_of, response_allocations, create_channel_operation_response, signed_response,
  two_allocations,
}
use wthelly.Channels.Service.Resize.{
  amount_or_zero, as_resizing, lock_escrow, check_amounts, start_resize, resized_amount,
  request_resize,
}
use wthelly.Channels.Service.Resize.Locks.{HasLocked, resize-locks}
use wthelly.Channels.Service.Resize.Once.{resize-once}
use wthelly.Channels.Service.Close.{closable, due_balance, user_allocation, request_close}
use wthelly.Channels.Service.Close.Divides.{Divides, close-Divides}
use wthelly.Ledger.{new_account_id, in_row, book, record_entry, sum, credit_minus_debit, balance}
use wthelly.Ledger.Conserved.{Conserved}
use wthelly.Transactions.{record_ledger_transaction}
use wthelly.Custody.{raw_to_decimal}
use wthelly.Tests.{whole_decimals, two_addresses, funded, funded-IsSolvent, state_with}
use wthelly.Tests.Events.{usdc, channel_of_a}

abbrev any_format : Formats
any_format = record { is_blockchain_name = λ s. true; is_contract_address = λ s. true }

abbrev base_chain : BlockchainConfig
base_chain = record {
  name = "base";
  id = 1;
  disabled = false;
  blockchain_rpc = "";
  block_step = 0;
  contract_addresses = record { custody = ""; adjudicator = "0xB"; balance_checker = "" };
}

abbrev configured : BlockchainsConfig
configured = record {
  default_contract_addresses = record {
    custody = "0xA";
    adjudicator = "";
    balance_checker = "0xA";
  };
  blockchains = base_chain ∷ [];
}

chains-IsVerified_example : All (IsVerified any_format) (
    record base_chain {
      block_step = 10000;
      contract_addresses = record { custody = "0xA"; adjudicator = "0xB"; balance_checker = "0xA" };
    }
    ∷ [])
unfolding is_default address_or_default verify_addresses verify_blockchain verify_blockchains
    verify_chains
chains-IsVerified_example =
    chains-IsVerified any_format configured
      {done = record configured {
        blockchains =
            record base_chain {
              block_step = 10000;
              contract_addresses = record {
                custody = "0xA";
                adjudicator = "0xB";
                balance_checker = "0xA";
              };
            }
            ∷ [];
      }}
      refl

abbrev signs_all : Signing
signs_all = record {
  signer_address = "0xB";
  get_channel_id = λ channel chain. ok "new";
  pack_state = λ id state. ok id;
  pack_amounts = λ amounts. ok "amounts";
  sign = λ packed. ok packed;
}

abbrev service : ChannelService
service = record {
  blockchains = base_chain ∷ [];
  assets = usdc ∷ [];
  equal_fold = ◌==◌;
  signing = signs_all;
}

abbrev opened : State ℤ
opened = record (state_with funded) {
  db = record (state_with funded).db { channels = channel_of_a ∷ [] };
}

-- A takes 30 out of the channel.
abbrev withdraw_30 : ResizeChannelParams ℤ
withdraw_30 = record {
  channel_id = "ch";
  allocate_amount = none;
  resize_amount = some (negsuc 29);
  funds_destination = "0xA";
}

resize-locks_example :
    Conserved funded (request_resize service withdraw_30 ("0xA" ∷ []) opened).1.db.ledger
    × HasLocked service withdraw_30 opened
        (request_resize service withdraw_30 ("0xA" ∷ []) opened).1
unfolding ◌>>=◌ pure fail reads modify guard transaction any select find update ◌+ℤ◌ ◌-ℤ◌
    whole_decimals two_addresses new_account_id in_row book record_entry sum credit_minus_debit
    balance record_ledger_transaction same_status get_channel_by_id save_channel
    get_channels_by_wallet check_challenged_channels enabled_on with_asset
    get_asset_token_by_address_and_chain_id raw_to_decimal has_signed next_version add_int64
    uint64_of response_allocations create_channel_operation_response signed_response two_allocations
    amount_or_zero as_resizing lock_escrow check_amounts start_resize resized_amount request_resize
resize-locks_example = resize-locks service withdraw_30 ("0xA" ∷ []) opened funded-IsSolvent refl

resize-once_example :
    (e : Error) × ((request_resize service withdraw_30
        ("0xA" ∷ [])
        (request_resize service withdraw_30 ("0xA" ∷ []) opened).1).0
      ≡ err e)
unfolding ◌>>=◌ pure fail reads modify guard transaction any select find update ◌+ℤ◌ ◌-ℤ◌
    whole_decimals two_addresses new_account_id in_row book record_entry sum credit_minus_debit
    balance record_ledger_transaction same_status get_channel_by_id save_channel
    get_channels_by_wallet check_challenged_channels enabled_on with_asset
    get_asset_token_by_address_and_chain_id raw_to_decimal has_signed next_version add_int64
    uint64_of response_allocations create_channel_operation_response signed_response two_allocations
    amount_or_zero as_resizing lock_escrow check_amounts start_resize resized_amount request_resize
resize-once_example =
    resize-once service withdraw_30 withdraw_30 ("0xA" ∷ []) ("0xA" ∷ []) opened refl refl

abbrev close_it : CloseChannelParams
close_it = record { channel_id = "ch"; funds_destination = "0xA" }

close-Divides_example :
    (channel : Channel ℤ) × (asset : wthelly.Assets.AssetTokenConfig) × (due : ℤ) × (share : ℤ)
    × Divides service close_it ("0xA" ∷ []) opened channel asset due share (
        create_channel_operation_response "ch"
          (record {
            intent = 3;
            version = pos 7;
            state_data = "0x";
            allocations = two_allocations service "0xA" "token" (pos 40) (pos 0);
          })
          none
          "ch")
unfolding any select find ◌+ℤ◌ ◌-ℤ◌ whole_decimals two_addresses new_account_id in_row book sum
    credit_minus_debit balance same_status get_channel_by_id get_channels_by_wallet
    check_challenged_channels enabled_on with_asset get_asset_token_by_address_and_chain_id
    has_signed next_version add_int64 uint64_of response_allocations
    create_channel_operation_response signed_response two_allocations closable due_balance
    user_allocation request_close
close-Divides_example = close-Divides service close_it ("0xA" ∷ []) opened refl
