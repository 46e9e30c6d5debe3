-- ===== src/Tests/Events.antt =====
-- The theorems on the events of the custody contract and on the assets, applied.
use wthelly.Base.{
  ◌≡◌, refl, String, ◌==◌, false, none, [], ◌∷◌, select, find, any, update, get_elem?,
}
use wthelly.Base.Int.{ℤ, pos, ◌+ℤ◌, ◌-ℤ◌}
use wthelly.Error.{Error}
use wthelly.Effect.{◌>>=◌, pure, fail, reads, modify, guard}
use wthelly.Store.{State, Channel, open_status}
use wthelly.Store.Transaction.{transaction}
use wthelly.Assets.{
  AssetConfig, AssetTokenConfig, enabled_on, with_asset, get_asset_tokens_by_chain_id,
  get_asset_token_by_address_and_chain_id,
}
use wthelly.Assets.Lookup.{get_asset_token-find}
use wthelly.Channels.{
  same_status, get_channel_by_id, save_channel, check_existing_channels, create_channel,
}
use wthelly.Ledger.{new_account_id, in_row, book, record_entry, sum, credit_minus_debit, balance}
use wthelly.Ledger.Value.{value_of}
use wthelly.Ledger.Balance.{row}
use wthelly.Transactions.{record_ledger_transaction}
use wthelly.Custody.{
  Custody, EventState, EventAllocation, CreatedEvent, DepositedEvent, ClosedEvent, is_event,
  event_of, is_contract_event_present, store_contract_event, save_contract_event, raw_to_decimal,
  stored_allocations, deposit_through,
}
use wthelly.Custody.Created.{
  check_no_open_channel, reported_state, record_created, handle_created, record_deposited,
  handle_deposited,
}
use wthelly.Custody.Closed.{
  deposited, closed_event, final_allocations, closed_with, unlock_escrow, pay_out, record_closed,
  handle_closed, handle_block_chain_event,
}
use wthelly.Custody.Once.{handle-rollback, event-once}
use wthelly.Custody.Funds.Settles.{Settled, closed-settles}
use wthelly.Custody.Funds.Credits.{created-credits}
use wthelly.Tests.{whole_decimals, two_addresses, funded, state_with}

abbrev pub usdc : AssetConfig
usdc = record {
  name = "USD Coin";
  symbol = "usdc";
  disabled = false;
  tokens =
      record {
        name = "USD Coin";
        symbol = "usdc";
        blockchain_id = 1;
        disabled = false;
        address = "token";
        decimals = 6;
      }
      ∷ [];
}

abbrev pub usdc_on_one : AssetTokenConfig
usdc_on_one = record {
  name = "USD Coin";
  symbol = "usdc";
  token = record {
    name = "USD Coin";
    symbol = "usdc";
    blockchain_id = 1;
    disabled = false;
    address = "token";
    decimals = 6;
  };
}

get_asset_token-find_example :
    get_asset_token_by_address_and_chain_id ◌==◌ (usdc ∷ []) "token" 1
    ≡ find (λ c. c.token.address == "token") (get_asset_tokens_by_chain_id (usdc ∷ []) 1)
get_asset_token-find_example = get_asset_token-find ◌==◌ "token" 1 (usdc ∷ [])

-- the client of chain 1, with B as the broker
abbrev client : Custody
client = record {
  custody_addr = "custody";
  chain_id = 1;
  broker = "0xB";
  adjudicator_address = "judge";
  assets = usdc ∷ [];
  equal_fold = ◌==◌;
}

abbrev allocation_to : String → ℤ → EventAllocation
allocation_to destination amount = record {
  destination = destination;
  token = "token";
  amount = amount;
}

abbrev state_of : ℤ → ℤ → EventState
state_of a b = record {
  intent = 3;
  version = 7;
  state_data = "0x";
  allocations = allocation_to "0xA" a ∷ allocation_to "0xB" b ∷ [];
}

abbrev creation : CreatedEvent
creation = record {
  channel_id = "ch";
  wallet = "0xA";
  participants = "0xA" ∷ "0xB" ∷ [];
  adjudicator = "judge";
  challenge = 3600;
  nonce = 1;
  initial = state_of (pos 40) (pos 0);
  raw = record { tx_hash = "tx1"; index = 0; block_number = 10 };
}

abbrev deposit_of_a : DepositedEvent
deposit_of_a = record {
  wallet = "0xA";
  token = "token";
  amount = pos 5;
  raw = record { tx_hash = "tx2"; index = 3; block_number = 11 };
}

abbrev closing : ClosedEvent
closing = record {
  channel_id = "ch";
  final_state = state_of (pos 30) (pos 10);
  raw = record { tx_hash = "tx3"; index = 1; block_number = 12 };
}

-- A's channel, of which 10 are locked for a withdrawal
abbrev pub channel_of_a : Channel ℤ
channel_of_a = record {
  channel_id = "ch";
  chain_id = 1;
  token = "token";
  wallet = "0xA";
  participant = "0xA";
  raw_amount = pos 40;
  status = open_status;
  challenge = 3600;
  nonce = 1;
  adjudicator = "judge";
  state = record { intent = 1; version = 6; state_data = "0x"; allocations = [] };
  server_state_signature = none;
  user_state_signature = none;
}

abbrev with_channel : State ℤ
with_channel = record (state_with funded) {
  db = record (state_with (book "0xA" "ch" "usdc" (pos 10) none funded)).db {
    channels = channel_of_a ∷ [];
  };
}

closed-settles_example :
    Settled "0xA" "ch" "0xA" "usdc"
      (pos 30)
      with_channel
      (handle_closed client closing with_channel).1
unfolding ◌>>=◌ pure fail reads modify guard transaction select find any update get_elem? ◌+ℤ◌ ◌-ℤ◌
    whole_decimals two_addresses new_account_id in_row book record_entry sum credit_minus_debit
    balance record_ledger_transaction get_channel_by_id save_channel enabled_on with_asset
    get_asset_token_by_address_and_chain_id is_event event_of is_contract_event_present
    store_contract_event save_contract_event raw_to_decimal final_allocations closed_with
    unlock_escrow pay_out record_closed handle_closed
closed-settles_example =
    closed-settles client closing with_channel channel_of_a usdc_on_one
      (allocation_to "0xA" (pos 30)) refl refl refl (cc) refl

created-credits_example :
    value_of
      (row "0xA" "usdc" "0xA")
      (handle_created client creation (state_with funded)).1.db.ledger
    ≡ value_of (row "0xA" "usdc" "0xA") funded +ℤ pos 40
unfolding ◌>>=◌ pure fail reads modify guard transaction select find any update get_elem? ◌+ℤ◌ ◌-ℤ◌
    whole_decimals two_addresses new_account_id book record_entry record_ledger_transaction
    same_status check_existing_channels create_channel enabled_on with_asset
    get_asset_token_by_address_and_chain_id is_event event_of is_contract_event_present
    store_contract_event save_contract_event raw_to_decimal stored_allocations deposit_through
    check_no_open_channel reported_state record_created handle_created
created-credits_example =
    created-credits client creation (state_with funded) (allocation_to "0xA" (pos 40)) usdc_on_one
      refl refl refl (row "0xA" "usdc" "0xA")

-- a channel that is not in the table is closed
handle-rollback_example :
    (handle_block_chain_event client (closed_event closing) (state_with funded)).1.db
    ≡ (state_with funded).db
unfolding ◌>>=◌ pure fail reads modify guard transaction select find get_channel_by_id is_event
    event_of is_contract_event_present store_contract_event save_contract_event record_closed
    handle_closed handle_block_chain_event
handle-rollback_example =
    handle-rollback client (closed_event closing) (state_with funded) {e = Error.record_not_found}
      refl

event-once_example :
    (handle_block_chain_event client
      (deposited deposit_of_a)
      (handle_block_chain_event client (deposited deposit_of_a) (state_with funded)).1).1.db
    ≡ (handle_block_chain_event client (deposited deposit_of_a) (state_with funded)).1.db
unfolding ◌>>=◌ pure fail reads modify guard transaction select find ◌+ℤ◌ ◌-ℤ◌ whole_decimals
    two_addresses new_account_id book record_entry record_ledger_transaction enabled_on with_asset
    get_asset_token_by_address_and_chain_id is_event event_of is_contract_event_present
    store_contract_event save_contract_event raw_to_decimal record_deposited handle_deposited
    handle_block_chain_event
event-once_example =
    event-once client (deposited deposit_of_a) (deposited deposit_of_a) deposit_of_a.raw
      (state_with funded) refl refl refl
