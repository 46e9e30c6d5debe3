-- ===== src/Custody.antt =====
-- custody.go: the events of the custody contract, which the contract's bindings decode, and what
-- processing each of them does to the database. A handler logs its error and returns; here it returns
-- the error, or the notifications that it sends.
pub mod Created
pub mod Resized
pub mod Closed
pub mod Recorded
pub mod Once
pub mod Funds
use wthelly.Base.{
  ◌%◌, ◌^◌, ℕ, String, Bool, true, not, ◌&&◌, ◌==◌, eq_ℕ, ltb, Option, none, some, List, [], ◌∷◌,
  any, select, length, if◌then◌else◌,
}
use wthelly.Base.Int.{ℤ}
use wthelly.Error.{Error}
use wthelly.Effect.{Effect, Result, ok, err, or_fail, pure, reads, guard, modify, ◌>>=◌, ◌>>◌}
use wthelly.Money.{DecimalOps, Addresses}
use wthelly.Store.{State, Db, Channel, ContractEvent, Allocation, UnsignedState, deposit}
use wthelly.Assets.{AssetConfig, AssetTokenConfig, get_asset_token_by_address_and_chain_id}
use wthelly.Ledger.{new_account_id, record_entry, get_balances}
use wthelly.Transactions.{record_ledger_transaction}

-- what the handlers read of the client of one chain: `Custody`, with the comparison of addresses
-- that ignores case
pub record Custody : Type 0 where
  pub custody_addr : String
  pub chain_id : ℕ
  pub broker : String
  pub adjudicator_address : String
  pub assets : List AssetConfig
  pub equal_fold : String → String → Bool

-- `types.Log`: where an event stands on its chain
pub record Log : Type 0 where
  pub tx_hash : String
  pub index : ℕ
  pub block_number : ℕ

-- The structures of the events. Addresses are in their checksummed spelling, hashes in hexadecimal,
-- and the version of a state is what its `Uint64` returns.
pub record EventAllocation : Type 0 where
  pub destination : String
  pub token : String
  pub amount : ℤ

pub record EventState : Type 0 where
  pub intent : ℕ
  pub version : ℕ
  pub state_data : String
  pub allocations : List EventAllocation

pub record CreatedEvent : Type 0 where
  pub channel_id : String
  pub wallet : String
  pub participants : List String
  pub adjudicator : String
  pub challenge : ℕ
  pub nonce : ℕ
  pub initial : EventState
  pub raw : Log

pub record DepositedEvent : Type 0 where
  pub wallet : String
  pub token : String
  pub amount : ℤ
  pub raw : Log

pub record ChallengedEvent : Type 0 where
  pub channel_id : String
  pub state : EventState
  pub raw : Log

pub record ResizedEvent : Type 0 where
  pub channel_id : String
  pub delta_allocations : List ℤ
  pub raw : Log

pub record ClosedEvent : Type 0 where
  pub channel_id : String
  pub final_state : EventState
  pub raw : Log

-- `Notification`: a wallet's balances, or a channel
pub data Notification (Decimal : Type 0) : Type 0 where
  balance_update : String → List (String × Decimal) → Notification Decimal
  channel_update : Channel Decimal → Notification Decimal

-- an element of a slice: an index out of range stops the program
abbrev pub index_or_panic : {A : Type 0} → Option A → Result A
index_or_panic o = or_fail o Error.panic

-- `chain_id = ? AND transaction_hash = ? AND log_index = ?`
unfoldable pub is_event : ℕ → String → ℕ → ContractEvent → Bool
is_event chain_id tx_hash log_index ev =
    eq_ℕ ev.chain_id chain_id && (ev.transaction_hash == tx_hash) && eq_ℕ ev.log_index log_index

-- the later of two events on a chain
unfoldable pub later : ContractEvent → Option ContractEvent → ContractEvent
later a none = a
later a (some b) =
    if ltb a.block_number b.block_number
    then b
    else if eq_ℕ a.block_number b.block_number && ltb a.log_index b.log_index
    then b
    else a

unfoldable pub latest : List ContractEvent → Option ContractEvent
unfolding later
latest [] = none
latest (ev ∷ evs) = some (later ev (latest evs))

-- the row of an event
-- `uint32(rawLog.Index)`
unfoldable pub log_index_of : Log → ℕ
log_index_of raw = raw.index % 2 ^ 32

unfoldable pub event_of : Custody → String → Log → ContractEvent
unfolding log_index_of
event_of c name raw = record {
  contract_address = c.custody_addr;
  chain_id = c.chain_id;
  name = name;
  block_number = raw.block_number;
  transaction_hash = raw.tx_hash;
  log_index = log_index_of raw;
}

module _ {Decimal : Type 0} where
  -- `IsContractEventPresent`
  unfoldable pub is_contract_event_present : ℕ → String → ℕ → Db Decimal → Bool
  unfolding is_event
  is_contract_event_present chain_id tx_hash log_index db =
      ltb 0 (length (select (is_event chain_id tx_hash log_index) db.contract_events))

  -- `StoreContractEvent`
  unfoldable pub store_contract_event : ContractEvent → Effect (State Decimal) (Unit {0})
  store_contract_event event =
      modify λ s. record s { db = record s.db { contract_events = event ∷ s.db.contract_events } }

  -- `saveContractEvent`
  unfoldable pub save_contract_event : Custody → String → Log → Effect (State Decimal) (Unit {0})
  save_contract_event c name raw = do
    present ←
        reads λ s. ok (is_contract_event_present c.chain_id raw.tx_hash (log_index_of raw) s.db)
    guard (not present) Error.event_already_processed
    store_contract_event (event_of c name raw)

  -- `GetLatestContractEvent`
  unfoldable pub get_latest_contract_event : String → ℕ → Db Decimal → Option ContractEvent
  unfolding latest
  get_latest_contract_event contract_address chain_id db = latest (
      select (λ ev. eq_ℕ ev.chain_id chain_id && (ev.contract_address == contract_address))
        db.contract_events)

-- `GetAssetTokenByAddressAndChainID`, on the client's assets and chain
abbrev pub asset_token : Custody → String → Option AssetTokenConfig
asset_token c token = get_asset_token_by_address_and_chain_id c.equal_fold c.assets token c.chain_id

module _ {Decimal : Type 0} ⦃dec : DecimalOps Decimal⦄ where
  open dec use {zero_d, from_big_int, neg}

  -- `rawToDecimal`
  unfoldable pub raw_to_decimal : Option ℤ → ℕ → Decimal
  raw_to_decimal none decimals = zero_d
  raw_to_decimal (some raw) decimals = from_big_int raw decimals

  -- the allocations of an event's state, as they are stored
  unfoldable pub stored_allocations : List EventAllocation → List (Allocation Decimal)
  stored_allocations [] = []
  stored_allocations (alloc ∷ allocs) =
      record {
        participant = alloc.destination;
        token_address = alloc.token;
        raw_amount = from_big_int alloc.amount 0;
      }
      ∷ stored_allocations allocs

  module _ ⦃adr : Addresses⦄ where
    -- `NewBalanceNotification`
    unfoldable pub new_balance_notification : String → State Decimal → Notification Decimal
    new_balance_notification wallet s =
        balance_update wallet (get_balances (adr.hex_address wallet) (new_account_id wallet) s)

    -- A deposit into a channel goes on into the wallet's own account at once.
    unfoldable pub deposit_through :
        String → String → String → String → Decimal → Effect (State Decimal) (Unit {0})
    deposit_through wallet channel_account_id wallet_account_id asset amount = do
      record_entry wallet channel_account_id asset amount none
      record_entry wallet channel_account_id asset (neg amount) none
      record_entry wallet wallet_account_id asset amount none
      _ ← record_ledger_transaction deposit channel_account_id wallet_account_id asset amount
      pure tt
