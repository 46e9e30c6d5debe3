-- ===== src/Store.antt =====
-- The tables of the clearnode's database, a list of rows each, newest row first, and the cache of
-- session keys. (ledger.go, ledger_transaction.go, channel.go, state.go, app_session.go,
-- session_key.go, tag.go, contract_event.go, blockchain_action.go)
-- Columns that no modelled code reads are left out: row ids, account types, creation and update
-- times. The JSON columns hold the values that they encode.
pub mod Rows
pub mod Transaction
use wthelly.Base.{ℕ, String, Option, List}
use wthelly.Base.Int.{ℤ}

-- `Entry`
pub record Entry (Decimal : Type 0) : Type 0 where
  pub account_id : String
  pub asset_symbol : String
  pub wallet : String
  pub credit : Decimal
  pub debit : Decimal
  pub session_key : Option String

-- `TransactionType`, by its name in place of its code.
pub data TransactionType : Type 0 where
  transfer deposit withdrawal app_deposit app_withdrawal escrow_lock escrow_unlock : TransactionType

-- `LedgerTransaction`
pub record LedgerTransaction (Decimal : Type 0) : Type 0 where
  pub tx_type : TransactionType
  pub from_account : String
  pub to_account : String
  pub asset_symbol : String
  pub amount : Decimal

-- `ChannelStatus`: the statuses of channels and of app sessions
pub data ChannelStatus : Type 0 where
  open_status closed resizing challenged : ChannelStatus

-- `Allocation`, of a channel's state
pub record Allocation (Decimal : Type 0) : Type 0 where
  pub participant : String
  pub token_address : String
  pub raw_amount : Decimal

-- `UnsignedState`: its intent is the code of a `StateIntent`
pub record UnsignedState (Decimal : Type 0) : Type 0 where
  pub intent : ℕ
  pub version : ℕ
  pub state_data : String
  pub allocations : List (Allocation Decimal)

pub record Channel (Decimal : Type 0) : Type 0 where
  pub channel_id : String
  pub chain_id : ℕ
  pub token : String
  pub wallet : String
  pub participant : String
  pub raw_amount : Decimal
  pub status : ChannelStatus
  pub challenge : ℕ
  pub nonce : ℕ
  pub adjudicator : String
  pub state : UnsignedState Decimal
  pub server_state_signature : Option String
  pub user_state_signature : Option String

pub record AppSession : Type 0 where
  pub protocol : String
  pub session_id : String
  pub application : String
  pub challenge : ℕ
  pub nonce : ℕ
  pub participant_wallets : List String
  pub weights : List ℤ
  pub session_data : String
  pub quorum : ℕ
  pub version : ℕ
  pub status : ChannelStatus

-- `Allowance`: the amount is a decimal in text
pub record Allowance : Type 0 where
  pub asset : String
  pub amount : String

pub record SessionKey : Type 0 where
  pub address : String
  pub wallet_address : String
  pub application : String
  pub allowance : Option (List Allowance)
  pub scope : String
  pub expires_at : ℕ

-- `UserTagModel`
pub record UserTag : Type 0 where
  pub wallet : String
  pub tag : String

pub record ContractEvent : Type 0 where
  pub contract_address : String
  pub chain_id : ℕ
  pub name : String
  pub block_number : ℕ
  pub transaction_hash : String
  pub log_index : ℕ

-- `CheckpointData`
pub record CheckpointData (Decimal : Type 0) : Type 0 where
  pub state : UnsignedState Decimal
  pub user_sig : String
  pub server_sig : String

pub data BlockchainActionStatus : Type 0 where
  pending completed failed : BlockchainActionStatus

-- The data of an action is `none` if the column holds no checkpoint. Its id orders the actions by
-- their creation.
pub record BlockchainAction (Decimal : Type 0) : Type 0 where
  pub id : ℕ
  pub action_type : String
  pub channel_id : String
  pub chain_id : ℕ
  pub action_data : Option (CheckpointData Decimal)
  pub status : BlockchainActionStatus
  pub retries : ℕ
  pub last_error : String
  pub tx_hash : String

-- `sessionKeyCacheEntry`, under its key
pub record CacheEntry : Type 0 where
  pub key : String
  pub wallet : String
  pub expires_at : ℕ

pub record Db (Decimal : Type 0) : Type 0 where
  pub ledger : List (Entry Decimal)
  pub ledger_transactions : List (LedgerTransaction Decimal)
  pub channels : List (Channel Decimal)
  pub app_sessions : List AppSession
  pub session_keys : List SessionKey
  pub user_tags : List UserTag
  pub contract_events : List ContractEvent
  pub blockchain_actions : List (BlockchainAction Decimal)

-- The database with the name of its driver, and `sessionKeyCache`, which no rollback restores.
pub record State (Decimal : Type 0) : Type 0 where
  pub driver : String
  pub db : Db Decimal
  pub cache : List CacheEntry
