-- ===== src/Handlers/Transfer.antt =====
-- HandleTransfer: funds go from the user's own account to another wallet's.
pub mod Conserves
pub mod Once
use wthelly.Base.{
  ℕ, String, not, ◌&&◌, ◌||◌, ◌==◌, Option, none, some, List, [], ◌∷◌, is_empty, if◌then◌else◌,
}
use wthelly.Error.{Error}
use wthelly.Effect.{Effect, Result, ok, err, pure, reads, guard, ◌>>=◌, ◌>>◌}
use wthelly.Money.{DecimalOps, Addresses}
use wthelly.MessageCache.{MessageCache, add, exists}
use wthelly.Store.{State, Db, LedgerTransaction, transfer}
use wthelly.Store.Transaction.{transaction}
use wthelly.Channels.{check_challenged_channels, ensure_wallet_has_all_allocations_empty}
use wthelly.Ledger.{new_account_id, balance, record_entry}
use wthelly.Transactions.{record_ledger_transaction}
use wthelly.SessionKeys.{get_session_key_if_active, validate_session_key_spending}
use wthelly.Handlers.{
  Request, verify_signer, get_user_tag_by_wallet, get_wallet_by_tag, delegate_key,
}

-- `TransferAllocation`
pub record TransferAllocation (Decimal : Type 0) : Type 0 where
  pub asset_symbol : String
  pub amount : Decimal

pub record TransferParams (Decimal : Type 0) : Type 0 where
  pub destination : String
  pub destination_user_tag : String
  pub allocations : List (TransferAllocation Decimal)

-- `TransactionWithTags`: an absent tag is the empty text
pub record TransactionWithTags (Decimal : Type 0) : Type 0 where
  pub row : LedgerTransaction Decimal
  pub from_account_tag : String
  pub to_account_tag : String

abbrev or_empty : Result (Option String) → Result String
or_empty (ok none) = ok ""
or_empty (ok (some tag)) = ok tag
or_empty (err e) = err e

module _ {Decimal : Type 0} where
  -- the address and the tag of the destination: by its tag if no address is given
  unfoldable pub find_destination :
      (String → String) → TransferParams Decimal → Db Decimal → Result (String × String)
  find_destination to_upper params db =
      if params.destination == ""
      then elim (get_wallet_by_tag to_upper params.destination_user_tag db) [
        | ok u ↦ ok (u.wallet, u.tag)
        | err e ↦ err e
      ]
      else ok (params.destination, params.destination_user_tag)

  -- the tag of the destination, where it is not known yet
  unfoldable pub find_tag : String → String → Db Decimal → Result String
  find_tag address tag db =
      if tag == "" then or_empty (get_user_tag_by_wallet address db) else ok tag

module _ {Decimal : Type 0} ⦃dec : DecimalOps Decimal⦄ where
  open dec use {neg, is_zero, is_negative, greater_than}

  -- the validation of a session key that signed
  unfoldable pub validate_spending_of :
      ℕ → Option String → String → Decimal → Effect (State Decimal) (Unit {0})
  validate_spending_of now none asset amount = pure tt
  validate_spending_of now (some address) asset amount = do
    key ← reads λ s. get_session_key_if_active now address s.db
    reads λ s. validate_session_key_spending key asset amount s

  module _ ⦃adr : Addresses⦄ where
    -- the body of the loop
    unfoldable pub transfer_one :
        ℕ
        → String
        → String
        → Option String
        → TransferAllocation Decimal
        → Effect (State Decimal) (LedgerTransaction Decimal)
    transfer_one now from_wallet to_wallet session_key alloc = do
      guard (not (is_zero alloc.amount || is_negative alloc.amount)) Error.invalid_allocation
      validate_spending_of now session_key alloc.asset_symbol alloc.amount
      available ←
          reads
            (balance (adr.hex_address from_wallet) (new_account_id from_wallet) alloc.asset_symbol)
      guard (not (greater_than alloc.amount available)) Error.insufficient_funds
      record_entry (adr.hex_address from_wallet) (new_account_id from_wallet) alloc.asset_symbol
          (neg alloc.amount) session_key
      record_entry (adr.hex_address to_wallet) (new_account_id to_wallet) alloc.asset_symbol
          alloc.amount none
      record_ledger_transaction transfer (new_account_id from_wallet) (new_account_id to_wallet)
          alloc.asset_symbol alloc.amount

    unfoldable pub transfer_all :
        ℕ
        → String
        → String
        → Option String
        → List (TransferAllocation Decimal)
        → Effect (State Decimal) (List (LedgerTransaction Decimal))
    transfer_all now from_wallet to_wallet session_key [] = pure []
    transfer_all now from_wallet to_wallet session_key (alloc ∷ allocs) = do
      row ← transfer_one now from_wallet to_wallet session_key alloc
      rows ← transfer_all now from_wallet to_wallet session_key allocs
      pure (row ∷ rows)

    -- the body of the transaction
    unfoldable pub move_funds :
        ℕ
        → String
        → String
        → Option String
        → List (TransferAllocation Decimal)
        → Effect (State Decimal) (List (LedgerTransaction Decimal))
    move_funds now from_wallet to_wallet session_key allocs = do
      reads λ s. check_challenged_channels from_wallet s.db
      reads λ s. ensure_wallet_has_all_allocations_empty from_wallet s.db
      transfer_all now from_wallet to_wallet session_key allocs

    unfoldable pub with_tags :
        String → String → List (LedgerTransaction Decimal) → List (TransactionWithTags Decimal)
    with_tags from_tag to_tag [] = []
    with_tags from_tag to_tag (row ∷ rows) =
        record { row = row; from_account_tag = from_tag; to_account_tag = to_tag }
        ∷ with_tags from_tag to_tag rows

    -- the handler between the two uses of the message cache
    unfoldable pub make_transfer :
        (String → String)
        → ℕ
        → Request
        → TransferParams Decimal
        → Effect (State Decimal) (List (TransactionWithTags Decimal))
    make_transfer to_upper now req params = do
      guard (not (params.destination == "" && params.destination_user_tag == ""))
          Error.missing_destination
      guard (params.destination == "" || adr.is_hex_address params.destination)
          Error.invalid_destination
      guard (not (is_empty params.allocations)) Error.empty_allocations
      signer ← verify_signer now req.recovered req.user_id
      to ← reads λ s. find_destination to_upper params s.db
      to_tag ← reads λ s. find_tag to.0 to.1 s.db
      guard (not (to.0 == req.user_id)) Error.transfer_to_self
      from_tag ← reads λ s. or_empty (get_user_tag_by_wallet req.user_id s.db)
      rows ←
          transaction
            (move_funds now req.user_id to.0 (delegate_key signer req.user_id) params.allocations)
      pure (with_tags from_tag to_tag rows)

    -- a request that succeeded is remembered
    unfoldable pub remember :
        {A : Type 0}
        → ℕ
        → String
        → MessageCache
        → Result A × State Decimal
        → (Result A × State Decimal) × MessageCache
    remember now hash mc (ok a, s) = ((ok a, s), add now hash mc)
    remember now hash mc (err e, s) = ((err e, s), mc)

    -- `HandleTransfer`, on the state and the cache of messages
    unfoldable pub handle_transfer :
        (String → String)
        → ℕ
        → Request
        → TransferParams Decimal
        → MessageCache
        → State Decimal
        → (Result (List (TransactionWithTags Decimal)) × State Decimal) × MessageCache
    handle_transfer to_upper now req params mc s =
        if exists now req.message_hash mc
        then ((err Error.already_processed, s), mc)
        else remember now req.message_hash mc (make_transfer to_upper now req params s)
