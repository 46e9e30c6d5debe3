-- ===== src/AppSessions/Close.antt =====
-- CloseApplication: a quorum closes a session and its funds go to the participants.
pub mod Final
pub mod Pays
use wthelly.Base.{
  ℕ, String, Bool, true, false, not, ◌||◌, ◌==◌, Option, none, some, List, [], ◌∷◌, update,
  is_empty, if◌then◌else◌,
}
use wthelly.Base.Word.{next_uint64}
use wthelly.Error.{Error}
use wthelly.Effect.{Effect, Result, ok, err, or_fail, pure, fail, reads, guard, modify, ◌>>=◌, ◌>>◌}
use wthelly.Money.{DecimalOps, Addresses}
use wthelly.Store.{State, AppSession, open_status, closed, app_withdrawal}
use wthelly.Store.Transaction.{transaction}
use wthelly.Ledger.{new_account_id, balance, record_entry, get_app_session_balances}
use wthelly.Transactions.{record_ledger_transaction}
use wthelly.AppSessions.{
  AppAllocation, Amounts, Weights, add_at, get_app_session, validate_app_participant,
  validate_quorum_session_keys_application,
}
use wthelly.AppSessions.Quorum.{verify_quorum}
use wthelly.AppSessions.Allocations.{verify_allocations}
use wthelly.AppSessions.Submit.{save_session, with_data}

-- `CloseAppSessionParams`
pub record CloseAppSessionParams (Decimal : Type 0) : Type 0 where
  pub app_session_id : String
  pub session_data : Option String
  pub allocations : List (AppAllocation Decimal)

module _ {Decimal : Type 0} ⦃dec : DecimalOps Decimal⦄ ⦃adr : Addresses⦄ where
  open dec use {neg, is_zero, is_negative}

  -- the body of the loop: the participant's share of the session is taken out, and what is allocated
  -- goes to the participant
  unfoldable pub pay_one :
      String → Weights → AppAllocation Decimal → Effect (State Decimal) (Unit {0})
  pay_one session_account_id weights alloc = do
    guard (not (is_negative alloc.amount)) Error.negative_allocation
    reads λ s. validate_app_participant alloc.participant weights
    held ← reads (balance (adr.hex_address alloc.participant) session_account_id alloc.asset_symbol)
    record_entry (adr.hex_address alloc.participant) session_account_id alloc.asset_symbol
        (neg held) none
    record_entry (adr.hex_address alloc.participant) (new_account_id alloc.participant)
        alloc.asset_symbol alloc.amount none
    _ ←
        record_ledger_transaction app_withdrawal session_account_id
          (new_account_id alloc.participant) alloc.asset_symbol alloc.amount
    pure tt

  -- the loop, with `allocationSum` and the wallets whose balance changed
  unfoldable pub pay_all :
      String
      → Weights
      → List (AppAllocation Decimal)
      → Amounts Decimal
      → Effect (State Decimal) (Amounts Decimal × List String)
  pay_all session_account_id weights [] sums = pure (sums, [])
  pay_all session_account_id weights (alloc ∷ allocs) sums = do
    pay_one session_account_id weights alloc
    rest ←
        pay_all session_account_id weights allocs
          (if is_zero alloc.amount then sums else add_at alloc.asset_symbol alloc.amount sums)
    pure (rest.0, (if is_zero alloc.amount then rest.1 else alloc.participant ∷ rest.1))

  -- the body of the transaction: the wallets to be notified and the new version
  unfoldable pub redistribute :
      ℕ
      → CloseAppSessionParams Decimal
      → List String
      → List String
      → Effect (State Decimal) (List String × ℕ)
  redistribute now params rpc_wallets rpc_signers = do
    session ← reads λ s.
        or_fail (get_app_session params.app_session_id (some open_status) s.db)
          Error.session_not_found
    weights ← reads λ s. verify_quorum session rpc_wallets
    validate_quorum_session_keys_application now rpc_signers session.application
    held ← reads λ s. ok (get_app_session_balances (new_account_id session.session_id) s)
    paid ← pay_all (new_account_id session.session_id) weights params.allocations []
    reads λ s. verify_allocations held paid.0
    save_session (
        with_data params.session_data
          (record session { status = closed; version = next_uint64 session.version }))
    pure (paid.1, next_uint64 session.version)

  -- `CloseApplication`
  unfoldable pub close_application :
      ℕ
      → CloseAppSessionParams Decimal
      → List String
      → List String
      → Effect (State Decimal) (List String × ℕ)
  close_application now params rpc_wallets rpc_signers = do
    guard (not (params.app_session_id == "" || is_empty params.allocations))
        Error.missing_parameters
    transaction (redistribute now params rpc_wallets rpc_signers)
