-- ===== src/AppSessions/Deposit.antt =====
-- DepositUpdater: participants move funds from their own accounts into the session's.
pub mod Conserves
use wthelly.Base.{
  ℕ, String, Bool, true, false, not, ◌==◌, Option, none, some, List, [], ◌∷◌, ◌+◌, is_empty,
  if◌then◌else◌,
}
use wthelly.Base.Word.{next_uint64}
use wthelly.Error.{Error}
use wthelly.Effect.{Effect, Result, ok, err, pure, fail, reads, guard, modify, check, ◌>>=◌, ◌>>◌}
use wthelly.Money.{DecimalOps, Addresses}
use wthelly.Store.{State, Db, AppSession, app_deposit}
use wthelly.Channels.{check_challenged_channels, ensure_wallet_has_all_allocations_empty}
use wthelly.Ledger.{new_account_id, balance, record_entry}
use wthelly.Transactions.{record_ledger_transaction}
use wthelly.AppSessions.{
  AppAllocation, Amounts, Update, allocation_at, get_participant_allocations,
  get_session_key_for_app_participant, validate_app_participant, validate_delegate,
}

module _ {Decimal : Type 0} ⦃dec : DecimalOps Decimal⦄ where
  open dec use {zero_d, sub, neg, is_negative, less_than, greater_than, less_than_or_equal}

  -- the first loop: no allocation may fall
  unfoldable pub check_not_decreased :
      List (String × Amounts Decimal) → List (AppAllocation Decimal) → Result (Unit {0})
  check_not_decreased current [] = ok tt
  check_not_decreased current (alloc ∷ allocs) =
      if less_than alloc.amount (allocation_at alloc.participant alloc.asset_symbol current)
      then err Error.decreased_allocation
      else check_not_decreased current allocs

  module _ ⦃adr : Addresses⦄ where
    -- The two entries of a deposit and its row in the journal, for a wallet: out of the wallet's own
    -- account, on behalf of a session key perhaps, and into the session's.
    unfoldable pub move_into_session :
        String → String → String → Decimal → Option String → Effect (State Decimal) (Unit {0})
    move_into_session wallet session_account_id asset amount session_key = do
      record_entry (adr.hex_address wallet) (new_account_id wallet) asset (neg amount) session_key
      record_entry (adr.hex_address wallet) session_account_id asset amount none
      _ ←
          record_ledger_transaction app_deposit (new_account_id wallet) session_account_id asset
            amount
      pure tt

    -- the body of the second loop, for an allocation that grows
    unfoldable pub deposit_one :
        ℕ → Update Decimal → Decimal → AppAllocation Decimal → Effect (State Decimal) (Unit {0})
    deposit_one now d current alloc = do
      guard (not (is_negative alloc.amount)) Error.negative_allocation
      reads λ s. validate_app_participant alloc.participant d.participant_weights
      guard (not (less_than_or_equal (sub alloc.amount current) zero_d))
          Error.invalid_deposit_amount
      reads λ s. check_challenged_channels alloc.participant s.db
      reads λ s. ensure_wallet_has_all_allocations_empty alloc.participant s.db
      ctx ← get_session_key_for_app_participant now alloc.participant d.rpc_signers
      guard ctx.has_signature Error.depositor_signature_required
      available ← reads (
          balance (adr.hex_address alloc.participant) (new_account_id alloc.participant)
            alloc.asset_symbol)
      guard (not (greater_than (sub alloc.amount current) available))
          Error.insufficient_unified_balance
      validate_delegate now ctx.session_key_address d.app_session.application alloc.asset_symbol
          (sub alloc.amount current)
      move_into_session alloc.participant (new_account_id d.app_session_id) alloc.asset_symbol
          (sub alloc.amount current) ctx.session_key_address

    -- The second loop, against the allocations read before it. Its result is the wallets whose
    -- balance changed, one for each deposit.
    unfoldable pub deposit_all :
        ℕ
        → Update Decimal
        → List (String × Amounts Decimal)
        → List (AppAllocation Decimal)
        → Effect (State Decimal) (List String)
    deposit_all now d current [] = pure []
    deposit_all now d current (alloc ∷ allocs) =
        let amount = allocation_at alloc.participant alloc.asset_symbol current in
        let rest = deposit_all now d current allocs in
        if greater_than alloc.amount amount
        then (do
          deposit_one now d amount alloc
          affected ← rest
          pure (alloc.participant ∷ affected))
        else rest

    -- `DepositUpdater.Update`: the affected wallets, and the session with its next version
    unfoldable pub update_deposit :
        ℕ → Update Decimal → Effect (State Decimal) (List String × AppSession)
    update_deposit now d = do
      current ← reads λ s. ok (
          get_participant_allocations d.app_session.participant_wallets
            (new_account_id d.app_session_id) s)
      reads λ s. check_not_decreased current d.allocations
      affected ← deposit_all now d current d.allocations
      guard (not (is_empty affected)) Error.no_deposits
      pure (affected, record d.app_session { version = next_uint64 d.app_session.version })
