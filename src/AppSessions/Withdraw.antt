-- ===== src/AppSessions/Withdraw.antt =====
-- WithdrawUpdater: participants take funds out of the session's account.
pub mod Conserves
use wthelly.Base.{
  String, Bool, true, false, not, Option, none, some, List, [], ◌∷◌, is_empty, if◌then◌else◌,
}
use wthelly.Base.Word.{next_uint64}
use wthelly.Error.{Error}
use wthelly.Effect.{Effect, Result, ok, err, pure, fail, reads, guard, ◌>>=◌, ◌>>◌}
use wthelly.Money.{DecimalOps, Addresses}
use wthelly.Store.{State, AppSession, app_withdrawal}
use wthelly.Ledger.{new_account_id, record_entry}
use wthelly.Transactions.{record_ledger_transaction}
use wthelly.AppSessions.{
  AppAllocation, Amounts, Update, allocation_at, get_participant_allocations,
  validate_app_participant,
}

module _ {Decimal : Type 0} ⦃dec : DecimalOps Decimal⦄ where
  open dec use {sub, neg, is_negative, less_than, greater_than}

  -- the first loop: no allocation may grow
  unfoldable pub check_not_increased :
      List (String × Amounts Decimal) → List (AppAllocation Decimal) → Result (Unit {0})
  check_not_increased current [] = ok tt
  check_not_increased current (alloc ∷ allocs) =
      if greater_than alloc.amount (allocation_at alloc.participant alloc.asset_symbol current)
      then err Error.increased_allocation
      else check_not_increased current allocs

  module _ ⦃adr : Addresses⦄ where
    -- The two entries of a withdrawal and its row in the journal.
    unfoldable pub move_out_of_session :
        String → String → String → Decimal → Effect (State Decimal) (Unit {0})
    move_out_of_session wallet session_account_id asset amount = do
      record_entry (adr.hex_address wallet) session_account_id asset (neg amount) none
      record_entry (adr.hex_address wallet) (new_account_id wallet) asset amount none
      _ ←
          record_ledger_transaction app_withdrawal session_account_id (new_account_id wallet) asset
            amount
      pure tt

    -- the body of the second loop, for an allocation that falls
    unfoldable pub withdraw_one :
        Update Decimal → Decimal → AppAllocation Decimal → Effect (State Decimal) (Unit {0})
    withdraw_one w current alloc = do
      reads λ s. validate_app_participant alloc.participant w.participant_weights
      move_out_of_session alloc.participant (new_account_id w.app_session_id) alloc.asset_symbol
          (sub current alloc.amount)

    -- The second loop, against the allocations read before it. Its result is the wallets whose
    -- balance changed, one for each withdrawal.
    unfoldable pub withdraw_all :
        Update Decimal
        → List (String × Amounts Decimal)
        → List (AppAllocation Decimal)
        → Effect (State Decimal) (List String)
    withdraw_all w current [] = pure []
    withdraw_all w current (alloc ∷ allocs) =
        let amount = allocation_at alloc.participant alloc.asset_symbol current in
        let rest = withdraw_all w current allocs in
        guard (not (is_negative alloc.amount)) Error.negative_allocation
        >> (if less_than alloc.amount amount
            then (do
              withdraw_one w amount alloc
              affected ← rest
              pure (alloc.participant ∷ affected))
            else rest)

    -- `WithdrawUpdater.Update`
    unfoldable pub update_withdraw :
        Update Decimal → Effect (State Decimal) (List String × AppSession)
    update_withdraw w = do
      current ← reads λ s. ok (
          get_participant_allocations w.app_session.participant_wallets
            (new_account_id w.app_session_id) s)
      reads λ s. check_not_increased current w.allocations
      affected ← withdraw_all w current w.allocations
      guard (not (is_empty affected)) Error.no_withdrawals
      pure (affected, record w.app_session { version = next_uint64 w.app_session.version })
