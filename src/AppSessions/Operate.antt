-- ===== src/AppSessions/Operate.antt =====
-- OperateUpdater: the participants redistribute the session's funds among themselves.
pub mod Sets
use wthelly.Base.{String, not, none, List, [], ◌∷◌, if◌then◌else◌}
use wthelly.Base.Word.{next_uint64}
use wthelly.Error.{Error}
use wthelly.Effect.{Effect, ok, pure, reads, guard, ◌>>=◌, ◌>>◌}
use wthelly.Money.{DecimalOps, Addresses}
use wthelly.Store.{State, AppSession}
use wthelly.Ledger.{new_account_id, balance, record_entry, get_app_session_balances}
use wthelly.AppSessions.{AppAllocation, Amounts, Update, add_at, validate_app_participant}
use wthelly.AppSessions.Allocations.{verify_allocations}

module _ {Decimal : Type 0} ⦃dec : DecimalOps Decimal⦄ ⦃adr : Addresses⦄ where
  open dec use {sub, is_zero, is_negative}

  -- the body of the loop: a participant's balance in the session becomes what is allocated
  unfoldable pub operate_one :
      Update Decimal → AppAllocation Decimal → Effect (State Decimal) (Unit {0})
  operate_one o alloc = do
    guard (not (is_negative alloc.amount)) Error.negative_allocation
    reads λ s. validate_app_participant alloc.participant o.participant_weights
    held ← reads (
        balance (adr.hex_address alloc.participant) (new_account_id o.app_session_id)
          alloc.asset_symbol)
    if is_zero (sub alloc.amount held)
        then pure tt
        else record_entry (adr.hex_address alloc.participant) (new_account_id o.app_session_id)
            alloc.asset_symbol (sub alloc.amount held) none

  -- the loop, with `allocationSum`
  unfoldable pub operate_all :
      Update Decimal
      → List (AppAllocation Decimal)
      → Amounts Decimal
      → Effect (State Decimal) (Amounts Decimal)
  operate_all o [] sums = pure sums
  operate_all o (alloc ∷ allocs) sums =
      operate_one o alloc >> operate_all o allocs (add_at alloc.asset_symbol alloc.amount sums)

  -- `OperateUpdater.Update`
  unfoldable pub update_operate : Update Decimal → Effect (State Decimal) (List String × AppSession)
  update_operate o = do
    held ← reads λ s. ok (get_app_session_balances (new_account_id o.app_session_id) s)
    sums ← operate_all o o.allocations []
    reads λ s. verify_allocations held sums
    pure ([], record o.app_session { version = next_uint64 o.app_session.version })
