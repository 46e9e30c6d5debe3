-- ===== src/AppSessions/Allocations.antt =====
-- verifyAllocations (rpc_router_private.go): the sums that a request allocates, asset by asset, against
-- what the session holds.
pub mod Sound
use wthelly.Base.{String, ◌==◌, Option, none, some, [], ◌∷◌, if◌then◌else◌}
use wthelly.Error.{Error}
use wthelly.Effect.{Result, ok, err}
use wthelly.Money.{DecimalOps}
use wthelly.AppSessions.{Amounts}

-- `m[k]`, with whether it is there
unfoldable pub find_amount : {Decimal : Type 0} → String → Amounts Decimal → Option Decimal
find_amount k [] = none
find_amount k ((j, a) ∷ m) = if j == k then some a else find_amount k m

module _ {Decimal : Type 0} ⦃dec : DecimalOps Decimal⦄ where
  open dec use {is_zero, equal}

  -- the body of the first loop, for an asset that the session has held
  unfoldable pub check_asset : Decimal → Option Decimal → Result (Unit {0})
  check_asset bal none = if is_zero bal then ok tt else err Error.not_fully_redistributed
  check_asset bal (some alloc) =
      if is_zero bal
      then (if is_zero alloc then ok tt else err Error.asset_not_deposited)
      else if equal bal alloc
      then ok tt
      else err Error.not_fully_redistributed

  unfoldable pub check_balances : Amounts Decimal → Amounts Decimal → Result (Unit {0})
  unfolding check_asset find_amount
  check_balances [] sums = ok tt
  check_balances ((asset, bal) ∷ rest) sums = elim (check_asset bal (find_amount asset sums)) [
    | ok _ ↦ check_balances rest sums
    | err e ↦ err e
  ]

  -- the second loop: no other asset
  unfoldable pub check_sums : Amounts Decimal → Amounts Decimal → Result (Unit {0})
  unfolding find_amount
  check_sums balances [] = ok tt
  check_sums balances ((asset, alloc_sum) ∷ rest) = elim (find_amount asset balances) [
    | some _ ↦ check_sums balances rest
    | none ↦ if is_zero alloc_sum then check_sums balances rest else err Error.unknown_asset
  ]

  -- `verifyAllocations`
  unfoldable pub verify_allocations : Amounts Decimal → Amounts Decimal → Result (Unit {0})
  unfolding check_balances check_sums
  verify_allocations balances sums = elim (check_balances balances sums) [
    | ok _ ↦ check_sums balances sums
    | err e ↦ err e
  ]
