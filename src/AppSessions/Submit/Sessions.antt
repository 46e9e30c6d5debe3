-- ===== src/AppSessions/Submit/Sessions.antt =====
-- No update writes to the table of sessions: that is left to SubmitAppState.
use wthelly.Base.{ℕ, refl, ◌||◌, String, ◌==◌, Option, List, [], ◌∷◌}
use wthelly.Effect.Keeps.{
  Keeps, Keeps-pure, Keeps-fail, Keeps-reads, Keeps-guard, Keeps-modify, Keeps-if, Keeps-bind,
  Keeps-ap,
}
use wthelly.Money.{DecimalOps, Addresses}
use wthelly.Store.{State, AppSession, TransactionType}
use wthelly.Ledger.{record_entry}
use wthelly.Transactions.{record_ledger_transaction}
use wthelly.AppSessions.{AppAllocation, Amounts, Update, allocation_at}
use wthelly.AppSessions.Checks.{get_session_key-Keeps, validate_delegate-Keeps}
use wthelly.AppSessions.Deposit.{move_into_session, deposit_one, deposit_all, update_deposit}
use wthelly.AppSessions.Withdraw.{move_out_of_session, withdraw_one, withdraw_all, update_withdraw}
use wthelly.AppSessions.Operate.{operate_one, operate_all, update_operate}
use wthelly.AppSessions.Submit.{update_for}

abbrev pub sessions : {Decimal : Type 0} → State Decimal → List AppSession
sessions s = s.db.app_sessions

module _ {Decimal : Type 0} ⦃dec : DecimalOps Decimal⦄ where
  pub record_entry-Keeps :
      (wallet account asset : String) (amount : Decimal) (k : Option String)
      → Keeps sessions (record_entry wallet account asset amount k)
  unfolding record_entry
  record_entry-Keeps wallet account asset amount k = Keeps-modify _ λ s. refl

  pub journal-Keeps :
      (t : TransactionType) (a b asset : String) (amount : Decimal)
      → Keeps sessions (record_ledger_transaction t a b asset amount)
  unfolding record_ledger_transaction
  journal-Keeps t a b asset amount = record { at = λ s. refl }

  module _ ⦃adr : Addresses⦄ where
    move_into_session-Keeps :
        (wallet account asset : String) (amount : Decimal) (k : Option String)
        → Keeps sessions (move_into_session wallet account asset amount k)
    unfolding move_into_session
    move_into_session-Keeps wallet account asset amount k =
        Keeps-bind _ _ (record_entry-Keeps _ _ _ _ _) λ _.
          Keeps-bind _ _ (record_entry-Keeps _ _ _ _ _)
            λ _. Keeps-bind _ _ (journal-Keeps _ _ _ _ _) λ _. Keeps-pure _

    move_out_of_session-Keeps :
        (wallet account asset : String) (amount : Decimal)
        → Keeps sessions (move_out_of_session wallet account asset amount)
    unfolding move_out_of_session
    move_out_of_session-Keeps wallet account asset amount =
        Keeps-bind _ _ (record_entry-Keeps _ _ _ _ _) λ _.
          Keeps-bind _ _ (record_entry-Keeps _ _ _ _ _)
            λ _. Keeps-bind _ _ (journal-Keeps _ _ _ _ _) λ _. Keeps-pure _

    deposit_one-Keeps :
        (now : ℕ) (d : Update Decimal) (current : Decimal) (alloc : AppAllocation Decimal)
        → Keeps sessions (deposit_one now d current alloc)
    unfolding deposit_one
    deposit_one-Keeps now d current alloc = Keeps-bind _ _ (Keeps-guard _ _) λ _.
        Keeps-bind _ _ (Keeps-reads _) λ _. Keeps-bind _ _ (Keeps-guard _ _) λ _.
          Keeps-bind _ _ (Keeps-reads _) λ _. Keeps-bind _ _ (Keeps-reads _) λ _.
            Keeps-bind _ _ (Keeps-ap (λ db. db.app_sessions) _ (get_session_key-Keeps _ _ _)) λ ctx.
              Keeps-bind _ _ (Keeps-guard _ _) λ _. Keeps-bind _ _ (Keeps-reads _) λ _.
                Keeps-bind _ _ (Keeps-guard _ _) λ _.
                  Keeps-bind _ _
                    (Keeps-ap (λ db. db.app_sessions) _ (validate_delegate-Keeps _ _ _ _ _))
                    λ _. move_into_session-Keeps _ _ _ _ _

    deposit_all-Keeps :
        (now : ℕ) (d : Update Decimal) (current : List (String × Amounts Decimal))
        (allocs : List (AppAllocation Decimal))
        → Keeps sessions (deposit_all now d current allocs)
    unfolding deposit_all
    deposit_all-Keeps now d current [] = Keeps-pure _
    deposit_all-Keeps now d current (alloc ∷ allocs) =
        Keeps-if
          (dec.greater_than alloc.amount
            (allocation_at alloc.participant alloc.asset_symbol current))
          _ _
          (Keeps-bind _ _ (deposit_one-Keeps now d _ alloc)
            λ _. Keeps-bind _ _ (deposit_all-Keeps now d current allocs) λ _. Keeps-pure _)
          (deposit_all-Keeps now d current allocs)

    withdraw_all-Keeps :
        (w : Update Decimal) (current : List (String × Amounts Decimal))
        (allocs : List (AppAllocation Decimal))
        → Keeps sessions (withdraw_all w current allocs)
    unfolding withdraw_all withdraw_one
    withdraw_all-Keeps w current [] = Keeps-pure _
    withdraw_all-Keeps w current (alloc ∷ allocs) = Keeps-bind _ _ (Keeps-guard _ _) λ _.
        Keeps-if
          (dec.less_than alloc.amount (allocation_at alloc.participant alloc.asset_symbol current))
          _ _
          (Keeps-bind _ _ (Keeps-bind _ _ (Keeps-reads _) λ _. move_out_of_session-Keeps _ _ _ _)
            λ _. Keeps-bind _ _ (withdraw_all-Keeps w current allocs) λ _. Keeps-pure _)
          (withdraw_all-Keeps w current allocs)

    operate_one-Keeps :
        (o : Update Decimal) (alloc : AppAllocation Decimal) → Keeps sessions (operate_one o alloc)
    unfolding operate_one
    operate_one-Keeps o alloc = Keeps-bind _ _ (Keeps-guard _ _) λ _.
        Keeps-bind _ _ (Keeps-reads _) λ _. Keeps-bind _ _ (Keeps-reads _) λ held.
          Keeps-if (dec.is_zero (dec.sub alloc.amount held)) _ _ (Keeps-pure _)
            (record_entry-Keeps _ _ _ _ _)

    operate_all-Keeps :
        (o : Update Decimal) (allocs : List (AppAllocation Decimal)) (sums : Amounts Decimal)
        → Keeps sessions (operate_all o allocs sums)
    unfolding operate_all
    operate_all-Keeps o [] sums = Keeps-pure _
    operate_all-Keeps o (alloc ∷ allocs) sums =
        Keeps-bind _ _ (operate_one-Keeps o alloc) λ _. operate_all-Keeps o allocs _

    pub update_for-Keeps :
        (now : ℕ) (intent : String) (u : Update Decimal) → Keeps sessions (update_for now intent u)
    unfolding update_for update_deposit update_withdraw update_operate
    update_for-Keeps now intent u =
        Keeps-if (intent == "deposit") _ _
          (Keeps-bind _ _ (Keeps-reads _) λ current. Keeps-bind _ _ (Keeps-reads _) λ _.
            Keeps-bind _ _ (deposit_all-Keeps now u current u.allocations)
              λ _. Keeps-bind _ _ (Keeps-guard _ _) λ _. Keeps-pure _)
          (Keeps-if (intent == "withdraw") _ _
            (Keeps-bind _ _ (Keeps-reads _) λ current. Keeps-bind _ _ (Keeps-reads _) λ _.
              Keeps-bind _ _ (withdraw_all-Keeps u current u.allocations)
                λ _. Keeps-bind _ _ (Keeps-guard _ _) λ _. Keeps-pure _)
            (Keeps-if (intent == "operate" || intent == "") _ _
              (Keeps-bind _ _ (Keeps-reads _) λ _.
                Keeps-bind _ _ (operate_all-Keeps u u.allocations [])
                  λ _. Keeps-bind _ _ (Keeps-reads _) λ _. Keeps-pure _)
              (Keeps-fail _)))
