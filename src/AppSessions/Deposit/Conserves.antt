-- ===== src/AppSessions/Deposit/Conserves.antt =====
-- A deposit moves funds and makes none.
use mathlib.Core.Path.{subst}
use wthelly.Base.{ℕ, ◌≡◌, sym, String, true, not, Option, none, List, [], ◌∷◌, arith}
use wthelly.Base.Int.{pos, ◌≤ℤ◌}
use wthelly.Transactions.{record_ledger_transaction}
use wthelly.Effect.{modify, ok, ◌>>=◌}
use wthelly.Effect.Rules.{
  Ensures, Ensures-pure, Ensures-if, Ensures-mono, Ensures-bind, Ensures-guard-bind,
  Ensures-reads-bind,
}
use wthelly.Money.{DecimalOps, Addresses}
use wthelly.Store.{State, Entry, AppSession}
use wthelly.Effect.Keeps.{Ensures-Keeps-bind}
use wthelly.Ledger.{new_account_id, balance, record_entry}
use wthelly.Ledger.Value.{value_of}
use wthelly.Ledger.Balance.{row, units-balance, funds}
use wthelly.Ledger.Moves.{IsSolvent, Moved, book-book-Moved}
use wthelly.Ledger.Conserved.{Conserved, Conserved-start, Conserved-Moved}
use wthelly.AppSessions.{AppAllocation, Amounts, Update, allocation_at}
use wthelly.AppSessions.Checks.{get_session_key-Keeps, validate_delegate-Keeps}
use wthelly.AppSessions.Deposit.{move_into_session, deposit_one, deposit_all, update_deposit}

module _ {Decimal : Type 0} ⦃dec : DecimalOps Decimal⦄ ⦃adr : Addresses⦄ where
  open dec use {
    units, sub, zero_d, greater_than, less_than_or_equal, greater_than_lem, less_than_or_equal_lem,
    units-zero_d,
  }

  pub move_into_session-Moved :
      (wallet account asset : String) (amount : Decimal) (k : Option String) (s : State Decimal)
      → Ensures s (move_into_session wallet account asset amount k) (λ _ t.
        Moved
          (adr.hex_address wallet)
          (new_account_id wallet)
          account
          asset
          (units amount)
          s.db.ledger
          t.db.ledger)
  unfolding move_into_session record_entry ◌>>=◌ modify record_ledger_transaction
  move_into_session-Moved wallet account asset amount k s = record {
    at = λ a e.
        book-book-Moved (adr.hex_address wallet) (new_account_id wallet) account asset amount k none
          s.db.ledger;
  }

  -- A movement into the session keeps what is to be kept, if the wallet has the amount.
  pub move_into_session-Conserved :
      {es : List (Entry Decimal)} (wallet account asset : String) (amount : Decimal)
      (k : Option String) {s : State Decimal}
      → Conserved es s.db.ledger
      → pos 0 ≤ℤ units amount
      → units amount ≤ℤ funds (adr.hex_address wallet) (new_account_id wallet) asset s
      → Ensures s
          (move_into_session wallet account asset amount k)
          (λ _ t. Conserved es t.db.ledger)
  move_into_session-Conserved wallet account asset amount k {s} c n cover =
      Ensures-mono _ (move_into_session-Moved wallet account asset amount k s) λ _ t m.
        Conserved-Moved c m n λ own.
          subst (λ a. units amount ≤ℤ value_of (row a asset (adr.hex_address wallet)) s.db.ledger)
            (sym own) cover

  -- what the tests of a deposit establish
  pub covered :
      (wallet account asset : String) (amount : Decimal) (s : State Decimal) {available : Decimal}
      → balance wallet account asset s ≡ ok available
      → not (greater_than amount available) ≡ true
      → units amount ≤ℤ funds wallet account asset s
  covered wallet account asset amount s {available} h g =
      subst (λ a. units amount ≤ℤ a) (units-balance wallet account asset s h)
        (ground (arith, greater_than_lem amount available))

  not_negative : (x : Decimal) → not (less_than_or_equal x zero_d) ≡ true → pos 0 ≤ℤ units x
  not_negative x g = ground (arith, less_than_or_equal_lem x zero_d, units-zero_d)

  deposit_one-Conserved :
      {es : List (Entry Decimal)} (now : ℕ) (d : Update Decimal) (current : Decimal)
      (alloc : AppAllocation Decimal) {s : State Decimal}
      → Conserved es s.db.ledger
      → Ensures s (deposit_one now d current alloc) (λ _ t. Conserved es t.db.ledger)
  unfolding deposit_one
  deposit_one-Conserved {es} now d current alloc {s} c = Ensures-guard-bind _ _ _ λ _.
      Ensures-reads-bind _ _ λ _ _. Ensures-guard-bind _ _ _ λ positive.
        Ensures-reads-bind _ _ λ _ _. Ensures-reads-bind _ _ λ _ _.
          Ensures-Keeps-bind _ _ (get_session_key-Keeps _ _ _) λ ctx t _ same.
            Ensures-guard-bind _ _ _ λ _. Ensures-reads-bind _ _ λ available has.
              Ensures-guard-bind _ _ _ λ enough.
                Ensures-Keeps-bind _ _ (validate_delegate-Keeps _ _ _ _ _) λ _ u _ same'.
                  move_into_session-Conserved _ _ _ _ _ (rw (same', same) c)
                    (not_negative _ positive) (rw same' (covered _ _ _ _ t has enough))

  deposit_all-Conserved :
      {es : List (Entry Decimal)} (now : ℕ) (d : Update Decimal)
      (current : List (String × Amounts Decimal)) (allocs : List (AppAllocation Decimal))
      {s : State Decimal}
      → Conserved es s.db.ledger
      → Ensures s (deposit_all now d current allocs) (λ _ t. Conserved es t.db.ledger)
  unfolding deposit_all
  deposit_all-Conserved now d current [] c = Ensures-pure _ c
  deposit_all-Conserved now d current (alloc ∷ allocs) c =
      Ensures-if
        (greater_than alloc.amount (allocation_at alloc.participant alloc.asset_symbol current)) _ _
        (λ _. Ensures-bind _ _ (deposit_one-Conserved now d _ alloc c) λ _ _ c'.
          Ensures-bind _ _ (deposit_all-Conserved now d current allocs c')
            λ _ _ c''. Ensures-pure _ c'')
        (λ _. deposit_all-Conserved now d current allocs c)

  update_deposit-Conserved :
      (now : ℕ) (d : Update Decimal) (s : State Decimal)
      → IsSolvent s.db.ledger
      → Ensures s (update_deposit now d) (λ _ t. Conserved s.db.ledger t.db.ledger)
  unfolding update_deposit
  update_deposit-Conserved now d s v = Ensures-reads-bind _ _ λ current _.
      Ensures-reads-bind _ _ λ _ _.
        Ensures-bind _ _ (deposit_all-Conserved now d current d.allocations (Conserved-start v))
          λ _ _ c. Ensures-guard-bind _ _ _ λ _. Ensures-pure _ c

  -- If a deposit succeeds where the wallets' own accounts are not below zero, then each wallet has in
  -- all accounts together, in each asset, what it had, and the wallets' own accounts are still not
  -- below zero.
  pub deposit-conserves :
      (now : ℕ) (d : Update Decimal) (s : State Decimal) {r : List String × AppSession}
      → IsSolvent s.db.ledger
      → (update_deposit now d s).0 ≡ ok r
      → Conserved s.db.ledger (update_deposit now d s).1.db.ledger
  deposit-conserves now d s v h = (update_deposit-Conserved now d s v).at _ h
