-- ===== src/Ledger/Balance.antt =====
-- What `Balance` returns, under either driver, and how a booking changes it.
use wthelly.Base.{
  ◌⊎◌, select, ◌≡◌, ◌≢◌, inl, inr, ◌&&◌, String, ◌==◌, eq_iff, eq_refl, Option, arith,
  if◌then◌else◌,
}
use wthelly.Base.Int.{ℤ, pos, ◌+ℤ◌, +ℤ_zero}
use wthelly.Effect.{ok}
use wthelly.Money.{DecimalOps}
use wthelly.Store.{State}
use wthelly.Ledger.{balance, record_entry, credit_minus_debit, add_rows}
use wthelly.Ledger.Value.{
  Rows, value_of, units-credit_minus_debit, units-add_rows_zero, covers, value_of-book,
}

-- the rows of one account, asset and wallet
abbrev pub row : String → String → String → Rows
row account_id asset wallet = λ a b w. (a == account_id) && (b == asset) && (w == wallet)

module _ {Decimal : Type 0} ⦃dec : DecimalOps Decimal⦄ where
  open dec use {zero_d, units}

  -- the exact balance of a wallet in an account
  abbrev pub funds : String → String → String → State Decimal → ℤ
  funds wallet account_id asset s = value_of (row account_id asset wallet) s.db.ledger

  -- Under either driver, `Balance` returns the worth of the rows of the account, asset and wallet.
  pub units-balance :
      (wallet account_id asset : String) (s : State Decimal) {d : Decimal}
      → balance wallet account_id asset s ≡ ok d
      → units d ≡ funds wallet account_id asset s
  unfolding balance value_of
  units-balance wallet account_id asset s h = ground (
    arith,
    units-credit_minus_debit (select (covers (row account_id asset wallet)) s.db.ledger),
    units-add_rows_zero (select (covers (row account_id asset wallet)) s.db.ledger),
  )

  -- With a driver that the program knows, `Balance` does not fail, and it returns what the rows of the
  -- account, asset and wallet are worth: what they credit less what they debit.
  pub balance_total :
      (wallet account_id asset : String) (s : State Decimal)
      → (s.driver ≡ "postgres") ⊎ (s.driver ≡ "sqlite")
      → (d : Decimal) × (balance wallet account_id asset s ≡ ok d)
        × (units d ≡ funds wallet account_id asset s)
  unfolding balance
  balance_total wallet account_id asset s (inl e) =
      (d, runs, units-balance wallet account_id asset s runs)
    where
      d : Decimal
      d = credit_minus_debit (select (covers (row account_id asset wallet)) s.db.ledger)

      runs : balance wallet account_id asset s ≡ ok d
      runs = rw e
  balance_total wallet account_id asset s (inr e) =
      (d, runs, units-balance wallet account_id asset s runs)
    where
      d : Decimal
      d = add_rows zero_d (select (covers (row account_id asset wallet)) s.db.ledger)

      runs : balance wallet account_id asset s ≡ ok d
      runs = rw e

  -- After `Record`, a choice of rows is worth more by the amount if it covers the booked row, and
  -- otherwise what it was worth.
  pub value_of-record_entry :
      (p : Rows) (wallet account_id asset : String) (amount : Decimal) (k : Option String)
      (s : State Decimal)
      → value_of p (record_entry wallet account_id asset amount k s).1.db.ledger
        ≡ value_of p s.db.ledger +ℤ (if p account_id asset wallet then units amount else pos 0)
  unfolding record_entry wthelly.Effect.modify
  value_of-record_entry p wallet account_id asset amount k s =
      value_of-book p wallet account_id asset amount k s.db.ledger

  -- the balance of the booked row
  pub funds-record_entry :
      (wallet account_id asset : String) (amount : Decimal) (k : Option String) (s : State Decimal)
      → funds wallet account_id asset (record_entry wallet account_id asset amount k s).1
        ≡ funds wallet account_id asset s +ℤ units amount
  funds-record_entry wallet account_id asset amount k s =
      rw (value_of-record_entry, eq_refl, eq_refl, eq_refl)

  -- `Record` leaves as it was the balance of any other wallet, account or asset.
  pub funds-record_entry_ne :
      (wallet account_id asset w a x : String) (amount : Decimal) (k : Option String)
      (s : State Decimal)
      → (w ≢ wallet) ⊎ (a ≢ account_id) ⊎ (x ≢ asset)
      → funds w a x (record_entry wallet account_id asset amount k s).1 ≡ funds w a x s
  funds-record_entry_ne wallet account_id asset w a x amount k s h = rw value_of-record_entry (
      ground (
        arith,
        eq_iff wallet w,
        eq_iff account_id a,
        eq_iff asset x,
        +ℤ_zero (value_of (row a x w) s.db.ledger),
      ))
