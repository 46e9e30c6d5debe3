-- ===== src/Ledger/Moves.antt =====
-- A movement between two accounts of one wallet, which is two bookings: what it does to any choice of
-- rows, and to the solvency of the wallets.
use wthelly.Base.{◌≡◌, sym, ◌∙◌, true, String, eq_iff, Option, List, arith}
use wthelly.Base.Int.{ℤ, pos, ◌+ℤ◌, ◌≤ℤ◌, int_laws, part, part-neg, parts_of_eq, nonneg_of_part}
use wthelly.Money.{DecimalOps}
use wthelly.Store.{Entry}
use wthelly.Ledger.{book}
use wthelly.Ledger.Value.{Rows, value_of, value_of-book}
use wthelly.Ledger.Balance.{row}

module _ {Decimal : Type 0} ⦃dec : DecimalOps Decimal⦄ where
  open dec use {units, units-neg, neg}

  -- Every choice of rows loses the amount if it covers the first account's row, and gains it if it
  -- covers the second's.
  pub record Moved (wallet from_account to_account asset : String) (amount : ℤ)
      (es es' : List (Entry Decimal)) : Type 0 where
    pub at :
        (p : Rows)
        → value_of p es' +ℤ part (p from_account asset wallet) amount
          ≡ value_of p es +ℤ part (p to_account asset wallet) amount

  pub book-book-Moved :
      (wallet from_account to_account asset : String) (amount : Decimal) (k j : Option String)
      (es : List (Entry Decimal))
      → Moved wallet from_account to_account asset
          (units amount)
          es
          (book wallet to_account asset amount j (book wallet from_account asset (neg amount) k es))
  book-book-Moved wallet from_account to_account asset amount k j es = record {
    at = λ p.
        rw (value_of-book, value_of-book, units-neg)
          (omega
            (int_laws, parts_of_eq _ _ (part-neg (p from_account asset wallet) (units amount))));
  }

pub row-covers : (a x w b y v : String) → row a x w b y v ≡ true → (a ≡ b) × (x ≡ y) × (w ≡ v)
row-covers a x w b y v h = ground (arith, eq_iff b a, eq_iff y x, eq_iff v w)

module _ {Decimal : Type 0} ⦃dec : DecimalOps Decimal⦄ where
  open dec use {units}

  -- No wallet's own account is below zero, in any asset.
  pub record IsSolvent (es : List (Entry Decimal)) : Type 0 where
    pub at : (wallet asset : String) → pos 0 ≤ℤ value_of (row wallet asset wallet) es

  -- A movement of an amount that is not negative keeps this, if a wallet that pays out of its own
  -- account has the amount.
  pub Moved-IsSolvent :
      {wallet from_account to_account asset : String} {x : ℤ} {es es' : List (Entry Decimal)}
      → IsSolvent es
      → Moved wallet from_account to_account asset x es es'
      → pos 0 ≤ℤ x
      → (wallet ≡ from_account → x ≤ℤ value_of (row wallet asset wallet) es)
      → IsSolvent es'
  Moved-IsSolvent {wallet} {from_account} {to_account} {asset} {x} {es} {es'} v m n cover = record {
    at = λ w y.
        nonneg_of_part (row w y w from_account asset wallet) (row w y w to_account asset wallet) x _
          _ (m.at (row w y w)) n (v.at w y)
          λ paid.
            let (fa, fy, fw) = row-covers w y w from_account asset wallet paid in
            rw (fy, fw) (cover (sym fw ∙ fa));
  }
