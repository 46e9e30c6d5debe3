-- ===== src/Ledger/Conserved.antt =====
-- What movements between the accounts of one wallet keep: the worth of the wallet's rows over all
-- accounts, and the solvency of the wallets' own accounts.
use wthelly.Base.{◌≡◌, refl, ◌∙◌, ◌&&◌, String, ◌==◌, List}
use wthelly.Base.Int.{ℤ, pos, ◌≤ℤ◌, +ℤ_cancel}
use wthelly.Money.{DecimalOps}
use wthelly.Store.{Entry}
use wthelly.Ledger.Value.{Rows, value_of}
use wthelly.Ledger.Balance.{row}
use wthelly.Ledger.Moves.{Moved, IsSolvent, Moved-IsSolvent}

-- the rows of a wallet and an asset, in every account
abbrev pub of_wallet : String → String → Rows
of_wallet wallet asset = λ a x w. (x == asset) && (w == wallet)

module _ {Decimal : Type 0} ⦃dec : DecimalOps Decimal⦄ where
  -- From the rows `es`, each wallet has kept what it has in all accounts together, and is solvent.
  pub record Conserved (es es' : List (Entry Decimal)) : Type 0 where
    pub worth :
        (wallet asset : String)
        → value_of (of_wallet wallet asset) es' ≡ value_of (of_wallet wallet asset) es
    pub solvent : IsSolvent es'

  pub Conserved-start : {es : List (Entry Decimal)} → IsSolvent es → Conserved es es
  Conserved-start v = record { worth = λ wallet asset. refl; solvent = v }

  pub Conserved-Moved :
      {wallet from_account to_account asset : String} {x : ℤ} {es es' es'' : List (Entry Decimal)}
      → Conserved es es'
      → Moved wallet from_account to_account asset x es' es''
      → pos 0 ≤ℤ x
      → (wallet ≡ from_account → x ≤ℤ value_of (row wallet asset wallet) es')
      → Conserved es es''
  Conserved-Moved c m n cover = record {
    worth = λ w y. +ℤ_cancel _ _ _ (m.at (of_wallet w y)) ∙ c.worth w y;
    solvent = Moved-IsSolvent c.solvent m n cover;
  }
