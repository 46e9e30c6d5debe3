-- ===== src/Ledger/Payments.antt =====
-- What payments between wallets keep: the worth of all rows of an asset, and the solvency of the
-- wallets' own accounts.
use mathlib.Core.Path.{subst}
use wthelly.Base.{◌≡◌, refl, sym, ◌∙◌, Bool, true, false, String, ◌==◌, Option, List}
use wthelly.Base.Int.{ℤ, pos, ◌+ℤ◌, ◌-ℤ◌, ◌≤ℤ◌, part, int_laws}
use wthelly.Money.{DecimalOps}
use wthelly.Store.{Entry}
use wthelly.Ledger.{book}
use wthelly.Ledger.Value.{Rows, value_of, value_of-book}
use wthelly.Ledger.Balance.{row}
use wthelly.Ledger.Moves.{IsSolvent, row-covers}

-- the rows of an asset, of every wallet in every account
abbrev pub of_any_wallet : String → Rows
of_any_wallet asset = λ a x w. x == asset

cancels : (b : Bool) (v x : ℤ) → v +ℤ part b (pos 0 -ℤ x) +ℤ part b x ≡ v
cancels true v x = omega int_laws
cancels false v x = omega int_laws

stays_solvent :
    (give take : Bool) (v x : ℤ)
    → pos 0 ≤ℤ x
    → pos 0 ≤ℤ v
    → (give ≡ true → x ≤ℤ v)
    → pos 0 ≤ℤ v +ℤ part give (pos 0 -ℤ x) +ℤ part take x
stays_solvent true true v x n m cover = omega (int_laws, cover refl)
stays_solvent true false v x n m cover = omega (int_laws, cover refl)
stays_solvent false true v x n m cover = omega int_laws
stays_solvent false false v x n m cover = omega int_laws

module _ {Decimal : Type 0} ⦃dec : DecimalOps Decimal⦄ where
  open dec use {units, neg, units-neg}

  -- From the rows `es`, the worth of each asset is what it was, and the wallets are solvent.
  pub record Balanced (es es' : List (Entry Decimal)) : Type 0 where
    pub worth :
        (asset : String) → value_of (of_any_wallet asset) es' ≡ value_of (of_any_wallet asset) es
    pub solvent : IsSolvent es'

  pub Balanced-start : {es : List (Entry Decimal)} → IsSolvent es → Balanced es es
  Balanced-start v = record { worth = λ asset. refl; solvent = v }

  value_of-payment :
      (p : Rows) (w a w' a' asset : String) (amount : Decimal) (k j : Option String)
      (es : List (Entry Decimal))
      → value_of p (book w' a' asset amount j (book w a asset (neg amount) k es))
        ≡ value_of p es
          +ℤ part (p a asset w) (pos 0 -ℤ units amount)
          +ℤ part (p a' asset w') (units amount)
  value_of-payment p w a w' a' asset amount k j es =
      rw (value_of-book, value_of-book, units-neg) refl

  -- A payment out of an account that has the amount.
  pub Balanced-payment :
      {es es' : List (Entry Decimal)} (w a w' a' asset : String) (amount : Decimal)
      (k j : Option String)
      → Balanced es es'
      → pos 0 ≤ℤ units amount
      → units amount ≤ℤ value_of (row a asset w) es'
      → Balanced es (book w' a' asset amount j (book w a asset (neg amount) k es'))
  Balanced-payment {es} {es'} w a w' a' asset amount k j c n cover = record {
    worth = λ x.
        value_of-payment (of_any_wallet x) w a w' a' asset amount k j es'
        ∙ cancels (asset == x) (value_of (of_any_wallet x) es') (units amount)
        ∙ c.worth x;
    solvent = record {
      at = λ o y.
          subst (λ v. pos 0 ≤ℤ v)
            (sym (value_of-payment (row o y o) w a w' a' asset amount k j es'))
            (stays_solvent (row o y o a asset w) (row o y o a' asset w') _ (units amount) n
              (c.solvent.at o y)
              λ paid.
                let (oa, yx, ow) = row-covers o y o a asset w paid in
                rw (yx) (
                  subst (λ z. units amount ≤ℤ value_of (row z asset o) es') (sym oa)
                    (subst (λ z. units amount ≤ℤ value_of (row a asset z) es') (sym ow) cover)));
    };
  }
