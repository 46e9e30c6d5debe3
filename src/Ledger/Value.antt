-- ===== src/Ledger/Value.antt =====
-- What the rows of the ledger are worth, as an exact integer, and what one booking changes.
use wthelly.Base.{
  ◌≡◌, sym, ◌∙◌, inl, inr, Bool, true, false, Bool-cases, String, Option, List, [], ◌∷◌, arith,
  select, if◌then◌else◌,
}
use wthelly.Base.Int.{ℤ, pos, ◌+ℤ◌, ◌-ℤ◌, int_laws, +ℤ_zero, neg_abs, eq_zero_of_sign}
use wthelly.Money.{DecimalOps}
use wthelly.Store.{Entry}
use wthelly.Ledger.{book, credit_minus_debit, add_rows}

-- A choice of rows by account, asset and wallet.
abbrev pub Rows : Type 0
Rows = String → String → String → Bool

abbrev pub covers : {Decimal : Type 0} → Rows → Entry Decimal → Bool
covers p e = p e.account_id e.asset_symbol e.wallet

module _ {Decimal : Type 0} ⦃dec : DecimalOps Decimal⦄ where
  open dec use {
    zero_d, add, sub, abs, units, units-zero_d, units-add, units-sub, units-abs, is_positive,
    is_negative, is_positive_lem, is_negative_lem,
  }

  unfoldable pub total : List (Entry Decimal) → ℤ
  total [] = pos 0
  total (e ∷ es) = units e.credit -ℤ units e.debit +ℤ total es

  -- the worth of the rows that a choice covers
  unfoldable pub value_of : Rows → List (Entry Decimal) → ℤ
  value_of p es = total (select (covers p) es)

  pub units-credit_minus_debit :
      (es : List (Entry Decimal)) → units (credit_minus_debit es) ≡ total es
  unfolding credit_minus_debit total
  units-credit_minus_debit [] = rw (units-sub, units-zero_d) (omega int_laws)
  units-credit_minus_debit (e ∷ es) =
      rw (units-sub, units-add, units-add, ← units-credit_minus_debit es, units-sub)
        (omega int_laws)

  units-add_rows :
      (b : Decimal) (es : List (Entry Decimal)) → units (add_rows b es) ≡ units b +ℤ total es
  unfolding add_rows total
  units-add_rows b [] = omega int_laws
  units-add_rows b (e ∷ es) =
      rw (units-add_rows (sub (add b e.credit) e.debit) es, units-sub, units-add) (omega int_laws)

  pub units-add_rows_zero : (es : List (Entry Decimal)) → units (add_rows zero_d es) ≡ total es
  units-add_rows_zero es = rw (units-add_rows zero_d es, units-zero_d) (omega int_laws)

  credit_worth : (x : Decimal) → units x -ℤ units zero_d ≡ units x
  credit_worth x = rw units-zero_d (omega int_laws)

  debit_worth : (x : Decimal) → is_negative x ≡ true → units zero_d -ℤ units (abs x) ≡ units x
  debit_worth x h = rw (units-zero_d, units-abs) (neg_abs (units x) (sym (is_negative_lem x) ∙ h))

  no_worth : (x : Decimal) → is_positive x ≡ false → is_negative x ≡ false → units x ≡ pos 0
  no_worth x h k =
      eq_zero_of_sign (units x) (sym (is_positive_lem x) ∙ h) (sym (is_negative_lem x) ∙ k)

  total-select_cons :
      (p : Rows) (e : Entry Decimal) (es : List (Entry Decimal)) {a : ℤ}
      → units e.credit -ℤ units e.debit ≡ a
      → value_of p (e ∷ es) ≡ value_of p es +ℤ (if covers p e then a else pos 0)
  unfolding value_of total select
  total-select_cons p e es h = elim (Bool-cases (covers p e)) [
    | inl hit ↦ rw (hit, total, h) (omega int_laws)
    | inr miss ↦ rw miss (omega int_laws)
  ]

  -- A booking adds its amount to the choices that cover its row, and to no other.
  pub value_of-book :
      (p : Rows) (wallet account_id asset : String) (amount : Decimal) (k : Option String)
      (es : List (Entry Decimal))
      → value_of p (book wallet account_id asset amount k es)
        ≡ value_of p es +ℤ (if p account_id asset wallet then units amount else pos 0)
  unfolding book
  value_of-book p wallet account_id asset amount k es = elim (Bool-cases (is_positive amount)) [
    | inl up ↦ rw up (total-select_cons p _ es (credit_worth amount))
    | inr other ↦ elim (Bool-cases (is_negative amount)) [
      | inl down ↦ rw (other, down) (total-select_cons p _ es (debit_worth amount down))
      | inr same ↦
          rw (other, same, no_worth amount other same) (ground (arith, +ℤ_zero (value_of p es)))
    ]
  ]
