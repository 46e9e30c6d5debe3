-- ===== src/Ledger/Exact.antt =====
-- Rows whose amounts the ledger's columns keep as they are. `Record` writes such a row for such an amount,
-- so what the model books is what the database stores.
use mathlib.Core.Path.{subst}
use wthelly.Base.{
  ◌≡◌, ◌+◌, arith, sym, ◌∙◌, inl, inr, String, true, Bool-cases, Option, List, [], ◌∷◌, All, select,
}
use wthelly.Base.Int.{ℤ, pos, pos_part, neg_part, ◌+ℤ◌, ◌-ℤ◌, ltb_ℤ}
use wthelly.Money.{DecimalOps}
use wthelly.Money.Exact.{IsExact, zero-IsExact, add-IsExact, neg-IsExact, sub-IsExact}
use wthelly.Effect.{modify}
use wthelly.Store.{State, Entry}
use wthelly.Ledger.{book, record_entry}
use wthelly.Ledger.Value.{Rows, covers, total, value_of}
use wthelly.Ledger.Balance.{funds, funds-record_entry}

abs_negative : (a : ℤ) → ltb_ℤ a (pos 0) ≡ true → pos 0 -ℤ a ≡ pos (pos_part a + neg_part a)
unfolding ◌-ℤ◌
abs_negative a h = ground arith

zero_amount : {Decimal : Type 0} (dec : DecimalOps Decimal) → IsExact dec (dec.units dec.zero_d)
zero_amount dec = subst (IsExact dec) (sym dec.units-zero_d) (zero-IsExact dec)

module _ {Decimal : Type 0} ⦃dec : DecimalOps Decimal⦄ where
  open dec use {units, units-abs, is_positive, is_negative, is_negative_lem, abs}

  -- Every row's credit and debit is a whole number of 10 ^ -18.
  abbrev pub AllExact : List (Entry Decimal) → Type 0
  AllExact es = All (λ e. IsExact dec (units e.credit) × IsExact dec (units e.debit)) es

  debit_amount :
      (x : Decimal) → is_negative x ≡ true → IsExact dec (units x) → IsExact dec (units (abs x))
  debit_amount x h e =
      subst (IsExact dec) (abs_negative (units x) (sym (is_negative_lem x) ∙ h) ∙ sym (units-abs x))
        (neg-IsExact dec (units x) e)

  pub book-AllExact :
      (wallet account_id asset : String) (amount : Decimal) (k : Option String)
      (es : List (Entry Decimal))
      → IsExact dec (units amount)
      → AllExact es
      → AllExact (book wallet account_id asset amount k es)
  unfolding book
  book-AllExact wallet account_id asset amount k es x all = elim (Bool-cases (is_positive amount)) [
    | inl up ↦ rw up ((x, zero_amount dec), all)
    | inr other ↦ elim (Bool-cases (is_negative amount)) [
      | inl down ↦ rw (other, down) ((zero_amount dec, debit_amount amount down x), all)
      | inr same ↦ rw (other, same) all
    ]
  ]

  -- What a choice of such rows is worth is a whole number of 10 ^ -18.
  pub value_of-IsExact :
      (p : Rows) (es : List (Entry Decimal)) → AllExact es → IsExact dec (value_of p es)
  unfolding value_of total select
  value_of-IsExact p [] all = zero-IsExact dec
  value_of-IsExact p (e ∷ es) (x, all) = elim (Bool-cases (covers p e)) [
    | inl hit ↦ rw hit (
        add-IsExact dec _ _ (sub-IsExact dec (units e.credit) (units e.debit) x.0 x.1)
          (value_of-IsExact p es all))
    | inr miss ↦ rw miss (value_of-IsExact p es all)
  ]

  pub record_entry-AllExact :
      (wallet account_id asset : String) (amount : Decimal) (k : Option String) (s : State Decimal)
      → IsExact dec (units amount)
      → AllExact s.db.ledger
      → AllExact (record_entry wallet account_id asset amount k s).1.db.ledger
  unfolding record_entry modify
  record_entry-AllExact wallet account_id asset amount k s x all =
      book-AllExact wallet account_id asset amount k s.db.ledger x all

  -- If the amount and the rows of the ledger have at most 18 fractional digits, which the ledger's
  -- columns keep as they are, then after `Record` the rows have so too, and the balance of the booked
  -- row has moved by the amount, whatever its sign.
  pub record_entry-moves :
      (wallet account_id asset : String) (amount : Decimal) (k : Option String) (s : State Decimal)
      → IsExact dec (units amount)
      → AllExact s.db.ledger
      → AllExact (record_entry wallet account_id asset amount k s).1.db.ledger
        × (funds wallet account_id asset (record_entry wallet account_id asset amount k s).1
            ≡ funds wallet account_id asset s +ℤ units amount)
  record_entry-moves wallet account_id asset amount k s x all = (
    record_entry-AllExact wallet account_id asset amount k s x all,
    funds-record_entry wallet account_id asset amount k s,
  )
