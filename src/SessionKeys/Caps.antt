-- ===== src/SessionKeys/Caps.antt =====
-- What the validation of a session key's spending is worth: a key never spends past its allowance.
use mathlib.Core.Path.{subst}
use wthelly.Base.{
  ◌≡◌, ◌+◌, refl, sym, ap, ◌∙◌, String, Bool, true, false, ◌&&◌, ◌==◌, eq_refl, some, List, ◌∷◌,
  map, select, arith, if◌then◌else◌,
}
use wthelly.Base.Int.{ℤ, pos, pos_part, neg_part, ◌≤ℤ◌, ◌+ℤ◌, ◌-ℤ◌, ltb_ℤ, int_laws}
use wthelly.Error.{Error}
use wthelly.Effect.{ok, err, modify}
use wthelly.Money.{DecimalOps}
use wthelly.Store.{State, Db, Entry, SessionKey, Allowance}
use wthelly.Money.Exact.{IsExact, neg-IsExact}
use wthelly.Ledger.{book, record_entry, sum, sql_sum}
use wthelly.Ledger.Exact.{AllExact, record_entry-AllExact}
use wthelly.SessionKeys.{
  app_name_clearnode, find_allowance, spent_by, calculate_session_key_spending, within_cap,
  validate_session_key_spending,
}

flip_positive : (a : ℤ) → ltb_ℤ (pos 0) a ≡ true → ltb_ℤ (pos 0) (pos 0 -ℤ a) ≡ false
unfolding ◌-ℤ◌
flip_positive a h = ground arith

flip_negative : (a : ℤ) → ltb_ℤ (pos 0) a ≡ true → ltb_ℤ (pos 0 -ℤ a) (pos 0) ≡ true
unfolding ◌-ℤ◌
flip_negative a h = ground arith

abs_flip :
    (a : ℤ) → ltb_ℤ (pos 0) a ≡ true → pos (pos_part (pos 0 -ℤ a) + neg_part (pos 0 -ℤ a)) ≡ a
unfolding ◌-ℤ◌
abs_flip a h = ground arith

+ℤ_comm : (a b : ℤ) → a +ℤ b ≡ b +ℤ a
+ℤ_comm a b = omega int_laws

module _ {Decimal : Type 0} ⦃dec : DecimalOps Decimal⦄ where
  open dec use {
    add, neg, is_positive, is_negative, greater_than, greater_than_lem, from_string, units,
    units-add, units-neg, units-abs, is_positive_lem, is_negative_lem,
  }

  -- what a key has spent of an asset: the exact worth of the debits on its behalf
  abbrev pub spent : String → String → Db Decimal → ℤ
  spent key asset db =
      units (sum (map (λ (e : Entry Decimal). e.debit) (select (spent_by key asset) db.ledger)))

  -- PostgreSQL's sum is this.
  calculate-spent :
      (key asset : String) (s : State Decimal)
      → s.driver ≡ "postgres"
      → units (calculate_session_key_spending key asset s) ≡ spent key asset s.db
  unfolding calculate_session_key_spending sql_sum
  calculate-spent key asset s postgres = rw postgres refl

  -- the allowance that caps a key's spending of an asset
  pub record Capped (k : SessionKey) (asset : String) (allowed : Decimal) : Type 0 where
    pub other : (k.application == app_name_clearnode) ≡ false
    pub allowances : List Allowance
    pub allowance : Allowance
    pub has : k.allowance ≡ some allowances
    pub lists : find_allowance asset allowances ≡ some allowance
    pub reads_as : from_string allowance.amount ≡ some allowed

  validate-Capped :
      (k : SessionKey) (asset : String) (requested : Decimal) (s : State Decimal)
      {allowed : Decimal}
      → Capped k asset allowed
      → validate_session_key_spending k asset requested s ≡ (
          if greater_than (add (calculate_session_key_spending k.address asset s) requested) allowed
          then err Error.insufficient_allowance
          else ok tt)
  unfolding validate_session_key_spending within_cap
  validate-Capped k asset requested s c =
      rw (validate_session_key_spending, c.other, c.has, c.lists, within_cap, c.reads_as) refl

  within :
      (k : SessionKey) (asset : String) (requested : Decimal) (s : State Decimal)
      {allowed : Decimal}
      → s.driver ≡ "postgres"
      → Capped k asset allowed
      → validate_session_key_spending k asset requested s ≡ ok tt
      → spent k.address asset s.db +ℤ units requested ≤ℤ units allowed
  within k asset requested s {allowed} postgres c h =
      bounded (sym (validate-Capped k asset requested s c) ∙ h)
    where
      total : Decimal
      total = add (calculate_session_key_spending k.address asset s) requested

      bounded :
          (if greater_than total allowed then err Error.insufficient_allowance else ok tt)
            ≡ ok (tt {0})
          → spent k.address asset s.db +ℤ units requested ≤ℤ units allowed
      bounded e =
          subst (λ x. x ≤ℤ units allowed)
            (units-add _ requested
              ∙ ap (λ x. x +ℤ units requested) (calculate-spent k.address asset s postgres))
            (ground (arith, greater_than_lem total allowed))

  is_positive-neg : (x : Decimal) → is_positive x ≡ true → is_positive (neg x) ≡ false
  is_positive-neg x h =
      rw (is_positive_lem, units-neg) (flip_positive (units x) (sym (is_positive_lem x) ∙ h))

  is_negative-neg : (x : Decimal) → is_positive x ≡ true → is_negative (neg x) ≡ true
  is_negative-neg x h =
      rw (is_negative_lem, units-neg) (flip_negative (units x) (sym (is_positive_lem x) ∙ h))

  debits-cons :
      (p : Entry Decimal → Bool) (e : Entry Decimal) (es : List (Entry Decimal))
      → p e ≡ true
      → units (sum (map (λ (x : Entry Decimal). x.debit) (select p (e ∷ es))))
        ≡ units e.debit +ℤ units (sum (map (λ (x : Entry Decimal). x.debit) (select p es)))
  unfolding select sum
  debits-cons p e es h = rw (h, units-add) refl

  spent-cons :
      (key asset : String) (e : Entry Decimal) (db : Db Decimal)
      → spent_by key asset e ≡ true
      → spent key asset (record db { ledger = e ∷ db.ledger }) ≡ units e.debit +ℤ spent key asset db
  spent-cons key asset e db h = debits-cons (spent_by key asset) e db.ledger h

  debit_of : (x : Decimal) → is_positive x ≡ true → units (dec.abs (neg x)) ≡ units x
  debit_of x h = rw (units-abs, units-neg) (abs_flip (units x) (sym (is_positive_lem x) ∙ h))

  -- A booking on behalf of a key adds to what the key has spent.
  spent-record_entry :
      (key wallet account asset : String) (amount : Decimal) (s : State Decimal)
      → is_positive amount ≡ true
      → spent key asset (record_entry wallet account asset (neg amount) (some key) s).1.db
        ≡ spent key asset s.db +ℤ units amount
  unfolding record_entry modify book spent_by
  spent-record_entry key wallet account asset amount s h =
      rw (is_positive-neg amount h, is_negative-neg amount h)
        (spent-cons key asset _ s.db (own key asset)
          ∙ ap (λ x. x +ℤ spent key asset s.db) (debit_of amount h)
          ∙ +ℤ_comm (units amount) (spent key asset s.db))
    where
      own : (k x : String) → ((k == k) && (x == x)) ≡ true
      own k x = rw (eq_refl, eq_refl) refl

  -- If the spending of an amount above zero passes the validation of a key of another application than
  -- the clearnode, with an allowance that reads as `allowed`, under PostgreSQL, whose sums are exact, and
  -- the amount and the rows of the ledger have at most 18 fractional digits, which the ledger's columns
  -- keep as they are, then once the amount is booked as a debit on the key's behalf the rows have so
  -- too, and all that the key has spent of the asset is at most `allowed`.
  pub spending-Capped :
      (k : SessionKey) (wallet account asset : String) (amount : Decimal) (s : State Decimal)
      {allowed : Decimal}
      → s.driver ≡ "postgres"
      → Capped k asset allowed
      → is_positive amount ≡ true
      → IsExact dec (units amount)
      → AllExact s.db.ledger
      → validate_session_key_spending k asset amount s ≡ ok tt
      → AllExact (record_entry wallet account asset (neg amount) (some k.address) s).1.db.ledger
        × (spent k.address asset
              (record_entry wallet account asset (neg amount) (some k.address) s).1.db
            ≤ℤ units allowed)
  spending-Capped k wallet account asset amount s {allowed} postgres c p exact all h = (
    record_entry-AllExact wallet account asset (neg amount) (some k.address) s
        (subst (IsExact dec) (sym (units-neg amount)) (neg-IsExact dec (units amount) exact)) all,
    subst (λ x. x ≤ℤ units allowed)
        (sym (spent-record_entry k.address wallet account asset amount s p))
        (within k asset amount s postgres c h),
  )
