-- ===== src/AppSessions/Allocations/Sound.antt =====
-- A request that passes verifyAllocations allocates, in every asset, what the session holds.
use wthelly.Base.{
  ◌≡◌, refl, sym, ap, ◌∙◌, inl, inr, Bool, true, false, Bool-cases, Option-cases, String, ◌==◌,
  eq_iff, Option, none, some, [], ◌∷◌, arith, if◌then◌else◌,
}
use wthelly.Base.Int.{ℤ, pos, eq_ℤ}
use wthelly.Error.{Error}
use wthelly.Effect.{Result, ok, err}
use wthelly.Money.{DecimalOps}
use wthelly.AppSessions.{Amounts, amount_at}
use wthelly.AppSessions.Allocations.{
  find_amount, check_asset, check_balances, check_sums, verify_allocations,
}

err_ok : {A : Type 0} {e : Error} {a : A} → err e ≡ ok a → ⊥
err_ok h = cc

same : (j k : String) → (j == k) ≡ true → j ≡ k
same j k h = ground (arith, eq_iff j k)

-- two checks in a row that pass
both :
    (r k : Result (Unit {0}))
    → elim r [ ok _ ↦ k | err e ↦ err e ] ≡ ok tt
    → (r ≡ ok tt) × (k ≡ ok tt)
both (ok x) k h = (refl, h)
both (err e) k h = elim (err_ok h) [ ]

-- a check that asks for zero where nothing is found
zero_unless :
    {A : Type 0} (o : Option A) (z : Bool) (k : Result (Unit {0}))
    → elim o [ some _ ↦ k | none ↦ if z then k else err Error.unknown_asset ] ≡ ok tt
    → (k ≡ ok tt) × (o ≡ none → z ≡ true)
zero_unless (some a) z k h = (h, λ e. cc)
zero_unless none true k h = (h, λ e. refl)
zero_unless none false k h = elim (err_ok h) [ ]

eq_of_eq_ℤ : (a b : ℤ) → eq_ℤ a b ≡ true → a ≡ b
eq_of_eq_ℤ a b h = ground arith

module _ {Decimal : Type 0} ⦃dec : DecimalOps Decimal⦄ where
  open dec use {zero_d, units, units-zero_d, is_zero, is_zero_lem, equal, equal_lem}

  abbrev or_zero : Option Decimal → Decimal
  or_zero none = zero_d
  or_zero (some a) = a

  amount_at-find_amount :
      (asset : String) (m : Amounts Decimal) → amount_at asset m ≡ or_zero (find_amount asset m)
  unfolding amount_at find_amount
  amount_at-find_amount asset [] = refl
  amount_at-find_amount asset ((j, a) ∷ m) = elim (Bool-cases (j == asset)) [
    | inl hit ↦ rw hit refl
    | inr miss ↦ rw miss (amount_at-find_amount asset m)
  ]

  zero_units : (a : Decimal) → is_zero a ≡ true → units a ≡ pos 0
  zero_units a h = eq_of_eq_ℤ (units a) (pos 0) (sym (is_zero_lem a) ∙ h)

  equal_units : (a b : Decimal) → equal a b ≡ true → units a ≡ units b
  equal_units a b h = eq_of_eq_ℤ (units a) (units b) (sym (equal_lem a b) ∙ h)

  find_amount-hit :
      (asset j : String) (a : Decimal) (m : Amounts Decimal)
      → (j == asset) ≡ true
      → find_amount asset ((j, a) ∷ m) ≡ some a
  unfolding find_amount
  find_amount-hit asset j a m hit = rw hit refl

  find_amount-miss :
      (asset j : String) (a : Decimal) (m : Amounts Decimal)
      → (j == asset) ≡ false
      → find_amount asset ((j, a) ∷ m) ≡ find_amount asset m
  unfolding find_amount
  find_amount-miss asset j a m miss = rw miss refl

  check_asset_sound :
      (bal : Decimal) (o : Option Decimal)
      → check_asset bal o ≡ ok tt
      → units bal ≡ units (or_zero o)
  unfolding check_asset
  check_asset_sound bal none h = ground (arith, zero_units bal, units-zero_d)
  check_asset_sound bal (some a) h = ground (arith, zero_units bal, zero_units a, equal_units bal a)

  check_balances_sound :
      (asset : String) (balances sums : Amounts Decimal) {bal : Decimal}
      → check_balances balances sums ≡ ok tt
      → find_amount asset balances ≡ some bal
      → units bal ≡ units (or_zero (find_amount asset sums))
  unfolding check_balances find_amount
  check_balances_sound asset [] sums h f = cc
  check_balances_sound asset ((j, b) ∷ rest) sums {bal} h f =
      let (first, others) = both (check_asset b (find_amount j sums)) _ h in
      elim (Bool-cases (j == asset)) [
        | inl hit ↦
            sym (ap (λ o. units (or_zero o)) (sym (find_amount-hit asset j b rest hit) ∙ f))
            ∙ check_asset_sound b _ first
            ∙ ap (λ k. units (or_zero (find_amount k sums))) (same j asset hit)
        | inr miss ↦
            check_balances_sound asset rest sums others
              (sym (find_amount-miss asset j b rest miss) ∙ f)
      ]

  check_sums_sound :
      (asset : String) (balances sums : Amounts Decimal) {a : Decimal}
      → check_sums balances sums ≡ ok tt
      → find_amount asset balances ≡ none
      → find_amount asset sums ≡ some a
      → units a ≡ pos 0
  unfolding check_sums find_amount
  check_sums_sound asset balances [] h k f = cc
  check_sums_sound asset balances ((j, x) ∷ rest) {a} h k f =
      let (others, known) = zero_unless (find_amount j balances) (is_zero x) _ h in
      elim (Bool-cases (j == asset)) [
        | inl hit ↦
            sym (ap (λ o. units (or_zero o)) (sym (find_amount-hit asset j x rest hit) ∙ f))
            ∙ zero_units x (known (ap (λ i. find_amount i balances) (same j asset hit) ∙ k))
        | inr miss ↦
            check_sums_sound asset balances rest others k
              (sym (find_amount-miss asset j x rest miss) ∙ f)
      ]

  -- If verifyAllocations accepts the balances of a session and the sums that a request allocates, then
  -- in every asset the sum is worth what the balance is; an absent balance or sum is zero.
  pub verify-allocates_all :
      (balances sums : Amounts Decimal) (asset : String)
      → verify_allocations balances sums ≡ ok tt
      → units (amount_at asset sums) ≡ units (amount_at asset balances)
  unfolding verify_allocations
  verify-allocates_all balances sums asset h =
      let (held, listed) = both (check_balances balances sums) _ h in
      rw (amount_at-find_amount asset sums, amount_at-find_amount asset balances)
        (elim (Option-cases (find_amount asset balances)) [
          | inr (b, found) ↦ rw found (sym (check_balances_sound asset balances sums held found))
          | inl absent ↦ elim (Option-cases (find_amount asset sums)) [
            | inl missing ↦ rw (absent, missing) refl
            | inr (a, found) ↦
                rw (absent, found)
                  (check_sums_sound asset balances sums listed absent found ∙ sym units-zero_d)
          ]
        ])
