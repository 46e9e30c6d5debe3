-- ===== src/Money/Exact.antt =====
-- The amounts that a column DECIMAL(64,18) keeps as they are: those with at most 18 fractional digits
-- (config/migrations/postgres/20250516152609_add_initial_schema.sql). Finer ones it rounds.
use mathlib.Core.Path.{subst}
use wthelly.Base.{ℕ, ◌≡◌, refl, sym, ap, ◌∙◌}
use wthelly.Base.Int.{ℤ, pos, ◌+ℤ◌, ◌-ℤ◌, int_laws, parts_of_eq}
use wthelly.Money.{DecimalOps}

zero_units : (k : ℤ) → k ≡ k +ℤ k → k ≡ pos 0
zero_units k h = omega (int_laws, parts_of_eq _ _ h)

no_sum : pos 0 +ℤ pos 0 ≡ pos 0
unfolding ◌+ℤ◌
no_sum = refl

opposite : (a b : ℤ) → a +ℤ b ≡ pos 0 → b ≡ pos 0 -ℤ a
opposite a b h = omega (int_laws, parts_of_eq _ _ h)

cancel : (n : ℤ) → n +ℤ (pos 0 -ℤ n) ≡ pos 0
cancel n = omega int_laws

sub_as_add : (a b : ℤ) → a +ℤ (pos 0 -ℤ b) ≡ a -ℤ b
sub_as_add a b = omega int_laws

module _ {Decimal : Type 0} (dec : DecimalOps Decimal) where
  units-from_big_int_zero : (decimals : ℕ) → dec.units (dec.from_big_int (pos 0) decimals) ≡ pos 0
  units-from_big_int_zero decimals = zero_units _ (
      ap (λ m. dec.units (dec.from_big_int m decimals)) (sym no_sum)
      ∙ dec.units-from_big_int (pos 0) (pos 0) decimals)

  pub units-opposite :
      (n : ℤ) (decimals : ℕ)
      → dec.units (dec.from_big_int (pos 0 -ℤ n) decimals)
        ≡ pos 0 -ℤ dec.units (dec.from_big_int n decimals)
  units-opposite n decimals = opposite _ _ (
      sym (dec.units-from_big_int n (pos 0 -ℤ n) decimals)
      ∙ ap (λ m. dec.units (dec.from_big_int m decimals)) (cancel n)
      ∙ units-from_big_int_zero decimals)

  -- A worth that is a whole number of 10 ^ -18.
  abbrev pub IsExact : ℤ → Type 0
  IsExact u = (n : ℤ) × (u ≡ dec.units (dec.from_big_int n 18))

  pub zero-IsExact : IsExact (pos 0)
  zero-IsExact = (pos 0, sym (units-from_big_int_zero 18))

  pub add-IsExact : (a b : ℤ) → IsExact a → IsExact b → IsExact (a +ℤ b)
  add-IsExact a b (n, e) (m, f) = (
    n +ℤ m,
    ap (λ x. x +ℤ b) e
        ∙ ap (λ x. dec.units (dec.from_big_int n 18) +ℤ x) f
        ∙ sym (dec.units-from_big_int n m 18),
  )

  pub neg-IsExact : (a : ℤ) → IsExact a → IsExact (pos 0 -ℤ a)
  neg-IsExact a (n, e) = (pos 0 -ℤ n, ap (λ x. pos 0 -ℤ x) e ∙ sym (units-opposite n 18))

  pub sub-IsExact : (a b : ℤ) → IsExact a → IsExact b → IsExact (a -ℤ b)
  sub-IsExact a b e f =
      subst IsExact (sub_as_add a b) (add-IsExact a (pos 0 -ℤ b) e (neg-IsExact b f))
