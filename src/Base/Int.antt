-- ===== src/Base/Int.antt =====
-- Signed integers over the native numbers, under the library's names: sums and orders go through
-- the two parts of an integer, which the arithmetic tactics read.
use Prim.Native.Nat.{ℕ, suc, ◌+◌, ◌-◌, ◌≤◌}
use mathlib.Core.Path.{◌≡◌, refl}
use mathlib.Core.Bool.{Bool, true, false}
use native.Mathlib.Omega.{arith}
use wthelly.Base.Tests.{ltb, leb, eq_ℕ, if◌then◌else◌}

-- `negsuc n` is -(n + 1).
pub data ℤ : Type 0 where
  pos : ℕ → ℤ
  negsuc : ℕ → ℤ

abbrev pub pos_part : ℤ → ℕ
pos_part (pos n) = n
pos_part (negsuc _) = 0

abbrev pub neg_part : ℤ → ℕ
neg_part (pos _) = 0
neg_part (negsuc n) = suc n

-- a - b, as an integer.
abbrev pub sub_ℕ : ℕ → ℕ → ℤ
sub_ℕ a b = if leb b a then pos (a - b) else negsuc (b - a - 1)

infixl 65 ◌+ℤ◌ ◌-ℤ◌
infix 50 ◌≤ℤ◌
unfoldable pub ◌+ℤ◌ : ℤ → ℤ → ℤ
a +ℤ b = sub_ℕ (pos_part a + pos_part b) (neg_part a + neg_part b)

unfoldable pub ◌-ℤ◌ : ℤ → ℤ → ℤ
a -ℤ b = sub_ℕ (pos_part a + neg_part b) (neg_part a + pos_part b)

abbrev pub ◌≤ℤ◌ : ℤ → ℤ → Type 0
a ≤ℤ b = pos_part a + neg_part b ≤ pos_part b + neg_part a

abbrev pub ltb_ℤ : ℤ → ℤ → Bool
ltb_ℤ a b = ltb (pos_part a + neg_part b) (pos_part b + neg_part a)

abbrev pub eq_ℤ : ℤ → ℤ → Bool
eq_ℤ a b = eq_ℕ (pos_part a + neg_part b) (pos_part b + neg_part a)

-- With these two the operations can stay shut.
pub +ℤ_parts :
    (a b : ℤ)
    → pos_part (a +ℤ b) + neg_part a + neg_part b ≡ neg_part (a +ℤ b) + pos_part a + pos_part b
unfolding ◌+ℤ◌
+ℤ_parts a b = ground arith

pub -ℤ_parts :
    (a b : ℤ)
    → pos_part (a -ℤ b) + neg_part a + pos_part b ≡ neg_part (a -ℤ b) + pos_part a + neg_part b
unfolding ◌-ℤ◌
-ℤ_parts a b = ground arith

pub eq_of_parts : (a b : ℤ) → pos_part a + neg_part b ≡ pos_part b + neg_part a → a ≡ b
eq_of_parts a b h = ground arith

pub ruleset int_laws = (arith, +ℤ_parts, -ℤ_parts, eq_of_parts)

-- an equation of integers, as `omega` reads it
pub parts_of_eq : (a b : ℤ) → a ≡ b → pos_part a + neg_part b ≡ pos_part b + neg_part a
parts_of_eq a b h = rw h (omega arith)

-- the part of an amount that a choice sees
abbrev pub part : Bool → ℤ → ℤ
part b x = if b then x else pos 0

pub part-neg : (b : Bool) (x : ℤ) → part b (pos 0 -ℤ x) +ℤ part b x ≡ pos 0
part-neg true x = omega int_laws
part-neg false x = omega int_laws

pub +ℤ_zero : (a : ℤ) → a +ℤ pos 0 ≡ a
+ℤ_zero a = omega int_laws

pub neg_abs : (a : ℤ) → ltb_ℤ a (pos 0) ≡ true → pos 0 -ℤ pos (pos_part a + neg_part a) ≡ a
unfolding ◌-ℤ◌
neg_abs a h = ground arith

pub eq_zero_of_sign : (a : ℤ) → ltb_ℤ (pos 0) a ≡ false → ltb_ℤ a (pos 0) ≡ false → a ≡ pos 0
eq_zero_of_sign a h k = ground arith

-- A balance that gives an amount which it has, or takes one, or neither, stays at zero or above.
pub nonneg_of_part :
    (give take : Bool) (x v v' : ℤ)
    → v' +ℤ part give x ≡ v +ℤ part take x
    → pos 0 ≤ℤ x
    → pos 0 ≤ℤ v
    → (give ≡ true → x ≤ℤ v)
    → pos 0 ≤ℤ v'
nonneg_of_part true true x v v' h n m cover = omega (int_laws, parts_of_eq _ _ h, cover refl)
nonneg_of_part true false x v v' h n m cover = omega (int_laws, parts_of_eq _ _ h, cover refl)
nonneg_of_part false true x v v' h n m cover = omega (int_laws, parts_of_eq _ _ h)
nonneg_of_part false false x v v' h n m cover = omega (int_laws, parts_of_eq _ _ h)

pub +ℤ_cancel : (a b c : ℤ) → a +ℤ c ≡ b +ℤ c → a ≡ b
+ℤ_cancel a b c h = omega (int_laws, parts_of_eq _ _ h)

pub falls_by : (a b : ℤ) → ltb_ℤ a b ≡ true → pos 0 ≤ℤ b -ℤ a
unfolding ◌-ℤ◌
falls_by a b h = ground arith
