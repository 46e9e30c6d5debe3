-- ===== src/Money.antt =====
-- What the clearnode computes with and does not implement: the decimal package
-- (github.com/shopspring/decimal) and the addresses of go-ethereum's common package.

pub mod Exact
use wthelly.Base.{ℕ, ◌≡◌, ◌+◌, Bool, true, not, String, Option, List}
use wthelly.Base.Int.{ℤ, pos, pos_part, neg_part, ◌+ℤ◌, ◌-ℤ◌, ◌≤ℤ◌, ltb_ℤ, eq_ℤ}

-- A decimal is coefficient * 10 ^ exponent, and its exponent is a 32-bit integer. So each is a whole
-- number of units of 10 ^ -(2 ^ 31), and the laws say that the operations are exact in these units.
-- Two decimals with the same units can differ (1.0 and 1.00).
pub record DecimalOps (Decimal : Type 0) : Type 0 where
  pub zero_d : Decimal
  pub add : Decimal → Decimal → Decimal
  pub sub : Decimal → Decimal → Decimal
  pub neg : Decimal → Decimal
  pub abs : Decimal → Decimal
  pub is_zero : Decimal → Bool
  pub is_positive : Decimal → Bool
  pub is_negative : Decimal → Bool
  pub less_than : Decimal → Decimal → Bool
  pub greater_than : Decimal → Decimal → Bool
  pub less_than_or_equal : Decimal → Decimal → Bool
  pub equal : Decimal → Decimal → Bool
  -- `NewFromString`
  pub from_string : String → Option Decimal
  -- `NewFromBigInt(raw, -decimals)`, `BigInt`, which drops the fraction, and `Shift`
  pub from_big_int : ℤ → ℕ → Decimal
  pub big_int : Decimal → ℤ
  pub shift : Decimal → ℕ → Decimal
  -- what SQLite answers for the sum of a column of texts, and for the difference of two such sums, which
  -- it computes in floating point
  pub float_sum : List Decimal → Decimal
  pub float_difference : List Decimal → List Decimal → Decimal
  pub units : Decimal → ℤ
  pub units-zero_d : units zero_d ≡ pos 0
  pub units-add : (a b : Decimal) → units (add a b) ≡ units a +ℤ units b
  pub units-sub : (a b : Decimal) → units (sub a b) ≡ units a -ℤ units b
  pub units-neg : (a : Decimal) → units (neg a) ≡ pos 0 -ℤ units a
  pub units-abs : (a : Decimal) → units (abs a) ≡ pos (pos_part (units a) + neg_part (units a))
  pub is_zero_lem : (a : Decimal) → is_zero a ≡ eq_ℤ (units a) (pos 0)
  pub is_positive_lem : (a : Decimal) → is_positive a ≡ ltb_ℤ (pos 0) (units a)
  pub is_negative_lem : (a : Decimal) → is_negative a ≡ ltb_ℤ (units a) (pos 0)
  pub less_than_lem : (a b : Decimal) → less_than a b ≡ ltb_ℤ (units a) (units b)
  pub greater_than_lem : (a b : Decimal) → greater_than a b ≡ ltb_ℤ (units b) (units a)
  pub less_than_or_equal_lem :
      (a b : Decimal) → less_than_or_equal a b ≡ not (ltb_ℤ (units b) (units a))
  pub equal_lem : (a b : Decimal) → equal a b ≡ eq_ℤ (units a) (units b)
  pub units-from_big_int :
      (a b : ℤ) (decimals : ℕ)
      → units (from_big_int (a +ℤ b) decimals)
        ≡ units (from_big_int a decimals) +ℤ units (from_big_int b decimals)
  pub from_big_int_pos :
      (a : ℤ) (decimals : ℕ) → ltb_ℤ (pos 0) (units (from_big_int a decimals)) ≡ ltb_ℤ (pos 0) a
  pub from_big_int_neg :
      (a : ℤ) (decimals : ℕ) → ltb_ℤ (units (from_big_int a decimals)) (pos 0) ≡ ltb_ℤ a (pos 0)
  pub less_than-shift :
      (a b : Decimal) (decimals : ℕ)
      → ltb_ℤ (units (shift a decimals)) (units (shift b decimals)) ≡ ltb_ℤ (units a) (units b)
  pub units-shift_from_big_int :
      (a : ℤ) (decimals : ℕ)
      → units (shift (from_big_int a decimals) decimals) ≡ units (from_big_int a 0)
  -- dropping the fraction of what is below zero rounds it up, to zero at most
  pub big_int_of_negative :
      (a : Decimal)
      → ltb_ℤ (units a) (pos 0) ≡ true
      → (units a ≤ℤ units (from_big_int (big_int a) 0))
        × (units (from_big_int (big_int a) 0) ≤ℤ pos 0)
  pub big_int-from_big_int : (a : ℤ) → big_int (from_big_int a 0) ≡ a

-- `common.IsHexAddress`, and `common.HexToAddress(s).Hex()`, the checksummed spelling. An address
-- is used only through its spelling, and is modelled by it.
pub record Addresses : Type 0 where
  pub is_hex_address : String → Bool
  pub hex_address : String → String
  pub is_hex_address-hex_address : (s : String) → is_hex_address (hex_address s) ≡ true
  pub hex_address-hex_address : (s : String) → hex_address (hex_address s) ≡ hex_address s
