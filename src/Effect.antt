-- ===== src/Effect.antt =====
-- Code that reads and writes a state and may fail. What was written stays written beside an error;
-- a database transaction undoes it (Store/Transaction).
pub mod Rules
pub mod Keeps
use wthelly.Base.{◌≡◌, refl, ◌⊎◌, inl, inr, Bool, true, false, Option, none, some, if◌then◌else◌}
use wthelly.Error.{Error}

pub data Result {ℓ} (A : Type ℓ) : Type ℓ where
  ok : A → Result A
  err : Error → Result A

pub Result-cases :
    {A : Type 0} (r : Result A) → ((e : Error) × (r ≡ err e)) ⊎ ((a : A) × (r ≡ ok a))
Result-cases (ok a) = inr (a, refl)
Result-cases (err e) = inl (e, refl)

abbrev pub Effect : Type 0 → Type 0 → Type 0
Effect S A = S → Result A × S

abbrev pub or_fail : {A : Type 0} → Option A → Error → Result A
or_fail none e = err e
or_fail (some a) e = ok a

abbrev pub check : Bool → Error → Result (Unit {0})
check b e = if b then ok tt else err e

pub check-ok : (b : Bool) (e : Error) {u : Unit {0}} → check b e ≡ ok u → b ≡ true
check-ok true e h = refl
check-ok false e h = cc

-- The rest of a computation that has no state.
abbrev pub and_then : {A B : Type 0} → Result A → (A → Result B) → Result B
and_then (ok a) f = f a
and_then (err e) f = err e

pub and_then-ok :
    {A B : Type 0} (m : Result A) (f : A → Result B) {b : B}
    → and_then m f ≡ ok b
    → (a : A) × (m ≡ ok a) × (f a ≡ ok b)
and_then-ok (ok a) f h = (a, refl, h)
and_then-ok (err e) f h = cc

module _ {S A : Type 0} where
  unfoldable pub pure : A → Effect S A
  pure a s = (ok a, s)

  unfoldable pub fail : Error → Effect S A
  fail e s = (err e, s)

  -- code that only reads, and may fail
  unfoldable pub reads : (S → Result A) → Effect S A
  reads f s = (f s, s)

unfoldable pub modify : {S : Type 0} → (S → S) → Effect S (Unit {0})
modify f s = (ok tt, f s)

-- `if !b { return e }`
unfoldable pub guard : {S : Type 0} → Bool → Error → Effect S (Unit {0})
guard b e s = (check b e, s)

module _ {S A B : Type 0} where
  abbrev pub continue : Result A → (A → Effect S B) → Effect S B
  continue (ok a) f s = f a s
  continue (err e) f s = (err e, s)

  infixl 5 ◌>>=◌
  unfoldable pub ◌>>=◌ : Effect S A → (A → Effect S B) → Effect S B
  unfolding pure fail reads modify guard
  ◌>>=◌ m f s = continue (m s).0 f (m s).1

infixl 5 ◌>>◌
abbrev pub ◌>>◌ : {S B : Type 0} → Effect S (Unit {0}) → Effect S B → Effect S B
m >> k = m >>= λ _. k
