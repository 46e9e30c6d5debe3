-- ===== src/Effect/Rules.antt =====
-- `Ensures s m Q`: if `m` run from `s` succeeds, its result and the state it leaves satisfy `Q`.
-- One rule for each way to build a computation.
use mathlib.Core.Path.{subst}
use wthelly.Base.{◌≡◌, refl, Bool, true, false, if◌then◌else◌}
use wthelly.Error.{Error}
use wthelly.Effect.{Effect, Result, ok, err, pure, fail, reads, modify, guard, continue, ◌>>=◌}

pub record Ensures {S A : Type 0} (s : S) (m : Effect S A) (Q : A → S → Type 0) : Type 0 where
  pub at : (a : A) → (m s).0 ≡ ok a → Q a (m s).1

pub ok-injective : {A : Type 0} {a b : A} → ok a ≡ ok b → a ≡ b
ok-injective e = cc

module _ {S A : Type 0} {s : S} {Q : A → S → Type 0} where
  pub Ensures-pure : (a : A) → Q a s → Ensures s (pure a) Q
  unfolding pure
  Ensures-pure a h = record { at = λ b e. subst (λ x. Q x s) (ok-injective e) h }

  pub Ensures-fail : (e : Error) → Ensures s (fail e) Q
  unfolding fail
  Ensures-fail e = record { at = λ b x. cc }

  pub Ensures-reads : (f : S → Result A) → ((a : A) → f s ≡ ok a → Q a s) → Ensures s (reads f) Q
  unfolding reads
  Ensures-reads f h = record { at = h }

  pub Ensures-if :
      (b : Bool) (m n : Effect S A)
      → (b ≡ true → Ensures s m Q)
      → (b ≡ false → Ensures s n Q)
      → Ensures s (if b then m else n) Q
  Ensures-if true m n h k = h refl
  Ensures-if false m n h k = k refl

  pub Ensures-mono :
      (m : Effect S A) {R : A → S → Type 0}
      → Ensures s m R
      → ((a : A) (t : S) → R a t → Q a t)
      → Ensures s m Q
  Ensures-mono m h k = record { at = λ a e. k a (m s).1 (h.at a e) }

module _ {S : Type 0} {s : S} {Q : Unit {0} → S → Type 0} where
  pub Ensures-guard : (b : Bool) (e : Error) → (b ≡ true → Q tt s) → Ensures s (guard b e) Q
  unfolding guard
  Ensures-guard true e h = record { at = λ a x. h refl }
  Ensures-guard false e h = record { at = λ a x. cc }

  pub Ensures-modify : (f : S → S) → Q tt (f s) → Ensures s (modify f) Q
  unfolding modify
  Ensures-modify f h = record { at = λ a x. h }

module _ {S A B : Type 0} {Q : B → S → Type 0} where
  Ensures-continue :
      (f : A → Effect S B) (r : Result A) (s : S)
      → ((a : A) → r ≡ ok a → Ensures s (f a) Q)
      → Ensures s (continue r f) Q
  Ensures-continue f (ok a) s h = h a refl
  Ensures-continue f (err e) s h = record { at = λ a x. cc }

  -- The rest of a computation, from what its first step ensures.
  pub Ensures-bind :
      {s : S} (m : Effect S A) (f : A → Effect S B) {R : A → S → Type 0}
      → Ensures s m R
      → ((a : A) (t : S) → R a t → Ensures t (f a) Q)
      → Ensures s (m >>= f) Q
  unfolding ◌>>=◌
  Ensures-bind {s} m f h k = record {
    at = (Ensures-continue f (m s).0 (m s).1 (λ a e. k a (m s).1 (h.at a e))).at;
  }

module _ {S B : Type 0} {s : S} {Q : B → S → Type 0} where
  -- A computation that starts with a test, and one that starts with a read: the state stays.
  pub Ensures-guard-bind :
      (b : Bool) (e : Error) (f : Unit {0} → Effect S B)
      → (b ≡ true → Ensures s (f tt) Q)
      → Ensures s (guard b e >>= f) Q
  Ensures-guard-bind b e f h =
      Ensures-bind (guard b e) f {R = λ _ t. Ensures t (f tt) Q} (Ensures-guard b e h) λ _ _ k. k

  pub Ensures-reads-bind :
      {A : Type 0} (g : S → Result A) (f : A → Effect S B)
      → ((a : A) → g s ≡ ok a → Ensures s (f a) Q)
      → Ensures s (reads g >>= f) Q
  Ensures-reads-bind g f h =
      Ensures-bind (reads g) f {R = λ a t. Ensures t (f a) Q} (Ensures-reads g h) λ _ _ k. k
