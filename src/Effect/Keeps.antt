-- ===== src/Effect/Keeps.antt =====
-- `Keeps view m`: whether `m` succeeds or not, it leaves what `view` shows of the state as it was. One
-- rule for each way to build a computation.
use wthelly.Base.{◌≡◌, refl, ap, ◌∙◌, Bool, true, false, if◌then◌else◌}
use wthelly.Error.{Error}
use wthelly.Effect.{Effect, Result, ok, err, pure, fail, reads, guard, modify, continue, ◌>>=◌}
use wthelly.Effect.Rules.{Ensures, Ensures-bind}

pub record Keeps {S X A : Type 0} (view : S → X) (m : Effect S A) : Type 0 where
  pub at : (s : S) → view (m s).1 ≡ view s

module _ {S X A : Type 0} {view : S → X} where
  pub Keeps-pure : (a : A) → Keeps view (pure a)
  unfolding pure
  Keeps-pure a = record { at = λ s. refl }

  pub Keeps-fail : (e : Error) → Keeps {A = A} view (fail e)
  unfolding fail
  Keeps-fail e = record { at = λ s. refl }

  pub Keeps-reads : (f : S → Result A) → Keeps view (reads f)
  unfolding reads
  Keeps-reads f = record { at = λ s. refl }

  pub Keeps-if :
      (b : Bool) (m n : Effect S A) → Keeps view m → Keeps view n → Keeps view (if b then m else n)
  Keeps-if true m n h k = h
  Keeps-if false m n h k = k

  pub Keeps-ap :
      {Y : Type 0} (f : X → Y) (m : Effect S A) → Keeps view m → Keeps (λ s. f (view s)) m
  Keeps-ap f m h = record { at = λ s. ap f (h.at s) }

module _ {S X : Type 0} {view : S → X} where
  pub Keeps-guard : (b : Bool) (e : Error) → Keeps view (guard b e)
  unfolding guard
  Keeps-guard b e = record { at = λ s. refl }

  pub Keeps-modify : (f : S → S) → ((s : S) → view (f s) ≡ view s) → Keeps view (modify f)
  unfolding modify
  Keeps-modify f h = record { at = h }

module _ {S X A B : Type 0} {view : S → X} where
  Keeps-continue :
      (f : A → Effect S B) (r : Result A) (s : S)
      → ((a : A) → Keeps view (f a))
      → view (continue r f s).1 ≡ view s
  Keeps-continue f (ok a) s h = (h a).at s
  Keeps-continue f (err e) s h = refl

  pub Keeps-bind :
      (m : Effect S A) (f : A → Effect S B)
      → Keeps view m
      → ((a : A) → Keeps view (f a))
      → Keeps view (m >>= f)
  unfolding ◌>>=◌
  Keeps-bind m f h k = record { at = λ s. Keeps-continue f (m s).0 (m s).1 k ∙ h.at s }

  -- A computation that starts with code that keeps a view.
  pub Ensures-Keeps-bind :
      {s : S} {Q : B → S → Type 0} (m : Effect S A) (f : A → Effect S B)
      → Keeps view m
      → ((a : A) (t : S) → (m s).0 ≡ ok a → view t ≡ view s → Ensures t (f a) Q)
      → Ensures s (m >>= f) Q
  Ensures-Keeps-bind {s} m f h k =
      Ensures-bind m f {R = λ a t. ((m s).0 ≡ ok a) × (view t ≡ view s)}
        (record { at = λ a e. (e, h.at s) }) λ a t r. k a t r.0 r.1
