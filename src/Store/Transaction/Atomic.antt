-- ===== src/Store/Transaction/Atomic.antt =====
-- Code that leaves the database as it was whenever it fails, as a handler with one transaction does.
use wthelly.Base.{◌≡◌, refl, Bool}
use wthelly.Error.{Error}
use wthelly.Effect.{Effect, Result, ok, err, pure, fail, reads, guard, check, continue, ◌>>=◌}
use wthelly.Store.{State, Db}
use wthelly.Store.Transaction.{transaction, transaction-rollback}

pub record Atomic {Decimal A : Type 0} (m : Effect (State Decimal) A) : Type 0 where
  pub at : (s : State Decimal) {e : Error} → (m s).0 ≡ err e → (m s).1.db ≡ s.db

module _ {Decimal A : Type 0} where
  pub Atomic-pure : (a : A) → Atomic {Decimal = Decimal} (pure a)
  unfolding pure
  Atomic-pure a = record { at = λ s h. refl }

  pub Atomic-fail : (e : Error) → Atomic {Decimal = Decimal} {A = A} (fail e)
  unfolding fail
  Atomic-fail e = record { at = λ s h. refl }

  pub Atomic-transaction : (m : Effect (State Decimal) A) → Atomic (transaction m)
  Atomic-transaction m = record { at = λ s h. transaction-rollback m s h }

module _ {Decimal A B : Type 0} where
  after :
      (db : Db Decimal) (r : Result A) (s : State Decimal) (f : A → Effect (State Decimal) B)
      → ((e : Error) → r ≡ err e → s.db ≡ db)
      → ((a : A) (e : Error) → (f a s).0 ≡ err e → (f a s).1.db ≡ db)
      → {e : Error} → (continue r f s).0 ≡ err e
      → (continue r f s).1.db ≡ db
  after db (ok a) s f h k x = k a _ x
  after db (err e) s f h k x = h _ refl

  pub Atomic-reads-bind :
      (g : State Decimal → Result A) (f : A → Effect (State Decimal) B)
      → ((a : A) → Atomic (f a))
      → Atomic (reads g >>= f)
  unfolding ◌>>=◌ reads
  Atomic-reads-bind g f h = record {
    at = λ s x. after s.db (g s) s f (λ _ _. refl) (λ a _ y. (h a).at s y) x;
  }

  -- A transaction, and after it code that only reads and does not fail.
  pub Atomic-transaction-bind :
      (m : Effect (State Decimal) A) (g : A → State Decimal → B)
      → Atomic (transaction m >>= λ a. reads λ s. ok (g a s))
  unfolding ◌>>=◌ reads
  Atomic-transaction-bind m g = record {
    at = λ s x.
        after s.db (transaction m s).0 (transaction m s).1 _ (λ _ y. transaction-rollback m s y)
          (λ a _ y. cc) x;
  }

module _ {Decimal B : Type 0} where
  pub Atomic-guard-bind :
      (b : Bool) (e : Error) (f : Unit {0} → Effect (State Decimal) B)
      → Atomic (f tt)
      → Atomic (guard b e >>= f)
  unfolding ◌>>=◌ guard
  Atomic-guard-bind b e f h = record {
    at = λ s x. after s.db (check b e) s f (λ _ _. refl) (λ a _ y. h.at s y) x;
  }
