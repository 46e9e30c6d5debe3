-- ===== src/Store/Transaction.antt =====
-- `db.Transaction`: the database comes back as it was if the body fails. The session key cache is no
-- part of the database.
pub mod Atomic
use wthelly.Base.{◌≡◌, arith}
use wthelly.Error.{Error}
use wthelly.Effect.{Effect, Result, ok, err}
use wthelly.Effect.Rules.{Ensures}
use wthelly.Store.{State, Db}

module _ {Decimal A : Type 0} where
  abbrev rollback : Db Decimal → Result A × State Decimal → Result A × State Decimal
  rollback db (ok a, s) = (ok a, s)
  rollback db (err e, s) = (err e, record s { db = db })

  unfoldable pub transaction : Effect (State Decimal) A → Effect (State Decimal) A
  transaction m s = rollback s.db (m s)

  pub transaction-rollback :
      (m : Effect (State Decimal) A) (s : State Decimal) {e : Error}
      → (transaction m s).0 ≡ err e
      → (transaction m s).1.db ≡ s.db
  unfolding transaction
  transaction-rollback m s h = ground arith

  pub Ensures-transaction :
      {s : State Decimal} (m : Effect (State Decimal) A) {Q : A → State Decimal → Type 0}
      → Ensures s m Q
      → Ensures s (transaction m) Q
  unfolding transaction
  Ensures-transaction {s} m {Q} h = record { at = λ a e. commit (m s) (h.at a) e }
    where
      commit :
          {a : A} (r : Result A × State Decimal)
          → (r.0 ≡ ok a → Q a r.1)
          → (rollback s.db r).0 ≡ ok a
          → Q a (rollback s.db r).1
      commit (ok b, t) k e = k e
      commit (err x, t) k e = cc
