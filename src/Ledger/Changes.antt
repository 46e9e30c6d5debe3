-- ===== src/Ledger/Changes.antt =====
-- What a computation adds to the worth of every choice of rows. One rule for each way to build one.
use wthelly.Base.{◌≡◌, sym, ◌∙◌, ap, String, Option, List}
use wthelly.Base.Int.{ℤ, pos, ◌+ℤ◌, part, int_laws, +ℤ_zero}
use wthelly.Effect.{Effect, ok, ◌>>=◌}
use wthelly.Effect.Rules.{Ensures, Ensures-bind, Ensures-mono}
use wthelly.Effect.Keeps.{Keeps}
use wthelly.Money.{DecimalOps}
use wthelly.Store.{State, Entry}
use wthelly.Ledger.{record_entry}
use wthelly.Ledger.Value.{Rows, value_of}
use wthelly.Ledger.Balance.{value_of-record_entry}

pub +ℤ_assoc : (a b c : ℤ) → a +ℤ b +ℤ c ≡ a +ℤ (b +ℤ c)
+ℤ_assoc a b c = omega int_laws

module _ {Decimal : Type 0} ⦃dec : DecimalOps Decimal⦄ where
  open dec use {units}

  abbrev pub ledger : State Decimal → List (Entry Decimal)
  ledger s = s.db.ledger

  -- From `s` to `t`, each choice `p` of rows has gained `f p`.
  pub record Changes (f : Rows → ℤ) (s t : State Decimal) : Type 0 where
    pub at : (p : Rows) → value_of p t.db.ledger ≡ value_of p s.db.ledger +ℤ f p

  pub Ensures-Changes-mono :
      {A : Type 0} {s : State Decimal} {f g : Rows → ℤ} (m : Effect (State Decimal) A)
      → Ensures s m (λ _ t. Changes f s t)
      → ((p : Rows) → f p ≡ g p)
      → Ensures s m (λ _ t. Changes g s t)
  Ensures-Changes-mono {s = s} m h e =
      Ensures-mono m h
        λ _ t c. record { at = λ p. c.at p ∙ ap (λ x. value_of p s.db.ledger +ℤ x) (e p) }

  pub Keeps-Changes :
      {A : Type 0} {s : State Decimal} (m : Effect (State Decimal) A)
      → Keeps ledger m
      → Ensures s m (λ _ t. Changes (λ p. pos 0) s t)
  Keeps-Changes {s = s} m k = record {
    at = λ a e. record { at = λ p. ap (value_of p) (k.at s) ∙ sym (+ℤ_zero _) };
  }

  pub record_entry-Changes :
      (wallet account_id asset : String) (amount : Decimal) (k : Option String) (s : State Decimal)
      → Ensures s
          (record_entry wallet account_id asset amount k)
          (λ _ t. Changes (λ p. part (p account_id asset wallet) (units amount)) s t)
  record_entry-Changes wallet account_id asset amount k s = record {
    at = λ a e. record { at = λ p. value_of-record_entry p wallet account_id asset amount k s };
  }

  module _ {A B : Type 0} {s : State Decimal} where
    pub Changes-bind :
        {f g : Rows → ℤ} (m : Effect (State Decimal) A) (k : A → Effect (State Decimal) B)
        → Ensures s m (λ _ t. Changes f s t)
        → ((a : A) (t : State Decimal) → Ensures t (k a) (λ _ u. Changes g t u))
        → Ensures s (m >>= k) (λ _ u. Changes (λ p. f p +ℤ g p) s u)
    Changes-bind {f} {g} m k h j = Ensures-bind m k h λ a t c.
        Ensures-mono (k a) (j a t)
          λ _ u d. record { at = λ p. d.at p ∙ ap (λ x. x +ℤ g p) (c.at p) ∙ +ℤ_assoc _ _ _ }

    -- a computation whose first step leaves the rows alone
    pub Changes-Keeps-bind :
        {g : Rows → ℤ} (m : Effect (State Decimal) A) (k : A → Effect (State Decimal) B)
        → Keeps ledger m
        → ((a : A) (t : State Decimal) → (m s).0 ≡ ok a → Ensures t (k a) (λ _ u. Changes g t u))
        → Ensures s (m >>= k) (λ _ u. Changes g s u)
    Changes-Keeps-bind {g} m k h j =
        Ensures-bind m k {R = λ a t. ((m s).0 ≡ ok a) × (ledger t ≡ ledger s)}
          (record { at = λ a e. (e, h.at s) })
          λ a t r.
            Ensures-mono (k a) (j a t r.0)
              λ _ u d. record { at = λ p. d.at p ∙ ap (λ es. value_of p es +ℤ g p) r.1 }
