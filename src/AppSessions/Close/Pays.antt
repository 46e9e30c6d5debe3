-- ===== src/AppSessions/Close/Pays.antt =====
-- One step of closing a session: a participant's share leaves the session, and what is allocated
-- arrives.
use mathlib.Core.Path.{subst}
use wthelly.Base.{◌≡◌, ◌≢◌, sym, ap, ◌∙◌, inl, inr, String, none}
use wthelly.Base.Int.{ℤ, pos, ◌+ℤ◌, ◌-ℤ◌, int_laws}
use wthelly.Effect.{ok, pure, modify, ◌>>=◌, ◌>>◌}
use wthelly.Effect.Rules.{Ensures, Ensures-guard-bind, Ensures-reads-bind}
use wthelly.Money.{DecimalOps, Addresses}
use wthelly.Store.{State, app_withdrawal}
use wthelly.Ledger.{new_account_id, record_entry}
use wthelly.Ledger.Balance.{funds, units-balance, funds-record_entry, funds-record_entry_ne}
use wthelly.Transactions.{record_ledger_transaction}
use wthelly.Money.Exact.{IsExact, neg-IsExact}
use wthelly.Ledger.Exact.{AllExact, value_of-IsExact, record_entry-AllExact}
use wthelly.AppSessions.{AppAllocation, Weights}
use wthelly.AppSessions.Close.{pay_one}

take_all : (a : ℤ) → a +ℤ (pos 0 -ℤ a) ≡ pos 0
take_all a = omega int_laws

module _ {Decimal : Type 0} ⦃dec : DecimalOps Decimal⦄ ⦃adr : Addresses⦄ where
  open dec use {units, neg, units-neg}

  -- The funds after a step: the wallet has nothing left in the session, and in its own account the
  -- amount more.
  pub record PaidOut (wallet session own asset : String) (amount : ℤ) (s t : State Decimal)
      : Type 0 where
    pub drained : funds wallet session asset t ≡ pos 0
    pub credited : funds wallet own asset t ≡ funds wallet own asset s +ℤ amount

  paid_out :
      (w session own asset : String) (held amount : Decimal) (s : State Decimal)
      → own ≢ session
      → units held ≡ funds w session asset s
      → IsExact dec (units amount)
      → AllExact s.db.ledger
      → Ensures s
          (record_entry w session asset (neg held) none
            >> (record_entry w own asset amount none
                >> (record_ledger_transaction app_withdrawal session own asset amount >>= λ _.
                    pure tt)))
          (λ _ t. AllExact t.db.ledger × PaidOut w session own asset (units amount) s t)
  unfolding record_entry modify ◌>>=◌ record_ledger_transaction
  paid_out w session own asset held amount s apart worth exact all = record {
    at = λ _ _. (
      record_entry-AllExact w own asset amount none
          (record_entry w session asset (neg held) none s).1 exact
          (record_entry-AllExact w session asset (neg held) none s
            (subst (IsExact dec) (sym (units-neg held)) (
              neg-IsExact dec (units held)
                (subst (IsExact dec) (sym worth) (value_of-IsExact _ s.db.ledger all))))
            all),
      record {
        drained =
            funds-record_entry_ne w own asset w session asset amount none
              (record_entry w session asset (neg held) none s).1 (inr (inl λ e. apart (sym e)))
            ∙ funds-record_entry w session asset (neg held) none s
            ∙ ap (λ v. v +ℤ units (neg held)) (sym worth)
            ∙ ap (λ v. units held +ℤ v) (units-neg held)
            ∙ take_all (units held);
        credited =
            funds-record_entry w own asset amount none
              (record_entry w session asset (neg held) none s).1
            ∙ ap (λ v. v +ℤ units amount)
                (funds-record_entry_ne w session asset w own asset (neg held) none s
                  (inr (inl apart)));
      },
    );
  }

  pay_one-PaidOut :
      (session : String) (weights : Weights) (alloc : AppAllocation Decimal) (s : State Decimal)
      → new_account_id alloc.participant ≢ session
      → IsExact dec (units alloc.amount)
      → AllExact s.db.ledger
      → Ensures s (pay_one session weights alloc) (λ _ t.
        AllExact t.db.ledger
        × PaidOut
            (adr.hex_address alloc.participant)
            session
            (new_account_id alloc.participant)
            alloc.asset_symbol
            (units alloc.amount)
            s
            t)
  unfolding pay_one
  pay_one-PaidOut session weights alloc s apart exact all = Ensures-guard-bind _ _ _ λ _.
      Ensures-reads-bind _ _ λ _ _.
        Ensures-reads-bind _ _
          λ held has. paid_out _ _ _ _ held _ s apart (units-balance _ _ _ s has) exact all

  -- If the step of closing a session succeeds for an allocation, the participant's own account is not
  -- the session's, and the allocated amount and the rows of the ledger have at most 18 fractional
  -- digits, which the ledger's columns keep as they are, then the rows have so afterwards too, and the
  -- participant has nothing left in the session's account in that asset, and has in its own account
  -- what it had and what is allocated.
  pub close-pays :
      (session : String) (weights : Weights) (alloc : AppAllocation Decimal) (s : State Decimal)
      → new_account_id alloc.participant ≢ session
      → IsExact dec (units alloc.amount)
      → AllExact s.db.ledger
      → (pay_one session weights alloc s).0 ≡ ok tt
      → AllExact (pay_one session weights alloc s).1.db.ledger
        × PaidOut
            (adr.hex_address alloc.participant)
            session
            (new_account_id alloc.participant)
            alloc.asset_symbol
            (units alloc.amount)
            s
            (pay_one session weights alloc s).1
  close-pays session weights alloc s apart exact all h =
      (pay_one-PaidOut session weights alloc s apart exact all).at tt h
