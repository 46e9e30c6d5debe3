-- ===== src/AppSessions/Operate/Sets.antt =====
-- One step of an operate update: a participant's share becomes what is allocated.
use mathlib.Core.Path.{subst}
use wthelly.Base.{◌≡◌, ◌≢◌, ◌⊎◌, refl, sym, ap, ◌∙◌, String, true, none, arith}
use wthelly.Base.Int.{ℤ, pos, ◌+ℤ◌, ◌-ℤ◌, eq_ℤ, int_laws}
use wthelly.Effect.{ok}
use wthelly.Effect.Rules.{Ensures, Ensures-pure, Ensures-if, Ensures-guard-bind, Ensures-reads-bind}
use wthelly.Money.{DecimalOps, Addresses}
use wthelly.Store.{State}
use wthelly.Ledger.{new_account_id}
use wthelly.Ledger.Balance.{funds, units-balance, funds-record_entry, funds-record_entry_ne}
use wthelly.Money.Exact.{IsExact, sub-IsExact}
use wthelly.Ledger.Exact.{AllExact, value_of-IsExact, record_entry-AllExact}
use wthelly.AppSessions.{AppAllocation, Update}
use wthelly.AppSessions.Operate.{operate_one}

zero_difference : (a b : ℤ) → eq_ℤ (a -ℤ b) (pos 0) ≡ true → b ≡ a
unfolding ◌-ℤ◌
zero_difference a b h = ground arith

add_difference : (a b : ℤ) → b +ℤ (a -ℤ b) ≡ a
add_difference a b = omega int_laws

module _ {Decimal : Type 0} ⦃dec : DecimalOps Decimal⦄ ⦃adr : Addresses⦄ where
  open dec use {units, sub, units-sub, is_zero, is_zero_lem}

  -- The funds after a step: the participant has what is allocated, and every other row is as it was.
  pub record Allocated (wallet account asset : String) (amount : ℤ) (s t : State Decimal)
      : Type 0 where
    pub own : funds wallet account asset t ≡ amount
    pub others :
        (w a x : String)
        → (w ≢ wallet) ⊎ (a ≢ account) ⊎ (x ≢ asset)
        → funds w a x t ≡ funds w a x s

  operate_one-Allocated :
      (o : Update Decimal) (alloc : AppAllocation Decimal) (s : State Decimal)
      → IsExact dec (units alloc.amount)
      → AllExact s.db.ledger
      → Ensures s (operate_one o alloc) (λ _ t.
        AllExact t.db.ledger
        × Allocated
            (adr.hex_address alloc.participant)
            (new_account_id o.app_session_id)
            alloc.asset_symbol
            (units alloc.amount)
            s
            t)
  unfolding operate_one
  operate_one-Allocated o alloc s exact all = Ensures-guard-bind _ _ _ λ _.
      Ensures-reads-bind _ _ λ _ _. Ensures-reads-bind _ _ λ held has.
        let worth = units-balance _ _ _ s has in
        Ensures-if (is_zero (sub alloc.amount held)) _ _
          (λ same. Ensures-pure _ (
            all,
            record {
              own =
                  sym worth
                  ∙ zero_difference (units alloc.amount) (units held) (
                      ap (λ d. eq_ℤ d (pos 0)) (sym (units-sub alloc.amount held))
                      ∙ sym (is_zero_lem (sub alloc.amount held))
                      ∙ same);
              others = λ w a x _. refl;
            },
          ))
          λ _. record {
            at = λ _ _. (
              record_entry-AllExact _ _ _ (sub alloc.amount held) none s
                  (subst (IsExact dec) (sym (units-sub alloc.amount held)) (
                    sub-IsExact dec (units alloc.amount) (units held) exact
                      (subst (IsExact dec) (sym worth) (value_of-IsExact _ s.db.ledger all))))
                  all,
              record {
                own =
                    funds-record_entry _ _ _ (sub alloc.amount held) none s
                    ∙ ap (λ v. v +ℤ units (sub alloc.amount held)) (sym worth)
                    ∙ ap (λ d. units held +ℤ d) (units-sub alloc.amount held)
                    ∙ add_difference (units alloc.amount) (units held);
                others = λ w a x other.
                    funds-record_entry_ne _ _ _ w a x (sub alloc.amount held) none s other;
              },
            );
          }

  -- If the step of an operate update succeeds for an allocation, and the allocated amount and the rows
  -- of the ledger have at most 18 fractional digits, which the ledger's columns keep as they are, then
  -- the rows have so afterwards too, the participant has in the session's account, in the asset,
  -- exactly what is allocated, and the funds of every other wallet, account or asset are as they were.
  pub operate-allocates :
      (o : Update Decimal) (alloc : AppAllocation Decimal) (s : State Decimal)
      → IsExact dec (units alloc.amount)
      → AllExact s.db.ledger
      → (operate_one o alloc s).0 ≡ ok tt
      → AllExact (operate_one o alloc s).1.db.ledger
        × Allocated
            (adr.hex_address alloc.participant)
            (new_account_id o.app_session_id)
            alloc.asset_symbol
            (units alloc.amount)
            s
            (operate_one o alloc s).1
  operate-allocates o alloc s exact all h = (operate_one-Allocated o alloc s exact all).at tt h
