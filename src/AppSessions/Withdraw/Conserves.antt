-- ===== src/AppSessions/Withdraw/Conserves.antt =====
-- A withdrawal moves funds and makes none.
use wthelly.Base.{◌≡◌, ◌≢◌, ap, sym, ◌∙◌, String, true, false, none, List, [], ◌∷◌}
use wthelly.Base.Int.{pos, ◌≤ℤ◌, falls_by}
use wthelly.Effect.{ok, modify, ◌>>=◌}
use wthelly.Effect.Rules.{
  Ensures, Ensures-pure, Ensures-if, Ensures-bind, Ensures-guard-bind, Ensures-reads-bind,
  Ensures-mono,
}
use wthelly.Money.{DecimalOps, Addresses}
use wthelly.Store.{State, Entry, AppSession}
use wthelly.Ledger.{new_account_id, record_entry}
use wthelly.Ledger.Moves.{IsSolvent, Moved, book-book-Moved}
use wthelly.Ledger.Conserved.{Conserved, Conserved-start, Conserved-Moved}
use wthelly.Transactions.{record_ledger_transaction}
use wthelly.AppSessions.{AppAllocation, Amounts, Update, allocation_at}
use wthelly.AppSessions.Withdraw.{move_out_of_session, withdraw_one, withdraw_all, update_withdraw}

-- An address is no account that is not one.
not_own :
    ⦃adr : Addresses⦄ (wallet account : String)
    → adr.is_hex_address account ≡ false
    → adr.hex_address wallet ≢ account
not_own ⦃adr⦄ wallet account own same =
    cc (own, ap adr.is_hex_address same, adr.is_hex_address-hex_address wallet)

module _ {Decimal : Type 0} ⦃dec : DecimalOps Decimal⦄ ⦃adr : Addresses⦄ where
  open dec use {units, sub, units-sub, less_than, less_than_lem}

  move_out_of_session-Moved :
      (wallet account asset : String) (amount : Decimal) (s : State Decimal)
      → Ensures s (move_out_of_session wallet account asset amount) (λ _ t.
        Moved
          (adr.hex_address wallet)
          account
          (new_account_id wallet)
          asset
          (units amount)
          s.db.ledger
          t.db.ledger)
  unfolding move_out_of_session record_entry ◌>>=◌ modify record_ledger_transaction
  move_out_of_session-Moved wallet account asset amount s = record {
    at = λ a e.
        book-book-Moved (adr.hex_address wallet) account (new_account_id wallet) asset amount none
          none s.db.ledger;
  }

  falls : (a b : Decimal) → less_than a b ≡ true → pos 0 ≤ℤ units (sub b a)
  falls a b h = rw units-sub (falls_by (units a) (units b) (sym (less_than_lem a b) ∙ h))

  withdraw_one-Conserved :
      {es : List (Entry Decimal)} (w : Update Decimal) (current : Decimal)
      (alloc : AppAllocation Decimal) {s : State Decimal}
      → adr.is_hex_address (new_account_id w.app_session_id) ≡ false
      → less_than alloc.amount current ≡ true
      → Conserved es s.db.ledger
      → Ensures s (withdraw_one w current alloc) (λ _ t. Conserved es t.db.ledger)
  unfolding withdraw_one
  withdraw_one-Conserved w current alloc {s} own h c = Ensures-reads-bind _ _ λ _ _.
      Ensures-mono _ (move_out_of_session-Moved _ _ _ _ s)
        λ _ t m. Conserved-Moved c m (falls _ _ h) λ same. elim (not_own _ _ own same) [ ]

  withdraw_all-Conserved :
      {es : List (Entry Decimal)} (w : Update Decimal) (current : List (String × Amounts Decimal))
      (allocs : List (AppAllocation Decimal)) {s : State Decimal}
      → adr.is_hex_address (new_account_id w.app_session_id) ≡ false
      → Conserved es s.db.ledger
      → Ensures s (withdraw_all w current allocs) (λ _ t. Conserved es t.db.ledger)
  unfolding withdraw_all
  withdraw_all-Conserved w current [] own c = Ensures-pure _ c
  withdraw_all-Conserved w current (alloc ∷ allocs) own c = Ensures-guard-bind _ _ _ λ _.
      Ensures-if
        (less_than alloc.amount (allocation_at alloc.participant alloc.asset_symbol current)) _ _
        (λ falls. Ensures-bind _ _ (withdraw_one-Conserved w _ alloc own falls c) λ _ _ c'.
          Ensures-bind _ _ (withdraw_all-Conserved w current allocs own c')
            λ _ _ c''. Ensures-pure _ c'')
        (λ _. withdraw_all-Conserved w current allocs own c)

  update_withdraw-Conserved :
      (w : Update Decimal) (s : State Decimal)
      → adr.is_hex_address (new_account_id w.app_session_id) ≡ false
      → IsSolvent s.db.ledger
      → Ensures s (update_withdraw w) (λ _ t. Conserved s.db.ledger t.db.ledger)
  unfolding update_withdraw
  update_withdraw-Conserved w s own v = Ensures-reads-bind _ _ λ current _.
      Ensures-reads-bind _ _ λ _ _.
        Ensures-bind _ _ (withdraw_all-Conserved w current w.allocations own (Conserved-start v))
          λ _ _ c. Ensures-guard-bind _ _ _ λ _. Ensures-pure _ c

  -- If a withdrawal succeeds where the wallets' own accounts are not below zero, out of a session
  -- whose account is not an address, then each wallet has in all accounts together, in each asset,
  -- what it had, and the wallets' own accounts are still not below zero.
  pub withdraw-conserves :
      (w : Update Decimal) (s : State Decimal) {r : List String × AppSession}
      → adr.is_hex_address (new_account_id w.app_session_id) ≡ false
      → IsSolvent s.db.ledger
      → (update_withdraw w s).0 ≡ ok r
      → Conserved s.db.ledger (update_withdraw w s).1.db.ledger
  withdraw-conserves w s own v h = (update_withdraw-Conserved w s own v).at _ h
