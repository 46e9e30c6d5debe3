-- ===== src/AppSessions/Create/Conserves.antt =====
-- The deposits that open a session move funds and make none.
use wthelly.Base.{ℕ, ◌≡◌, String, true, not, List, [], ◌∷◌, arith}
use wthelly.Base.Int.{pos, ◌≤ℤ◌}
use wthelly.Effect.{ok}
use wthelly.Effect.Rules.{
  Ensures, Ensures-pure, Ensures-if, Ensures-bind, Ensures-guard-bind, Ensures-reads-bind,
}
use wthelly.Money.{DecimalOps, Addresses}
use wthelly.Store.{State, Entry, AppSession}
use wthelly.Effect.Keeps.{Ensures-Keeps-bind}
use wthelly.Store.Transaction.{Ensures-transaction}
use wthelly.Ledger.Moves.{IsSolvent}
use wthelly.Ledger.Conserved.{Conserved, Conserved-start}
use wthelly.AppSessions.{AppAllocation}
use wthelly.AppSessions.Checks.{get_session_key-Keeps, validate_delegate-Keeps}
use wthelly.AppSessions.Deposit.Conserves.{move_into_session-Conserved, covered}
use wthelly.AppSessions.Create.{
  AppDefinition, CreateAppSessionParams, insert_session, fund_one, fund_all, create_app_session,
}

module _ {Decimal : Type 0} ⦃dec : DecimalOps Decimal⦄ ⦃adr : Addresses⦄ where
  open dec use {units, is_negative, is_negative_lem}

  nonneg : (x : Decimal) → not (is_negative x) ≡ true → pos 0 ≤ℤ units x
  nonneg x g = ground (arith, is_negative_lem x)

  fund_one-Conserved :
      {es : List (Entry Decimal)} (now : ℕ) (signers : List String) (application account : String)
      (alloc : AppAllocation Decimal) {s : State Decimal}
      → Conserved es s.db.ledger
      → Ensures s (fund_one now signers application account alloc) (λ _ t. Conserved es t.db.ledger)
  unfolding fund_one
  fund_one-Conserved now signers application account alloc c = Ensures-guard-bind _ _ _ λ positive.
      Ensures-Keeps-bind _ _ (get_session_key-Keeps _ _ _) λ ctx t _ same.
        Ensures-guard-bind _ _ _ λ _.
          Ensures-Keeps-bind _ _ (validate_delegate-Keeps _ _ _ _ _) λ _ u _ same'.
            Ensures-reads-bind _ _ λ _ _. Ensures-reads-bind _ _ λ _ _.
              Ensures-reads-bind _ _ λ available has. Ensures-guard-bind _ _ _ λ enough.
                move_into_session-Conserved _ _ _ _ _ (rw (same', same) c) (nonneg _ positive)
                  (covered _ _ _ _ u has enough)

  fund_all-Conserved :
      {es : List (Entry Decimal)} (now : ℕ) (signers : List String) (application account : String)
      (allocs : List (AppAllocation Decimal)) {s : State Decimal}
      → Conserved es s.db.ledger
      → Ensures s
          (fund_all now signers application account allocs)
          (λ _ t. Conserved es t.db.ledger)
  unfolding fund_all
  fund_all-Conserved now signers application account [] c = Ensures-pure _ c
  fund_all-Conserved now signers application account (alloc ∷ allocs) c =
      Ensures-if (dec.is_zero alloc.amount) _ _
        (λ _. fund_all-Conserved now signers application account allocs c)
        (λ _.
          Ensures-bind _ _ (fund_one-Conserved now signers application account alloc c) λ _ _ c'.
            Ensures-bind _ _ (fund_all-Conserved now signers application account allocs c')
              λ _ _ c''. Ensures-pure _ c'')

  insert_session-ledger :
      {es : List (Entry Decimal)} (session : AppSession) {s : State Decimal}
      → Conserved es s.db.ledger
      → Ensures s (insert_session session) (λ _ t. Conserved es t.db.ledger)
  unfolding insert_session
  insert_session-ledger session {s} c = record { at = λ a e. ground (arith, c) }

  create_app_session-Conserved :
      (hash : AppDefinition → String) (now : ℕ) (params : CreateAppSessionParams Decimal)
      (signers : List String) (s : State Decimal)
      → IsSolvent s.db.ledger
      → Ensures s
          (create_app_session hash now params signers)
          (λ _ t. Conserved s.db.ledger t.db.ledger)
  unfolding create_app_session
  create_app_session-Conserved hash now params signers s v = Ensures-reads-bind _ _ λ _ _.
      Ensures-bind _ _
        (Ensures-transaction _ (
          Ensures-bind _ _
            (fund_all-Conserved now signers _ _ params.allocations (Conserved-start v))
            λ _ _ c. Ensures-bind _ _ (insert_session-ledger _ c) λ _ _ c''. Ensures-pure _ c''))
        λ _ _ c. Ensures-pure _ c

  -- If a session is created where the wallets' own accounts are not below zero, then each wallet has
  -- in all accounts together, in each asset, what it had, and the wallets' own accounts are still not
  -- below zero.
  pub create-conserves :
      (hash : AppDefinition → String) (now : ℕ) (params : CreateAppSessionParams Decimal)
      (signers : List String) (s : State Decimal) {r : String × List String}
      → IsSolvent s.db.ledger
      → (create_app_session hash now params signers s).0 ≡ ok r
      → Conserved s.db.ledger (create_app_session hash now params signers s).1.db.ledger
  create-conserves hash now params signers s v h =
      (create_app_session-Conserved hash now params signers s v).at _ h
