-- ===== src/Custody/Once.antt =====
-- An event of a chain is processed at most once: its handler saves it in the transaction that books
-- it, and refuses a saved one.
use mathlib.Core.Path.{subst}
use wthelly.Base.{inl, inr, ◌≡◌, Bool, true, false, Option, none, some, List, [], ◌∷◌}
use wthelly.Base.Int.{ℤ}
use wthelly.Error.{Error}
use wthelly.Effect.{Effect, ok, err, Result-cases, reads, ◌>>=◌}
use wthelly.Effect.Rules.{
  Ensures, Ensures-bind, Ensures-fail, Ensures-reads, Ensures-guard-bind, Ensures-reads-bind,
}
use wthelly.Money.{DecimalOps, Addresses}
use wthelly.Store.{State}
use wthelly.Store.Transaction.{transaction, Ensures-transaction}
use wthelly.Store.Transaction.Atomic.{
  Atomic, Atomic-pure, Atomic-fail, Atomic-reads-bind, Atomic-guard-bind, Atomic-transaction-bind,
}
use wthelly.Custody.{
  log_index_of, Custody, Log, Notification, CreatedEvent, DepositedEvent, ChallengedEvent,
  ResizedEvent, ClosedEvent, is_contract_event_present,
}
use wthelly.Custody.Recorded.{
  Recorded, record_created-Recorded, record_deposited-Recorded, record_challenged-Recorded,
  record_resized-Recorded, record_closed-Recorded,
}
use wthelly.Custody.Created.{handle_created, handle_deposited}
use wthelly.Custody.Resized.{handle_challenged, handle_deltas, handle_resized}
use wthelly.Custody.Closed.{
  CustodyEvent, created, deposited, joined, challenged_event, resized_event, closed_event,
  unparsable, handle_closed, handle_block_chain_event,
}

module _ {Decimal : Type 0} ⦃dec : DecimalOps Decimal⦄ ⦃adr : Addresses⦄ where
  handle_created-Atomic :
      (c : Custody) (ev : CreatedEvent) → Atomic {Decimal = Decimal} (handle_created c ev)
  unfolding handle_created
  handle_created-Atomic c ev = Atomic-guard-bind _ _ _ (
      Atomic-reads-bind _ _ λ _. Atomic-reads-bind _ _ λ _. Atomic-reads-bind _ _ λ _.
        Atomic-reads-bind _ _ λ _. Atomic-guard-bind _ _ _ (
          Atomic-guard-bind _ _ _
            (Atomic-guard-bind _ _ _ (Atomic-guard-bind _ _ _ (Atomic-transaction-bind _ _)))))

  handle_deposited-Atomic :
      (c : Custody) (ev : DepositedEvent) → Atomic {Decimal = Decimal} (handle_deposited c ev)
  unfolding handle_deposited
  handle_deposited-Atomic c ev =
      Atomic-guard-bind _ _ _ (Atomic-reads-bind _ _ λ _. Atomic-transaction-bind _ _)

  handle_challenged-Atomic :
      (c : Custody) (ev : ChallengedEvent) → Atomic {Decimal = Decimal} (handle_challenged c ev)
  unfolding handle_challenged
  handle_challenged-Atomic c ev = Atomic-transaction-bind _ _

  handle_deltas-Atomic :
      (c : Custody) (ev : ResizedEvent) (deltas : List ℤ)
      → Atomic {Decimal = Decimal} (handle_deltas c ev deltas)
  unfolding handle_deltas
  handle_deltas-Atomic c ev [] = Atomic-fail _
  handle_deltas-Atomic c ev (_ ∷ []) = Atomic-fail _
  handle_deltas-Atomic c ev (d ∷ e ∷ []) = Atomic-transaction-bind _ _
  handle_deltas-Atomic c ev (_ ∷ _ ∷ _ ∷ _) = Atomic-fail _

  handle_resized-Atomic :
      (c : Custody) (ev : ResizedEvent) → Atomic {Decimal = Decimal} (handle_resized c ev)
  unfolding handle_resized
  handle_resized-Atomic c ev = handle_deltas-Atomic c ev ev.delta_allocations

  handle_closed-Atomic :
      (c : Custody) (ev : ClosedEvent) → Atomic {Decimal = Decimal} (handle_closed c ev)
  unfolding handle_closed
  handle_closed-Atomic c ev = Atomic-transaction-bind _ _

  handle_block_chain_event-Atomic :
      (c : Custody) (ev : CustodyEvent) → Atomic {Decimal = Decimal} (handle_block_chain_event c ev)
  unfolding handle_block_chain_event
  handle_block_chain_event-Atomic c (created ev) = handle_created-Atomic c ev
  handle_block_chain_event-Atomic c (deposited ev) = handle_deposited-Atomic c ev
  handle_block_chain_event-Atomic c joined = Atomic-pure _
  handle_block_chain_event-Atomic c (challenged_event ev) = handle_challenged-Atomic c ev
  handle_block_chain_event-Atomic c (resized_event ev) = handle_resized-Atomic c ev
  handle_block_chain_event-Atomic c (closed_event ev) = handle_closed-Atomic c ev
  handle_block_chain_event-Atomic c unparsable = Atomic-fail _

  -- An event whose processing fails leaves the database as it was.
  pub handle-rollback :
      (c : Custody) (ev : CustodyEvent) (s : State Decimal) {e : Error}
      → (handle_block_chain_event c ev s).0 ≡ err e
      → (handle_block_chain_event c ev s).1.db ≡ s.db
  handle-rollback c ev s h = (handle_block_chain_event-Atomic c ev).at s h

-- where the log of an event stands, for those that are saved
abbrev pub log_of : CustodyEvent → Option Log
log_of (created ev) = some ev.raw
log_of (deposited ev) = some ev.raw
log_of joined = none
log_of (challenged_event ev) = some ev.raw
log_of (resized_event ev) = some ev.raw
log_of (closed_event ev) = some ev.raw
log_of unparsable = none

same_log : {a b : Log} → some a ≡ some b → a ≡ b
same_log h = cc

clash : {b : Bool} {P : Type 0} → b ≡ true → b ≡ false → P
clash h k = cc

module _ {Decimal : Type 0} ⦃dec : DecimalOps Decimal⦄ ⦃adr : Addresses⦄ where
  -- a transaction that saves an event, and then the notifications
  saves :
      {A B : Type 0} (c : Custody) (raw : Log) (m : Effect (State Decimal) A)
      (g : A → State Decimal → B) (s : State Decimal)
      → Ensures s m (λ _ t. Recorded c raw s t)
      → Ensures s (transaction m >>= λ a. reads λ t. ok (g a t)) (λ _ t. Recorded c raw s t)
  saves c raw m g s h = Ensures-bind _ _ (Ensures-transaction m h) λ _ t r. Ensures-reads _ λ _ _. r

  handle_created-Recorded :
      (c : Custody) (ev : CreatedEvent) (s : State Decimal)
      → Ensures s (handle_created c ev) (λ _ t. Recorded c ev.raw s t)
  unfolding handle_created
  handle_created-Recorded c ev s = Ensures-guard-bind _ _ _ λ _.
      Ensures-reads-bind _ _ λ participant _. Ensures-reads-bind _ _ λ _ _.
        Ensures-reads-bind _ _ λ initial _. Ensures-reads-bind _ _ λ _ _.
          Ensures-guard-bind _ _ _ λ _. Ensures-guard-bind _ _ _ λ _. Ensures-guard-bind _ _ _ λ _.
            Ensures-guard-bind _ _ _
              λ _. saves c ev.raw _ _ s (record_created-Recorded c ev participant initial s)

  handle_deposited-Recorded :
      (c : Custody) (ev : DepositedEvent) (s : State Decimal)
      → Ensures s (handle_deposited c ev) (λ _ t. Recorded c ev.raw s t)
  unfolding handle_deposited
  handle_deposited-Recorded c ev s = Ensures-guard-bind _ _ _ λ _.
      Ensures-reads-bind _ _ λ asset _. saves c ev.raw _ _ s (record_deposited-Recorded c ev _ _ s)

  handle_deltas-Recorded :
      (c : Custody) (ev : ResizedEvent) (deltas : List ℤ) (s : State Decimal)
      → Ensures s (handle_deltas c ev deltas) (λ _ t. Recorded c ev.raw s t)
  unfolding handle_deltas
  handle_deltas-Recorded c ev [] s = Ensures-fail _
  handle_deltas-Recorded c ev (_ ∷ []) s = Ensures-fail _
  handle_deltas-Recorded c ev (d ∷ e ∷ []) s =
      saves c ev.raw _ _ s (record_resized-Recorded c ev d e s)
  handle_deltas-Recorded c ev (_ ∷ _ ∷ _ ∷ _) s = Ensures-fail _

  relog :
      {A : Type 0} {c : Custody} {m : Effect (State Decimal) A} {s : State Decimal} {a b : Log}
      → some a ≡ some b
      → Ensures s m (λ _ t. Recorded c a s t)
      → Ensures s m (λ _ t. Recorded c b s t)
  relog {c = c} {m} {s} h k = subst (λ r. Ensures s m (λ _ t. Recorded c r s t)) (same_log h) k

  recorded :
      (c : Custody) (ev : CustodyEvent) {raw : Log} (s : State Decimal)
      → log_of ev ≡ some raw
      → Ensures s (handle_block_chain_event c ev) (λ _ t. Recorded c raw s t)
  unfolding handle_block_chain_event handle_challenged handle_resized handle_closed
  recorded c (created ev) s h = relog h (handle_created-Recorded c ev s)
  recorded c (deposited ev) s h = relog h (handle_deposited-Recorded c ev s)
  recorded c joined s h = cc
  recorded c (challenged_event ev) s h =
      relog h (saves c ev.raw _ _ s (record_challenged-Recorded c ev s))
  recorded c (resized_event ev) s h = relog h (handle_deltas-Recorded c ev ev.delta_allocations s)
  recorded c (closed_event ev) s h = relog h (saves c ev.raw _ _ s (record_closed-Recorded c ev s))
  recorded c unparsable s h = cc

  refused :
      (c : Custody) (ev : CustodyEvent) {raw : Log} (t : State Decimal)
      → log_of ev ≡ some raw
      → is_contract_event_present c.chain_id raw.tx_hash (log_index_of raw) t.db ≡ true
      → (handle_block_chain_event c ev t).1.db ≡ t.db
  refused c ev t h present = elim (Result-cases (handle_block_chain_event c ev t).0) [
    | inl (e, failure) ↦ handle-rollback c ev t failure
    | inr (ns, success) ↦ clash present ((recorded c ev t h).at ns success).fresh
  ]

  -- Once an event was processed, any event from the same place of the same chain leaves the database
  -- as it is.
  pub event-once :
      (c : Custody) (ev again : CustodyEvent) (raw : Log) (s : State Decimal)
      {ns : List (Notification Decimal)}
      → log_of ev ≡ some raw
      → log_of again ≡ some raw
      → (handle_block_chain_event c ev s).0 ≡ ok ns
      → (handle_block_chain_event c again (handle_block_chain_event c ev s).1).1.db
        ≡ (handle_block_chain_event c ev s).1.db
  event-once c ev again raw s h k e =
      refused c again (handle_block_chain_event c ev s).1 k ((recorded c ev s h).at _ e).saved
