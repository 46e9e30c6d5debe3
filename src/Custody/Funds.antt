-- ===== src/Custody/Funds.antt =====
-- What the handlers' steps leave of the ledger, and a chain of bookings.
pub mod Settles
pub mod Credits
use mathlib.Core.Path.{subst}
use wthelly.Base.{
  ℕ, ◌≡◌, ◌≢◌, refl, sym, ap, ◌∙◌, arith, inl, inr, Bool, true, false, Bool-cases, eq_iff, eq_refl,
  ◌==◌, String, Option, none, some, List, get_elem?, if◌then◌else◌,
}
use wthelly.Base.Int.{ℤ, pos, ◌+ℤ◌, ◌-ℤ◌, eq_ℤ, part, int_laws, +ℤ_zero, eq_of_parts}
use wthelly.Error.{Error}
use wthelly.Effect.{Effect, ok, pure, reads, or_fail, ◌>>=◌, ◌>>◌}
use wthelly.Effect.Rules.{
  Ensures, Ensures-bind, Ensures-mono, Ensures-if, Ensures-reads, Ensures-reads-bind,
  Ensures-guard-bind, ok-injective,
}
use wthelly.Effect.Keeps.{
  Keeps, Keeps-pure, Keeps-reads, Keeps-guard, Keeps-modify, Keeps-bind, Ensures-Keeps-bind,
}
use wthelly.Money.{DecimalOps, Addresses}
use wthelly.Store.{State, Entry, Channel, UnsignedState, TransactionType}
use wthelly.Store.Transaction.{Ensures-transaction}
use wthelly.Channels.{create_channel, get_channel_by_id, save_channel}
use wthelly.Assets.{AssetTokenConfig}
use wthelly.Ledger.{new_account_id, balance, record_entry}
use wthelly.Ledger.Value.{Rows, value_of}
use wthelly.Ledger.Balance.{row, funds, units-balance}
use wthelly.Ledger.Changes.{
  ledger, Changes, Ensures-Changes-mono, Keeps-Changes, record_entry-Changes, Changes-bind,
  Changes-Keeps-bind,
}
use wthelly.Transactions.{record_ledger_transaction}
use wthelly.Custody.{
  Custody, Log, CreatedEvent, EventAllocation, ClosedEvent, Notification, save_contract_event,
  store_contract_event, asset_token, raw_to_decimal, index_or_panic, deposit_through,
}
use wthelly.Custody.Created.{record_created, handle_created}
use wthelly.Custody.Closed.{unlock_escrow, pay_out, record_closed, handle_closed}

pub same_some : {A : Type 0} {a b : A} → some a ≡ some b → a ≡ b
same_some h = cc

pub or_fail-ok : {A : Type 0} (o : Option A) (e : Error) {a : A} → or_fail o e ≡ ok a → o ≡ some a
or_fail-ok none e h = cc
or_fail-ok (some b) e h = cc

module _ {Decimal : Type 0} where
  pub same_channels :
      (i : String) (s t : State Decimal)
      → s.db.channels ≡ t.db.channels
      → get_channel_by_id i s.db ≡ get_channel_by_id i t.db
  unfolding get_channel_by_id
  same_channels i s t e = rw e refl

  pub save_contract_event-Keeps :
      {X : Type 0} (view : State Decimal → X) (c : Custody) (name : String) (raw : Log)
      → Keeps view (store_contract_event (wthelly.Custody.event_of c name raw))
      → Keeps view (save_contract_event c name raw)
  unfolding save_contract_event
  save_contract_event-Keeps view c name raw h =
      Keeps-bind _ _ (Keeps-reads _) λ _. Keeps-bind _ _ (Keeps-guard _ _) λ _. h

  -- the channels and the ledger
  abbrev pub tables : State Decimal → List (Channel Decimal) × List (Entry Decimal)
  tables s = (s.db.channels, s.db.ledger)

  pub save_contract_event-tables :
      (c : Custody) (name : String) (raw : Log) → Keeps tables (save_contract_event c name raw)
  unfolding store_contract_event
  save_contract_event-tables c name raw =
      save_contract_event-Keeps tables c name raw (Keeps-modify _ λ s. refl)

module _ {Decimal : Type 0} ⦃dec : DecimalOps Decimal⦄ ⦃adr : Addresses⦄ where
  open dec use {units, neg, units-neg, is_zero, is_zero_lem, units-zero_d}

  pub save_channel-ledger : (ch : Channel Decimal) → Keeps ledger (save_channel ch)
  unfolding save_channel
  save_channel-ledger ch = Keeps-modify _ λ s. refl

  pub journal_end-ledger :
      (ty : TransactionType) (a b x : String) (d : Decimal)
      → Keeps ledger (record_ledger_transaction ty a b x d >>= λ _. pure (tt {0}))
  unfolding record_ledger_transaction
  journal_end-ledger ty a b x d = Keeps-bind _ _ (record { at = λ s. refl }) λ _. Keeps-pure _

  pub save_contract_event-ledger :
      (c : Custody) (name : String) (raw : Log)
      → Keeps {S = State Decimal} ledger (save_contract_event c name raw)
  unfolding store_contract_event
  save_contract_event-ledger c name raw =
      save_contract_event-Keeps ledger c name raw (Keeps-modify _ λ s. refl)

  -- an entry, and then the rest of a list of bookings
  pub book-then :
      {B : Type 0} (w a x : String) (d : Decimal) (k : Effect (State Decimal) B) {g : Rows → ℤ}
      (s : State Decimal)
      → ((t : State Decimal) → Ensures t k (λ _ u. Changes g t u))
      → Ensures s
          (record_entry w a x d none >>= λ _. k)
          (λ _ u. Changes (λ p. part (p a x w) (units d) +ℤ g p) s u)
  book-then w a x d k s h = Changes-bind _ _ (record_entry-Changes w a x d none s) λ _ t. h t
