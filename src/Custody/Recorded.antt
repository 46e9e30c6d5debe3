-- ===== src/Custody/Recorded.antt =====
-- What a handler saves of the event that it processes.
use wthelly.Base.{
  not-true, ℕ, ◌≡◌, refl, sym, ◌∙◌, String, Bool, true, false, not, eq_ℕ, eq_refl, Option, none,
  some, List, select, any, ◌==◌, arith, if◌then◌else◌,
}
use wthelly.Effect.{Effect, Result, pure, ◌>>=◌}
use wthelly.Effect.Rules.{
  Ensures, Ensures-bind, Ensures-guard-bind, Ensures-reads-bind, Ensures-modify, ok-injective,
}
use wthelly.Effect.Keeps.{
  Keeps, Keeps-pure, Keeps-reads, Keeps-guard, Keeps-modify, Keeps-bind, Keeps-if,
}
use wthelly.Base.Int.{ℤ}
use wthelly.Money.{DecimalOps, Addresses}
use wthelly.Store.{State, Channel, ContractEvent, UnsignedState, TransactionType}
use wthelly.BlockchainActions.{create_checkpoint}
use wthelly.Channels.{create_channel, save_channel}
use wthelly.Ledger.{record_entry}
use wthelly.Transactions.{record_ledger_transaction}
use wthelly.Custody.{
  log_index_of, Custody, Log, CreatedEvent, DepositedEvent, ChallengedEvent, ResizedEvent,
  ClosedEvent, EventAllocation, event_of, is_event, is_contract_event_present, store_contract_event,
  save_contract_event, deposit_through,
}
use wthelly.Custody.Created.{record_created, record_deposited}
use wthelly.Custody.Resized.{
  answer, answer_challenge, record_challenged, book_resize, record_resized,
}
use wthelly.Custody.Closed.{unlock_escrow, pay_out, record_closed}

eq_ℕ_refl : (n : ℕ) → eq_ℕ n n ≡ true
eq_ℕ_refl n = ground arith

module _ {Decimal : Type 0} where
  -- The event was not in the database, and is there now.
  pub record Recorded (c : Custody) (raw : Log) (s t : State Decimal) : Type 0 where
    pub fresh : is_contract_event_present c.chain_id raw.tx_hash (log_index_of raw) s.db ≡ false
    pub saved : is_contract_event_present c.chain_id raw.tx_hash (log_index_of raw) t.db ≡ true

  abbrev pub events : State Decimal → List ContractEvent
  events s = s.db.contract_events

  pub Recorded-events :
      {c : Custody} {raw : Log} {s t u : State Decimal}
      → Recorded c raw s t
      → events u ≡ events t
      → Recorded c raw s u
  unfolding is_contract_event_present
  Recorded-events {c} {raw} r e = record { fresh = r.fresh; saved = rw e r.saved }

  stored :
      (c : Custody) (name : String) (raw : Log) (s : State Decimal) {present : Bool}
      → present ≡ is_contract_event_present c.chain_id raw.tx_hash (log_index_of raw) s.db
      → not present ≡ true
      → Ensures s (store_contract_event (event_of c name raw)) (λ _ t. Recorded c raw s t)
  unfolding store_contract_event is_contract_event_present is_event select event_of
  stored c name raw s e new = Ensures-modify _ (record {
    fresh = sym e ∙ not-true _ new;
    saved = rw (eq_ℕ_refl, eq_refl, eq_ℕ_refl) (ground arith);
  })

  save_contract_event-Recorded :
      (c : Custody) (name : String) (raw : Log) (s : State Decimal)
      → Ensures s (save_contract_event c name raw) (λ _ t. Recorded c raw s t)
  unfolding save_contract_event
  save_contract_event-Recorded c name raw s =
      Ensures-reads-bind _ _
        λ present e. Ensures-guard-bind _ _ _ λ new. stored c name raw s (sym (ok-injective e)) new

  -- A body that saves the event first and then leaves the saved events alone.
  pub save-bind :
      {A : Type 0} (c : Custody) (name : String) (raw : Log)
      (f : Unit {0} → Effect (State Decimal) A) (s : State Decimal)
      → Keeps events (f tt)
      → Ensures s (save_contract_event c name raw >>= f) (λ _ t. Recorded c raw s t)
  save-bind c name raw f s k =
      Ensures-bind _ _ (save_contract_event-Recorded c name raw s)
        λ _ t r. record { at = λ a e. Recorded-events r (k.at t) }

  save_channel-events : (ch : Channel Decimal) → Keeps events (save_channel ch)
  unfolding save_channel
  save_channel-events ch = Keeps-modify _ λ s. refl

  created_as :
      (b : Bool) (x y : Result (Channel Decimal) × State Decimal) {evs : List ContractEvent}
      → events x.1 ≡ evs
      → events y.1 ≡ evs
      → events (if◌then◌else◌ {A = Result (Channel Decimal) × State Decimal} b x y).1 ≡ evs
  created_as true x y h k = h
  created_as false x y h k = k

  create_channel-events :
      (i w p : String) (n ch : ℕ) (adj : String) (chain : ℕ) (tok : String) (d : Decimal)
      (st : UnsignedState Decimal)
      → Keeps events (create_channel i w p n ch adj chain tok d st)
  unfolding create_channel
  create_channel-events i w p n ch adj chain tok d st = record {
    at = λ s. created_as (any (λ c. c.channel_id == i) s.db.channels) _ _ refl refl;
  }

  create_checkpoint-events :
      (channel_id : String) (chain_id : ℕ) (state : UnsignedState Decimal) (u v : String)
      → Keeps events (create_checkpoint channel_id chain_id state u v)
  unfolding create_checkpoint
  create_checkpoint-events channel_id chain_id state u v = Keeps-modify _ λ s. refl

  answer-events :
      (c : Custody) (ev : ChallengedEvent) (channel : Channel Decimal) (u v : Option String)
      → Keeps events (answer c ev channel u v)
  unfolding answer
  answer-events c ev channel (some u) (some v) = create_checkpoint-events _ _ _ u v
  answer-events c ev channel none v = Keeps-pure _
  answer-events c ev channel (some u) none = Keeps-pure _

  pub record_challenged-Recorded :
      (c : Custody) (ev : ChallengedEvent) (s : State Decimal)
      → Ensures s (record_challenged c ev) (λ _ t. Recorded c ev.raw s t)
  unfolding record_challenged answer_challenge
  record_challenged-Recorded c ev s = save-bind c "challenged" ev.raw _ s (
      Keeps-bind _ _ (Keeps-reads _) λ channel.
        Keeps-bind _ _ (Keeps-if _ _ _ (answer-events c ev channel _ _) (Keeps-pure _))
          λ _. Keeps-bind _ _ (save_channel-events _) λ _. Keeps-pure _)

module _ {Decimal : Type 0} ⦃dec : DecimalOps Decimal⦄ where
  record_entry-events :
      (w a x : String) (d : Decimal) (k : Option String) → Keeps events (record_entry w a x d k)
  unfolding record_entry
  record_entry-events w a x d k = Keeps-modify _ λ s. refl

  journal-events :
      (ty : TransactionType) (a b x : String) (d : Decimal)
      → Keeps events (record_ledger_transaction ty a b x d)
  unfolding record_ledger_transaction
  journal-events ty a b x d = record { at = λ s. refl }

  -- bookings end with their row in the journal
  journal_end-events :
      (ty : TransactionType) (a b x : String) (d : Decimal)
      → Keeps events (record_ledger_transaction ty a b x d >>= λ _. pure (tt {0}))
  journal_end-events ty a b x d = Keeps-bind _ _ (journal-events ty a b x d) λ _. Keeps-pure _

  module _ ⦃adr : Addresses⦄ where
    deposit_through-events :
        (w a b x : String) (d : Decimal) → Keeps events (deposit_through w a b x d)
    unfolding deposit_through
    deposit_through-events w a b x d = Keeps-bind _ _ (record_entry-events _ _ _ _ _) λ _.
        Keeps-bind _ _ (record_entry-events _ _ _ _ _)
          λ _. Keeps-bind _ _ (record_entry-events _ _ _ _ _) λ _. journal_end-events _ _ _ _ _

    pub record_deposited-Recorded :
        (c : Custody) (ev : DepositedEvent) (x : String) (d : Decimal) (s : State Decimal)
        → Ensures s (record_deposited c ev x d) (λ _ t. Recorded c ev.raw s t)
    unfolding record_deposited
    record_deposited-Recorded c ev x d s =
        save-bind c "deposited" ev.raw _ s
          (Keeps-bind _ _ (record_entry-events _ _ _ _ _) λ _. journal_end-events _ _ _ _ _)

    pub record_created-Recorded :
        (c : Custody) (ev : CreatedEvent) (p : String) (i : EventAllocation) (s : State Decimal)
        → Ensures s (record_created c ev p i) (λ _ t. Recorded c ev.raw s t)
    unfolding record_created
    record_created-Recorded c ev p i s = save-bind c "created" ev.raw _ s (
        Keeps-bind _ _ (Keeps-reads _) λ _.
          Keeps-bind _ _ (create_channel-events _ _ _ _ _ _ _ _ _ _) λ _.
            Keeps-bind _ _ (Keeps-reads _)
              λ _. Keeps-bind _ _ (deposit_through-events _ _ _ _ _) λ _. Keeps-pure _)

    book_resize-events :
        (channel : Channel Decimal) (x : String) (d : Decimal)
        → Keeps events (book_resize channel x d)
    unfolding book_resize
    book_resize-events channel x d = Keeps-if _ _ _ (deposit_through-events _ _ _ _ _) (
        Keeps-if _ _ _
          (Keeps-bind _ _ (record_entry-events _ _ _ _ _) λ _. journal_end-events _ _ _ _ _)
          (Keeps-pure _))

    pub record_resized-Recorded :
        (c : Custody) (ev : ResizedEvent) (d e : ℤ) (s : State Decimal)
        → Ensures s (record_resized c ev d e) (λ _ t. Recorded c ev.raw s t)
    unfolding record_resized
    record_resized-Recorded c ev d e s = save-bind c "resized" ev.raw _ s (
        Keeps-bind _ _ (Keeps-reads _) λ channel. Keeps-bind _ _ (Keeps-guard _ _) λ _.
          Keeps-bind _ _ (save_channel-events _) λ _.
            Keeps-bind _ _
              (Keeps-if _ _ _ (Keeps-pure _)
                (Keeps-bind _ _ (Keeps-reads _) λ _. book_resize-events _ _ _))
              λ _. Keeps-pure _)

    unlock_escrow-events :
        (channel : Channel Decimal) (x : String) (d : Decimal)
        → Keeps events (unlock_escrow channel x d)
    unfolding unlock_escrow
    unlock_escrow-events channel x d = Keeps-if _ _ _ (Keeps-pure _) (
        Keeps-bind _ _ (record_entry-events _ _ _ _ _)
          λ _. Keeps-bind _ _ (record_entry-events _ _ _ _ _) λ _. journal_end-events _ _ _ _ _)

    pay_out-events :
        (channel : Channel Decimal) (x : String) (d : Decimal) → Keeps events (pay_out channel x d)
    unfolding pay_out
    pay_out-events channel x d = Keeps-bind _ _ (record_entry-events _ _ _ _ _) λ _.
        Keeps-bind _ _ (record_entry-events _ _ _ _ _)
          λ _. Keeps-bind _ _ (record_entry-events _ _ _ _ _) λ _. journal_end-events _ _ _ _ _

    pub record_closed-Recorded :
        (c : Custody) (ev : ClosedEvent) (s : State Decimal)
        → Ensures s (record_closed c ev) (λ _ t. Recorded c ev.raw s t)
    unfolding record_closed
    record_closed-Recorded c ev s = save-bind c "closed" ev.raw _ s (
        Keeps-bind _ _ (Keeps-reads _) λ _. Keeps-bind _ _ (Keeps-reads _) λ _.
          Keeps-bind _ _ (Keeps-reads _) λ _. Keeps-bind _ _ (Keeps-reads _) λ _.
            Keeps-bind _ _ (unlock_escrow-events _ _ _) λ _.
              Keeps-bind _ _ (pay_out-events _ _ _)
                λ _. Keeps-bind _ _ (save_channel-events _) λ _. Keeps-pure _)
