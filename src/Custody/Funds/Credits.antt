-- ===== src/Custody/Funds/Credits.antt =====
-- Creating a channel credits its wallet.
use wthelly.Base.{ℕ, ◌≡◌, sym, ◌∙◌, arith, Bool, true, false, String, some, List, get_elem?}
use wthelly.Base.Int.{ℤ, pos, ◌+ℤ◌, ◌-ℤ◌, part, int_laws, +ℤ_zero}
use wthelly.Effect.{ok}
use wthelly.Effect.Rules.{
  Ensures, Ensures-bind, Ensures-reads, Ensures-reads-bind, Ensures-guard-bind,
}
use wthelly.Effect.Keeps.{Keeps, Keeps-pure, Keeps-reads}
use wthelly.Money.{DecimalOps, Addresses}
use wthelly.Store.{State, UnsignedState}
use wthelly.Store.Transaction.{Ensures-transaction}
use wthelly.Channels.{create_channel}
use wthelly.Assets.{AssetTokenConfig}
use wthelly.Ledger.{new_account_id}
use wthelly.Ledger.Value.{Rows, value_of}
use wthelly.Ledger.Changes.{
  ledger, Changes, Ensures-Changes-mono, Keeps-Changes, Changes-bind, Changes-Keeps-bind,
}
use wthelly.Custody.{
  Custody, CreatedEvent, EventAllocation, Notification, asset_token, raw_to_decimal,
  deposit_through,
}
use wthelly.Custody.Created.{record_created, handle_created}
use wthelly.Custody.Funds.{
  same_some, or_fail-ok, save_contract_event-ledger, journal_end-ledger, book-then,
}

through : (i j : Bool) (x : ℤ) → part i x +ℤ (part i (pos 0 -ℤ x) +ℤ (part j x +ℤ pos 0)) ≡ part j x
through true true x = omega int_laws
through true false x = omega int_laws
through false true x = omega int_laws
through false false x = omega int_laws

module _ {Decimal : Type 0} ⦃dec : DecimalOps Decimal⦄ ⦃adr : Addresses⦄ where
  open dec use {units, neg, units-neg, is_zero, is_zero_lem, units-zero_d}

  -- A deposit through a channel's account changes only the wallet's own.
  deposit_through-Changes :
      (w ch own x : String) (d : Decimal) (s : State Decimal)
      → Ensures s
          (deposit_through w ch own x d)
          (λ _ t. Changes (λ p. part (p own x w) (units d)) s t)
  unfolding deposit_through
  deposit_through-Changes w ch own x d s =
      Ensures-Changes-mono _
        (book-then _ _ _ _ _ s λ t.
          book-then _ _ _ _ _ t
            λ u. book-then _ _ _ _ _ u λ v. Keeps-Changes _ (journal_end-ledger _ _ _ _ _))
        λ p. rw units-neg (through (p ch x w) (p own x w) (units d))

  create_channel-ledger :
      (i w p : String) (n ch : ℕ) (adj : String) (chain : ℕ) (tok : String) (d : Decimal)
      (st : UnsignedState Decimal)
      → Keeps ledger (create_channel i w p n ch adj chain tok d st)
  unfolding create_channel
  create_channel-ledger i w p n ch adj chain tok d st = record { at = λ s. ground arith }

  creates :
      (c : Custody) (ev : CreatedEvent) (participant : String) (initial : EventAllocation)
      (s : State Decimal) {asset : AssetTokenConfig}
      → asset_token c initial.token ≡ some asset
      → Ensures s (record_created c ev participant initial) (λ _ t.
        Changes
          (λ p.
            part
              (p (new_account_id ev.wallet) asset.symbol ev.wallet)
              (units (raw_to_decimal (some initial.amount) asset.token.decimals)))
          s
          t)
  unfolding record_created
  creates c ev participant initial s known =
      Changes-Keeps-bind _ _ (save_contract_event-ledger c "created" ev.raw) λ _ t _.
        Changes-Keeps-bind _ _ (Keeps-reads _) λ _ u _.
          Changes-Keeps-bind _ _ (create_channel-ledger _ _ _ _ _ _ _ _ _ _) λ ch v _.
            Ensures-reads-bind _ _ λ a supported.
              rw (same_some (sym (or_fail-ok _ _ supported) ∙ known)) (
                Ensures-Changes-mono _
                  (Changes-bind _ _ (deposit_through-Changes _ _ _ _ _ v)
                    λ _ w. Keeps-Changes _ (Keeps-pure ch))
                  λ p. +ℤ_zero _)

  handle_created-Changes :
      (c : Custody) (ev : CreatedEvent) (s : State Decimal) {initial : EventAllocation}
      {asset : AssetTokenConfig}
      → get_elem? ev.initial.allocations 0 ≡ some initial
      → asset_token c initial.token ≡ some asset
      → Ensures s (handle_created c ev) (λ _ t.
        Changes
          (λ p.
            part
              (p (new_account_id ev.wallet) asset.symbol ev.wallet)
              (units (raw_to_decimal (some initial.amount) asset.token.decimals)))
          s
          t)
  unfolding handle_created
  handle_created-Changes c ev s first known = Ensures-guard-bind _ _ _ λ _.
      Ensures-reads-bind _ _ λ participant _. Ensures-reads-bind _ _ λ _ _.
        Ensures-reads-bind _ _ λ i listed. Ensures-reads-bind _ _ λ _ _.
          Ensures-guard-bind _ _ _ λ _. Ensures-guard-bind _ _ _ λ _. Ensures-guard-bind _ _ _ λ _.
            Ensures-guard-bind _ _ _ λ _. rw (same_some (sym (or_fail-ok _ _ listed) ∙ first)) (
              Ensures-bind _ _ (Ensures-transaction _ (creates c ev participant _ s known))
                λ _ t q. Ensures-reads _ λ _ _. q)

  -- When a channel is created, the wallet's own account is worth more by what the channel holds. No
  -- other row is: a choice of rows gains the amount if it covers the account's, and else nothing.
  pub created-credits :
      (c : Custody) (ev : CreatedEvent) (s : State Decimal) (initial : EventAllocation)
      (asset : AssetTokenConfig) {ns : List (Notification Decimal)}
      → get_elem? ev.initial.allocations 0 ≡ some initial
      → asset_token c initial.token ≡ some asset
      → (handle_created c ev s).0 ≡ ok ns
      → (p : Rows)
      → value_of p (handle_created c ev s).1.db.ledger
        ≡ value_of p s.db.ledger
          +ℤ part
              (p (new_account_id ev.wallet) asset.symbol ev.wallet)
              (units (raw_to_decimal (some initial.amount) asset.token.decimals))
  created-credits c ev s initial asset {ns} first known h p =
      ((handle_created-Changes c ev s first known).at ns h).at p
