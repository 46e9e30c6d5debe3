-- ===== src/Channels/Service/Resize/Solvent.antt =====
-- What RequestResize keeps: the worth of what each wallet has, and that no wallet's own account is below
-- zero.
use mathlib.Core.Path.{subst}
use wthelly.Base.{not-true, ℕ, ◌≡◌, refl, sym, ◌∙◌, arith, String, true, false, not, none, List}
use wthelly.Base.Int.{ℤ, pos, ◌+ℤ◌, ◌-ℤ◌, ◌≤ℤ◌, ltb_ℤ, int_laws, parts_of_eq, part-neg}
use wthelly.Effect.{pure, modify, ◌>>=◌, ◌>>◌}
use wthelly.Money.{DecimalOps, Addresses}
use wthelly.Money.Exact.{units-opposite}
use wthelly.Store.{State, Channel, Entry, escrow_lock}
use wthelly.Assets.{AssetTokenConfig}
use wthelly.Custody.{raw_to_decimal}
use wthelly.Ledger.{new_account_id, book, record_entry}
use wthelly.Transactions.{record_ledger_transaction}
use wthelly.Ledger.Value.{value_of, value_of-book}
use wthelly.Ledger.Balance.{row, funds, units-balance}
use wthelly.Ledger.Moves.{Moved, IsSolvent}
use wthelly.Ledger.Conserved.{Conserved, Conserved-start, Conserved-Moved}
use wthelly.Effect.Rules.{
  Ensures, Ensures-guard, Ensures-reads, Ensures-if, Ensures-pure, Ensures-bind, Ensures-guard-bind,
  Ensures-reads-bind,
}
use wthelly.Effect.Keeps.{Ensures-Keeps-bind}
use wthelly.Store.Transaction.{Ensures-transaction}
use wthelly.Channels.{save_channel}
use wthelly.Custody.Funds.{save_channel-ledger}
use wthelly.Channels.Service.Resize.{
  lock_escrow, as_resizing, check_amounts, start_resize, request_resize,
}
use wthelly.Channels.Service.{ChannelService, ResizeChannelParams}

-- `held` covers what a resize of `resize` takes out, in units of either scale: all that the checks of
-- the amounts say of these numbers
covered :
    (held raw resize out : ℤ)
    → ltb_ℤ held raw ≡ false
    → ltb_ℤ (raw +ℤ resize) (pos 0) ≡ false
    → resize ≤ℤ out
    → pos 0 -ℤ out ≤ℤ held
unfolding ◌+ℤ◌ ◌-ℤ◌
covered held raw resize out h k l = ground arith

not_less : (a b : ℤ) → b ≤ℤ a → ltb_ℤ a b ≡ false
not_less a b h = ground arith

le_of_not_less : (a b : ℤ) → ltb_ℤ a b ≡ false → b ≤ℤ a
le_of_not_less a b h = ground arith

opposite-nonneg : (a : ℤ) → a ≤ℤ pos 0 → pos 0 ≤ℤ pos 0 -ℤ a
opposite-nonneg a h = omega int_laws

module _ {Decimal : Type 0} ⦃dec : DecimalOps Decimal⦄ where
  open dec use {
    neg, units-neg, add, zero_d, less_than, units-add, units-zero_d, less_than_lem, units,
    from_big_int, big_int, shift, units-from_big_int, less_than-shift, units-shift_from_big_int,
    big_int_of_negative, from_big_int_pos,
  }

  -- The checks of the amounts, in the units of the ledger.
  pub covers_withdrawal :
      (held raw resize : Decimal) (decimals : ℕ)
      → ltb_ℤ (units resize) (pos 0) ≡ true
      → ltb_ℤ (units (shift held decimals)) (units raw) ≡ false
      → ltb_ℤ (units raw +ℤ units resize) (pos 0) ≡ false
      → pos 0 -ℤ units (from_big_int (big_int resize) decimals) ≤ℤ units held
  covers_withdrawal held raw resize decimals neg h k =
      let n : ℤ = big_int resize in
      let needed : pos 0 -ℤ units (from_big_int n 0) ≤ℤ units (shift held decimals) =
        covered _ (units raw) (units resize) _ h k (big_int_of_negative resize neg).0 in
      let shifted : units (shift (from_big_int (pos 0 -ℤ n) decimals) decimals)
          ≤ℤ units (shift held decimals) =
        rw (units-shift_from_big_int, units-opposite dec n 0) needed in
      rw (← units-opposite dec n decimals) (
        le_of_not_less (units held) (units (from_big_int (pos 0 -ℤ n) decimals)) (
          sym (less_than-shift held (from_big_int (pos 0 -ℤ n) decimals) decimals)
          ∙ not_less (units (shift held decimals))
              (units (shift (from_big_int (pos 0 -ℤ n) decimals) decimals)) shifted))

  -- What a withdrawal takes out is not negative, as an amount that leaves the wallet's account.
  pub withdrawal-nonneg :
      (resize : Decimal) (decimals : ℕ)
      → ltb_ℤ (units resize) (pos 0) ≡ true
      → pos 0 ≤ℤ pos 0 -ℤ units (from_big_int (big_int resize) decimals)
  withdrawal-nonneg resize decimals neg = opposite-nonneg _ (
      le_of_not_less (pos 0) (units (from_big_int (big_int resize) decimals)) (
        from_big_int_pos (big_int resize) decimals
        ∙ sym (from_big_int_pos (big_int resize) 0)
        ∙ not_less (pos 0) (units (from_big_int (big_int resize) 0))
            (big_int_of_negative resize neg).1))

  -- A movement of what is below zero goes the other way.
  pub book-book-withdrawn :
      (wallet own ch asset : String) (amount : Decimal) (es : List (Entry Decimal))
      → Moved wallet own ch asset
          (pos 0 -ℤ units amount)
          es
          (book wallet ch asset (neg amount) none (book wallet own asset amount none es))
  book-book-withdrawn wallet own ch asset amount es = record {
    at = λ p.
        rw (value_of-book, value_of-book, units-neg)
          (omega (int_laws, parts_of_eq _ _ (part-neg (p own asset wallet) (units amount))));
  }

  locked :
      {es : List (Entry Decimal)} (w own ch x : String) (d : Decimal) (t : State Decimal)
      → Conserved es t.db.ledger
      → pos 0 ≤ℤ pos 0 -ℤ units d
      → pos 0 -ℤ units d ≤ℤ funds w own x t
      → Ensures t
          (record_entry w own x d none
            >> (record_entry w ch x (neg d) none
                >> (record_ledger_transaction escrow_lock own ch x d >>= λ _. pure (tt {0}))))
          (λ _ u. Conserved es u.db.ledger)
  unfolding record_entry modify ◌>>=◌ record_ledger_transaction
  locked w own ch x d t c n cover = record {
    at = λ _ _.
        Conserved-Moved c (book-book-withdrawn w own ch x d t.db.ledger) n λ same.
          subst (λ a. pos 0 -ℤ units d ≤ℤ value_of (row a x w) t.db.ledger) (sym same) cover;
  }

  pub below_zero : (x : Decimal) → less_than x zero_d ≡ true → ltb_ℤ (units x) (pos 0) ≡ true
  below_zero x h =
      subst (λ z. ltb_ℤ (units x) z ≡ true) units-zero_d (sym (less_than_lem x zero_d) ∙ h)

  pub not_below : (x y : Decimal) → not (less_than x y) ≡ true → ltb_ℤ (units x) (units y) ≡ false
  not_below x y h = sym (less_than_lem x y) ∙ not-true _ h

  pub stays_above :
      (raw resize : Decimal)
      → not (less_than (add raw resize) zero_d) ≡ true
      → ltb_ℤ (units raw +ℤ units resize) (pos 0) ≡ false
  stays_above raw resize h =
      subst (λ y. ltb_ℤ y (pos 0) ≡ false) (units-add raw resize)
        (subst (λ z. ltb_ℤ (units (add raw resize)) z ≡ false) units-zero_d
          (not_below (add raw resize) zero_d h))

  module _ ⦃adr : Addresses⦄ where
    lock_escrow-Conserved :
        {es : List (Entry Decimal)} (channel : Channel Decimal) (asset : AssetTokenConfig)
        (resize raw held : Decimal) {t : State Decimal}
        → Conserved es t.db.ledger
        → units held
          ≡ funds (adr.hex_address channel.wallet) (new_account_id channel.wallet) asset.symbol t
        → not (less_than (shift held asset.token.decimals) raw) ≡ true
        → not (less_than (add raw resize) zero_d) ≡ true
        → Ensures t (lock_escrow channel asset resize) (λ _ u. Conserved es u.db.ledger)
    unfolding lock_escrow raw_to_decimal
    lock_escrow-Conserved channel asset resize raw held {t} c worth enough positive =
        Ensures-if (less_than resize zero_d) _ _
          (λ below.
            locked _ _ _ _ _ t c
              (withdrawal-nonneg resize asset.token.decimals (below_zero resize below))
              (subst (λ v. pos 0 -ℤ units (from_big_int (big_int resize) asset.token.decimals) ≤ℤ v)
                worth
                (covers_withdrawal held raw resize asset.token.decimals (below_zero resize below)
                  (not_below _ raw enough) (stays_above raw resize positive))))
          λ _. Ensures-pure _ c

    -- what the checks of the amounts establish of the ledger's rows
    pub record Checked (channel : Channel Decimal) (asset : AssetTokenConfig) (raw resize : Decimal)
        (es : List (Entry Decimal)) : Type 0 where
      pub held : Decimal
      pub worth :
          units held
          ≡ value_of
              (row (new_account_id channel.wallet) asset.symbol (adr.hex_address channel.wallet))
              es
      pub enough : not (less_than (shift held asset.token.decimals) raw) ≡ true
      pub positive : not (less_than (add raw resize) zero_d) ≡ true

    pub check_amounts-Checked :
        (channel : Channel Decimal) (asset : AssetTokenConfig) (allocate resize : Decimal)
        (s : State Decimal)
        → Ensures s (check_amounts channel asset allocate resize) (λ _ t.
          (t.db.ledger ≡ s.db.ledger)
          × Checked channel asset (add channel.raw_amount allocate) resize s.db.ledger)
    unfolding check_amounts
    check_amounts-Checked channel asset allocate resize s = Ensures-guard-bind _ _ _ λ _.
        Ensures-reads-bind _ _ λ held has. Ensures-guard-bind _ _ _ λ enough.
          Ensures-guard _ _ λ positive. (
            refl,
            record {
              held = held;
              worth = units-balance _ _ _ s has;
              enough = enough;
              positive = positive;
            },
          )

    -- the steps of the transaction after its reads
    lock_checked-Conserved :
        (channel : Channel Decimal) (asset : AssetTokenConfig) (allocate resize : Decimal)
        (s : State Decimal)
        → IsSolvent s.db.ledger
        → Ensures s
            (check_amounts channel asset allocate resize
              >> (save_channel (as_resizing channel)
                  >> (lock_escrow channel asset resize >> pure (as_resizing channel))))
            (λ _ t. Conserved s.db.ledger t.db.ledger)
    lock_checked-Conserved channel asset allocate resize s v =
        Ensures-bind _ _ (check_amounts-Checked channel asset allocate resize s) λ _ t checked.
          Ensures-Keeps-bind _ _ (save_channel-ledger (as_resizing channel)) λ _ u _ same.
            let kept : u.db.ledger ≡ s.db.ledger = same ∙ checked.0 in
            let c = checked.1 in
            Ensures-bind _ _
              (lock_escrow-Conserved channel asset resize (add channel.raw_amount allocate) c.held
                (rw kept (Conserved-start v)) (rw kept c.worth) c.enough c.positive)
              λ _ _ d. Ensures-pure _ d

    start_resize-Conserved :
        (service : ChannelService) (params : ResizeChannelParams Decimal) (signers : List String)
        (s : State Decimal)
        → IsSolvent s.db.ledger
        → Ensures s (start_resize service params signers) (λ _ t. Conserved s.db.ledger t.db.ledger)
    unfolding start_resize
    start_resize-Conserved service params signers s v = Ensures-reads-bind _ _ λ channel _.
        Ensures-reads-bind _ _ λ _ _. Ensures-guard-bind _ _ _ λ _. Ensures-guard-bind _ _ _ λ _.
          Ensures-guard-bind _ _ _
            λ _. Ensures-reads-bind _ _ λ asset _. lock_checked-Conserved channel asset _ _ s v

    pub request_resize-Conserved :
        (service : ChannelService) (params : ResizeChannelParams Decimal) (signers : List String)
        (s : State Decimal)
        → IsSolvent s.db.ledger
        → Ensures s
            (request_resize service params signers)
            (λ _ t. Conserved s.db.ledger t.db.ledger)
    unfolding request_resize
    request_resize-Conserved service params signers s v =
        Ensures-bind _ _ (Ensures-transaction _ (start_resize-Conserved service params signers s v))
          λ _ t c. Ensures-reads _ λ _ _. c
