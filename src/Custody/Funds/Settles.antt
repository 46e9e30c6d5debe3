-- ===== src/Custody/Funds/Settles.antt =====
-- Closing a channel settles the accounts of its wallet.
use wthelly.Base.{
  ◌≡◌, ◌≢◌, refl, sym, ap, ◌∙◌, arith, Bool, true, false, eq_iff, eq_refl, String, some, List,
  get_elem?,
}
use wthelly.Base.Int.{ℤ, pos, ◌+ℤ◌, ◌-ℤ◌, eq_ℤ, part, int_laws, eq_of_parts}
use wthelly.Effect.{ok, pure, ◌>>◌}
use wthelly.Effect.Rules.{
  Ensures, Ensures-bind, Ensures-mono, Ensures-if, Ensures-reads, Ensures-reads-bind, ok-injective,
}
use wthelly.Effect.Keeps.{Keeps-pure, Keeps-bind, Ensures-Keeps-bind}
use wthelly.Money.{DecimalOps, Addresses}
use wthelly.Store.{State, Channel}
use wthelly.Store.Transaction.{Ensures-transaction}
use wthelly.Channels.{get_channel_by_id, save_channel}
use wthelly.Assets.{AssetTokenConfig}
use wthelly.Ledger.{new_account_id}
use wthelly.Ledger.Value.{Rows, value_of}
use wthelly.Ledger.Balance.{row, funds, units-balance}
use wthelly.Ledger.Changes.{ledger, Changes, Ensures-Changes-mono, Keeps-Changes, Changes-bind}
use wthelly.Custody.{
  Custody, EventAllocation, ClosedEvent, Notification, asset_token, raw_to_decimal,
}
use wthelly.Custody.Closed.{unlock_escrow, pay_out, record_closed, handle_closed}
use wthelly.Custody.Funds.{
  same_some, or_fail-ok, same_channels, save_contract_event-tables, save_channel-ledger,
  journal_end-ledger, book-then,
}

zero_of_test : (a : ℤ) → eq_ℤ a (pos 0) ≡ true → a ≡ pos 0
zero_of_test a h = ground (arith, eq_of_parts a (pos 0))

nothing_moves : (a b : Bool) → pos 0 ≡ part a (pos 0 -ℤ pos 0) +ℤ (part b (pos 0) +ℤ pos 0)
unfolding ◌-ℤ◌ ◌+ℤ◌
nothing_moves true true = refl
nothing_moves true false = refl
nothing_moves false true = refl
nothing_moves false false = refl

-- what a choice of rows gains that covers the channel's row or not, and the wallet's own or not
abbrev gained : Bool → Bool → ℤ → ℤ → ℤ
gained i j l o =
    part i (pos 0 -ℤ l)
    +ℤ (part j l +ℤ pos 0)
    +ℤ (part j (pos 0 -ℤ o) +ℤ (part i o +ℤ (part i (pos 0 -ℤ o) +ℤ pos 0)) +ℤ pos 0)

gained_channel : (l o : ℤ) → l +ℤ gained true false l o ≡ pos 0
gained_channel l o = omega int_laws

gained_own : (v l o : ℤ) → v +ℤ gained false true l o ≡ v +ℤ l -ℤ o
gained_own v l o = omega int_laws

gained_none : (v l o : ℤ) → v +ℤ gained false false l o ≡ v
gained_none v l o = omega int_laws

row_self : (a x w : String) → row a x w a x w ≡ true
row_self a x w = rw (eq_refl, eq_refl, eq_refl) refl

row_apart : (a b x w : String) → b ≢ a → row a x w b x w ≡ false
row_apart a b x w h = ground (arith, eq_iff b a)

module _ {Decimal : Type 0} ⦃dec : DecimalOps Decimal⦄ ⦃adr : Addresses⦄ where
  open dec use {units, neg, units-neg, is_zero, is_zero_lem, units-zero_d}

  -- what the rows gain when all that is locked in the channel's account goes to the wallet's own
  abbrev unlocked : String → String → String → String → Decimal → Rows → ℤ
  unlocked w ch own x d p = part (p ch x w) (units (neg d)) +ℤ (part (p own x w) (units d) +ℤ pos 0)

  -- what the rows gain when an amount leaves the wallet's own account through the channel's
  abbrev paid : String → String → String → String → Decimal → Rows → ℤ
  paid w ch own x d p =
      part (p own x w) (units (neg d))
      +ℤ (part (p ch x w) (units d) +ℤ (part (p ch x w) (units (neg d)) +ℤ pos 0))

  unlock_escrow-Changes :
      (channel : Channel Decimal) (x : String) (d : Decimal) (s : State Decimal)
      → Ensures s (unlock_escrow channel x d) (λ _ t.
        Changes
          (unlocked
            (adr.hex_address channel.wallet)
            (new_account_id channel.channel_id)
            (new_account_id channel.wallet)
            x
            d)
          s
          t)
  unfolding unlock_escrow
  unlock_escrow-Changes channel x d s =
      Ensures-if _ _ _
        (λ zero. Ensures-Changes-mono _ (Keeps-Changes _ (Keeps-pure _)) λ p.
          rw (units-neg, zero_of_test (units d) (sym (is_zero_lem d) ∙ zero)) (nothing_moves _ _))
        λ _.
          book-then _ _ _ _ _ s
            λ t. book-then _ _ _ _ _ t λ u. Keeps-Changes _ (journal_end-ledger _ _ _ _ _)

  pay_out-Changes :
      (channel : Channel Decimal) (x : String) (d : Decimal) (s : State Decimal)
      → Ensures s (pay_out channel x d) (λ _ t.
        Changes
          (paid
            (adr.hex_address channel.wallet)
            (new_account_id channel.channel_id)
            (new_account_id channel.wallet)
            x
            d)
          s
          t)
  unfolding pay_out
  pay_out-Changes channel x d s = book-then _ _ _ _ _ s λ t.
      book-then _ _ _ _ _ t
        λ u. book-then _ _ _ _ _ u λ v. Keeps-Changes _ (journal_end-ledger _ _ _ _ _)

  -- What closing leaves: the wallet has nothing in the channel's account, and in its own what both
  -- held less what the chain paid out. All other choices of rows are worth what they were.
  pub record Settled (w ch own asset : String) (out : ℤ) (s t : State Decimal) : Type 0 where
    pub drained : funds w ch asset t ≡ pos 0
    pub settled : funds w own asset t ≡ funds w own asset s +ℤ funds w ch asset s -ℤ out
    pub others :
        (p : Rows)
        → p ch asset w ≡ false
        → p own asset w ≡ false
        → value_of p t.db.ledger ≡ value_of p s.db.ledger

  -- the gain of closing
  abbrev gain : String → String → String → String → Decimal → Decimal → Rows → ℤ
  gain w ch own x locked out p = unlocked w ch own x locked p +ℤ (paid w ch own x out p +ℤ pos 0)

  gain-at :
      (w ch own x : String) (locked out : Decimal) (p : Rows) (i j : Bool)
      → p ch x w ≡ i
      → p own x w ≡ j
      → gain w ch own x locked out p ≡ gained i j (units locked) (units out)
  gain-at w ch own x locked out p i j h k = rw (h, k, units-neg, units-neg) refl

  Changes-Settled :
      (w ch own x : String) (locked out : Decimal) (s t : State Decimal)
      → own ≢ ch
      → units locked ≡ funds w ch x s
      → Changes (gain w ch own x locked out) s t
      → Settled w ch own x (units out) s t
  Changes-Settled w ch own x locked out s t apart worth c = record {
    drained =
        c.at (row ch x w)
        ∙ ap (λ g. funds w ch x s +ℤ g)
            (gain-at w ch own x locked out (row ch x w) true false (row_self ch x w)
              (row_apart ch own x w apart))
        ∙ ap (λ v. v +ℤ gained true false (units locked) (units out)) (sym worth)
        ∙ gained_channel (units locked) (units out);
    settled =
        c.at (row own x w)
        ∙ ap (λ g. funds w own x s +ℤ g)
            (gain-at w ch own x locked out (row own x w) false true
              (row_apart own ch x w λ e. apart (sym e)) (row_self own x w))
        ∙ gained_own (funds w own x s) (units locked) (units out)
        ∙ ap (λ v. funds w own x s +ℤ v -ℤ units out) worth;
    others = λ p h k.
        c.at p
        ∙ ap (λ g. value_of p s.db.ledger +ℤ g) (gain-at w ch own x locked out p false false h k)
        ∙ gained_none (value_of p s.db.ledger) (units locked) (units out);
  }

  Changes-from :
      {f : Rows → ℤ} {s t u : State Decimal} → ledger t ≡ ledger s → Changes f t u → Changes f s u
  Changes-from {f} e c = record { at = λ p. c.at p ∙ ap (λ es. value_of p es +ℤ f p) e }

  -- the steps of closing that change the ledger
  settle-Changes :
      (channel done : Channel Decimal) (x : String) (locked out : Decimal) (t : State Decimal)
      → Ensures t
          (unlock_escrow channel x locked
            >> (pay_out channel x out >> (save_channel done >> pure done)))
          (λ _ u.
            Changes
              (gain
                (adr.hex_address channel.wallet)
                (new_account_id channel.channel_id)
                (new_account_id channel.wallet)
                x
                locked
                out)
              t
              u)
  settle-Changes channel done x locked out t =
      Changes-bind _ _ (unlock_escrow-Changes channel x locked t) λ _ u.
        Changes-bind _ _ (pay_out-Changes channel x out u)
          λ _ v. Keeps-Changes _ (Keeps-bind _ _ (save_channel-ledger done) λ _. Keeps-pure _)

  closes :
      (c : Custody) (ev : ClosedEvent) (s : State Decimal) {channel : Channel Decimal}
      {asset : AssetTokenConfig} {final : EventAllocation}
      → get_channel_by_id ev.channel_id s.db ≡ ok channel
      → asset_token c channel.token ≡ some asset
      → get_elem? ev.final_state.allocations 0 ≡ some final
      → new_account_id channel.wallet ≢ new_account_id channel.channel_id
      → Ensures s (record_closed c ev) (λ _ t.
        Settled
          (adr.hex_address channel.wallet)
          (new_account_id channel.channel_id)
          (new_account_id channel.wallet)
          asset.symbol
          (units (raw_to_decimal (some final.amount) asset.token.decimals))
          s
          t)
  unfolding record_closed
  closes c ev s {channel} {asset} {final} found known allocated apart =
      Ensures-Keeps-bind _ _ (save_contract_event-tables c "closed" ev.raw) λ _ t _ same.
        Ensures-reads-bind _ _ λ ch here.
          let e : ch ≡ channel =
            ok-injective
              (sym here ∙ same_channels ev.channel_id t s (ap (λ z. z.0) same) ∙ found) in
          Ensures-reads-bind _ _ λ a supported.
            let e' : a ≡ asset =
              same_some
                (sym (or_fail-ok _ _ supported) ∙ ap (λ z. asset_token c z.token) e ∙ known) in
            Ensures-reads-bind _ _ λ f listed. Ensures-reads-bind _ _ λ locked held.
              let worth : units locked
                  ≡ funds (adr.hex_address channel.wallet) (new_account_id channel.channel_id)
                      asset.symbol s =
                units-balance _ _ _ t held
                ∙ ap
                    (λ z. funds (adr.hex_address z.wallet) (new_account_id z.channel_id) a.symbol t)
                    e
                ∙ ap
                    (λ z.
                      funds (adr.hex_address channel.wallet) (new_account_id channel.channel_id)
                        z.symbol t)
                    e'
                ∙ ap
                    (value_of (
                      row (new_account_id channel.channel_id) asset.symbol
                        (adr.hex_address channel.wallet)))
                    (ap (λ z. z.1) same) in
              rw (e, e', same_some (sym (or_fail-ok _ _ listed) ∙ allocated))
                (Ensures-mono _ (settle-Changes channel _ asset.symbol locked _ t) λ _ u changed.
                  Changes-Settled _ _ _ _ locked _ s u apart worth
                    (Changes-from (ap (λ z. z.1) same) changed))

  handle_closed-Settled :
      (c : Custody) (ev : ClosedEvent) (s : State Decimal) {channel : Channel Decimal}
      {asset : AssetTokenConfig} {final : EventAllocation}
      → get_channel_by_id ev.channel_id s.db ≡ ok channel
      → asset_token c channel.token ≡ some asset
      → get_elem? ev.final_state.allocations 0 ≡ some final
      → new_account_id channel.wallet ≢ new_account_id channel.channel_id
      → Ensures s (handle_closed c ev) (λ _ t.
        Settled
          (adr.hex_address channel.wallet)
          (new_account_id channel.channel_id)
          (new_account_id channel.wallet)
          asset.symbol
          (units (raw_to_decimal (some final.amount) asset.token.decimals))
          s
          t)
  unfolding handle_closed
  handle_closed-Settled c ev s found known allocated apart =
      Ensures-bind _ _ (Ensures-transaction _ (closes c ev s found known allocated apart))
        λ _ t q. Ensures-reads _ λ _ _. q

  -- When a channel closes whose account is not its wallet's own, the wallet has nothing left in the
  -- channel's account in the channel's asset, and in its own account what it had in both less what
  -- the chain paid out to it. Every other choice of rows is worth what it was.
  pub closed-settles :
      (c : Custody) (ev : ClosedEvent) (s : State Decimal) (channel : Channel Decimal)
      (asset : AssetTokenConfig) (final : EventAllocation) {ns : List (Notification Decimal)}
      → get_channel_by_id ev.channel_id s.db ≡ ok channel
      → asset_token c channel.token ≡ some asset
      → get_elem? ev.final_state.allocations 0 ≡ some final
      → new_account_id channel.wallet ≢ new_account_id channel.channel_id
      → (handle_closed c ev s).0 ≡ ok ns
      → Settled
          (adr.hex_address channel.wallet)
          (new_account_id channel.channel_id)
          (new_account_id channel.wallet)
          asset.symbol
          (units (raw_to_decimal (some final.amount) asset.token.decimals))
          s
          (handle_closed c ev s).1
  unfolding handle_closed
  closed-settles c ev s channel asset final {ns} found known allocated apart h =
      (handle_closed-Settled c ev s found known allocated apart).at ns h
