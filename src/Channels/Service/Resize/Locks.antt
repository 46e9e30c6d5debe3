-- ===== src/Channels/Service/Resize/Locks.antt =====
-- What RequestResize locks: the amount that is to be withdrawn, out of what the wallet has.
use mathlib.Core.Path.{subst}
use wthelly.Base.{ℕ, ◌≡◌, refl, sym, ◌∙◌, String, Bool, true, false, none, some, List}
use wthelly.Base.Int.{ℤ, pos, ◌-ℤ◌, ◌≤ℤ◌, ltb_ℤ, part}
use wthelly.Effect.{ok, pure, modify, ◌>>=◌, ◌>>◌}
use wthelly.Money.{DecimalOps, Addresses}
use wthelly.Store.{State, Channel, Entry, escrow_lock}
use wthelly.Store.Transaction.{Ensures-transaction}
use wthelly.Assets.{AssetTokenConfig}
use wthelly.Custody.{raw_to_decimal}
use wthelly.Custody.Funds.{or_fail-ok, save_channel-ledger}
use wthelly.Ledger.{new_account_id, record_entry}
use wthelly.Ledger.Balance.{funds}
use wthelly.Ledger.Moves.{Moved, IsSolvent}
use wthelly.Ledger.Conserved.{Conserved}
use wthelly.Transactions.{record_ledger_transaction}
use wthelly.Effect.Rules.{
  Ensures, Ensures-reads, Ensures-if, Ensures-pure, Ensures-mono, Ensures-bind, Ensures-guard-bind,
  Ensures-reads-bind,
}
use wthelly.Effect.Keeps.{Ensures-Keeps-bind}
use wthelly.Channels.{get_channel_by_id, save_channel}
use wthelly.Channels.Service.{
  ChannelService, ResizeChannelParams, ChannelOperationResponse, token_of,
}
use wthelly.Channels.Service.Resize.{
  lock_escrow, as_resizing, amount_or_zero, check_amounts, start_resize, request_resize,
}
use wthelly.Channels.Service.Resize.Solvent.{
  Checked, check_amounts-Checked, covers_withdrawal, withdrawal-nonneg, book-book-withdrawn,
  below_zero, not_below, stays_above, request_resize-Conserved,
}

part_zero : (b : Bool) → part b (pos 0) ≡ pos 0
part_zero true = refl
part_zero false = refl

absurd_test : {P : Type 0} → false ≡ true → P
absurd_test e = cc

module _ {Decimal : Type 0} ⦃dec : DecimalOps Decimal⦄ where
  open dec use {neg, units, from_big_int, big_int, less_than, zero_d, less_than_lem, units-zero_d}

  -- What moves between the ledgers `es` and `es'` when the amount of a channel changes by `resize`.
  -- A withdrawal moves its whole smallest units, which the wallet has, from the wallet's account to the
  -- channel's; where nothing is withdrawn nothing moves.
  pub record Locked (w own ch x : String) (resize : Decimal) (decimals : ℕ) (out : ℤ)
      (s t : State Decimal) : Type 0 where
    pub withdrawn :
        ltb_ℤ (units resize) (pos 0) ≡ true
        → (out ≡ pos 0 -ℤ units (from_big_int (big_int resize) decimals))
          × (pos 0 ≤ℤ out)
          × (out ≤ℤ funds w own x s)
    pub untouched : ltb_ℤ (units resize) (pos 0) ≡ false → out ≡ pos 0
    pub moved : Moved w own ch x out s.db.ledger t.db.ledger

  locked-Moved :
      (w own ch x : String) (d : Decimal) (t : State Decimal)
      → Ensures t
          (record_entry w own x d none
            >> (record_entry w ch x (neg d) none
                >> (record_ledger_transaction escrow_lock own ch x d >>= λ _. pure (tt {0}))))
          (λ _ u. Moved w own ch x (pos 0 -ℤ units d) t.db.ledger u.db.ledger)
  unfolding record_entry modify ◌>>=◌ record_ledger_transaction
  locked-Moved w own ch x d t = record { at = λ _ _. book-book-withdrawn w own ch x d t.db.ledger }

  unmoved : (w own ch x : String) (es : List (Entry Decimal)) → Moved w own ch x (pos 0) es es
  unmoved w own ch x es = record { at = λ p. rw (part_zero (p own x w), part_zero (p ch x w)) refl }

  above_zero : (x : Decimal) → less_than x zero_d ≡ false → ltb_ℤ (units x) (pos 0) ≡ false
  above_zero x h =
      subst (λ z. ltb_ℤ (units x) z ≡ false) units-zero_d (sym (less_than_lem x zero_d) ∙ h)

  module _ ⦃adr : Addresses⦄ where
    abbrev Locks :
        Channel Decimal → AssetTokenConfig → Decimal → State Decimal → State Decimal → Type 0
    Locks channel asset resize s t =
        (out : ℤ) × Locked (adr.hex_address channel.wallet) (new_account_id channel.wallet)
          (new_account_id channel.channel_id) asset.symbol resize asset.token.decimals out s t

    lock_escrow-Locks :
        (channel : Channel Decimal) (asset : AssetTokenConfig) (raw resize : Decimal)
        (t : State Decimal)
        → Checked channel asset raw resize t.db.ledger
        → Ensures t (lock_escrow channel asset resize) (λ _ u. Locks channel asset resize t u)
    unfolding lock_escrow raw_to_decimal
    lock_escrow-Locks channel asset raw resize t c =
        Ensures-if (less_than resize zero_d) _ _
          (λ below. record {
            at = λ a done. (
              _,
              record {
                withdrawn = λ negative. (
                  refl,
                  withdrawal-nonneg resize asset.token.decimals negative,
                  subst
                      (λ v.
                        pos 0 -ℤ units (from_big_int (big_int resize) asset.token.decimals) ≤ℤ v)
                      c.worth
                      (covers_withdrawal c.held raw resize asset.token.decimals negative
                        (not_below _ raw c.enough) (stays_above raw resize c.positive)),
                );
                untouched = λ above. absurd_test (sym above ∙ below_zero resize below);
                moved = (locked-Moved _ _ _ _ _ t).at a done;
              },
            );
          })
          λ above. Ensures-pure _ (
            pos 0,
            record {
              withdrawn = λ negative. absurd_test (sym (above_zero resize above) ∙ negative);
              untouched = λ _. refl;
              moved = unmoved _ _ _ _ t.db.ledger;
            },
          )

    Locks-from :
        (channel : Channel Decimal) (asset : AssetTokenConfig) (resize : Decimal)
        (s t u : State Decimal)
        → t.db.ledger ≡ s.db.ledger
        → Locks channel asset resize t u
        → Locks channel asset resize s u
    Locks-from channel asset resize s t u e (out, l) = (
      out,
      record {
        withdrawn = λ negative.
            let (amount, nonneg, had) = l.withdrawn negative in (amount, nonneg, rw (← e) had);
        untouched = l.untouched;
        moved = rw (← e) l.moved;
      },
    )

    lock_checked-Locks :
        (channel : Channel Decimal) (asset : AssetTokenConfig) (allocate resize : Decimal)
        (s : State Decimal)
        → Ensures s
            (check_amounts channel asset allocate resize
              >> (save_channel (as_resizing channel)
                  >> (lock_escrow channel asset resize >> pure (as_resizing channel))))
            (λ _ t. Locks channel asset resize s t)
    lock_checked-Locks channel asset allocate resize s =
        Ensures-bind _ _ (check_amounts-Checked channel asset allocate resize s) λ _ t checked.
          Ensures-Keeps-bind _ _ (save_channel-ledger (as_resizing channel)) λ _ u _ same.
            let kept : u.db.ledger ≡ s.db.ledger = same ∙ checked.0 in
            Ensures-bind _ _
              (lock_escrow-Locks channel asset _ resize u
                (subst (Checked channel asset _ resize) (sym kept) checked.1))
              λ _ v l. Ensures-pure _ (Locks-from channel asset resize s u v kept l)

    -- The channel and the asset of a resize, and what it locks.
    abbrev pub HasLocked :
        ChannelService → ResizeChannelParams Decimal → State Decimal → State Decimal → Type 0
    HasLocked service params s t =
        (channel : Channel Decimal) × (asset : AssetTokenConfig) × (out : ℤ) × (get_channel_by_id
            params.channel_id s.db
          ≡ ok channel)
        × (token_of service channel.token channel.chain_id ≡ some asset)
        × Locked (adr.hex_address channel.wallet) (new_account_id channel.wallet)
            (new_account_id channel.channel_id) asset.symbol (amount_or_zero params.resize_amount)
            asset.token.decimals out s t

    start_resize-HasLocked :
        (service : ChannelService) (params : ResizeChannelParams Decimal) (signers : List String)
        (s : State Decimal)
        → Ensures s (start_resize service params signers) (λ _ t. HasLocked service params s t)
    unfolding start_resize
    start_resize-HasLocked service params signers s = Ensures-reads-bind _ _ λ channel found.
        Ensures-reads-bind _ _ λ _ _. Ensures-guard-bind _ _ _ λ _. Ensures-guard-bind _ _ _ λ _.
          Ensures-guard-bind _ _ _ λ _. Ensures-reads-bind _ _ λ asset supported.
            Ensures-mono _ (lock_checked-Locks channel asset _ _ s)
              λ _ t l. (channel, asset, l.0, found, or_fail-ok _ _ supported, l.1)

    request_resize-HasLocked :
        (service : ChannelService) (params : ResizeChannelParams Decimal) (signers : List String)
        (s : State Decimal)
        → Ensures s (request_resize service params signers) (λ _ t. HasLocked service params s t)
    unfolding request_resize
    request_resize-HasLocked service params signers s =
        Ensures-bind _ _ (Ensures-transaction _ (start_resize-HasLocked service params signers s))
          λ _ t l. Ensures-reads _ λ _ _. l

    -- If a resize is granted where no wallet's own account is below zero, then none is afterwards, and
    -- each wallet has in all accounts together, in each asset, what it had. If the amount by which the
    -- channel changes is below zero, then its whole smallest units are what the wallet's account loses
    -- and the channel's account gains, in the channel's asset, and the wallet's account had as much;
    -- otherwise no account changes. No other row of the ledger is worth more or less than before.
    pub resize-locks :
        (service : ChannelService) (params : ResizeChannelParams Decimal) (signers : List String)
        (s : State Decimal) {r : ChannelOperationResponse Decimal}
        → IsSolvent s.db.ledger
        → (request_resize service params signers s).0 ≡ ok r
        → Conserved s.db.ledger (request_resize service params signers s).1.db.ledger
          × HasLocked service params s (request_resize service params signers s).1
    resize-locks service params signers s {r} v h = (
      (request_resize-Conserved service params signers s v).at r h,
      (request_resize-HasLocked service params signers s).at r h,
    )
