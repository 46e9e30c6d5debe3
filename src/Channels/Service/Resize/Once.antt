-- ===== src/Channels/Service/Resize/Once.antt =====
-- A resize blocks the next one until its chain has answered.
use mathlib.Core.Path.{subst}
use wthelly.Base.{arith, ap, ◌≡◌, refl, sym, ◌∙◌, String, true, not, inl, inr, Option, List}
use wthelly.Error.{Error}
use wthelly.Effect.{Result, ok, err, Result-cases, ◌>>=◌, pure}
use wthelly.Effect.Rules.{
  Ensures, Ensures-bind, Ensures-pure, Ensures-guard-bind, Ensures-reads-bind, Ensures-reads,
  Ensures-modify, ok-injective,
}
use wthelly.Effect.Keeps.{
  Keeps, Keeps-pure, Keeps-reads, Keeps-guard, Keeps-modify, Keeps-bind, Keeps-if,
  Ensures-Keeps-bind,
}
use wthelly.Money.{DecimalOps, Addresses}
use wthelly.Store.{State, Channel, ChannelStatus, TransactionType, resizing}
use wthelly.Store.Rows.{find-key, find-saved}
use wthelly.Store.Transaction.{Ensures-transaction}
use wthelly.Channels.{same_status, get_channel_by_id, save_channel}
use wthelly.Assets.{AssetTokenConfig}
use wthelly.Ledger.{record_entry}
use wthelly.Transactions.{record_ledger_transaction}
use wthelly.Custody.Funds.{or_fail-ok}
use wthelly.Channels.Service.{ChannelService, ResizeChannelParams, ChannelOperationResponse}
use wthelly.Channels.Service.Resize.{
  as_resizing, lock_escrow, check_amounts, start_resize, request_resize,
}

not_idle :
    (status : ChannelStatus) → status ≡ resizing → not (same_status status resizing) ≡ true → ⊥
unfolding same_status
not_idle status e h = ground (arith)

module _ {Decimal : Type 0} where
  abbrev channels : State Decimal → List (Channel Decimal)
  channels s = s.db.channels

  -- The channel with an id is being resized.
  abbrev pub Resizing : String → State Decimal → Type 0
  Resizing id s = (c : Channel Decimal) × (get_channel_by_id id s.db ≡ ok c) × (c.status ≡ resizing)

  save_as_resizing :
      (id : String) (channel : Channel Decimal) (s : State Decimal)
      → get_channel_by_id id s.db ≡ ok channel
      → Ensures s (save_channel (as_resizing channel)) (λ _ t. Resizing id t)
  unfolding save_channel get_channel_by_id as_resizing
  save_as_resizing id channel s found =
      let hit = or_fail-ok _ _ found in
      Ensures-modify _ (
        as_resizing channel,
        rw (
            find-saved (λ c. c.channel_id) id (as_resizing channel) s.db.channels
              (find-key (λ c. c.channel_id) id s.db.channels hit) hit),
        refl,
      )

module _ {Decimal : Type 0} ⦃dec : DecimalOps Decimal⦄ where
  record_entry-channels :
      (w a x : String) (d : Decimal) (k : Option String) → Keeps channels (record_entry w a x d k)
  unfolding record_entry
  record_entry-channels w a x d k = Keeps-modify _ λ s. refl

  journal_end-channels :
      (ty : TransactionType) (a b x : String) (d : Decimal)
      → Keeps channels (record_ledger_transaction ty a b x d >>= λ _. pure (tt {0}))
  unfolding record_ledger_transaction
  journal_end-channels ty a b x d = Keeps-bind _ _ (record { at = λ s. refl }) λ _. Keeps-pure _

  module _ ⦃adr : Addresses⦄ where
    lock_escrow-channels :
        (channel : Channel Decimal) (asset : AssetTokenConfig) (resize : Decimal)
        → Keeps channels (lock_escrow channel asset resize)
    unfolding lock_escrow
    lock_escrow-channels channel asset resize =
        Keeps-if _ _ _
          (Keeps-bind _ _ (record_entry-channels _ _ _ _ _) λ _.
            Keeps-bind _ _ (record_entry-channels _ _ _ _ _) λ _. journal_end-channels _ _ _ _ _)
          (Keeps-pure _)

    check_amounts-channels :
        (channel : Channel Decimal) (asset : AssetTokenConfig) (allocate resize : Decimal)
        → Keeps channels (check_amounts channel asset allocate resize)
    unfolding check_amounts
    check_amounts-channels channel asset allocate resize = Keeps-bind _ _ (Keeps-guard _ _) λ _.
        Keeps-bind _ _ (Keeps-reads _) λ _. Keeps-bind _ _ (Keeps-guard _ _) λ _. Keeps-guard _ _

    Resizing-channels :
        (id : String) (s t : State Decimal)
        → channels t ≡ channels s
        → Resizing id s
        → Resizing id t
    unfolding get_channel_by_id
    Resizing-channels id s t same (c, found, status) = (c, rw same found, status)

    same_channel :
        (id : String) (s t : State Decimal) {r : Result (Channel Decimal)}
        → channels t ≡ channels s
        → get_channel_by_id id s.db ≡ r
        → get_channel_by_id id t.db ≡ r
    unfolding get_channel_by_id
    same_channel id s t same found = rw same found

    start_resize-Resizing :
        (service : ChannelService) (params : ResizeChannelParams Decimal) (signers : List String)
        (s : State Decimal)
        → Ensures s (start_resize service params signers) (λ _ t. Resizing params.channel_id t)
    unfolding start_resize
    start_resize-Resizing service params signers s = Ensures-reads-bind _ _ λ channel found.
        Ensures-reads-bind _ _ λ _ _. Ensures-guard-bind _ _ _ λ _. Ensures-guard-bind _ _ _ λ _.
          Ensures-guard-bind _ _ _ λ _. Ensures-reads-bind _ _ λ asset _.
            Ensures-Keeps-bind _ _ (check_amounts-channels _ _ _ _) λ _ t _ same.
              Ensures-bind _ _
                (save_as_resizing params.channel_id channel t
                  (same_channel params.channel_id s t same found))
                λ _ u r.
                  Ensures-Keeps-bind _ _ (lock_escrow-channels _ _ _)
                    λ _ v _ same'. Ensures-pure _ (Resizing-channels params.channel_id u v same' r)

    -- no resize starts on a channel that is being resized
    blocked :
        (service : ChannelService) (params : ResizeChannelParams Decimal) (signers : List String)
        (t : State Decimal)
        → Resizing params.channel_id t
        → Ensures t (request_resize service params signers) (λ _ _. ⊥)
    unfolding request_resize start_resize same_status
    blocked service params signers t (c, found, status) =
        Ensures-bind _ _
          (Ensures-transaction _ (
            Ensures-reads-bind _ _ λ channel here. Ensures-reads-bind _ _ λ _ _.
              Ensures-guard-bind _ _ _ λ idle. absurd (
                not_idle channel.status
                  (ap (λ x. x.status) (ok-injective (sym here ∙ found)) ∙ status) idle)))
          λ _ _ impossible. absurd impossible

    request_resize-Resizing :
        (service : ChannelService) (params : ResizeChannelParams Decimal) (signers : List String)
        (s : State Decimal)
        → Ensures s (request_resize service params signers) (λ _ t. Resizing params.channel_id t)
    unfolding request_resize
    request_resize-Resizing service params signers s =
        Ensures-bind _ _ (Ensures-transaction _ (start_resize-Resizing service params signers s))
          λ _ t r. Ensures-reads _ λ _ _. r

    -- After a resize of a channel was granted, the next request for the same channel fails, whatever
    -- it asks for and whoever signs it.
    pub resize-once :
        (service : ChannelService) (params again : ResizeChannelParams Decimal)
        (signers others : List String) (s : State Decimal) {r : ChannelOperationResponse Decimal}
        → (request_resize service params signers s).0 ≡ ok r
        → again.channel_id ≡ params.channel_id
        → (e : Error) × ((request_resize service again others
              (request_resize service params signers s).1).0
            ≡ err e)
    resize-once service params again signers others s {r} h same =
        let t : State Decimal = (request_resize service params signers s).1 in
        elim (Result-cases (request_resize service again others t).0) [
          | inl (e, failure) ↦ (e, failure)
          | inr (a, success) ↦ absurd (
              (blocked service again others t (
                  subst (λ i. Resizing i t) (sym same)
                    ((request_resize-Resizing service params signers s).at r h))).at
                a success)
        ]
