-- ===== src/Channels/Service/Close/Divides.antt =====
-- How the answer to RequestClose divides what the channel holds.
use mathlib.Core.Path.{subst}
use wthelly.Base.{
  not, not-true, ◌≡◌, ◌⊎◌, ◌||◌, refl, sym, ap, ◌∙◌, arith, String, Bool, true, false, Bool-cases,
  inl, inr, Option, none, some, List, [], ◌∷◌, if◌then◌else◌,
}
use wthelly.Base.Int.{ℤ, pos, ◌+ℤ◌, ◌-ℤ◌, ◌≤ℤ◌, ltb_ℤ, int_laws}
use wthelly.Error.{Error}
use wthelly.Effect.{ok, or_fail, check, check-ok, and_then-ok}
use wthelly.Effect.Rules.{ok-injective}
use wthelly.Money.{DecimalOps, Addresses}
use wthelly.Store.{State, Channel, ChannelStatus, open_status, closed, resizing, challenged}
use wthelly.Assets.{AssetTokenConfig}
use wthelly.Ledger.{new_account_id, balance}
use wthelly.Ledger.Balance.{funds, units-balance}
use wthelly.Channels.{same_status, get_channel_by_id, check_challenged_channels}
use wthelly.Channels.Service.{
  ChannelService, ChainState, CloseChannelParams, ChannelOperationResponse, NewChannel,
  response_allocations, create_channel_operation_response, signed_response, two_allocations,
  intent_finalize, token_of, has_signed, uint64_of, next_version,
}
use wthelly.Channels.Service.Close.{user_allocation, due_balance, closable, request_close}

absurd_test : false ≡ true → ⊥
absurd_test e = cc

user_allocation-le : (held in_channel : ℤ) → user_allocation held in_channel ≤ℤ in_channel
unfolding user_allocation
user_allocation-le held in_channel = ground arith

user_allocation-le_held : (held in_channel : ℤ) → user_allocation held in_channel ≤ℤ held
unfolding user_allocation
user_allocation-le_held held in_channel = ground arith

-- The lesser of two numbers.
abbrev pub IsLesser : ℤ → ℤ → ℤ → Type 0
IsLesser x a b = (x ≤ℤ a) × (x ≤ℤ b) × ((x ≡ a) ⊎ (x ≡ b))

user_allocation-IsLesser :
    (held in_channel : ℤ) → IsLesser (user_allocation held in_channel) held in_channel
unfolding user_allocation
user_allocation-IsLesser held in_channel = (
  user_allocation-le_held held in_channel,
  user_allocation-le held in_channel,
  elim (Bool-cases (ltb_ℤ in_channel held)) [
    | inl less ↦ inr (rw less)
    | inr not_less ↦ inl (rw not_less)
  ],
)

is_active :
    (st : ChannelStatus)
    → (same_status st open_status || same_status st resizing) ≡ true
    → (st ≡ open_status) ⊎ (st ≡ resizing)
unfolding same_status
is_active open_status h = inl refl
is_active resizing h = inr refl
is_active closed h = elim (absurd_test h) [ ]
is_active challenged h = elim (absurd_test h) [ ]

or_fail-ok : {A : Type 0} (o : Option A) (e : Error) {a : A} → or_fail o e ≡ ok a → o ≡ some a
or_fail-ok none e h = cc
or_fail-ok (some a) e h = cc

regain : (a b : ℤ) → a +ℤ (b -ℤ a) ≡ b
regain a b = omega int_laws

rest_nonneg : (a b : ℤ) → a ≤ℤ b → ltb_ℤ (b -ℤ a) (pos 0) ≡ false
unfolding ◌-ℤ◌
rest_nonneg a b h = ground arith

nonneg_of_test : (a : ℤ) → ltb_ℤ a (pos 0) ≡ false → pos 0 ≤ℤ a
nonneg_of_test a h = ground arith

module _ {Decimal : Type 0} ⦃dec : DecimalOps Decimal⦄ where
  open dec use {units, from_big_int, units-from_big_int, from_big_int_neg}

  -- a signed answer carries the state that was to be signed
  pub signed_response-ok :
      (signing : wthelly.Channels.Service.Signing) (channel_id : String) (state : ChainState)
      (channel : wthelly.Base.Option NewChannel) {r : ChannelOperationResponse Decimal}
      → signed_response signing channel_id state channel ≡ ok r
      → (signature : String) × (create_channel_operation_response channel_id state channel signature
          ≡ r)
  unfolding signed_response
  signed_response-ok signing channel_id state channel e =
      let (packed, _, e') = and_then-ok (signing.pack_state channel_id state) _ e in
      let (signature, _, made) = and_then-ok (signing.sign packed) _ e' in
      (signature, ok-injective made)

  module _ ⦃adr : Addresses⦄ where
    -- An answer that divides what the channel holds: `due` is what the wallet has in its own account
    -- and in the channel's, and `share` what it gets.
    pub record Divides (service : ChannelService) (params : CloseChannelParams)
        (signers : List String) (s : State Decimal) (channel : Channel Decimal)
        (asset : AssetTokenConfig) (due : Decimal) (share : ℤ)
        (r : ChannelOperationResponse Decimal) : Type 0 where
      pub known : get_channel_by_id params.channel_id s.db ≡ ok channel
      pub active : (channel.status ≡ open_status) ⊎ (channel.status ≡ resizing)
      pub signed : has_signed signers channel.wallet ≡ true
      pub token : token_of service channel.token channel.chain_id ≡ some asset
      pub own :
          pos 0
          ≤ℤ funds (adr.hex_address channel.wallet) (new_account_id channel.wallet) asset.symbol s
      pub owed :
          units due
          ≡ funds (adr.hex_address channel.wallet) (new_account_id channel.wallet) asset.symbol s
            +ℤ funds
                (adr.hex_address channel.wallet)
                (new_account_id channel.channel_id)
                asset.symbol
                s
      pub lesser :
          IsLesser share
            (dec.big_int (dec.shift due asset.token.decimals))
            (dec.big_int channel.raw_amount)
      pub divided :
          r.state.allocations
          ≡ record {
            participant = adr.hex_address params.funds_destination;
            token_address = adr.hex_address channel.token;
            raw_amount = from_big_int share 0;
          }
            ∷ record {
              participant = service.signing.signer_address;
              token_address = adr.hex_address channel.token;
              raw_amount = from_big_int (dec.big_int channel.raw_amount -ℤ share) 0;
            }
            ∷ []
      pub whole :
          units (from_big_int share 0)
            +ℤ units (from_big_int (dec.big_int channel.raw_amount -ℤ share) 0)
          ≡ units (from_big_int (dec.big_int channel.raw_amount) 0)
      pub rest : pos 0 ≤ℤ units (from_big_int (dec.big_int channel.raw_amount -ℤ share) 0)
      pub final : r.state.intent ≡ intent_finalize
      pub version : r.state.version ≡ uint64_of (next_version channel.state.version)

    -- what the wallet's two accounts hold
    due_balance-owed :
        (channel : Channel Decimal) (asset : String) (s : State Decimal) {due : Decimal}
        → due_balance channel asset s ≡ ok due
        → (pos 0 ≤ℤ funds (adr.hex_address channel.wallet) (new_account_id channel.wallet) asset s)
          × (units due
              ≡ funds (adr.hex_address channel.wallet) (new_account_id channel.wallet) asset s
                +ℤ funds
                    (adr.hex_address channel.wallet)
                    (new_account_id channel.channel_id)
                    asset
                    s)
    unfolding due_balance
    due_balance-owed channel asset s e =
        let (own, held, e₁) = and_then-ok (balance _ _ asset s) _ e in
        let (_, passed, e₂) = and_then-ok (check (not (dec.is_negative own)) _) _ e₁ in
        let (escrow, locked, e₃) = and_then-ok (balance _ _ asset s) _ e₂ in
        let worth = units-balance _ _ asset s held in
        (
          subst (λ v. pos 0 ≤ℤ v) worth
              (nonneg_of_test (units own) (
                sym (dec.is_negative_lem own)
                ∙ not-true _ (check-ok (not (dec.is_negative own)) _ passed))),
          ap units (sym (ok-injective e₃))
              ∙ dec.units-add own escrow
              ∙ ap (λ v. v +ℤ units escrow) worth
              ∙ ap
                  (λ v.
                    funds (adr.hex_address channel.wallet) (new_account_id channel.wallet) asset s
                    +ℤ v)
                  (units-balance _ _ asset s locked),
        )

    closable-facts :
        (params : CloseChannelParams) (signers : List String) (s : State Decimal)
        {channel : Channel Decimal}
        → closable params signers s ≡ ok channel
        → (get_channel_by_id params.channel_id s.db ≡ ok channel)
          × ((channel.status ≡ open_status) ⊎ (channel.status ≡ resizing))
          × (has_signed signers channel.wallet ≡ true)
    unfolding closable
    closable-facts params signers s e =
        let (c, known, e₁) = and_then-ok (get_channel_by_id params.channel_id s.db) _ e in
        let (_, _, e₂) = and_then-ok (check_challenged_channels c.wallet s.db) _ e₁ in
        let (_, active, e₃) =
          and_then-ok (check (same_status c.status open_status || same_status c.status resizing) _)
            _ e₂ in
        let (_, signed, e₄) = and_then-ok (check (has_signed signers c.wallet) _) _ e₃ in
        rw (← ok-injective e₄)
          (known, is_active c.status (check-ok _ _ active), check-ok _ _ signed)

    module _ (service : ChannelService) (params : CloseChannelParams) (signers : List String)
        (s : State Decimal) where
      -- If a request to close is answered, then the channel with the id is open or being resized, its
      -- wallet has signed, and its token is a supported asset; the wallet's own account is not below
      -- zero; the wallet's allocation is the lesser of the channel's amount and of what the wallet has
      -- in its own account and in the channel's together, in the token's smallest units with what is
      -- left of one dropped; the broker's is the rest, and is not negative, and both add up to the
      -- channel's amount; and the state is the final one, of the next version.
      pub close-Divides :
          {r : ChannelOperationResponse Decimal}
          → request_close service params signers s ≡ ok r
          → (channel : Channel Decimal) × (asset : AssetTokenConfig) × (due : Decimal) × (share : ℤ)
            × Divides service params signers s channel asset due share r
      unfolding request_close two_allocations response_allocations create_channel_operation_response
      close-Divides {r} e =
          let (channel, found, e₁) = and_then-ok (closable params signers s) _ e in
          let (asset, token, e₂) =
            and_then-ok (or_fail (token_of service channel.token channel.chain_id) _) _ e₁ in
          let (due, owed, e₃) = and_then-ok (due_balance channel asset.symbol s) _ e₂ in
          let held : ℤ = dec.big_int (dec.shift due asset.token.decimals) in
          let raw : ℤ = dec.big_int channel.raw_amount in
          let share : ℤ = user_allocation held raw in
          let (signature, made) = signed_response-ok service.signing channel.channel_id _ none e₃ in
          let (known, active, signed) = closable-facts params signers s found in
          let (own, worth) = due_balance-owed channel asset.symbol s owed in
          (
            channel,
            asset,
            due,
            share,
            record {
              known = known;
              active = active;
              signed = signed;
              token = or_fail-ok _ _ token;
              own = own;
              owed = worth;
              lesser = user_allocation-IsLesser held raw;
              divided = ap (λ x. x.state.allocations) (sym made);
              whole =
                  sym (units-from_big_int share (raw -ℤ share) 0)
                  ∙ ap (λ n. units (from_big_int n 0)) (regain share raw);
              rest = nonneg_of_test _ (
                  from_big_int_neg (raw -ℤ share) 0
                  ∙ rest_nonneg share raw (user_allocation-le held raw));
              final = ap (λ x. x.state.intent) (sym made);
              version = ap (λ x. x.state.version) (sym made);
            },
          )
