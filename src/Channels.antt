-- ===== src/Channels.antt =====
-- channel.go: the table of state channels, and the two checks on it that guard every operation that
-- moves a wallet's funds (checkChallengedChannels, ensureWalletHasAllAllocationsEmpty).
pub mod Service
use wthelly.Base.{
  ℕ, String, Bool, true, false, ◌&&◌, ◌||◌, ◌==◌, eq_ℕ, Option, none, some, List, [], ◌∷◌, map,
  select, find, any, update, length, if◌then◌else◌,
}
use wthelly.Error.{Error}
use wthelly.Effect.{Effect, Result, ok, err, or_fail, check, modify}
use wthelly.Money.{DecimalOps}
use wthelly.Store.{
  State, Db, Channel, UnsignedState, ChannelStatus, open_status, closed, resizing, challenged,
}
use wthelly.Ledger.{sum}

-- `==` on statuses
unfoldable pub same_status : ChannelStatus → ChannelStatus → Bool
same_status open_status open_status = true
same_status closed closed = true
same_status resizing resizing = true
same_status challenged challenged = true
same_status _ _ = false

module _ {Decimal : Type 0} where
  -- `CreateChannel`: the channel id is the primary key
  unfoldable pub create_channel :
      String
      → String
      → String
      → ℕ
      → ℕ
      → String
      → ℕ
      → String
      → Decimal
      → UnsignedState Decimal
      → Effect (State Decimal) (Channel Decimal)
  create_channel channel_id wallet participant nonce challenge adjudicator chain_id token amount
        state s =
      (if any (λ c. c.channel_id == channel_id) s.db.channels
        then (err Error.duplicate_key, s)
        else (ok channel, record s { db = record s.db { channels = channel ∷ s.db.channels } }))
    where
      channel : Channel Decimal
      channel = record {
        channel_id = channel_id;
        chain_id = chain_id;
        token = token;
        wallet = wallet;
        participant = participant;
        raw_amount = amount;
        status = open_status;
        challenge = challenge;
        nonce = nonce;
        adjudicator = adjudicator;
        state = state;
        server_state_signature = none;
        user_state_signature = none;
      }

  -- `GetChannelByID`
  unfoldable pub get_channel_by_id : String → Db Decimal → Result (Channel Decimal)
  get_channel_by_id channel_id db =
      or_fail (find (λ c. c.channel_id == channel_id) db.channels) Error.record_not_found

  -- `tx.Save` of a channel that is in the table
  unfoldable pub save_channel : Channel Decimal → Effect (State Decimal) (Unit {0})
  save_channel channel = modify λ s. record s {
    db = record s.db {
      channels = update (λ c. c.channel_id == channel.channel_id) (λ _. channel) s.db.channels;
    };
  }

  -- `getChannelsByWallet`: an empty wallet or no status asks for all
  unfoldable pub get_channels_by_wallet :
      String → Option ChannelStatus → Db Decimal → List (Channel Decimal)
  unfolding same_status
  get_channels_by_wallet wallet status db =
      select
        (λ c.
          (wallet == "" || c.wallet == wallet)
          && elim status [ none ↦ true | some st ↦ same_status c.status st ])
        db.channels

  -- `CheckExistingChannels`
  unfoldable pub check_existing_channels :
      String → String → ℕ → Db Decimal → Option (Channel Decimal)
  unfolding same_status
  check_existing_channels wallet token chain_id db =
      find
        (λ c.
          (c.wallet == wallet)
          && (c.token == token)
          && eq_ℕ c.chain_id chain_id
          && same_status c.status open_status)
        db.channels

  -- `checkChallengedChannels`
  unfoldable pub check_challenged_channels : String → Db Decimal → Result (Unit {0})
  unfolding get_channels_by_wallet
  check_challenged_channels wallet db = elim (get_channels_by_wallet wallet (some challenged) db) [
    | [] ↦ ok tt
    | _ ∷ _ ↦ err Error.challenged_channels
  ]

module _ {Decimal : Type 0} ⦃dec : DecimalOps Decimal⦄ where
  -- `GetChannelAmountSumByWallet`: the number of open or resizing channels, and their amounts
  unfoldable pub get_channel_amount_sum_by_wallet : String → Db Decimal → ℕ × Decimal
  unfolding same_status sum
  get_channel_amount_sum_by_wallet wallet db =
      let rows =
        select
          (λ (c : Channel Decimal).
            (c.wallet == wallet)
            && (same_status c.status open_status || same_status c.status resizing))
          db.channels in
      (length rows, sum (map (λ c. c.raw_amount) rows))

  -- `ensureWalletHasAllAllocationsEmpty`
  unfoldable pub ensure_wallet_has_all_allocations_empty : String → Db Decimal → Result (Unit {0})
  unfolding get_channel_amount_sum_by_wallet
  ensure_wallet_has_all_allocations_empty wallet db =
      check (dec.is_zero (get_channel_amount_sum_by_wallet wallet db).1)
        Error.non_zero_channel_allocation
