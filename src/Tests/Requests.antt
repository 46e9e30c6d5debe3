-- ===== src/Tests/Requests.antt =====
-- The theorems on the handlers and the cache of messages, applied.
use wthelly.Base.{◌≡◌, ◌≢◌, refl, arith, some, [], ◌∷◌, select, find, any, update}
use wthelly.Base.Int.{ℤ, pos, ◌+ℤ◌, ◌-ℤ◌}
use wthelly.Store.{State, SessionKey}
use wthelly.SessionKeys.{
  get_wallet_by_session_key, cache_load, cache_delete, get_active_session_key_for_wallet,
  get_session_key_if_active, revoke_session_key_from_db,
}
use wthelly.Handlers.Revoke.{may_revoke, is_active_key, handle_revoke_session_key}
use wthelly.Handlers.Revoke.Ends.{revoke-ends}
use wthelly.Error.{Error}
use wthelly.Effect.{ok, err}
use wthelly.Effect.{◌>>=◌, pure, fail, reads, modify, guard}
use wthelly.Ledger.{
  new_account_id, in_row, in_account, of_asset, assets_of, book, record_entry, sum,
  credit_minus_debit, balance, by_asset, sql_difference, get_balances, get_app_session_balances,
}
use wthelly.Transactions.{record_ledger_transaction}
use wthelly.Channels.{
  same_status, get_channels_by_wallet, check_challenged_channels, get_channel_amount_sum_by_wallet,
  ensure_wallet_has_all_allocations_empty,
}
use wthelly.Store.Transaction.{transaction}
use wthelly.MessageCache.{
  new_message_cache, delete, cleanup_expired, recalculate_cleanup_interval, store, add, exists,
}
use wthelly.Handlers.{verify_signer, get_user_tag_by_wallet, get_wallet_by_tag, delegate_key}
use wthelly.Handlers.Transfer.{
  find_destination, find_tag, validate_spending_of, transfer_one, transfer_all, move_funds,
  with_tags, make_transfer, remember, handle_transfer,
}
use wthelly.MessageCache.{MessageCache}
use wthelly.MessageCache.Expiry.{IsCache, exists-add}
use wthelly.Ledger.Payments.{Balanced}
use wthelly.Handlers.{Request}
use wthelly.Handlers.Transfer.{TransferParams}
use wthelly.Handlers.Transfer.Conserves.{transfer-conserves}
use wthelly.Handlers.Transfer.Once.{Call, after_transfers, transfer-once}
use wthelly.Tests.{whole_decimals, two_addresses, funded, funded-IsSolvent, state_with}

-- the cache of messages, with one hash that has been there for a while
abbrev cache : MessageCache
cache = record { entries = ("older", 50) ∷ []; ttl = 100; cleanup_counter = 9; cleanup_every = 10 }

cache-IsCache : IsCache cache
unfolding find
cache-IsCache = (refl, tt)

exists-add_example :
    (exists 80 "older" (add 60 "newer" cache) ≡ exists 80 "older" cache)
    × IsCache (add 60 "newer" cache)
exists-add_example = exists-add 60 80 "newer" "older" cache cache-IsCache (omega arith)

abbrev payment : TransferParams ℤ
payment = record {
  destination = "0xB";
  destination_user_tag = "";
  allocations = record { asset_symbol = "usdc"; amount = pos 30 } ∷ [];
}

abbrev signed_by_a : Request
signed_by_a = record { user_id = "0xA"; recovered = some "0xA" ∷ []; message_hash = "newer" }

transfer-conserves_example :
    Balanced funded
      (handle_transfer (λ s. s) 60 signed_by_a payment cache (state_with funded)).0.1.db.ledger
unfolding select find any update ◌+ℤ◌ ◌-ℤ◌ whole_decimals two_addresses ◌>>=◌ pure fail reads modify
    guard new_account_id in_row in_account of_asset assets_of book record_entry sum
    credit_minus_debit balance by_asset sql_difference get_balances get_app_session_balances
    record_ledger_transaction same_status get_channels_by_wallet check_challenged_channels
    get_channel_amount_sum_by_wallet ensure_wallet_has_all_allocations_empty transaction
    new_message_cache delete cleanup_expired recalculate_cleanup_interval store add exists
    verify_signer get_user_tag_by_wallet get_wallet_by_tag delegate_key find_destination find_tag
    validate_spending_of transfer_one transfer_all move_funds with_tags make_transfer remember
    handle_transfer get_wallet_by_session_key cache_load
transfer-conserves_example =
    transfer-conserves (λ s. s) 60 signed_by_a payment cache (state_with funded) funded-IsSolvent
      refl

-- another request of A's, between the two
abbrev other_call : Call ℤ
other_call = record {
  time = 75;
  request = record signed_by_a { message_hash = "other" };
  params = payment;
  state = state_with funded;
}

transfer-once_example :
    (handle_transfer
      (λ s. s)
      90
      signed_by_a
      payment
      (after_transfers
        (λ s. s)
        (other_call ∷ [])
        (handle_transfer (λ s. s) 60 signed_by_a payment cache (state_with funded)).1)
      (state_with funded)).0.0
    ≡ err Error.already_processed
unfolding select find any update ◌+ℤ◌ ◌-ℤ◌ whole_decimals two_addresses ◌>>=◌ pure fail reads modify
    guard new_account_id in_row in_account of_asset assets_of book record_entry sum
    credit_minus_debit balance by_asset sql_difference get_balances get_app_session_balances
    record_ledger_transaction same_status get_channels_by_wallet check_challenged_channels
    get_channel_amount_sum_by_wallet ensure_wallet_has_all_allocations_empty transaction
    new_message_cache delete cleanup_expired recalculate_cleanup_interval store add exists
    verify_signer get_user_tag_by_wallet get_wallet_by_tag delegate_key find_destination find_tag
    validate_spending_of transfer_one transfer_all move_funds with_tags make_transfer remember
    handle_transfer get_wallet_by_session_key cache_load
transfer-once_example =
    transfer-once (λ s. s) 60 signed_by_a payment cache (state_with funded) (other_call ∷ []) 90
      signed_by_a payment (state_with funded) cache-IsCache refl ((omega arith, omega arith), tt)
      refl (omega arith) (omega arith)

abbrev rook : SessionKey
rook = record {
  address = "key";
  wallet_address = "0xA";
  application = "chess";
  allowance = some [];
  scope = "all";
  expires_at = 100;
}

-- the key is A's, and A revokes it
abbrev with_key : State ℤ
with_key = record (state_with funded) {
  db = record (state_with funded).db { session_keys = rook ∷ [] };
}

revoke-ends_example :
    ((get_wallet_by_session_key 61 "key"
        (handle_revoke_session_key 60 signed_by_a "key" with_key).1).0
      ≡ ok "")
    × (get_active_session_key_for_wallet 61 "key" "0xA"
          (handle_revoke_session_key 60 signed_by_a "key" with_key).1.db
        ≢ ok rook)
unfolding ◌>>=◌ transaction select find update cache_load cache_delete get_wallet_by_session_key
    verify_signer delegate_key may_revoke is_active_key handle_revoke_session_key
    get_active_session_key_for_wallet get_session_key_if_active revoke_session_key_from_db
revoke-ends_example = revoke-ends 60 signed_by_a "key" with_key _ 61 "0xA" rook refl (omega arith)
