-- ===== src/Tests/Sessions.antt =====
-- The theorems on the updates of sessions, applied.
use wthelly.Base.{ℕ, ◌≢◌, ◌≡◌, refl, String, none, some, List, [], ◌∷◌, select, find, any, update}
use wthelly.Base.Int.{ℤ, pos, ◌+ℤ◌, ◌-ℤ◌}
use wthelly.Error.{Error}
use wthelly.Effect.{ok, err}
use wthelly.Store.{AppSession}
use wthelly.Effect.{ok, ◌>>=◌, pure, fail, reads, modify, guard}
use wthelly.Ledger.{
  new_account_id, in_row, in_account, of_asset, assets_of, book, record_entry, sum,
  credit_minus_debit, balance, by_asset, sql_difference, get_balances, get_app_session_balances,
}
use wthelly.Transactions.{record_ledger_transaction}
use wthelly.Channels.{
  same_status, get_channels_by_wallet, check_challenged_channels, get_channel_amount_sum_by_wallet,
  ensure_wallet_has_all_allocations_empty,
}
use wthelly.AppSessions.{
  delegate_of, get_session_key_for_app_participant, validate_quorum_session_keys_application,
  get_app_session, validate_deposit_with_session_key, validate_delegate, amount_at, add_at,
  allocation_at, get_participant_allocations, validate_app_participant,
}
use wthelly.AppSessions.Quorum.{
  participant_weights, weight_of, total_weight, compare_quorum, verify_quorum,
}
use wthelly.AppSessions.Deposit.{
  check_not_decreased, move_into_session, deposit_one, deposit_all, update_deposit,
}
use wthelly.AppSessions.Withdraw.{
  check_not_increased, move_out_of_session, withdraw_one, withdraw_all, update_withdraw,
}
use wthelly.AppSessions.Operate.{operate_one, operate_all, update_operate}
use wthelly.AppSessions.Allocations.{
  find_amount, check_asset, check_balances, check_sums, verify_allocations,
}
use wthelly.AppSessions.Submit.{
  check_protocol, save_session, with_data, update_for, apply_state, submit_app_state,
}
use wthelly.AppSessions.Close.{pay_one, pay_all, redistribute, close_application}
use wthelly.Store.Transaction.{transaction}
use wthelly.Base.Word.{add_int64}
use wthelly.SessionKeys.{get_wallet_by_session_key, cache_load}
use wthelly.AppSessions.Submit.{SubmitAppStateParams}
use wthelly.AppSessions.Submit.Replay.{submit-replay}
use wthelly.AppSessions.Submit.Accepted.{Accepted, submit-Accepted}
use wthelly.AppSessions.Close.{CloseAppSessionParams}
use wthelly.AppSessions.Close.Final.{Closed, close-final}
use wthelly.Tests.{whole_decimals, two_addresses, game, funded, deposited, state_with, allocated}

abbrev deposit_request : SubmitAppStateParams ℤ
deposit_request = record {
  app_session_id = "game";
  intent = "deposit";
  version = 2;
  allocations = allocated "0xA" (pos 40) ∷ [];
  session_data = some "opening";
}

abbrev both : List String
both = "0xA" ∷ "0xB" ∷ []

submit-Accepted_example :
    (before : AppSession) × Accepted deposit_request both before
      (state_with funded)
      (record game { version = 2; session_data = "opening" })
      (submit_app_state 0 deposit_request both both (state_with funded)).1
unfolding select find any update ◌+ℤ◌ ◌-ℤ◌ whole_decimals two_addresses ◌>>=◌ pure fail reads modify
    guard new_account_id in_row in_account of_asset assets_of book record_entry sum
    credit_minus_debit balance by_asset sql_difference get_balances get_app_session_balances
    record_ledger_transaction same_status get_channels_by_wallet check_challenged_channels
    get_channel_amount_sum_by_wallet ensure_wallet_has_all_allocations_empty delegate_of
    get_session_key_for_app_participant validate_quorum_session_keys_application get_app_session
    validate_deposit_with_session_key validate_delegate amount_at add_at allocation_at
    get_participant_allocations validate_app_participant participant_weights weight_of total_weight
    compare_quorum verify_quorum check_not_decreased move_into_session deposit_one deposit_all
    update_deposit check_not_increased move_out_of_session withdraw_one withdraw_all update_withdraw
    operate_one operate_all update_operate find_amount check_asset check_balances check_sums
    verify_allocations check_protocol save_session with_data update_for apply_state submit_app_state
    pay_one pay_all redistribute close_application transaction add_int64 get_wallet_by_session_key
    cache_load
submit-Accepted_example = submit-Accepted 0 deposit_request both both (state_with funded) refl

submit-replay_example :
    (submit_app_state 5 deposit_request both both
      (submit_app_state 0 deposit_request both both (state_with funded)).1).0
    ≡ err Error.incorrect_version
unfolding select find any update ◌+ℤ◌ ◌-ℤ◌ whole_decimals two_addresses ◌>>=◌ pure fail reads modify
    guard new_account_id in_row in_account of_asset assets_of book record_entry sum
    credit_minus_debit balance by_asset sql_difference get_balances get_app_session_balances
    record_ledger_transaction same_status get_channels_by_wallet check_challenged_channels
    get_channel_amount_sum_by_wallet ensure_wallet_has_all_allocations_empty delegate_of
    get_session_key_for_app_participant validate_quorum_session_keys_application get_app_session
    validate_deposit_with_session_key validate_delegate amount_at add_at allocation_at
    get_participant_allocations validate_app_participant participant_weights weight_of total_weight
    compare_quorum verify_quorum check_not_decreased move_into_session deposit_one deposit_all
    update_deposit check_not_increased move_out_of_session withdraw_one withdraw_all update_withdraw
    operate_one operate_all update_operate find_amount check_asset check_balances check_sums
    verify_allocations check_protocol save_session with_data update_for apply_state submit_app_state
    pay_one pay_all redistribute close_application transaction add_int64 get_wallet_by_session_key
    cache_load
submit-replay_example =
    submit-replay 0 deposit_request both both (state_with funded) 5 deposit_request both both refl
      refl refl refl

abbrev close_request : CloseAppSessionParams ℤ
close_request = record {
  app_session_id = "game";
  session_data = none;
  allocations = allocated "0xA" (pos 40) ∷ [];
}

close-final_example :
    Closed "game" 2 (close_application 0 close_request both both (state_with deposited)).1
    × ((submit_app_state 1 deposit_request both both
          (close_application 0 close_request both both (state_with deposited)).1).0
        ≡ err Error.session_not_found)
    × ((r' : List String × ℕ)
        → (close_application 1 close_request both both
            (close_application 0 close_request both both (state_with deposited)).1).0
          ≢ ok r')
unfolding select find any update ◌+ℤ◌ ◌-ℤ◌ whole_decimals two_addresses ◌>>=◌ pure fail reads modify
    guard new_account_id in_row in_account of_asset assets_of book record_entry sum
    credit_minus_debit balance by_asset sql_difference get_balances get_app_session_balances
    record_ledger_transaction same_status get_channels_by_wallet check_challenged_channels
    get_channel_amount_sum_by_wallet ensure_wallet_has_all_allocations_empty delegate_of
    get_session_key_for_app_participant validate_quorum_session_keys_application get_app_session
    validate_deposit_with_session_key validate_delegate amount_at add_at allocation_at
    get_participant_allocations validate_app_participant participant_weights weight_of total_weight
    compare_quorum verify_quorum check_not_decreased move_into_session deposit_one deposit_all
    update_deposit check_not_increased move_out_of_session withdraw_one withdraw_all update_withdraw
    operate_one operate_all update_operate find_amount check_asset check_balances check_sums
    verify_allocations check_protocol save_session with_data update_for apply_state submit_app_state
    pay_one pay_all redistribute close_application transaction add_int64 get_wallet_by_session_key
    cache_load
close-final_example =
    close-final 0 close_request both both (state_with deposited) _ 1 deposit_request close_request
      both both refl refl refl
