-- ===== src/Tests/Funds.antt =====
-- The conservation theorems, applied.
use wthelly.Base.{◌≢◌, ap, ◌==◌, String, refl, none, [], ◌∷◌, select, find, any, update}
use wthelly.Base.Int.{ℤ, pos, ◌+ℤ◌, ◌-ℤ◌}
use wthelly.Effect.{◌>>=◌, pure, fail, reads, modify, guard}
use wthelly.Ledger.{
  new_account_id, in_row, in_account, of_asset, assets_of, book, record_entry, sum,
  credit_minus_debit, balance, by_asset, sql_difference, get_balances, get_app_session_balances,
}
use wthelly.Transactions.{record_ledger_transaction}
use wthelly.Channels.{
  same_status, get_channels_by_wallet, check_challenged_channels, get_channel_amount_sum_by_wallet,
  ensure_wallet_has_all_allocations_empty,
}
use wthelly.AppSessions.{
  delegate_of, get_session_key_for_app_participant, validate_quorum_session_keys_application,
  get_app_session, validate_deposit_with_session_key, validate_delegate, amount_at, add_at,
  allocation_at, get_participant_allocations, validate_app_participant,
}
use wthelly.AppSessions.Deposit.{
  check_not_decreased, move_into_session, deposit_one, deposit_all, update_deposit,
}
use wthelly.AppSessions.Withdraw.{
  check_not_increased, move_out_of_session, withdraw_one, withdraw_all, update_withdraw,
}
use wthelly.AppSessions.Create.{
  is_supported_version, sum_weights, check_definition, insert_session, fund_one, fund_all,
  new_session, create_app_session,
}
use wthelly.Store.Transaction.{transaction}
use wthelly.Base.Word.{add_int64}
use wthelly.SessionKeys.{get_wallet_by_session_key, cache_load}
use wthelly.AppSessions.{Update}
use wthelly.AppSessions.Create.{CreateAppSessionParams}
use wthelly.AppSessions.Operate.{operate_one}
use wthelly.Ledger.Exact.{AllExact}
use wthelly.AppSessions.Operate.Sets.{Allocated, operate-allocates}
use wthelly.AppSessions.Close.{pay_one}
use wthelly.AppSessions.Close.Pays.{PaidOut, close-pays}
use wthelly.AppSessions.Deposit.Conserves.{deposit-conserves}
use wthelly.AppSessions.Withdraw.Conserves.{withdraw-conserves}
use wthelly.AppSessions.Create.Conserves.{create-conserves}
use wthelly.Ledger.Conserved.{Conserved}
use wthelly.Tests.{
  whole_decimals, two_addresses, funded, funded-IsSolvent, deposited, deposited-IsSolvent,
  state_with, allocated, request,
}

abbrev deposit_40 : Update ℤ
deposit_40 = request (allocated "0xA" (pos 40) ∷ [])

deposit-conserves_example :
    Conserved funded (update_deposit 0 deposit_40 (state_with funded)).1.db.ledger
unfolding select find any update ◌+ℤ◌ ◌-ℤ◌ whole_decimals two_addresses ◌>>=◌ pure fail reads modify
    guard new_account_id in_row in_account of_asset assets_of book record_entry sum
    credit_minus_debit balance by_asset sql_difference get_balances get_app_session_balances
    record_ledger_transaction same_status get_channels_by_wallet check_challenged_channels
    get_channel_amount_sum_by_wallet ensure_wallet_has_all_allocations_empty delegate_of
    get_session_key_for_app_participant validate_quorum_session_keys_application get_app_session
    validate_deposit_with_session_key validate_delegate amount_at add_at allocation_at
    get_participant_allocations validate_app_participant check_not_decreased move_into_session
    deposit_one deposit_all update_deposit get_wallet_by_session_key cache_load
deposit-conserves_example = deposit-conserves 0 deposit_40 (state_with funded) funded-IsSolvent refl

abbrev withdraw_all_40 : Update ℤ
withdraw_all_40 = request (allocated "0xA" (pos 0) ∷ [])

withdraw-conserves_example :
    Conserved deposited (update_withdraw withdraw_all_40 (state_with deposited)).1.db.ledger
unfolding select find any update ◌+ℤ◌ ◌-ℤ◌ whole_decimals two_addresses ◌>>=◌ pure fail reads modify
    guard new_account_id in_row in_account of_asset assets_of book record_entry sum
    credit_minus_debit balance by_asset sql_difference get_balances get_app_session_balances
    record_ledger_transaction same_status get_channels_by_wallet check_challenged_channels
    get_channel_amount_sum_by_wallet ensure_wallet_has_all_allocations_empty delegate_of
    get_session_key_for_app_participant validate_quorum_session_keys_application get_app_session
    validate_deposit_with_session_key validate_delegate amount_at add_at allocation_at
    get_participant_allocations validate_app_participant check_not_increased move_out_of_session
    withdraw_one withdraw_all update_withdraw get_wallet_by_session_key cache_load
withdraw-conserves_example =
    withdraw-conserves withdraw_all_40 (state_with deposited) refl deposited-IsSolvent refl

abbrev new_game : CreateAppSessionParams ℤ
new_game = record {
  definition = record {
    application = "chess";
    protocol = "NitroRPC/0.4";
    participant_wallets = "0xA" ∷ "0xB" ∷ [];
    weights = pos 60 ∷ pos 40 ∷ [];
    quorum = 100;
    challenge = 0;
    nonce = 2;
  };
  allocations = allocated "0xA" (pos 70) ∷ allocated "0xB" (pos 0) ∷ [];
  session_data = none;
}

create-conserves_example :
    Conserved funded
      (create_app_session (λ _. "rematch") 0 new_game ("0xA" ∷ []) (state_with funded)).1.db.ledger
unfolding select find any update ◌+ℤ◌ ◌-ℤ◌ whole_decimals two_addresses ◌>>=◌ pure fail reads modify
    guard new_account_id in_row in_account of_asset assets_of book record_entry sum
    credit_minus_debit balance by_asset sql_difference get_balances get_app_session_balances
    record_ledger_transaction same_status get_channels_by_wallet check_challenged_channels
    get_channel_amount_sum_by_wallet ensure_wallet_has_all_allocations_empty delegate_of
    get_session_key_for_app_participant validate_quorum_session_keys_application get_app_session
    validate_deposit_with_session_key validate_delegate amount_at add_at allocation_at
    get_participant_allocations validate_app_participant is_supported_version sum_weights
    check_definition insert_session fund_one fund_all new_session create_app_session transaction
    add_int64 get_wallet_by_session_key cache_load move_into_session
create-conserves_example =
    create-conserves (λ _. "rematch") 0 new_game ("0xA" ∷ []) (state_with funded) funded-IsSolvent
      refl

abbrev all_to_b : Update ℤ
all_to_b = request (allocated "0xB" (pos 40) ∷ [])

-- These amounts are whole numbers.
deposited-AllExact : AllExact deposited
unfolding book whole_decimals
deposited-AllExact = (
  ((pos 40, refl), (pos 0, refl)),
  (((pos 0, refl), (pos 40, refl)), (((pos 100, refl), (pos 0, refl)), tt)),
)

operate-allocates_example :
    AllExact (operate_one all_to_b (allocated "0xB" (pos 40)) (state_with deposited)).1.db.ledger
    × Allocated "0xB" "game" "usdc"
        (pos 40)
        (state_with deposited)
        (operate_one all_to_b (allocated "0xB" (pos 40)) (state_with deposited)).1
unfolding select find any update ◌+ℤ◌ ◌-ℤ◌ whole_decimals two_addresses ◌>>=◌ pure fail reads modify
    guard new_account_id in_row record_entry book balance credit_minus_debit sum
    validate_app_participant operate_one
operate-allocates_example =
    operate-allocates all_to_b (allocated "0xB" (pos 40)) (state_with deposited) (pos 40, refl)
      deposited-AllExact refl

apart : ◌≢◌ {A = String} "0xA" "game"
apart same = cc (ap (λ a. a == "0xA") same)

close-pays_example :
    AllExact (
      (pay_one "game"
        (("0xA", pos 60) ∷ [])
        (allocated "0xA" (pos 40))
        (state_with deposited)).1.db.ledger)
    × PaidOut "0xA" "game" "0xA" "usdc"
        (pos 40)
        (state_with deposited)
        (pay_one "game" (("0xA", pos 60) ∷ []) (allocated "0xA" (pos 40)) (state_with deposited)).1
unfolding select find any update ◌+ℤ◌ ◌-ℤ◌ whole_decimals two_addresses ◌>>=◌ pure fail reads modify
    guard new_account_id in_row record_entry book balance credit_minus_debit sum
    validate_app_participant record_ledger_transaction pay_one
close-pays_example =
    close-pays "game" (("0xA", pos 60) ∷ []) (allocated "0xA" (pos 40)) (state_with deposited) apart
      (pos 40, refl) deposited-AllExact refl
