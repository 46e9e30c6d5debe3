-- ===== src/Tests/Ledgers.antt =====
-- The theorems on the ledger, the quorum and the session keys, applied.
use wthelly.Base.{
  All, ◌≡◌, ◌↔◌, refl, ap, ◌==◌, inl, none, some, [], ◌∷◌, select, find, any, update,
}
use wthelly.Base.Int.{ℤ, pos, ◌+ℤ◌, ◌-ℤ◌, ◌≤ℤ◌}
use wthelly.Effect.{ok}
use wthelly.Store.{State, SessionKey, app_deposit}
use wthelly.Effect.{◌>>=◌, pure, fail, reads, modify, guard}
use wthelly.Ledger.{
  sql_sum, new_account_id, in_row, in_account, of_asset, assets_of, book, record_entry, sum,
  credit_minus_debit, balance, by_asset, sql_difference, get_balances, get_app_session_balances,
}
use wthelly.Store.Transaction.{transaction}
use wthelly.SessionKeys.{
  cache_load, cache_delete, cache_store, delete_all, of_wallet_app, get_wallet_by_session_key,
  replace_session_key, add_session_key, find_allowance, spent_by, calculate_session_key_spending,
  within_cap, validate_session_key_spending,
}
use wthelly.SessionKeys.Caps.{Capped, spent, spending-Capped}
use wthelly.SessionKeys.Rotation.{Evicted, add-rotates}
use wthelly.AppSessions.{Weights, amount_at}
use wthelly.AppSessions.Allocations.{
  find_amount, check_asset, check_balances, check_sums, verify_allocations,
}
use wthelly.AppSessions.Allocations.Sound.{verify-allocates_all}
use wthelly.Transactions.{parse_ledger_transaction_type, to_string, parse_to_string_iff}
use wthelly.Ledger.Balance.{funds, balance_total, funds-record_entry_ne}
use wthelly.Ledger.Exact.{AllExact, record_entry-moves}
use wthelly.Tests.{whole_decimals, two_addresses, funded, state_with, negated}

abbrev weights : Weights
weights = ("0xB", pos 40) ∷ ("0xA", pos 60) ∷ []

abbrev chess_key : SessionKey
chess_key = record {
  address = "key";
  wallet_address = "0xA";
  application = "chess";
  allowance = some (record { asset = "usdc"; amount = "100" } ∷ []);
  scope = "all";
  expires_at = 10;
}

chess_key-Capped : Capped chess_key "usdc" (pos 100)
unfolding find_allowance find whole_decimals
chess_key-Capped = record {
  other = refl;
  allowances = _;
  allowance = _;
  has = refl;
  lists = refl;
  reads_as = refl;
}

funded-AllExact : AllExact funded
unfolding book whole_decimals
funded-AllExact = (((pos 100, refl), (pos 0, refl)), tt)

spending-Capped_example :
    AllExact
      ((record_entry "0xA" "0xA" "usdc" (negated 30) (some "key") (state_with funded)).1.db.ledger)
    × (spent "key" "usdc"
          (record_entry "0xA" "0xA" "usdc" (negated 30) (some "key") (state_with funded)).1.db
        ≤ℤ pos 100)
unfolding select find any update ◌+ℤ◌ ◌-ℤ◌ whole_decimals two_addresses ◌>>=◌ pure fail reads modify
    guard new_account_id in_row in_account of_asset assets_of book record_entry sum
    credit_minus_debit balance by_asset sql_difference get_balances get_app_session_balances
    find_allowance spent_by calculate_session_key_spending sql_sum within_cap
    validate_session_key_spending
spending-Capped_example =
    spending-Capped chess_key "0xA" "0xA" "usdc" (pos 30) (state_with funded) refl chess_key-Capped
      refl (pos 30, refl) funded-AllExact refl

-- A has a key already, in the table and the cache.
abbrev old_key : SessionKey
old_key = record chess_key { address = "old" }

abbrev with_old_key : State ℤ
with_old_key = record (state_with funded) {
  db = record (state_with funded).db { session_keys = old_key ∷ [] };
  cache = record { key = "old"; wallet = "0xA"; expires_at = 100 } ∷ [];
}

add-rotates_example :
    ((get_wallet_by_session_key 5 "key"
        (add_session_key 0 "0xA" "key" "chess" "" [] 10 with_old_key).1).0
      ≡ ok "0xA")
    × ((k : SessionKey) × (k.address ≡ "key")
        × (select
              (of_wallet_app "0xA" "chess")
              ((add_session_key 0 "0xA" "key" "chess" "" [] 10 with_old_key).1).db.session_keys
            ≡ k ∷ []))
    × All
        (Evicted "key" (add_session_key 0 "0xA" "key" "chess" "" [] 10 with_old_key).1)
        (old_key ∷ [])
unfolding select find any update ◌+ℤ◌ ◌-ℤ◌ whole_decimals two_addresses ◌>>=◌ pure fail reads modify
    guard new_account_id in_row in_account of_asset assets_of book record_entry sum
    credit_minus_debit balance by_asset sql_difference get_balances get_app_session_balances
    cache_load cache_delete cache_store delete_all of_wallet_app get_wallet_by_session_key
    replace_session_key add_session_key transaction
add-rotates_example = add-rotates 0 "0xA" "key" "chess" "" [] 10 with_old_key _ 5 refl refl

balance_total_example :
    (d : ℤ) × (balance "0xA" "0xA" "usdc" (state_with funded) ≡ ok d)
    × (d ≡ funds "0xA" "0xA" "usdc" (state_with funded))
unfolding whole_decimals
balance_total_example = balance_total "0xA" "0xA" "usdc" (state_with funded) (inl refl)

record_entry-moves_example :
    AllExact (record_entry "0xA" "game" "usdc" (pos 7) none (state_with funded)).1.db.ledger
    × (funds "0xA" "game" "usdc"
          (record_entry "0xA" "game" "usdc" (pos 7) none (state_with funded)).1
        ≡ funds "0xA" "game" "usdc" (state_with funded) +ℤ pos 7)
unfolding whole_decimals
record_entry-moves_example =
    record_entry-moves "0xA" "game" "usdc" (pos 7) none (state_with funded) (pos 7, refl)
      funded-AllExact

funds-record_entry_ne_example :
    funds "0xB" "game" "usdc" (record_entry "0xA" "game" "usdc" (pos 7) none (state_with funded)).1
    ≡ funds "0xB" "game" "usdc" (state_with funded)
funds-record_entry_ne_example =
    funds-record_entry_ne "0xA" "game" "usdc" "0xB" "game" "usdc" (pos 7) none (state_with funded)
      (inl λ same. cc (ap (λ w. w == "0xA") same))

parse_to_string_iff_example :
    (parse_ledger_transaction_type "app_deposit" ≡ some app_deposit)
    ↔ ("app_deposit" ≡ to_string app_deposit)
parse_to_string_iff_example = parse_to_string_iff "app_deposit" app_deposit

verify-allocates_all_example :
    amount_at "usdc" (("eur", pos 0) ∷ ("usdc", pos 5) ∷ [])
    ≡ amount_at "usdc" (("usdc", pos 5) ∷ [])
unfolding verify_allocations check_balances check_asset check_sums find_amount whole_decimals
verify-allocates_all_example =
    verify-allocates_all (("usdc", pos 5) ∷ []) (("eur", pos 0) ∷ ("usdc", pos 5) ∷ []) "usdc" refl
