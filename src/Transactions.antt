-- ===== src/Transactions.antt =====
-- ledger_transaction.go: the journal of the ledger's movements and the names of its types.
use wthelly.Base.{
  ℕ, String, Bool, true, ◌&&◌, ◌||◌, ◌==◌, eq_ℕ, Option, none, some, List, ◌∷◌, ◌≡◌, refl, ap, ◌∙◌,
  ◌↔◌, eq_iff, select, arith, if◌then◌else◌,
}
use wthelly.Effect.{Effect, ok}
use wthelly.Money.{DecimalOps}
use wthelly.Store.{
  State, Db, LedgerTransaction, TransactionType, transfer, deposit, withdrawal, app_deposit,
  app_withdrawal, escrow_lock, escrow_unlock,
}

-- the stored code of a type
unfoldable pub code_of : TransactionType → ℕ
code_of transfer = 100
code_of deposit = 201
code_of withdrawal = 202
code_of app_deposit = 301
code_of app_withdrawal = 302
code_of escrow_lock = 401
code_of escrow_unlock = 402

-- `TransactionType.String`
unfoldable pub to_string : TransactionType → String
to_string transfer = "transfer"
to_string deposit = "deposit"
to_string withdrawal = "withdrawal"
to_string app_deposit = "app_deposit"
to_string app_withdrawal = "app_withdrawal"
to_string escrow_lock = "escrow_lock"
to_string escrow_unlock = "escrow_unlock"

-- `parseLedgerTransactionType`
unfoldable pub parse_ledger_transaction_type : String → Option TransactionType
parse_ledger_transaction_type s =
    if s == "transfer"
    then some transfer
    else if s == "deposit"
    then some deposit
    else if s == "withdrawal"
    then some withdrawal
    else if s == "app_deposit"
    then some app_deposit
    else if s == "app_withdrawal"
    then some app_withdrawal
    else if s == "escrow_lock"
    then some escrow_lock
    else if s == "escrow_unlock"
    then some escrow_unlock
    else none

print-parse : (t : TransactionType) → parse_ledger_transaction_type (to_string t) ≡ some t
unfolding parse_ledger_transaction_type to_string
print-parse transfer = refl
print-parse _ = refl

parse-print :
    (s : String) (t : TransactionType) → parse_ledger_transaction_type s ≡ some t → s ≡ to_string t
unfolding parse_ledger_transaction_type to_string
parse-print s t h = ground (
  arith,
  eq_iff s "transfer",
  eq_iff s "deposit",
  eq_iff s "withdrawal",
  eq_iff s "app_deposit",
  eq_iff s "app_withdrawal",
  eq_iff s "escrow_lock",
  eq_iff s "escrow_unlock",
)

-- A text is read as a type of transaction exactly if it is that type's name.
pub parse_to_string_iff :
    (s : String) (t : TransactionType)
    → (parse_ledger_transaction_type s ≡ some t) ↔ (s ≡ to_string t)
parse_to_string_iff s t = (parse-print s t, λ e. ap parse_ledger_transaction_type e ∙ print-parse t)

module _ {Decimal : Type 0} ⦃dec : DecimalOps Decimal⦄ where
  -- `RecordLedgerTransaction`: the row that it stored
  unfoldable pub record_ledger_transaction :
      TransactionType
      → String
      → String
      → String
      → Decimal
      → Effect (State Decimal) (LedgerTransaction Decimal)
  record_ledger_transaction tx_type from_account to_account asset amount s = (
    ok row,
    record s { db = record s.db { ledger_transactions = row ∷ s.db.ledger_transactions } },
  )
    where
      row : LedgerTransaction Decimal
      row = record {
        tx_type = tx_type;
        from_account = from_account;
        to_account = to_account;
        asset_symbol = asset;
        amount = dec.abs amount;
      }

module _ {Decimal : Type 0} where
  -- `type = ?`, on the stored codes
  unfoldable pub of_type : TransactionType → LedgerTransaction Decimal → Bool
  unfolding code_of
  of_type t r = eq_ℕ (code_of r.tx_type) (code_of t)

  -- `GetLedgerTransactionsWithTags`, without the join that adds the tags
  unfoldable pub get_ledger_transactions :
      String → String → Option TransactionType → Db Decimal → List (LedgerTransaction Decimal)
  unfolding of_type
  get_ledger_transactions account_id asset tx_type db =
      select
        (λ r.
          (account_id == "" || r.from_account == account_id || r.to_account == account_id)
          && (asset == "" || r.asset_symbol == asset)
          && elim tx_type [ none ↦ true | some t ↦ of_type t r ])
        db.ledger_transactions
