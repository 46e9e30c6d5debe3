-- ===== src/Ledger.antt =====
-- ledger.go: the double-entry ledger. An entry books a credit or a debit for a wallet in an account;
-- an account is a wallet, a channel or an app session.
pub mod Value
pub mod Balance
pub mod Moves
pub mod Conserved
pub mod Payments
pub mod Changes
pub mod Exact
use wthelly.Base.{String, Bool, ◌&&◌, ◌==◌, Option, List, [], ◌∷◌, map, select, any, if◌then◌else◌}
use wthelly.Error.{Error}
use wthelly.Effect.{Effect, Result, ok, err, modify}
use wthelly.Money.{DecimalOps, Addresses}
use wthelly.Store.{State, Db, Entry}

-- `NewAccountID`: an address takes its checksummed spelling, any other text stays.
unfoldable pub new_account_id : ⦃adr : Addresses⦄ → String → String
new_account_id ⦃adr⦄ account_id =
    if adr.is_hex_address account_id then adr.hex_address account_id else account_id

module _ {Decimal : Type 0} where
  -- `account_id = ? AND asset_symbol = ? AND wallet = ?`
  unfoldable pub in_row : String → String → String → Entry Decimal → Bool
  in_row account_id asset wallet e =
      (e.account_id == account_id) && (e.asset_symbol == asset) && (e.wallet == wallet)

  -- the rows of one account and wallet, of whatever asset
  unfoldable pub in_account : String → String → Entry Decimal → Bool
  in_account account_id wallet e = (e.account_id == account_id) && (e.wallet == wallet)

  unfoldable pub of_asset : String → Entry Decimal → Bool
  of_asset asset e = e.asset_symbol == asset

  -- the assets of a list of rows, each once: `GROUP BY asset_symbol`
  unfoldable pub assets_of : List (Entry Decimal) → List String
  assets_of [] = []
  assets_of (e ∷ es) =
      let rest = assets_of es in
      if any (λ a. a == e.asset_symbol) rest then rest else e.asset_symbol ∷ rest

module _ {Decimal : Type 0} ⦃dec : DecimalOps Decimal⦄ where
  open dec use {zero_d, add, sub, abs, float_sum, float_difference, is_positive, is_negative}

  -- The rows after `Record`, with the amount as it is. PostgreSQL's columns hold 18 fractional digits and
  -- round finer amounts, which is left out (Ledger/Exact is about those that are not finer). A positive amount is a credit, a negative one a debit, zero no row.
  unfoldable pub book :
      String
      → String
      → String
      → Decimal
      → Option String
      → List (Entry Decimal)
      → List (Entry Decimal)
  book wallet account_id asset amount session_key es =
      if is_positive amount
      then record empty { credit = amount } ∷ es
      else if is_negative amount
      then record empty { debit = abs amount } ∷ es
      else es
    where
      empty : Entry Decimal
      empty = record {
        account_id = account_id;
        asset_symbol = asset;
        wallet = wallet;
        credit = zero_d;
        debit = zero_d;
        session_key = session_key;
      }

  -- `WalletLedger.Record`, of the ledger of a wallet.
  unfoldable pub record_entry :
      String → String → String → Decimal → Option String → Effect (State Decimal) (Unit {0})
  record_entry wallet account_id asset amount session_key = modify λ s. record s {
    db = record s.db { ledger = book wallet account_id asset amount session_key s.db.ledger };
  }

  -- `COALESCE(SUM(...), 0)`
  unfoldable pub sum : List Decimal → Decimal
  sum [] = zero_d
  sum (x ∷ xs) = add x (sum xs)

  -- `COALESCE(SUM(credit), 0) - COALESCE(SUM(debit), 0)`
  unfoldable pub credit_minus_debit : List (Entry Decimal) → Decimal
  unfolding sum
  credit_minus_debit es = sub (sum (map (λ e. e.credit) es)) (sum (map (λ e. e.debit) es))

  -- the same sums as a database computes them: SQLite's are not exact
  unfoldable pub sql_sum : String → List Decimal → Decimal
  unfolding sum
  sql_sum driver xs = if driver == "sqlite" then float_sum xs else sum xs

  unfoldable pub sql_difference : String → List (Entry Decimal) → Decimal
  unfolding credit_minus_debit
  sql_difference driver es =
      if driver == "sqlite"
      then float_difference (map (λ e. e.credit) es) (map (λ e. e.debit) es)
      else credit_minus_debit es

  -- the loop over the rows that replaces the sums under sqlite
  unfoldable pub add_rows : Decimal → List (Entry Decimal) → Decimal
  add_rows balance [] = balance
  add_rows balance (e ∷ es) = add_rows (sub (add balance e.credit) e.debit) es

  -- `WalletLedger.Balance`
  unfoldable pub balance : String → String → String → State Decimal → Result Decimal
  unfolding in_row
  balance wallet account_id asset s =
      let rows = select (in_row account_id asset wallet) s.db.ledger in
      if s.driver == "postgres"
      then ok (credit_minus_debit rows)
      else if s.driver == "sqlite"
      then ok (add_rows zero_d rows)
      else err Error.unsupported_driver

  -- the rows of a query, summed by asset
  unfoldable pub by_asset : String → List (Entry Decimal) → List String → List (String × Decimal)
  unfolding of_asset sql_difference
  by_asset driver rows [] = []
  by_asset driver rows (a ∷ assets) =
      (a, sql_difference driver (select (of_asset a) rows)) ∷ by_asset driver rows assets

  -- `WalletLedger.GetBalances`
  unfoldable pub get_balances : String → String → State Decimal → List (String × Decimal)
  unfolding in_account assets_of by_asset
  get_balances wallet account_id s =
      let rows = select (in_account account_id wallet) s.db.ledger in
      by_asset s.driver rows (assets_of rows)

  -- `getAppSessionBalances`: every wallet's rows in the session's account
  unfoldable pub get_app_session_balances : String → State Decimal → List (String × Decimal)
  unfolding assets_of by_asset
  get_app_session_balances session_account_id s =
      let rows = select (λ e. e.account_id == session_account_id) s.db.ledger in
      by_asset s.driver rows (assets_of rows)
