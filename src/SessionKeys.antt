-- ===== src/SessionKeys.antt =====
-- session_key.go: delegated keys with spending caps, in a table and in a cache. `now` is the time of
-- the request.
pub mod Caps
pub mod Rotation
use wthelly.Base.{
  ℕ, String, Bool, true, false, not, ◌&&◌, ◌==◌, ltb, Option, none, some, List, [], ◌∷◌, map,
  select, find, any, update, if◌then◌else◌,
}
use wthelly.Error.{Error}
use wthelly.Effect.{Effect, Result, ok, err, or_fail, pure, reads, guard, modify, ◌>>=◌, ◌>>◌}
use wthelly.Money.{DecimalOps}
use wthelly.Store.{State, Db, Entry, SessionKey, Allowance, CacheEntry}
use wthelly.Store.Transaction.{transaction}
use wthelly.Ledger.{sql_sum}

-- `AppNameClearnode`
abbrev pub app_name_clearnode : String
app_name_clearnode = "clearnode"

-- `isExpired`
abbrev pub is_expired : ℕ → ℕ → Bool
is_expired now expires_at = ltb expires_at now

-- `sync.Map`: Load, Delete and Store.
unfoldable pub cache_load : String → List CacheEntry → Option CacheEntry
cache_load key = find λ e. e.key == key

unfoldable pub cache_delete : String → List CacheEntry → List CacheEntry
cache_delete key = select λ e. not (e.key == key)

unfoldable pub cache_store : String → String → ℕ → List CacheEntry → List CacheEntry
unfolding cache_delete
cache_store key wallet expires_at cache =
    record { key = key; wallet = wallet; expires_at = expires_at } ∷ cache_delete key cache

-- `deletedAddresses`, out of the cache
unfoldable pub delete_all : List SessionKey → List CacheEntry → List CacheEntry
unfolding cache_delete
delete_all [] cache = cache
delete_all (k ∷ ks) cache = delete_all ks (cache_delete k.address cache)

-- the rows, into the cache
unfoldable pub store_all : List SessionKey → List CacheEntry → List CacheEntry
unfolding cache_store
store_all [] cache = cache
store_all (k ∷ ks) cache = store_all ks (cache_store k.address k.wallet_address k.expires_at cache)

-- `address = ?`
abbrev pub has_address : String → SessionKey → Bool
has_address address k = k.address == address

-- `wallet_address = ? AND application = ?`
unfoldable pub of_wallet_app : String → String → SessionKey → Bool
of_wallet_app wallet application k = (k.wallet_address == wallet) && (k.application == application)

module _ {Decimal : Type 0} where
  -- `GetWalletBySessionKey`: the empty text where no live key is cached; an expired one is purged.
  unfoldable pub get_wallet_by_session_key : ℕ → String → Effect (State Decimal) String
  get_wallet_by_session_key now key s = elim (cache_load key s.cache) [
    | none ↦ (ok "", s)
    | some e ↦
        if is_expired now e.expires_at
        then (ok "", record s { cache = cache_delete key s.cache })
        else (ok e.wallet, s)
  ]

  -- `loadSessionKeyCache`
  unfoldable pub load_session_key_cache : ℕ → Effect (State Decimal) (Unit {0})
  load_session_key_cache now = modify λ s. record s {
    cache = store_all (select (λ k. ltb now k.expires_at) s.db.session_keys) s.cache;
  }

  -- the database's part of `AddSessionKey`: the old keys of the wallet and application make way, and
  -- the column `address` is unique
  unfoldable pub replace_session_key : SessionKey → Effect (State Decimal) (Unit {0})
  replace_session_key key = do
    modify λ s. record s {
      db = record s.db {
        session_keys =
            select (λ k. not (of_wallet_app key.wallet_address key.application k))
              s.db.session_keys;
      };
    }
    taken ← reads λ s. ok (any (has_address key.address) s.db.session_keys)
    guard (not taken) Error.duplicate_key
    modify λ s. record s { db = record s.db { session_keys = key ∷ s.db.session_keys } }

  -- `AddSessionKey`: the cache follows after the transaction has committed.
  unfoldable pub add_session_key :
      ℕ → String → String → String → String → List Allowance → ℕ → Effect (State Decimal) (Unit {0})
  add_session_key now wallet address application scope allowances expires_at = do
    guard (not (is_expired now expires_at)) Error.expiration_not_in_future
    existing ← reads λ s. ok (select (of_wallet_app wallet application) s.db.session_keys)
    transaction (
        replace_session_key (record {
          address = address;
          wallet_address = wallet;
          application = application;
          allowance = some allowances;
          scope = if scope == "" then "all" else scope;
          expires_at = expires_at;
        }))
    modify λ s. record s {
      cache = cache_store address wallet expires_at (delete_all existing s.cache);
    }

  -- `CheckSessionKeyExists`
  unfoldable pub check_session_key_exists : ℕ → String → String → State Decimal → Result Bool
  unfolding cache_load
  check_session_key_exists now wallet address s = elim (cache_load address s.cache) [
    | some e ↦
        if e.wallet == wallet
        then (if is_expired now e.expires_at then err Error.key_exists_and_expired else ok true)
        else err Error.signer_used_for_another_wallet
    | none ↦ elim (find (has_address address) s.db.session_keys) [
      | none ↦ ok false
      | some k ↦
          if is_expired now k.expires_at
          then err Error.key_exists_and_expired
          else if k.wallet_address == wallet
          then ok true
          else err Error.signer_used_for_another_wallet
    ]
  ]

  -- `GetSessionKeyIfActive`: the clearnode's own keys are not tested for expiry here.
  unfoldable pub get_session_key_if_active : ℕ → String → Db Decimal → Result SessionKey
  get_session_key_if_active now address db = elim (find (has_address address) db.session_keys) [
    | none ↦ err Error.record_not_found
    | some k ↦
        if not (k.application == app_name_clearnode) && is_expired now k.expires_at
        then err Error.session_key_expired
        else ok k
  ]

  -- `GetActiveSessionKeyForWallet`
  unfoldable pub get_active_session_key_for_wallet :
      ℕ → String → String → Db Decimal → Result SessionKey
  get_active_session_key_for_wallet now address wallet db =
      elim (find (λ k. has_address address k && (k.wallet_address == wallet)) db.session_keys) [
        | none ↦ err Error.record_not_found
        | some k ↦ if is_expired now k.expires_at then err Error.session_key_expired else ok k
      ]

  -- `RevokeSessionKeyFromDB`
  unfoldable pub revoke_session_key_from_db : ℕ → String → Effect (State Decimal) (Unit {0})
  revoke_session_key_from_db now address = modify λ s. record s {
    db = record s.db {
      session_keys =
          update (has_address address) (λ k. record k { expires_at = now }) s.db.session_keys;
    };
  }

-- `ValidateSessionKeyApplication`
unfoldable pub validate_session_key_application : SessionKey → String → Result (Unit {0})
validate_session_key_application k application =
    if k.application == app_name_clearnode
    then ok tt
    else if k.application == application
    then ok tt
    else err Error.application_mismatch

-- the first allowance for an asset
unfoldable pub find_allowance : String → List Allowance → Option Allowance
find_allowance asset = find λ a. a.asset == asset

module _ {Decimal : Type 0} where
  -- `session_key = ? AND asset_symbol = ?`
  unfoldable pub spent_by : String → String → Entry Decimal → Bool
  spent_by key asset e = elim e.session_key [
    | none ↦ false
    | some k ↦ (k == key) && (e.asset_symbol == asset)
  ]

module _ {Decimal : Type 0} ⦃dec : DecimalOps Decimal⦄ where
  open dec use {add, greater_than, from_string}

  -- `CalculateSessionKeySpending`
  unfoldable pub calculate_session_key_spending : String → String → State Decimal → Decimal
  unfolding spent_by sql_sum
  calculate_session_key_spending key asset s =
      sql_sum s.driver (map (λ e. e.debit) (select (spent_by key asset) s.db.ledger))

  -- the test of `ValidateSessionKeySpending` against an allowance
  unfoldable pub within_cap :
      SessionKey → String → Decimal → State Decimal → Allowance → Result (Unit {0})
  within_cap k asset requested s allowance = elim (from_string allowance.amount) [
    | none ↦ err Error.unparsable_allowance
    | some allowed ↦
        if greater_than (add (calculate_session_key_spending k.address asset s) requested) allowed
        then err Error.insufficient_allowance
        else ok tt
  ]

  -- `ValidateSessionKeySpending`
  unfoldable pub validate_session_key_spending :
      SessionKey → String → Decimal → State Decimal → Result (Unit {0})
  unfolding find_allowance within_cap
  validate_session_key_spending k asset requested s =
      if k.application == app_name_clearnode then ok tt else elim k.allowance [
        | none ↦ err Error.no_allowance
        | some allowances ↦ elim (find_allowance asset allowances) [
          | none ↦ err Error.asset_not_allowed
          | some allowance ↦ within_cap k asset requested s allowance
        ]
      ]
