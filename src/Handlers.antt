-- ===== src/Handlers.antt =====
-- rpc_router_private.go: the handlers that move funds and revoke keys. A request comes with the
-- addresses that go-ethereum recovers from its signatures. Metrics, logs and notifications are left
-- out.
pub mod Transfer
pub mod Revoke
use wthelly.Base.{
  ℕ, String, Bool, true, false, not, ◌==◌, Option, none, some, List, [], ◌∷◌, find, if◌then◌else◌,
}
use wthelly.Error.{Error}
use wthelly.Effect.{Effect, Result, ok, err, or_fail, pure, fail, reads, guard, ◌>>=◌, ◌>>◌}
use wthelly.Store.{State, Db, UserTag}
use wthelly.SessionKeys.{get_wallet_by_session_key}

-- what a handler knows of a request: the user of the connection, the address recovered from each
-- signature, the hash of the message
pub record Request : Type 0 where
  pub user_id : String
  pub recovered : List (Option String)
  pub message_hash : String

module _ {Decimal : Type 0} where
  -- `verifySigner`: the address that signed first
  unfoldable pub verify_signer : ℕ → List (Option String) → String → Effect (State Decimal) String
  verify_signer now [] wallet = fail Error.missing_participant_signature
  verify_signer now (none ∷ _) wallet = fail Error.unrecoverable
  verify_signer now (some signer ∷ _) wallet = do
    mapped ← get_wallet_by_session_key now signer
    guard ((if mapped == "" then signer else mapped) == wallet) Error.invalid_signature
    pure signer

  -- `GetUserTagByWallet`: none where there is no row
  unfoldable pub get_user_tag_by_wallet : String → Db Decimal → Result (Option String)
  get_user_tag_by_wallet wallet db =
      if wallet == ""
      then err Error.empty_wallet
      else ok
          (elim (find (λ u. u.wallet == wallet) db.user_tags) [ none ↦ none | some u ↦ some u.tag ])

  -- `GetWalletByTag`, with `strings.ToUpper` as an argument
  unfoldable pub get_wallet_by_tag : (String → String) → String → Db Decimal → Result UserTag
  get_wallet_by_tag to_upper tag db =
      if tag == ""
      then err Error.empty_tag
      else or_fail (find (λ u. u.tag == to_upper tag) db.user_tags) Error.no_wallet_for_tag

-- the signer, if it is not the user's own wallet
unfoldable pub delegate_key : String → String → Option String
delegate_key signer user_id = if signer == user_id then none else some signer
