-- ===== src/Handlers/Revoke.antt =====
-- HandleRevokeSessionKey: a key is expired by its wallet, by itself, or by a key of the clearnode.
pub mod Ends
use wthelly.Base.{ℕ, String, not, ◌==◌, Option, none, some, if◌then◌else◌}
use wthelly.Error.{Error}
use wthelly.Effect.{Effect, Result, ok, err, pure, reads, guard, modify, check, ◌>>=◌, ◌>>◌}
use wthelly.Store.{State, Db}
use wthelly.Store.Transaction.{transaction}
use wthelly.SessionKeys.{
  app_name_clearnode, cache_delete, get_session_key_if_active, get_active_session_key_for_wallet,
  revoke_session_key_from_db,
}
use wthelly.Handlers.{Request, verify_signer, delegate_key}

module _ {Decimal : Type 0} where
  -- whether the key found is one of the clearnode's
  unfoldable pub may_revoke : ℕ → String → Option String → Db Decimal → Result (Unit {0})
  may_revoke now target none db = ok tt
  may_revoke now target (some active) db =
      if active == target then ok tt else elim (get_session_key_if_active now active db) [
        | err e ↦ err Error.active_session_key_invalid
        | ok k ↦ check (k.application == app_name_clearnode) Error.insufficient_permissions
      ]

  unfoldable pub is_active_key : ℕ → String → String → Db Decimal → Result (Unit {0})
  is_active_key now target user_id db =
      elim (get_active_session_key_for_wallet now target user_id db) [
        | err e ↦ err Error.not_an_active_session_key
        | ok k ↦ ok tt
      ]

  -- `HandleRevokeSessionKey`: the key that was revoked
  unfoldable pub handle_revoke_session_key : ℕ → Request → String → Effect (State Decimal) String
  handle_revoke_session_key now req target = do
    guard (not (target == "")) Error.missing_session_key
    signer ← verify_signer now req.recovered req.user_id
    transaction (do
      reads λ s. is_active_key now target req.user_id s.db
      reads λ s. may_revoke now target (delegate_key signer req.user_id) s.db
      revoke_session_key_from_db now target)
    modify λ s. record s { cache = cache_delete target s.cache }
    pure target
