-- ===== src/AppSessions/Submit.antt =====
-- SubmitAppState: the update of a session that a quorum has signed.
pub mod Sessions
pub mod Saved
pub mod Accepted
pub mod Replay
use wthelly.Base.{
  ℕ, String, Bool, true, false, not, ◌&&◌, ◌||◌, ◌==◌, eq_ℕ, Option, none, some, List, [], ◌∷◌,
  update, if◌then◌else◌,
}
use wthelly.Base.Word.{next_uint64}
use wthelly.Error.{Error}
use wthelly.Effect.{Effect, Result, ok, err, or_fail, pure, fail, reads, guard, modify, ◌>>=◌, ◌>>◌}
use wthelly.Money.{DecimalOps, Addresses}
use wthelly.Store.{State, AppSession, open_status}
use wthelly.Store.Transaction.{transaction}
use wthelly.AppSessions.{
  AppAllocation, Update, get_app_session, validate_quorum_session_keys_application,
}
use wthelly.AppSessions.Quorum.{verify_quorum}
use wthelly.AppSessions.Deposit.{update_deposit}
use wthelly.AppSessions.Withdraw.{update_withdraw}
use wthelly.AppSessions.Operate.{update_operate}

-- `SubmitAppStateParams`
pub record SubmitAppStateParams (Decimal : Type 0) : Type 0 where
  pub app_session_id : String
  pub intent : String
  pub version : ℕ
  pub allocations : List (AppAllocation Decimal)
  pub session_data : Option String

-- The checks that depend on the protocol of the session.
unfoldable pub check_protocol :
    {Decimal : Type 0} → AppSession → SubmitAppStateParams Decimal → Result (Unit {0})
check_protocol session params =
    if session.protocol == "NitroRPC/0.4"
    then (if eq_ℕ (next_uint64 session.version) params.version
        then ok tt
        else err Error.incorrect_version)
    else if session.protocol == "NitroRPC/0.2"
    then (if not (params.intent == "") || not (eq_ℕ params.version 0)
        then err Error.unsupported_parameters
        else ok tt)
    else err Error.unsupported_protocol

-- `tx.Save`: the row of the session is replaced
unfoldable pub save_session : {Decimal : Type 0} → AppSession → Effect (State Decimal) (Unit {0})
save_session session s = (
  ok tt,
  record s {
    db = record s.db {
      app_sessions =
          update (λ a. a.session_id == session.session_id) (λ _. session) s.db.app_sessions;
    };
  },
)

unfoldable pub with_data : Option String → AppSession → AppSession
with_data none session = session
with_data (some text) session = record session { session_data = text }

module _ {Decimal : Type 0} ⦃dec : DecimalOps Decimal⦄ ⦃adr : Addresses⦄ where
  -- the updater of an intent
  unfoldable pub update_for :
      ℕ → String → Update Decimal → Effect (State Decimal) (List String × AppSession)
  update_for now intent u =
      if intent == "deposit"
      then update_deposit now u
      else if intent == "withdraw"
      then update_withdraw u
      else if intent == "operate" || intent == ""
      then update_operate u
      else fail Error.unsupported_intent

  -- the body of the transaction
  unfoldable pub apply_state :
      ℕ
      → SubmitAppStateParams Decimal
      → List String
      → List String
      → Effect (State Decimal) (List String × AppSession)
  apply_state now params rpc_wallets rpc_signers = do
    session ← reads λ s.
        or_fail (get_app_session params.app_session_id (some open_status) s.db)
          Error.session_not_found
    reads λ s. check_protocol session params
    weights ← reads λ s. verify_quorum session rpc_wallets
    validate_quorum_session_keys_application now rpc_signers session.application
    updated ← update_for now params.intent (record {
      app_session = session;
      app_session_id = params.app_session_id;
      allocations = params.allocations;
      rpc_signers = rpc_signers;
      participant_weights = weights;
    })
    save_session (with_data params.session_data updated.1)
    reloaded ←
        reads λ s. or_fail (get_app_session params.app_session_id none s.db) Error.session_not_found
    pure (updated.0, reloaded)

  -- `SubmitAppState`: the wallets to be notified and the session as it is stored
  unfoldable pub submit_app_state :
      ℕ
      → SubmitAppStateParams Decimal
      → List String
      → List String
      → Effect (State Decimal) (List String × AppSession)
  submit_app_state now params rpc_wallets rpc_signers =
      transaction (apply_state now params rpc_wallets rpc_signers)
