-- ===== src/AppSessions/Submit/Replay.antt =====
-- A request whose version has been used cannot be accepted again.
use mathlib.Core.Path.{subst}
use wthelly.Base.{ℕ, ◌≡◌, refl, sym, ap, ◌∙◌, false, String, eq_iff, some, List, arith, eq_ℕ}
use wthelly.Error.{Error}
use wthelly.Effect.{ok, err, reads, ◌>>=◌}
use wthelly.Money.{DecimalOps, Addresses}
use wthelly.Base.Word.{next_uint64}
use wthelly.Store.{State, AppSession, open_status}
use wthelly.Store.Transaction.{transaction}
use wthelly.AppSessions.{get_app_session}
use wthelly.AppSessions.Submit.{SubmitAppStateParams, check_protocol, apply_state, submit_app_state}
use wthelly.AppSessions.Submit.Saved.{with_data-fields}
use wthelly.AppSessions.Submit.Accepted.{next_of, submit-Accepted}

next_twice : (n : ℕ) → eq_ℕ (next_uint64 (next_uint64 n)) (next_uint64 n) ≡ false
next_twice n = ground arith

module _ {Decimal : Type 0} ⦃dec : DecimalOps Decimal⦄ ⦃adr : Addresses⦄ where
  expected_version :
      (a : AppSession) (params : SubmitAppStateParams Decimal)
      → a.protocol ≡ "NitroRPC/0.4"
      → check_protocol a params ≡ ok tt
      → params.version ≡ next_uint64 a.version
  unfolding check_protocol
  expected_version a params p h = ground (arith, eq_iff a.protocol "NitroRPC/0.4")

  stale_version :
      (a : AppSession) (params : SubmitAppStateParams Decimal)
      → a.protocol ≡ "NitroRPC/0.4"
      → eq_ℕ (next_uint64 a.version) params.version ≡ false
      → check_protocol a params ≡ err Error.incorrect_version
  unfolding check_protocol
  stale_version a params p h = rw (p, h) refl

  pub refused :
      (now : ℕ) (params : SubmitAppStateParams Decimal) (wallets signers : List String)
      (t : State Decimal) {a : AppSession} {e : Error}
      → get_app_session params.app_session_id (some open_status) t.db ≡ some a
      → check_protocol a params ≡ err e
      → (submit_app_state now params wallets signers t).0 ≡ err e
  unfolding submit_app_state apply_state transaction ◌>>=◌ reads
  refused now params wallets signers t is_open h = rw (is_open, h) refl

  -- Once an update of a session under NitroRPC/0.4 is accepted, a request with the same version for
  -- that session, whoever signs it, fails with the error for an incorrect version.
  pub submit-replay :
      (now : ℕ) (params : SubmitAppStateParams Decimal) (wallets signers : List String)
      (s : State Decimal) {r : List String × AppSession} (later : ℕ)
      (again : SubmitAppStateParams Decimal) (wallets' signers' : List String)
      → (submit_app_state now params wallets signers s).0 ≡ ok r
      → r.1.protocol ≡ "NitroRPC/0.4"
      → again.app_session_id ≡ params.app_session_id
      → again.version ≡ params.version
      → (submit_app_state later again wallets' signers'
          (submit_app_state now params wallets signers s).1).0
        ≡ err Error.incorrect_version
  submit-replay now params wallets signers s {r} later again wallets' signers' h p same_id
        same_version =
      let (before, a) = submit-Accepted now params wallets signers s h in
      let fields = with_data-fields params.session_data (next_of before) in
      let version : again.version ≡ next_uint64 before.version =
        same_version
        ∙ expected_version before params (sym (ap (λ x. x.protocol) a.result ∙ fields.2) ∙ p)
            a.protocol in
      refused later again wallets' signers' _
        (ap
            (λ i.
              get_app_session i (some open_status)
                (submit_app_state now params wallets signers s).1.db)
            same_id
          ∙ a.stored)
        (stale_version r.1 again p (
          subst (λ v. eq_ℕ (next_uint64 r.1.version) v ≡ false) (sym version)
            (rw (a.result, fields.3) (next_twice before.version))))
