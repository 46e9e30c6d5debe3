-- ===== src/AppSessions/Close/Final.antt =====
-- What closing a session leaves: the session is closed, and is neither updated nor closed a second time in
-- the state that closing leaves.
use mathlib.Core.Path.{subst}
use wthelly.Base.{ℕ, ◌≡◌, ◌≢◌, refl, sym, ap, ◌∙◌, true, String, none, some, List, [], ◌∷◌, find}
use wthelly.Error.{Error}
use wthelly.Base.Word.{next_uint64}
use wthelly.Effect.{ok, err}
use wthelly.Effect.Rules.{
  Ensures, Ensures-pure, Ensures-bind, Ensures-reads-bind, Ensures-guard-bind,
}
use wthelly.Effect.Keeps.{
  Keeps, Keeps-pure, Keeps-reads, Keeps-guard, Keeps-bind, Ensures-Keeps-bind,
}
use wthelly.Money.{DecimalOps, Addresses}
use wthelly.Store.{State, AppSession, open_status, closed}
use wthelly.Channels.{same_status}
use wthelly.Store.Transaction.{Ensures-transaction}
use wthelly.AppSessions.{AppAllocation, Amounts, Weights, get_app_session}
use wthelly.AppSessions.Checks.{validate_quorum-Keeps}
use wthelly.AppSessions.Submit.{SubmitAppStateParams, submit_app_state}
use wthelly.AppSessions.Submit.Sessions.{sessions, record_entry-Keeps, journal-Keeps}
use wthelly.AppSessions.Submit.Saved.{row_of, found, or_fail-some, with_data-fields}
use wthelly.AppSessions.Submit.Accepted.{save_session-stored, not_found}
use wthelly.AppSessions.Close.{
  CloseAppSessionParams, pay_one, pay_all, redistribute, close_application,
}

no_session : {A : Type 0} {a : A} → none ≡ some a → ⊥
no_session e = cc

module _ {Decimal : Type 0} ⦃dec : DecimalOps Decimal⦄ ⦃adr : Addresses⦄ where
  pay_one-Keeps :
      (account : String) (weights : Weights) (alloc : AppAllocation Decimal)
      → Keeps sessions (pay_one account weights alloc)
  unfolding pay_one
  pay_one-Keeps account weights alloc = Keeps-bind _ _ (Keeps-guard _ _) λ _.
      Keeps-bind _ _ (Keeps-reads _) λ _. Keeps-bind _ _ (Keeps-reads _) λ _.
        Keeps-bind _ _ (record_entry-Keeps _ _ _ _ _) λ _.
          Keeps-bind _ _ (record_entry-Keeps _ _ _ _ _)
            λ _. Keeps-bind _ _ (journal-Keeps _ _ _ _ _) λ _. Keeps-pure _

  pay_all-Keeps :
      (account : String) (weights : Weights) (allocs : List (AppAllocation Decimal))
      (sums : Amounts Decimal)
      → Keeps sessions (pay_all account weights allocs sums)
  unfolding pay_all
  pay_all-Keeps account weights [] sums = Keeps-pure _
  pay_all-Keeps account weights (alloc ∷ allocs) sums =
      Keeps-bind _ _ (pay_one-Keeps account weights alloc)
        λ _. Keeps-bind _ _ (pay_all-Keeps account weights allocs _) λ _. Keeps-pure _

  -- What CloseApplication leaves: the session is closed, and no open one has its id.
  pub record Closed (id : String) (version : ℕ) (t : State Decimal) : Type 0 where
    pub session : AppSession
    pub stored : get_app_session id none t.db ≡ some session
    pub gone : get_app_session id (some open_status) t.db ≡ none
    pub status : session.status ≡ closed
    pub next : session.version ≡ version

  -- After the redistribution, a query for the session finds it closed, with its next version.
  redistribute-Closed :
      (now : ℕ) (params : CloseAppSessionParams Decimal) (wallets signers : List String)
      (s : State Decimal)
      → Ensures s
          (redistribute now params wallets signers)
          (λ r t. Closed params.app_session_id r.1 t)
  unfolding redistribute get_app_session same_status
  redistribute-Closed now params wallets signers s = Ensures-reads-bind _ _ λ before is_open.
      Ensures-reads-bind _ _ λ w quorum.
        Ensures-Keeps-bind _ _ (validate_quorum-Keeps _ _ _) λ _ s1 _ same1.
          Ensures-reads-bind _ _ λ held _.
            Ensures-Keeps-bind _ _ (pay_all-Keeps _ _ _ _) λ paid s2 _ same2.
              Ensures-reads-bind _ _ λ _ _.
                let open_row = or_fail-some _ _ is_open in
                let (same_id, status) = found params.app_session_id _ _ open_row in
                let fields =
                  with_data-fields params.session_data
                    (record before { status = closed; version = next_uint64 before.version }) in
                Ensures-bind _ _
                  (save_session-stored params.app_session_id _ _ before s2 (fields.0 ∙ same_id) (
                    ap (find (row_of params.app_session_id λ a. same_status a.status open_status))
                      (same2 ∙ ap (λ db. db.app_sessions) same1)
                    ∙ open_row))
                  λ _ s3 stored. Ensures-pure _ (record {
                    session = _;
                    stored = (stored λ _. true).0 refl;
                    gone =
                        (stored λ a. same_status a.status open_status).1
                          (ap (λ st. same_status st open_status) fields.1);
                    status = fields.1;
                    next = fields.3;
                  })

  -- no session is closed of which no open one is stored
  redistribute-refused :
      (now : ℕ) (params : CloseAppSessionParams Decimal) (wallets signers : List String)
      (s : State Decimal)
      → get_app_session params.app_session_id (some open_status) s.db ≡ none
      → Ensures s (redistribute now params wallets signers) (λ _ _. ⊥)
  unfolding redistribute
  redistribute-refused now params wallets signers s gone =
      Ensures-reads-bind _ _
        λ before is_open. elim (no_session (sym gone ∙ or_fail-some _ _ is_open)) [ ]

  cannot_close :
      (now : ℕ) (params : CloseAppSessionParams Decimal) (wallets signers : List String)
      (s : State Decimal)
      → get_app_session params.app_session_id (some open_status) s.db ≡ none
      → Ensures s (close_application now params wallets signers) (λ _ _. ⊥)
  unfolding close_application
  cannot_close now params wallets signers s gone =
      Ensures-guard-bind _ _ _
        λ _. Ensures-transaction _ (redistribute-refused now params wallets signers s gone)

  -- If CloseApplication succeeds, then in the state it leaves the session is stored as closed, with the
  -- version returned; a request to update a session with its id, made in that state at any time and
  -- signed by anyone, fails with the error for a session that is not open; and a request made in that
  -- state to close a session with its id does not succeed.
  pub close-final :
      (now : ℕ) (params : CloseAppSessionParams Decimal) (wallets signers : List String)
      (s t : State Decimal) {r : List String × ℕ} (later : ℕ) (again : SubmitAppStateParams Decimal)
      (reclose : CloseAppSessionParams Decimal) (wallets' signers' : List String)
      → close_application now params wallets signers s ≡ (ok r, t)
      → again.app_session_id ≡ params.app_session_id
      → reclose.app_session_id ≡ params.app_session_id
      → Closed params.app_session_id r.1 t
        × ((submit_app_state later again wallets' signers' t).0 ≡ err Error.session_not_found)
        × ((r' : List String × ℕ) → (close_application later reclose wallets' signers' t).0 ≢ ok r')
  unfolding close_application
  close-final now params wallets signers s t {r} later again reclose wallets' signers' h same
        same' =
      let c : Closed params.app_session_id r.1 t =
        subst (Closed params.app_session_id r.1) (ap (λ x. x.1) h) (
          (Ensures-guard-bind _ _ _
              λ _. Ensures-transaction _ (redistribute-Closed now params wallets signers s)).at
            r (ap (λ x. x.0) h)) in
      (
        c,
        not_found later again wallets' signers' t
            (ap (λ i. get_app_session i (some open_status) t.db) same ∙ c.gone),
        (cannot_close later reclose wallets' signers' t
            (ap (λ i. get_app_session i (some open_status) t.db) same' ∙ c.gone)).at,
      )
