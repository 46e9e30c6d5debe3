-- ===== src/AppSessions/Submit/Accepted.antt =====
-- What an accepted update means, and what cannot be accepted after it.
use wthelly.Base.{
  ℕ, ◌≡◌, refl, sym, ap, ◌∙◌, Bool, true, false, String, ◌==◌, ◌||◌, none, some, List, find,
}
use wthelly.Error.{Error}
use wthelly.Effect.{ok, err, reads, ◌>>=◌}
use wthelly.Effect.Rules.{
  Ensures, Ensures-pure, Ensures-fail, Ensures-if, Ensures-bind, Ensures-guard-bind,
  Ensures-reads-bind,
}
use wthelly.Effect.Keeps.{Ensures-Keeps-bind}
use wthelly.Money.{DecimalOps, Addresses}
use wthelly.Base.Word.{next_uint64}
use wthelly.Store.{State, AppSession, open_status}
use wthelly.Channels.{same_status}
use wthelly.Store.Transaction.{transaction, Ensures-transaction}
use wthelly.AppSessions.{Update, Weights, get_app_session}
use wthelly.AppSessions.Checks.{validate_quorum-Keeps}
use wthelly.AppSessions.Quorum.{verify_quorum}
use wthelly.AppSessions.Deposit.{update_deposit}
use wthelly.AppSessions.Withdraw.{update_withdraw}
use wthelly.AppSessions.Operate.{update_operate}
use wthelly.AppSessions.Submit.{
  SubmitAppStateParams, check_protocol, save_session, with_data, update_for, apply_state,
  submit_app_state,
}
use wthelly.AppSessions.Submit.Sessions.{sessions, update_for-Keeps}
use wthelly.AppSessions.Submit.Saved.{
  row_of, found, find-saved-id, find-saved_none, or_fail-some, with_data-fields,
}

abbrev pub next_of : AppSession → AppSession
next_of a = record a { version = next_uint64 a.version }

module _ {Decimal : Type 0} ⦃dec : DecimalOps Decimal⦄ ⦃adr : Addresses⦄ where
  -- Each updater returns the session with its next version, and nothing else of it changed.
  update_for-next :
      (now : ℕ) (intent : String) (u : Update Decimal) (s : State Decimal)
      → Ensures s (update_for now intent u) (λ r _. r.1 ≡ next_of u.app_session)
  unfolding update_for update_deposit update_withdraw update_operate
  update_for-next now intent u s =
      Ensures-if (intent == "deposit") _ _
        (λ _. Ensures-reads-bind _ _ λ _ _. Ensures-reads-bind _ _ λ _ _.
          Ensures-bind _ _ {R = λ _ _. Unit {0}} (record { at = λ _ _. tt })
            λ _ _ _. Ensures-guard-bind _ _ _ λ _. Ensures-pure _ refl)
        λ _.
          Ensures-if (intent == "withdraw") _ _
            (λ _. Ensures-reads-bind _ _ λ _ _. Ensures-reads-bind _ _ λ _ _.
              Ensures-bind _ _ {R = λ _ _. Unit {0}} (record { at = λ _ _. tt })
                λ _ _ _. Ensures-guard-bind _ _ _ λ _. Ensures-pure _ refl)
            λ _.
              Ensures-if (intent == "operate" || intent == "") _ _
                (λ _. Ensures-reads-bind _ _ λ _ _.
                  Ensures-bind _ _ {R = λ _ _. Unit {0}} (record { at = λ _ _. tt })
                    λ _ _ _. Ensures-reads-bind _ _ λ _ _. Ensures-pure _ refl)
                (λ _. Ensures-fail _)

-- What an accepted update means: an open session was updated, its quorum signed, the version was the
-- one to come, and what is stored is that session with its next version.
pub record Accepted {Decimal : Type 0} (params : SubmitAppStateParams Decimal)
    (rpc_wallets : List String) (before : AppSession) (s : State Decimal) (after : AppSession)
    (t : State Decimal) : Type 0 where
  pub was_open : get_app_session params.app_session_id (some open_status) s.db ≡ some before
  pub protocol : check_protocol before params ≡ ok tt
  pub quorum : (w : Weights) × (verify_quorum before rpc_wallets ≡ ok w)
  pub result : after ≡ with_data params.session_data (next_of before)
  pub stored : get_app_session params.app_session_id (some open_status) t.db ≡ some after

some-injective : {A : Type 0} {a b : A} → some a ≡ some b → a ≡ b
some-injective e = cc

module _ {Decimal : Type 0} where
  pub save_session-stored :
      (id : String) (p : AppSession → Bool) (x before : AppSession) (s : State Decimal)
      → x.session_id ≡ id
      → find (row_of id p) s.db.app_sessions ≡ some before
      → Ensures s (save_session x) (λ _ t.
        (q : AppSession → Bool)
        → (q x ≡ true → find (row_of id q) t.db.app_sessions ≡ some x)
          × (q x ≡ false → find (row_of id q) t.db.app_sessions ≡ none))
  unfolding save_session
  save_session-stored id p x before s e f = record {
    at = λ _ _ q. (
      λ h. find-saved-id id p q x s.db.app_sessions e h f,
      λ h. find-saved_none id q x s.db.app_sessions e h,
    );
  }

module _ {Decimal : Type 0} ⦃dec : DecimalOps Decimal⦄ ⦃adr : Addresses⦄ where
  apply_state-Accepted :
      (now : ℕ) (params : SubmitAppStateParams Decimal) (wallets signers : List String)
      (s : State Decimal)
      → Ensures s
          (apply_state now params wallets signers)
          (λ r t. (before : AppSession) × Accepted params wallets before s r.1 t)
  unfolding apply_state get_app_session
  apply_state-Accepted now params wallets signers s = Ensures-reads-bind _ _ λ before is_open.
      Ensures-reads-bind _ _ λ _ proto. Ensures-reads-bind _ _ λ w quorum.
        Ensures-Keeps-bind _ _ (validate_quorum-Keeps _ _ _) λ _ s1 _ same1.
          Ensures-bind _ _ (updated now params w signers before s1) λ r s2 (next, same2).
            let open_row = or_fail-some _ _ is_open in
            let (same_id, status) = found params.app_session_id _ _ open_row in
            let fields = with_data-fields params.session_data r.1 in
            Ensures-bind _ _
              (save_session-stored params.app_session_id _ _ before s2
                (fields.0 ∙ ap (λ a. a.session_id) next ∙ same_id)
                (ap (find (row_of params.app_session_id λ a. same_status a.status open_status))
                    (same2 ∙ ap (λ db. db.app_sessions) same1)
                  ∙ open_row))
              λ _ s3 stored. Ensures-reads-bind _ _ λ after reread.
                let same =
                  some-injective (sym (or_fail-some _ _ reread) ∙ (stored λ _. true).0 refl) in
                Ensures-pure _ (
                  before,
                  record {
                    was_open = open_row;
                    protocol = proto;
                    quorum = (w, quorum);
                    result = same ∙ ap (with_data params.session_data) next;
                    stored =
                        (stored λ a. same_status a.status open_status).0 (
                          ap (λ st. same_status st open_status) (fields.1 ∙ ap (λ a. a.status) next)
                          ∙ status)
                        ∙ ap some (sym same);
                  },
                )
    where
      updated :
          (now : ℕ) (params : SubmitAppStateParams Decimal) (w : Weights) (signers : List String)
          (before : AppSession) (s : State Decimal)
          → Ensures s
              (update_for now params.intent (record {
                app_session = before;
                app_session_id = params.app_session_id;
                allocations = params.allocations;
                rpc_signers = signers;
                participant_weights = w;
              }))
              (λ r t. (r.1 ≡ next_of before) × (sessions t ≡ sessions s))
      updated now params w signers before s = record {
        at = λ a e. ((update_for-next now _ _ s).at a e, (update_for-Keeps now _ _).at s);
      }

module _ {Decimal : Type 0} ⦃dec : DecimalOps Decimal⦄ ⦃adr : Addresses⦄ where
  -- If SubmitAppState succeeds, then the session was open, its protocol's checks passed, verifyQuorum
  -- accepted the wallets that signed, and it is still open, with its next version and the data of the
  -- request, and as it was in all else; the session that is stored is the one returned.
  pub submit-Accepted :
      (now : ℕ) (params : SubmitAppStateParams Decimal) (wallets signers : List String)
      (s : State Decimal) {r : List String × AppSession}
      → (submit_app_state now params wallets signers s).0 ≡ ok r
      → (before : AppSession) × Accepted params wallets before s r.1
          (submit_app_state now params wallets signers s).1
  unfolding submit_app_state
  submit-Accepted now params wallets signers s {r} h =
      (Ensures-transaction _ (apply_state-Accepted now params wallets signers s)).at r h

  pub not_found :
      (later : ℕ) (again : SubmitAppStateParams Decimal) (wallets signers : List String)
      (t : State Decimal)
      → get_app_session again.app_session_id (some open_status) t.db ≡ none
      → (submit_app_state later again wallets signers t).0 ≡ err Error.session_not_found
  unfolding submit_app_state apply_state transaction ◌>>=◌ reads
  not_found later again wallets signers t h = rw h refl
