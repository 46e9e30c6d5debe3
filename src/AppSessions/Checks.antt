-- ===== src/AppSessions/Checks.antt =====
-- The checks that the operations share change no table; what they establish.
use wthelly.Base.{ℕ, String, Option, none, some, List, [], ◌∷◌, arith}
use wthelly.Money.{DecimalOps}
use wthelly.Store.{State}
use wthelly.Effect.Keeps.{Keeps, Keeps-pure, Keeps-if, Keeps-reads, Keeps-bind}
use wthelly.SessionKeys.{get_wallet_by_session_key}
use wthelly.AppSessions.{
  delegate_of, get_session_key_for_app_participant, validate_quorum_session_keys_application,
  validate_deposit_with_session_key, validate_delegate,
}

module _ {Decimal : Type 0} where
  pub get_wallet-Keeps :
      (now : ℕ) (key : String)
      → Keeps {S = State Decimal} (λ s. s.db) (get_wallet_by_session_key now key)
  unfolding get_wallet_by_session_key
  get_wallet-Keeps now key = record { at = λ s. ground arith }

  delegate_of-Keeps :
      (now : ℕ) (participant : String) (signers : List String)
      → Keeps {S = State Decimal} (λ s. s.db) (delegate_of now participant signers)
  unfolding delegate_of
  delegate_of-Keeps now participant [] = Keeps-pure _
  delegate_of-Keeps now participant (signer ∷ signers) =
      Keeps-bind _ _ (get_wallet-Keeps now signer)
        λ w. Keeps-if _ _ _ (Keeps-pure _) (delegate_of-Keeps now participant signers)

  pub get_session_key-Keeps :
      (now : ℕ) (participant : String) (signers : List String)
      → Keeps {S = State Decimal}
          (λ s. s.db)
          (get_session_key_for_app_participant now participant signers)
  unfolding get_session_key_for_app_participant
  get_session_key-Keeps now participant signers =
      Keeps-if _ _ _ (Keeps-pure _) (delegate_of-Keeps now participant signers)

  pub validate_quorum-Keeps :
      (now : ℕ) (signers : List String) (application : String)
      → Keeps {S = State Decimal}
          (λ s. s.db)
          (validate_quorum_session_keys_application now signers application)
  unfolding validate_quorum_session_keys_application
  validate_quorum-Keeps now [] application = Keeps-pure _
  validate_quorum-Keeps now (signer ∷ signers) application =
      Keeps-bind _ _ (get_wallet-Keeps now signer) λ w.
        Keeps-bind _ _
          (Keeps-if _ _ _ (Keeps-pure _)
            (Keeps-if _ _ _ (Keeps-pure _) (Keeps-bind _ _ (Keeps-reads _) λ k. Keeps-reads _)))
          λ _. validate_quorum-Keeps now signers application

module _ {Decimal : Type 0} ⦃dec : DecimalOps Decimal⦄ where
  pub validate_delegate-Keeps :
      (now : ℕ) (key : Option String) (application asset : String) (amount : Decimal)
      → Keeps (λ (s : State Decimal). s.db) (validate_delegate now key application asset amount)
  unfolding validate_delegate validate_deposit_with_session_key
  validate_delegate-Keeps now none application asset amount = Keeps-pure tt
  validate_delegate-Keeps now (some address) application asset amount =
      Keeps-bind _ _ (Keeps-reads _) λ k. Keeps-bind _ _ (Keeps-reads _) λ _. Keeps-reads _
