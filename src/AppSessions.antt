-- ===== src/AppSessions.antt =====
-- app_session_service.go: app sessions, shared accounts whose funds its participants redistribute
-- off-chain. This file has the parameters of the requests and the checks that the operations share;
-- the operations are in the child modules. A Go map that is ranged over is a list in the order of
-- that run, and `now` is the time of the request.
pub mod Checks
pub mod Quorum
pub mod Deposit
pub mod Allocations
pub mod Withdraw
pub mod Operate
pub mod Create
pub mod Submit
pub mod Close
use wthelly.Base.{
  ℕ, String, Bool, true, false, not, ◌==◌, Option, none, some, List, [], ◌∷◌, select, any, find,
  if◌then◌else◌,
}
use wthelly.Base.Int.{ℤ}
use wthelly.Error.{Error}
use wthelly.Effect.{
  Effect, Result, ok, err, or_fail, pure, reads, guard, modify, check, ◌>>=◌, ◌>>◌,
}
use wthelly.Money.{DecimalOps, Addresses}
use wthelly.Store.{State, Db, AppSession, ChannelStatus, open_status}
use wthelly.Channels.{same_status}
use wthelly.Ledger.{get_balances}
use wthelly.SessionKeys.{
  get_wallet_by_session_key, get_session_key_if_active, validate_session_key_application,
  validate_session_key_spending,
}

-- `AppAllocation`
pub record AppAllocation (Decimal : Type 0) : Type 0 where
  pub participant : String
  pub asset_symbol : String
  pub amount : Decimal

-- `SessionKeyContext`
pub record SessionKeyContext : Type 0 where
  pub session_key_address : Option String
  pub is_direct_sig : Bool
  pub has_signature : Bool

-- Amounts by asset, and by participant and asset; an absent amount is zero.
abbrev pub Amounts : Type 0 → Type 0
Amounts Decimal = List (String × Decimal)

module _ {Decimal : Type 0} where
  -- the loop of `getSessionKeyForAppParticipant` over the signers
  unfoldable pub delegate_of : ℕ → String → List String → Effect (State Decimal) SessionKeyContext
  delegate_of now participant [] =
      pure (record { session_key_address = none; is_direct_sig = false; has_signature = false })
  delegate_of now participant (signer ∷ signers) = do
    wallet ← get_wallet_by_session_key now signer
    if wallet == participant
        then pure (record {
          session_key_address = some signer;
          is_direct_sig = false;
          has_signature = true;
        })
        else delegate_of now participant signers

  -- `getSessionKeyForAppParticipant`
  unfoldable pub get_session_key_for_app_participant :
      ℕ → String → List String → Effect (State Decimal) SessionKeyContext
  get_session_key_for_app_participant now participant signers =
      if any (λ signer. signer == participant) signers
      then pure (record { session_key_address = none; is_direct_sig = true; has_signature = true })
      else delegate_of now participant signers

  -- `validateQuorumSessionKeysApplication`
  unfoldable pub validate_quorum_session_keys_application :
      ℕ → List String → String → Effect (State Decimal) (Unit {0})
  validate_quorum_session_keys_application now [] application = pure tt
  validate_quorum_session_keys_application now (signer ∷ signers) application = do
    wallet ← get_wallet_by_session_key now signer
    if wallet == "" then pure tt else if wallet == signer then pure tt else do
      key ← reads λ s. get_session_key_if_active now signer s.db
      reads λ s. validate_session_key_application key application
    validate_quorum_session_keys_application now signers application

  -- `getAppSession`: a status, or none to take the session in any
  unfoldable pub get_app_session : String → Option ChannelStatus → Db Decimal → Option AppSession
  unfolding same_status
  get_app_session session_id status db =
      find
        (λ a.
          if a.session_id == session_id
          then elim status [ none ↦ true | some st ↦ same_status a.status st ]
          else false)
        db.app_sessions

module _ {Decimal : Type 0} ⦃dec : DecimalOps Decimal⦄ where
  -- `validateDepositWithSessionKey`
  unfoldable pub validate_deposit_with_session_key :
      ℕ → String → String → String → Decimal → Effect (State Decimal) (Unit {0})
  validate_deposit_with_session_key now address application asset amount = do
    key ← reads λ s. get_session_key_if_active now address s.db
    reads λ s. validate_session_key_application key application
    reads λ s. validate_session_key_spending key asset amount s

  -- the validation that follows a signature, where a session key signed
  unfoldable pub validate_delegate :
      ℕ → Option String → String → String → Decimal → Effect (State Decimal) (Unit {0})
  validate_delegate now none application asset amount = pure tt
  validate_delegate now (some address) application asset amount =
      validate_deposit_with_session_key now address application asset amount

  -- `m[k]` of a map of amounts
  unfoldable pub amount_at : String → Amounts Decimal → Decimal
  amount_at k [] = dec.zero_d
  amount_at k ((j, a) ∷ m) = if j == k then a else amount_at k m

  -- `m[k] = m[k].Add(x)`
  unfoldable pub add_at : String → Decimal → Amounts Decimal → Amounts Decimal
  add_at k x [] = (k, dec.add dec.zero_d x) ∷ []
  add_at k x ((j, a) ∷ m) = if j == k then (j, dec.add a x) ∷ m else (j, a) ∷ add_at k x m

  -- `m[wallet][asset]`
  unfoldable pub allocation_at : String → String → List (String × Amounts Decimal) → Decimal
  unfolding amount_at
  allocation_at wallet asset [] = dec.zero_d
  allocation_at wallet asset ((w, m) ∷ rest) =
      if w == wallet then amount_at asset m else allocation_at wallet asset rest

  module _ ⦃adr : Addresses⦄ where
    -- `getParticipantAllocations`
    unfoldable pub get_participant_allocations :
        List String → String → State Decimal → List (String × Amounts Decimal)
    unfolding get_balances
    get_participant_allocations [] account_id s = []
    get_participant_allocations (p ∷ ps) account_id s =
        (p, select (λ b. not (dec.is_zero b.1)) (get_balances (adr.hex_address p) account_id s))
        ∷ get_participant_allocations ps account_id s

-- The weight of each participant, by wallet.
abbrev pub Weights : Type 0
Weights = List (String × ℤ)

-- `validateAppParticipant`
unfoldable pub validate_app_participant : String → Weights → Result (Unit {0})
validate_app_participant wallet weights =
    check (any (λ e. e.0 == wallet) weights) Error.non_participant

-- The parameters of an update: the session, the request's allocations and signers, the weights.
pub record Update (Decimal : Type 0) : Type 0 where
  pub app_session : AppSession
  pub app_session_id : String
  pub allocations : List (AppAllocation Decimal)
  pub rpc_signers : List String
  pub participant_weights : Weights
