-- ===== src/AppSessions/Create.antt =====
-- CreateAppSession: a session opens with the deposits of those who signed for them.
pub mod Conserves
use wthelly.Base.{
  ℕ, String, Bool, true, false, not, ◌&&◌, ◌||◌, ◌==◌, eq_ℕ, ltb, leb, Option, none, some, List, [],
  ◌∷◌, any, length, is_empty, if◌then◌else◌,
}
use wthelly.Base.Int.{ℤ, pos, ltb_ℤ}
use wthelly.Base.Word.{add_int64, to_uint64}
use wthelly.Error.{Error}
use wthelly.Effect.{Effect, Result, ok, err, pure, fail, reads, guard, modify, check, ◌>>=◌, ◌>>◌}
use wthelly.Money.{DecimalOps, Addresses}
use wthelly.Store.{State, AppSession, open_status}
use wthelly.Store.Transaction.{transaction}
use wthelly.Channels.{check_challenged_channels, ensure_wallet_has_all_allocations_empty}
use wthelly.Ledger.{new_account_id, balance, record_entry}
use wthelly.AppSessions.{AppAllocation, get_session_key_for_app_participant, validate_delegate}
use wthelly.AppSessions.Deposit.{move_into_session}

-- `AppDefinition` (rpc_router_public.go)
pub record AppDefinition : Type 0 where
  pub application : String
  pub protocol : String
  pub participant_wallets : List String
  pub weights : List ℤ
  pub quorum : ℕ
  pub challenge : ℕ
  pub nonce : ℕ

pub record CreateAppSessionParams (Decimal : Type 0) : Type 0 where
  pub definition : AppDefinition
  pub allocations : List (AppAllocation Decimal)
  pub session_data : Option String

-- `rpc.IsSupportedVersion`
unfoldable pub is_supported_version : String → Bool
is_supported_version v = v == "NitroRPC/0.2" || v == "NitroRPC/0.4"

-- the sum of the weights, on int64
unfoldable pub sum_weights : List ℤ → ℤ → ℤ
sum_weights [] total = total
sum_weights (w ∷ ws) total = sum_weights ws (add_int64 total w)

-- the checks of the definition that come before the transaction
unfoldable pub check_definition : AppDefinition → Result (Unit {0})
unfolding is_supported_version sum_weights
check_definition d =
    if not (is_supported_version d.protocol)
    then err Error.unsupported_protocol
    else if ltb (length d.participant_wallets) 2
    then err Error.too_few_participants
    else if not (eq_ℕ (length d.weights) (length d.participant_wallets))
    then err Error.weights_length
    else if eq_ℕ d.nonce 0
    then err Error.zero_nonce
    else if any (λ w. ltb_ℤ w (pos 0)) d.weights
    then err Error.negative_weight
    else if ltb (to_uint64 (sum_weights d.weights (pos 0))) d.quorum
    then err Error.quorum_too_high
    else ok tt

-- `tx.Create(session)`: session ids are unique
unfoldable pub insert_session : {Decimal : Type 0} → AppSession → Effect (State Decimal) (Unit {0})
insert_session session s =
    (if any (λ a. a.session_id == session.session_id) s.db.app_sessions
      then (err Error.duplicate_key, s)
      else (ok tt, record s { db = record s.db { app_sessions = session ∷ s.db.app_sessions } }))

module _ {Decimal : Type 0} ⦃dec : DecimalOps Decimal⦄ ⦃adr : Addresses⦄ where
  open dec use {is_zero, is_positive, is_negative, greater_than}

  -- the body of the loop over the allocations, for an amount that is not zero
  unfoldable pub fund_one :
      ℕ → List String → String → String → AppAllocation Decimal → Effect (State Decimal) (Unit {0})
  fund_one now rpc_signers application session_account_id alloc = do
    guard (not (is_negative alloc.amount)) Error.negative_allocation
    ctx ← get_session_key_for_app_participant now alloc.participant rpc_signers
    guard (not (is_positive alloc.amount && not ctx.has_signature)) Error.missing_signature
    validate_delegate now ctx.session_key_address application alloc.asset_symbol alloc.amount
    reads λ s. check_challenged_channels alloc.participant s.db
    reads λ s. ensure_wallet_has_all_allocations_empty alloc.participant s.db
    available ← reads (
        balance (adr.hex_address alloc.participant) (new_account_id alloc.participant)
          alloc.asset_symbol)
    guard (not (greater_than alloc.amount available)) Error.insufficient_funds
    move_into_session alloc.participant session_account_id alloc.asset_symbol alloc.amount
        ctx.session_key_address

  -- The loop; its result is the wallets whose balance changed.
  unfoldable pub fund_all :
      ℕ
      → List String
      → String
      → String
      → List (AppAllocation Decimal)
      → Effect (State Decimal) (List String)
  fund_all now rpc_signers application session_account_id [] = pure []
  fund_all now rpc_signers application session_account_id (alloc ∷ allocs) =
      let rest = fund_all now rpc_signers application session_account_id allocs in
      if is_zero alloc.amount then rest else (do
        fund_one now rpc_signers application session_account_id alloc
        affected ← rest
        pure (alloc.participant ∷ affected))

  -- the row of the new session: a quorum of zero is left to the default of the column
  unfoldable pub new_session : String → CreateAppSessionParams Decimal → AppSession
  new_session session_id params = record {
    protocol = params.definition.protocol;
    session_id = session_id;
    application = params.definition.application;
    challenge = params.definition.challenge;
    nonce = params.definition.nonce;
    participant_wallets = params.definition.participant_wallets;
    weights = params.definition.weights;
    session_data = elim params.session_data [ none ↦ "" | some data_text ↦ data_text ];
    quorum = if eq_ℕ params.definition.quorum 0 then 100 else params.definition.quorum;
    version = 1;
    status = open_status;
  }

  -- `CreateAppSession`. The session's id is the hash of its definition, which a library computes: it
  -- is the argument `hash_definition`. The result is the id and the wallets to be notified.
  unfoldable pub create_app_session :
      (AppDefinition → String)
      → ℕ
      → CreateAppSessionParams Decimal
      → List String
      → Effect (State Decimal) (String × List String)
  create_app_session hash_definition now params rpc_signers = do
    reads λ s. check_definition params.definition
    let session_id = hash_definition params.definition
    affected ← transaction (do
      affected ←
          fund_all now rpc_signers params.definition.application (new_account_id session_id)
            params.allocations
      insert_session (new_session session_id params)
      pure affected)
    pure (session_id, affected)
