-- ===== src/BlockchainWorker.antt =====
-- blockchain_worker.go: the worker of a chain, which takes the chain's pending actions in batches and
-- sends each to the chain's custody contract until it is done or has failed too often.
-- A pass is one call of `processActionsForChain`. What the code does not decide is the pass's `Chain`.
-- A save of an action does not fail here; the code logs such a failure and goes on.
pub mod Rows
pub mod Batch
pub mod Drained
use wthelly.Base.{
  ℕ, String, Bool, true, false, ◌==◌, leb, Option, none, some, List, [], ◌∷◌, if◌then◌else◌,
}
use wthelly.Store.{State, BlockchainAction, CheckpointData}
use wthelly.BlockchainActions.{
  save_action, failed_with, failed_no_retry, attempted, completed_with, get_actions_for_chain,
}

abbrev pub action_batch_size : ℕ
action_batch_size = 20

abbrev pub max_action_retries : ℕ
max_action_retries = 5

-- what an attempt gives: the hash of a transaction, or the text of an error
pub data Attempt : Type 0 where
  sent : String → Attempt
  refused : String → Attempt

-- What a pass meets: the chains that have a custody client, the client's `Checkpoint` for a channel,
-- whether the worker is shut down before an action is reached, and the texts that `fmt` makes, with
-- `strings.Contains` for the text of an error that no retry can mend.
pub record Chain (Decimal : Type 0) : Type 0 where
  pub has_custody : ℕ → Bool
  pub checkpoint : String → CheckpointData Decimal → Attempt
  pub is_cancelled : ℕ → Bool
  pub is_fatal : String → Bool
  pub no_custody : ℕ → String
  pub unknown_type : String → String
  pub unmarshal_error : String
  pub failed_after : ℕ → String → String

module _ {Decimal : Type 0} where
  -- `processCheckpoint`
  unfoldable pub process_checkpoint : Chain Decimal → BlockchainAction Decimal → Attempt
  process_checkpoint chain action = elim action.action_data [
    | none ↦ refused chain.unmarshal_error
    | some d ↦ chain.checkpoint action.channel_id d
  ]

  -- the `switch` on the action's type
  unfoldable pub process : Chain Decimal → BlockchainAction Decimal → Attempt
  unfolding process_checkpoint
  process chain action =
      if action.action_type == "checkpoint"
      then process_checkpoint chain action
      else refused (chain.unknown_type action.action_type)

  -- the action after an attempt that failed
  unfoldable pub after_error :
      Chain Decimal → String → BlockchainAction Decimal → BlockchainAction Decimal
  unfolding failed_with failed_no_retry attempted
  after_error chain error action =
      if chain.is_fatal error
      then failed_with error action
      else if leb max_action_retries action.retries
      then failed_no_retry (chain.failed_after action.retries error) action
      else attempted error action

  unfoldable pub after_attempt :
      Chain Decimal → Attempt → BlockchainAction Decimal → BlockchainAction Decimal
  unfolding after_error completed_with
  after_attempt chain (sent tx_hash) action = completed_with tx_hash action
  after_attempt chain (refused error) action = after_error chain error action

  -- the action that `processAction` saves
  unfoldable pub processed : Chain Decimal → BlockchainAction Decimal → BlockchainAction Decimal
  unfolding process after_attempt failed_with
  processed chain action =
      if chain.has_custody action.chain_id
      then after_attempt chain (process chain action) action
      else failed_with (chain.no_custody action.chain_id) action

  -- `processAction`: every branch saves the action once
  unfoldable pub process_action :
      Chain Decimal → BlockchainAction Decimal → State Decimal → State Decimal
  unfolding processed save_action
  process_action chain action s = (save_action (processed chain action) s).1

  -- the loop of `processActionsForChain`
  unfoldable pub process_batch :
      Chain Decimal → List (BlockchainAction Decimal) → State Decimal → State Decimal
  unfolding process_action
  process_batch chain [] s = s
  process_batch chain (action ∷ actions) s =
      let rest = process_batch chain actions (process_action chain action s) in
      if chain.is_cancelled action.id then s else rest

  -- `processActionsForChain`
  unfoldable pub process_actions_for_chain : ℕ → Chain Decimal → State Decimal → State Decimal
  unfolding process_batch get_actions_for_chain
  process_actions_for_chain chain_id chain s =
      process_batch chain (get_actions_for_chain chain_id action_batch_size s.db) s

  -- `runChainWorker`: a pass at the start and one for each tick
  unfoldable pub run_chain_worker : ℕ → List (Chain Decimal) → State Decimal → State Decimal
  unfolding process_actions_for_chain
  run_chain_worker chain_id [] s = s
  run_chain_worker chain_id (chain ∷ passes) s =
      run_chain_worker chain_id passes (process_actions_for_chain chain_id chain s)
