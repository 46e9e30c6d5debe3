-- ===== src/BlockchainActions.antt =====
-- blockchain_action.go: the queue of calls that the clearnode owes to the chains. `Fail`,
-- `FailNoRetry`, `RecordAttempt` and `Complete` change an action and save it.
use wthelly.Base.{
  ℕ, suc, ◌+◌, String, Bool, true, false, ◌&&◌, eq_ℕ, ltb, some, List, [], ◌∷◌, ◌++◌, take, select,
  update, if◌then◌else◌,
}
use wthelly.Effect.{Effect, modify}
use wthelly.Store.{
  State, Db, BlockchainAction, BlockchainActionStatus, pending, completed, failed, UnsignedState,
}

unfoldable pub is_pending : BlockchainActionStatus → Bool
is_pending pending = true
is_pending _ = false

module _ {Decimal : Type 0} where
  -- the id that the table gives to a new row: above all others
  unfoldable pub fresh_id : List (BlockchainAction Decimal) → ℕ
  fresh_id [] = 1
  fresh_id (a ∷ actions) = let rest = fresh_id actions in if ltb a.id rest then rest else suc a.id

  -- `CreateCheckpoint`
  unfoldable pub create_checkpoint :
      String → ℕ → UnsignedState Decimal → String → String → Effect (State Decimal) (Unit {0})
  unfolding fresh_id
  create_checkpoint channel_id chain_id state user_sig server_sig = modify λ s. record s {
    db = record s.db {
      blockchain_actions =
          record {
            id = fresh_id s.db.blockchain_actions;
            action_type = "checkpoint";
            channel_id = channel_id;
            chain_id = chain_id;
            action_data =
                some (record { state = state; user_sig = user_sig; server_sig = server_sig });
            status = pending;
            retries = 0;
            last_error = "";
            tx_hash = "";
          }
          ∷ s.db.blockchain_actions;
    };
  }

  -- `tx.Save` of an action that is in the table
  unfoldable pub save_action : BlockchainAction Decimal → Effect (State Decimal) (Unit {0})
  save_action action = modify λ s. record s {
    db = record s.db {
      blockchain_actions = update (λ a. eq_ℕ a.id action.id) (λ _. action) s.db.blockchain_actions;
    };
  }

  -- `Fail`
  unfoldable pub failed_with : String → BlockchainAction Decimal → BlockchainAction Decimal
  failed_with error a = record a { status = failed; last_error = error; retries = a.retries + 1 }

  -- `FailNoRetry`
  unfoldable pub failed_no_retry : String → BlockchainAction Decimal → BlockchainAction Decimal
  failed_no_retry error a = record a { status = failed; last_error = error }

  -- `RecordAttempt`
  unfoldable pub attempted : String → BlockchainAction Decimal → BlockchainAction Decimal
  attempted error a = record a { retries = a.retries + 1; last_error = error }

  -- `Complete`
  unfoldable pub completed_with : String → BlockchainAction Decimal → BlockchainAction Decimal
  completed_with tx_hash a = record a { status = completed; tx_hash = tx_hash; last_error = "" }

  unfoldable pub oldest_first : List (BlockchainAction Decimal) → List (BlockchainAction Decimal)
  oldest_first [] = []
  oldest_first (x ∷ xs) = oldest_first xs ++ (x ∷ [])

  -- `getActionsForChain`: the table's pending rows of a chain, the oldest first; 0 is no limit
  unfoldable pub get_actions_for_chain : ℕ → ℕ → Db Decimal → List (BlockchainAction Decimal)
  unfolding is_pending oldest_first
  get_actions_for_chain chain_id limit db =
      let rows =
        oldest_first
          (select (λ a. is_pending a.status && eq_ℕ a.chain_id chain_id) db.blockchain_actions) in
      if eq_ℕ limit 0 then rows else take limit rows
