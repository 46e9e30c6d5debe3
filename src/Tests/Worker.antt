-- ===== src/Tests/Worker.antt =====
-- Concrete passes of a chain's worker.
use wthelly.Base.{◌≡◌, refl, true, false, none, [], ◌∷◌, find, arith}
use wthelly.Base.Int.{ℤ}
use wthelly.Store.{State, BlockchainAction, pending}
use wthelly.BlockchainActions.{is_pending, get_actions_for_chain}
use wthelly.BlockchainWorker.{Chain, refused, run_chain_worker}
use wthelly.BlockchainWorker.Rows.{work}
use wthelly.BlockchainWorker.Drained.{run_chain_worker-drains}
use wthelly.Tests.{state_with}

-- a checkpoint that has failed four times
abbrev late : BlockchainAction ℤ
late = record {
  id = 1;
  action_type = "checkpoint";
  channel_id = "c";
  chain_id = 137;
  action_data = none;
  status = pending;
  retries = 4;
  last_error = "";
  tx_hash = "";
}

-- a pass in which the contract refuses
abbrev refusing : Chain ℤ
refusing = record {
  has_custody = λ chain_id. true;
  checkpoint = λ channel_id d. refused "reverted";
  is_cancelled = λ id. false;
  is_fatal = λ error. false;
  no_custody = λ chain_id. "no custody";
  unknown_type = λ t. "unknown type";
  unmarshal_error = "unmarshal checkpoint data";
  failed_after = λ retries error. error;
}

abbrev waiting : State ℤ
waiting = record (state_with []) {
  db = record (state_with []).db { blockchain_actions = late ∷ [] };
}

work-late : work 137 (late ∷ []) ≡ 2
unfolding work is_pending
work-late = refl

run_chain_worker-drains_example :
    get_actions_for_chain 137 0 (run_chain_worker 137 (refusing ∷ refusing ∷ []) waiting).db ≡ []
unfolding find
run_chain_worker-drains_example =
    run_chain_worker-drains 137 (refusing ∷ refusing ∷ []) waiting
      ((λ id. refl), ((λ id. refl), tt)) (refl, tt) (omega (arith, work-late))
