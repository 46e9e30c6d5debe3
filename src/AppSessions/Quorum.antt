-- ===== src/AppSessions/Quorum.antt =====
-- verifyQuorum: the weights of the wallets that signed, against the session's quorum.
pub mod Sound
use wthelly.Base.{
  ℕ, String, Bool, true, false, not, ◌==◌, Option, none, some, List, [], ◌∷◌, any, find,
  if◌then◌else◌,
}
use wthelly.Base.Int.{ℤ, pos, ltb_ℤ}
use wthelly.Base.Word.{add_int64, to_int64}
use wthelly.Error.{Error}
use wthelly.Effect.{Result, ok, err}
use wthelly.Store.{AppSession}
use wthelly.AppSessions.{Weights}

-- `participantWeights[addr] = session.Weights[i]`: the last entry of a wallet counts, and too few
-- weights are an index out of range.
unfoldable pub participant_weights : List String → List ℤ → Weights → Result Weights
participant_weights [] weights m = ok m
participant_weights (addr ∷ addrs) [] m = err Error.panic
participant_weights (addr ∷ addrs) (w ∷ weights) m =
    participant_weights addrs weights ((addr, w) ∷ m)

-- `participantWeights[wallet]`
unfoldable pub weight_of : String → Weights → Option ℤ
weight_of wallet [] = none
weight_of wallet ((j, w) ∷ m) = if j == wallet then some w else weight_of wallet m

-- the loop over the wallets of the signers, which counts each once
unfoldable pub total_weight : Weights → List String → List String → ℤ → Result ℤ
unfolding weight_of
total_weight weights signed [] total = ok total
total_weight weights signed (wallet ∷ wallets) total = elim (weight_of wallet weights) [
  | none ↦ err Error.unknown_participant
  | some w ↦
      if any (λ x. x == wallet) signed
      then total_weight weights signed wallets total
      else total_weight weights (wallet ∷ signed) wallets (add_int64 total w)
]

-- the comparison of the sum with the quorum
unfoldable pub compare_quorum : ℕ → Weights → Result ℤ → Result Weights
compare_quorum quorum weights (err e) = err e
compare_quorum quorum weights (ok total) =
    if ltb_ℤ total (to_int64 quorum) then err Error.quorum_not_reached else ok weights

-- `verifyQuorum`; the intent chooses only the wording of the last error
unfoldable pub verify_quorum : AppSession → List String → Result Weights
unfolding participant_weights total_weight compare_quorum
verify_quorum session rpc_wallets =
    elim (participant_weights session.participant_wallets session.weights []) [
      | err e ↦ err e
      | ok weights ↦
          compare_quorum session.quorum weights (total_weight weights [] rpc_wallets (pos 0))
    ]
