-- ===== src/EthListener.antt =====
-- eth_listener.go: the events of a contract in the blocks since the last known one, which
-- `ReconcileBlockRange` asks of a node range by range. A pass of its loop is one attempt. The node's
-- answers, and the block range that an error message advises (`extractAdvisedBlockRange`, which is a
-- regular expression and a parser of Go), are parameters. The wait between attempts only takes time.
pub mod Ranges
pub mod Reconciled
use wthelly.Base.{
  ℕ, suc, zero, ◌+◌, ◌%◌, ◌^◌, String, Bool, true, false, not, ◌&&◌, ltb, leb, eq_ℕ, Option, none,
  some, List, [], ◌++◌, select, if◌then◌else◌,
}

-- `types.Log`, as far as the loop reads it
pub record Log : Type 0 where
  pub block_number : ℕ
  pub index : ℕ

-- the answer to `FilterLogs`: the logs, or the text of an error
pub data Answer : Type 0 where
  found : List Log → Answer
  failure : String → Answer

-- What a call of `ReconcileBlockRange` is given: the node, which answers an attempt, a first and a last
-- block, and the call's arguments.
pub record Reconciliation : Type 0 where
  pub filter_logs : ℕ → ℕ → ℕ → Answer
  pub advised_block_range : String → Option (ℕ × ℕ)
  pub current_block : ℕ
  pub block_step : ℕ
  pub last_block : ℕ
  pub last_index : ℕ

abbrev pub max_back_off_count : ℕ
max_back_off_count = 999999

-- uint64
unfoldable pub add64 : ℕ → ℕ → ℕ
add64 a b = (a + b) % 2 ^ 64

-- How the loop ends, with the logs that it has sent: by its test, or by `logger.Fatal`.
pub data Outcome : Type 0 where
  done : List Log → Outcome
  exited : List Log → Outcome
  out_of_fuel : Outcome

unfoldable pub is_known : Reconciliation → Log → Bool
is_known r l = eq_ℕ l.block_number r.last_block && leb l.index r.last_index

-- the logs of an answer that are sent on
unfoldable pub unknown_logs : Reconciliation → List Log → List Log
unfolding is_known
unknown_logs r logs = select (λ l. not (is_known r l)) logs

unfoldable pub clip : ℕ → ℕ → ℕ
clip current_block end_block = if ltb current_block end_block then current_block else end_block

-- the loop, at an attempt, with its first and last block, its count of failures and what it has sent
unfoldable pub reconcile : ℕ → Reconciliation → ℕ → ℕ → ℕ → ℕ → List Log → Outcome
unfolding add64 unknown_logs clip
reconcile zero r attempt start_block end_block back_offs out = out_of_fuel
reconcile (suc fuel) r attempt start_block end_block back_offs out =
    elim (ltb start_block r.current_block) [
      | false ↦ done out
      | true ↦ elim (ltb max_back_off_count back_offs) [
        | true ↦ exited out
        | false ↦ elim (r.filter_logs attempt start_block (clip r.current_block end_block)) [
          | found logs ↦
              reconcile fuel r (attempt + 1) (add64 (clip r.current_block end_block) 1)
                (add64 (clip r.current_block end_block) r.block_step) back_offs
                (out ++ unknown_logs r logs)
          | failure message ↦ elim (r.advised_block_range message) [
            | none ↦
                reconcile fuel r (attempt + 1) start_block (clip r.current_block end_block)
                  (back_offs + 1) out
            | some range ↦ reconcile fuel r (attempt + 1) range.0 range.1 back_offs out
          ]
        ]
      ]
    ]

-- `ReconcileBlockRange`
unfoldable pub reconcile_block_range : ℕ → Reconciliation → Outcome
unfolding reconcile add64
reconcile_block_range fuel r =
    reconcile fuel r 0 r.last_block (add64 r.last_block r.block_step) 0 []
