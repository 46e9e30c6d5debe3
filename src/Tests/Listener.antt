-- ===== src/Tests/Listener.antt =====
-- A concrete node, which fails once.
use wthelly.Base.{
  ℕ, ◌<◌, ◌≡◌, refl, inl, inr, arith, true, none, List, [], ◌∷◌, ltb, Bool-cases, if◌then◌else◌,
}
use wthelly.EthListener.{
  Log, Answer, found, failure, Reconciliation, done, unknown_logs, reconcile_block_range,
}
use wthelly.EthListener.Ranges.{events_from, events_between, reached_from}
use wthelly.EthListener.Reconciled.{Serves, reconcile_block_range-done}

-- each block has two events
abbrev events : ℕ → List Log
events b = record { block_number = b; index = 0 } ∷ record { block_number = b; index = 1 } ∷ []

abbrev flaky : ℕ → ℕ → ℕ → Answer
flaky k s e = if ltb k 1 then failure "timeout" else found (events_between events s e)

abbrev behind : Reconciliation
behind = record {
  filter_logs = flaky;
  advised_block_range = λ message. none;
  current_block = 14;
  block_step = 2;
  last_block = 10;
  last_index = 0;
}

behind-Serves : Serves behind events 1
behind-Serves k s e = elim (Bool-cases (ltb k 1)) [
  | inl early ↦ inr ("timeout", rw early refl, refl, first k early)
  | inr later ↦ inl (rw later refl)
]
  where
    first : (n : ℕ) → ltb n 1 ≡ true → n < 1
    first n h = ground arith

reconcile_block_range-done_example :
    reconcile_block_range 7 behind
    ≡ done (unknown_logs behind (events_from events 10 (reached_from 2 2 4)))
reconcile_block_range-done_example =
    reconcile_block_range-done 7 behind events 1 behind-Serves (omega arith) (omega arith)
      (omega arith) (omega arith) (omega arith)
