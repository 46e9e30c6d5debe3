-- ===== src/BlockchainWorker/Drained.antt =====
-- Each action that is due is given up or done after so many passes.
use mathlib.Core.Path.{subst}
use wthelly.Base.{
  ℕ, suc, zero, ◌+◌, ◌-◌, ◌≤◌, ◌≡◌, refl, sym, ◌∙◌, inl, inr, arith, String, true, false,
  Bool-cases, eq_ℕ, leb, none, some, List, [], ◌∷◌, All, length, find, select,
}
use wthelly.Effect.{modify}
use wthelly.Store.{State, BlockchainAction}
use wthelly.BlockchainActions.{is_pending, oldest_first, save_action, get_actions_for_chain}
use wthelly.BlockchainWorker.{
  Attempt, sent, refused, Chain, max_action_retries, process, after_error, after_attempt, processed,
  process_action, process_batch, process_actions_for_chain, run_chain_worker,
}
use wthelly.BlockchainWorker.Rows.{
  row_of, IsDistinct, is_due, work_of, work, work-update, row_of-update, update-IsDistinct,
}
use wthelly.BlockchainWorker.Batch.{
  AreRows, batch, batch-AreRows, batch-due, batch-IsDistinct, work-batch_nil,
}

positive : (m n : ℕ) → suc m + n ≡ 0 → ⊥
positive m n h = omega arith

room : (n : ℕ) → leb 5 n ≡ false → suc (5 - (n + 1)) + 1 ≤ suc (5 - n)
room n h = ground arith

falls : (n w w' : ℕ) → (n ≡ 0 → w ≡ 0) → w' + n ≤ w → w' ≤ w - 1
falls zero w w' h le = omega (arith, h refl)
falls (suc n) w w' h le = omega arith

module _ {Decimal : Type 0} where
  -- the work left in the table of a state
  abbrev pub work_left : ℕ → State Decimal → ℕ
  work_left chain_id s = work chain_id s.db.blockchain_actions

  abbrev pub IsTable : State Decimal → Type 0
  IsTable s = IsDistinct s.db.blockchain_actions

  -- No shutdown comes before an action of the pass.
  abbrev pub IsRunning : Chain Decimal → Type 0
  IsRunning chain = (id : ℕ) → chain.is_cancelled id ≡ false

  -- The action is the same one, with a pass less to take.
  abbrev IsStep : ℕ → BlockchainAction Decimal → BlockchainAction Decimal → Type 0
  IsStep chain_id a b = (b.id ≡ a.id) × (work_of chain_id b + 1 ≤ work_of chain_id a)

  after_error-IsStep :
      (chain_id : ℕ) (chain : Chain Decimal) (e : String) (a : BlockchainAction Decimal)
      → is_due chain_id a ≡ true
      → IsStep chain_id a (after_error chain e a)
  unfolding after_error is_pending
  after_error-IsStep chain_id chain e a due = elim (Bool-cases (chain.is_fatal e)) [
    | inl fatal ↦ rw fatal (refl, rw due (omega arith))
    | inr mendable ↦ elim (Bool-cases (leb max_action_retries a.retries)) [
      | inl last ↦ rw (mendable, last) (refl, rw due (omega arith))
      | inr early ↦ rw (mendable, early) (refl, rw due (room a.retries early))
    ]
  ]

  after_attempt-IsStep :
      (chain_id : ℕ) (chain : Chain Decimal) (r : Attempt) (a : BlockchainAction Decimal)
      → is_due chain_id a ≡ true
      → IsStep chain_id a (after_attempt chain r a)
  unfolding after_attempt is_pending
  after_attempt-IsStep chain_id chain (sent h) a due = (refl, rw due (omega arith))
  after_attempt-IsStep chain_id chain (refused e) a due = after_error-IsStep chain_id chain e a due

  processed-IsStep :
      (chain_id : ℕ) (chain : Chain Decimal) (a : BlockchainAction Decimal)
      → is_due chain_id a ≡ true
      → IsStep chain_id a (processed chain a)
  unfolding processed is_pending
  processed-IsStep chain_id chain a due = elim (Bool-cases (chain.has_custody a.chain_id)) [
    | inl known ↦ rw known (after_attempt-IsStep chain_id chain (process chain a) a due)
    | inr unknown ↦ rw unknown (refl, rw due (omega arith))
  ]

  process_action-lt :
      (chain_id : ℕ) (chain : Chain Decimal) (a : BlockchainAction Decimal) (s : State Decimal)
      → IsTable s
      → row_of a.id s.db.blockchain_actions ≡ some a
      → is_due chain_id a ≡ true
      → work_left chain_id (process_action chain a s) + 1 ≤ work_left chain_id s
  unfolding process_action save_action modify
  process_action-lt chain_id chain a s d there due =
      let (same, less) = processed-IsStep chain_id chain a due in
      omega (
        arith,
        work-update chain_id (processed chain a) s.db.blockchain_actions d
            (subst (λ k. row_of k s.db.blockchain_actions ≡ some a) (sym same) there),
      )

  process_action-IsTable :
      (chain : Chain Decimal) (a : BlockchainAction Decimal) (s : State Decimal)
      → IsTable s
      → IsTable (process_action chain a s)
  unfolding process_action save_action modify
  process_action-IsTable chain a s d =
      update-IsDistinct (processed chain a) s.db.blockchain_actions d

  process_action-AreRows :
      (chain_id : ℕ) (chain : Chain Decimal) (a : BlockchainAction Decimal) (s : State Decimal)
      (l : List (BlockchainAction Decimal))
      → is_due chain_id a ≡ true
      → row_of a.id l ≡ none
      → AreRows s.db.blockchain_actions l
      → AreRows (process_action chain a s).db.blockchain_actions l
  unfolding process_action save_action modify find
  process_action-AreRows chain_id chain a s [] due fresh rows = tt
  process_action-AreRows chain_id chain a s (b ∷ l) due fresh (p, rows) =
      elim (Bool-cases (eq_ℕ b.id a.id)) [
        | inl hit ↦ cc (rw hit at fresh)
        | inr miss ↦ (
          row_of-update b.id (processed chain a) s.db.blockchain_actions
                (other (processed-IsStep chain_id chain a due).0 miss)
              ∙ p,
          process_action-AreRows chain_id chain a s l due (rw miss at fresh) rows,
        )
      ]
    where
      other : {k : ℕ} → k ≡ a.id → eq_ℕ b.id a.id ≡ false → eq_ℕ k b.id ≡ false
      other e h = ground arith

  -- A batch takes a pass from each of its actions.
  process_batch-lt :
      (chain_id : ℕ) (chain : Chain Decimal) (l : List (BlockchainAction Decimal))
      (s : State Decimal)
      → IsRunning chain
      → IsTable s
      → AreRows s.db.blockchain_actions l
      → All (λ a. is_due chain_id a ≡ true) l
      → IsDistinct l
      → IsTable (process_batch chain l s)
        × (work_left chain_id (process_batch chain l s) + length l ≤ work_left chain_id s)
  unfolding process_batch
  process_batch-lt chain_id chain [] s run d rows dues fresh = (d, omega arith)
  process_batch-lt chain_id chain (a ∷ l) s run d (p, rows) (due, dues) (fresh, rest) =
      let (d', less) =
        process_batch-lt chain_id chain l (process_action chain a s) run
          (process_action-IsTable chain a s d)
          (process_action-AreRows chain_id chain a s l due fresh rows) dues rest in
      rw (run a.id) (d', omega (arith, less, process_action-lt chain_id chain a s d p due))

  pass-lt :
      (chain_id : ℕ) (chain : Chain Decimal) (s : State Decimal)
      → IsRunning chain
      → IsTable s
      → IsTable (process_actions_for_chain chain_id chain s)
        × (work_left chain_id (process_actions_for_chain chain_id chain s)
            ≤ work_left chain_id s - 1)
  unfolding process_actions_for_chain
  pass-lt chain_id chain s run d =
      let (d', less) =
        process_batch-lt chain_id chain (batch chain_id s.db) s run d
          (batch-AreRows chain_id s.db d) (batch-due chain_id s.db)
          (batch-IsDistinct chain_id s.db d) in
      (
        d',
        falls (length (batch chain_id s.db)) (work_left chain_id s)
            (work_left chain_id (process_actions_for_chain chain_id chain s))
            (work-batch_nil chain_id s.db) less,
      )

  passes-le :
      (chain_id : ℕ) (passes : List (Chain Decimal)) (s : State Decimal)
      → All IsRunning passes
      → IsTable s
      → work_left chain_id (run_chain_worker chain_id passes s)
        ≤ work_left chain_id s - length passes
  unfolding run_chain_worker
  passes-le chain_id [] s run d = omega arith
  passes-le chain_id (chain ∷ passes) s (r, run) d =
      let (d', less) = pass-lt chain_id chain s r d in
      omega
        (arith, less, passes-le chain_id passes (process_actions_for_chain chain_id chain s) run d')

  select-work_zero :
      (chain_id : ℕ) (rows : List (BlockchainAction Decimal))
      → work chain_id rows ≡ 0
      → select (is_due chain_id) rows ≡ []
  unfolding work select
  select-work_zero chain_id [] h = refl
  select-work_zero chain_id (a ∷ rows) h = elim (Bool-cases (is_due chain_id a)) [
    | inl due ↦ absurd (positive (5 - a.retries) (work chain_id rows) (rw due at h))
    | inr idle ↦ rw idle (select-work_zero chain_id rows (omega (arith, h)))
  ]

  -- Whatever the custody contract answers, and with or without a custody client: if no two actions of the
  -- table have one id and the worker is not shut down, then no action of the chain is pending after as
  -- many passes as its pending actions may still take, which is six for an action that is new and one
  -- less for each retry, but always one.
  pub run_chain_worker-drains :
      (chain_id : ℕ) (passes : List (Chain Decimal)) (s : State Decimal)
      → All IsRunning passes
      → IsTable s
      → work_left chain_id s ≤ length passes
      → get_actions_for_chain chain_id 0 (run_chain_worker chain_id passes s).db ≡ []
  unfolding get_actions_for_chain oldest_first
  run_chain_worker-drains chain_id passes s run d enough =
      rw
        (select-work_zero chain_id (run_chain_worker chain_id passes s).db.blockchain_actions
          (omega (arith, passes-le chain_id passes s run d)))
        refl
