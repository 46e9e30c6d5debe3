-- ===== src/BlockchainWorker/Rows.antt =====
-- The table of actions under the ids of its rows, and the work that is left in it.
use mathlib.Core.Path.{subst}
use wthelly.Base.{
  ℕ, suc, ◌+◌, ◌-◌, ◌≡◌, refl, ap, inl, inr, arith, Bool, true, false, Bool-cases, ◌&&◌, eq_ℕ,
  Option, none, some, List, [], ◌∷◌, find, update, if◌then◌else◌,
}
use wthelly.Store.{BlockchainAction}
use wthelly.BlockchainActions.{is_pending}

pub eq_of_eq_ℕ : (m n : ℕ) → eq_ℕ m n ≡ true → m ≡ n
eq_of_eq_ℕ m n h = ground arith

eq_ℕ-trans : (k m n : ℕ) → eq_ℕ k m ≡ true → eq_ℕ m n ≡ false → eq_ℕ k n ≡ false
eq_ℕ-trans k m n h g = ground arith

module _ {Decimal : Type 0} where
  -- the row with an id
  abbrev pub row_of : ℕ → List (BlockchainAction Decimal) → Option (BlockchainAction Decimal)
  row_of id rows = find (λ a. eq_ℕ a.id id) rows

  -- no two rows have one id
  abbrev pub IsDistinct : List (BlockchainAction Decimal) → Type 0
  IsDistinct [] = Unit
  IsDistinct (a ∷ rows) = (row_of a.id rows ≡ none) × IsDistinct rows

  abbrev pub is_due : ℕ → BlockchainAction Decimal → Bool
  is_due chain_id a = is_pending a.status && eq_ℕ a.chain_id chain_id

  -- the passes that an action may still take: none if it is not due
  abbrev pub work_of : ℕ → BlockchainAction Decimal → ℕ
  work_of chain_id a = if is_due chain_id a then suc (5 - a.retries) else 0

  unfoldable pub work : ℕ → List (BlockchainAction Decimal) → ℕ
  work chain_id [] = 0
  work chain_id (a ∷ rows) = work_of chain_id a + work chain_id rows

  -- The row under an id is replaced by one with less work.
  pub update-absent :
      (id : ℕ) (b : BlockchainAction Decimal) (rows : List (BlockchainAction Decimal))
      → row_of id rows ≡ none
      → update (λ a. eq_ℕ a.id id) (λ _. b) rows ≡ rows
  unfolding find update
  update-absent id b [] h = refl
  update-absent id b (a ∷ rows) h = elim (Bool-cases (eq_ℕ a.id id)) [
    | inl hit ↦ cc (rw hit at h)
    | inr miss ↦ rw miss (ap (λ r. a ∷ r) (update-absent id b rows (rw miss at h)))
  ]

  pub work-update :
      (chain_id : ℕ) (b : BlockchainAction Decimal) (rows : List (BlockchainAction Decimal))
      {old : BlockchainAction Decimal}
      → IsDistinct rows
      → row_of b.id rows ≡ some old
      → work chain_id (update (λ a. eq_ℕ a.id b.id) (λ _. b) rows) + work_of chain_id old
        ≡ work chain_id rows + work_of chain_id b
  unfolding find update work
  work-update chain_id b [] d h = cc
  work-update chain_id b (a ∷ rows) {old} (fresh, d) h = elim (Bool-cases (eq_ℕ a.id b.id)) [
    | inl hit ↦
        let found : a ≡ old = cc (rw hit at h) in
        let kept =
          update-absent b.id b rows
            (subst (λ k. row_of k rows ≡ none) (eq_of_eq_ℕ a.id b.id hit) fresh) in
        rw (hit, kept, ← found) (omega arith)
    | inr miss ↦ rw miss (omega (arith, work-update chain_id b rows d (rw miss at h)))
  ]

  -- The other rows stay, and the ids stay distinct.
  pub row_of-update :
      (id : ℕ) (b : BlockchainAction Decimal) (rows : List (BlockchainAction Decimal))
      → eq_ℕ b.id id ≡ false
      → row_of id (update (λ a. eq_ℕ a.id b.id) (λ _. b) rows) ≡ row_of id rows
  unfolding find update
  row_of-update id b [] h = refl
  row_of-update id b (a ∷ rows) h = elim (Bool-cases (eq_ℕ a.id b.id)) [
    | inl hit ↦ rw (hit, h, eq_ℕ-trans a.id b.id id hit h) (row_of-update id b rows h)
    | inr miss ↦ rw miss (ap (λ r. if eq_ℕ a.id id then some a else r) (row_of-update id b rows h))
  ]

  row_of-update-none :
      (id : ℕ) (b : BlockchainAction Decimal) (rows : List (BlockchainAction Decimal))
      → row_of id rows ≡ none
      → row_of id (update (λ a. eq_ℕ a.id b.id) (λ _. b) rows) ≡ none
  unfolding find update
  row_of-update-none id b [] h = refl
  row_of-update-none id b (a ∷ rows) h = elim (Bool-cases (eq_ℕ a.id id)) [
    | inl hit ↦ cc (rw hit at h)
    | inr other ↦ elim (Bool-cases (eq_ℕ a.id b.id)) [
      | inl hit ↦
          rw (hit, ← eq_of_eq_ℕ a.id b.id hit, other) (row_of-update-none id b rows (rw other at h))
      | inr miss ↦ rw (miss, other) (row_of-update-none id b rows (rw other at h))
    ]
  ]

  pub update-IsDistinct :
      (b : BlockchainAction Decimal) (rows : List (BlockchainAction Decimal))
      → IsDistinct rows
      → IsDistinct (update (λ a. eq_ℕ a.id b.id) (λ _. b) rows)
  unfolding find update
  update-IsDistinct b [] d = tt
  update-IsDistinct b (a ∷ rows) (fresh, d) = (
    elim (Bool-cases (eq_ℕ a.id b.id)) [
      | inl hit ↦ rw hit (
          row_of-update-none b.id b rows
            (subst (λ k. row_of k rows ≡ none) (eq_of_eq_ℕ a.id b.id hit) fresh))
      | inr miss ↦ rw miss (row_of-update-none a.id b rows fresh)
    ],
    update-IsDistinct b rows d,
  )
