-- ===== src/BlockchainWorker/Batch.antt =====
-- The batch of a pass: rows of the table with distinct ids that are all due, and not empty if any is.
use wthelly.Base.{
  ℕ, suc, zero, ◌≡◌, refl, sym, ap, ◌∙◌, inl, inr, arith, Bool, true, false, Bool-cases, eq_ℕ, none,
  some, List, [], ◌∷◌, ◌++◌, All, length, find, select, take,
}
use wthelly.Store.{Db, BlockchainAction}
use wthelly.BlockchainActions.{oldest_first, get_actions_for_chain}
use wthelly.BlockchainWorker.{action_batch_size}
use wthelly.BlockchainWorker.Rows.{eq_of_eq_ℕ, row_of, IsDistinct, is_due, work}

not_zero : {n : ℕ} → suc n ≡ 0 → ⊥
not_zero h = omega arith

eq_ℕ_self : (n : ℕ) → eq_ℕ n n ≡ true
eq_ℕ_self n = ground arith

eq_ℕ_sym : (m n : ℕ) → eq_ℕ m n ≡ false → eq_ℕ n m ≡ false
eq_ℕ_sym m n h = ground arith

module _ {Decimal : Type 0} where
  -- the actions of a list, as they stand in the table
  abbrev pub AreRows : List (BlockchainAction Decimal) → List (BlockchainAction Decimal) → Type 0
  AreRows rows = All (λ a. row_of a.id rows ≡ some a)

  module _ (P : BlockchainAction Decimal → Type 0) where
    All-select :
        (q : BlockchainAction Decimal → Bool) (l : List (BlockchainAction Decimal))
        → All P l
        → All P (select q l)
    unfolding select
    All-select q [] h = tt
    All-select q (a ∷ l) (p, h) = elim (Bool-cases (q a)) [
      | inl keep ↦ rw keep (p, All-select q l h)
      | inr drop ↦ rw drop (All-select q l h)
    ]

    All-snoc :
        (l : List (BlockchainAction Decimal)) (a : BlockchainAction Decimal)
        → All P l
        → P a
        → All P (l ++ (a ∷ []))
    All-snoc [] a h p = (p, tt)
    All-snoc (b ∷ l) a (q, h) p = (q, All-snoc l a h p)

    All-oldest_first : (l : List (BlockchainAction Decimal)) → All P l → All P (oldest_first l)
    unfolding oldest_first
    All-oldest_first [] h = tt
    All-oldest_first (a ∷ l) (p, h) = All-snoc (oldest_first l) a (All-oldest_first l h) p

    All-take : (n : ℕ) (l : List (BlockchainAction Decimal)) → All P l → All P (take n l)
    unfolding take
    All-take zero [] h = tt
    All-take (suc n) [] h = tt
    All-take zero (a ∷ l) h = tt
    All-take (suc n) (a ∷ l) (p, h) = (p, All-take n l h)

  All-due :
      (chain_id : ℕ) (l : List (BlockchainAction Decimal))
      → All (λ a. is_due chain_id a ≡ true) (select (is_due chain_id) l)
  unfolding select
  All-due chain_id [] = tt
  All-due chain_id (a ∷ l) = elim (Bool-cases (is_due chain_id a)) [
    | inl keep ↦ rw keep (keep, All-due chain_id l)
    | inr drop ↦ rw drop (All-due chain_id l)
  ]

  AreRows-cons :
      (a : BlockchainAction Decimal) (rows l : List (BlockchainAction Decimal))
      → row_of a.id rows ≡ none
      → AreRows rows l
      → AreRows (a ∷ rows) l
  unfolding find
  AreRows-cons a rows [] fresh h = tt
  AreRows-cons a rows (b ∷ l) fresh (p, h) = (
    elim (Bool-cases (eq_ℕ a.id b.id)) [
      | inl hit ↦ cc (fresh, ap (λ k. row_of k rows) (eq_of_eq_ℕ a.id b.id hit))
      | inr miss ↦ rw miss p
    ],
    AreRows-cons a rows l fresh h,
  )

  AreRows-self : (rows : List (BlockchainAction Decimal)) → IsDistinct rows → AreRows rows rows
  unfolding find
  AreRows-self [] d = tt
  AreRows-self (a ∷ rows) (fresh, d) =
      (rw (eq_ℕ_self a.id) refl, AreRows-cons a rows rows fresh (AreRows-self rows d))

  row_of-select :
      (k : ℕ) (q : BlockchainAction Decimal → Bool) (l : List (BlockchainAction Decimal))
      → row_of k l ≡ none
      → row_of k (select q l) ≡ none
  unfolding find select
  row_of-select k q [] h = refl
  row_of-select k q (a ∷ l) h = ground (arith, row_of-select k q l)

  row_of-snoc :
      (k : ℕ) (l : List (BlockchainAction Decimal)) (a : BlockchainAction Decimal)
      → row_of k l ≡ none
      → eq_ℕ a.id k ≡ false
      → row_of k (l ++ (a ∷ [])) ≡ none
  unfolding find
  row_of-snoc k [] a h e = rw e refl
  row_of-snoc k (b ∷ l) a h e = ground (arith, row_of-snoc k l a)

  row_of-oldest_first :
      (k : ℕ) (l : List (BlockchainAction Decimal))
      → row_of k l ≡ none
      → row_of k (oldest_first l) ≡ none
  unfolding find oldest_first
  row_of-oldest_first k [] h = refl
  row_of-oldest_first k (a ∷ l) h = elim (Bool-cases (eq_ℕ a.id k)) [
    | inl hit ↦ cc (rw hit at h)
    | inr miss ↦ row_of-snoc k (oldest_first l) a (row_of-oldest_first k l (rw miss at h)) miss
  ]

  row_of-take :
      (k n : ℕ) (l : List (BlockchainAction Decimal))
      → row_of k l ≡ none
      → row_of k (take n l) ≡ none
  unfolding find take
  row_of-take k zero [] h = refl
  row_of-take k (suc n) [] h = refl
  row_of-take k zero (a ∷ l) h = refl
  row_of-take k (suc n) (a ∷ l) h = ground (arith, row_of-take k n l)

  select-IsDistinct :
      (q : BlockchainAction Decimal → Bool) (l : List (BlockchainAction Decimal))
      → IsDistinct l
      → IsDistinct (select q l)
  unfolding select
  select-IsDistinct q [] d = tt
  select-IsDistinct q (a ∷ l) (fresh, d) = elim (Bool-cases (q a)) [
    | inl keep ↦ rw keep (row_of-select a.id q l fresh, select-IsDistinct q l d)
    | inr drop ↦ rw drop (select-IsDistinct q l d)
  ]

  snoc-IsDistinct :
      (l : List (BlockchainAction Decimal)) (a : BlockchainAction Decimal)
      → IsDistinct l
      → row_of a.id l ≡ none
      → IsDistinct (l ++ (a ∷ []))
  unfolding find
  snoc-IsDistinct [] a d h = (refl, tt)
  snoc-IsDistinct (b ∷ l) a (fresh, d) h = elim (Bool-cases (eq_ℕ b.id a.id)) [
    | inl hit ↦ cc (rw hit at h)
    | inr miss ↦
        (row_of-snoc b.id l a fresh (eq_ℕ_sym b.id a.id miss), snoc-IsDistinct l a d (rw miss at h))
  ]

  oldest_first-IsDistinct :
      (l : List (BlockchainAction Decimal)) → IsDistinct l → IsDistinct (oldest_first l)
  unfolding oldest_first
  oldest_first-IsDistinct [] d = tt
  oldest_first-IsDistinct (a ∷ l) (fresh, d) =
      snoc-IsDistinct (oldest_first l) a (oldest_first-IsDistinct l d)
        (row_of-oldest_first a.id l fresh)

  take-IsDistinct :
      (n : ℕ) (l : List (BlockchainAction Decimal)) → IsDistinct l → IsDistinct (take n l)
  unfolding take
  take-IsDistinct zero [] d = tt
  take-IsDistinct (suc n) [] d = tt
  take-IsDistinct zero (a ∷ l) d = tt
  take-IsDistinct (suc n) (a ∷ l) (fresh, d) = (row_of-take a.id n l fresh, take-IsDistinct n l d)

  length-snoc :
      (l : List (BlockchainAction Decimal)) (a : BlockchainAction Decimal)
      → length (l ++ (a ∷ [])) ≡ suc (length l)
  length-snoc [] a = refl
  length-snoc (b ∷ l) a = ap suc (length-snoc l a)

  length-oldest_first : (l : List (BlockchainAction Decimal)) → length (oldest_first l) ≡ length l
  unfolding oldest_first
  length-oldest_first [] = refl
  length-oldest_first (a ∷ l) = length-snoc (oldest_first l) a ∙ ap suc (length-oldest_first l)

  length-take-suc :
      (n : ℕ) (l : List (BlockchainAction Decimal)) → length (take (suc n) l) ≡ 0 → length l ≡ 0
  unfolding take
  length-take-suc n [] h = refl
  length-take-suc n (a ∷ l) h = cc

  work-select_nil :
      (chain_id : ℕ) (l : List (BlockchainAction Decimal))
      → length (select (is_due chain_id) l) ≡ 0
      → work chain_id l ≡ 0
  unfolding select work
  work-select_nil chain_id [] h = refl
  work-select_nil chain_id (a ∷ l) h = elim (Bool-cases (is_due chain_id a)) [
    | inl due ↦ absurd (not_zero (rw due at h))
    | inr idle ↦ rw idle (omega (arith, work-select_nil chain_id l (rw idle at h)))
  ]

  module _ (chain_id : ℕ) (db : Db Decimal) where
    abbrev pub batch : List (BlockchainAction Decimal)
    batch = get_actions_for_chain chain_id action_batch_size db

    pub batch-AreRows : IsDistinct db.blockchain_actions → AreRows db.blockchain_actions batch
    unfolding get_actions_for_chain
    batch-AreRows d =
        All-take (λ a. row_of a.id db.blockchain_actions ≡ some a) action_batch_size _
          (All-oldest_first (λ a. row_of a.id db.blockchain_actions ≡ some a) _
            (All-select (λ a. row_of a.id db.blockchain_actions ≡ some a) (is_due chain_id)
              db.blockchain_actions (AreRows-self db.blockchain_actions d)))

    pub batch-due : All (λ a. is_due chain_id a ≡ true) batch
    unfolding get_actions_for_chain
    batch-due =
        All-take (λ a. is_due chain_id a ≡ true) action_batch_size _
          (All-oldest_first (λ a. is_due chain_id a ≡ true) _
            (All-due chain_id db.blockchain_actions))

    pub batch-IsDistinct : IsDistinct db.blockchain_actions → IsDistinct batch
    unfolding get_actions_for_chain
    batch-IsDistinct d =
        take-IsDistinct action_batch_size _
          (oldest_first-IsDistinct _ (select-IsDistinct (is_due chain_id) db.blockchain_actions d))

    -- A batch is empty only if no work is left.
    pub work-batch_nil : length batch ≡ 0 → work chain_id db.blockchain_actions ≡ 0
    unfolding get_actions_for_chain
    work-batch_nil h = work-select_nil chain_id db.blockchain_actions (
        sym (length-oldest_first (select (is_due chain_id) db.blockchain_actions))
        ∙ length-take-suc 19 (oldest_first (select (is_due chain_id) db.blockchain_actions)) h)
