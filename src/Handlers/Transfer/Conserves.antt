-- ===== src/Handlers/Transfer/Conserves.antt =====
-- A transfer moves funds and makes none.
use mathlib.Core.Path.{subst}
use wthelly.Base.{
  ℕ, ◌≡◌, refl, sym, ap, ◌∙◌, String, Bool, true, false, not, ◌||◌, Option, none, some, List, [],
  ◌∷◌, arith, if◌then◌else◌,
}
use wthelly.Base.Int.{pos, ◌≤ℤ◌}
use wthelly.Error.{Error}
use wthelly.Effect.{Result, ok, err, modify, ◌>>=◌, ◌>>◌}
use wthelly.Effect.Rules.{
  Ensures, Ensures-pure, Ensures-bind, Ensures-guard-bind, Ensures-reads-bind,
}
use wthelly.Effect.Keeps.{
  Keeps, Keeps-pure, Keeps-fail, Keeps-reads, Keeps-guard, Keeps-bind, Ensures-Keeps-bind,
}
use wthelly.Money.{DecimalOps, Addresses}
use wthelly.MessageCache.{MessageCache, add, exists}
use wthelly.Store.{State, Entry, transfer}
use wthelly.Store.Transaction.{Ensures-transaction}
use wthelly.Ledger.{new_account_id, record_entry}
use wthelly.Ledger.Moves.{IsSolvent}
use wthelly.Ledger.Balance.{funds}
use wthelly.Ledger.Payments.{Balanced, Balanced-start, Balanced-payment}
use wthelly.Transactions.{record_ledger_transaction}
use wthelly.AppSessions.Checks.{get_wallet-Keeps}
use wthelly.AppSessions.Deposit.Conserves.{covered}
use wthelly.Handlers.{Request, verify_signer}
use wthelly.Handlers.Transfer.{
  TransferAllocation, TransferParams, TransactionWithTags, validate_spending_of, transfer_one,
  transfer_all, move_funds, make_transfer, remember, handle_transfer,
}

module _ {Decimal : Type 0} where
  pub verify_signer-Keeps :
      (now : ℕ) (recovered : List (Option String)) (wallet : String)
      → Keeps (λ (s : State Decimal). s.db) (verify_signer now recovered wallet)
  unfolding verify_signer
  verify_signer-Keeps now [] wallet = Keeps-fail _
  verify_signer-Keeps now (none ∷ _) wallet = Keeps-fail _
  verify_signer-Keeps now (some signer ∷ _) wallet =
      Keeps-bind _ _ (get_wallet-Keeps now signer)
        λ _. Keeps-bind _ _ (Keeps-guard _ _) λ _. Keeps-pure _

chosen :
    {A B C : Type 0} (b : Bool) (e : Error) (s : B) (c : C) (r : (Result A × B) × C) {a : A}
    → (if b then ((err e, s), c) else r).0.0 ≡ ok a
    → (if b then ((err e, s), c) else r) ≡ r
chosen true e s c r h = cc
chosen false e s c r h = refl

module _ {Decimal : Type 0} ⦃dec : DecimalOps Decimal⦄ where
  open dec use {units, is_zero, is_negative, is_negative_lem}

  validate_spending_of-Keeps :
      (now : ℕ) (key : Option String) (asset : String) (amount : Decimal)
      → Keeps (λ (s : State Decimal). s.db) (validate_spending_of now key asset amount)
  unfolding validate_spending_of
  validate_spending_of-Keeps now none asset amount = Keeps-pure _
  validate_spending_of-Keeps now (some address) asset amount =
      Keeps-bind _ _ (Keeps-reads _) λ _. Keeps-reads _

  positive : (x : Decimal) → not (is_zero x || is_negative x) ≡ true → pos 0 ≤ℤ units x
  positive x h = ground (arith, is_negative_lem x)

  module _ ⦃adr : Addresses⦄ where
    paid :
        {es : List (Entry Decimal)} (from_wallet to_wallet : String) (key : Option String)
        (asset : String) (amount : Decimal) (t : State Decimal)
        → Balanced es t.db.ledger
        → pos 0 ≤ℤ units amount
        → units amount ≤ℤ funds (adr.hex_address from_wallet) (new_account_id from_wallet) asset t
        → Ensures t
            (record_entry
                (adr.hex_address from_wallet)
                (new_account_id from_wallet)
                asset
                (dec.neg amount)
                key
              >> (record_entry
                    (adr.hex_address to_wallet)
                    (new_account_id to_wallet)
                    asset
                    amount
                    none
                  >> record_ledger_transaction transfer
                      (new_account_id from_wallet)
                      (new_account_id to_wallet)
                      asset
                      amount))
            (λ _ u. Balanced es u.db.ledger)
    unfolding record_entry ◌>>=◌ modify record_ledger_transaction
    paid from_wallet to_wallet key asset amount t c n cover = record {
      at = λ _ _.
          Balanced-payment (adr.hex_address from_wallet) (new_account_id from_wallet)
            (adr.hex_address to_wallet) (new_account_id to_wallet) asset amount key none c n cover;
    }

    transfer_one-Balanced :
        {es : List (Entry Decimal)} (now : ℕ) (from_wallet to_wallet : String) (key : Option String)
        (alloc : TransferAllocation Decimal) {s : State Decimal}
        → Balanced es s.db.ledger
        → Ensures s
            (transfer_one now from_wallet to_wallet key alloc)
            (λ _ t. Balanced es t.db.ledger)
    unfolding transfer_one
    transfer_one-Balanced {es} now from_wallet to_wallet key alloc {s} c =
        Ensures-guard-bind _ _ _ λ above.
          Ensures-Keeps-bind _ _ (validate_spending_of-Keeps _ _ _ _) λ _ t _ same.
            Ensures-reads-bind _ _ λ available has. Ensures-guard-bind _ _ _ λ enough.
              paid _ _ key _ _ _ (rw same c) (positive _ above) (covered _ _ _ _ t has enough)

    transfer_all-Balanced :
        {es : List (Entry Decimal)} (now : ℕ) (from_wallet to_wallet : String) (key : Option String)
        (allocs : List (TransferAllocation Decimal)) {s : State Decimal}
        → Balanced es s.db.ledger
        → Ensures s
            (transfer_all now from_wallet to_wallet key allocs)
            (λ _ t. Balanced es t.db.ledger)
    unfolding transfer_all
    transfer_all-Balanced now from_wallet to_wallet key [] c = Ensures-pure _ c
    transfer_all-Balanced now from_wallet to_wallet key (alloc ∷ allocs) c =
        Ensures-bind _ _ (transfer_one-Balanced now from_wallet to_wallet key alloc c) λ _ _ c'.
          Ensures-bind _ _ (transfer_all-Balanced now from_wallet to_wallet key allocs c')
            λ _ _ c''. Ensures-pure _ c''

    make_transfer-Balanced :
        (to_upper : String → String) (now : ℕ) (req : Request) (params : TransferParams Decimal)
        (s : State Decimal)
        → IsSolvent s.db.ledger
        → Ensures s
            (make_transfer to_upper now req params)
            (λ _ t. Balanced s.db.ledger t.db.ledger)
    unfolding make_transfer move_funds
    make_transfer-Balanced to_upper now req params s v = Ensures-guard-bind _ _ _ λ _.
        Ensures-guard-bind _ _ _ λ _. Ensures-guard-bind _ _ _ λ _.
          Ensures-Keeps-bind _ _ (verify_signer-Keeps _ _ _) λ signer t _ same.
            Ensures-reads-bind _ _ λ _ _. Ensures-reads-bind _ _ λ _ _.
              Ensures-guard-bind _ _ _ λ _. Ensures-reads-bind _ _ λ _ _.
                Ensures-bind _ _
                  (Ensures-transaction _ (
                    Ensures-reads-bind _ _ λ _ _.
                      Ensures-reads-bind _ _
                        λ _ _. transfer_all-Balanced now _ _ _ _ (rw same (Balanced-start v))))
                  λ _ _ c. Ensures-pure _ c

    pub remembered :
        {A : Type 0} (now : ℕ) (hash : String) (mc : MessageCache) (r : Result A × State Decimal)
        {a : A}
        → (remember now hash mc r).0.0 ≡ ok a
        → (r.0 ≡ ok a)
          × ((remember now hash mc r).0.1 ≡ r.1)
          × ((remember now hash mc r).1 ≡ add now hash mc)
    unfolding remember
    remembered now hash mc (ok a, s) h = (h, refl, refl)
    remembered now hash mc (err e, s) h = cc

    pub fresh :
        (to_upper : String → String) (now : ℕ) (req : Request) (params : TransferParams Decimal)
        (mc : MessageCache) (s : State Decimal) {rows : List (TransactionWithTags Decimal)}
        → (handle_transfer to_upper now req params mc s).0.0 ≡ ok rows
        → handle_transfer to_upper now req params mc s
          ≡ remember now req.message_hash mc (make_transfer to_upper now req params s)
    unfolding handle_transfer
    fresh to_upper now req params mc s h =
        chosen (exists now req.message_hash mc) Error.already_processed s mc _ h

    -- If HandleTransfer succeeds where the wallets' own accounts are not below zero, then the worth of
    -- all rows of each asset is what it was, and the wallets' own accounts are still not below zero.
    pub transfer-conserves :
        (to_upper : String → String) (now : ℕ) (req : Request) (params : TransferParams Decimal)
        (mc : MessageCache) (s : State Decimal) {rows : List (TransactionWithTags Decimal)}
        → IsSolvent s.db.ledger
        → (handle_transfer to_upper now req params mc s).0.0 ≡ ok rows
        → Balanced s.db.ledger (handle_transfer to_upper now req params mc s).0.1.db.ledger
    transfer-conserves to_upper now req params mc s v h =
        let same = fresh to_upper now req params mc s h in
        let (ran, state, _) =
          remembered now req.message_hash mc (make_transfer to_upper now req params s)
            (sym (ap (λ r. r.0.0) same) ∙ h) in
        subst (λ t. Balanced s.db.ledger t.db.ledger) (sym (ap (λ r. r.0.1) same ∙ state))
          ((make_transfer-Balanced to_upper now req params s v).at _ ran)
