-- ===== src/Handlers/Transfer/Once.antt =====
-- A request for a transfer that succeeded is not processed again, whatever requests come between.
use wthelly.Base.{
  ℕ, ◌≤◌, ◌≡◌, refl, sym, ap, ◌∙◌, inl, inr, String, Bool-cases, true, not, ltb, ◌==◌, eq_refl,
  List, [], ◌∷◌, All, ◌+◌, arith, if◌then◌else◌,
}
use wthelly.Error.{Error}
use wthelly.Effect.{Result, ok, err}
use wthelly.Money.{DecimalOps, Addresses}
use wthelly.MessageCache.{
  MessageCache, cleanup_expired, recalculate_cleanup_interval, store, add, exists,
}
use wthelly.MessageCache.Expiry.{IsCache, exists-add}
use wthelly.Store.{State}
use wthelly.Handlers.{Request}
use wthelly.Handlers.Transfer.{
  TransferParams, TransactionWithTags, make_transfer, remember, handle_transfer,
}
use wthelly.Handlers.Transfer.Conserves.{remembered, fresh}

add-ttl : (now : ℕ) (hash : String) (mc : MessageCache) → (add now hash mc).ttl ≡ mc.ttl
unfolding add store cleanup_expired recalculate_cleanup_interval
add-ttl now hash mc = ground arith

-- The cache answers yes for the hash at the time `later`.
abbrev Remembers : ℕ → String → ℕ → MessageCache → Type 0
Remembers later hash ttl mc = IsCache mc × (mc.ttl ≡ ttl) × (exists later hash mc ≡ true)

-- another addition does not change this
add-Remembers :
    (now t later : ℕ) (hash other : String) (ttl : ℕ) (mc : MessageCache)
    → now ≤ t
    → t ≤ later
    → later ≤ now + ttl
    → Remembers later hash ttl mc
    → Remembers later hash ttl (add t other mc)
add-Remembers now t later hash other ttl mc from to before (m, same, there) =
    let (answer, m') = exists-add t later other hash mc m to in
    (m', add-ttl t other mc ∙ same, answer ∙ stays)
  where
    stays : (if other == hash then not (ltb (t + mc.ttl) later) else exists later hash mc) ≡ true
    stays = elim (Bool-cases (other == hash)) [
      | inl hit ↦ rw hit (ground arith)
      | inr miss ↦ rw miss there
    ]

-- A call of the handler: its time and its request, and the state in which it is made.
pub record Call (Decimal : Type 0) : Type 0 where
  pub time : ℕ
  pub request : Request
  pub params : TransferParams Decimal
  pub state : State Decimal

module _ {Decimal : Type 0} ⦃dec : DecimalOps Decimal⦄ ⦃adr : Addresses⦄
    (to_upper : String → String) where
  -- the cache after the calls of a list
  abbrev pub after_transfers : List (Call Decimal) → MessageCache → MessageCache
  after_transfers [] mc = mc
  after_transfers (c ∷ calls) mc =
      after_transfers calls (handle_transfer to_upper c.time c.request c.params mc c.state).1

  remember-Remembers :
      {A : Type 0} (now t later : ℕ) (hash other : String) (ttl : ℕ) (mc : MessageCache)
      (r : Result A × State Decimal)
      → now ≤ t
      → t ≤ later
      → later ≤ now + ttl
      → Remembers later hash ttl mc
      → Remembers later hash ttl (remember t other mc r).1
  unfolding remember
  remember-Remembers now t later hash other ttl mc (ok a, s) from to before kept =
      add-Remembers now t later hash other ttl mc from to before kept
  remember-Remembers now t later hash other ttl mc (err e, s) from to before kept = kept

  call-Remembers :
      (now later : ℕ) (hash : String) (ttl : ℕ) (mc : MessageCache) (c : Call Decimal)
      → now ≤ c.time
      → c.time ≤ later
      → later ≤ now + ttl
      → Remembers later hash ttl mc
      → Remembers later hash ttl (handle_transfer to_upper c.time c.request c.params mc c.state).1
  unfolding handle_transfer
  call-Remembers now later hash ttl mc c from to before kept =
      elim (Bool-cases (exists c.time c.request.message_hash mc)) [
        | inl again ↦ rw again kept
        | inr new ↦ rw new (
            remember-Remembers now c.time later hash c.request.message_hash ttl mc
              (make_transfer to_upper c.time c.request c.params c.state) from to before kept)
      ]

  after_transfers-Remembers :
      (now later : ℕ) (hash : String) (ttl : ℕ) (calls : List (Call Decimal)) (mc : MessageCache)
      → All (λ c. (now ≤ c.time) × (c.time ≤ later)) calls
      → later ≤ now + ttl
      → Remembers later hash ttl mc
      → Remembers later hash ttl (after_transfers calls mc)
  after_transfers-Remembers now later hash ttl [] mc times before kept = kept
  after_transfers-Remembers now later hash ttl (c ∷ calls) mc (time, times) before kept =
      after_transfers-Remembers now later hash ttl calls _ times before
        (call-Remembers now later hash ttl mc c time.0 time.1 before kept)

  seen :
      (now : ℕ) (req : Request) (params : TransferParams Decimal) (mc : MessageCache)
      (s : State Decimal)
      → exists now req.message_hash mc ≡ true
      → (handle_transfer to_upper now req params mc s).0.0 ≡ err Error.already_processed
  unfolding handle_transfer
  seen now req params mc s h = rw h refl

  -- Once HandleTransfer has succeeded, with a message cache that has one entry for each hash, then,
  -- whatever calls of HandleTransfer come after it, each at no earlier time, with any request, in any
  -- state and with any result, a request with the same hash that is made at no earlier time than they
  -- and before the time to live has passed, whatever it asks and whatever the state, fails as one that
  -- was processed already.
  pub transfer-once :
      (now : ℕ) (req : Request) (params : TransferParams Decimal) (mc : MessageCache)
      (s : State Decimal) {rows : List (TransactionWithTags Decimal)}
      (between : List (Call Decimal)) (later : ℕ) (again : Request)
      (params' : TransferParams Decimal) (s' : State Decimal)
      → IsCache mc
      → (handle_transfer to_upper now req params mc s).0.0 ≡ ok rows
      → All (λ c. (now ≤ c.time) × (c.time ≤ later)) between
      → again.message_hash ≡ req.message_hash
      → now ≤ later
      → later ≤ now + mc.ttl
      → (handle_transfer to_upper later again params'
          (after_transfers between (handle_transfer to_upper now req params mc s).1)
          s').0.0
        ≡ err Error.already_processed
  transfer-once now req params mc s between later again params' s' m h times same_hash after
        before =
      let same = fresh to_upper now req params mc s h in
      let (_, _, cached) =
        remembered now req.message_hash mc (make_transfer to_upper now req params s)
          (sym (ap (λ r. r.0.0) same) ∙ h) in
      let kept =
        after_transfers-Remembers now later req.message_hash mc.ttl between
          (add now req.message_hash mc) times before first in
      seen later again params' _ s' (
        ap (λ c. exists later again.message_hash (after_transfers between c))
          (ap (λ r. r.1) same ∙ cached)
        ∙ ap (λ k. exists later k (after_transfers between (add now req.message_hash mc))) same_hash
        ∙ kept.2)
    where
      live :
          (req.message_hash == req.message_hash) ≡ true
          → (if req.message_hash == req.message_hash
              then not (ltb (now + mc.ttl) later)
              else exists later req.message_hash mc)
            ≡ true
      live e = rw e (ground arith)

      first : Remembers later req.message_hash mc.ttl (add now req.message_hash mc)
      first =
          let (answer, m') = exists-add now later req.message_hash req.message_hash mc m after in
          (m', add-ttl now req.message_hash mc, answer ∙ live (eq_refl req.message_hash))
