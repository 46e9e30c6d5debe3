-- ===== src/SessionKeys/Rotation.antt =====
-- A new key takes the place of the old ones of its wallet and application, in the table and the cache.
use mathlib.Core.Path.{subst}
use wthelly.Base.{
  ◌&&◌, Bool-cases, inl, inr, ℕ, ◌≡◌, ◌≢◌, All, eq_iff, refl, ap, ◌∙◌, String, Bool, true, false,
  not, ◌==◌, eq_refl, none, some, List, [], ◌∷◌, select, find, arith,
}
use wthelly.Effect.{ok}
use wthelly.Effect.Rules.{
  Ensures, Ensures-bind, Ensures-guard-bind, Ensures-reads-bind, Ensures-modify, ok-injective,
}
use wthelly.Store.Transaction.{Ensures-transaction}
use wthelly.Store.{State, SessionKey, Allowance, CacheEntry}
use wthelly.SessionKeys.{
  is_expired, cache_load, cache_delete, cache_store, delete_all, get_wallet_by_session_key,
  replace_session_key, add_session_key, of_wallet_app,
}

-- what a query of the cache finds after a store
cache_load-cache_store :
    (key wallet : String) (expires_at : ℕ) (cache : List CacheEntry)
    → cache_load key (cache_store key wallet expires_at cache)
      ≡ some (record { key = key; wallet = wallet; expires_at = expires_at })
unfolding cache_load cache_store find
cache_load-cache_store key wallet expires_at cache = rw eq_refl refl

pub cache_load-cache_delete :
    (key : String) (cache : List CacheEntry) → cache_load key (cache_delete key cache) ≡ none
unfolding cache_load cache_delete find select
cache_load-cache_delete key [] = refl
cache_load-cache_delete key (e ∷ es) = ground (arith, cache_load-cache_delete key es)

-- what is not there is not there after a deletion
cache_load-cache_delete-none :
    (key other : String) (cache : List CacheEntry)
    → cache_load key cache ≡ none
    → cache_load key (cache_delete other cache) ≡ none
unfolding cache_load cache_delete find select
cache_load-cache_delete-none key other [] h = refl
cache_load-cache_delete-none key other (e ∷ es) h =
    ground (arith, cache_load-cache_delete-none key other es)

cache_load-delete_all :
    (key : String) (old : List SessionKey) (cache : List CacheEntry)
    → cache_load key cache ≡ none
    → cache_load key (delete_all old cache) ≡ none
unfolding delete_all
cache_load-delete_all key [] cache h = h
cache_load-delete_all key (k ∷ old) cache h =
    cache_load-delete_all key old (cache_delete k.address cache)
      (cache_load-cache_delete-none key k.address cache h)

cache_load-cache_store_ne :
    (key address wallet : String) (expires_at : ℕ) (cache : List CacheEntry)
    → key ≢ address
    → cache_load key cache ≡ none
    → cache_load key (cache_store address wallet expires_at cache) ≡ none
unfolding cache_load cache_store find
cache_load-cache_store_ne key address wallet expires_at cache other h =
    rw apart (cache_load-cache_delete-none key address cache h)
  where
    apart : (address == key) ≡ false
    apart = ground (arith, eq_iff address key)

-- The elements that pass a test, after those are taken out and one is put in.
select-select-not :
    {A : Type 0} (p : A → Bool) (xs : List A) → select p (select (λ x. not (p x)) xs) ≡ []
unfolding select
select-select-not p [] = refl
select-select-not p (x ∷ xs) = elim (Bool-cases (p x)) [
  | inl hit ↦ rw hit (select-select-not p xs)
  | inr miss ↦ rw (miss, miss) (select-select-not p xs)
]

select-only :
    {A : Type 0} (p : A → Bool) (x : A) (xs : List A)
    → p x ≡ true
    → select p (x ∷ select (λ y. not (p y)) xs) ≡ x ∷ []
unfolding select
select-only p x xs h = rw h (ap (λ ys. x ∷ ys) (select-select-not p xs))

-- The cache has no wallet for an old key, at any time, unless its address is the new key's too.
abbrev pub Evicted : {Decimal : Type 0} → String → State Decimal → SessionKey → Type 0
Evicted address t k =
    (later : ℕ) → k.address ≢ address → (get_wallet_by_session_key later k.address t).0 ≡ ok ""

module _ {Decimal : Type 0} where
  -- what AddSessionKey leaves behind
  pub record Added (wallet address application : String) (expires_at : ℕ) (s t : State Decimal)
      : Type 0 where
    pub key : SessionKey
    pub named : key.address ≡ address
    pub belongs : of_wallet_app wallet application key ≡ true
    pub keys :
        t.db.session_keys
        ≡ key ∷ select (λ k. not (of_wallet_app wallet application k)) s.db.session_keys
    pub cached :
        t.cache
        ≡ cache_store address wallet expires_at
            (delete_all (select (of_wallet_app wallet application) s.db.session_keys) s.cache)

  -- the keys that stay
  others : SessionKey → State Decimal → List SessionKey
  others key s =
      select (λ k. not (of_wallet_app key.wallet_address key.application k)) s.db.session_keys

  replaced :
      (key : SessionKey) (s : State Decimal)
      → Ensures s
          (replace_session_key key)
          (λ _ t. (t.db.session_keys ≡ key ∷ others key s) × (t.cache ≡ s.cache))
  unfolding replace_session_key others
  replaced key s =
      Ensures-bind _ _ {R = λ _ t. (t.db.session_keys ≡ others key s) × (t.cache ≡ s.cache)}
        (Ensures-modify _ (refl, refl))
        λ _ t (keys, same).
          Ensures-reads-bind _ _ λ taken _.
            Ensures-guard-bind _ _ _ λ _. Ensures-modify _ (ap (λ ks. key ∷ ks) keys, same)

  add_session_key-Added :
      (now : ℕ) (wallet address application scope : String) (allowances : List Allowance)
      (expires_at : ℕ) (s : State Decimal)
      → Ensures s
          (add_session_key now wallet address application scope allowances expires_at)
          (λ _ t. Added wallet address application expires_at s t)
  unfolding add_session_key others of_wallet_app
  add_session_key-Added now wallet address application scope allowances expires_at s =
      Ensures-guard-bind _ _ _ λ _. Ensures-reads-bind _ _ λ existing read.
        Ensures-bind _ _ (Ensures-transaction _ (replaced _ s)) λ _ t (keys, same).
          Ensures-modify _ (record {
            key = _;
            named = refl;
            belongs = belongs wallet application;
            keys = keys;
            cached = rw (same, ok-injective read) refl;
          })
    where
      belongs : (w a : String) → ((w == w) && (a == a)) ≡ true
      belongs w a = rw (eq_refl, eq_refl) refl

  get_wallet-live :
      (now : ℕ) (key wallet : String) (expires_at : ℕ) (t : State Decimal)
      → cache_load key t.cache
        ≡ some (record { key = key; wallet = wallet; expires_at = expires_at })
      → is_expired now expires_at ≡ false
      → (get_wallet_by_session_key now key t).0 ≡ ok wallet
  unfolding get_wallet_by_session_key
  get_wallet-live now key wallet expires_at t e live = rw (get_wallet_by_session_key, e, live) refl

  get_wallet-absent :
      (now : ℕ) (key : String) (t : State Decimal)
      → cache_load key t.cache ≡ none
      → (get_wallet_by_session_key now key t).0 ≡ ok ""
  unfolding get_wallet_by_session_key
  get_wallet-absent now key t e = rw (get_wallet_by_session_key, e) refl

  -- a key that is neither deleted last nor the new one is not found
  evicted :
      (address wallet : String) (expires_at : ℕ) (old : List SessionKey) (cache : List CacheEntry)
      (t : State Decimal)
      → t.cache ≡ cache_store address wallet expires_at (delete_all old cache)
      → All (Evicted address t) old
  unfolding delete_all
  evicted address wallet expires_at [] cache t e = tt
  evicted address wallet expires_at (k ∷ old) cache t e = (
    λ later other. get_wallet-absent later k.address t (
        ap (cache_load k.address) e
        ∙ cache_load-cache_store_ne k.address address wallet expires_at _ other
            (cache_load-delete_all k.address old _ (cache_load-cache_delete k.address cache))),
    evicted address wallet expires_at old (cache_delete k.address cache) t e,
  )

  -- If AddSessionKey succeeds, then until the key expires the cache maps it to its wallet, and a query
  -- for the keys of the wallet and application finds it and no other; and at no time is the cache's
  -- answer a wallet for an address, other than the new key's, of a key that they had before.
  pub add-rotates :
      (now : ℕ) (wallet address application scope : String) (allowances : List Allowance)
      (expires_at : ℕ) (s t : State Decimal) (later : ℕ)
      → add_session_key now wallet address application scope allowances expires_at s ≡ (ok tt, t)
      → is_expired later expires_at ≡ false
      → ((get_wallet_by_session_key later address t).0 ≡ ok wallet)
        × ((k : SessionKey) × (k.address ≡ address)
            × (select (of_wallet_app wallet application) t.db.session_keys ≡ k ∷ []))
        × All (Evicted address t) (select (of_wallet_app wallet application) s.db.session_keys)
  add-rotates now wallet address application scope allowances expires_at s t later h live =
      let a : Added wallet address application expires_at s t =
        subst (Added wallet address application expires_at s) (ap (λ r. r.1) h) (
          (add_session_key-Added now wallet address application scope allowances expires_at s).at tt
            (ap (λ r. r.0) h)) in
      (
        get_wallet-live later address wallet expires_at t
            (ap (cache_load address) a.cached ∙ cache_load-cache_store address wallet expires_at _)
            live,
        (
          a.key,
          a.named,
          ap (select (of_wallet_app wallet application)) a.keys
              ∙ select-only (of_wallet_app wallet application) a.key s.db.session_keys a.belongs,
        ),
        evicted address wallet expires_at
            (select (of_wallet_app wallet application) s.db.session_keys) s.cache t a.cached,
      )
