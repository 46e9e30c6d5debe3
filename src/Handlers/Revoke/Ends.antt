-- ===== src/Handlers/Revoke/Ends.antt =====
-- A revoked key is of no more use: neither the cache nor the table has it as an active key.
use mathlib.Core.Path.{subst}
use wthelly.Base.{
  ℕ, ◌<◌, ◌≡◌, ◌≢◌, refl, sym, ap, ◌∙◌, String, Bool, true, false, ◌&&◌, ◌==◌, Option, none, some,
  List, [], ◌∷◌, find, update, arith, if◌then◌else◌,
}
use wthelly.Error.{Error}
use wthelly.Effect.{ok, err}
use wthelly.Effect.Rules.{
  Ensures, Ensures-pure, Ensures-modify, Ensures-bind, Ensures-guard-bind, Ensures-reads-bind,
  ok-injective,
}
use wthelly.Effect.Keeps.{Ensures-Keeps-bind}
use wthelly.Store.{State, Db, SessionKey}
use wthelly.Store.Transaction.{Ensures-transaction}
use wthelly.SessionKeys.{
  has_address, is_expired, cache_load, get_wallet_by_session_key, get_active_session_key_for_wallet,
  revoke_session_key_from_db,
}
use wthelly.SessionKeys.Rotation.{cache_load-cache_delete}
use wthelly.Handlers.{Request}
use wthelly.Handlers.Transfer.Conserves.{verify_signer-Keeps}
use wthelly.Handlers.Revoke.{handle_revoke_session_key}

abbrev revoke_all : ℕ → String → List SessionKey → List SessionKey
revoke_all now target = update (has_address target) (λ k. record k { expires_at = now })

module _ {Decimal : Type 0} where
  -- what a revocation leaves behind
  record Revoked (now : ℕ) (target : String) (t : State Decimal) : Type 0 where
    before : List SessionKey
    keys : t.db.session_keys ≡ revoke_all now target before
    uncached : cache_load target t.cache ≡ none

  handle_revoke-Revoked :
      (now : ℕ) (req : Request) (target : String) (s : State Decimal)
      → Ensures s (handle_revoke_session_key now req target) (λ _ t. Revoked now target t)
  unfolding handle_revoke_session_key revoke_session_key_from_db
  handle_revoke-Revoked now req target s = Ensures-guard-bind _ _ _ λ _.
      Ensures-Keeps-bind _ _ (verify_signer-Keeps _ _ _) λ signer t _ _.
        Ensures-bind _ _
          {R = λ _ u. (ks : List SessionKey) × (u.db.session_keys ≡ revoke_all now target ks)}
          (Ensures-transaction _ (
            Ensures-reads-bind _ _
              λ _ _. Ensures-reads-bind _ _ λ _ _. Ensures-modify _ (t.db.session_keys, refl)))
          λ _ u (ks, keys).
            Ensures-bind _ _ {R = λ _ v. Revoked now target v}
              (Ensures-modify _ (record {
                before = ks;
                keys = keys;
                uncached = cache_load-cache_delete target u.cache;
              }))
              λ _ _ r. Ensures-pure _ r

-- a key that is found after the revocation expired with it
find-revoke_all :
    (now : ℕ) (target wallet : String) (ks : List SessionKey) {k : SessionKey}
    → find (λ x. has_address target x && (x.wallet_address == wallet)) (revoke_all now target ks)
      ≡ some k
    → k.expires_at ≡ now
unfolding find update
find-revoke_all now target wallet [] h = cc
find-revoke_all now target wallet (x ∷ ks) {k} h =
    ground (arith, find-revoke_all now target wallet ks {k = k})

module _ {Decimal : Type 0} where
  active_not_expired :
      (later : ℕ) (target wallet : String) (db : Db Decimal) {k : SessionKey}
      → get_active_session_key_for_wallet later target wallet db ≡ ok k
      → (find (λ x. has_address target x && (x.wallet_address == wallet)) db.session_keys ≡ some k)
        × (is_expired later k.expires_at ≡ false)
  unfolding get_active_session_key_for_wallet
  active_not_expired later target wallet db h = live _ h
    where
      live :
          (o : Option SessionKey) {k : SessionKey}
          → elim o [
            | none ↦ err Error.record_not_found
            | some x ↦ if is_expired later x.expires_at then err Error.session_key_expired else ok x
          ]
            ≡ ok k
          → (o ≡ some k) × (is_expired later k.expires_at ≡ false)
      live none e = cc
      live (some x) {k} e = decided (is_expired later x.expires_at) refl e
        where
          decided :
              (b : Bool)
              → is_expired later x.expires_at ≡ b
              → (if b then err Error.session_key_expired else ok x) ≡ ok k
              → (some x ≡ some k) × (is_expired later k.expires_at ≡ false)
          decided true h f = cc
          decided false h f =
              let same = ok-injective f in
              (ap some same, ap (λ y. is_expired later y.expires_at) (sym same) ∙ h)

  uncached_wallet :
      (later : ℕ) (target : String) (t : State Decimal)
      → cache_load target t.cache ≡ none
      → (get_wallet_by_session_key later target t).0 ≡ ok ""
  unfolding get_wallet_by_session_key
  uncached_wallet later target t h = rw (get_wallet_by_session_key, h) refl

  never_active :
      (now later : ℕ) (target wallet : String) (t : State Decimal) (k : SessionKey)
      → Revoked now target t
      → now < later
      → get_active_session_key_for_wallet later target wallet t.db ≢ ok k
  never_active now later target wallet t k r after h =
      let (found, live) = active_not_expired later target wallet t.db h in
      let e = find-revoke_all now target wallet r.before (
        sym (ap (find (λ x. has_address target x && (x.wallet_address == wallet))) r.keys)
        ∙ found) in
      past k.expires_at e live
    where
      past : (x : ℕ) → x ≡ now → is_expired later x ≢ false
      past x e live = ground arith

  -- If HandleRevokeSessionKey succeeds, then the cache maps the key to no wallet, and at any later time
  -- the table has it as an active key of no wallet.
  pub revoke-ends :
      (now : ℕ) (req : Request) (target : String) (s t : State Decimal) {key : String} (later : ℕ)
      (wallet : String) (k : SessionKey)
      → handle_revoke_session_key now req target s ≡ (ok key, t)
      → now < later
      → ((get_wallet_by_session_key later target t).0 ≡ ok "")
        × (get_active_session_key_for_wallet later target wallet t.db ≢ ok k)
  revoke-ends now req target s t later wallet k h after =
      let r : Revoked now target t =
        subst (Revoked now target) (ap (λ x. x.1) h)
          ((handle_revoke-Revoked now req target s).at _ (ap (λ x. x.0) h)) in
      (uncached_wallet later target t r.uncached, never_active now later target wallet t k r after)
