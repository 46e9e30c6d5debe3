-- ===== src/RouterAuth/Signed.antt =====
-- A login by a signature: the wallet of the policy signed a challenge that was made for it.
use wthelly.Base.{
  ℕ, ◌+◌, ◌≡◌, ◌≤◌, ◌⊎◌, String, false, not, ltb, ◌==◌, some, List, [], ◌∷◌, All, if◌then◌else◌,
}
use wthelly.Base.Int.{pos, ◌≤ℤ◌}
use wthelly.Error.{Error}
use wthelly.Effect.{Effect, ok, or_fail, pure, reads, ◌>>=◌, ◌>>◌}
use wthelly.Effect.Keeps.{Keeps}
use wthelly.Money.{DecimalOps}
use wthelly.Store.{Allowance}
use wthelly.Assets.{AssetConfig}
use wthelly.UserTags.{generate_or_retrieve_user_tag}
use wthelly.Auth.{
  Challenge, AuthManager, find_challenge, normalize, validate_challenge, validate_session,
}
use wthelly.RouterAuth.{
  Policy, Server, Login, with_error, jwt_claims, validate_allowances, on_auth, on_state,
  store_session_key,
}

module _ {Decimal : Type 0} where
  abbrev auth_of : Server Decimal → AuthManager
  auth_of n = n.auth

-- The challenge of a login by signature, which was issued, is not used and not expired, and which the
-- wallet signed that it was made for.
abbrev pub IsSigned : Login → ℕ → String → String → AuthManager → Challenge → Type 0
IsSigned login now sig token am c =
    (find_challenge token am.challenges ≡ some c)
    × (c.completed ≡ false)
    × (now ≤ c.challenge_expires_at)
    × ((signer : String) × (login.recover c sig ≡ some signer) × (c.address ≡ normalize signer))

-- The sessions after a login: that of the wallet begins anew, the others stay.
abbrev pub HasLoggedIn : ℕ → String → AuthManager → AuthManager → Type 0
HasLoggedIn now wallet before after =
    (later : ℕ) (other : String)
    → validate_session later other after ≡ (
        if wallet == other
        then not (ltb (now + before.session_ttl) later)
        else validate_session later other before)

-- The policy is the challenge's in all that the challenge asked for.
pub record FollowsChallenge (policy : Policy) (c : Challenge) : Type 0 where
  pub wallet : policy.wallet ≡ c.address
  pub session_key : policy.session_key ≡ c.session_key
  pub scope : policy.scope ≡ c.scope
  pub application : policy.application ≡ c.application
  pub allowances : policy.allowances ≡ c.allowances
  pub expires_at : policy.expires_at ≡ c.session_key_expires_at

-- One of the configured assets has the symbol, and is not disabled.
abbrev pub IsOffered : List AssetConfig → String → Type 0
IsOffered [] symbol = ⊥
IsOffered (a ∷ assets) symbol =
    ((a.disabled ≡ false) × (a.symbol ≡ symbol)) ⊎ IsOffered assets symbol

-- What an allowance of a policy is: an asset that is offered, and an amount that reads as a number
-- not below zero.
abbrev pub IsGrantable :
    {Decimal : Type 0} → DecimalOps Decimal → List AssetConfig → Allowance → Type 0
IsGrantable {Decimal = Decimal} dec assets a =
    IsOffered assets a.asset
    × ((amount : Decimal) × (dec.from_string a.amount ≡ some amount) × (pos 0 ≤ℤ dec.units amount))

module _ {Decimal : Type 0} ⦃dec : DecimalOps Decimal⦄ where
  -- the steps that follow the challenge
  rest : Login → ℕ → Challenge → Effect (Server Decimal) (Policy × String)
  rest login now c = do
    tag ←
        with_error Error.tag_not_stored
          (on_state (generate_or_retrieve_user_tag login.store_aborts login.drawn_tags c.address))
    claims ← reads λ n. ok (jwt_claims now c n.auth)
    jwt ← reads λ n. or_fail (login.sign_jwt claims) Error.jwt_not_signed
    reads λ n. validate_allowances dec login.assets c.allowances
    store_session_key now c
    pure (claims.policy, jwt)

  -- what a login by signature shows of the manager before it, and of what comes after it
  abbrev pub HasSigned :
      Login → ℕ → String → String → AuthManager → Policy × String → Server Decimal → Type 0
  HasSigned login now sig token am r t =
      (c : Challenge) × IsSigned login now sig token am c
      × FollowsChallenge r.0 c
      × All (IsGrantable dec login.assets) r.0.allowances
      × HasLoggedIn now c.address am t.auth

  -- the steps that follow the look-up of the challenge
  answer : Login → ℕ → String → String → Challenge → Effect (Server Decimal) (Policy × String)
  answer login now sig token c = do
    recovered ← reads λ n. or_fail (login.recover c sig) Error.invalid_signature
    with_error Error.invalid_challenge_or_signature
        (on_auth (validate_challenge now token recovered))
    rest login now c
