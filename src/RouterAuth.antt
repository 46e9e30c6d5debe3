-- ===== src/RouterAuth.antt =====
-- rpc_router_auth.go: a wallet logs in by signing a challenge or with a token that the server signed, and
-- the guard of the methods that need a login. The recovery of an address from an EIP-712 signature and
-- the signing and the parsing of a JWT are parameters. `now` is in nanoseconds; metrics are left out.
pub mod Signed
use wthelly.Base.{
  ℕ, ◌+◌, ◌-◌, ◌*◌, ◌/◌, String, Bool, true, false, not, ◌&&◌, ◌||◌, ltb, ◌==◌, Option, none, some,
  List, [], ◌∷◌, any, if◌then◌else◌,
}
use wthelly.Error.{Error}
use wthelly.Effect.{
  Effect, Result, ok, err, or_fail, check, pure, fail, reads, guard, modify, ◌>>=◌, ◌>>◌,
}
use wthelly.Money.{DecimalOps}
use wthelly.Store.{State, Allowance}
use wthelly.Assets.{AssetConfig}
use wthelly.SessionKeys.{check_session_key_exists, add_session_key}
use wthelly.UserTags.{generate_or_retrieve_user_tag}
use wthelly.Auth.{
  Challenge, AuthManager, second, generate_challenge, get_challenge, validate_challenge,
  register_auth_session, validate_session, update_session,
}

-- `Policy`
pub record Policy : Type 0 where
  pub wallet : String
  pub session_key : String
  pub scope : String
  pub application : String
  pub allowances : List Allowance
  pub expires_at : ℕ

-- `JWTClaims`: times in seconds
pub record JwtClaims : Type 0 where
  pub policy : Policy
  pub issuer : String
  pub expires_at : ℕ

-- the manager of logins and the database
pub record Server (Decimal : Type 0) : Type 0 where
  pub auth : AuthManager
  pub state : State Decimal

-- What the handlers take from libraries and from the configuration.
pub record Login : Type 0 where
  pub recover : Challenge → String → Option String
  pub sign_jwt : JwtClaims → Option String
  pub parse_jwt : String → Option JwtClaims
  pub drawn_tags : List String
  pub store_aborts : Bool
  pub assets : List AssetConfig

-- a step whose error is reported as another one
abbrev pub with_error : {S A : Type 0} → Error → Effect S A → Effect S A
with_error e m s = (elim (m s).0 [ err _ ↦ err e | ok a ↦ ok a ], (m s).1)

-- `GenerateJWT`
unfoldable pub jwt_claims : ℕ → Challenge → AuthManager → JwtClaims
jwt_claims now c am = record {
  policy = record {
    wallet = c.address;
    session_key = c.session_key;
    scope = c.scope;
    application = c.application;
    allowances = c.allowances;
    expires_at = c.session_key_expires_at;
  };
  issuer = "clearnode";
  expires_at = (now + am.session_ttl) / second;
}

-- `validateClaims`
unfoldable pub validate_claims : ℕ → JwtClaims → Result (Unit {0})
validate_claims now claims =
    if not (claims.issuer == "clearnode")
    then err Error.invalid_claims
    else if ltb (claims.expires_at * second) now
    then err Error.expired_jwt
    else ok tt

-- `ValidateTimestamp`: `ts` is in milliseconds, the expiry in seconds
unfoldable pub validate_timestamp : ℕ → ℕ → ℕ → Result (Unit {0})
validate_timestamp now expiry_seconds ts =
    if ltb ts 1000000000000 || ltb 9999999999999 ts
    then err Error.invalid_timestamp
    else if ltb (expiry_seconds * second) (now - ts * 1000000)
    then err Error.invalid_timestamp
    else ok tt

-- `supportedSymbols[symbol]`
unfoldable pub is_supported : List AssetConfig → String → Bool
is_supported assets symbol = any (λ a. not a.disabled && (a.symbol == symbol)) assets

-- `validateAllowances`
unfoldable pub validate_allowance :
    {Decimal : Type 0} → DecimalOps Decimal → List AssetConfig → Allowance → Result (Unit {0})
unfolding is_supported
validate_allowance dec assets a =
    if not (is_supported assets a.asset)
    then err Error.unsupported_allowance
    else elim (dec.from_string a.amount) [
      | none ↦ err Error.unparsable_allowance
      | some amount ↦
          if dec.less_than amount dec.zero_d then err Error.negative_allowance else ok tt
    ]

unfoldable pub validate_allowances :
    {Decimal : Type 0} → DecimalOps Decimal → List AssetConfig → List Allowance → Result (Unit {0})
unfolding validate_allowance
validate_allowances dec assets [] = ok tt
validate_allowances dec assets (a ∷ allowances) =
    let rest = validate_allowances dec assets allowances in
    elim (validate_allowance dec assets a) [ err e ↦ err e | ok _ ↦ rest ]

-- `VerifyJWT`
unfoldable pub verify_jwt : Login → ℕ → String → Effect AuthManager JwtClaims
unfolding validate_claims
verify_jwt login now token = do
  claims ← reads λ am. or_fail (login.parse_jwt token) Error.invalid_jwt
  reads λ am. validate_claims now claims
  modify λ am. register_auth_session now claims.policy.wallet am
  pure claims

module _ {Decimal : Type 0} where
  -- a step of the manager, and a step of the database
  unfoldable pub on_auth : {A : Type 0} → Effect AuthManager A → Effect (Server Decimal) A
  on_auth m n = ((m n.auth).0, record n { auth = (m n.auth).1 })

  unfoldable pub on_state : {A : Type 0} → Effect (State Decimal) A → Effect (Server Decimal) A
  on_state m n = ((m n.state).0, record n { state = (m n.state).1 })

  -- `HandleAuthRequest`, for parameters that parse
  unfoldable pub handle_auth_request :
      ℕ
      → String
      → String
      → String
      → String
      → List Allowance
      → String
      → ℕ
      → Effect (Server Decimal) String
  unfolding on_auth generate_challenge
  handle_auth_request now token address session_key application allowances scope expires_at =
      on_auth
        (generate_challenge now token address session_key application allowances scope expires_at)

  -- `AuthMiddleware`, before the rest of the chain: the policy in the connection's storage, the user of
  -- the connection, the time of the request
  unfoldable pub auth_middleware :
      {A : Type 0}
      → ℕ
      → ℕ
      → Option Policy
      → String
      → ℕ
      → Effect (Server Decimal) A
      → Effect (Server Decimal) A
  unfolding validate_timestamp on_auth
  auth_middleware now expiry none user_id ts next = fail Error.authentication_required
  auth_middleware now expiry (some policy) user_id ts next = do
    guard (not (user_id == "")) Error.authentication_required
    valid ← reads λ n. ok (validate_session now policy.wallet n.auth)
    guard valid Error.session_expired
    on_auth λ am. (ok tt, (update_session now policy.wallet am).1)
    reads λ n. validate_timestamp now expiry ts
    next

-- An expiry in seconds lies before the time `now` if it is less than this: `now` in seconds, rounded up.
unfoldable pub seconds_after : ℕ → ℕ
seconds_after now = (now + (second - 1)) / second

module _ {Decimal : Type 0} ⦃dec : DecimalOps Decimal⦄ where
  -- the session key of an accepted challenge is stored, if it is not yet
  unfoldable pub store_session_key : ℕ → Challenge → Effect (Server Decimal) (Unit {0})
  unfolding on_state
  store_session_key now c = do
    exists ← reads λ n. check_session_key_exists (seconds_after now) c.address c.session_key n.state
    if exists
        then pure tt
        else on_state (
            add_session_key (seconds_after now) c.address c.session_key c.application c.scope
              c.allowances c.session_key_expires_at)

  -- `handleAuthSigVerify`
  unfoldable pub handle_auth_sig_verify :
      Login → ℕ → String → String → Effect (Server Decimal) (Policy × String)
  unfolding on_auth on_state validate_allowances jwt_claims store_session_key
  handle_auth_sig_verify login now sig token = do
    c ← with_error Error.invalid_challenge (reads λ n. get_challenge token n.auth)
    recovered ← reads λ n. or_fail (login.recover c sig) Error.invalid_signature
    with_error Error.invalid_challenge_or_signature
        (on_auth (validate_challenge now token recovered))
    tag ←
        with_error Error.tag_not_stored
          (on_state (generate_or_retrieve_user_tag login.store_aborts login.drawn_tags c.address))
    claims ← reads λ n. ok (jwt_claims now c n.auth)
    jwt ← reads λ n. or_fail (login.sign_jwt claims) Error.jwt_not_signed
    reads λ n. validate_allowances dec login.assets c.allowances
    store_session_key now c
    pure (claims.policy, jwt)

  -- `handleAuthJWTVerify`
  unfoldable pub handle_auth_jwt_verify : Login → ℕ → String → Effect (Server Decimal) Policy
  unfolding on_auth verify_jwt
  handle_auth_jwt_verify login now jwt = do
    claims ← with_error Error.invalid_jwt (on_auth (verify_jwt login now jwt))
    pure claims.policy

  -- `HandleAuthVerify`: the policy that the connection's storage gets and the user of the connection
  unfoldable pub handle_auth_verify :
      Login → ℕ → List String → String → String → Effect (Server Decimal) (Policy × String)
  unfolding handle_auth_sig_verify handle_auth_jwt_verify
  handle_auth_verify login now sigs challenge jwt =
      if not (jwt == "")
      then (do policy ← handle_auth_jwt_verify login now jwt; pure (policy, policy.wallet))
      else elim sigs [
        | [] ↦ fail Error.invalid_authentication_method
        | sig ∷ _ ↦ do
          result ← handle_auth_sig_verify login now sig challenge
          pure (result.0, result.0.wallet)
      ]
