-- ===== src/Auth.antt =====
-- auth.go: the challenges that a wallet signs to log in, and the sessions of the wallets that did.
-- A Go map is a list of entries with distinct keys. Times are in nanoseconds, and a call reads the clock
-- once; tokens are the texts of their UUIDs. The ticker of `cleanupExpiredChallenges` is the caller.
pub mod Once
pub mod Sessions
pub mod Bounded
use Prim.Native.Char.{code}
use wthelly.Base.{
  ℕ, ◌+◌, ◌*◌, String, Bool, true, false, not, ◌&&◌, ltb, leb, eq_ℕ, ◌==◌, Option, none, some, List,
  [], ◌∷◌, length, select, find, if◌then◌else◌,
}
use wthelly.Error.{Error}
use wthelly.Effect.{Effect, Result, ok, err}
use wthelly.Store.{Allowance}

pub record Challenge : Type 0 where
  pub token : String
  pub address : String
  pub session_key : String
  pub application : String
  pub allowances : List Allowance
  pub scope : String
  pub session_key_expires_at : ℕ
  pub challenge_expires_at : ℕ
  pub completed : Bool

pub record AuthManager : Type 0 where
  pub challenges : List Challenge
  pub challenge_ttl : ℕ
  pub max_challenges : ℕ
  -- an address and the time of its last activity
  pub auth_sessions : List (String × ℕ)
  pub session_ttl : ℕ

abbrev pub second : ℕ
second = 1000000000

-- `NewAuthManager`
unfoldable pub new_auth_manager : AuthManager
new_auth_manager = record {
  challenges = [];
  challenge_ttl = 300 * second;
  max_challenges = 1000;
  auth_sessions = [];
  session_ttl = 86400 * second;
}

-- `strings.HasPrefix(address, "0x")`
unfoldable pub has_prefix_0x : String → Bool
has_prefix_0x (String.◌∷◌ c (String.◌∷◌ d s)) = eq_ℕ (code c) b'0' && eq_ℕ (code d) b'x'
has_prefix_0x (String.◌∷◌ c String.[]) = false
has_prefix_0x String.[] = false

-- "Normalize address"
unfoldable pub normalize : String → String
unfolding has_prefix_0x
normalize address =
    if has_prefix_0x address then address else String.◌∷◌ "0" (String.◌∷◌ "x" address)

abbrev pub find_challenge : String → List Challenge → Option Challenge
find_challenge token = find (λ c. c.token == token)

-- `delete(am.challenges, token)`
unfoldable pub delete_challenge : String → List Challenge → List Challenge
delete_challenge token = select (λ c. not (c.token == token))

-- `am.challenges[challenge.Token] = challenge`
unfoldable pub put_challenge : Challenge → List Challenge → List Challenge
unfolding delete_challenge
put_challenge c challenges = c ∷ delete_challenge c.token challenges

-- `GenerateChallenge`, with the token that `uuid.New` gives
unfoldable pub generate_challenge :
    ℕ → String → String → String → String → List Allowance → String → ℕ → Effect AuthManager String
unfolding put_challenge normalize
generate_challenge now token address session_key application allowances scope expires_at am =
    if leb am.max_challenges (length am.challenges) then (err Error.too_many_challenges, am) else (
      ok token,
      record am {
        challenges =
            put_challenge
              (record {
                token = token;
                address = normalize address;
                session_key = session_key;
                application = application;
                allowances = allowances;
                scope = scope;
                session_key_expires_at = expires_at;
                challenge_expires_at = now + am.challenge_ttl;
                completed = false;
              })
              am.challenges;
      },
    )

-- `GetChallenge`
unfoldable pub get_challenge : String → AuthManager → Result Challenge
get_challenge token am = elim (find_challenge token am.challenges) [
  | none ↦ err Error.challenge_not_found
  | some c ↦ ok c
]

abbrev pub find_session : String → List (String × ℕ) → Option (String × ℕ)
find_session address = find (λ e. e.0 == address)

-- `am.authSessions[address] = time.Now()`
unfoldable pub put_session : ℕ → String → List (String × ℕ) → List (String × ℕ)
put_session now address sessions = (address, now) ∷ select (λ e. not (e.0 == address)) sessions

-- `registerAuthSession`
unfoldable pub register_auth_session : ℕ → String → AuthManager → AuthManager
unfolding put_session
register_auth_session now address am = record am {
  auth_sessions = put_session now address am.auth_sessions;
}

-- `delete(am.challenges, challengeToken)`
unfoldable pub drop_challenge : String → AuthManager → AuthManager
unfolding delete_challenge
drop_challenge token am = record am { challenges = delete_challenge token am.challenges }

-- the challenge is marked, and kept for 30 seconds
unfoldable pub complete_challenge : ℕ → Challenge → AuthManager → AuthManager
unfolding put_challenge
complete_challenge now c am = record am {
  challenges =
      put_challenge (record c { completed = true; challenge_expires_at = now + 30 * second })
        am.challenges;
}

-- the rest of `ValidateChallenge`, for the challenge that was found
unfoldable pub validate_found : ℕ → String → String → Challenge → Effect AuthManager (Unit {0})
unfolding drop_challenge complete_challenge register_auth_session
validate_found now token signer c am =
    if not (c.address == signer)
    then (err Error.challenge_address_mismatch, am)
    else if ltb c.challenge_expires_at now
    then (err Error.challenge_expired, drop_challenge token am)
    else if c.completed
    then (err Error.challenge_already_used, drop_challenge token am)
    else (ok tt, register_auth_session now signer (complete_challenge now c am))

-- `ValidateChallenge`
unfoldable pub validate_challenge : ℕ → String → String → Effect AuthManager (Unit {0})
unfolding validate_found normalize
validate_challenge now token recovered_signer am = elim (find_challenge token am.challenges) [
  | none ↦ (err Error.challenge_not_found, am)
  | some c ↦ validate_found now token (normalize recovered_signer) c am
]

-- `ValidateSession`
unfoldable pub validate_session : ℕ → String → AuthManager → Bool
validate_session now address am = elim (find_session address am.auth_sessions) [
  | none ↦ false
  | some e ↦ not (ltb (e.1 + am.session_ttl) now)
]

-- `UpdateSession`
unfoldable pub update_session : ℕ → String → AuthManager → Bool × AuthManager
unfolding put_session
update_session now address am = elim (find_session address am.auth_sessions) [
  | none ↦ (false, am)
  | some e ↦ (true, record am { auth_sessions = put_session now address am.auth_sessions })
]

-- one round of `cleanupExpiredChallenges`
unfoldable pub cleanup_expired_challenges : ℕ → AuthManager → AuthManager
cleanup_expired_challenges now am = record am {
  challenges = select (λ c. not (ltb c.challenge_expires_at now)) am.challenges;
  auth_sessions = select (λ e. not (ltb (e.1 + am.session_ttl) now)) am.auth_sessions;
}

-- A call of the manager. A login with a token that this server has signed registers a session too.
pub data AuthCall : Type 0 where
  generates : String → String → String → String → List Allowance → String → ℕ → AuthCall
  validates : String → String → AuthCall
  registers : String → AuthCall
  updates : String → AuthCall
  cleans : AuthCall

-- what a call leaves, at its time
unfoldable pub after_call : ℕ → AuthCall → AuthManager → AuthManager
unfolding generate_challenge validate_challenge register_auth_session update_session
    cleanup_expired_challenges
after_call now (generates token address key application allowances scope expires_at) am =
    (generate_challenge now token address key application allowances scope expires_at am).1
after_call now (validates token signer) am = (validate_challenge now token signer am).1
after_call now (registers address) am = register_auth_session now address am
after_call now (updates address) am = (update_session now address am).1
after_call now cleans am = cleanup_expired_challenges now am

-- a sequence of calls, each at its time
unfoldable pub after_calls : List (ℕ × AuthCall) → AuthManager → AuthManager
unfolding after_call
after_calls [] am = am
after_calls (c ∷ calls) am = after_calls calls (after_call c.0 c.1 am)
