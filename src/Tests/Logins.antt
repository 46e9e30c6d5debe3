-- ===== src/Tests/Logins.antt =====
-- Concrete logins and tags.
use wthelly.Base.{
  select, any, ℕ, ◌+◌, ◌≡◌, ◌≢◌, ◌≤◌, refl, String, true, false, not, ltb, ◌==◌, none, some, List,
  [], ◌∷◌, find, if◌then◌else◌,
}
use wthelly.Base.Int.{ℤ}
use wthelly.Effect.{ok, ◌>>=◌, pure, fail, reads, modify, guard}
use wthelly.Effect.Rules.{Ensures}
use wthelly.UserTags.{generate_or_retrieve_user_tag}
use wthelly.UserTags.Unique.{IsTagged, generate_or_retrieve_user_tag-IsTagged}
use wthelly.Auth.{
  get_challenge, Challenge, AuthManager, new_auth_manager, find_challenge, normalize,
  validate_challenge, validate_session, AuthCall, generates, validates, updates, cleans,
  after_calls,
}
use wthelly.Auth.Once.{validate_challenge-once}
use wthelly.Auth.Sessions.{validate_session-validate_challenge}
use wthelly.Auth.Bounded.{IsBounded, after_calls-IsBounded}
use wthelly.RouterAuth.{
  Policy, Server, Login, jwt_claims, is_supported, validate_allowance, validate_allowances, on_auth,
  on_state, seconds_after, store_session_key, handle_auth_sig_verify,
}
use wthelly.SessionKeys.{
  cache_load, cache_delete, cache_store, delete_all, of_wallet_app, check_session_key_exists,
  replace_session_key, add_session_key,
}
use wthelly.Store.Transaction.{transaction}
use wthelly.Tests.Events.{usdc}
use wthelly.Tests.{whole_decimals, state_with}

abbrev issued : Challenge
issued = record {
  token = "t";
  address = "0xA";
  session_key = "0xK";
  application = "chess";
  allowances = record { asset = "usdc"; amount = "100" } ∷ [];
  scope = "";
  session_key_expires_at = 5000;
  challenge_expires_at = 100;
  completed = false;
}

abbrev asked : AuthManager
asked = record new_auth_manager { challenges = issued ∷ [] }

-- A signs in time.
accepted : (validate_challenge 7 "t" "0xA" asked).0 ≡ ok tt
unfolding validate_challenge new_auth_manager find
accepted = refl

abbrev later_calls : List (ℕ × AuthCall)
later_calls =
    (8, generates "u" "0xB" "0xL" "chess" [] "" 5000)
    ∷ (9, validates "t" "0xA")
    ∷ (10, updates "0xA")
    ∷ (200, cleans)
    ∷ []

validate_challenge-once_example :
    (validate_challenge 300 "t" "0xA"
      (after_calls later_calls (validate_challenge 7 "t" "0xA" asked).1)).0
    ≢ ok tt
validate_challenge-once_example =
    validate_challenge-once 7 300 "t" "0xA" "0xA" later_calls asked accepted
      (refl, (tt, (tt, (tt, tt))))

validate_session-validate_challenge_example :
    (c : Challenge) × (find_challenge "t" asked.challenges ≡ some c)
    × (c.address ≡ normalize "0xA")
    × (7 ≤ c.challenge_expires_at)
    × (c.completed ≡ false)
    × ((later : ℕ) (other : String)
        → validate_session later other (validate_challenge 7 "t" "0xA" asked).1 ≡ (
            if c.address == other
            then not (ltb (7 + asked.session_ttl) later)
            else validate_session later other asked))
validate_session-validate_challenge_example =
    validate_session-validate_challenge 7 "t" "0xA" asked accepted

after_calls-IsBounded_example : IsBounded (after_calls later_calls new_auth_manager)
after_calls-IsBounded_example = after_calls-IsBounded later_calls

generate_or_retrieve_user_tag-IsTagged_example :
    Ensures
      (state_with [])
      (generate_or_retrieve_user_tag true ("XQ12AB" ∷ []) "0xA")
      (IsTagged "0xA" (state_with []))
generate_or_retrieve_user_tag-IsTagged_example =
    generate_or_retrieve_user_tag-IsTagged true ("XQ12AB" ∷ []) "0xA" (state_with []) tt

abbrev libraries : Login
libraries = record {
  recover = λ c sig. some sig;
  sign_jwt = λ claims. some "jwt";
  parse_jwt = λ token. none;
  drawn_tags = "XQ12AB" ∷ [];
  store_aborts = true;
  assets = usdc ∷ [];
}

abbrev server : Server ℤ
server = record { auth = asked; state = state_with [] }

-- This login is accepted.
logged_in : (r : Policy × String) × ((handle_auth_sig_verify libraries 7 "0xA" "t" server).0 ≡ ok r)
unfolding handle_auth_sig_verify jwt_claims validate_allowances validate_allowance is_supported
    on_auth on_state store_session_key seconds_after get_challenge validate_challenge
    generate_or_retrieve_user_tag check_session_key_exists add_session_key replace_session_key ◌>>=◌
    pure fail reads modify guard transaction find select any cache_load cache_delete cache_store
    delete_all of_wallet_app new_auth_manager whole_decimals
logged_in = (_, refl)
