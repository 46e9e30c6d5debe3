-- ===== src/Auth/Once.antt =====
-- A challenge logs in once.
use mathlib.Core.Path.{subst}
use wthelly.Base.{
  ℕ, ◌+◌, ◌*◌, ◌≡◌, ◌≢◌, refl, sym, inl, inr, String, Bool, true, false, Bool-cases, Option-cases,
  not, ltb, leb, ◌==◌, eq_iff, some, List, [], ◌∷◌, All, length, find, select,
}
use wthelly.Effect.{ok}
use wthelly.Auth.{
  second, Challenge, AuthManager, find_challenge, delete_challenge, put_challenge, normalize,
  validate_found, validate_challenge, AuthCall, generates, validates, registers, updates, cleans,
  after_call, after_calls,
}

-- The challenge of a token, if it is still there, is used up.
abbrev IsUsed : String → Challenge → Type 0
IsUsed token c = (c.token == token) ≡ true → c.completed ≡ true

abbrev pub IsSpent : String → List Challenge → Type 0
IsSpent token = All (IsUsed token)

select-IsSpent :
    (token : String) (q : Challenge → Bool) (cs : List Challenge)
    → IsSpent token cs
    → IsSpent token (select q cs)
unfolding select
select-IsSpent token q [] h = tt
select-IsSpent token q (c ∷ cs) (p, h) = elim (Bool-cases (q c)) [
  | inl keep ↦ rw keep (p, select-IsSpent token q cs h)
  | inr drop ↦ rw drop (select-IsSpent token q cs h)
]

-- What is left when a token is deleted does not have it.
delete-IsSpent : (token : String) (cs : List Challenge) → IsSpent token (delete_challenge token cs)
unfolding delete_challenge select
delete-IsSpent token [] = tt
delete-IsSpent token (c ∷ cs) = elim (Bool-cases (c.token == token)) [
  | inl hit ↦ rw hit (delete-IsSpent token cs)
  | inr miss ↦ rw miss ((λ h. cc (miss, h)), delete-IsSpent token cs)
]

pub find-token :
    (token : String) (cs : List Challenge) {c : Challenge}
    → find_challenge token cs ≡ some c
    → (c.token == token) ≡ true
unfolding find
find-token token [] h = cc
find-token token (b ∷ cs) {c} h = elim (Bool-cases (b.token == token)) [
  | inl hit ↦ let first : b ≡ c = cc (rw hit at h) in rw (← first) hit
  | inr miss ↦ find-token token cs (rw miss at h)
]

find-IsSpent :
    (token : String) (cs : List Challenge) {c : Challenge}
    → IsSpent token cs
    → find_challenge token cs ≡ some c
    → c.completed ≡ true
unfolding find
find-IsSpent token [] s h = cc
find-IsSpent token (b ∷ cs) {c} (p, s) h = elim (Bool-cases (b.token == token)) [
  | inl hit ↦ let first : b ≡ c = cc (rw hit at h) in rw (← first) (p hit)
  | inr miss ↦ find-IsSpent token cs s (rw miss at h)
]

put-IsSpent :
    (token : String) (c : Challenge) (cs : List Challenge)
    → IsUsed token c
    → IsSpent token cs
    → IsSpent token (put_challenge c cs)
unfolding put_challenge delete_challenge
put-IsSpent token c cs p s = (p, select-IsSpent token (λ x. not (x.token == c.token)) cs s)

-- Not a call that makes a challenge with the token.
abbrev pub IsOther : String → ℕ × AuthCall → Type 0
IsOther token (now, generates t address key application allowances scope expires_at) =
    (t == token) ≡ false
IsOther token (now, validates t signer) = Unit
IsOther token (now, registers address) = Unit
IsOther token (now, updates address) = Unit
IsOther token (now, cleans) = Unit

validate_found-IsSpent :
    (token : String) (now : ℕ) (t signer : String) (c : Challenge) (am : AuthManager)
    → IsSpent token am.challenges
    → IsSpent token (validate_found now t signer c am).1.challenges
unfolding validate_found
validate_found-IsSpent token now t signer c am s = elim (Bool-cases (c.address == signer)) [
  | inr other ↦ rw other s
  | inl mine ↦ elim (Bool-cases (ltb c.challenge_expires_at now)) [
    | inl late ↦ rw (mine, late) (select-IsSpent token (λ x. not (x.token == t)) am.challenges s)
    | inr early ↦ elim (Bool-cases c.completed) [
      | inl used ↦
          rw (mine, early, used) (select-IsSpent token (λ x. not (x.token == t)) am.challenges s)
      | inr fresh ↦
          rw (mine, early, fresh)
            (put-IsSpent token
              (record c { completed = true; challenge_expires_at = now + 30 * second })
              am.challenges (λ h. refl) s)
    ]
  ]
]

after_call-IsSpent :
    (token : String) (c : ℕ × AuthCall) (am : AuthManager)
    → IsOther token c
    → IsSpent token am.challenges
    → IsSpent token (after_call c.0 c.1 am).challenges
unfolding after_call
after_call-IsSpent token (now, generates t address key application allowances scope expires_at) am h
      s =
    elim (Bool-cases (leb am.max_challenges (length am.challenges))) [
      | inl full ↦ rw (full, after_call) s
      | inr space ↦
          rw (space, after_call)
            (put-IsSpent token
              (record {
                token = t;
                address = normalize address;
                session_key = key;
                application = application;
                allowances = allowances;
                scope = scope;
                session_key_expires_at = expires_at;
                challenge_expires_at = now + am.challenge_ttl;
                completed = false;
              })
              am.challenges (λ e. cc (h, e)) s)
    ]
after_call-IsSpent token (now, validates t signer) am h s =
    elim (Option-cases (find_challenge t am.challenges)) [
      | inl absent ↦ rw (absent, after_call) s
      | inr (c, there) ↦
          rw (there, after_call) (validate_found-IsSpent token now t (normalize signer) c am s)
    ]
after_call-IsSpent token (now, registers address) am h s = s
after_call-IsSpent token (now, updates address) am h s =
    elim (Option-cases (find (λ e. e.0 == address) am.auth_sessions)) [
      | inl absent ↦ rw (absent, after_call) s
      | inr (e, there) ↦ rw (there, after_call) s
    ]
after_call-IsSpent token (now, cleans) am h s =
    select-IsSpent token (λ c. not (ltb c.challenge_expires_at now)) am.challenges s

after_calls-IsSpent :
    (token : String) (calls : List (ℕ × AuthCall)) (am : AuthManager)
    → All (IsOther token) calls
    → IsSpent token am.challenges
    → IsSpent token (after_calls calls am).challenges
unfolding after_calls
after_calls-IsSpent token [] am h s = s
after_calls-IsSpent token (c ∷ calls) am (o, h) s =
    after_calls-IsSpent token calls (after_call c.0 c.1 am) h (after_call-IsSpent token c am o s)

-- A challenge that was accepted is spent.
validate_found-spends :
    (now : ℕ) (token signer : String) (c : Challenge) (am : AuthManager)
    → (c.token == token) ≡ true
    → (validate_found now token signer c am).0 ≡ ok tt
    → IsSpent token (validate_found now token signer c am).1.challenges
unfolding validate_found
validate_found-spends now token signer c am same done = elim (Bool-cases (c.address == signer)) [
  | inr other ↦ cc (rw (other, validate_found) at done)
  | inl mine ↦ elim (Bool-cases (ltb c.challenge_expires_at now)) [
    | inl late ↦ cc (rw (mine, late, validate_found) at done)
    | inr early ↦ elim (Bool-cases c.completed) [
      | inl used ↦ cc (rw (mine, early, used, validate_found) at done)
      | inr fresh ↦
          rw (mine, early, fresh)
            (
              (λ h. refl),
              subst (λ k. IsSpent token (delete_challenge k am.challenges))
                  (sym ((eq_iff c.token token).0 same)) (delete-IsSpent token am.challenges),
            )
    ]
  ]
]

validate_challenge-spends :
    (now : ℕ) (token signer : String) (am : AuthManager)
    → (validate_challenge now token signer am).0 ≡ ok tt
    → IsSpent token (validate_challenge now token signer am).1.challenges
unfolding validate_challenge
validate_challenge-spends now token signer am done =
    elim (Option-cases (find_challenge token am.challenges)) [
      | inl absent ↦ cc (rw (absent, validate_challenge) at done)
      | inr (c, there) ↦
          rw (there, validate_challenge)
            (validate_found-spends now token (normalize signer) c am
              (find-token token am.challenges there) (rw (there, validate_challenge) at done))
    ]

-- A spent challenge is refused.
spent-refused :
    (now : ℕ) (token signer : String) (am : AuthManager)
    → IsSpent token am.challenges
    → (validate_challenge now token signer am).0 ≢ ok tt
unfolding validate_challenge validate_found
spent-refused now token signer am s done =
    elim (Option-cases (find_challenge token am.challenges)) [
      | inl absent ↦ cc (rw (absent, validate_challenge) at done)
      | inr (c, there) ↦
          refused c (find-IsSpent token am.challenges s there)
            (rw (there, validate_challenge) at done)
    ]
  where
    refused :
        (c : Challenge)
        → c.completed ≡ true
        → (validate_found now token (normalize signer) c am).0 ≡ ok tt
        → ⊥
    refused c used h = elim (Bool-cases (c.address == normalize signer)) [
      | inr other ↦ cc (rw (other, validate_found) at h)
      | inl mine ↦ elim (Bool-cases (ltb c.challenge_expires_at now)) [
        | inl late ↦ cc (rw (mine, late, validate_found) at h)
        | inr early ↦ cc (rw (mine, early, used, validate_found) at h)
      ]
    ]

-- After a challenge was accepted, no validation of its token succeeds, whoever signs and whatever calls
-- come between, logins, cleanups and rejected validations among them, as long as none of them makes a new
-- challenge with the same token.
pub validate_challenge-once :
    (now later : ℕ) (token signer other : String) (calls : List (ℕ × AuthCall)) (am : AuthManager)
    → (validate_challenge now token signer am).0 ≡ ok tt
    → All (IsOther token) calls
    → (validate_challenge later token other
        (after_calls calls (validate_challenge now token signer am).1)).0
      ≢ ok tt
validate_challenge-once now later token signer other calls am done others =
    spent-refused later token other (after_calls calls (validate_challenge now token signer am).1) (
      after_calls-IsSpent token calls (validate_challenge now token signer am).1 others
        (validate_challenge-spends now token signer am done))
