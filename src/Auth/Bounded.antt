-- ===== src/Auth/Bounded.antt =====
-- The number of challenges that are kept.
use wthelly.Base.{
  ℕ, suc, ◌+◌, ◌≡◌, ◌≤◌, inl, inr, arith, String, Bool, false, Bool-cases, Option-cases, not, ltb,
  leb, ◌==◌, eq_iff, some, List, [], ◌∷◌, length, find, select,
}
use wthelly.Auth.{
  Challenge, AuthManager, new_auth_manager, find_challenge, delete_challenge, normalize,
  validate_found, AuthCall, generates, validates, registers, updates, cleans, after_call,
  after_calls,
}
use wthelly.Auth.Once.{find-token}

-- The manager keeps no more challenges than its limit.
abbrev pub IsBounded : AuthManager → Type 0
IsBounded am = length am.challenges ≤ am.max_challenges

length-select : (q : Challenge → Bool) (cs : List Challenge) → length (select q cs) ≤ length cs
unfolding select
length-select q [] = omega arith
length-select q (c ∷ cs) = ground (arith, length-select q cs)

-- A challenge that is found goes with its token.
length-delete-lt :
    (token : String) (cs : List Challenge) {c : Challenge}
    → find_challenge token cs ≡ some c
    → length (delete_challenge token cs) + 1 ≤ length cs
unfolding delete_challenge find select
length-delete-lt token [] h = cc
length-delete-lt token (b ∷ cs) {c} h = elim (Bool-cases (b.token == token)) [
  | inl hit ↦ rw hit (omega (arith, length-select (λ x. not (x.token == token)) cs))
  | inr miss ↦ rw miss (omega (arith, length-delete-lt token cs (rw miss at h)))
]

validate_found-IsBounded :
    (now : ℕ) (token signer : String) (c : Challenge) (am : AuthManager)
    → find_challenge token am.challenges ≡ some c
    → IsBounded am
    → IsBounded (validate_found now token signer c am).1
unfolding validate_found delete_challenge
validate_found-IsBounded now token signer c am there b = elim (Bool-cases (c.address == signer)) [
  | inr other ↦ rw other b
  | inl mine ↦ elim (Bool-cases (ltb c.challenge_expires_at now)) [
    | inl late ↦
        rw (mine, late) (omega (arith, length-select (λ x. not (x.token == token)) am.challenges))
    | inr early ↦ elim (Bool-cases c.completed) [
      | inl used ↦
          rw (mine, early, used)
            (omega (arith, length-select (λ x. not (x.token == token)) am.challenges))
      | inr fresh ↦
          rw (mine, early, fresh, (eq_iff c.token token).0 (find-token token am.challenges there))
            (omega (arith, length-delete-lt token am.challenges there))
    ]
  ]
]

after_call-IsBounded :
    (now : ℕ) (c : AuthCall) (am : AuthManager) → IsBounded am → IsBounded (after_call now c am)
unfolding after_call delete_challenge
after_call-IsBounded now (generates t address key application allowances scope expires_at) am b =
    elim (Bool-cases (leb am.max_challenges (length am.challenges))) [
      | inl full ↦ rw (full, after_call) b
      | inr space ↦
          rw (space, after_call)
            (one_more (length am.challenges) am.max_challenges
              (length (select (λ x. not (x.token == t)) am.challenges)) space
              (length-select (λ x. not (x.token == t)) am.challenges))
    ]
  where
    one_more : (m n k : ℕ) → leb n m ≡ false → k ≤ m → suc k ≤ n
    one_more m n k h l = ground arith
after_call-IsBounded now (validates t signer) am b =
    elim (Option-cases (find_challenge t am.challenges)) [
      | inl absent ↦ rw (absent, after_call) b
      | inr (c, there) ↦
          rw (there, after_call) (validate_found-IsBounded now t (normalize signer) c am there b)
    ]
after_call-IsBounded now (registers address) am b = b
after_call-IsBounded now (updates address) am b =
    elim (Option-cases (find (λ e. e.0 == address) am.auth_sessions)) [
      | inl absent ↦ rw (absent, after_call) b
      | inr (e, there) ↦ rw (there, after_call) b
    ]
after_call-IsBounded now cleans am b =
    omega (arith, length-select (λ c. not (ltb c.challenge_expires_at now)) am.challenges)

after_calls-le :
    (calls : List (ℕ × AuthCall)) (am : AuthManager)
    → IsBounded am
    → IsBounded (after_calls calls am)
unfolding after_calls
after_calls-le [] am b = b
after_calls-le (c ∷ calls) am b =
    after_calls-le calls (after_call c.0 c.1 am) (after_call-IsBounded c.0 c.1 am b)

-- Whatever calls a new manager gets, at whatever times, it never keeps more challenges than its limit.
pub after_calls-IsBounded :
    (calls : List (ℕ × AuthCall)) → IsBounded (after_calls calls new_auth_manager)
unfolding new_auth_manager
after_calls-IsBounded calls = after_calls-le calls new_auth_manager (omega arith)
