-- ===== src/Auth/Sessions.antt =====
-- The sessions that a challenge opens, and the number of challenges.
use mathlib.Core.Path.{subst}
use wthelly.Base.{
  ℕ, ◌+◌, ◌≡◌, ◌≤◌, refl, sym, inl, inr, arith, String, false, Bool-cases, Option-cases, not, ltb,
  ◌==◌, eq_iff, some, List, [], ◌∷◌, find, select, if◌then◌else◌,
}
use wthelly.Effect.{ok}
use wthelly.Auth.{
  Challenge, AuthManager, find_challenge, normalize, register_auth_session, put_session,
  complete_challenge, validate_found, validate_challenge, validate_session,
}

find-others :
    (address other : String) (es : List (String × ℕ))
    → (address == other) ≡ false
    → find (λ e. e.0 == other) (select (λ e. not (e.0 == address)) es) ≡ find (λ e. e.0 == other) es
unfolding find select
find-others address other [] h = refl
find-others address other (e ∷ es) h = ground (
  arith,
  find-others address other es,
  eq_iff e.0 address,
  eq_iff e.0 other,
  eq_iff address other,
)

find-put_session :
    (now : ℕ) (address other : String) (es : List (String × ℕ))
    → find (λ e. e.0 == other) (put_session now address es)
      ≡ (if address == other then some (address, now) else find (λ e. e.0 == other) es)
unfolding put_session find
find-put_session now address other es = elim (Bool-cases (address == other)) [
  | inl hit ↦ rw hit refl
  | inr miss ↦ rw miss (find-others address other es miss)
]

-- The session of an address that was active now lasts for the time of a session; the others stay.
validate_session-register :
    (now later : ℕ) (address other : String) (am : AuthManager)
    → validate_session later other (register_auth_session now address am) ≡ (
        if address == other
        then not (ltb (now + am.session_ttl) later)
        else validate_session later other am)
unfolding validate_session register_auth_session
validate_session-register now later address other am = elim (Bool-cases (address == other)) [
  | inl hit ↦
      rw
        (
          hit,
          validate_session,
          register_auth_session,
          find-put_session now address other am.auth_sessions,
          hit,
        )
        refl
  | inr miss ↦
      rw
        (
          miss,
          validate_session,
          register_auth_session,
          find-put_session now address other am.auth_sessions,
          miss,
        )
        refl
]

-- If a challenge is accepted, then it was there, it was made for the address that signed, it had not
-- expired and had not been used; its address has a session until the time of a session has passed, and
-- the sessions of all other addresses are what they were.
pub validate_session-validate_challenge :
    (now : ℕ) (token signer : String) (am : AuthManager)
    → (validate_challenge now token signer am).0 ≡ ok tt
    → (c : Challenge) × (find_challenge token am.challenges ≡ some c)
      × (c.address ≡ normalize signer)
      × (now ≤ c.challenge_expires_at)
      × (c.completed ≡ false)
      × ((later : ℕ) (other : String)
          → validate_session later other (validate_challenge now token signer am).1 ≡ (
              if c.address == other
              then not (ltb (now + am.session_ttl) later)
              else validate_session later other am))
unfolding validate_challenge validate_found complete_challenge validate_session
validate_session-validate_challenge now token signer am done =
    elim (Option-cases (find_challenge token am.challenges)) [
      | inl absent ↦ cc (rw (absent, validate_challenge) at done)
      | inr (c, there) ↦ elim (Bool-cases (c.address == normalize signer)) [
        | inr other ↦ cc (rw (there, validate_challenge, other, validate_found) at done)
        | inl mine ↦ elim (Bool-cases (ltb c.challenge_expires_at now)) [
          | inl late ↦ cc (rw (there, validate_challenge, mine, late, validate_found) at done)
          | inr early ↦ elim (Bool-cases c.completed) [
            | inl used ↦
                cc (rw (there, validate_challenge, mine, early, used, validate_found) at done)
            | inr fresh ↦ (
              c,
              there,
              (eq_iff c.address (normalize signer)).0 mine,
              in_time c.challenge_expires_at early,
              fresh,
              (λ later other.
                  rw (there, validate_challenge, mine, early, fresh, validate_found)
                    (subst
                      (λ a.
                        validate_session later other (
                          register_auth_session now (normalize signer)
                            (complete_challenge now c am))
                        ≡ (if a == other
                            then not (ltb (now + am.session_ttl) later)
                            else validate_session later other am))
                      (sym ((eq_iff c.address (normalize signer)).0 mine))
                      (validate_session-register now later (normalize signer) other
                        (complete_challenge now c am)))),
            )
          ]
        ]
      ]
    ]
  where
    in_time : (n : ℕ) → ltb n now ≡ false → now ≤ n
    in_time n h = ground arith
