-- ===== src/RpcRouter/Guarded.antt =====
-- A method that is not open to all is only served to a connection that is logged in.
use mathlib.Core.Path.{subst}
use wthelly.Base.{
  ◌≡◌, ◌⊎◌, refl, sym, inl, inr, String, Bool, true, false, Bool-cases, Option-cases, ◌&&◌, ◌||◌,
  ◌==◌, eq_iff, Option, none, some, List, [], ◌∷◌, All, any, find, select, is_empty, if◌then◌else◌,
}
use wthelly.Error.{Error}
use wthelly.Effect.{Effect, Result, err, fail, ◌>>=◌}
use wthelly.Auth.{validate_session}
use wthelly.RouterAuth.{Policy, Server, auth_middleware}
use wthelly.RpcNode.{
  Handler, logs, measures, tests_mode, authenticates, keeps_history, updates_balances, handles,
  RpcNode, get_or_empty, route_handlers, method_handlers,
}
use wthelly.RpcNode.Lookup.{find-All}
use wthelly.RpcRouter.{router_node, Request, run_handlers, process_message}

-- the methods that need no login
abbrev pub open_methods : List String
open_methods =
    "ping" ∷ "get_config" ∷ "get_assets" ∷ "get_app_definition" ∷ "get_app_sessions"
    ∷ "get_channels" ∷ "get_ledger_entries" ∷ "get_ledger_transactions" ∷ "auth_request"
    ∷ "auth_verify" ∷ "cleanup_session_key_cache" ∷ []

abbrev pub is_open : String → Bool
is_open method = any (λ m. m == method) open_methods

-- whether a chain has the guard, with only logs and metrics before it
is_guarded : List Handler → Bool
is_guarded [] = false
is_guarded (logs ∷ hs) = is_guarded hs
is_guarded (measures ∷ hs) = is_guarded hs
is_guarded (authenticates ∷ hs) = true
is_guarded (tests_mode ∷ hs) = false
is_guarded (keeps_history ∷ hs) = false
is_guarded (updates_balances ∷ hs) = false
is_guarded (handles method ∷ hs) = false

are_guarded : Option (List Handler) → Bool
unfolding is_guarded
are_guarded none = true
are_guarded (some hs) = is_guarded hs

is_safe : RpcNode → String × List String → Bool
unfolding are_guarded
is_safe n e = is_open e.0 || are_guarded (route_handlers e.1 n)

abbrev all_safe : RpcNode → List (String × List String) → Bool
all_safe n [] = true
all_safe n (e ∷ routes) = is_safe n e && all_safe n routes

all_safe-All :
    (n : RpcNode) (routes : List (String × List String))
    → all_safe n routes ≡ true
    → All (λ e. is_safe n e ≡ true) routes
all_safe-All n [] h = tt
all_safe-All n (e ∷ routes) h = elim (Bool-cases (is_safe n e)) [
  | inl safe ↦ (safe, all_safe-All n routes (rw safe at h))
  | inr bad ↦ cc (rw bad at h)
]

-- Each route that the router registers is open or guarded.
router_node-safe : all_safe router_node router_node.routes ≡ true
unfolding router_node route_handlers is_safe any find select ◌>>=◌
router_node-safe = refl

or_left : {a b : Bool} → a ≡ false → a || b ≡ true → b ≡ true
or_left {a} {b} e h = subst (λ x. x || b ≡ true) e h

-- the handlers that a method which is not open leads to
method_handlers-guarded :
    (n : RpcNode) (method : String)
    → All (λ e. is_safe n e ≡ true) n.routes
    → is_open method ≡ false
    → are_guarded (method_handlers method n) ≡ true
unfolding method_handlers get_or_empty are_guarded is_safe
method_handlers-guarded n method safe closed =
    elim (Option-cases (find (λ e. e.0 == method) n.routes)) [
      | inl absent ↦
          let unknown : get_or_empty method n.routes ≡ [] = rw (absent, get_or_empty) refl in
          guarded_if (get_or_empty method n.routes) (inl unknown)
      | inr (e, there) ↦
          let (guarded, same) = find-All (λ x. is_safe n x ≡ true) method n.routes safe there in
          let route : get_or_empty method n.routes ≡ e.1 = rw (there, get_or_empty) refl in
          guarded_if (get_or_empty method n.routes) (
            inr (
              subst (λ l. are_guarded (route_handlers l n) ≡ true) (sym route)
                (or_left (subst (λ m. is_open m ≡ false) (sym ((eq_iff e.0 method).0 same)) closed)
                  guarded)))
    ]
  where
    guarded_if :
        (l : List String)
        → (l ≡ []) ⊎ (are_guarded (route_handlers l n) ≡ true)
        → are_guarded (if is_empty l then none else route_handlers l n) ≡ true
    guarded_if [] h = refl
    guarded_if (x ∷ l) (inl h) = cc h
    guarded_if (x ∷ l) (inr h) = h

module _ {Decimal : Type 0} where
  -- The connection of the request is not logged in: it has no policy or no user, or the session of the
  -- policy's wallet is over.
  abbrev pub IsLoggedOut : Request Decimal → Server Decimal → Type 0
  IsLoggedOut r n =
      (r.policy ≡ none)
      ⊎ ((r.user_id == "") ≡ true)
      ⊎ ((p : Policy) × (r.policy ≡ some p) × (validate_session r.now p.wallet n.auth ≡ false))

  -- The request fails and changes nothing in the database or the manager of logins.
  abbrev pub IsRefused : Server Decimal → Result (Unit {0}) × Server Decimal → Type 0
  IsRefused n out = (out.1 ≡ n) × ((e : Error) × (out.0 ≡ err e))

  auth_middleware-IsRefused :
      (r : Request Decimal) (n : Server Decimal) (next : Effect (Server Decimal) (Unit {0}))
      → IsLoggedOut r n
      → IsRefused n (auth_middleware r.now r.expiry r.policy r.user_id r.timestamp next n)
  unfolding auth_middleware ◌>>=◌
  auth_middleware-IsRefused r n next (inl absent) =
      rw (absent, auth_middleware) (refl, (Error.authentication_required, refl))
  auth_middleware-IsRefused r n next (inr (inl no_user)) = elim (Option-cases r.policy) [
    | inl absent ↦ rw (absent, auth_middleware) (refl, (Error.authentication_required, refl))
    | inr (p, there) ↦
        rw (there, auth_middleware, no_user) (refl, (Error.authentication_required, refl))
  ]
  auth_middleware-IsRefused r n next (inr (inr (p, there, over))) =
      elim (Bool-cases (r.user_id == "")) [
        | inl no_user ↦
            rw (there, auth_middleware, no_user) (refl, (Error.authentication_required, refl))
        | inr user ↦ rw (there, auth_middleware, user, over) (refl, (Error.session_expired, refl))
      ]

  run_handlers-IsRefused :
      (r : Request Decimal) (n : Server Decimal) (hs : List Handler)
      → is_guarded hs ≡ true
      → IsLoggedOut r n
      → IsRefused n (run_handlers r hs n)
  unfolding run_handlers is_guarded
  run_handlers-IsRefused r n [] g out = cc
  run_handlers-IsRefused r n (logs ∷ hs) g out = run_handlers-IsRefused r n hs g out
  run_handlers-IsRefused r n (measures ∷ hs) g out = run_handlers-IsRefused r n hs g out
  run_handlers-IsRefused r n (authenticates ∷ hs) g out =
      auth_middleware-IsRefused r n (run_handlers r hs) out
  run_handlers-IsRefused r n (tests_mode ∷ hs) g out = cc
  run_handlers-IsRefused r n (keeps_history ∷ hs) g out = cc
  run_handlers-IsRefused r n (updates_balances ∷ hs) g out = cc
  run_handlers-IsRefused r n (handles method ∷ hs) g out = cc

  -- A request for a method that is not one of the eleven open ones, on a connection that is not logged in,
  -- fails, and leaves the database and the manager of logins as they are, whatever the handlers of the
  -- methods and the history do.
  pub process_message-IsRefused :
      (r : Request Decimal) (method : String) (n : Server Decimal)
      → is_open method ≡ false
      → IsLoggedOut r n
      → IsRefused n (process_message r method n)
  unfolding process_message fail are_guarded
  process_message-IsRefused r method n closed out =
      elim (Option-cases (method_handlers method router_node)) [
        | inl absent ↦ rw (absent, process_message) (refl, (Error.unknown_method, refl))
        | inr (hs, there) ↦
            rw (there, process_message)
              (run_handlers-IsRefused r n hs
                (subst (λ o. are_guarded o ≡ true) there
                  (method_handlers-guarded router_node method
                    (all_safe-All router_node router_node.routes router_node-safe) closed))
                out)
      ]
