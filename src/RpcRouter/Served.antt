-- ===== src/RpcRouter/Served.antt =====
-- A private method is served to a connection that is logged in.
use mathlib.Core.Path.{subst}
use wthelly.Base.{
  ◌≡◌, refl, ap, ◌∙◌, inl, inr, String, Bool, true, false, Bool-cases, Option-cases, ◌&&◌, ◌==◌,
  eq_iff, none, some, List, [], ◌∷◌, any, find, select,
}
use wthelly.Effect.{Effect, ok, ◌>>=◌}
use wthelly.Auth.{validate_session, update_session}
use wthelly.RouterAuth.{Policy, Server, validate_timestamp, auth_middleware}
use wthelly.RpcNode.{
  Handler, logs, measures, tests_mode, authenticates, keeps_history, updates_balances, handles,
  RpcNode, method_handlers,
}
use wthelly.RpcRouter.{router_node, Request, run_handlers, process_message}

abbrev pub private_methods : List String
private_methods =
    "get_user_tag" ∷ "get_ledger_balances" ∷ "get_rpc_history" ∷ "get_session_keys"
    ∷ "revoke_session_key" ∷ "create_channel" ∷ "resize_channel" ∷ "close_channel" ∷ "transfer"
    ∷ "create_app_session" ∷ "submit_app_state" ∷ "close_app_session" ∷ []

-- whether a chain, after the guard, leads to the handler of a method, and whether a whole chain does
leads_to : String → List Handler → Bool
leads_to m [] = false
leads_to m (logs ∷ hs) = leads_to m hs
leads_to m (measures ∷ hs) = leads_to m hs
leads_to m (keeps_history ∷ hs) = leads_to m hs
leads_to m (updates_balances ∷ hs) = leads_to m hs
leads_to m (authenticates ∷ hs) = false
leads_to m (tests_mode ∷ hs) = false
leads_to m (handles k ∷ hs) = k == m

serves : String → List Handler → Bool
unfolding leads_to
serves m [] = false
serves m (logs ∷ hs) = serves m hs
serves m (measures ∷ hs) = serves m hs
serves m (authenticates ∷ hs) = leads_to m hs
serves m (keeps_history ∷ hs) = false
serves m (updates_balances ∷ hs) = false
serves m (tests_mode ∷ hs) = false
serves m (handles k ∷ hs) = false

is_served : RpcNode → String → Bool
unfolding serves
is_served n m = elim (method_handlers m n) [ none ↦ false | some hs ↦ serves m hs ]

abbrev all_served : RpcNode → List String → Bool
all_served n [] = true
all_served n (m ∷ ms) = is_served n m && all_served n ms

all_served-served :
    (n : RpcNode) (ms : List String) (method : String)
    → all_served n ms ≡ true
    → any (λ m. m == method) ms ≡ true
    → is_served n method ≡ true
unfolding any
all_served-served n [] method h i = cc
all_served-served n (m ∷ ms) method h i = elim (Bool-cases (is_served n m)) [
  | inr bad ↦ cc (rw bad at h)
  | inl good ↦ elim (Bool-cases (m == method)) [
    | inl hit ↦ subst (λ k. is_served n k ≡ true) ((eq_iff m method).0 hit) good
    | inr miss ↦ all_served-served n ms method (rw good at h) (rw miss at i)
  ]
]

router_node-served : all_served router_node private_methods ≡ true
unfolding router_node method_handlers is_served any find select ◌>>=◌
router_node-served = refl

module _ {Decimal : Type 0} where
  -- The connection of the request is logged in by a policy, and the request is recent.
  abbrev pub IsLoggedIn : Request Decimal → Policy → Server Decimal → Type 0
  IsLoggedIn r p n =
      (r.policy ≡ some p)
      × ((r.user_id == "") ≡ false)
      × (validate_session r.now p.wallet n.auth ≡ true)
      × (validate_timestamp r.now r.expiry r.timestamp ≡ ok tt)

  -- the server after the session's activity was noted
  abbrev pub seen : Request Decimal → Policy → Server Decimal → Server Decimal
  seen r p n = record n { auth = (update_session r.now p.wallet n.auth).1 }

  leads_to-handle :
      (r : Request Decimal) (n : Server Decimal) (m : String) (hs : List Handler)
      → leads_to m hs ≡ true
      → (run_handlers r hs n).0 ≡ (r.handle m n).0
  unfolding run_handlers leads_to
  leads_to-handle r n m [] h = cc
  leads_to-handle r n m (logs ∷ hs) h = leads_to-handle r n m hs h
  leads_to-handle r n m (measures ∷ hs) h = leads_to-handle r n m hs h
  leads_to-handle r n m (keeps_history ∷ hs) h = leads_to-handle r n m hs h
  leads_to-handle r n m (updates_balances ∷ hs) h = leads_to-handle r n m hs h
  leads_to-handle r n m (authenticates ∷ hs) h = cc
  leads_to-handle r n m (tests_mode ∷ hs) h = cc
  leads_to-handle r n m (handles k ∷ hs) h = ap (λ x. (r.handle x n).0) ((eq_iff k m).0 h)

  auth_middleware-next :
      (r : Request Decimal) (p : Policy) (n : Server Decimal)
      (next : Effect (Server Decimal) (Unit {0}))
      → IsLoggedIn r p n
      → auth_middleware r.now r.expiry r.policy r.user_id r.timestamp next n ≡ next (seen r p n)
  unfolding auth_middleware ◌>>=◌
  auth_middleware-next r p n next (has, user, valid, recent) =
      rw (has, auth_middleware, user, valid, recent) refl

  serves-handle :
      (r : Request Decimal) (p : Policy) (n : Server Decimal) (m : String) (hs : List Handler)
      → serves m hs ≡ true
      → IsLoggedIn r p n
      → (run_handlers r hs n).0 ≡ (r.handle m (seen r p n)).0
  unfolding run_handlers serves
  serves-handle r p n m [] h logged = cc
  serves-handle r p n m (logs ∷ hs) h logged = serves-handle r p n m hs h logged
  serves-handle r p n m (measures ∷ hs) h logged = serves-handle r p n m hs h logged
  serves-handle r p n m (authenticates ∷ hs) h logged =
      ap (λ out. out.0) (auth_middleware-next r p n (run_handlers r hs) logged)
      ∙ leads_to-handle r (seen r p n) m hs h
  serves-handle r p n m (keeps_history ∷ hs) h logged = cc
  serves-handle r p n m (updates_balances ∷ hs) h logged = cc
  serves-handle r p n m (tests_mode ∷ hs) h logged = cc
  serves-handle r p n m (handles k ∷ hs) h logged = cc

  -- A request for one of the twelve private methods, on a connection that is logged in and bearing a time
  -- that is recent, gets the answer of the method's handler, which runs after the session's activity was
  -- noted.
  pub process_message-handle :
      (r : Request Decimal) (p : Policy) (method : String) (n : Server Decimal)
      → any (λ m. m == method) private_methods ≡ true
      → IsLoggedIn r p n
      → (process_message r method n).0 ≡ (r.handle method (seen r p n)).0
  unfolding process_message is_served
  process_message-handle r p method n private logged =
      elim (Option-cases (method_handlers method router_node)) [
        | inl absent ↦ cc (
            subst (λ o. elim o as (λ _. Bool) [ none ↦ false | some hs ↦ serves method hs ] ≡ true)
              absent
              (all_served-served router_node private_methods method router_node-served private))
        | inr (hs, there) ↦
            rw (there, process_message)
              (serves-handle r p n method hs
                (subst
                  (λ o. elim o as (λ _. Bool) [ none ↦ false | some l ↦ serves method l ] ≡ true)
                  there
                  (all_served-served router_node private_methods method router_node-served private))
                logged)
      ]
