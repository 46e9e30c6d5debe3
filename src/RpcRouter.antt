-- ===== src/RpcRouter.antt =====
-- rpc_router.go: the methods of the clearnode with the middleware of each, and what the middleware does.
-- The handlers of the methods and the table of the history are parameters; the middleware for logs,
-- metrics and balance updates writes nothing that is modelled.
pub mod Guarded
pub mod Served
use wthelly.Base.{
  ℕ, String, Bool, true, false, ◌||◌, ◌==◌, Option, none, some, List, [], ◌∷◌, any, if◌then◌else◌,
}
use wthelly.Error.{Error}
use wthelly.Effect.{Effect, Result, ok, err, pure, fail, ◌>>=◌, ◌>>◌}
use wthelly.RouterAuth.{Policy, Server, auth_middleware}
use wthelly.RpcNode.{
  Handler, logs, measures, tests_mode, authenticates, keeps_history, updates_balances, handles,
  RpcNode, new_rpc_node, add_middleware, group_root, node_handle, node_new_group, HandlerGroup,
  group_new_group, group_handle, group_use, method_handlers,
}

abbrev test_mode_group : HandlerGroup
test_mode_group = node_new_group "group.test_mode"

abbrev priv_group : HandlerGroup
priv_group = node_new_group "group.private"

abbrev history_group : HandlerGroup
history_group = group_new_group priv_group ""

abbrev app_session_group : HandlerGroup
app_session_group = group_new_group history_group "app_session"

-- the registrations of `NewRPCRouter`
unfoldable pub register : Effect RpcNode (Unit {0})
unfolding add_middleware node_handle group_use group_handle
register = do
  add_middleware group_root logs
  add_middleware group_root measures
  node_handle "ping" (handles "ping")
  node_handle "get_config" (handles "get_config")
  node_handle "get_assets" (handles "get_assets")
  node_handle "get_app_definition" (handles "get_app_definition")
  node_handle "get_app_sessions" (handles "get_app_sessions")
  node_handle "get_channels" (handles "get_channels")
  node_handle "get_ledger_entries" (handles "get_ledger_entries")
  node_handle "get_ledger_transactions" (handles "get_ledger_transactions")
  node_handle "auth_request" (handles "auth_request")
  node_handle "auth_verify" (handles "auth_verify")
  group_use test_mode_group tests_mode
  group_handle test_mode_group "cleanup_session_key_cache" (handles "cleanup_session_key_cache")
  group_use priv_group authenticates
  group_handle priv_group "get_user_tag" (handles "get_user_tag")
  group_handle priv_group "get_ledger_balances" (handles "get_ledger_balances")
  group_handle priv_group "get_rpc_history" (handles "get_rpc_history")
  group_handle priv_group "get_session_keys" (handles "get_session_keys")
  group_handle priv_group "revoke_session_key" (handles "revoke_session_key")
  group_use history_group keeps_history
  group_handle history_group "create_channel" (handles "create_channel")
  group_handle history_group "resize_channel" (handles "resize_channel")
  group_handle history_group "close_channel" (handles "close_channel")
  group_use app_session_group updates_balances
  group_handle app_session_group "transfer" (handles "transfer")
  group_handle app_session_group "create_app_session" (handles "create_app_session")
  group_handle app_session_group "submit_app_state" (handles "submit_app_state")
  group_handle app_session_group "close_app_session" (handles "close_app_session")

unfoldable pub router_node : RpcNode
unfolding register new_rpc_node
router_node = (register new_rpc_node).1

-- What a request meets: the time, the configuration, the connection's policy and user, the time that the
-- request bears, the handlers of the methods, and what the history stores.
pub record Request (Decimal : Type 0) : Type 0 where
  pub now : ℕ
  pub expiry : ℕ
  pub is_test_mode : Bool
  pub policy : Option Policy
  pub user_id : String
  pub timestamp : ℕ
  pub handle : String → Effect (Server Decimal) (Unit {0})
  pub store_message : Server Decimal → Server Decimal

module _ {Decimal : Type 0} where
  -- `Next`, from a handler on: the response of the request, or the error of a `Fail`
  unfoldable pub run_handlers : Request Decimal → List Handler → Effect (Server Decimal) (Unit {0})
  unfolding auth_middleware
  run_handlers r [] = fail Error.no_response
  run_handlers r (logs ∷ hs) = run_handlers r hs
  run_handlers r (measures ∷ hs) = run_handlers r hs
  run_handlers r (tests_mode ∷ hs) =
      let next = run_handlers r hs in if r.is_test_mode then next else fail Error.test_mode_disabled
  run_handlers r (authenticates ∷ hs) =
      auth_middleware r.now r.expiry r.policy r.user_id r.timestamp (run_handlers r hs)
  run_handlers r (keeps_history ∷ hs) =
      λ n. ((run_handlers r hs n).0, r.store_message (run_handlers r hs n).1)
  run_handlers r (updates_balances ∷ hs) = run_handlers r hs
  run_handlers r (handles method ∷ hs) = r.handle method

  -- the part of `processMessages` that serves a request for a method
  unfoldable pub process_message : Request Decimal → String → Effect (Server Decimal) (Unit {0})
  unfolding router_node method_handlers run_handlers
  process_message r method = elim (method_handlers method router_node) [
    | none ↦ fail Error.unknown_method
    | some hs ↦ run_handlers r hs
  ]
