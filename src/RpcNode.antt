-- ===== src/RpcNode.antt =====
-- rpc_node.go: the table of handlers by method, with the groups whose middleware comes first, and the
-- run of a request through its handlers. A Go map is a list of entries with distinct keys, and `append` to
-- a route makes a new list. Handlers are named; what they do is RpcRouter's.
pub mod Lookup
use wthelly.Base.{
  String, Bool, not, ◌==◌, List, [], ◌∷◌, ◌++◌, select, if◌then◌else◌, Option, none, some, find,
  is_empty,
}
use wthelly.Error.{Error}
use wthelly.Effect.{Effect, Result, ok, err, guard, modify, ◌>>=◌, ◌>>◌}

-- the handlers of the clearnode: its middleware, and the handler of a method
pub data Handler : Type 0 where
  logs measures tests_mode authenticates keeps_history updates_balances : Handler
  handles : String → Handler

pub record RpcNode : Type 0 where
  pub handler_chain : List (String × List Handler)
  pub routes : List (String × List String)

-- `m[key]`, empty if there is none, and `m[key] = value`
unfoldable pub get_or_empty : {A : Type 0} → String → List (String × List A) → List A
get_or_empty key m = elim (find (λ e. e.0 == key) m) [ none ↦ [] | some e ↦ e.1 ]

unfoldable pub put :
    {A : Type 0} → String → List A → List (String × List A) → List (String × List A)
put key value m = (key, value) ∷ select (λ e. not (e.0 == key)) m

-- `NewRPCNode`
abbrev pub group_root : String
group_root = "group.root"

unfoldable pub new_rpc_node : RpcNode
new_rpc_node = record { handler_chain = []; routes = [] }

-- `use`
unfoldable pub add_middleware : String → Handler → Effect RpcNode (Unit {0})
unfolding get_or_empty put
add_middleware group_id middleware = modify λ n. record n {
  handler_chain =
      put group_id (get_or_empty group_id n.handler_chain ++ (middleware ∷ [])) n.handler_chain;
}

-- `handle`, with its panic
unfoldable pub add_handler : String → Handler → Effect RpcNode (Unit {0})
unfolding put
add_handler method handler = do
  guard (not (method == "")) Error.panic
  modify λ n. record n { handler_chain = put method (handler ∷ []) n.handler_chain }

unfoldable pub set_route : String → List String → Effect RpcNode (Unit {0})
unfolding put
set_route method route = modify λ n. record n { routes = put method route n.routes }

-- `RPCNode.Handle`
unfoldable pub node_handle : String → Handler → Effect RpcNode (Unit {0})
unfolding add_handler set_route
node_handle method handler = do
  add_handler method handler
  set_route method (group_root ∷ method ∷ [])

-- `RPCHandlerGroup`
pub record HandlerGroup : Type 0 where
  pub group_id : String
  pub route_prefix : List String

-- `RPCNode.NewGroup`, of the id with the prefix "group."
abbrev pub node_new_group : String → HandlerGroup
node_new_group group_id = record { group_id = group_id; route_prefix = group_root ∷ [] }

-- `RPCHandlerGroup.NewGroup`: the name is the id
abbrev pub group_new_group : HandlerGroup → String → HandlerGroup
group_new_group g name = record {
  group_id = name;
  route_prefix = g.route_prefix ++ (g.group_id ∷ []);
}

-- `RPCHandlerGroup.Handle`
unfoldable pub group_handle : HandlerGroup → String → Handler → Effect RpcNode (Unit {0})
unfolding add_handler set_route
group_handle g method handler = do
  set_route method (g.route_prefix ++ (g.group_id ∷ method ∷ []))
  add_handler method handler

-- `RPCHandlerGroup.Use`
unfoldable pub group_use : HandlerGroup → Handler → Effect RpcNode (Unit {0})
unfolding add_middleware
group_use g middleware = add_middleware g.group_id middleware

-- the handlers along a route, if each step of it has some
unfoldable pub route_handlers : List String → RpcNode → Option (List Handler)
unfolding get_or_empty
route_handlers [] n = some []
route_handlers (id ∷ route) n =
    let rest = route_handlers route n in
    let handlers : List Handler = get_or_empty id n.handler_chain in
    if is_empty handlers then none else elim rest [ none ↦ none | some hs ↦ some (handlers ++ hs) ]

-- the handlers of a method, as `processMessages` looks them up
unfoldable pub method_handlers : String → RpcNode → Option (List Handler)
unfolding get_or_empty route_handlers
method_handlers method n =
    let route : List String = get_or_empty method n.routes in
    if is_empty route then none else route_handlers route n
