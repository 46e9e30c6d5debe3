-- ===== src/ConnectionHub.antt =====
-- connection_hub.go (pkg/rpc), and the hub of rpc_connection.go, which is the same: the connections by
-- their ids, and the connections of each user. A Go map is a function here, and the set of a user's
-- connections a list of ids. A connection changes its user only through the hub.
pub mod Mapping
pub mod Sessions
pub mod Assigned
pub mod Refines
use wthelly.Base.{
  String, Bool, true, false, not, ◌==◌, Option, none, some, List, [], ◌∷◌, any, select, is_empty,
  if◌then◌else◌,
}
use wthelly.Error.{Error}
use wthelly.Effect.{Effect, Result, ok, err}

-- `Connection`, as far as the hub reads it
pub record Connection : Type 0 where
  pub connection_id : String
  pub user_id : String

pub record ConnectionHub : Type 0 where
  pub connections : String → Option Connection
  pub auth_mapping : String → Option (List String)

-- `m[key] = value`, and `delete(m, key)`
abbrev pub assign : {A : Type 0} → String → Option A → (String → Option A) → String → Option A
assign key value m k = if key == k then value else m k

-- a set of ids: its members, an addition, a deletion
abbrev pub contains : String → List String → Bool
contains id ids = any (λ i. i == id) ids

unfoldable pub insert : String → List String → List String
insert id ids = if contains id ids then ids else id ∷ ids

unfoldable pub delete : String → List String → List String
delete id ids = select (λ i. not (i == id)) ids

-- `NewConnectionHub`
unfoldable pub new_connection_hub : ConnectionHub
new_connection_hub = record { connections = λ id. none; auth_mapping = λ user. none }

-- the connections of a user, none if the user has no entry
unfoldable pub ids_of : Option (List String) → List String
ids_of none = []
ids_of (some ids) = ids

-- one more connection of a user, whose set is made if there is none
unfoldable pub map_to : String → String → ConnectionHub → ConnectionHub
unfolding insert ids_of
map_to user_id conn_id hub = record hub {
  auth_mapping =
      assign user_id (some (insert conn_id (ids_of (hub.auth_mapping user_id)))) hub.auth_mapping;
}

-- the rest of a user's set, or no entry if nothing is left
unfoldable pub or_no_entry : List String → Option (List String)
or_no_entry ids = if is_empty ids then none else some ids

-- one connection less of a user, whose empty set is removed
unfoldable pub unmap : String → String → ConnectionHub → ConnectionHub
unfolding delete or_no_entry
unmap user_id conn_id hub = elim (hub.auth_mapping user_id) [
  | none ↦ hub
  | some ids ↦ record hub {
    auth_mapping = assign user_id (or_no_entry (delete conn_id ids)) hub.auth_mapping;
  }
]

-- `unmap`, for a user that is not empty
unfoldable pub unmap_user : String → String → ConnectionHub → ConnectionHub
unfolding unmap
unmap_user user_id conn_id hub = if user_id == "" then hub else unmap user_id conn_id hub

-- `Add`; a nil connection is `none`
unfoldable pub add : Option Connection → Effect ConnectionHub (Unit {0})
unfolding map_to
add none hub = (err Error.nil_connection, hub)
add (some conn) hub = elim (hub.connections conn.connection_id) [
  | some _ ↦ (err Error.connection_exists, hub)
  | none ↦
      let added : ConnectionHub = record hub {
        connections = assign conn.connection_id (some conn) hub.connections;
      } in
      if conn.user_id == ""
      then (ok tt, added)
      else (ok tt, map_to conn.user_id conn.connection_id added)
]

-- `Reauthenticate`
unfoldable pub reauthenticate : String → String → Effect ConnectionHub (Unit {0})
unfolding map_to unmap_user
reauthenticate conn_id user_id hub = elim (hub.connections conn_id) [
  | none ↦ (err Error.unknown_connection, hub)
  | some conn ↦
      let out : ConnectionHub = unmap_user conn.user_id conn_id hub in
      (
        ok tt,
        map_to user_id conn_id (record out {
          connections = assign conn_id (some (record conn { user_id = user_id })) out.connections;
        }),
      )
]

-- `Get`
unfoldable pub get : String → ConnectionHub → Option Connection
get conn_id hub = hub.connections conn_id

-- `Remove`
unfoldable pub remove : String → ConnectionHub → ConnectionHub
unfolding unmap_user
remove conn_id hub = elim (hub.connections conn_id) [
  | none ↦ hub
  | some conn ↦
      unmap_user conn.user_id conn_id
        (record hub { connections = assign conn_id none hub.connections })
]

unfoldable pub is_connected : ConnectionHub → String → Bool
is_connected hub id = elim (hub.connections id) [ none ↦ false | some _ ↦ true ]

-- `Publish`: the connections that the message is written to
unfoldable pub publish : String → ConnectionHub → List String
unfolding ids_of is_connected
publish user_id hub = select (is_connected hub) (ids_of (hub.auth_mapping user_id))
