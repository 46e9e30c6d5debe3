-- ===== src/ConnectionHub/Sessions.antt =====
-- The plain description of the hub, by which user each connection has, and the hub that agrees with it.
use wthelly.Base.{◌≡◌, ◌≢◌, String, Bool, false, ◌==◌, Option, none, some, List, [], ◌∷◌}
use wthelly.Error.{Error}
use wthelly.Effect.{Result, ok, err}
use wthelly.ConnectionHub.{Connection, ConnectionHub, assign, add, reauthenticate, remove}
use wthelly.ConnectionHub.Mapping.{mapped}

-- a call of the hub
pub data HubCall : Type 0 where
  adds : Option Connection → HubCall
  reauthenticates : String → String → HubCall
  removes : String → HubCall

-- the hub's answer to a call, and what the call leaves
unfoldable pub call : HubCall → ConnectionHub → Result (Unit {0}) × ConnectionHub
unfolding add reauthenticate remove
call (adds conn) hub = add conn hub
call (reauthenticates conn_id user_id) hub = reauthenticate conn_id user_id hub
call (removes conn_id) hub = (ok tt, remove conn_id hub)

-- The plain description: the user of each connection that there is.
abbrev pub Sessions : Type 0
Sessions = String → Option String

unfoldable pub sessions_call : HubCall → Sessions → Result (Unit {0}) × Sessions
sessions_call (adds none) s = (err Error.nil_connection, s)
sessions_call (adds (some conn)) s = elim (s conn.connection_id) [
  | some _ ↦ (err Error.connection_exists, s)
  | none ↦ (ok tt, assign conn.connection_id (some conn.user_id) s)
]
sessions_call (reauthenticates conn_id user_id) s = elim (s conn_id) [
  | none ↦ (err Error.unknown_connection, s)
  | some _ ↦ (ok tt, assign conn_id (some user_id) s)
]
sessions_call (removes conn_id) s = (ok tt, assign conn_id none s)

-- the answers to a sequence of calls, and what it leaves
unfoldable pub run : List HubCall → ConnectionHub → List (Result (Unit {0})) × ConnectionHub
unfolding call
run [] hub = ([], hub)
run (c ∷ calls) hub =
    let (r, hub') = call c hub in let (rs, last) = run calls hub' in (r ∷ rs, last)

unfoldable pub sessions_run : List HubCall → Sessions → List (Result (Unit {0})) × Sessions
unfolding sessions_call
sessions_run [] s = ([], s)
sessions_run (c ∷ calls) s =
    let (r, s') = sessions_call c s in let (rs, last) = sessions_run calls s' in (r ∷ rs, last)

-- whether a session is one of a user
abbrev pub is_of : Option String → String → Bool
is_of none user = false
is_of (some u) user = u == user

abbrev pub user_of : Option Connection → Option String
user_of none = none
user_of (some conn) = some conn.user_id

-- The hub and the sessions agree, and the mapping lists each user's connections.
pub record Agree (hub : ConnectionHub) (s : Sessions) : Type 0 where
  pub users : (id : String) → user_of (hub.connections id) ≡ s id
  pub mapping : (user id : String) → user ≢ "" → mapped hub user id ≡ is_of (s id) user
