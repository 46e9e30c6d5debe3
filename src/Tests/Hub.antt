-- ===== src/Tests/Hub.antt =====
-- Concrete calls of the connection hub.
use wthelly.Base.{◌≡◌, ◌≢◌, String, some, List, [], ◌∷◌}
use wthelly.ConnectionHub.{contains, new_connection_hub, publish}
use wthelly.ConnectionHub.Sessions.{
  HubCall, adds, reauthenticates, removes, run, sessions_run, is_of,
}
use wthelly.ConnectionHub.Refines.{no_sessions, publish-run}

-- two connections, of which one logs in and the other leaves
abbrev calls : List HubCall
calls =
    adds (some (record { connection_id = "c1"; user_id = "" }))
    ∷ adds (some (record { connection_id = "c2"; user_id = "0xa" }))
    ∷ reauthenticates "c1" "0xa"
    ∷ removes "c2"
    ∷ []

alice_nonempty : ◌≢◌ {A = String} "0xa" ""
alice_nonempty p = cc p

publish-run_example :
    ((run calls new_connection_hub).0 ≡ (sessions_run calls no_sessions).0)
    × (contains "c1" (publish "0xa" (run calls new_connection_hub).1)
        ≡ is_of ((sessions_run calls no_sessions).1 "c1") "0xa")
publish-run_example = publish-run calls "0xa" "c1" alice_nonempty
