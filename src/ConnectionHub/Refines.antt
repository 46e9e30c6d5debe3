-- ===== src/ConnectionHub/Refines.antt =====
-- The hub against its plain description: which user each connection has.
use mathlib.Core.Path.{subst}
use wthelly.Base.{
  ◌≡◌, ◌≢◌, refl, sym, ap, ◌∙◌, inl, inr, arith, String, Bool, true, false, Bool-cases,
  Option-cases, ◌&&◌, ◌==◌, eq_iff, none, some, List, [], ◌∷◌, any, select, if◌then◌else◌,
}
use wthelly.ConnectionHub.{
  Connection, ConnectionHub, assign, contains, new_connection_hub, ids_of, map_to, unmap_user, add,
  reauthenticate, remove, is_connected, publish,
}
use wthelly.ConnectionHub.Mapping.{mapped, mapped-map_to}
use wthelly.ConnectionHub.Sessions.{
  HubCall, adds, reauthenticates, removes, call, Sessions, sessions_call, run, sessions_run, is_of,
  user_of, Agree,
}
use wthelly.ConnectionHub.Assigned.{
  map_to-connections, unmap_user-connections, mapped-unmap_user, assign-Agree, mapped-Agree,
  taken_out, given, moved, not_empty,
}

add-Agree :
    (conn : Connection) (hub : ConnectionHub) (s : Sessions)
    → Agree hub s
    → ((add (some conn) hub).0 ≡ (sessions_call (adds (some conn)) s).0)
      × Agree (add (some conn) hub).1 (sessions_call (adds (some conn)) s).1
unfolding add sessions_call
add-Agree conn hub s g = elim (Option-cases (hub.connections conn.connection_id)) [
  | inl free ↦
      rw (free, sym (g.users conn.connection_id) ∙ ap user_of free, add, sessions_call)
        (elim (Bool-cases (conn.user_id == "")) [
          | inl empty ↦ rw empty (
            refl,
            assign-Agree conn.connection_id (some conn) hub
                (record hub { connections = assign conn.connection_id (some conn) hub.connections })
                s (λ i. refl)
                (λ u i nonempty. elim (Bool-cases (conn.connection_id == i)) [
                  | inl hit ↦ rw hit (
                      mapped-Agree hub s conn.connection_id i u none g nonempty free hit
                      ∙ sym (
                          subst (λ k. (k == u) ≡ false) (sym ((eq_iff conn.user_id "").0 empty))
                            (not_empty u nonempty)))
                  | inr miss ↦ rw miss refl
                ])
                g,
          )
          | inr full ↦ rw full (
            refl,
            assign-Agree conn.connection_id (some conn) hub
                (map_to conn.user_id conn.connection_id (record hub {
                  connections = assign conn.connection_id (some conn) hub.connections;
                }))
                s
                (map_to-connections conn.user_id conn.connection_id (record hub {
                  connections = assign conn.connection_id (some conn) hub.connections;
                }))
                (λ u i nonempty.
                  mapped-map_to conn.user_id conn.connection_id
                    (record hub {
                      connections = assign conn.connection_id (some conn) hub.connections;
                    })
                    u i
                  ∙ given (conn.user_id == u) (conn.connection_id == i) (mapped hub u i)
                      (mapped-Agree hub s conn.connection_id i u none g nonempty free))
                g,
          )
        ])
  | inr (old, taken) ↦
      rw (taken, sym (g.users conn.connection_id) ∙ ap user_of taken, add, sessions_call) (refl, g)
]

reauthenticate-Agree :
    (id user : String) (hub : ConnectionHub) (s : Sessions)
    → Agree hub s
    → ((reauthenticate id user hub).0 ≡ (sessions_call (reauthenticates id user) s).0)
      × Agree (reauthenticate id user hub).1 (sessions_call (reauthenticates id user) s).1
unfolding reauthenticate sessions_call
reauthenticate-Agree id user hub s g = elim (Option-cases (hub.connections id)) [
  | inl free ↦
      rw (free, sym (g.users id) ∙ ap user_of free, reauthenticate, sessions_call) (refl, g)
  | inr (old, taken) ↦
      rw (taken, sym (g.users id) ∙ ap user_of taken, reauthenticate, sessions_call)
        (
          refl,
          assign-Agree id (some (record old { user_id = user })) hub
              (map_to user id (record (unmap_user old.user_id id hub) {
                connections =
                    assign id (some (record old { user_id = user }))
                      (unmap_user old.user_id id hub).connections;
              }))
              s
              (λ i.
                ap (λ m. assign id (some (record old { user_id = user })) m i)
                  (unmap_user-connections old.user_id id hub))
              (λ u i nonempty.
                mapped-map_to user id
                  (record (unmap_user old.user_id id hub) {
                    connections =
                        assign id (some (record old { user_id = user }))
                          (unmap_user old.user_id id hub).connections;
                  })
                  u i
                ∙ subst
                    (λ b.
                      (if user == u then if id == i then true else b else b)
                      ≡ (if id == i then user == u else mapped hub u i))
                    (sym (mapped-unmap_user old.user_id id hub u i nonempty))
                    (moved (user == u) (old.user_id == u) (id == i) (mapped hub u i)
                      (mapped-Agree hub s id i u (some old) g nonempty taken)))
              g,
        )
]

remove-Agree :
    (id : String) (hub : ConnectionHub) (s : Sessions)
    → Agree hub s
    → Agree (remove id hub) (assign id none s)
unfolding remove
remove-Agree id hub s g = elim (Option-cases (hub.connections id)) [
  | inl free ↦
      rw (free, remove)
        (assign-Agree id none hub hub s
          (λ i. elim (Bool-cases (id == i)) [
            | inl hit ↦ rw hit (subst (λ k. hub.connections k ≡ none) ((eq_iff id i).0 hit) free)
            | inr miss ↦ rw miss refl
          ])
          (λ u i nonempty. elim (Bool-cases (id == i)) [
            | inl hit ↦ rw hit (mapped-Agree hub s id i u none g nonempty free hit)
            | inr miss ↦ rw miss refl
          ])
          g)
  | inr (old, taken) ↦
      rw (taken, remove)
        (assign-Agree id none hub
          (unmap_user old.user_id id (record hub { connections = assign id none hub.connections }))
          s
          (λ i.
            ap (λ m. m i)
              (unmap_user-connections old.user_id id
                (record hub { connections = assign id none hub.connections })))
          (λ u i nonempty.
            mapped-unmap_user old.user_id id
              (record hub { connections = assign id none hub.connections }) u i nonempty
            ∙ taken_out (old.user_id == u) (id == i) (mapped hub u i)
                (mapped-Agree hub s id i u (some old) g nonempty taken))
          g)
]

call-Agree :
    (c : HubCall) (hub : ConnectionHub) (s : Sessions)
    → Agree hub s
    → ((call c hub).0 ≡ (sessions_call c s).0) × Agree (call c hub).1 (sessions_call c s).1
unfolding call sessions_call
call-Agree (adds none) hub s g = (refl, g)
call-Agree (adds (some conn)) hub s g = add-Agree conn hub s g
call-Agree (reauthenticates id user) hub s g = reauthenticate-Agree id user hub s g
call-Agree (removes id) hub s g = (refl, remove-Agree id hub s g)

run-Agree :
    (calls : List HubCall) (hub : ConnectionHub) (s : Sessions)
    → Agree hub s
    → ((run calls hub).0 ≡ (sessions_run calls s).0)
      × Agree (run calls hub).1 (sessions_run calls s).1
unfolding run sessions_run
run-Agree [] hub s g = (refl, g)
run-Agree (c ∷ calls) hub s g =
    let (answer, g') = call-Agree c hub s g in
    let (answers, last) = run-Agree calls (call c hub).1 (sessions_call c s).1 g' in
    ((λ i. answer i ∷ answers i), last)

-- The messages for a user go to the connections that are the user's.
contains-select :
    (p : String → Bool) (id : String) (ids : List String)
    → contains id (select p ids) ≡ contains id ids && p id
unfolding any select
contains-select p id [] = refl
contains-select p id (i ∷ ids) = elim (Bool-cases (p i)) [
  | inl keep ↦ rw keep (elim (Bool-cases (i == id)) [
    | inl hit ↦ rw hit (subst (λ k. true ≡ p k) ((eq_iff i id).0 hit) (sym keep))
    | inr miss ↦ rw miss (contains-select p id ids)
  ])
  | inr drop ↦ rw drop (elim (Bool-cases (i == id)) [
    | inl hit ↦ rw hit (
        contains-select p id ids
        ∙ ground (arith, subst (λ k. p k ≡ false) ((eq_iff i id).0 hit) drop))
    | inr miss ↦ rw miss (contains-select p id ids)
  ])
]

is_of-is_connected :
    (hub : ConnectionHub) (id user : String)
    → is_of (user_of (hub.connections id)) user && is_connected hub id
      ≡ is_of (user_of (hub.connections id)) user
unfolding is_connected
is_of-is_connected hub id user = elim (Option-cases (hub.connections id)) [
  | inl absent ↦ rw absent refl
  | inr (conn, found) ↦ rw (found, is_connected) (ground arith)
]

publish-Agree :
    (hub : ConnectionHub) (s : Sessions) (user id : String)
    → Agree hub s
    → user ≢ ""
    → contains id (publish user hub) ≡ is_of (s id) user
unfolding publish
publish-Agree hub s user id g nonempty =
    contains-select (is_connected hub) id (ids_of (hub.auth_mapping user))
    ∙ ap (λ b. b && is_connected hub id) (g.mapping user id nonempty)
    ∙ subst (λ o. is_of o user && is_connected hub id ≡ is_of o user) (g.users id)
        (is_of-is_connected hub id user)

abbrev pub no_sessions : Sessions
no_sessions id = none

-- After any sequence of calls of a new hub, the hub has given each call the answer of the plain
-- description, in which a connection that is there has one user, an addition needs an id that is free and a
-- reauthentication one that is there; and a message published to a user that is not empty is written to
-- exactly the connections that have this user in the description.
pub publish-run :
    (calls : List HubCall) (user id : String)
    → user ≢ ""
    → ((run calls new_connection_hub).0 ≡ (sessions_run calls no_sessions).0)
      × (contains id (publish user (run calls new_connection_hub).1)
          ≡ is_of ((sessions_run calls no_sessions).1 id) user)
unfolding new_connection_hub any ids_of
publish-run calls user id nonempty =
    let (answers, last) =
      run-Agree calls new_connection_hub no_sessions
        (record { users = λ i. refl; mapping = λ u i h. refl }) in
    (
      answers,
      publish-Agree (run calls new_connection_hub).1 (sessions_run calls no_sessions).1 user id last
          nonempty,
    )
