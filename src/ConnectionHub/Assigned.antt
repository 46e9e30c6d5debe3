-- ===== src/ConnectionHub/Assigned.antt =====
-- What setting one connection does to the mapping, and to the agreement of the hub with the sessions.
use mathlib.Core.Path.{subst}
use wthelly.Base.{
  ◌≡◌, ◌≢◌, refl, sym, ap, ◌∙◌, inl, inr, arith, String, Bool, true, false, Bool-cases, ◌==◌,
  eq_iff, Option, if◌then◌else◌,
}
use wthelly.ConnectionHub.{Connection, ConnectionHub, assign, map_to, unmap, unmap_user}
use wthelly.ConnectionHub.Mapping.{mapped, mapped-unmap}
use wthelly.ConnectionHub.Sessions.{Sessions, is_of, user_of, Agree}

pub map_to-connections :
    (user id : String) (hub : ConnectionHub) (i : String)
    → (map_to user id hub).connections i ≡ hub.connections i
unfolding map_to
map_to-connections user id hub i = refl

pub unmap_user-connections :
    (user id : String) (hub : ConnectionHub)
    → (unmap_user user id hub).connections ≡ hub.connections
unfolding unmap_user unmap
unmap_user-connections user id hub = ground arith

pub mapped-unmap_user :
    (user id : String) (hub : ConnectionHub) (u i : String)
    → u ≢ ""
    → mapped (unmap_user user id hub) u i
      ≡ (if user == u then (if id == i then false else mapped hub u i) else mapped hub u i)
unfolding unmap_user
mapped-unmap_user user id hub u i nonempty = elim (Bool-cases (user == "")) [
  | inl empty ↦ rw empty (ground (arith, eq_iff user u, eq_iff user ""))
  | inr full ↦ rw full (mapped-unmap user id hub u i)
]

-- The call sets one connection, in the hub and in the sessions.
pub assign-Agree :
    (id : String) (c : Option Connection) (hub hub' : ConnectionHub) (s : Sessions)
    → ((i : String) → hub'.connections i ≡ assign id c hub.connections i)
    → ((u i : String)
        → u ≢ ""
        → mapped hub' u i ≡ (if id == i then is_of (user_of c) u else mapped hub u i))
    → Agree hub s
    → Agree hub' (assign id (user_of c) s)
assign-Agree id c hub hub' s set lists g = record {
  users = λ i. elim (Bool-cases (id == i)) [
    | inl hit ↦ rw (set i, hit) refl
    | inr miss ↦ rw (set i, miss) (g.users i)
  ];
  mapping = λ u i nonempty. elim (Bool-cases (id == i)) [
    | inl hit ↦ rw (hit, lists u i nonempty, hit) refl
    | inr miss ↦ rw (miss, lists u i nonempty, miss) (g.mapping u i nonempty)
  ];
}

-- what the mapping says of a connection
pub mapped-Agree :
    (hub : ConnectionHub) (s : Sessions) (id i u : String) (c : Option Connection)
    → Agree hub s
    → u ≢ ""
    → hub.connections id ≡ c
    → (id == i) ≡ true
    → mapped hub u i ≡ is_of (user_of c) u
mapped-Agree hub s id i u c g nonempty found hit =
    g.mapping u i nonempty
    ∙ ap (λ x. is_of x u)
        (sym (g.users i)
          ∙ ap user_of (subst (λ k. hub.connections k ≡ c) ((eq_iff id i).0 hit) found))

-- The mapping after a connection is taken from an old user, and after it is given to a new one.
pub taken_out :
    (old hit m : Bool)
    → (hit ≡ true → m ≡ old)
    → (if old then if hit then false else m else m) ≡ (if hit then false else m)
taken_out true true m h = refl
taken_out false true m h = h refl
taken_out true false m h = refl
taken_out false false m h = refl

pub given :
    (new hit m : Bool)
    → (hit ≡ true → m ≡ false)
    → (if new then if hit then true else m else m) ≡ (if hit then new else m)
given true true m h = refl
given false true m h = h refl
given true false m h = refl
given false false m h = refl

pub moved :
    (new old hit m : Bool)
    → (hit ≡ true → m ≡ old)
    → (if new
        then if hit then true else if old then if hit then false else m else m
        else if old
        then if hit then false else m
        else m)
      ≡ (if hit then new else m)
moved true old true m h = refl
moved false true true m h = refl
moved false false true m h = h refl
moved true true false m h = refl
moved true false false m h = refl
moved false true false m h = refl
moved false false false m h = refl

pub not_empty : (u : String) → u ≢ "" → ("" == u) ≡ false
not_empty u nonempty = ground (arith, eq_iff "" u)
