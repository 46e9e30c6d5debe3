-- ===== src/ConnectionHub/Mapping.antt =====
-- The mapping of users follows the users of the connections.
use mathlib.Core.Path.{subst}
use wthelly.Base.{
  ◌≡◌, Option-cases, refl, ap, ◌∙◌, inl, inr, arith, String, Bool, true, false, Bool-cases, ◌==◌,
  eq_iff, none, some, List, [], ◌∷◌, any, select, if◌then◌else◌,
}
use wthelly.ConnectionHub.{
  ConnectionHub, contains, insert, delete, ids_of, map_to, or_no_entry, unmap,
}

contains-insert :
    (i id : String) (ids : List String)
    → contains i (insert id ids) ≡ (if id == i then true else contains i ids)
unfolding insert any
contains-insert i id ids = elim (Bool-cases (contains id ids)) [
  | inl old ↦ rw old (elim (Bool-cases (id == i)) [
    | inl hit ↦ rw hit (subst (λ k. contains k ids ≡ true) ((eq_iff id i).0 hit) old)
    | inr miss ↦ rw miss refl
  ])
  | inr new ↦ rw new (ground arith)
]

contains-delete :
    (i id : String) (ids : List String)
    → contains i (delete id ids) ≡ (if id == i then false else contains i ids)
unfolding delete any select
contains-delete i id [] = ground arith
contains-delete i id (j ∷ ids) =
    ground (arith, contains-delete i id ids, eq_iff j i, eq_iff j id, eq_iff id i)

contains-or_no_entry :
    (i : String) (ids : List String) → contains i (ids_of (or_no_entry ids)) ≡ contains i ids
unfolding or_no_entry ids_of any
contains-or_no_entry i [] = refl
contains-or_no_entry i (j ∷ ids) = refl

-- whether the mapping lists a connection for a user
abbrev pub mapped : ConnectionHub → String → String → Bool
mapped hub user id = contains id (ids_of (hub.auth_mapping user))

pub mapped-map_to :
    (user id : String) (hub : ConnectionHub) (u i : String)
    → mapped (map_to user id hub) u i
      ≡ (if user == u then (if id == i then true else mapped hub u i) else mapped hub u i)
unfolding map_to ids_of
mapped-map_to user id hub u i = elim (Bool-cases (user == u)) [
  | inl hit ↦ rw (hit, (eq_iff user u).0 hit) (contains-insert i id (ids_of (hub.auth_mapping u)))
  | inr miss ↦ rw miss refl
]

pub mapped-unmap :
    (user id : String) (hub : ConnectionHub) (u i : String)
    → mapped (unmap user id hub) u i
      ≡ (if user == u then (if id == i then false else mapped hub u i) else mapped hub u i)
unfolding unmap ids_of any
mapped-unmap user id hub u i = elim (Option-cases (hub.auth_mapping user)) [
  | inl none_left ↦
      rw (none_left, unmap)
        (elim (Bool-cases (user == u)) [
          | inl hit ↦
              let gone : ids_of (hub.auth_mapping u) ≡ [] =
                ap ids_of
                  (subst (λ k. hub.auth_mapping k ≡ none) ((eq_iff user u).0 hit) none_left) in
              rw (hit, gone)
                (elim (Bool-cases (id == i)) [
                  | inl same ↦ rw same refl
                  | inr other ↦ rw other refl
                ])
          | inr miss ↦ rw miss refl
        ])
  | inr (ids, found) ↦
      rw (found, unmap)
        (elim (Bool-cases (user == u)) [
          | inl hit ↦
              let there : ids_of (hub.auth_mapping u) ≡ ids =
                ap ids_of
                  (subst (λ k. hub.auth_mapping k ≡ some ids) ((eq_iff user u).0 hit) found) in
              rw (hit, there) (contains-or_no_entry i (delete id ids) ∙ contains-delete i id ids)
          | inr miss ↦ rw miss refl
        ])
]
