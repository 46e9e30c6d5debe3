-- ===== src/AppSessions/Submit/Saved.antt =====
-- Queries for a session by its id, before and after its row is saved.
use mathlib.Core.Path.{subst}
use wthelly.Base.{
  ◌≡◌, refl, sym, ◌∙◌, inl, inr, Bool, true, false, Bool-cases, String, ◌==◌, eq_iff, eq_refl,
  Option, none, some, List, [], ◌∷◌, find, update, arith, if◌then◌else◌,
}
use wthelly.Error.{Error}
use wthelly.Effect.{ok, or_fail}
use wthelly.Store.{AppSession}
use wthelly.AppSessions.Submit.{with_data}

-- The rows with an id, and a property of such a row.
abbrev pub row_of : String → (AppSession → Bool) → AppSession → Bool
row_of id p a = if a.session_id == id then p a else false

-- A row that a query finds has its id and its property.
pub found :
    (id : String) (p : AppSession → Bool) (rows : List AppSession) {a : AppSession}
    → find (row_of id p) rows ≡ some a
    → (a.session_id ≡ id) × (p a ≡ true)
unfolding find
found id p [] h = cc
found id p (b ∷ rows) {a} h = ground (arith, eq_iff b.session_id id, found id p rows {a = a})

-- A row with another id is passed over.
find-skip :
    (id : String) (p : AppSession → Bool) (b : AppSession) (rows : List AppSession)
    → (b.session_id == id) ≡ false
    → find (row_of id p) (b ∷ rows) ≡ find (row_of id p) rows
unfolding find
find-skip id p b rows miss = rw miss refl

-- After a row is saved, a query for its id finds what was saved.
find-saved :
    (p q : AppSession → Bool) (x : AppSession) (rows : List AppSession) {a : AppSession}
    → q x ≡ true
    → find (row_of x.session_id p) rows ≡ some a
    → find (row_of x.session_id q) (update (λ b. b.session_id == x.session_id) (λ _. x) rows)
      ≡ some x
unfolding find update
find-saved p q x [] h f = cc
find-saved p q x (b ∷ rows) {a} h f = elim (Bool-cases (b.session_id == x.session_id)) [
  | inl hit ↦ rw (hit, eq_refl, h) refl
  | inr miss ↦
      rw (miss, miss) (find-saved p q x rows h (sym (find-skip x.session_id p b rows miss) ∙ f))
]

pub find-saved-id :
    (id : String) (p q : AppSession → Bool) (x : AppSession) (rows : List AppSession)
    {a : AppSession}
    → x.session_id ≡ id
    → q x ≡ true
    → find (row_of id p) rows ≡ some a
    → find (row_of id q) (update (λ b. b.session_id == x.session_id) (λ _. x) rows) ≡ some x
find-saved-id id p q x rows {a} e h f =
    subst
      (λ i. find (row_of i q) (update (λ b. b.session_id == x.session_id) (λ _. x) rows) ≡ some x) e
      (find-saved p q x rows h (subst (λ i. find (row_of i p) rows ≡ some a) (sym e) f))

pub or_fail-some : {A : Type 0} (o : Option A) (e : Error) {a : A} → or_fail o e ≡ ok a → o ≡ some a
or_fail-some none e h = cc
or_fail-some (some b) e h = cc

pub with_data-fields :
    (d : Option String) (a : AppSession)
    → ((with_data d a).session_id ≡ a.session_id)
      × ((with_data d a).status ≡ a.status)
      × ((with_data d a).protocol ≡ a.protocol)
      × ((with_data d a).version ≡ a.version)
unfolding with_data
with_data-fields none a = (refl, refl, refl, refl)
with_data-fields (some x) a = (refl, refl, refl, refl)

-- After a row is saved that lacks a property, no row of its id has the property.
find-saved_lacks :
    (q : AppSession → Bool) (x : AppSession) (rows : List AppSession)
    → q x ≡ false
    → find (row_of x.session_id q) (update (λ b. b.session_id == x.session_id) (λ _. x) rows) ≡ none
unfolding find update
find-saved_lacks q x [] h = refl
find-saved_lacks q x (b ∷ rows) h = elim (Bool-cases (b.session_id == x.session_id)) [
  | inl hit ↦ rw (hit, eq_refl, h) (find-saved_lacks q x rows h)
  | inr miss ↦ rw (miss, miss) (find-saved_lacks q x rows h)
]

pub find-saved_none :
    (id : String) (q : AppSession → Bool) (x : AppSession) (rows : List AppSession)
    → x.session_id ≡ id
    → q x ≡ false
    → find (row_of id q) (update (λ b. b.session_id == x.session_id) (λ _. x) rows) ≡ none
find-saved_none id q x rows e h =
    subst (λ i. find (row_of i q) (update (λ b. b.session_id == x.session_id) (λ _. x) rows) ≡ none)
      e (find-saved_lacks q x rows h)
