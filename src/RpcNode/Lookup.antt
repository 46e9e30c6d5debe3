-- ===== src/RpcNode/Lookup.antt =====
-- What holds of every route holds of the one that is found.
use wthelly.Base.{◌≡◌, inl, inr, String, true, Bool-cases, ◌==◌, some, List, [], ◌∷◌, All, find}

pub find-All :
    {A : Type 0} (P : String × A → Type 0) (key : String) (m : List (String × A)) {e : String × A}
    → All P m
    → find (λ x. x.0 == key) m ≡ some e
    → P e × ((e.0 == key) ≡ true)
unfolding find
find-All P key [] h f = cc
find-All P key (x ∷ m) {e} (p, h) f = elim (Bool-cases (x.0 == key)) [
  | inl hit ↦ let first : x ≡ e = cc (rw hit at f) in rw (← first) (p, hit)
  | inr miss ↦ find-All P key m h (rw miss at f)
]
