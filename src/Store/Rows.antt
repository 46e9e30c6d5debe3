-- ===== src/Store/Rows.antt =====
-- Queries for a row by its key, before and after a row is saved.
use mathlib.Core.Path.{subst}
use wthelly.Base.{
  ◌≡◌, refl, sym, inl, inr, Bool, true, Bool-cases, String, ◌==◌, eq_iff, eq_refl, Option, some,
  List, [], ◌∷◌, find, update, if◌then◌else◌,
}

module _ {A : Type 0} (key : A → String) where
  abbrev pub has_key : String → A → Bool
  has_key k a = key a == k

  -- what a query finds has the key
  pub find-key : (k : String) (rows : List A) {a : A} → find (has_key k) rows ≡ some a → key a ≡ k
  unfolding find
  find-key k [] h = cc
  find-key k (b ∷ rows) {a} h = elim (Bool-cases (key b == k)) [
    | inl hit ↦ subst (λ x. key x ≡ k) (first _ hit h) ((eq_iff (key b) k).0 hit)
    | inr miss ↦ find-key k rows (rw miss at h)
  ]
    where
      same : {x y : A} → some x ≡ some y → x ≡ y
      same e = cc

      first : {t : Bool} (r : Option A) → t ≡ true → (if t then some b else r) ≡ some a → b ≡ a
      first r e f = same (rw e at f)

  saved :
      (x : A) (rows : List A) {a : A}
      → find (has_key (key x)) rows ≡ some a
      → find (has_key (key x)) (update (has_key (key x)) (λ _. x) rows) ≡ some x
  unfolding find update
  saved x [] f = cc
  saved x (b ∷ rows) {a} f = elim (Bool-cases (key b == key x)) [
    | inl hit ↦ rw (hit, eq_refl) refl
    | inr miss ↦ rw (miss, miss) (saved x rows (rw miss at f))
  ]

  -- After a row is saved that was found before by its key, a query for the key finds it.
  pub find-saved :
      (k : String) (x : A) (rows : List A) {a : A}
      → key x ≡ k
      → find (has_key k) rows ≡ some a
      → find (has_key k) (update (has_key (key x)) (λ _. x) rows) ≡ some x
  find-saved k x rows {a} e f =
      subst (λ i. find (has_key i) (update (has_key (key x)) (λ _. x) rows) ≡ some x) e
        (saved x rows (subst (λ i. find (has_key i) rows ≡ some a) (sym e) f))
