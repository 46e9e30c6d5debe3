-- ===== src/MessageCache/Expiry.antt =====
-- The cleanup of expired hashes is invisible: a hash is found for its time to live and no longer.
use mathlib.Core.Path.{subst}
use wthelly.Base.{
  ◌⊎◌, ℕ, ◌+◌, ◌≡◌, ◌≤◌, refl, sym, ap, ◌∙◌, inl, inr, Bool-cases, String, Bool, true, false, not,
  ltb, ◌==◌, eq_iff, Option, none, List, [], ◌∷◌, select, find, arith, if◌then◌else◌,
}
use wthelly.MessageCache.{
  MessageCache, delete, cleanup_expired, recalculate_cleanup_interval, store, add, is_live, exists,
}

-- the entry of a hash
abbrev pub lookup : String → List (String × ℕ) → Option (String × ℕ)
lookup hash = find λ e. e.0 == hash

-- A map: no hash has two entries.
abbrev pub IsMap : List (String × ℕ) → Type 0
IsMap [] = Unit
IsMap (e ∷ es) = (lookup e.0 es ≡ none) × IsMap es

lookup-select-none :
    (hash : String) (q : String × ℕ → Bool) (es : List (String × ℕ))
    → lookup hash es ≡ none
    → lookup hash (select q es) ≡ none
unfolding find select
lookup-select-none hash q [] h = refl
lookup-select-none hash q (e ∷ es) h = ground (arith, lookup-select-none hash q es)

select-IsMap : (q : String × ℕ → Bool) (es : List (String × ℕ)) → IsMap es → IsMap (select q es)
unfolding select
select-IsMap q [] m = tt
select-IsMap q (e ∷ es) (fresh, m) = elim (Bool-cases (q e)) [
  | inl keep ↦ rw keep (lookup-select-none e.0 q es fresh, select-IsMap q es m)
  | inr drop ↦ rw drop (select-IsMap q es m)
]

lookup-delete : (hash : String) (es : List (String × ℕ)) → lookup hash (delete hash es) ≡ none
unfolding find select delete
lookup-delete hash [] = refl
lookup-delete hash (e ∷ es) = ground (arith, lookup-delete hash es)

lookup-delete_ne :
    (hash other : String) (es : List (String × ℕ))
    → (other == hash) ≡ false
    → lookup hash (delete other es) ≡ lookup hash es
unfolding find select delete
lookup-delete_ne hash other [] h = refl
lookup-delete_ne hash other (e ∷ es) h =
    ground
      (arith, lookup-delete_ne hash other es, eq_iff e.0 other, eq_iff e.0 hash, eq_iff other hash)

-- Taking out what has expired changes no later answer.
is_live-cleanup :
    (now later : ℕ) (hash : String) (es : List (String × ℕ))
    → IsMap es
    → now ≤ later
    → is_live later (lookup hash (select (λ e. not (ltb e.1 now)) es))
      ≡ is_live later (lookup hash es)
unfolding find select
is_live-cleanup now later hash [] m h = refl
is_live-cleanup now later hash (e ∷ es) (fresh, m) h = elim (Bool-cases (e.0 == hash)) [
  | inl hit ↦
      let absent : lookup hash es ≡ none = subst (λ k. lookup k es ≡ none) (same hit) fresh in
      elim (Bool-cases (ltb e.1 now)) [
        | inl expired ↦
            rw
              (
                expired,
                hit,
                lookup-select-none hash (λ x. not (ltb x.1 now)) es absent,
                later_expired e.1 expired,
              )
              refl
        | inr live ↦ rw (live, hit) refl
      ]
  | inr miss ↦ elim (Bool-cases (ltb e.1 now)) [
    | inl expired ↦ rw (expired, miss) (is_live-cleanup now later hash es m h)
    | inr live ↦ rw (live, miss) (is_live-cleanup now later hash es m h)
  ]
]
  where
    same : (e.0 == hash) ≡ true → e.0 ≡ hash
    same hit = ground (arith, eq_iff e.0 hash)

    later_expired : (x : ℕ) → ltb x now ≡ true → ltb x later ≡ true
    later_expired x expired = ground arith

-- What the cache stores is a map.
abbrev pub IsCache : MessageCache → Type 0
IsCache mc = IsMap mc.entries

delete-IsMap : (hash : String) (es : List (String × ℕ)) → IsMap es → IsMap (delete hash es)
unfolding delete
delete-IsMap hash es m = select-IsMap (λ e. not (e.0 == hash)) es m

store-IsMap :
    (now : ℕ) (hash : String) (mc : MessageCache)
    → IsMap mc.entries
    → IsMap (store now hash mc).entries
unfolding store
store-IsMap now hash mc m = (lookup-delete hash mc.entries, delete-IsMap hash mc.entries m)

-- what the answer is before the cleanup
exists-store :
    (now later : ℕ) (hash other : String) (mc : MessageCache)
    → exists later other (store now hash mc)
      ≡ (if hash == other then not (ltb (now + mc.ttl) later) else exists later other mc)
unfolding exists store find
exists-store now later hash other mc = elim (Bool-cases (hash == other)) [
  | inl hit ↦ rw hit refl
  | inr miss ↦ rw (miss, lookup-delete_ne other hash mc.entries miss) refl
]

recalculate-entries : (mc : MessageCache) → (recalculate_cleanup_interval mc).entries ≡ mc.entries
unfolding recalculate_cleanup_interval
recalculate-entries mc = ground arith

add-entries :
    (now : ℕ) (hash : String) (mc : MessageCache)
    → ((add now hash mc).entries ≡ (store now hash mc).entries)
      ⊎ ((add now hash mc).entries ≡ select (λ e. not (ltb e.1 now)) (store now hash mc).entries)
unfolding add cleanup_expired store
add-entries now hash mc = elim (Bool-cases (ltb (mc.cleanup_counter + 1) mc.cleanup_every)) [
  | inl wait ↦ inl (rw wait refl)
  | inr clean ↦ inr (rw clean (recalculate-entries (cleanup_expired now (store now hash mc))))
]

-- After `Add`, in a cache with one entry for each hash, a later question for the hash that was added is
-- answered yes until its time to live has passed and no from then on, and a question for any other hash
-- is answered as before the addition, whether or not the addition cleaned up; each hash still has one
-- entry.
pub exists-add :
    (now later : ℕ) (hash other : String) (mc : MessageCache)
    → IsCache mc
    → now ≤ later
    → (exists later other (add now hash mc)
        ≡ (if hash == other then not (ltb (now + mc.ttl) later) else exists later other mc))
      × IsCache (add now hash mc)
unfolding exists
exists-add now later hash other mc m h = elim (add-entries now hash mc) [
  | inl kept ↦ (
    ap (λ es. is_live later (lookup other es)) kept ∙ exists-store now later hash other mc,
    subst IsMap (sym kept) (store-IsMap now hash mc m),
  )
  | inr cleaned ↦ (
    ap (λ es. is_live later (lookup other es)) cleaned
        ∙ is_live-cleanup now later other (store now hash mc).entries (store-IsMap now hash mc m) h
        ∙ exists-store now later hash other mc,
    subst IsMap (sym cleaned) (
        select-IsMap (λ e. not (ltb e.1 now)) (store now hash mc).entries
          (store-IsMap now hash mc m)),
  )
]
