-- ===== src/UserTags/Unique.antt =====
-- A tag names one wallet, and a wallet has one tag.
use mathlib.Core.Path.{subst}
use wthelly.Base.{
  ◌≡◌, refl, sym, inl, inr, String, Bool, false, Bool-cases, Option-cases, ◌==◌, eq_iff, eq_refl,
  Option, some, List, [], ◌∷◌, find,
}
use wthelly.Effect.{Result, ok, err}
use wthelly.Effect.Rules.{Ensures}
use wthelly.Store.{State, UserTag}
use wthelly.UserTags.{is_taken, try_tags, with_tags, commit_tag, generate_or_retrieve_user_tag}

-- No two rows share a wallet or a tag.
abbrev pub IsDirectory : List UserTag → Type 0
IsDirectory [] = Unit
IsDirectory (u ∷ rows) = (is_taken u rows ≡ false) × IsDirectory rows

abbrev pub tag_of : String → List UserTag → Option UserTag
tag_of wallet = find (λ u. u.wallet == wallet)

-- A successful try adds one row, which is new.
try_tags-ok :
    (aborts : Bool) (wallet : String) (drawn : List String) (rows : List UserTag)
    {r : UserTag × List UserTag}
    → try_tags aborts wallet drawn rows ≡ ok r
    → (r.0.wallet ≡ wallet) × (r.1 ≡ r.0 ∷ rows) × (is_taken r.0 rows ≡ false)
unfolding try_tags
try_tags-ok aborts wallet [] rows h = cc
try_tags-ok aborts wallet (tag ∷ drawn) rows {r} h =
    elim (Bool-cases (is_taken (record { wallet = wallet; tag = tag }) rows)) [
      | inr free ↦
          let made : (
            record { wallet = wallet; tag = tag },
            record { wallet = wallet; tag = tag } ∷ rows,
          )
              ≡ r =
            ok_value (rw (free, try_tags) at h) in
          subst (λ x. (x.0.wallet ≡ wallet) × (x.1 ≡ x.0 ∷ rows) × (is_taken x.0 rows ≡ false)) made
            (refl, refl, free)
      | inl taken ↦ elim (Bool-cases aborts) [
        | inl stop ↦ cc (rw (taken, stop, try_tags) at h)
        | inr go ↦ try_tags-ok aborts wallet drawn rows (rw (taken, go, try_tags) at h)
      ]
    ]
  where
    ok_value : {x y : UserTag × List UserTag} → ok x ≡ ok y → x ≡ y
    ok_value e = cc

tag_of-wallet :
    (wallet : String) (rows : List UserTag) {u : UserTag}
    → tag_of wallet rows ≡ some u
    → u.wallet ≡ wallet
unfolding find
tag_of-wallet wallet [] h = cc
tag_of-wallet wallet (r ∷ rows) {u} h = elim (Bool-cases (r.wallet == wallet)) [
  | inl hit ↦ let first : r ≡ u = cc (rw hit at h) in rw (← first) ((eq_iff r.wallet wallet).0 hit)
  | inr miss ↦ tag_of-wallet wallet rows (rw miss at h)
]

ok_tag : {x y : UserTag} → ok x ≡ ok y → x ≡ y
ok_tag e = cc

module _ {Decimal : Type 0} where
  -- what a wallet that got its tag can rely on
  abbrev pub IsTagged : String → State Decimal → UserTag → State Decimal → Type 0
  IsTagged wallet s u t =
      (u.wallet ≡ wallet)
      × (tag_of wallet t.db.user_tags ≡ some u)
      × IsDirectory t.db.user_tags
      × ((other : String)
          → (wallet == other) ≡ false
          → tag_of other t.db.user_tags ≡ tag_of other s.db.user_tags)

  added_row :
      {wallet : String} (m : UserTag) (s : State Decimal)
      → IsDirectory s.db.user_tags
      → m.wallet ≡ wallet
      → is_taken m s.db.user_tags ≡ false
      → IsTagged wallet s m (with_tags (m ∷ s.db.user_tags) s)
  unfolding find
  added_row {wallet} m s d mine free =
      subst (λ w. IsTagged w s m (with_tags (m ∷ s.db.user_tags) s)) mine
        (refl, rw (eq_refl m.wallet) refl, (free, d), (λ other miss. rw miss refl))

  committed :
      (aborts : Bool) (drawn : List String) (wallet : String) (s : State Decimal)
      (r : Result (UserTag × List UserTag)) {u : UserTag}
      → IsDirectory s.db.user_tags
      → try_tags aborts wallet drawn s.db.user_tags ≡ r
      → (commit_tag r s).0 ≡ ok u
      → IsTagged wallet s u (commit_tag r s).1
  unfolding commit_tag
  committed aborts drawn wallet s (err e) d h done = cc
  committed aborts drawn wallet s (ok (m, rows)) {u} d h done =
      let (mine, added, free) = try_tags-ok aborts wallet drawn s.db.user_tags h in
      subst (λ x. IsTagged wallet s x (with_tags rows s)) (ok_tag done)
        (subst (λ l. IsTagged wallet s m (with_tags l s)) (sym added) (added_row m s d mine free))

  -- If the call gives a wallet a tag, it is the wallet's: in the table that is left, in which no two rows
  -- share a wallet or a tag if that was so before, the wallet has this tag, and every other wallet has the
  -- tag that it had, or none. It holds in a store that aborts a transaction when a statement fails and in
  -- one that does not.
  pub generate_or_retrieve_user_tag-IsTagged :
      (aborts : Bool) (drawn : List String) (wallet : String) (s : State Decimal)
      → IsDirectory s.db.user_tags
      → Ensures s (generate_or_retrieve_user_tag aborts drawn wallet) (IsTagged wallet s)
  unfolding generate_or_retrieve_user_tag
  generate_or_retrieve_user_tag-IsTagged aborts drawn wallet s d = record {
    at = λ u done. elim (Option-cases (tag_of wallet s.db.user_tags)) [
      | inl absent ↦
          rw (absent, generate_or_retrieve_user_tag)
            (committed aborts drawn wallet s (try_tags aborts wallet drawn s.db.user_tags) d refl
              (rw (absent, generate_or_retrieve_user_tag) at done))
      | inr (old, there) ↦ elim (Bool-cases (old.tag == "")) [
        | inl empty ↦
            rw (there, generate_or_retrieve_user_tag, empty)
              (committed aborts drawn wallet s (try_tags aborts wallet drawn s.db.user_tags) d refl
                (rw (there, generate_or_retrieve_user_tag, empty) at done))
        | inr named ↦
            let same : old ≡ u =
              ok_tag (rw (there, generate_or_retrieve_user_tag, named) at done) in
            rw (there, generate_or_retrieve_user_tag, named)
              (
                rw (← same) (tag_of-wallet wallet s.db.user_tags there),
                rw (← same) there,
                d,
                (λ other miss. refl),
              )
      ]
    ];
  }
