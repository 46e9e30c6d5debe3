-- ===== src/UserTags.antt =====
-- tag.go: the tag that a wallet gets when it first logs in. The tags that
-- `GenerateRandomAlphanumericTag` draws are a parameter, one for each try.
pub mod Unique
use wthelly.Base.{
  String, Bool, not, ◌||◌, ◌==◌, Option, none, some, List, [], ◌∷◌, any, find, if◌then◌else◌,
}
use wthelly.Error.{Error}
use wthelly.Effect.{Effect, Result, ok, err}
use wthelly.Store.{State, Db, UserTag}

-- `tx.Create` is refused: the wallet is the primary key, and the tag is unique
unfoldable pub is_taken : UserTag → List UserTag → Bool
is_taken model rows = any (λ u. (u.wallet == model.wallet) || (u.tag == model.tag)) rows

-- The tries of the loop, of which there are as many as tags drawn. In a store that aborts a transaction
-- when a statement fails, as PostgreSQL does, no try after a refused one can succeed.
unfoldable pub try_tags :
    Bool → String → List String → List UserTag → Result (UserTag × List UserTag)
unfolding is_taken
try_tags aborts wallet [] rows = err Error.tag_not_generated
try_tags aborts wallet (tag ∷ tags) rows =
    let model : UserTag = record { wallet = wallet; tag = tag } in
    let rest = try_tags aborts wallet tags rows in
    if not (is_taken model rows)
    then ok (model, model ∷ rows)
    else if aborts
    then err Error.tag_not_generated
    else rest

module _ {Decimal : Type 0} where
  abbrev pub with_tags : List UserTag → State Decimal → State Decimal
  with_tags rows s = record s { db = record s.db { user_tags = rows } }

  -- the result of the tries: the new row is committed, or nothing
  unfoldable pub commit_tag :
      Result (UserTag × List UserTag) → State Decimal → Result UserTag × State Decimal
  commit_tag (err e) s = (err e, s)
  commit_tag (ok (model, rows)) s = (ok model, with_tags rows s)

  -- `GenerateOrRetrieveUserTag`
  unfoldable pub generate_or_retrieve_user_tag :
      Bool → List String → String → Effect (State Decimal) UserTag
  unfolding try_tags commit_tag
  generate_or_retrieve_user_tag aborts drawn wallet s =
      elim (find (λ u. u.wallet == wallet) s.db.user_tags) [
        | none ↦ commit_tag (try_tags aborts wallet drawn s.db.user_tags) s
        | some u ↦
            if not (u.tag == "")
            then (ok u, s)
            else commit_tag (try_tags aborts wallet drawn s.db.user_tags) s
      ]
