-- ===== src/Assets/Lookup.antt =====
-- The two lookups of tokens agree: looking up one token is searching the tokens of its chain.
use wthelly.Base.{
  ℕ, ◌≡◌, refl, String, Bool, Bool-cases, inl, inr, ◌&&◌, Option, none, some, List, [], ◌∷◌, ◌++◌,
  map, select, find,
}
use wthelly.Assets.{
  AssetConfig, TokenConfig, AssetTokenConfig, enabled_on, with_asset, get_asset_tokens_by_chain_id,
  get_asset_token_by_address_and_chain_id,
}

or_else : {A : Type 0} → Option A → Option A → Option A
or_else none b = b
or_else (some a) b = some a

find-append :
    {A : Type 0} (p : A → Bool) (xs ys : List A)
    → find p (xs ++ ys) ≡ or_else (find p xs) (find p ys)
unfolding find or_else
find-append p [] ys = refl
find-append p (x ∷ xs) ys = elim (Bool-cases (p x)) [
  | inl hit ↦ rw hit refl
  | inr miss ↦ rw miss (find-append p xs ys)
]

module _ (equal_fold : String → String → Bool) (token_address : String) (chain_id : ℕ) where
  abbrev pub has_address : AssetTokenConfig → Bool
  has_address c = equal_fold c.token.address token_address

  in_asset : AssetConfig → Option TokenConfig → Option AssetTokenConfig
  in_asset asset none = none
  in_asset asset (some t) = some (with_asset asset t)

  find-asset :
      (asset : AssetConfig) (tokens : List TokenConfig)
      → find has_address (map (with_asset asset) (select (enabled_on chain_id) tokens))
        ≡ in_asset asset
            (find (λ t. enabled_on chain_id t && equal_fold t.address token_address) tokens)
  unfolding find select with_asset in_asset
  find-asset asset [] = refl
  find-asset asset (t ∷ ts) = elim (Bool-cases (enabled_on chain_id t)) [
    | inr off ↦ rw off (find-asset asset ts)
    | inl enabled ↦ elim (Bool-cases (equal_fold t.address token_address)) [
      | inl hit ↦ rw (enabled, hit) refl
      | inr miss ↦ rw (enabled, miss) (find-asset asset ts)
    ]
  ]

  found_or :
      (asset : AssetConfig) (o : Option TokenConfig) (r : Option AssetTokenConfig)
      → elim o [ none ↦ r | some token ↦ some (with_asset asset token) ]
        ≡ or_else (in_asset asset o) r
  unfolding or_else in_asset
  found_or asset none r = refl
  found_or asset (some t) r = refl

  -- Looking up a token by its address and chain finds the first of the chain's enabled tokens, in the
  -- order of the configuration, that has the address.
  pub get_asset_token-find :
      (assets : List AssetConfig)
      → get_asset_token_by_address_and_chain_id equal_fold assets token_address chain_id
        ≡ find has_address (get_asset_tokens_by_chain_id assets chain_id)
  unfolding enabled_on find get_asset_token_by_address_and_chain_id get_asset_tokens_by_chain_id
      or_else in_asset
  get_asset_token-find [] = refl
  get_asset_token-find (asset ∷ assets) = elim (Bool-cases asset.disabled) [
    | inl off ↦ rw off (get_asset_token-find assets)
    | inr enabled ↦
        rw (enabled, find-append, find-asset asset asset.tokens, ← get_asset_token-find assets)
          (found_or asset (find _ asset.tokens) _)
  ]
