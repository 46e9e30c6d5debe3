-- ===== src/Assets.antt =====
-- asset_config.go: the assets that the clearnode supports and their tokens on each chain. The file is
-- decoded by the YAML package; `strings.EqualFold` and the regular expression of contract addresses
-- are parameters.
pub mod Lookup
use wthelly.Base.{
  ℕ, String, Bool, true, not, ◌&&◌, ◌==◌, eq_ℕ, Option, none, some, List, [], ◌∷◌, ◌++◌, map,
  select, find, if◌then◌else◌,
}
use wthelly.Error.{Error}
use wthelly.Effect.{Result, ok, err}

pub record TokenConfig : Type 0 where
  pub name : String
  pub symbol : String
  pub blockchain_id : ℕ
  pub disabled : Bool
  pub address : String
  pub decimals : ℕ

pub record AssetConfig : Type 0 where
  pub name : String
  pub symbol : String
  pub disabled : Bool
  pub tokens : List TokenConfig

-- `AssetTokenConfig`, without the flag that no lookup sets
pub record AssetTokenConfig : Type 0 where
  pub name : String
  pub symbol : String
  pub token : TokenConfig

-- the checks and the defaults of one enabled token
unfoldable pub verify_token : (String → Bool) → AssetConfig → TokenConfig → Result TokenConfig
verify_token is_contract_address asset token =
    if token.disabled
    then ok token
    else if token.address == ""
    then err Error.missing_token_address
    else if is_contract_address token.address
    then ok (record token {
      symbol = if token.symbol == "" then asset.symbol else token.symbol;
      name = if token.name == "" then asset.name else token.name;
    })
    else err Error.invalid_token_address

unfoldable pub verify_tokens :
    (String → Bool) → AssetConfig → List TokenConfig → Result (List TokenConfig)
unfolding verify_token
verify_tokens is_contract_address asset [] = ok []
verify_tokens is_contract_address asset (token ∷ tokens) =
    let rest = verify_tokens is_contract_address asset tokens in
    elim (verify_token is_contract_address asset token) [
      | err e ↦ err e
      | ok t ↦ elim rest [ err e ↦ err e | ok ts ↦ ok (t ∷ ts) ]
    ]

-- the checks and the defaults of one asset
unfoldable pub verify_asset : (String → Bool) → AssetConfig → Result AssetConfig
unfolding verify_tokens
verify_asset is_contract_address asset =
    if asset.disabled
    then ok asset
    else if asset.symbol == ""
    then err Error.missing_asset_symbol
    else let named : AssetConfig = record asset {
      name = if asset.name == "" then asset.symbol else asset.name;
    } in
      elim (verify_tokens is_contract_address named asset.tokens) [
        | err e ↦ err e
        | ok tokens ↦ ok (record named { tokens = tokens })
      ]

-- `verifyVariables`: the configuration with its defaults, or the first error
unfoldable pub verify_variables : (String → Bool) → List AssetConfig → Result (List AssetConfig)
unfolding verify_asset
verify_variables is_contract_address [] = ok []
verify_variables is_contract_address (asset ∷ assets) =
    let rest = verify_variables is_contract_address assets in
    elim (verify_asset is_contract_address asset) [
      | err e ↦ err e
      | ok a ↦ elim rest [ err e ↦ err e | ok bs ↦ ok (a ∷ bs) ]
    ]

unfoldable pub enabled_on : ℕ → TokenConfig → Bool
enabled_on chain_id token = not token.disabled && eq_ℕ token.blockchain_id chain_id

unfoldable pub with_asset : AssetConfig → TokenConfig → AssetTokenConfig
with_asset asset token = record { name = asset.name; symbol = asset.symbol; token = token }

-- `GetAssetTokensByChainID`
unfoldable pub get_asset_tokens_by_chain_id : List AssetConfig → ℕ → List AssetTokenConfig
unfolding enabled_on with_asset
get_asset_tokens_by_chain_id [] chain_id = []
get_asset_tokens_by_chain_id (asset ∷ assets) chain_id =
    let rest = get_asset_tokens_by_chain_id assets chain_id in
    if asset.disabled
    then rest
    else map (with_asset asset) (select (enabled_on chain_id) asset.tokens) ++ rest

-- `GetAssetTokenByAddressAndChainID`
unfoldable pub get_asset_token_by_address_and_chain_id :
    (String → String → Bool) → List AssetConfig → String → ℕ → Option AssetTokenConfig
unfolding with_asset
get_asset_token_by_address_and_chain_id equal_fold [] token_address chain_id = none
get_asset_token_by_address_and_chain_id equal_fold (asset ∷ assets) token_address chain_id =
    let rest = get_asset_token_by_address_and_chain_id equal_fold assets token_address chain_id in
    if asset.disabled
    then rest
    else elim (find
        (λ t. not t.disabled && eq_ℕ t.blockchain_id chain_id && equal_fold t.address token_address)
        asset.tokens) [ none ↦ rest | some token ↦ some (with_asset asset token) ]
