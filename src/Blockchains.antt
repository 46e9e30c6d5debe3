-- ===== src/Blockchains.antt =====
-- blockchain_config.go: the chains that the clearnode serves. The file is decoded by the YAML package;
-- the regular expressions of names and addresses, and the answer of a chain's node, are parameters.
pub mod Verified
use wthelly.Base.{
  ℕ, String, Bool, true, false, not, ◌&&◌, ◌==◌, eq_ℕ, Option, none, some, List, [], ◌∷◌, select,
  find, if◌then◌else◌,
}
use wthelly.Error.{Error}
use wthelly.Effect.{Result, ok, err, check, and_then}

pub record ContractAddressesConfig : Type 0 where
  pub custody : String
  pub adjudicator : String
  pub balance_checker : String

pub record BlockchainConfig : Type 0 where
  pub name : String
  pub id : ℕ
  pub disabled : Bool
  pub blockchain_rpc : String
  pub block_step : ℕ
  pub contract_addresses : ContractAddressesConfig

pub record BlockchainsConfig : Type 0 where
  pub default_contract_addresses : ContractAddressesConfig
  pub blockchains : List BlockchainConfig

-- `defaultBlockStep`
abbrev pub default_block_step : ℕ
default_block_step = 10000

-- `blockchainNameRegex` and `contractAddressRegex`
pub record Formats : Type 0 where
  pub is_blockchain_name : String → Bool
  pub is_contract_address : String → Bool

module _ (fmt : Formats) where
  open fmt use {is_blockchain_name, is_contract_address}

  -- a default address is empty or valid
  unfoldable pub is_default : String → Bool
  is_default address = if address == "" then true else is_contract_address address

  -- the address of a contract on a chain: its own, or the default
  unfoldable pub address_or_default : String → String → Result String
  address_or_default address default =
      if address == ""
      then if default == "" then err Error.missing_contract_address else ok default
      else if is_contract_address address
      then ok address
      else err Error.invalid_contract_address

  -- the contracts of one chain
  unfoldable pub verify_addresses :
      ContractAddressesConfig → ContractAddressesConfig → Result ContractAddressesConfig
  unfolding address_or_default
  verify_addresses defaults own =
      and_then (address_or_default own.custody defaults.custody) λ custody.
        and_then (address_or_default own.adjudicator defaults.adjudicator) λ adjudicator.
          and_then (address_or_default own.balance_checker defaults.balance_checker)
            λ balance_checker. ok (record {
              custody = custody;
              adjudicator = adjudicator;
              balance_checker = balance_checker;
            })

  -- the checks and the defaults of one chain
  unfoldable pub verify_blockchain :
      ContractAddressesConfig → BlockchainConfig → Result BlockchainConfig
  unfolding verify_addresses
  verify_blockchain defaults bc =
      if bc.disabled
      then ok bc
      else if not (is_blockchain_name bc.name)
      then err Error.invalid_blockchain_name
      else and_then (verify_addresses defaults bc.contract_addresses) λ addresses. ok (record bc {
        block_step = if eq_ℕ bc.block_step 0 then default_block_step else bc.block_step;
        contract_addresses = addresses;
      })

  unfoldable pub verify_blockchains :
      ContractAddressesConfig → List BlockchainConfig → Result (List BlockchainConfig)
  unfolding verify_blockchain
  verify_blockchains defaults [] = ok []
  verify_blockchains defaults (bc ∷ bcs) =
      let rest = verify_blockchains defaults bcs in
      and_then (verify_blockchain defaults bc) λ b. and_then rest λ bs. ok (b ∷ bs)

  -- `verifyVariables`: the configuration with its defaults, or the first error
  unfoldable pub verify_chains : BlockchainsConfig → Result BlockchainsConfig
  unfolding verify_blockchains is_default
  verify_chains cfg =
      let d = cfg.default_contract_addresses in
      and_then (check (is_default d.custody) Error.invalid_contract_address) λ _.
        and_then (check (is_default d.adjudicator) Error.invalid_contract_address) λ _.
          and_then (check (is_default d.balance_checker) Error.invalid_contract_address) λ _.
            and_then (verify_blockchains d cfg.blockchains)
              λ bcs. ok (record cfg { blockchains = bcs })

-- `verifyRPCs`: the environment gives each enabled chain a node, which answers with the chain's id. The
-- arguments are the lookup by the chain's name and the id, in 32 bits, that a node answers.
unfoldable pub verify_rpcs :
    (String → String) → (String → Result ℕ) → List BlockchainConfig → Result (List BlockchainConfig)
verify_rpcs rpc_of chain_id_at [] = ok []
verify_rpcs rpc_of chain_id_at (bc ∷ bcs) =
    let rest = verify_rpcs rpc_of chain_id_at bcs in
    if bc.disabled
    then and_then rest (λ bs. ok (bc ∷ bs))
    else and_then (check (not (rpc_of bc.name == "")) Error.missing_blockchain_rpc) λ _.
      and_then (chain_id_at (rpc_of bc.name)) λ id.
        and_then (check (eq_ℕ id bc.id) Error.unexpected_chain_id)
          λ _. and_then rest λ bs. ok (record bc { blockchain_rpc = rpc_of bc.name } ∷ bs)

-- `getEnabled`: the enabled chains by their id, of which a later one replaces an earlier one
unfoldable pub get_enabled : List BlockchainConfig → List BlockchainConfig → List BlockchainConfig
get_enabled enabled [] = enabled
get_enabled enabled (bc ∷ bcs) =
    get_enabled (if bc.disabled then enabled else bc ∷ select (λ b. not (eq_ℕ b.id bc.id)) enabled)
      bcs

-- a chain in the map that it returns
unfoldable pub blockchain_at : ℕ → List BlockchainConfig → Option BlockchainConfig
blockchain_at id = find λ b. eq_ℕ b.id id
