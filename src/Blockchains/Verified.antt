-- ===== src/Blockchains/Verified.antt =====
-- What the verification of the configured chains ensures.
use wthelly.Base.{
  ◌⊎◌, ℕ, ◌≡◌, ◌<◌, inl, inr, arith, String, true, false, Bool-cases, eq_ℕ, eq_iff, List, [], ◌∷◌,
  All, if◌then◌else◌,
}
use wthelly.Effect.{ok, check, check-ok, and_then-ok}
use wthelly.Effect.Rules.{ok-injective}
use wthelly.Blockchains.{
  ContractAddressesConfig, BlockchainConfig, BlockchainsConfig, Formats, default_block_step,
  is_default, address_or_default, verify_addresses, verify_blockchain, verify_blockchains,
  verify_chains,
}

module _ (fmt : Formats) where
  open fmt use {is_blockchain_name, is_contract_address}

  -- an enabled chain that can be served
  pub record IsReady (bc : BlockchainConfig) : Type 0 where
    pub named : is_blockchain_name bc.name ≡ true
    pub custody : is_contract_address bc.contract_addresses.custody ≡ true
    pub adjudicator : is_contract_address bc.contract_addresses.adjudicator ≡ true
    pub balance_checker : is_contract_address bc.contract_addresses.balance_checker ≡ true
    pub steps : 0 < bc.block_step

  abbrev pub IsVerified : BlockchainConfig → Type 0
  IsVerified bc = bc.disabled ≡ false → IsReady bc

  address-valid :
      (address default : String) {a : String}
      → is_default fmt default ≡ true
      → address_or_default fmt address default ≡ ok a
      → is_contract_address a ≡ true
  unfolding is_default address_or_default
  address-valid address default h e = ground (arith, eq_iff default "")

  verify_addresses-valid :
      (d own : ContractAddressesConfig) {c : ContractAddressesConfig}
      → is_default fmt d.custody ≡ true
      → is_default fmt d.adjudicator ≡ true
      → is_default fmt d.balance_checker ≡ true
      → verify_addresses fmt d own ≡ ok c
      → (is_contract_address c.custody ≡ true)
        × (is_contract_address c.adjudicator ≡ true)
        × (is_contract_address c.balance_checker ≡ true)
  unfolding verify_addresses
  verify_addresses-valid d own h k l e =
      let (c, p, e') = and_then-ok (address_or_default fmt own.custody d.custody) _ e in
      let (a, q, e'') = and_then-ok (address_or_default fmt own.adjudicator d.adjudicator) _ e' in
      let (b, r, made) =
        and_then-ok (address_or_default fmt own.balance_checker d.balance_checker) _ e'' in
      rw (← ok-injective made) (
        address-valid own.custody d.custody h p,
        address-valid own.adjudicator d.adjudicator k q,
        address-valid own.balance_checker d.balance_checker l r,
      )

  step-positive : (n : ℕ) → 0 < (if eq_ℕ n 0 then default_block_step else n)
  step-positive n = ground arith

  verify_blockchain-IsVerified :
      (d : ContractAddressesConfig) (bc : BlockchainConfig) {b : BlockchainConfig}
      → is_default fmt d.custody ≡ true
      → is_default fmt d.adjudicator ≡ true
      → is_default fmt d.balance_checker ≡ true
      → verify_blockchain fmt d bc ≡ ok b
      → IsVerified b
  unfolding verify_blockchain
  verify_blockchain-IsVerified d bc {b} h k l e on =
      served (Bool-cases bc.disabled) (Bool-cases (is_blockchain_name bc.name))
    where
      served :
          (bc.disabled ≡ true) ⊎ (bc.disabled ≡ false)
          → (is_blockchain_name bc.name ≡ true) ⊎ (is_blockchain_name bc.name ≡ false)
          → IsReady b
      served (inl off) _ = ground (arith)
      served (inr _) (inr bad) = ground (arith)
      served (inr running) (inl good) =
          let (c, p, made) =
            and_then-ok (verify_addresses fmt d bc.contract_addresses) _
              (rw (running, good, verify_blockchain) at e) in
          let (x, y, z) = verify_addresses-valid d bc.contract_addresses h k l p in
          rw (← ok-injective made) (record {
            named = good;
            custody = x;
            adjudicator = y;
            balance_checker = z;
            steps = step-positive bc.block_step;
          })

  verify_blockchains-IsVerified :
      (d : ContractAddressesConfig) (bcs : List BlockchainConfig) {bs : List BlockchainConfig}
      → is_default fmt d.custody ≡ true
      → is_default fmt d.adjudicator ≡ true
      → is_default fmt d.balance_checker ≡ true
      → verify_blockchains fmt d bcs ≡ ok bs
      → All IsVerified bs
  unfolding verify_blockchains
  verify_blockchains-IsVerified d [] h k l e = rw (← ok-injective e) tt
  verify_blockchains-IsVerified d (bc ∷ bcs) h k l e =
      let (b, p, e') = and_then-ok (verify_blockchain fmt d bc) _ e in
      let (bs, q, made) = and_then-ok (verify_blockchains fmt d bcs) _ e' in
      rw (← ok-injective made)
        (verify_blockchain-IsVerified d bc h k l p, verify_blockchains-IsVerified d bcs h k l q)

  -- Where the configured chains are accepted, each enabled one has a valid name, three valid addresses
  -- and a step of at least one block.
  pub chains-IsVerified :
      (cfg : BlockchainsConfig) {done : BlockchainsConfig}
      → verify_chains fmt cfg ≡ ok done
      → All IsVerified done.blockchains
  unfolding verify_chains
  chains-IsVerified cfg e =
      let d = cfg.default_contract_addresses in
      let (_, h, e₁) = and_then-ok (check (is_default fmt d.custody) _) _ e in
      let (_, k, e₂) = and_then-ok (check (is_default fmt d.adjudicator) _) _ e₁ in
      let (_, l, e₃) = and_then-ok (check (is_default fmt d.balance_checker) _) _ e₂ in
      let (bcs, verified, made) = and_then-ok (verify_blockchains fmt d cfg.blockchains) _ e₃ in
      rw (← ok-injective made) (
        verify_blockchains-IsVerified d cfg.blockchains (check-ok _ _ h) (check-ok _ _ k)
          (check-ok _ _ l) verified)
