-- ===== src/Channels/Service.antt =====
-- channel_service.go: what a wallet asks for before it goes to its chain: a channel, a resize or a
-- close. The answer is a state that the clearnode has signed.
pub mod Resize
pub mod Close
use wthelly.Base.{
  ℕ, ◌+◌, ◌%◌, ◌^◌, String, Bool, true, false, not, ◌&&◌, ◌||◌, ◌==◌, Option, none, some, List, [],
  ◌∷◌, any, if◌then◌else◌,
}
use wthelly.Base.Int.{ℤ, pos, pos_part, neg_part}
use wthelly.Base.Word.{to_int64, add_int64}
use wthelly.Error.{Error}
use wthelly.Effect.{Effect, Result, ok, err, or_fail, and_then, check}
use wthelly.Money.{DecimalOps, Addresses}
use wthelly.Store.{Db, Channel, Allocation, UnsignedState}
use wthelly.Assets.{AssetConfig, AssetTokenConfig, get_asset_token_by_address_and_chain_id}
use wthelly.Blockchains.{BlockchainConfig, blockchain_at}
use wthelly.Channels.{check_existing_channels}

-- `nitrolite.Channel`
pub record NewChannel : Type 0 where
  pub participants : List String
  pub adjudicator : String
  pub challenge : ℕ
  pub nonce : ℕ

-- `nitrolite.Allocation` and `nitrolite.State`
pub record StateAllocation : Type 0 where
  pub destination : String
  pub token : String
  pub amount : ℤ

pub record ChainState : Type 0 where
  pub intent : ℕ
  pub version : ℤ
  pub state_data : String
  pub allocations : List StateAllocation

-- The packing of channels and states for the chain (go-ethereum's abi and crypto packages), and the
-- signer with its address. Hashes and encodings are texts here.
pub record Signing : Type 0 where
  pub signer_address : String
  pub get_channel_id : NewChannel → ℕ → Result String
  pub pack_state : String → ChainState → Result String
  pub pack_amounts : List ℤ → Result String
  pub sign : String → Result String

-- `ChannelService`, with the comparison of addresses that ignores case
pub record ChannelService : Type 0 where
  pub blockchains : List BlockchainConfig
  pub assets : List AssetConfig
  pub equal_fold : String → String → Bool
  pub signing : Signing

pub record CreateChannelParams : Type 0 where
  pub chain_id : ℕ
  pub token : String

pub record ResizeChannelParams (Decimal : Type 0) : Type 0 where
  pub channel_id : String
  pub allocate_amount : Option Decimal
  pub resize_amount : Option Decimal
  pub funds_destination : String

pub record CloseChannelParams : Type 0 where
  pub channel_id : String
  pub funds_destination : String

pub record ChannelOperationResponse (Decimal : Type 0) : Type 0 where
  pub channel_id : String
  pub channel : Option NewChannel
  pub state : UnsignedState Decimal
  pub state_signature : String

-- `Intent` of the contract
abbrev pub intent_initialize : ℕ
intent_initialize = 1

abbrev pub intent_resize : ℕ
intent_resize = 2

abbrev pub intent_finalize : ℕ
intent_finalize = 3

-- a set of signers
unfoldable pub has_signed : List String → String → Bool
has_signed signers wallet = any (λ s. s == wallet) signers

-- `big.NewInt(int64(version) + 1)`, and the `Uint64` of such a number
unfoldable pub next_version : ℕ → ℤ
next_version version = add_int64 (to_int64 version) (pos 1)

unfoldable pub uint64_of : ℤ → ℕ
uint64_of n = (pos_part n + neg_part n) % 2 ^ 64

-- the token of a channel, on the service's chains
abbrev pub token_of : ChannelService → String → ℕ → Option AssetTokenConfig
token_of service token chain_id =
    get_asset_token_by_address_and_chain_id service.equal_fold service.assets token chain_id

-- the wallet's allocation and the broker's
unfoldable pub two_allocations :
    ⦃adr : Addresses⦄ → ChannelService → String → String → ℤ → ℤ → List StateAllocation
two_allocations ⦃adr⦄ service destination token amount rest =
    record { destination = destination; token = adr.hex_address token; amount = amount }
    ∷ record {
      destination = service.signing.signer_address;
      token = adr.hex_address token;
      amount = rest;
    }
    ∷ []

module _ {Decimal : Type 0} ⦃dec : DecimalOps Decimal⦄ where
  open dec use {from_big_int}

  unfoldable pub response_allocations : List StateAllocation → List (Allocation Decimal)
  response_allocations [] = []
  response_allocations (a ∷ allocs) =
      record {
        participant = a.destination;
        token_address = a.token;
        raw_amount = from_big_int a.amount 0;
      }
      ∷ response_allocations allocs

  -- `createChannelOperationResponse`
  unfoldable pub create_channel_operation_response :
      String → ChainState → Option NewChannel → String → ChannelOperationResponse Decimal
  unfolding response_allocations uint64_of
  create_channel_operation_response channel_id state channel signature = record {
    channel_id = channel_id;
    channel = channel;
    state = record {
      intent = state.intent;
      version = uint64_of state.version;
      state_data = state.state_data;
      allocations = response_allocations state.allocations;
    };
    state_signature = signature;
  }

  -- the state, packed and signed, as an answer
  unfoldable pub signed_response :
      Signing → String → ChainState → Option NewChannel → Result (ChannelOperationResponse Decimal)
  unfolding create_channel_operation_response
  signed_response signing channel_id state channel =
      and_then (signing.pack_state channel_id state) λ packed.
        and_then (signing.sign packed)
          λ signature. ok (create_channel_operation_response channel_id state channel signature)

  module _ ⦃adr : Addresses⦄ where
    -- `RequestCreate`, for a wallet in its checksummed spelling, at the time `now` in milliseconds
    unfoldable pub request_create :
        ChannelService
        → ℕ
        → String
        → CreateChannelParams
        → List String
        → Db Decimal
        → Result (ChannelOperationResponse Decimal)
    unfolding has_signed signed_response two_allocations
    request_create service now wallet params signers db =
        and_then (check (has_signed signers wallet) Error.invalid_signature) λ _.
          and_then
            (elim (check_existing_channels wallet params.token params.chain_id db) [
              | none ↦ ok tt
              | some _ ↦ err Error.open_channel_exists
            ])
            λ (_ : Unit {0}).
              and_then
                (or_fail (token_of service params.token params.chain_id) Error.token_not_supported)
                λ _.
                  and_then
                    (or_fail (blockchain_at params.chain_id service.blockchains)
                      Error.unsupported_chain)
                    λ network.
                      let channel : NewChannel = record {
                        participants = wallet ∷ service.signing.signer_address ∷ [];
                        adjudicator = adr.hex_address network.contract_addresses.adjudicator;
                        challenge = 3600;
                        nonce = now;
                      } in
                      and_then (service.signing.get_channel_id channel params.chain_id)
                        λ channel_id.
                          signed_response service.signing channel_id
                            (record {
                              intent = intent_initialize;
                              version = pos 0;
                              state_data = "0x";
                              allocations =
                                  two_allocations service wallet params.token (pos 0) (pos 0);
                            })
                            (some channel)
