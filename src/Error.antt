-- ===== src/Error.antt =====
-- The errors of the modelled code, one for each message, without the values that it quotes.
pub data Error : Type 0 where
  -- a store that refuses a row whose unique column is taken
  duplicate_key : Error
  record_not_found : Error
  unsupported_driver : Error
  -- an index out of range
  panic : Error
  negative_allocation non_participant decreased_allocation increased_allocation : Error
  invalid_deposit_amount no_deposits no_withdrawals depositor_signature_required : Error
  insufficient_unified_balance insufficient_funds missing_signature : Error
  challenged_channels non_zero_channel_allocation : Error
  session_key_expired no_allowance unparsable_allowance asset_not_allowed : Error
  insufficient_allowance application_mismatch : Error
  unsupported_protocol too_few_participants weights_length zero_nonce negative_weight : Error
  quorum_too_high unknown_participant quorum_not_reached : Error
  session_not_found incorrect_version unsupported_parameters unsupported_intent : Error
  missing_parameters asset_not_deposited not_fully_redistributed unknown_asset : Error
  expiration_not_in_future key_exists_and_expired signer_used_for_another_wallet : Error
  invalid_allocation : Error
  missing_destination invalid_destination empty_allocations transfer_to_self : Error
  already_processed missing_participant_signature invalid_signature unrecoverable : Error
  empty_wallet empty_tag no_wallet_for_tag : Error
  missing_session_key not_an_active_session_key active_session_key_invalid : Error
  insufficient_permissions : Error
  nil_connection connection_exists unknown_connection : Error
  event_already_processed unsupported_participants non_zero_broker_amount : Error
  invalid_challenge_period unsupported_adjudicator not_the_broker open_channel_exists : Error
  invalid_deposit_event token_not_supported negative_channel_balance : Error
  unparsable_event unsupported_chain resize_ongoing channel_not_open no_op_resize : Error
  missing_token_address invalid_token_address missing_asset_symbol : Error
  missing_contract_address invalid_contract_address invalid_blockchain_name : Error
  missing_blockchain_rpc unexpected_chain_id : Error
  negative_channel_amount negative_balance unsigned_request pack_failed sign_failed : Error
  too_many_challenges challenge_not_found challenge_address_mismatch challenge_expired : Error
  challenge_already_used invalid_claims expired_jwt invalid_jwt unsigned_challenge : Error
  tag_not_generated unsupported_allowance negative_allowance authentication_required : Error
  session_expired invalid_timestamp jwt_not_signed : Error
  invalid_challenge invalid_challenge_or_signature tag_not_stored : Error
  invalid_authentication_method : Error
  unknown_method test_mode_disabled no_response : Error
