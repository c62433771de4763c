-- ===== src/Etherman/Logs.antt =====
-- etherman/etherman.go: what the client is given. A log of the node, and what the generated bindings
-- of the contracts parse of it: the bindings, the decoding of the leaves by the abi library and the
-- signatures of the events, which are hashes, are a parameter.
use zkevm_bridge_service.Base.{ℕ, List, Option, Result}
use zkevm_bridge_service.Storage.Tables.{LeafData}

-- The events that processEvent stores; it ignores the others, the unknown ones too.
pub data Signature : Type 0 where
  update_global_exit_root update_l1_info_tree deposit claim old_claim new_wrapped_token : Signature
  verify_batches_trusted_aggregator rollup_manager_verify_batches : Signature
  update_hash_chain_value update_removal_hash_chain_value backward_let forward_let : Signature
  set_claim updated_unset_global_index_hash_chain ignored : Signature

-- types.Log.
pub record Log (D : Type 0) : Type 0 where
  pub topics : List D
  pub data_bytes : List ℕ
  pub block_number : ℕ
  pub block_hash : ℕ
  pub tx_hash : ℕ

pub record BridgeEvent : Type 0 where
  pub leaf_type : ℕ
  pub origin_network : ℕ
  pub origin_address : ℕ
  pub destination_network : ℕ
  pub destination_address : ℕ
  pub amount : ℕ
  pub metadata : List ℕ
  pub deposit_count : ℕ

-- ClaimEvent of the new and of the old bridge: `index` is the global index, or the deposit count.
pub record ClaimEvent : Type 0 where
  pub index : ℕ
  pub origin_network : ℕ
  pub origin_address : ℕ
  pub destination_address : ℕ
  pub amount : ℕ

pub record NewWrappedToken : Type 0 where
  pub origin_network : ℕ
  pub origin_token_address : ℕ
  pub wrapped_token_address : ℕ

pub record VerifyBatches (D : Type 0) : Type 0 where
  pub rollup_id : ℕ
  pub exit_root : D

-- BackwardLET and ForwardLET; the counts are uint256.
pub record LetEvent (D : Type 0) : Type 0 where
  pub previous_deposit_count : ℕ
  pub previous_root : D
  pub new_deposit_count : ℕ
  pub new_root : D
  pub new_leaves : List ℕ

pub record Bindings (D : Type 0) : Type 0 where
  pub signature : D → Signature
  pub parse_update_removal_hash_chain_value : Log D → Result D
  pub parse_update_hash_chain_value : Log D → Result D
  pub parse_update_l1_info_tree : Log D → Result (D × D)
  pub parse_bridge_event : Log D → Result BridgeEvent
  pub parse_claim_event : Log D → Result ClaimEvent
  pub parse_old_claim_event : Log D → Result ClaimEvent
  pub parse_new_wrapped_token : Log D → Result NewWrappedToken
  pub parse_verify_batches_trusted_aggregator : Log D → Result (VerifyBatches D)
  pub parse_verify_batches : Log D → Result (VerifyBatches D)
  pub parse_updated_unset_global_index_hash_chain : Log D → Result ℕ
  pub parse_set_claim : Log D → Result ℕ
  pub parse_backward_let : Log D → Result (LetEvent D)
  pub parse_forward_let : Log D → Result (LetEvent D)
  pub decode_forward_let_leaves : List ℕ → Result (List LeafData)
  pub filter_logs : ℕ → Option ℕ → Result (List (Log D))
