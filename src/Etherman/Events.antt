-- ===== src/Etherman/Events.antt =====
-- etherman/etherman.go: from the logs of a range of blocks to their events, readEvents. The source
-- repeats the code that stores an event for each kind of event; here it takes the event as an
-- argument. Each handler says which event it stores.
pub mod Placed
pub mod Reading
pub mod Tests
pub mod Trace
use zkevm_bridge_service.Base.{
  ℕ, suc, ◌-◌, ◌%◌, ◌^◌, List, [], map, ◌∷◌, ◌++◌, Bool, true, false, ◌&&◌, Option, none, some,
  ◌==◌, if◌then◌else◌, length, get_elem?, u32_mod, Result, ok, err, panic, ◌>>=◌, or_panic,
}
use zkevm_bridge_service.Bridgectrl.Keccak.{Keccak}
use zkevm_bridge_service.Storage.Tables.{
  Deposit, Claim, GlobalExitRoot, SetClaim, BackwardLet, ForwardLet, TokenWrapped,
}
use zkevm_bridge_service.Etherman.{decode_global_index}
use zkevm_bridge_service.Etherman.Types.{
  VerifiedBatch, Order, BlockData, global_exit_roots_order, remove_l2_ger_order, deposits_order,
  claims_order, tokens_order, verify_batch_order, backward_let_order, unset_claim_order,
  set_claim_order, forward_let_order, other_order,
}
use zkevm_bridge_service.Etherman.Logs.{
  Signature, Log, ClaimEvent, VerifyBatches, Bindings, update_global_exit_root, update_l1_info_tree,
  deposit, claim, old_claim, new_wrapped_token, verify_batches_trusted_aggregator,
  rollup_manager_verify_batches, update_hash_chain_value, update_removal_hash_chain_value,
  backward_let, forward_let, set_claim, updated_unset_global_index_hash_chain, ignored,
}

pub data Event (D : Type 0) : Type 0 where
  ger_event removed_event : GlobalExitRoot D → Event D
  deposit_event : Deposit → Event D
  claim_event : Claim → Event D
  token_event : TokenWrapped → Event D
  batch_event : VerifiedBatch D → Event D
  unset_event set_event : SetClaim → Event D
  backward_event : BackwardLet D → Event D
  forward_event : ForwardLet D → Event D

-- The map blocksOrder.
abbrev pub Orders : Type 0
Orders = List (ℕ × List Order)

-- A missing key has no orders.
unfoldable pub order_at : ℕ → Orders → List Order
order_at hash [] = []
order_at hash ((h, os) ∷ rest) = if h == hash then os else order_at hash rest

unfoldable pub add_order : ℕ → Order → Orders → Orders
add_order hash o [] = (hash, o ∷ []) ∷ []
add_order hash o ((h, os) ∷ rest) =
    let later = add_order hash o rest in
    if h == hash then (h, os ++ o ∷ []) ∷ rest else (h, os) ∷ later

abbrev pub last_or : {A : Type 0} → A → List A → A
last_or a [] = a
last_or a (x ∷ xs) = last_or x xs

module _ {D : Type 0} where
  abbrev pub new_block : Log D → BlockData D
  new_block v_log = record {
    block = record {
      id = 0;
      block_number = v_log.block_number;
      block_hash = v_log.block_hash;
      network_id = 0;
    };
    global_exit_roots = [];
    remove_l2_ger = [];
    deposits = [];
    claims = [];
    tokens = [];
    verified_batches = [];
    unset_claims = [];
    set_claims = [];
    backward_lets = [];
    forward_lets = [];
    order = [];
  }

  unfoldable pub append_to : Event D → BlockData D → BlockData D
  append_to (ger_event e) b = record b { global_exit_roots = b.global_exit_roots ++ e ∷ [] }
  append_to (removed_event e) b = record b { remove_l2_ger = b.remove_l2_ger ++ e ∷ [] }
  append_to (deposit_event e) b = record b { deposits = b.deposits ++ e ∷ [] }
  append_to (claim_event e) b = record b { claims = b.claims ++ e ∷ [] }
  append_to (token_event e) b = record b { tokens = b.tokens ++ e ∷ [] }
  append_to (batch_event e) b = record b { verified_batches = b.verified_batches ++ e ∷ [] }
  append_to (unset_event e) b = record b { unset_claims = b.unset_claims ++ e ∷ [] }
  append_to (set_event e) b = record b { set_claims = b.set_claims ++ e ∷ [] }
  append_to (backward_event e) b = record b { backward_lets = b.backward_lets ++ e ∷ [] }
  append_to (forward_event e) b = record b { forward_lets = b.forward_lets ++ e ∷ [] }

  -- The order of the event that was appended last.
  unfoldable pub order_of : Event D → BlockData D → Order
  order_of (ger_event e) b = record {
    name = global_exit_roots_order;
    pos = length b.global_exit_roots - 1;
  }
  order_of (removed_event e) b = record {
    name = remove_l2_ger_order;
    pos = length b.remove_l2_ger - 1;
  }
  order_of (deposit_event e) b = record { name = deposits_order; pos = length b.deposits - 1 }
  order_of (claim_event e) b = record { name = claims_order; pos = length b.claims - 1 }
  order_of (token_event e) b = record { name = tokens_order; pos = length b.tokens - 1 }
  order_of (batch_event e) b = record {
    name = verify_batch_order;
    pos = length b.verified_batches - 1;
  }
  order_of (unset_event e) b = record { name = unset_claim_order; pos = length b.unset_claims - 1 }
  order_of (set_event e) b = record { name = set_claim_order; pos = length b.set_claims - 1 }
  order_of (backward_event e) b = record {
    name = backward_let_order;
    pos = length b.backward_lets - 1;
  }
  order_of (forward_event e) b = record {
    name = forward_let_order;
    pos = length b.forward_lets - 1;
  }

  unfoldable pub is_block_of : Log D → BlockData D → Bool
  is_block_of v_log b =
      b.block.block_hash == v_log.block_hash && b.block.block_number == v_log.block_number

  -- In the last block if that is the log's, or else in a new one.
  unfoldable pub store_in : Log D → Event D → List (BlockData D) → List (BlockData D)
  unfolding append_to is_block_of
  store_in v_log e [] = append_to e (new_block v_log) ∷ []
  store_in v_log e (b ∷ []) =
      if is_block_of v_log b then append_to e b ∷ [] else b ∷ append_to e (new_block v_log) ∷ []
  store_in v_log e (b ∷ b' ∷ rest) = b ∷ store_in v_log e (b' ∷ rest)

  unfoldable pub store_event :
      Log D → Event D → List (BlockData D) × Orders → List (BlockData D) × Orders
  unfolding store_in order_of add_order
  store_event v_log e (blocks, orders) =
      let stored = store_in v_log e blocks in
      let last = last_or (new_block v_log) stored in
      (stored, add_order last.block.block_hash (order_of e last) orders)

  abbrev pub plain_ger : Log D → D → List D → GlobalExitRoot D
  plain_ger v_log ger exit_roots = record {
    id = 0;
    block_id = 0;
    block_number = v_log.block_number;
    network_id = 0;
    global_exit_root = ger;
    exit_roots = exit_roots;
  }

-- The empty text that an old claim has in place of a global index: a number above all of them.
abbrev pub no_global_index : ℕ
no_global_index = 2 ^ 256

module _ {D : Type 0} ⦃k : Keccak D⦄ (bind : Bindings D) where
  unfoldable pub update_removal_hash_sovereign_chain_value : Log D → Result (Event D)
  update_removal_hash_sovereign_chain_value v_log = do
    ger ← bind.parse_update_removal_hash_chain_value v_log
    ok (removed_event (plain_ger v_log ger []))

  unfoldable pub update_hash_sovereign_chain_value : Log D → Result (Event D)
  update_hash_sovereign_chain_value v_log = do
    ger ← bind.parse_update_hash_chain_value v_log
    ok (ger_event (plain_ger v_log ger []))

  unfoldable pub process_update_global_exit_root_event : D → D → Log D → Event D
  process_update_global_exit_root_event mainnet rollup v_log =
      ger_event (plain_ger v_log (k.hash mainnet rollup) (mainnet ∷ rollup ∷ []))

  unfoldable pub update_global_exit_root_event : Log D → Result (Event D)
  unfolding process_update_global_exit_root_event
  update_global_exit_root_event v_log = do
    mainnet ← or_panic (get_elem? v_log.topics 1)
    rollup ← or_panic (get_elem? v_log.topics 2)
    ok (process_update_global_exit_root_event mainnet rollup v_log)

  unfoldable pub update_l1_info_tree_event : Log D → Result (Event D)
  unfolding process_update_global_exit_root_event
  update_l1_info_tree_event v_log = do
    (mainnet, rollup) ← bind.parse_update_l1_info_tree v_log
    ok (process_update_global_exit_root_event mainnet rollup v_log)

  unfoldable pub deposit_event_of : Log D → Result (Event D)
  deposit_event_of v_log = do
    d ← bind.parse_bridge_event v_log
    ok (
        deposit_event (record {
          leaf_type = d.leaf_type;
          original_network = d.origin_network;
          original_address = d.origin_address;
          amount = d.amount;
          destination_network = d.destination_network;
          destination_address = d.destination_address;
          deposit_count = d.deposit_count;
          block_id = 0;
          block_number = v_log.block_number;
          network_id = 0;
          tx_hash = v_log.tx_hash;
          metadata = d.metadata;
          id = 0;
          ready_for_claim = false;
        }))

  unfoldable pub claim_event_of : Log D → ClaimEvent → ℕ → ℕ → Bool → ℕ → Event D
  claim_event_of v_log c index rollup_index mainnet_flag global_index = claim_event (record {
    mainnet_flag = mainnet_flag;
    rollup_index = rollup_index;
    index = index;
    original_network = c.origin_network;
    original_address = c.origin_address;
    amount = c.amount;
    destination_address = c.destination_address;
    block_id = 0;
    block_number = v_log.block_number;
    network_id = 0;
    tx_hash = v_log.tx_hash;
    global_index = global_index;
  })

  unfoldable pub old_claim_event : Log D → Result (Event D)
  unfolding claim_event_of
  old_claim_event v_log = do
    c ← bind.parse_old_claim_event v_log
    ok (claim_event_of v_log c c.index 0 false no_global_index)

  unfoldable pub new_claim_event : Log D → Result (Event D)
  unfolding claim_event_of decode_global_index
  new_claim_event v_log = do
    c ← bind.parse_claim_event v_log
    (mainnet_flag, rollup_index, local_exit_root_index) ← decode_global_index c.index
    ok (claim_event_of v_log c local_exit_root_index rollup_index mainnet_flag c.index)

  unfoldable pub token_wrapped_event : Log D → Result (Event D)
  token_wrapped_event v_log = do
    tw ← bind.parse_new_wrapped_token v_log
    ok (
        token_event (record {
          metadata = record { name = []; symbol = []; decimals = 0 };
          original_network = tw.origin_network;
          original_token_address = tw.origin_token_address;
          wrapped_token_address = tw.wrapped_token_address;
          block_id = 0;
          block_number = v_log.block_number;
          network_id = 0;
        }))

  unfoldable pub verify_batches_of : Log D → VerifyBatches D → Event D
  verify_batches_of v_log vb = batch_event (record {
    block_number = v_log.block_number;
    rollup_id = vb.rollup_id;
    local_exit_root = vb.exit_root;
  })

  unfoldable pub verify_batches_trusted_aggregator_event : Log D → Result (Event D)
  unfolding verify_batches_of
  verify_batches_trusted_aggregator_event v_log = do
    vb ← bind.parse_verify_batches_trusted_aggregator v_log
    ok (verify_batches_of v_log vb)

  unfoldable pub verify_batches_event : Log D → Result (Event D)
  unfolding verify_batches_of
  verify_batches_event v_log = do
    vb ← bind.parse_verify_batches v_log
    ok (verify_batches_of v_log vb)

  unfoldable pub unset_claim_sovereign_event : Log D → Result (Event D)
  unfolding decode_global_index
  unset_claim_sovereign_event v_log = do
    global_index ← bind.parse_updated_unset_global_index_hash_chain v_log
    (mainnet_flag, rollup_index, local_root_index) ← decode_global_index global_index
    ok (
        unset_event (record {
          block_id = 0;
          mainnet_flag = mainnet_flag;
          rollup_index = rollup_index;
          index = local_root_index;
          global_index = global_index;
          tx_hash = 0;
        }))

  unfoldable pub set_claim_sovereign_event : Log D → Result (Event D)
  unfolding decode_global_index
  set_claim_sovereign_event v_log = do
    global_index ← bind.parse_set_claim v_log
    (mainnet_flag, rollup_index, local_root_index) ← decode_global_index global_index
    ok (
        set_event (record {
          block_id = 0;
          mainnet_flag = mainnet_flag;
          rollup_index = rollup_index;
          index = local_root_index;
          global_index = global_index;
          tx_hash = v_log.tx_hash;
        }))

  unfoldable pub backward_let_sovereign_event : Log D → Result (Event D)
  backward_let_sovereign_event v_log = do
    e ← bind.parse_backward_let v_log
    ok (
        backward_event (record {
          block_id = 0;
          previous_deposit_count = e.previous_deposit_count % u32_mod;
          previous_root = e.previous_root;
          new_deposit_count = e.new_deposit_count % u32_mod;
          new_root = e.new_root;
        }))

  unfoldable pub forward_let_sovereign_event : Log D → Result (Event D)
  forward_let_sovereign_event v_log = do
    e ← bind.parse_forward_let v_log
    new_leaves ← bind.decode_forward_let_leaves e.new_leaves
    ok (
        forward_event (record {
          block_id = 0;
          previous_deposit_count = e.previous_deposit_count % u32_mod;
          previous_root = e.previous_root;
          new_deposit_count = e.new_deposit_count % u32_mod;
          new_root = e.new_root;
          new_leaves = new_leaves;
          tx_hash = v_log.tx_hash;
        }))

  abbrev stored_event : Result (Event D) → Result (Option (Event D))
  stored_event r = do e ← r; ok (some e)

  -- The cases of processEvent: `none` for an event that it ignores.
  unfoldable pub event_of : Signature → Log D → Result (Option (Event D))
  unfolding update_removal_hash_sovereign_chain_value update_hash_sovereign_chain_value
      update_global_exit_root_event update_l1_info_tree_event deposit_event_of old_claim_event
      new_claim_event token_wrapped_event verify_batches_trusted_aggregator_event
      verify_batches_event unset_claim_sovereign_event set_claim_sovereign_event
      backward_let_sovereign_event forward_let_sovereign_event
  event_of update_global_exit_root v_log = stored_event (update_global_exit_root_event v_log)
  event_of update_l1_info_tree v_log = stored_event (update_l1_info_tree_event v_log)
  event_of deposit v_log = stored_event (deposit_event_of v_log)
  event_of claim v_log = stored_event (new_claim_event v_log)
  event_of old_claim v_log = stored_event (old_claim_event v_log)
  event_of new_wrapped_token v_log = stored_event (token_wrapped_event v_log)
  event_of verify_batches_trusted_aggregator v_log =
      stored_event (verify_batches_trusted_aggregator_event v_log)
  event_of rollup_manager_verify_batches v_log = stored_event (verify_batches_event v_log)
  event_of update_hash_chain_value v_log = stored_event (update_hash_sovereign_chain_value v_log)
  event_of update_removal_hash_chain_value v_log =
      stored_event (update_removal_hash_sovereign_chain_value v_log)
  event_of backward_let v_log = stored_event (backward_let_sovereign_event v_log)
  event_of forward_let v_log = stored_event (forward_let_sovereign_event v_log)
  event_of set_claim v_log = stored_event (set_claim_sovereign_event v_log)
  event_of updated_unset_global_index_hash_chain v_log =
      stored_event (unset_claim_sovereign_event v_log)
  event_of ignored v_log = ok none

  -- The event of a log; a log without topics is an index out of range.
  unfoldable pub parsed : Log D → Result (Option (Event D))
  unfolding event_of
  parsed v_log = do
    topic ← or_panic (get_elem? v_log.topics 0)
    event_of (bind.signature topic) v_log

  abbrev pub with_event :
      Log D → List (BlockData D) × Orders → Option (Event D) → List (BlockData D) × Orders
  with_event v_log s none = s
  with_event v_log s (some e) = store_event v_log e s

  unfoldable pub process_event :
      Log D → List (BlockData D) × Orders → Result (List (BlockData D) × Orders)
  unfolding parsed store_event
  process_event v_log s = do e ← parsed v_log; ok (with_event v_log s e)

  unfoldable pub process_logs :
      List (Log D) → List (BlockData D) × Orders → Result (List (BlockData D) × Orders)
  unfolding process_event
  process_logs [] s = ok s
  process_logs (v_log ∷ logs) s = do s' ← process_event v_log s; process_logs logs s'

  unfoldable pub get_rollup_info_by_block_range :
      ℕ → Option ℕ → Result (List (BlockData D) × Orders)
  unfolding process_logs
  get_rollup_info_by_block_range from_block to_block = do
    logs ← bind.filter_logs from_block to_block
    process_logs logs ([], [])

-- What processBlockRange looks up for each block.
unfoldable pub ordered : {D : Type 0} → Orders → List (BlockData D) → List (BlockData D)
unfolding order_at
ordered orders [] = []
ordered orders (b ∷ bs) =
    record b { order = order_at b.block.block_hash orders } ∷ ordered orders bs
