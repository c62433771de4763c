-- ===== src/Etherman/Events/Tests.antt =====
-- Four logs of two blocks, one of them ignored, and the events that readEvents makes of them.
use zkevm_bridge_service.Base.{
  ℕ, ◌+◌, ◌≡◌, refl, List, [], ◌∷◌, some, Result, ok, err, panic, node_failed, arith,
}
use zkevm_bridge_service.Bridgectrl.Tests.{Term, empty, leaf, pair, term_keccak}
use zkevm_bridge_service.Etherman.Types.{Order, BlockData, deposits_order, claims_order}
use zkevm_bridge_service.Etherman.Logs.{Signature, Log, Bindings, deposit, old_claim, ignored}
use zkevm_bridge_service.Etherman.Events.{
  Event, Orders, ordered, add_order, append_to, order_of, is_block_of, store_in, store_event,
  deposit_event_of, claim_event_of, old_claim_event, event_of, parsed, process_event, process_logs,
  get_rollup_info_by_block_range,
}
use zkevm_bridge_service.Etherman.Events.Reading.{
  Holds, events_of, get_rollup_info_by_block_range-Holds,
}
use zkevm_bridge_service.Synchronizer.Handled.{AreHandled, process_events-AreHandled}
use zkevm_bridge_service.Synchronizer.EventTests.{cfg, decode}

abbrev signatures : Term → Signature
signatures empty = deposit
signatures (leaf n) = ignored
signatures (pair a b) = old_claim

abbrev log : Term → ℕ → Log Term
log topic number = record {
  topics = topic ∷ [];
  data_bytes = [];
  block_number = number;
  block_hash = number + 100;
  tx_hash = 0;
}

abbrev logs : List (Log Term)
logs = log empty 5 ∷ log (pair empty empty) 5 ∷ log (leaf 3) 5 ∷ log empty 7 ∷ []

abbrev bindings : Bindings Term
bindings = record {
  signature = signatures;
  parse_update_removal_hash_chain_value = λ l. ok empty;
  parse_update_hash_chain_value = λ l. ok empty;
  parse_update_l1_info_tree = λ l. ok (empty, empty);
  parse_bridge_event = λ l. ok (record {
    leaf_type = 0;
    origin_network = 0;
    origin_address = 3;
    destination_network = 1;
    destination_address = 4;
    amount = 9;
    metadata = [];
    deposit_count = l.block_number;
  });
  parse_claim_event = λ l. err node_failed;
  parse_old_claim_event = λ l. ok (record {
    index = 6;
    origin_network = 0;
    origin_address = 3;
    destination_address = 4;
    amount = 9;
  });
  parse_new_wrapped_token = λ l. err node_failed;
  parse_verify_batches_trusted_aggregator = λ l. err node_failed;
  parse_verify_batches = λ l. err node_failed;
  parse_updated_unset_global_index_hash_chain = λ l. err node_failed;
  parse_set_claim = λ l. err node_failed;
  parse_backward_let = λ l. err node_failed;
  parse_forward_let = λ l. err node_failed;
  decode_forward_let_leaves = λ bytes. ok [];
  filter_logs = λ from_block to_block. ok logs;
}

shifted_injective : (a b : ℕ) → a + 100 ≡ b + 100 → a ≡ b
shifted_injective a b same = omega (arith, same)

get_rollup_info_by_block_range-Holds_example :
    Holds
      (λ n. n + 100)
      []
      (events_of bindings logs)
      (get_rollup_info_by_block_range bindings 1 (some 9))
get_rollup_info_by_block_range-Holds_example =
    get_rollup_info_by_block_range-Holds bindings (λ n. n + 100) shifted_injective 1 (some 9) logs
      refl (omega arith, refl, (omega arith, refl, (omega arith, refl, (omega arith, refl, tt))))

-- A deposit and a claim of block 5, and a deposit of block 7.
abbrev order : ℕ → Order
order pos = record { name = deposits_order; pos = pos }

abbrev orders : Orders
orders = (105, order 0 ∷ record { name = claims_order; pos = 0 } ∷ []) ∷ (107, order 0 ∷ []) ∷ []

orders_of : Result (List (BlockData Term) × Orders) → Result Orders
orders_of r = elim r [ ok s ↦ ok s.1 | err e ↦ err e | panic ↦ panic ]

read_orders : orders_of (get_rollup_info_by_block_range bindings 1 (some 9)) ≡ ok orders
unfolding orders_of get_rollup_info_by_block_range process_logs process_event parsed event_of
    deposit_event_of old_claim_event claim_event_of store_event store_in is_block_of append_to
    order_of add_order
read_orders = refl

abbrev or_default : {A : Type 0} → A → Result A → A
or_default a (ok b) = b
or_default a other = a

abbrev events : List (Event Term)
events = or_default [] (events_of bindings logs)

abbrev read : List (BlockData Term) × Orders
read = or_default ([], []) (get_rollup_info_by_block_range bindings 1 (some 9))

process_events-AreHandled_example : AreHandled cfg decode (ordered read.1 read.0) events
unfolding get_rollup_info_by_block_range process_logs process_event parsed event_of deposit_event_of
    old_claim_event claim_event_of store_event store_in is_block_of append_to order_of add_order
process_events-AreHandled_example =
    process_events-AreHandled cfg decode bindings (λ n. n + 100) shifted_injective 1 (some 9) logs
      refl (omega arith, refl, (omega arith, refl, (omega arith, refl, (omega arith, refl, tt))))
      events read.0 read.1 refl refl
