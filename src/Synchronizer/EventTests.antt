-- ===== src/Synchronizer/EventTests.antt =====
-- The events of a block at a synchronizer of L1 whose tree holds one leaf.
use zkevm_bridge_service.Base.{
  ℕ, zero, suc, ◌≤◌, subst, some-injective, ◌≡◌, refl, List, [], ◌∷◌, true, false, any, ℕ_discrete,
  Option, none, some, Result, ok, err, messy_events, arith,
}
use zkevm_bridge_service.Bridgectrl.Tree.{node, exit_root}
use zkevm_bridge_service.Bridgectrl.Keccak.{zero_at, zero_hashes, generate_zero_hashes}
use zkevm_bridge_service.Bridgectrl.Controller.{
  BridgeController, Controlled, find_id, hash_deposit, be, reorg_mt,
}
use zkevm_bridge_service.Bridgectrl.Controller.Reads.{seen}
use zkevm_bridge_service.Bridgectrl.Controller.Routing.{AreTrees, append_leaf}
use zkevm_bridge_service.Bridgectrl.MerkleTree.Insert.{IsTree}
use zkevm_bridge_service.Bridgectrl.Tests.{
  Term, Term-discrete, empty, leaf, pair, term_keccak, one_leaf, empty_db,
}
use zkevm_bridge_service.Bridgectrl.MerkleTree.{MerkleTree}
use zkevm_bridge_service.Storage.Tables.{
  Deposit, SetClaim, BackwardLet, Db, set_claim, unset_claim, backward_let,
}
use zkevm_bridge_service.Storage.Reads.{tables}
use zkevm_bridge_service.Storage.Chain.{
  DecodeToken, delete_blocks, delete_deposits, number_deposits,
}
use zkevm_bridge_service.Etherman.Types.{BlockData, Order, claims_order, deposits_order}
use zkevm_bridge_service.Synchronizer.World.{Config, World}
use zkevm_bridge_service.Synchronizer.Range.{process_block, reset_state}
use zkevm_bridge_service.Synchronizer.Events.{
  claim_of, deposit_network, process_deposit, process_set_claim_sovereign,
  process_unset_claim_sovereign, process_backward_let_sovereign,
}
use zkevm_bridge_service.Synchronizer.Reset.{is_above, reset_state-eq-ok}
use zkevm_bridge_service.Synchronizer.Lets.{
  is_from, with_event, HasRoot, IsReorged, process_backward_let_sovereign-eq-ok,
}
use zkevm_bridge_service.Synchronizer.Claims.{IsStored, process_unset_claim-process_set_claim}
use zkevm_bridge_service.Synchronizer.Rollback.{committed, IsRolledBack}
use zkevm_bridge_service.Synchronizer.Atomic.{IsAtomic, process_block-IsAtomic}
use zkevm_bridge_service.Synchronizer.Deposits.{
  row_of, process_deposit-AreTrees, process_deposit-IsRolledBack,
}

abbrev pub cfg : Config
cfg = record { network_id = 0; all_network_ids = 0 ∷ []; fuel = 3 }

abbrev pub decode : DecodeToken
decode bytes = ok (record { name = []; symbol = []; decimals = 18 })

abbrev pub bridge : BridgeController Term
bridge = record {
  exit_trees = one_leaf.tree ∷ [];
  rollups_tree = one_leaf.tree;
  merkle_tree_ids = (0, 0) ∷ [];
}

abbrev pub world : World Term
world = record {
  bridge = bridge;
  db = empty_db;
  tx = empty_db;
  tx_answers = [];
  new_l1_ger = false;
  new_l2_ger = false;
  l1_rollup_exit_root = empty;
  sent_l1 = [];
  sent_l2 = [];
}

abbrev pub deposit : Deposit
deposit = record {
  leaf_type = 0;
  original_network = 0;
  original_address = 5;
  amount = 7;
  destination_network = 1;
  destination_address = 6;
  deposit_count = 1;
  block_id = 0;
  block_number = 9;
  network_id = 0;
  tx_hash = 3;
  metadata = [];
  id = 0;
  ready_for_claim = false;
}

-- A block with one deposit, and a claim in its order that it does not hold.
abbrev pub messy_block : List Order → BlockData Term
messy_block order = record {
  block = record { id = 0; block_number = 9; block_hash = 99; network_id = 0 };
  global_exit_roots = [];
  remove_l2_ger = [];
  deposits = deposit ∷ [];
  claims = [];
  tokens = [];
  verified_batches = [];
  unset_claims = [];
  set_claims = [];
  backward_lets = [];
  forward_lets = [];
  order = order;
}

abbrev first_deposit : Order
first_deposit = record { name = deposits_order; pos = 0 }

abbrev missing_claim : Order
missing_claim = record { name = claims_order; pos = 0 }

process_block-IsAtomic_example :
    IsAtomic cfg decode world
      (messy_block (first_deposit ∷ []))
      (process_block cfg decode (messy_block (first_deposit ∷ [])) world)
process_block-IsAtomic_example =
    process_block-IsAtomic cfg decode world (messy_block (first_deposit ∷ []))

process_deposit-IsRolledBack_example :
    IsRolledBack 0 (committed world) (process_deposit cfg deposit 4 world)
process_deposit-IsRolledBack_example = process_deposit-IsRolledBack cfg deposit 4 world

abbrev leaves : ℕ → List Term
leaves id = leaf 7 ∷ []

one_leaf-IsTree : IsTree (leaf 7 ∷ []) one_leaf.tree × (one_leaf.tree.height ≤ 65)
unfolding node
one_leaf-IsTree = ((refl, refl, (λ _. refl, (λ e. absurd (omega arith), tt))), omega arith)

leaves-AreTrees : AreTrees leaves bridge
leaves-AreTrees zero t found =
    subst (λ u. IsTree (leaf 7 ∷ []) u × (u.height ≤ 65)) (some-injective found) one_leaf-IsTree
leaves-AreTrees (suc id) t found = cc

process_deposit-AreTrees_example :
    (w' : World Term) × (process_deposit cfg deposit 4 world ≡ some (ok tt, w'))
    × AreTrees (append_leaf leaves 0 (leaf 81)) w'.bridge
    × (w'.tx.deposits ≡ row_of cfg world deposit 4 ∷ [])
    × (w'.tx.roots
        ≡ record { root = exit_root 2 (leaf 7 ∷ leaf 81 ∷ []); deposit_id = 1; network = 0 } ∷ [])
    × (w'.db ≡ empty_db)
unfolding find_id hash_deposit be
process_deposit-AreTrees_example =
    process_deposit-AreTrees cfg leaves world deposit 4 0 one_leaf.tree (leaf 81) leaves-AreTrees
      refl refl refl refl (omega arith) (omega arith) refl

-- A deposit from L1 to the network 1, which has set it as claimed.
abbrev rollup_cfg : Config
rollup_cfg = record { network_id = 1; all_network_ids = []; fuel = 3 }

abbrev deposit_world : World Term
deposit_world = record world {
  tx = record empty_db {
    blocks = record { id = 4; block_number = 9; block_hash = 99; network_id = 0 } ∷ [];
    deposits = record deposit { block_id = 4; id = 1 } ∷ [];
  };
}

abbrev claimed : SetClaim
claimed = record {
  block_id = 0;
  mainnet_flag = true;
  rollup_index = 0;
  index = 1;
  global_index = 77;
  tx_hash = 8;
}

abbrev noted : SetClaim
noted = record claimed { block_id = 5 }

abbrev set_world : World Term
set_world = record deposit_world {
  tx = record deposit_world.tx {
    events = set_claim noted ∷ [];
    claims = claim_of rollup_cfg noted 20 (record deposit { block_id = 4; id = 1 }) ∷ [];
  };
}

abbrev unset_world : World Term
unset_world = record deposit_world {
  tx = record deposit_world.tx { events = set_claim noted ∷ unset_claim noted ∷ [] };
}

process_unset_claim-process_set_claim_example :
    (d : Deposit) × (set_world.tx.claims ≡ claim_of rollup_cfg noted 20 d ∷ [])
    × (1 ≡ d.destination_network)
    × IsStored noted.index (deposit_network noted) deposit_world.tx.deposits d
    × (unset_world.tx.claims ≡ [])
unfolding process_set_claim_sovereign process_unset_claim_sovereign any
process_unset_claim-process_set_claim_example =
    process_unset_claim-process_set_claim rollup_cfg claimed claimed 5 5 20 deposit_world set_world
      unset_world refl refl refl refl

-- What went into the tree and the transaction is there after the error, and nothing was stored.
after_messy : Option (Result (Unit {0}) × ℕ × List Deposit)
after_messy =
    elim (process_block cfg decode (messy_block (first_deposit ∷ missing_claim ∷ [])) world) [
      | none ↦ none
      | some (r, w) ↦
          some (r, elim w.bridge.exit_trees [ [] ↦ 0 | t ∷ ts ↦ t.count ], w.db.deposits)
    ]

after_messy_lem : after_messy ≡ some (err messy_events, 2, [])
unfolding after_messy process_block zero_at zero_hashes generate_zero_hashes
after_messy_lem = refl

-- The synchronizer of L1 goes back before its only block, whose deposit was the only leaf.
abbrev stored_db : Db Term
stored_db = record deposit_world.tx {
  deposits = record deposit { block_id = 4; id = 1; deposit_count = 0 } ∷ [];
  roots = record { root = exit_root 2 (leaf 7 ∷ []); deposit_id = 1; network = 0 } ∷ [];
}

abbrev empty_tree : MerkleTree Term
empty_tree = record one_leaf.tree { count = 0; siblings = empty ∷ pair empty empty ∷ [] }

abbrev reset_world : World Term
reset_world = record world { bridge = record bridge { exit_trees = empty_tree ∷ [] } }

reset_state-eq-ok_example :
    (empty_db ≡ delete_blocks (is_above 5 0) (tables stored_db))
    × (any (is_above 5 0) empty_db.blocks ≡ false)
    × (c : Controlled Term) × (c' : Controlled Term) × (reorg_mt (number_deposits 0 5 empty_db) 0 c
        ≡ (ok tt, c'))
    × (seen c ≡ empty_db)
    × (c'.bridge ≡ reset_world.bridge)
unfolding reset_state zero_at zero_hashes generate_zero_hashes
reset_state-eq-ok_example =
    reset_state-eq-ok cfg decode 5 (record world { db = stored_db }) reset_world refl

-- A sovereign chain whose only deposit is taken back.
abbrev left : BackwardLet Term
left = record {
  block_id = 0;
  previous_deposit_count = 1;
  previous_root = exit_root 2 (leaf 7 ∷ []);
  new_deposit_count = 0;
  new_root = pair (pair empty empty) (pair empty empty);
}

abbrev sovereign_tree : MerkleTree Term
sovereign_tree = record one_leaf.tree { network_id = 1 }

abbrev sovereign_bridge : List (MerkleTree Term) → BridgeController Term
sovereign_bridge trees = record bridge { exit_trees = trees; merkle_tree_ids = (1, 0) ∷ [] }

abbrev sovereign_world : World Term
sovereign_world = record world {
  bridge = sovereign_bridge (sovereign_tree ∷ []);
  tx = record stored_db {
    blocks = record { id = 4; block_number = 9; block_hash = 99; network_id = 1 } ∷ [];
    deposits = record deposit { block_id = 4; id = 1; deposit_count = 0; network_id = 1 } ∷ [];
    roots = record { root = exit_root 2 (leaf 7 ∷ []); deposit_id = 1; network = 1 } ∷ [];
  };
}

abbrev left_world : World Term
left_world = record sovereign_world {
  bridge = sovereign_bridge (record empty_tree { network_id = 1 } ∷ []);
  tx = record sovereign_world.tx {
    deposits = [];
    roots = [];
    events = backward_let (record left { block_id = 6 }) ∷ [];
  };
}

process_backward_let_sovereign-eq-ok_example :
    (number_deposits 1 9 sovereign_world.tx ≡ 1)
    × (cut : Db Term) × (cut ≡ delete_deposits (is_from 0 1) sovereign_world.tx)
    × (left_world.tx ≡ with_event (backward_let (record left { block_id = 6 })) cut)
    × (number_deposits 1 9 cut ≡ 0)
    × (read : BridgeController Term) × (turned : BridgeController Term) × HasRoot 1
        sovereign_world.tx sovereign_world.bridge read left.previous_root
    × IsReorged 1 0 cut read turned
    × HasRoot 1 cut turned left_world.bridge left.new_root
unfolding process_backward_let_sovereign zero_at zero_hashes generate_zero_hashes exit_root node
    Term-discrete ℕ_discrete
process_backward_let_sovereign-eq-ok_example =
    process_backward_let_sovereign-eq-ok rollup_cfg left 6 9 sovereign_world left_world refl
