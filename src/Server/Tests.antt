-- ===== src/Server/Tests.antt =====
-- The theorems on the proofs, at a service with a tree of three deposits and one rollup.
use zkevm_bridge_service.Base.{
  ◌≡◌, inl, refl, List, [], ◌∷◌, true, false, ℕ_discrete, Option, none, some, some-injective,
  get_elem?, ok, arith,
}
use zkevm_bridge_service.Bridgectrl.Keccak.{
  zero_at, zero_hashes, generate_zero_hashes, zero_hashes_loop,
}
use zkevm_bridge_service.Bridgectrl.Levels.{calculate_root}
use zkevm_bridge_service.Bridgectrl.Tests.{
  Term, empty, leaf, pair, Term-discrete, term_keccak, term_keccak-IsCollisionFree, empty_db,
}
use zkevm_bridge_service.Storage.Tables.{Deposit, GlobalExitRoot, Node}
use zkevm_bridge_service.Bridgectrl.Tree.{node, exit_root}
use zkevm_bridge_service.Bridgectrl.Controller.{be, hash_deposit}
use zkevm_bridge_service.Server.{
  NodeCache, Service, ExitRoots, get_proof, rollup_proof, empty_proof, get_claim_proof,
  get_claim_proof_by_ger,
}
use zkevm_bridge_service.Server.Paths.{IsSound, get_proof-calculate_root}
use zkevm_bridge_service.Server.Claims.{
  IsTreeOf, Proves, rollup_proof-calculate_root, get_claim_proof-check,
  get_claim_proof_by_ger-check,
}

abbrev Entry : Type 0
Entry = Option (Term × (Term × Term))

abbrev HoldsEntry : Entry → Term → Term × Term → Type 0
HoldsEntry none key v = ⊥
HoldsEntry (some (k, w)) key v = (k ≡ key) × (w ≡ v)

abbrev found : {k key : Term} → Dec (k ≡ key) → Term × Term → Option (Term × Term)
found (yes _) w = some w
found (no _) w = none

abbrev get_entry : Term → Entry → Option (Term × Term)
get_entry key none = none
get_entry key (some (k, w)) = found (Term-discrete k key) w

found-same :
    {k key : Term} (d : Dec (k ≡ key)) (w v : Term × Term)
    → found d w ≡ some v
    → (k ≡ key) × (w ≡ v)
found-same (yes e) w v h = (e, some-injective h)
found-same (no _) w v h = cc

get_entry-HoldsEntry :
    (key : Term) (c : Entry) (v : Term × Term) → get_entry key c ≡ some v → HoldsEntry c key v
get_entry-HoldsEntry key none v h = cc
get_entry-HoldsEntry key (some (k, w)) v h = found-same (Term-discrete k key) w v h

-- A cache of one node.
abbrev one_node : NodeCache Term
one_node = record {
  Cache = Entry;
  Holds = HoldsEntry;
  get = get_entry;
  touch = λ key c. c;
  add = λ key v c. some (key, v);
  get-Holds = get_entry-HoldsEntry;
  touch-Holds = λ key c key' v h. h;
  add-Holds = λ key v c key' v' h. inl h;
}

abbrev left_pair : Term
left_pair = pair (leaf 7) (leaf 81)

abbrev right_pair : Term
right_pair = pair (leaf 9) empty

abbrev deposits_root : Term
deposits_root = pair left_pair right_pair

abbrev rollups_root : Term
rollups_root = pair (pair deposits_root empty) (pair empty empty)

abbrev row : Term → Term → Node Term
row l r = record { key = pair l r; left = l; right = r; deposit_id = 1 }

abbrev service : Service one_node
service = record {
  nodes = none;
  db = record empty_db {
    rht = row left_pair right_pair ∷ row (leaf 7) (leaf 81) ∷ row (leaf 9) empty ∷ [];
    rollup_exit =
        record { id = 1; leaf = deposits_root; rollup_id = 1; root = rollups_root; block_id = 1 }
        ∷ [];
  };
}

service-IsSound : IsSound one_node service
service-IsSound = ((λ key v h. elim h [ ]), (refl, (refl, (refl, tt))))

abbrev roots : GlobalExitRoot Term
roots = record {
  id = 1;
  block_id = 1;
  block_number = 1;
  network_id = 0;
  global_exit_root = pair deposits_root rollups_root;
  exit_roots = deposits_root ∷ rollups_root ∷ [];
}

abbrev deposit : Deposit
deposit = record {
  leaf_type = 0;
  original_network = 0;
  original_address = 1;
  amount = 2;
  destination_network = 1;
  destination_address = 3;
  deposit_count = 1;
  block_id = 1;
  block_number = 1;
  network_id = 0;
  tx_hash = 4;
  metadata = [];
  id = 2;
  ready_for_claim = true;
}

abbrev rows : ExitRoots Term
rows = record {
  get_deposit = λ _ _. ok deposit;
  get_latest_trusted_exit_root = λ _. ok roots;
  get_latest_exit_root = λ _ _. ok roots;
  get_l1_exit_root_by_ger = λ _. ok roots;
}

abbrev path : List Term
path = leaf 7 ∷ right_pair ∷ []

-- The service after the proof of the deposit 1: the cache holds the last node.
abbrev service_after : Service one_node
service_after = record service { nodes = some (left_pair, (leaf 7, leaf 81)) }

proof_run : get_proof one_node 2 1 deposits_root service ≡ (ok path, service_after)
unfolding get_proof Term-discrete ℕ_discrete
proof_run = refl

get_proof-calculate_root_example :
    (l : Term) × (calculate_root l path 1 2 ≡ ok deposits_root) × IsSound one_node service_after
get_proof-calculate_root_example =
    get_proof-calculate_root one_node 2 1 deposits_root service service_after path (omega arith)
      (omega arith) service-IsSound proof_run

abbrev rollup_path : List Term
rollup_path = empty ∷ pair empty empty ∷ []

rollup_run :
    rollup_proof one_node 2 0 rollups_root (deposits_root ∷ []) ≡ ok (rollup_path, deposits_root)
unfolding rollup_proof Term-discrete ℕ_discrete zero_at zero_hashes generate_zero_hashes
    zero_hashes_loop
rollup_run = refl

rollup_proof-calculate_root_example :
    (get_elem? (deposits_root ∷ []) 0 ≡ some deposits_root)
    × (calculate_root deposits_root rollup_path 0 2 ≡ ok rollups_root)
rollup_proof-calculate_root_example =
    rollup_proof-calculate_root one_node 2 0 rollups_root (deposits_root ∷ []) rollup_path
      deposits_root (omega arith) (omega arith) rollup_run

claim_run :
    get_claim_proof one_node rows false 2 1 0 service
    ≡ (ok (roots, path, empty_proof one_node), service_after)
unfolding get_claim_proof empty_proof Term-discrete ℕ_discrete
claim_run = refl

abbrev leaves : List Term
leaves = leaf 7 ∷ leaf 81 ∷ leaf 9 ∷ []

abbrev rollup_leaves : List Term
rollup_leaves = deposits_root ∷ []

deposit_hashed : hash_deposit deposit ≡ ok (leaf 81)
unfolding hash_deposit be
deposit_hashed = refl

mainnet_tree : IsTreeOf one_node 2 0 roots leaves
unfolding exit_root node
mainnet_tree = refl

rollup_tree : IsTreeOf one_node 2 1 roots leaves
unfolding exit_root node
rollup_tree = (rollup_leaves, omega arith, refl, refl)

get_claim_proof-check_example :
    (deposit.ready_for_claim ≡ true)
    × Proves one_node 2 1 0 roots (leaf 81) path (empty_proof one_node)
get_claim_proof-check_example =
    get_claim_proof-check one_node term_keccak-IsCollisionFree rows false 2 1 0 service
      service_after roots path (empty_proof one_node) leaves deposit (leaf 81) (omega arith)
      (omega arith) (omega arith) service-IsSound claim_run refl deposit_hashed mainnet_tree refl

by_ger_run :
    get_claim_proof_by_ger one_node rows true 2 1 1 empty service
    ≡ (ok (roots, path, rollup_path), service_after)
unfolding get_claim_proof_by_ger Term-discrete ℕ_discrete zero_at zero_hashes generate_zero_hashes
    zero_hashes_loop
by_ger_run = refl

get_claim_proof_by_ger-check_example : Proves one_node 2 1 1 roots (leaf 81) path rollup_path
get_claim_proof_by_ger-check_example =
    get_claim_proof_by_ger-check one_node term_keccak-IsCollisionFree rows true 2 1 1 empty service
      service_after roots path rollup_path leaves (leaf 81) (omega arith) (omega arith)
      (omega arith) service-IsSound by_ger_run rollup_tree refl
