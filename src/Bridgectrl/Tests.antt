-- ===== src/Bridgectrl/Tests.antt =====
-- The theorems on the exit trees at concrete trees, with a hash of terms.
use zkevm_bridge_service.Base.{
  ℕ, get_elem?, some, ◌≢◌, ◌^◌, ◌≤◌, ◌<◌, ◌≡◌, refl, List, [], ◌∷◌, length, ok, err, ℕ_discrete,
  arith, multiple_roots, out_of_bounds,
}
use zkevm_bridge_service.Bridgectrl.Keccak.{Keccak, zero_at, zero_hash, zero_at-ok}
use zkevm_bridge_service.Bridgectrl.Levels.{build_mt_root, compute_siblings, calculate_root}
use zkevm_bridge_service.Bridgectrl.Levels.Build.{build_mt_root-exit_root}
use zkevm_bridge_service.Bridgectrl.Levels.Proofs.{
  proof_of, calculate_root-proof_of, compute_siblings-exit_root,
}
use zkevm_bridge_service.Bridgectrl.Levels.Binding.{IsCollisionFree, calculate_root-binding}
use zkevm_bridge_service.Bridgectrl.Tree.{node, leaf_of, exit_root}
use zkevm_bridge_service.Bridgectrl.MerkleTree.{Stored, add_leaf}
use zkevm_bridge_service.Bridgectrl.MerkleTree.Insert.{IsTree, add_leaf-IsTree}
use zkevm_bridge_service.Bridgectrl.RollupTree.{place_leaf}
use zkevm_bridge_service.Bridgectrl.RollupTree.Numbered.{AreNumbered, place_leaf-AreNumbered}
use zkevm_bridge_service.Storage.Tables.{RollupExitLeaf, Db}

-- Digests that show what was hashed.
pub data Term : Type 0 where
  empty : Term
  leaf : ℕ → Term
  pair : Term → Term → Term

unfoldable pub Term-discrete : Discrete Term
Term-discrete = hlevel ℕ_discrete

instance abbrev pub term_keccak : Keccak Term
term_keccak = record {
  hash_zero = empty;
  hash = pair;
  same = Term-discrete;
  keccak = λ bytes. leaf (length bytes);
  digest_bytes = λ d. [];
}

pub term_keccak-IsCollisionFree : IsCollisionFree term_keccak
term_keccak-IsCollisionFree a b c d h = (cc, cc)

abbrev pub three : List Term
three = leaf 7 ∷ leaf 8 ∷ leaf 9 ∷ []

abbrev pub empty_db : Db Term
empty_db = record {
  blocks = [];
  deposits = [];
  roots = [];
  rht = [];
  rollup_exit = [];
  claims = [];
  tokens = [];
  exit_roots = [];
  events = [];
  next_exit_root_id = 1;
  next_deposit_id = 1;
  next_leaf_id = 1;
  next_block_id = 1;
  faults = [];
}

-- A tree of height 2 that holds one leaf.
abbrev pub one_leaf : Stored Term
one_leaf = record {
  tree = record { network_id = 0; height = 2; count = 1; siblings = leaf 7 ∷ empty ∷ [] };
  db = empty_db;
}

zero_at-ok_example : zero_at {D = Term} 3 ≡ ok (zero_hash 3)
zero_at-ok_example = zero_at-ok 3 (omega arith)

add_leaf-IsTree_example :
    (s' : Stored Term) × (add_leaf 5 (leaf 8) 1 one_leaf ≡ (ok tt, s'))
    × IsTree (leaf 7 ∷ leaf 8 ∷ []) s'.tree
    × (s'.db.roots
        ≡ record { root = exit_root 2 (leaf 7 ∷ leaf 8 ∷ []); deposit_id = 5; network = 0 } ∷ [])
unfolding node
add_leaf-IsTree_example =
    add_leaf-IsTree 5 (leaf 8) (leaf 7 ∷ []) one_leaf refl (omega arith) (omega arith) (omega arith)
      (refl, refl, (λ _. refl, (λ e. absurd (omega arith), tt)))

build_mt_root-exit_root_example :
    (3 ≤ 2 ^ 2 → build_mt_root 2 three ≡ ok (exit_root 2 three))
    × (2 ^ 2 < 3 → build_mt_root 2 three ≡ err multiple_roots)
build_mt_root-exit_root_example = build_mt_root-exit_root 2 three (omega arith) (omega arith)

calculate_root-proof_of_example :
    calculate_root (leaf_of three 2) (proof_of 2 0 (leaf_of three) 2) 2 2
    ≡ ok (node 2 (leaf_of three) 0)
calculate_root-proof_of_example = calculate_root-proof_of 2 2 (leaf_of three) (omega arith)

compute_siblings-exit_root_example :
    (3 ≤ 1 → compute_siblings 1 three 2 ≡ err out_of_bounds)
    × (1 < 3 → 2 ^ 2 < 3 → compute_siblings 1 three 2 ≡ err multiple_roots)
    × (1 < 3
        → 3 ≤ 2 ^ 2
        → compute_siblings 1 three 2 ≡ ok (proof_of 2 0 (leaf_of three) 1, exit_root 2 three))
compute_siblings-exit_root_example =
    compute_siblings-exit_root 1 three 2 (omega arith) (omega arith) (omega arith)

-- The proof of the leaf at 1 checks.
checked : calculate_root (leaf 8) (leaf 7 ∷ pair (leaf 9) empty ∷ []) 1 2 ≡ ok (exit_root 2 three)
unfolding calculate_root exit_root node
checked = refl

calculate_root-binding_example : leaf 8 ≡ leaf_of three 1
calculate_root-binding_example =
    calculate_root-binding term_keccak-IsCollisionFree 2 1 three (leaf 8)
      (leaf 7 ∷ pair (leaf 9) empty ∷ []) (omega arith) checked

abbrev exit_leaf : ℕ → ℕ → RollupExitLeaf Term
exit_leaf id rollup_id = record {
  id = id;
  leaf = leaf id;
  rollup_id = rollup_id;
  root = empty;
  block_id = 1;
}

place_leaf-AreNumbered_example :
    (placed : List (RollupExitLeaf Term)) × (place_leaf (exit_leaf 9 3) (exit_leaf 1 1 ∷ [])
      ≡ ok placed)
    × AreNumbered 0 placed
    × (get_elem? placed 2 ≡ some (exit_leaf 9 3))
    × ((i : ℕ) → i ≢ 2 → i < 1 → get_elem? placed i ≡ get_elem? (exit_leaf 1 1 ∷ []) i)
place_leaf-AreNumbered_example =
    place_leaf-AreNumbered (exit_leaf 9 3) (exit_leaf 1 1 ∷ []) 2 (refl, tt) refl (omega arith)
      (omega arith)
