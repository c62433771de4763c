-- ===== src/Bridgectrl/Controller/Reads.antt =====
-- The calls of the controller that only read the database.
use zkevm_bridge_service.Base.{ℕ, refl, Option, none, some, get_elem?}
use zkevm_bridge_service.Base.State.{State}
use zkevm_bridge_service.Base.Keeps.{Keeps, keeps_rules}
use zkevm_bridge_service.Bridgectrl.Keccak.{Keccak}
use zkevm_bridge_service.Bridgectrl.MerkleTree.{MerkleTree, rollback_mt, reset_leaf, tree_root}
use zkevm_bridge_service.Bridgectrl.MerkleTree as MT
use zkevm_bridge_service.Bridgectrl.MerkleTree.Reads.{
  held, rollback_mt-held, reset_leaf-held, tree_root-held,
}
use zkevm_bridge_service.Bridgectrl.Controller.{
  Controlled, get_merkle_tree_id, on_found, on_tree, rollback_tree, reorg_mt, get_exit_root,
}
use zkevm_bridge_service.Storage.Tables.{Db}
use zkevm_bridge_service.Storage.Reads.{tables}

abbrev pub seen : {D : Type 0} → Controlled D → Db D
seen c = tables c.db

module _ {D : Type 0} ⦃k : Keccak D⦄ where
  on_found-seen :
      {A : Type 0} (id : ℕ) {m : State (MT.Stored D) A} (found : Option (MerkleTree D))
      → Keeps held m
      → Keeps seen (on_found id m found)
  on_found-seen id none keeps = record { at = λ c. refl }
  on_found-seen id (some t) keeps = record { at = λ c. keeps.at (record { tree = t; db = c.db }) }

  found-seen :
      {A : Type 0} (id : ℕ) {m : State (MT.Stored D) A}
      → Keeps held m
      → Keeps seen (λ c. on_found id m (get_elem? c.bridge.exit_trees id) c)
  found-seen id keeps = record {
    at = λ c. (on_found-seen id (get_elem? c.bridge.exit_trees id) keeps).at c;
  }

  id-seen :
      (network_id : ℕ)
      → Keeps seen (λ (c : Controlled D). (get_merkle_tree_id c.bridge network_id, c))
  id-seen network_id = record { at = λ c. refl }

  on_tree-seen :
      {A : Type 0} (network_id : ℕ) {m : State (MT.Stored D) A}
      → Keeps held m
      → Keeps seen (on_tree network_id m)
  unfolding on_tree
  on_tree-seen network_id keeps = search (keeps_rules, id-seen, found-seen)

  pub rollback_tree-seen : (network_id : ℕ) → Keeps seen (rollback_tree {D = D} network_id)
  unfolding rollback_tree
  rollback_tree-seen network_id = on_tree-seen network_id (rollback_mt-held network_id)

  pub reorg_mt-seen : (count network_id : ℕ) → Keeps seen (reorg_mt {D = D} count network_id)
  unfolding reorg_mt
  reorg_mt-seen count network_id = on_tree-seen network_id (reset_leaf-held count)

  pub get_exit_root-seen : (network_id : ℕ) → Keeps seen (get_exit_root {D = D} network_id)
  unfolding get_exit_root
  get_exit_root-seen network_id = on_tree-seen network_id tree_root-held
