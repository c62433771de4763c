-- ===== src/Bridgectrl/MerkleTree/Reads.antt =====
-- The methods that only read the database: the root, the siblings, and what sets the tree by them.
use zkevm_bridge_service.Base.{
  ℕ, zero, suc, ◌≡◌, refl, ap, ◌∙◌, List, Result, ok, err, panic, storage_not_found,
}
use zkevm_bridge_service.Base.State.{State}
use zkevm_bridge_service.Base.Keeps.{Keeps, keeps_rules}
use zkevm_bridge_service.Bridgectrl.Keccak.{Keccak}
use zkevm_bridge_service.Bridgectrl.MerkleTree.{
  MerkleTree, Stored, on_db, put_tree, wrap, tree_root, zero_levels, init_levels, init_siblings,
  assigned, load_siblings, reset_leaf, next, next_count, rollback_mt,
}
use zkevm_bridge_service.Storage.Tables.{Db}
use zkevm_bridge_service.Storage.Trees.{get_node, get_last_deposit_count}
use zkevm_bridge_service.Storage.Reads.{
  tables, get_root-tables, get_node-tables, get_last_deposit_count-tables,
}

-- What the tree object's database holds.
abbrev pub held : {D : Type 0} → Stored D → Db D
held s = tables s.db

module _ {D : Type 0} ⦃k : Keccak D⦄ where
  wrap-held : {A : Type 0} (r : Result A × Stored D) → held (wrap r).1 ≡ held r.1
  wrap-held (ok a, s) = refl
  wrap-held (err e, s) = refl
  wrap-held (panic, s) = refl

  on_db-held : {A : Type 0} {m : State (Db D) A} → Keeps tables m → Keeps held (on_db m)
  on_db-held keeps = record { at = λ s. keeps.at s.db }

  pub tree_root-held : Keeps held (tree_root {D = D})
  unfolding tree_root
  tree_root-held = search (keeps_rules, on_db-held, get_root-tables)

  zero_levels-held : (rounds h : ℕ) → Keeps held (zero_levels {D = D} rounds h)
  unfolding zero_levels
  zero_levels-held zero h = search keeps_rules
  zero_levels-held (suc rounds) h = search (keeps_rules, zero_levels-held rounds)

  wrapped-held : (cur : D) → Keeps held (λ s. wrap (on_db (get_node cur) s))
  wrapped-held cur = record {
    at = λ s. wrap-held (on_db (get_node cur) s) ∙ (get_node-tables cur).at s.db;
  }

  init_levels-held : (h index : ℕ) (cur : D) → Keeps held (init_levels h index cur)
  unfolding init_levels
  init_levels-held zero index cur = search keeps_rules
  init_levels-held (suc h) index cur = search (keeps_rules, wrapped-held, init_levels-held h index)

  init_siblings-held : Keeps held (init_siblings {D = D})
  unfolding init_siblings
  init_siblings-held = search (keeps_rules, zero_levels-held, tree_root-held, init_levels-held)

  assigned-held : (r : Result (List D) × Stored D) → held (assigned r).1 ≡ held r.1
  assigned-held (ok siblings, s) = refl
  assigned-held (err e, s) = refl
  assigned-held (panic, s) = refl

  load_siblings-held : Keeps held (load_siblings {D = D})
  unfolding load_siblings
  load_siblings-held = record {
    at = λ s. assigned-held (init_siblings s) ∙ init_siblings-held.at s;
  }

  put_tree-held : (f : MerkleTree D → MerkleTree D) → Keeps held (put_tree f)
  put_tree-held f = record { at = λ s. refl }

  pub reset_leaf-held : (count : ℕ) → Keeps held (reset_leaf {D = D} count)
  unfolding reset_leaf
  reset_leaf-held count = search (keeps_rules, put_tree-held, load_siblings-held)

  next-tables : (r : Result ℕ × Db D) → (next r).1 ≡ r.1
  next-tables (ok cnt, db) = refl
  next-tables (err storage_not_found, db) = refl
  next-tables (err e, db) = refl
  next-tables (panic, db) = refl

  next_count-tables : (network_id : ℕ) → Keeps tables (next_count {D = D} network_id)
  unfolding next_count
  next_count-tables network_id = record {
    at = λ db.
        ap tables (next-tables (get_last_deposit_count network_id db))
        ∙ (get_last_deposit_count-tables network_id).at db;
  }

  pub rollback_mt-held : (network_id : ℕ) → Keeps held (rollback_mt {D = D} network_id)
  unfolding rollback_mt
  rollback_mt-held network_id =
      search (keeps_rules, on_db-held, next_count-tables, put_tree-held, load_siblings-held)
