-- ===== src/Synchronizer/Deposits.antt =====
-- processDeposit: the row and the leaf of a deposit that succeeds, and what an error leaves.
use zkevm_bridge_service.Base.{
  ℕ, suc, ◌+◌, ◌^◌, ◌<◌, ◌≡◌, refl, ap, List, [], ◌∷◌, ◌++◌, Bool, false, some, get_elem?, length,
  u32_mod, ok,
}
use zkevm_bridge_service.Bridgectrl.Keccak.{Keccak}
use zkevm_bridge_service.Bridgectrl.Tree.{exit_root}
use zkevm_bridge_service.Bridgectrl.MerkleTree.{MerkleTree}
use zkevm_bridge_service.Bridgectrl.Controller.{Controlled, find_id, hash_deposit, add_deposit}
use zkevm_bridge_service.Bridgectrl.Controller.Routing.{AreTrees, append_leaf, add_deposit-AreTrees}
use zkevm_bridge_service.Storage.Tables.{Deposit, Db, serve}
use zkevm_bridge_service.Storage.Chain.{insert_deposit}
use zkevm_bridge_service.Synchronizer.World.{Config, World, ended, or_rollback}
use zkevm_bridge_service.Synchronizer.Events.{store_deposit, process_deposit}
use zkevm_bridge_service.Synchronizer.Rollback.{committed, IsRolledBack, or_rollback-IsRolledBack}
use zkevm_bridge_service.Synchronizer.Kept.{store_deposit-committed}

module _ {D : Type 0} ⦃k : Keccak D⦄ where
  -- The transaction's tables after the insert of a deposit.
  abbrev inserted : Deposit → Db D → Db D
  inserted d db = record db {
    deposits = db.deposits ++ record d { id = db.next_deposit_id; ready_for_claim = false } ∷ [];
    next_deposit_id = suc db.next_deposit_id;
  }

  insert_deposit-served :
      (d : Deposit) (db : Db D)
      → db.faults ≡ []
      → insert_deposit d db ≡ (ok db.next_deposit_id, inserted d db)
  unfolding insert_deposit serve
  insert_deposit-served d db e = served db.faults e
    where
      at : List Bool → Db D
      at faults = record db { faults = faults }

      served :
          (faults : List Bool)
          → faults ≡ []
          → insert_deposit d (at faults) ≡ (ok db.next_deposit_id, inserted d (at faults))
      served [] e = refl
      served (f ∷ fs) e = cc

  store_deposit-then :
      (d : Deposit) (w : World D) (c : Controlled D)
      → w.tx.faults ≡ []
      → add_deposit
          (record d { id = w.tx.next_deposit_id })
          (record { bridge = w.bridge; db = inserted d w.tx })
        ≡ (ok tt, c)
      → store_deposit d w ≡ (ok tt, record w { bridge = c.bridge; tx = c.db })
  unfolding store_deposit
  store_deposit-then d w c answers run =
      rw (store_deposit, insert_deposit-served d w.tx answers, run) refl

  -- The row of an event's deposit.
  abbrev pub row_of : Config → World D → Deposit → ℕ → Deposit
  row_of cfg w deposit block_id = record deposit {
    block_id = block_id;
    network_id = cfg.network_id;
    id = w.tx.next_deposit_id;
    ready_for_claim = false;
  }

  -- When no statement fails, for a deposit of the synchronizer's network whose tree holds
  -- `leaves id` and has room for one more, with the next deposit count, and with an amount that fits
  -- 32 bytes, so that the deposit has a hash: processDeposit succeeds. It appends the hash to the
  -- leaves of that tree and leaves the other trees' leaves alone, inserts one row for the deposit
  -- with the next id, stores for that id the root of the tree over the new leaves, and does not
  -- touch what the pool sees.
  pub process_deposit-AreTrees :
      (cfg : Config) (leaves : ℕ → List D) (w : World D) (deposit : Deposit) (block_id id : ℕ)
      (t : MerkleTree D) (leaf : D)
      → AreTrees leaves w.bridge
      → w.tx.faults ≡ []
      → find_id cfg.network_id w.bridge.merkle_tree_ids ≡ some id
      → get_elem? w.bridge.exit_trees id ≡ some t
      → deposit.deposit_count ≡ length (leaves id)
      → length (leaves id) < 2 ^ t.height
      → length (leaves id) + 1 < u32_mod
      → hash_deposit (row_of cfg w deposit block_id) ≡ ok leaf
      → (w' : World D) × (process_deposit cfg deposit block_id w ≡ some (ok tt, w'))
        × AreTrees (append_leaf leaves id leaf) w'.bridge
        × (w'.tx.deposits ≡ w.tx.deposits ++ row_of cfg w deposit block_id ∷ [])
        × (w'.tx.roots
            ≡ w.tx.roots
              ++ record {
                root = exit_root t.height (leaves id ++ leaf ∷ []);
                deposit_id = w.tx.next_deposit_id;
                network = t.network_id;
              }
                ∷ [])
        × (w'.db ≡ w.db)
  unfolding process_deposit or_rollback hash_deposit
  process_deposit-AreTrees cfg leaves w deposit block_id id t leaf before answers registered found
        next room small hashed =
      let row = record deposit { block_id = block_id; network_id = cfg.network_id } in
      let (c, run, trees, ids, rows, roots) =
        add_deposit-AreTrees leaves (record { bridge = w.bridge; db = inserted row w.tx })
          (record row { id = w.tx.next_deposit_id }) id t leaf before answers registered found next
          room small hashed in
      (
        record w { bridge = c.bridge; tx = c.db },
        ap (ended cfg) (store_deposit-then row w c answers run),
        trees,
        rows,
        roots,
        refl,
      )

  -- If processDeposit ends with an error, the pool's tables are as before, and the trees in memory
  -- are those that a RollbackMT made of these tables; a success or a panic does not touch them either.
  pub process_deposit-IsRolledBack :
      (cfg : Config) (deposit : Deposit) (block_id : ℕ) (w : World D)
      → IsRolledBack cfg.network_id (committed w) (process_deposit cfg deposit block_id w)
  unfolding process_deposit
  process_deposit-IsRolledBack cfg deposit block_id w =
      let row = record deposit { block_id = block_id; network_id = cfg.network_id } in
      or_rollback-IsRolledBack cfg (store_deposit row) w (store_deposit-committed row)
