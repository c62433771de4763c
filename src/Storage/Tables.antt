-- ===== src/Storage/Tables.antt =====
-- db/pgstorage/pgstorage.go: the tables, one list of rows each, oldest row first.
-- PostgreSQL may refuse a statement: `faults` lists its next answers, and it serves when the list
-- is used up. The `next_` fields are the sequences of the serial keys. A foreign key does not refuse
-- an insert here, and of the keys only those of sync.block, sync.claim, sync.token_wrapped and
-- sync.exit_root do.
use zkevm_bridge_service.Base.{ℕ, List, [], ◌∷◌, Bool, true, false, ok, err, database}
use zkevm_bridge_service.Base.State.{State}

-- etherman.Block, less its events: a row of sync.block.
pub record Block : Type 0 where
  pub id : ℕ
  pub block_number : ℕ
  pub block_hash : ℕ
  pub network_id : ℕ

-- etherman.Deposit: a row of sync.deposit. Addresses and hashes are numbers.
pub record Deposit : Type 0 where
  pub leaf_type : ℕ
  pub original_network : ℕ
  pub original_address : ℕ
  pub amount : ℕ
  pub destination_network : ℕ
  pub destination_address : ℕ
  pub deposit_count : ℕ
  pub block_id : ℕ
  pub block_number : ℕ
  pub network_id : ℕ
  pub tx_hash : ℕ
  pub metadata : List ℕ
  pub id : ℕ
  pub ready_for_claim : Bool

-- A row of mt.root.
pub record RootRow (D : Type 0) : Type 0 where
  pub root : D
  pub deposit_id : ℕ
  pub network : ℕ

-- A row of mt.rht: the children of the node `key`.
pub record Node (D : Type 0) : Type 0 where
  pub key : D
  pub left : D
  pub right : D
  pub deposit_id : ℕ

-- etherman.RollupExitLeaf: a row of mt.rollup_exit.
pub record RollupExitLeaf (D : Type 0) : Type 0 where
  pub id : ℕ
  pub leaf : D
  pub rollup_id : ℕ
  pub root : D
  pub block_id : ℕ

-- etherman.Claim: a row of sync.claim. The decimal string of the global index is its number.
pub record Claim : Type 0 where
  pub mainnet_flag : Bool
  pub rollup_index : ℕ
  pub index : ℕ
  pub original_network : ℕ
  pub original_address : ℕ
  pub amount : ℕ
  pub destination_address : ℕ
  pub block_id : ℕ
  pub block_number : ℕ
  pub network_id : ℕ
  pub tx_hash : ℕ
  pub global_index : ℕ

-- etherman.GlobalExitRoot.
pub record GlobalExitRoot (D : Type 0) : Type 0 where
  pub id : ℕ
  pub block_id : ℕ
  pub block_number : ℕ
  pub network_id : ℕ
  pub global_exit_root : D
  pub exit_roots : List D

-- A row of sync.exit_root.
pub record ExitRootRow (D : Type 0) : Type 0 where
  pub ger : GlobalExitRoot D
  pub allowed : Bool

-- etherman.UnsetClaim and, with the hash of its transaction, etherman.SetClaim.
pub record SetClaim : Type 0 where
  pub block_id : ℕ
  pub mainnet_flag : Bool
  pub rollup_index : ℕ
  pub index : ℕ
  pub global_index : ℕ
  pub tx_hash : ℕ

-- etherman.BackwardLET.
pub record BackwardLet (D : Type 0) : Type 0 where
  pub block_id : ℕ
  pub previous_deposit_count : ℕ
  pub previous_root : D
  pub new_deposit_count : ℕ
  pub new_root : D

-- etherman.LeafData.
pub record LeafData : Type 0 where
  pub leaf_type : ℕ
  pub origin_network : ℕ
  pub origin_address : ℕ
  pub destination_network : ℕ
  pub destination_address : ℕ
  pub amount : ℕ
  pub metadata : List ℕ

-- etherman.ForwardLET, less the raw leaves.
pub record ForwardLet (D : Type 0) : Type 0 where
  pub block_id : ℕ
  pub previous_deposit_count : ℕ
  pub previous_root : D
  pub new_deposit_count : ℕ
  pub new_root : D
  pub new_leaves : List LeafData
  pub tx_hash : ℕ

-- etherman.TokenMetadata; texts are lists of their bytes.
pub record TokenMetadata : Type 0 where
  pub name : List ℕ
  pub symbol : List ℕ
  pub decimals : ℕ

-- etherman.TokenWrapped: a row of sync.token_wrapped.
pub record TokenWrapped : Type 0 where
  pub metadata : TokenMetadata
  pub original_network : ℕ
  pub original_token_address : ℕ
  pub wrapped_token_address : ℕ
  pub block_id : ℕ
  pub block_number : ℕ
  pub network_id : ℕ

-- A row of a table that is only inserted into: sync.backward_let, sync.forward_let,
-- sync.remove_exit_root and, with type SET or UNSET, sync.set_unset_claim.
pub data EventRow (D : Type 0) : Type 0 where
  backward_let : BackwardLet D → EventRow D
  forward_let : ForwardLet D → EventRow D
  set_claim : SetClaim → EventRow D
  unset_claim : SetClaim → EventRow D
  removed_root : GlobalExitRoot D → EventRow D

pub record Db (D : Type 0) : Type 0 where
  pub blocks : List Block
  pub deposits : List Deposit
  pub roots : List (RootRow D)
  pub rht : List (Node D)
  pub rollup_exit : List (RollupExitLeaf D)
  pub claims : List Claim
  pub tokens : List TokenWrapped
  pub exit_roots : List (ExitRootRow D)
  pub events : List (EventRow D)
  pub next_exit_root_id : ℕ
  pub next_deposit_id : ℕ
  pub next_leaf_id : ℕ
  pub next_block_id : ℕ
  pub faults : List Bool

module _ {D : Type 0} where
  abbrev pub answer : List Bool → State (Db D) (Unit {0})
  answer [] db = (ok tt, db)
  answer (true ∷ fs) db = (err database, record db { faults = fs })
  answer (false ∷ fs) db = (ok tt, record db { faults = fs })

  -- PostgreSQL's answer to one statement.
  unfoldable pub serve : State (Db D) (Unit {0})
  serve db = answer db.faults db
