-- ===== src/Server.antt =====
-- server/service.go: the proofs that the bridge service gives for a deposit.
-- The cache of the nodes is a library of other authors, `NodeCache`; the rows of the global exit
-- roots are asked of the storage, `ExitRoots`. `height` is a uint8.
pub mod Claims
pub mod Paths
pub mod Tests
use zkevm_bridge_service.Base.{
  ℕ, zero, suc, ◌+◌, ◌-◌, List, [], ◌∷◌, map, reverse, Bool, true, false, ◌&&◌, not, Option, none,
  some, ◌≡◌, ◌⊎◌, ◌==◌, leb, if◌then◌else◌, length, get_elem?, bit, Result, ok, err, panic,
  or_panic, wrong_root, no_siblings, not_synced, deposit_not_synced, missing_node,
}
use zkevm_bridge_service.Base.State.{State, ◌>>=◌, ◌>>◌, pure, fail, lift, gets, modify, zoom}
use zkevm_bridge_service.Bridgectrl.Keccak.{Keccak}
use zkevm_bridge_service.Bridgectrl.Levels.{compute_siblings}
use zkevm_bridge_service.Bridgectrl.MerkleTree.{rounds_down, wrap}
use zkevm_bridge_service.Storage.Tables.{Deposit, GlobalExitRoot, Node, RollupExitLeaf, Db}
use zkevm_bridge_service.Storage.Trees.{get_node, get_rollup_exit_leaves_by_root, same_digest}

-- The LRU cache: what it holds is what was added, less what it dropped. A look-up may reorder it.
pub record NodeCache (D : Type 0) : Type 1 where
  pub Cache : Type 0
  pub Holds : Cache → D → D × D → Type 0
  pub get : D → Cache → Option (D × D)
  pub touch : D → Cache → Cache
  pub add : D → D × D → Cache → Cache
  pub get-Holds : (key : D) (c : Cache) (v : D × D) → get key c ≡ some v → Holds c key v
  pub touch-Holds :
      (key : D) (c : Cache) (key' : D) (v : D × D) → Holds (touch key c) key' v → Holds c key' v
  pub add-Holds :
      (key : D) (v : D × D) (c : Cache) (key' : D) (v' : D × D)
      → Holds (add key v c) key' v'
      → ((key ≡ key') × (v ≡ v')) ⊎ Holds c key' v'

-- bridgeServiceStorage, the queries on the tables of deposits and of global exit roots.
pub record ExitRoots (D : Type 0) : Type 0 where
  pub get_deposit : ℕ → ℕ → Result Deposit
  pub get_latest_trusted_exit_root : ℕ → Result (GlobalExitRoot D)
  pub get_latest_exit_root : ℕ → ℕ → Result (GlobalExitRoot D)
  pub get_l1_exit_root_by_ger : D → Result (GlobalExitRoot D)

abbrev discard : {A : Type 0} → Result A → Result (Unit {0})
discard (ok _) = ok tt
discard (err e) = err e
discard panic = panic

-- The hash that `common.Hash{}` is; 32 of them.
abbrev pub zeros : {D : Type 0} → ℕ → D → List D
zeros zero z = []
zeros (suc n) z = z ∷ zeros n z

module _ {D : Type 0} ⦃k : Keccak D⦄ (cache : NodeCache D) where
  -- bridgeService: the cache, with the database that it reads.
  pub record Service : Type 0 where
    pub nodes : cache.Cache
    pub db : Db D

  -- getNode, where the cache has no entry for the node.
  abbrev pub cached : D → Result (Node D) × Service → Result (D × D) × Service
  cached parent_hash (ok value, s) = (
    ok (value.left, value.right),
    record s { nodes = cache.add parent_hash (value.left, value.right) s.nodes },
  )
  cached parent_hash (err e, s) = (err missing_node, s)
  cached parent_hash (panic, s) = (panic, s)

  abbrev pub on_db : {A : Type 0} → State (Db D) A → State Service A
  on_db = zoom {W = Service} (λ s. s.db) (λ db s. record s { db = db })

  -- What the look-up found, and the rest of getNode.
  abbrev pub or_stored : D → Option (D × D) → State Service (D × D)
  or_stored parent_hash (some v) s = (ok v, s)
  or_stored parent_hash none s = cached parent_hash (on_db (get_node parent_hash) s)

  unfoldable pub service_node : D → State Service (D × D)
  unfolding get_node
  service_node parent_hash s =
      or_stored parent_hash (cache.get parent_hash s.nodes)
        (record s { nodes = cache.touch parent_hash s.nodes })

  -- The loop of getProof from level `h - 1` down, before the slice is inverted.
  unfoldable pub proof_loop : ℕ → ℕ → D → State Service (List D)
  unfolding service_node bit
  proof_loop zero index cur = pure []
  proof_loop (suc h) index cur = do
    (left, right) ← service_node cur
    siblings ← proof_loop h index (if bit index h then right else left)
    pure ((if bit index h then left else right) ∷ siblings)

  unfoldable pub get_proof : ℕ → ℕ → D → State Service (List D)
  unfolding proof_loop
  get_proof height index root = do
    siblings ← proof_loop (rounds_down height) index root
    pure (reverse siblings)

  -- The checks of getRollupExitProof below ComputeSiblings, and its result.
  unfoldable pub checked_proof : ℕ → D → List D → List D → D → Result (List D × D)
  unfolding same_digest
  checked_proof rollup_index root ls siblings r =
      if not (same_digest root r)
      then err wrong_root
      else if length siblings == 0
      then err no_siblings
      else if length ls == 0
      then err no_siblings
      else if leb (length ls) rollup_index
      then err not_synced
      else elim (get_elem? ls rollup_index) [ none ↦ panic | some leaf ↦ ok (siblings, leaf) ]

  -- What getRollupExitProof makes of the leaves.
  unfoldable pub rollup_proof : ℕ → ℕ → D → List D → Result (List D × D)
  unfolding compute_siblings checked_proof
  rollup_proof height rollup_index root ls = elim (compute_siblings rollup_index ls height) [
    | panic ↦ panic
    | err e ↦ err e
    | ok (siblings, r) ↦ checked_proof rollup_index root ls siblings r
  ]

  unfoldable pub get_rollup_exit_proof : ℕ → ℕ → D → State Service (List D × D)
  unfolding rollup_proof get_rollup_exit_leaves_by_root
  get_rollup_exit_proof height rollup_index root = do
    leaves ← on_db (get_rollup_exit_leaves_by_root root)
    lift (rollup_proof height rollup_index root (map (λ l. l.leaf) leaves))

  unfoldable pub empty_proof : List D
  empty_proof = zeros 32 k.hash_zero

  -- The proofs of a deposit of the mainnet, and of one of a rollup.
  unfoldable pub mainnet_proofs :
      ℕ → ℕ → GlobalExitRoot D → State Service (GlobalExitRoot D × List D × List D)
  unfolding get_proof empty_proof
  mainnet_proofs height deposit_cnt ger = do
    root ← lift (or_panic (get_elem? ger.exit_roots 0))
    merkle_proof ← get_proof height deposit_cnt root
    pure (ger, merkle_proof, empty_proof)

  unfoldable pub rollup_proofs :
      ℕ → ℕ → ℕ → GlobalExitRoot D → State Service (GlobalExitRoot D × List D × List D)
  unfolding get_proof get_rollup_exit_proof
  rollup_proofs height deposit_cnt network_id ger = do
    root ← lift (or_panic (get_elem? ger.exit_roots 1))
    (rollup_merkle_proof, rollup_leaf) ← get_rollup_exit_proof height (network_id - 1) root
    merkle_proof ← get_proof height deposit_cnt rollup_leaf
    pure (ger, merkle_proof, rollup_merkle_proof)

  unfoldable pub proofs_of :
      ℕ → ℕ → ℕ → GlobalExitRoot D → State Service (GlobalExitRoot D × List D × List D)
  unfolding mainnet_proofs rollup_proofs
  proofs_of height deposit_cnt network_id ger =
      if network_id == 0
      then mainnet_proofs height deposit_cnt ger
      else rollup_proofs height deposit_cnt network_id ger

  -- What the REST API asks of the deposit first.
  unfoldable pub ready : ExitRoots D → ℕ → ℕ → State Service (Unit {0})
  ready rows deposit_cnt network_id = do
    deposit ← lift (rows.get_deposit deposit_cnt network_id)
    if deposit.ready_for_claim then pure tt else fail deposit_not_synced

  -- The global exit root that GetClaimProof takes.
  unfoldable pub latest_ger : ExitRoots D → Bool → ℕ → Deposit → Result (GlobalExitRoot D)
  latest_ger rows finalized_ger network_id deposit =
      if finalized_ger && not (deposit.destination_network == 0) && not (network_id == 0)
      then rows.get_latest_trusted_exit_root network_id
      else rows.get_latest_exit_root network_id deposit.destination_network

  unfoldable pub get_claim_proof :
      ExitRoots D → Bool → ℕ → ℕ → ℕ → State Service (GlobalExitRoot D × List D × List D)
  unfolding latest_ger proofs_of
  get_claim_proof rows finalized_ger height deposit_cnt network_id = do
    deposit ← lift (rows.get_deposit deposit_cnt network_id)
    if not deposit.ready_for_claim then fail deposit_not_synced else do
      ger ← lift (latest_ger rows finalized_ger network_id deposit)
      proofs_of height deposit_cnt network_id ger

  -- GetClaimProofbyGER, called from the REST API or within a transaction.
  unfoldable pub get_claim_proof_by_ger :
      ExitRoots D → Bool → ℕ → ℕ → ℕ → D → State Service (GlobalExitRoot D × List D × List D)
  unfolding proofs_of
  get_claim_proof_by_ger rows from_api height deposit_cnt network_id ger = do
    if from_api then lift (discard (rows.get_deposit deposit_cnt network_id)) else pure tt
    roots ← lift (rows.get_l1_exit_root_by_ger ger)
    proofs_of height deposit_cnt network_id roots

  unfoldable pub get_claim_proof_for_compressed :
      ExitRoots D → Bool → ℕ → D → ℕ → ℕ → State Service (GlobalExitRoot D × List D × List D)
  unfolding proofs_of ready
  get_claim_proof_for_compressed rows from_api height ger deposit_cnt network_id = do
    if from_api then ready rows deposit_cnt network_id else pure tt
    roots ← lift (rows.get_l1_exit_root_by_ger ger)
    proofs_of height deposit_cnt network_id roots
