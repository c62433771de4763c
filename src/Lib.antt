-- ===== src/Lib.antt =====
-- The zkEVM bridge service: what its exit trees, proofs, grouped claims and chain
-- synchronization compute.
--
-- The service follows the chains, keeps for each network the Merkle tree of its deposits and one of
-- the rollups' exit roots, answers with the Merkle proofs that a claim needs, and sends claims on
-- behalf of users, one by one or compressed in groups.
--
-- Base holds the shared names: tests and lists over native numbers, machine words, results of calls
-- (a value, an error or a run-time panic), and calls on a state, which keep what they wrote when
-- they fail.
--
-- Storage is db/pgstorage/pgstorage.go: Tables has the rows of the tables and the answers of the
-- database, Trees the statements on mt.root, mt.rht and mt.rollup_exit, Chain those of the
-- synchronizer on blocks, deposits, claims, wrapped tokens and events, with what a deletion takes
-- with it by the foreign keys of db/pgstorage/migrations, ExitRoots those on sync.exit_root, and
-- Ready those that mark deposits as ready for the claim, with Joins on what their subqueries find.
-- Rows of serial keys are in the order of insertion. Reads is about the statements that only read.
--
-- Bridgectrl is bridgectrl/. Keccak has bridgectrl/hash.go's zero hashes over a hash of two digests,
-- which is an instance argument since Keccak-256 is a library of other authors. Levels has the loops
-- of bridgectrl/merkletree.go over the levels of a tree: of addLeaf, buildIntermediate, buildMTRoot,
-- ComputeSiblings and calculateRoot. Tree says what the tree over some leaves is. MerkleTree has the
-- tree object and its methods on the database, RollupTree storeLeaves and addRollupExitLeaf, and
-- Controller bridgectrl/bridgectrl.go with HashDeposit, its Reads what only reads and its Routing
-- which tree a call reaches. Below Levels and MerkleTree stand the proofs:
-- Append and Insert for addLeaf, Build for buildMTRoot, Proofs for ComputeSiblings and
-- calculateRoot, Binding for what a proof commits to, and RollupTree.Numbered for the places of the
-- rollups' leaves.
--
-- Server has the proofs of server/service.go: getNode with its cache, getProof, getRollupExitProof,
-- GetClaimProof, GetClaimProofbyGER and GetClaimProofForCompressed. The LRU cache is a record with
-- what it documents; the queries for deposits and global exit roots are a record of functions.
-- Paths is about getProof, Claims about the claim proofs.
--
-- Claimtxman has the grouped claims of claimtxman/. Types is claimtxman/types/monitoredtx.go,
-- Trigger claimtxman/groups_trigger.go, Groups the bodies of the loops of
-- claimtxman/monitor_compressed_txs.go over one group, Pending the maps of
-- claimtxman/pending_txs.go and the loops themselves (Exhausted is about the groups whose retries
-- are used up), NonceCache claimtxman/nonce_cache.go,
-- Single checkTxHistory and ReviewMonitoredTx of claimtxman/monitortxs.go and Monitor its loop
-- MonitorTxs (Settled, Moves and Rounds are about what becomes of the claims), Deposits the loop of
-- claimtxman/claimtxman.go that adds a claim for each pending deposit (addClaimTx), with the
-- queries for these deposits in Queries and processPendingDeposits in Process (Allowed, Wanted and
-- Processed are about the claims that are added), Status its updateDepositsStatus, with the
-- statements of Storage/Ready, and Start its select loop, as a relation of steps. Compressed is the
-- MonitorTxs of claimtxman/monitor_compressed_txs.go: a round over the groups in a database
-- transaction, with the statements of db/pgstorage/pgstorage_monitored_txs_group.go. The network's
-- answers in a round are the fields of a record, and the clock is one time in a round.
--
-- Synchronizer is synchronizer/synchronizer.go. Its own file has checkReorg; World has what the
-- synchronizer works on (the trees in memory, the tables that the pool sees and those that the open
-- transaction sees), the transactions and rollback; Events the handlers of the events; Range
-- processBlockRange and resetState. A handler is a chain of calls that stops at the first error,
-- and every such error goes through rollback, as in the source. Reorg is about checkReorg, Rollback,
-- Kept and Atomic about what errors leave, Deposits, Claims and Lets about handlers, Reset about
-- resetState, Handled about the events of the blocks, and Completed about the global exit roots
-- that wait for their exit roots. Blocks is syncBlocks: it takes what it calls as a record, which
-- synchronizer_peers fills with the calls of the synchronizer; Ranges and Followed are about it.
--
-- Etherman is etherman/etherman.go. Its own file has GenerateGlobalIndex and DecodeGlobalIndex;
-- Types has the blocks with their events, Logs the logs of the node with what the generated
-- bindings of the contracts parse of them, and Events readEvents with the handlers of the logs. Of
-- its children Trace, Placed and Reading are about the events that readEvents stores, and
-- Synchronizer.Handled joins readEvents with processBlockRange.
--
-- Autoclaim has arraySplitter and claimGrouped of autoclaimservice/autoclaim/autoclaim.go.
--
-- Bounds. Digests are a type with a decidable equality, addresses and hashes elsewhere are numbers,
-- and a uint32 or uint64 keeps its wrap-around. Heights are at most 65, the number of zero hashes
-- that the package computes. The loops of checkReorg, syncBlocks and arraySplitter run on fuel,
-- one round for each stored block, block of the chain or element; that this is enough is part of
-- the theorems. The loop of rollback runs on fuel too, and theorems on it say nothing of a run that
-- uses the fuel up: if the tree cannot be loaded, the source does not end either.
--
-- Not modelled: the loops Sync and syncTrustedState (synchronizer/synchronizer.go), the endpoints
-- of server/service.go, the connection to the node and the calls of the compressor contract
-- (etherman/etherman.go), the clients of utils/, generated bindings, configuration, metrics and
-- logs. Metrics are also left out of the handlers.
mod Base
pub mod Autoclaim
pub mod Bridgectrl
pub mod Storage
pub mod Claimtxman
pub mod Etherman
pub mod Server
pub mod Synchronizer
