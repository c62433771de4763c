-- ===== src/Bridgectrl.antt =====
-- bridgectrl: the exit trees.
pub mod Controller
pub mod Keccak
pub mod Levels
pub mod RollupTree
pub mod Tests
pub mod Tree
pub mod MerkleTree
