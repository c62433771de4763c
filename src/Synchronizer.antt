-- ===== src/Synchronizer.antt =====
-- synchronizer/synchronizer.go: the search for the last block that a reorganisation left alone.
-- The node's headers and the stored blocks are asked through functions; hashes are numbers.
pub mod Events
pub mod Handled
pub mod Rollback
pub mod Atomic
pub mod Blocks
pub mod Kept
pub mod Deposits
pub mod EventTests
pub mod Claims
pub mod Completed
pub mod GerTests
pub mod Reset
pub mod Lets
pub mod World
pub mod Range
pub mod Reorg
pub mod Tests
use zkevm_bridge_service.Base.{
  ℕ, zero, suc, ◌==◌, ltb, Bool, true, false, not, ◌&&◌, if◌then◌else◌, Option, none, some, Result,
  ok, err, panic, wrong_block, storage_not_found, database,
}
use zkevm_bridge_service.Storage.Tables.{Block}

-- The node's answer to HeaderByNumber: the number and the hash, or an error.
abbrev pub Headers : Type 0
Headers = ℕ → Option (ℕ × ℕ)

-- GetPreviousBlock at a depth.
abbrev pub Stored : Type 0
Stored = ℕ → Result Block

-- How the loop of checkReorg ends well: at a block, or before the first one that is stored.
pub data Found : Type 0 where
  genesis : Found
  at_block : Block → Found

-- The hash to compare with: that of the block that was handed in, or of the node's block.
unfoldable pub fetch_hash : Headers → Option (ℕ × ℕ) → Block → Result ℕ
fetch_hash headers (some (number, hash)) reorged = ok hash
fetch_hash headers none reorged = elim (headers reorged.block_number) [
  | none ↦ err database
  | some (number, hash) ↦ if number == reorged.block_number then ok hash else err wrong_block
]

-- The hashes differ, above the genesis block.
unfoldable pub is_reorged : ℕ → ℕ → Block → Bool
is_reorged gen_block_number hash reorged =
    not (hash == reorged.block_hash) && ltb gen_block_number reorged.block_number

-- The loop, with fuel for its rounds; `none` is no fuel left.
unfoldable pub reorg_loop :
    Headers → Stored → ℕ → ℕ → ℕ → Option (ℕ × ℕ) → Block → Option (Result Found)
unfolding fetch_hash is_reorged
reorg_loop headers stored gen zero depth block reorged = none
reorg_loop headers stored gen (suc fuel) depth block reorged =
    elim (fetch_hash headers block reorged) [
      | err e ↦ some (err e)
      | panic ↦ some panic
      | ok hash ↦ elim (is_reorged gen hash reorged) [
        | false ↦ some (ok (at_block reorged))
        | true ↦ elim (stored (suc depth)) [
          | ok lb ↦ reorg_loop headers stored gen fuel (suc depth) none lb
          | err storage_not_found ↦ some (ok genesis)
          | err e ↦ some (err e)
          | panic ↦ some panic
        ]
      ]
    ]

-- `etherman.Block{BlockNumber: s.genBlockNumber}`
abbrev pub genesis_block : ℕ → Block
genesis_block gen = record { id = 0; block_number = gen; block_hash = 0; network_id = 0 }

-- What checkReorg returns of it: no block if there was no reorganisation.
unfoldable pub verdict : ℕ → Block → Found → Option Block
verdict gen latest genesis = some (genesis_block gen)
verdict gen latest (at_block b) = if latest.block_hash == b.block_hash then none else some b

abbrev concluded : ℕ → Block → Result Found → Result (Option Block)
concluded gen latest (ok f) = ok (verdict gen latest f)
concluded gen latest (err e) = err e
concluded gen latest panic = panic

unfoldable pub check_reorg :
    Headers → Stored → ℕ → ℕ → Block → Option (ℕ × ℕ) → Option (Result (Option Block))
unfolding reorg_loop verdict
check_reorg headers stored gen fuel latest synced =
    elim (reorg_loop headers stored gen fuel 0 synced latest) [
      | none ↦ none
      | some r ↦ some (concluded gen latest r)
    ]
