-- ===== src/Synchronizer/Blocks/Tests.antt =====
-- syncBlocks from the genesis block 4 of a chain of 30 blocks, in chunks of 10: three blocks hold
-- events.
use zkevm_bridge_service.Base.{
  ℕ, ◌+◌, ◌≡◌, refl, List, [], ◌∷◌, Bool, false, true, Option, some, none, Result, ok, inl, keep,
  arith,
}
use zkevm_bridge_service.Storage.Tables.{Block}
use zkevm_bridge_service.Etherman.Types.{BlockData}
use zkevm_bridge_service.Synchronizer.Blocks.{
  Progress, numbered_block, empty_block, with_genesis, note_synced, clip, check_blocks, next_last,
  next_window, report, process_window, sync_window, sync_loop, first_window, sync_blocks,
}
use zkevm_bridge_service.Synchronizer.Blocks.Ranges.{number, between}
use zkevm_bridge_service.Synchronizer.Blocks.Followed.{quiet, plain, Follows, sync_blocks-Follows}

abbrev block : ℕ → BlockData (Unit {0})
block n = record (empty_block {D = Unit {0}}) { block = numbered_block n (n + 100) }

abbrev events : List (BlockData (Unit {0}))
events = block 6 ∷ block 15 ∷ block 28 ∷ []

abbrev genesis : Block
genesis = numbered_block 4 0

abbrev start : Progress (List (BlockData (Unit {0})))
start = record { synced = false; world = [] }

sync_blocks-Follows_example :
    Follows 4 10 26 30 events
      (between 5 30 events)
      (sync_blocks (quiet 30 events) (plain 4 10 26) 40 genesis start)
sync_blocks-Follows_example =
    sync_blocks-Follows 4 10 26 30 events 40 genesis []
      (omega arith, (omega arith, (omega arith, tt))) (λ e. omega (arith, e)) (omega arith)
      (omega arith) (omega arith) (inl refl) (omega arith)

abbrev numbers : List (BlockData (Unit {0})) → List ℕ
numbers [] = []
numbers (b ∷ bs) = number b ∷ numbers bs

-- The last block, the field synced and the blocks that were processed.
abbrev outcome :
    Option (Result Block × Progress (List (BlockData (Unit {0})))) → Option (ℕ × Bool × List ℕ)
outcome (some (ok b, p)) = some (b.block_number, p.synced, numbers p.world)
outcome other = none

synced_to_the_end :
    outcome (sync_blocks (quiet 30 events) (plain 4 10 26) 40 genesis start)
    ≡ some (28, true, 6 ∷ 15 ∷ 28 ∷ [])
unfolding sync_blocks sync_loop sync_window clip note_synced with_genesis check_blocks
    process_window next_last next_window report first_window keep
synced_to_the_end = refl
