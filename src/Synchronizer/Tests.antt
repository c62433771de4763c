-- ===== src/Synchronizer/Tests.antt =====
-- The search of checkReorg at a chain that lost its last stored block.
use zkevm_bridge_service.Base.{
  ℕ, ◌+◌, ◌≡◌, refl, List, [], ◌∷◌, get_elem?, none, some, ok, or_err, storage_not_found,
}
use zkevm_bridge_service.Storage.Tables.{Block}
use zkevm_bridge_service.Synchronizer.{Headers, Stored, verdict, check_reorg}
use zkevm_bridge_service.Synchronizer.Reorg.{check_reorg-last_good}

abbrev block : ℕ → ℕ → Block
block number hash = record { id = number; block_number = number; block_hash = hash; network_id = 0 }

-- The hash of block `n` is `n + 100`.
abbrev headers : Headers
headers n = some (n, n + 100)

abbrev latest : Block
latest = block 9 7

abbrev older : List Block
older = block 8 108 ∷ block 6 106 ∷ []

abbrev stored : Stored
stored i = or_err storage_not_found (get_elem? (latest ∷ older) i)

-- Without the block that was handed in, the search goes back to block 8.
goes_back : check_reorg headers stored 5 3 latest none ≡ some (ok (some (block 8 108)))
unfolding check_reorg verdict
goes_back =
    check_reorg-last_good headers stored (λ n. n + 100) 5 latest older none (λ n. refl) (λ i. refl)
