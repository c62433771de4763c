-- ===== src/Synchronizer/Blocks.antt =====
-- synchronizer/synchronizer.go: syncBlocks, which follows a chain in chunks of blocks. What it calls
-- is asked through a record; logs, metrics and the signal to the claim transaction manager are left
-- out. Fuel bounds the rounds of its loop.
pub mod Followed
pub mod Ranges
pub mod Tests
use zkevm_bridge_service.Base.{
  ℕ, zero, suc, ◌+◌, ◌-◌, ◌*◌, ◌/◌, ◌%◌, List, [], ◌∷◌, Bool, true, false, ◌&&◌, ◌||◌, not, Option,
  none, some, ltb, leb, ◌==◌, if◌then◌else◌, u32_mod, u64_mod, Result, ok, err, panic,
  storage_not_found, wrong_block, database,
}
use zkevm_bridge_service.Bridgectrl.Keccak.{Keccak}
use zkevm_bridge_service.Storage.Tables.{Block}
use zkevm_bridge_service.Storage.Chain.{DecodeToken, get_previous_block}
use zkevm_bridge_service.Etherman.Types.{BlockData}
use zkevm_bridge_service.Etherman.Logs.{Bindings}
use zkevm_bridge_service.Etherman.Events.{Orders, ordered, get_rollup_info_by_block_range}
use zkevm_bridge_service.Synchronizer.{Headers, check_reorg}
use zkevm_bridge_service.Synchronizer.World.{Config, World, in_pool}
use zkevm_bridge_service.Synchronizer.Range.{process_block_range, reset_state}

-- How a call ends; `none` is no fuel left.
abbrev pub Run : Type 0 → Type 0 → Type 0
Run W A = W → Option (Result A × W)

abbrev pub and_run :
    {W A B : Type 0} → Option (Result A × W) → (A → Run W B) → Option (Result B × W)
and_run none f = none
and_run (some (ok a, w)) f = f a w
and_run (some (err e, w)) f = some (err e, w)
and_run (some (panic, w)) f = some (panic, w)

infixl 5 ◌>>=◌ ◌>>◌
abbrev pub ◌>>=◌ : {W A B : Type 0} → Run W A → (A → Run W B) → Run W B
◌>>=◌ m f w = and_run (m w) f

abbrev pub ◌>>◌ : {W B : Type 0} → Run W (Unit {0}) → Run W B → Run W B
m >> r = m >>= λ _. r

abbrev pub return : {W A : Type 0} → A → Run W A
return a w = some (ok a, w)

-- The fields that syncBlocks reads.
pub record Chunks : Type 0 where
  pub gen_block_number : ℕ
  pub sync_chunk_size : ℕ
  pub force_sync_chunk : Bool
  pub initial_remaining_blocks : ℕ

-- What syncBlocks calls. A block of the node is its number and its hash; the blocks of a range come
-- with their orders.
pub record Peers (D W : Type 0) : Type 0 where
  pub latest_block : Run W ℕ
  pub header_by_number : ℕ → Run W (ℕ × ℕ)
  pub get_rollup_info_by_block_range : ℕ → ℕ → Run W (List (BlockData D))
  pub check_reorg : Block → Option (ℕ × ℕ) → Run W (Option Block)
  pub reset_state : ℕ → Run W (Unit {0})
  pub get_previous_block : ℕ → Run W Block
  pub process_block_range : List (BlockData D) → Run W (Unit {0})
  pub add_sync_status : ℕ → ℕ → Bool → Run W (Unit {0})

-- The synchronizer's field synced beside what its calls work on.
pub record Progress (W : Type 0) : Type 0 where
  pub synced : Bool
  pub world : W

abbrev pub numbered_block : ℕ → ℕ → Block
numbered_block number hash = record {
  id = 0;
  block_number = number;
  block_hash = hash;
  network_id = 0;
}

abbrev pub empty_block : {D : Type 0} → BlockData D
empty_block = record {
  block = numbered_block 0 0;
  global_exit_roots = [];
  remove_l2_ger = [];
  deposits = [];
  claims = [];
  tokens = [];
  verified_batches = [];
  unset_claims = [];
  set_claims = [];
  backward_lets = [];
  forward_lets = [];
  order = [];
}

-- The first block that was received, if it is not the one of this number.
abbrev starts_at : {D : Type 0} → ℕ → List (BlockData D) → Bool
starts_at n [] = false
starts_at n (b ∷ bs) = b.block.block_number == n

-- The range with the genesis block has an empty block in front; no range is below it.
unfoldable pub with_genesis :
    {D : Type 0} → Chunks → ℕ → List (BlockData D) → Result (List (BlockData D))
with_genesis cfg from_block blocks =
    if from_block == cfg.gen_block_number && not cfg.force_sync_chunk
    then ok (if starts_at cfg.gen_block_number blocks then blocks else empty_block ∷ blocks)
    else if ltb from_block cfg.gen_block_number
    then err wrong_block
    else ok blocks

abbrev pub last_block_of : {D : Type 0} → Block → List (BlockData D) → Block
last_block_of last [] = last
last_block_of last (b ∷ bs) = last_block_of b.block bs

abbrev pub or_block : Block → Option Block → Block
or_block prev none = prev
or_block prev (some b) = b

-- What the checks before the processing say: the end, at a block, or blocks to process.
pub data Checked (D : Type 0) : Type 0 where
  done_at : Block → Checked D
  go_on : List (BlockData D) → Checked D

-- The variables lastKnownBlock, fromBlock and toBlock.
pub record Window : Type 0 where
  pub last_known_block : ℕ
  pub from_block : ℕ
  pub to_block : ℕ

-- ErrStorageNotFound of the previous block is only logged, and leaves the zero block.
abbrev pub or_zero_block : {W : Type 0} → Option (Result Block × W) → Option (Result Block × W)
or_zero_block (some (err storage_not_found, w)) = some (ok (numbered_block 0 0), w)
or_zero_block other = other

-- An error of AddSyncStatus is only logged.
abbrev pub only_logged :
    {W : Type 0} → Option (Result (Unit {0}) × W) → Option (Result (Unit {0}) × W)
only_logged (some (err e, w)) = some (ok tt, w)
only_logged other = other

module _ {D W : Type 0} (peers : Peers D W) (cfg : Chunks) where
  abbrev pub in_world : {A : Type 0} → Option (Result A × W) → Bool → Option (Result A × Progress W)
  in_world none b = none
  in_world (some (r, w)) b = some (r, record { synced = b; world = w })

  abbrev pub call : {A : Type 0} → Run W A → Run (Progress W) A
  call m p = in_world (m p.world) p.synced

  abbrev pub is_synced : Run (Progress W) Bool
  is_synced p = some (ok p.synced, p)

  unfoldable pub note_synced : Run (Progress W) (Unit {0})
  note_synced p =
      if p.synced
      then some (ok tt, p)
      else call (λ w. only_logged (peers.add_sync_status 100 0 true w)) (record p { synced = true })

  -- The end of the window is the end of the chain, which is asked for again first.
  unfoldable pub clip : Block → Window → Run (Progress W) Window
  unfolding note_synced
  clip last win =
      if ltb win.last_known_block win.to_block
      then (do
        known ← call peers.latest_block
        if ltb known win.to_block
            then (do
              synced ← is_synced
              note_synced
              return (record {
                last_known_block = known;
                from_block =
                    if synced || cfg.force_sync_chunk then win.from_block else last.block_number;
                to_block = known;
              }))
            else return (record win { last_known_block = known }))
      else return win

  -- The chain lost the block that it was asked from: back to the block before, or further.
  unfoldable pub go_back_from : Run (Progress W) (Checked D)
  go_back_from = do
    prev ← call (λ w. or_zero_block (peers.get_previous_block 1 w))
    found ← call (peers.check_reorg prev none)
    let block = or_block prev found
    call (peers.reset_state block.block_number)
    return (done_at block)

  abbrev pub checked : List (BlockData D) → Option Block → Run (Progress W) (Checked D)
  checked blocks none = return (go_on blocks)
  checked blocks (some b) = do call (peers.reset_state b.block_number); return (done_at b)

  -- A synced synchronizer compares the first block of the range with the last one that it has.
  abbrev pub check_first : Block → List (BlockData D) → Run (Progress W) (Checked D)
  check_first last [] = go_back_from
  check_first last (b ∷ bs) = do
    found ← call (peers.check_reorg last (some (b.block.block_number, b.block.block_hash)))
    checked bs found

  unfoldable pub check_blocks : Block → List (BlockData D) → Run (Progress W) (Checked D)
  unfolding go_back_from
  check_blocks last blocks = do
    synced ← is_synced
    if synced
        then (if cfg.force_sync_chunk
            then (do found ← call (peers.check_reorg last none); checked blocks found)
            else check_first last blocks)
        else return (go_on blocks)

  unfoldable pub next_last : Block → List (BlockData D) → ℕ → Run (Progress W) Block
  next_last last blocks to_block =
      if cfg.force_sync_chunk
      then (do
        (number, hash) ← call (peers.header_by_number to_block)
        return (numbered_block number hash))
      else return (last_block_of last blocks)

  unfoldable pub next_window : Bool → Block → Window → Window
  next_window synced last win =
      if not synced || cfg.force_sync_chunk
      then record win {
        from_block = (win.to_block + 1) % u64_mod;
        to_block = ((win.to_block + 1) % u64_mod + cfg.sync_chunk_size) % u64_mod;
      }
      else record win {
        from_block = last.block_number;
        to_block = (win.to_block + cfg.sync_chunk_size) % u64_mod;
      }

  -- The share of the blocks that are synced; a division by 0 panics. Where more blocks remain than
  -- at the start, the source's difference is negative, and its percentage is left out: it is 0 here.
  unfoldable pub report : ℕ → Run (Progress W) (Unit {0})
  report remaining p =
      if p.synced
      then some (ok tt, p)
      else if cfg.initial_remaining_blocks == 0
      then some (panic, p)
      else call
          (λ w. only_logged (
            peers.add_sync_status
              ((cfg.initial_remaining_blocks - remaining)
                * 100
                / cfg.initial_remaining_blocks
                % u32_mod)
              remaining false w))
          p

  -- A round of the loop from the blocks to process on: the next window, or the end.
  unfoldable pub process_window :
      Block → List (BlockData D) → Window → Run (Progress W) (Block × Option Window)
  unfolding next_last note_synced next_window report
  process_window last blocks win = do
    call (peers.process_block_range blocks)
    last' ← next_last last blocks win.to_block
    if leb win.last_known_block win.to_block then (do note_synced; return (last', none)) else (do
      synced ← is_synced
      report (win.last_known_block - win.to_block)
      return (last', some (next_window synced last' win)))

  abbrev pub after_check : Block → Window → Checked D → Run (Progress W) (Block × Option Window)
  after_check last win (done_at b) = return (b, none)
  after_check last win (go_on blocks) = process_window last blocks win

  unfoldable pub sync_window : Block → Window → Run (Progress W) (Block × Option Window)
  unfolding clip with_genesis check_blocks process_window
  sync_window last asked = do
    win ← clip last asked
    if ltb win.to_block win.from_block then return (last, none) else (do
      received ← call (peers.get_rollup_info_by_block_range win.from_block win.to_block)
      blocks ← (λ p. some (with_genesis cfg win.from_block received, p))
      found ← check_blocks last blocks
      after_check last win found)

  abbrev pub next_round :
      (Block → Window → Run (Progress W) Block) → Block × Option Window → Run (Progress W) Block
  next_round again (last, none) = return last
  next_round again (last, some win) = again last win

  unfoldable pub sync_loop : ℕ → Block → Window → Run (Progress W) Block
  unfolding sync_window
  sync_loop zero last win = λ p. none
  sync_loop (suc fuel) last win = sync_window last win >>= next_round (sync_loop fuel)

  unfoldable pub first_window : Bool → Block → ℕ → Window
  first_window synced last known =
      let from_block =
        (if synced && not cfg.force_sync_chunk
          then last.block_number
          else (last.block_number + 1) % u64_mod) in
      record {
        last_known_block = known;
        from_block = from_block;
        to_block = (from_block + cfg.sync_chunk_size) % u64_mod;
      }

  abbrev pub unless_reorged : ℕ → Block → ℕ → Option Block → Run (Progress W) Block
  unless_reorged fuel last known (some b) = do call (peers.reset_state b.block_number); return b
  unless_reorged fuel last known none = do
    synced ← is_synced
    sync_loop fuel last (first_window synced last known)

  unfoldable pub sync_blocks : ℕ → Block → Run (Progress W) Block
  unfolding sync_loop first_window
  sync_blocks fuel last = do
    known ← call peers.latest_block
    found ← call (peers.check_reorg last none)
    unless_reorged fuel last known found

-- A block that the node does not have is an error.
abbrev pub or_no_header : Option (ℕ × ℕ) → Result (ℕ × ℕ)
or_no_header none = err database
or_no_header (some header) = ok header

abbrev pub blocks_of :
    {D : Type 0} → Result (List (BlockData D) × Orders) → Result (List (BlockData D))
blocks_of (ok (blocks, orders)) = ok (ordered orders blocks)
blocks_of (err e) = err e
blocks_of panic = panic

abbrev pub beside : {W A : Type 0} → Option (Result A) → W → Option (Result A × W)
beside none w = none
beside (some r) w = some (r, w)

-- The synchronizer's own calls: those of checkReorg only read what the pool sees. The statement of
-- AddSyncStatus stays a parameter.
unfoldable pub synchronizer_peers :
    {D : Type 0} ⦃k : Keccak D⦄
    → Config
    → DecodeToken
    → Bindings D
    → Headers
    → Result ℕ
    → ℕ
    → (ℕ → ℕ → Bool → Run (World D) (Unit {0}))
    → Peers D (World D)
unfolding get_rollup_info_by_block_range ordered check_reorg get_previous_block process_block_range
    reset_state
synchronizer_peers cfg decode bind headers latest gen add_sync_status = record {
  latest_block = λ w. some (latest, w);
  header_by_number = λ n w. some (or_no_header (headers n), w);
  get_rollup_info_by_block_range =
      λ from to w. some (blocks_of (get_rollup_info_by_block_range bind from (some to)), w);
  check_reorg = λ last first w.
      beside
        (check_reorg headers (λ depth. (in_pool (get_previous_block cfg.network_id depth) w).0) gen
          cfg.fuel last first)
        w;
  reset_state = reset_state cfg decode;
  get_previous_block = λ depth w. some (in_pool (get_previous_block cfg.network_id depth) w);
  process_block_range = process_block_range cfg decode;
  add_sync_status = add_sync_status;
}
