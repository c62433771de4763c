-- ===== src/Synchronizer/Reorg.antt =====
-- checkReorg: the block that the synchronization goes back to.
use zkevm_bridge_service.Base.{
  ℕ, zero, suc, ◌+◌, ◌<◌, ◌≡◌, refl, ap, ◌∙◌, inl, inr, List, [], ◌∷◌, length, ◌==◌, true,
  Bool-cases, if◌then◌else◌, Option, none, some, ok, err, or_err, get_elem?, storage_not_found,
  arith,
}
use zkevm_bridge_service.Storage.Tables.{Block}
use zkevm_bridge_service.Synchronizer.{
  Headers, Stored, Found, genesis, at_block, fetch_hash, is_reorged, reorg_loop, verdict,
  check_reorg,
}

-- The first of the blocks, newest first, that the chain still has or that is not above the genesis.
abbrev pub last_good : (ℕ → ℕ) → ℕ → List Block → Found
last_good chain gen [] = genesis
last_good chain gen (b ∷ bs) =
    if is_reorged gen (chain b.block_number) b then last_good chain gen bs else at_block b

-- The node answers with the blocks of the chain.
abbrev pub Follows : Headers → (ℕ → ℕ) → Type 0
Follows headers chain = (n : ℕ) → headers n ≡ some (n, chain n)

fetch_hash-chain :
    (headers : Headers) (chain : ℕ → ℕ) (b : Block)
    → Follows headers chain
    → fetch_hash headers none b ≡ ok (chain b.block_number)
unfolding fetch_hash
fetch_hash-chain headers chain b follows =
    let same : (b.block_number == b.block_number) ≡ true = ground arith in
    rw (fetch_hash, follows b.block_number, same) refl

-- The same, with the hash to compare the first of them with.
abbrev pub last_good_from : (ℕ → ℕ) → ℕ → ℕ → Block → List Block → Found
last_good_from chain gen hash b older =
    if is_reorged gen hash b then last_good chain gen older else at_block b

-- The hash that the latest block is compared with: that of the block that was handed in, or the
-- chain's.
abbrev pub first_hash : (ℕ → ℕ) → Option (ℕ × ℕ) → Block → ℕ
first_hash chain (some (number, hash)) latest = hash
first_hash chain none latest = chain latest.block_number

fetch_hash-first_hash :
    (headers : Headers) (chain : ℕ → ℕ) (synced : Option (ℕ × ℕ)) (b : Block)
    → Follows headers chain
    → fetch_hash headers synced b ≡ ok (first_hash chain synced b)
unfolding fetch_hash
fetch_hash-first_hash headers chain (some (number, hash)) b follows = refl
fetch_hash-first_hash headers chain none b follows = fetch_hash-chain headers chain b follows

reorg_loop-last_good :
    (headers : Headers) (stored : Stored) (chain : ℕ → ℕ) (gen fuel depth hash : ℕ)
    (block : Option (ℕ × ℕ)) (b : Block) (older : List Block)
    → Follows headers chain
    → ((i : ℕ) → stored (suc depth + i) ≡ or_err storage_not_found (get_elem? older i))
    → fetch_hash headers block b ≡ ok hash
    → length older < fuel
    → reorg_loop headers stored gen fuel depth block b
      ≡ some (ok (last_good_from chain gen hash b older))
unfolding reorg_loop
reorg_loop-last_good headers stored chain gen zero depth hash block b older follows held fetched
      enough =
    elim enough [ ]
reorg_loop-last_good headers stored chain gen (suc fuel) depth hash block b [] follows held fetched
      enough =
    elim (Bool-cases (is_reorged gen hash b)) [
      | inl reorged ↦
          let at_end : stored (suc depth) ≡ err storage_not_found =
            ap stored (omega arith) ∙ held 0 in
          rw (reorg_loop, fetched, reorged, at_end) refl
      | inr good ↦ rw (reorg_loop, fetched, good) refl
    ]
reorg_loop-last_good headers stored chain gen (suc fuel) depth hash block b (lb ∷ older) follows
      held fetched enough =
    elim (Bool-cases (is_reorged gen hash b)) [
      | inl reorged ↦
          let next : stored (suc depth) ≡ ok lb = ap stored (omega arith) ∙ held 0 in
          rw (reorg_loop, fetched, reorged, next)
            (reorg_loop-last_good headers stored chain gen fuel (suc depth) (chain lb.block_number)
              none lb older follows (λ i. ap stored (omega arith) ∙ held (suc i))
              (fetch_hash-chain headers chain lb follows) (omega arith))
      | inr good ↦ rw (reorg_loop, fetched, good) refl
    ]

pub check_reorg-last_good :
    (headers : Headers) (stored : Stored) (chain : ℕ → ℕ) (gen : ℕ) (latest : Block)
    (older : List Block) (synced : Option (ℕ × ℕ))
    → Follows headers chain
    → ((i : ℕ) → stored i ≡ or_err storage_not_found (get_elem? (latest ∷ older) i))
    → check_reorg headers stored gen (suc (length older)) latest synced
      ≡ some (
          ok (
            verdict gen latest
              (last_good_from chain gen (first_hash chain synced latest) latest older)))
unfolding check_reorg
check_reorg-last_good headers stored chain gen latest older synced follows held =
    let run =
      reorg_loop-last_good headers stored chain gen (suc (length older)) 0
        (first_hash chain synced latest) synced latest older follows
        (λ i. ap stored (omega arith) ∙ held (suc i))
        (fetch_hash-first_hash headers chain synced latest follows) (omega arith) in
    rw (check_reorg, run) refl
