-- ===== src/Storage/Chain.antt =====
-- db/pgstorage/pgstorage.go: the statements of the synchronizer on blocks, deposits, claims and
-- wrapped tokens, and what a deletion takes with it by the foreign keys of migrations/.
use zkevm_bridge_service.Base.{
  ℕ, suc, ◌+◌, ◌%◌, List, [], map, ◌∷◌, ◌++◌, Bool, true, false, ◌&&◌, not, Option, none, some,
  find, any, keep, maximum, ltb, leb, ◌==◌, if◌then◌else◌, or_err, Result, ok, err, get_elem?,
  u32_mod, storage_not_found, cannot_reset_l1, already_exists,
}
use zkevm_bridge_service.Base.State.{State, ◌>>=◌, ◌>>◌, pure, fail, lift, gets, modify}
use zkevm_bridge_service.Storage.Tables.{
  Block, Deposit, Claim, EventRow, backward_let, forward_let, set_claim, unset_claim, removed_root,
  TokenWrapped, TokenMetadata, Db, serve,
}

-- The newest block first; of two with one number the one that stands first.
unfoldable pub put_block : Block → List Block → List Block
put_block b [] = b ∷ []
put_block b (c ∷ cs) =
    let rest = put_block b cs in if ltb b.block_number c.block_number then c ∷ rest else b ∷ c ∷ cs

unfoldable pub by_number : List Block → List Block
unfolding put_block
by_number [] = []
by_number (b ∷ bs) = put_block b (by_number bs)

-- `true` and `false` as the bit of a key.
abbrev same_flag : Bool → Bool → Bool
same_flag true b = b
same_flag false b = not b

abbrev pub with_block : Deposit → Option Block → Result Deposit
with_block d (some b) = ok (record d { block_number = b.block_number })
with_block d none = err storage_not_found

unfoldable pub same_claim : Claim → Claim → Bool
same_claim a b =
    a.index == b.index
    && a.rollup_index == b.rollup_index
    && a.network_id == b.network_id
    && same_flag a.mainnet_flag b.mainnet_flag

-- getDecodedToken, which decodes by a library, is the parameter. No metadata is the empty one.
abbrev pub DecodeToken : Type 0
DecodeToken = List ℕ → Result TokenMetadata

unfoldable pub same_token : TokenWrapped → TokenWrapped → Bool
same_token a b =
    a.network_id == b.network_id
    && a.original_network == b.original_network
    && a.original_token_address == b.original_token_address

module _ {D : Type 0} where
  -- The blocks of a network, the newest first.
  unfoldable pub network_blocks : ℕ → Db D → List Block
  unfolding keep by_number
  network_blocks network_id db = by_number (keep (λ b. b.network_id == network_id) db.blocks)

  -- The query has no column for the id.
  unfoldable pub get_previous_block : ℕ → ℕ → State (Db D) Block
  unfolding serve network_blocks
  get_previous_block network_id offset = do
    serve
    row ← gets λ db. get_elem? (network_blocks network_id db) offset
    b ← lift (or_err storage_not_found row)
    pure (record b { id = 0 })

  unfoldable pub get_last_block : ℕ → State (Db D) Block
  unfolding serve network_blocks
  get_last_block network_id = do
    serve
    row ← gets λ db. get_elem? (network_blocks network_id db) 0
    lift (or_err storage_not_found row)

  -- A block whose hash is stored keeps its row; the sequence moves on all the same.
  abbrev insert_block : Block → Option Block → State (Db D) ℕ
  insert_block block (some old) db = (ok old.id, record db { next_block_id = suc db.next_block_id })
  insert_block block none db = (
    ok db.next_block_id,
    record db {
      blocks = db.blocks ++ record block { id = db.next_block_id } ∷ [];
      next_block_id = suc db.next_block_id;
    },
  )

  unfoldable pub add_block : Block → State (Db D) ℕ
  unfolding serve find
  add_block block = do
    serve
    old ← gets λ db. find (λ b. b.block_hash == block.block_hash) db.blocks
    insert_block block old

  unfoldable pub insert_deposit : Deposit → State (Db D) ℕ
  unfolding serve
  insert_deposit deposit = do
    serve
    id ← gets λ db. db.next_deposit_id
    modify λ db. record db {
      deposits = db.deposits ++ record deposit { id = id; ready_for_claim = false } ∷ [];
      next_deposit_id = suc id;
    }
    pure id

  -- The rows that the join with sync.block keeps.
  unfoldable pub block_of : Db D → Deposit → Option Block
  unfolding find
  block_of db d = find (λ b. b.network_id == d.network_id && b.id == d.block_id) db.blocks

  unfoldable pub is_stored_below : Db D → ℕ → ℕ → Deposit → Bool
  unfolding any
  is_stored_below db network_id block_number d =
      d.network_id == network_id
      && any
          (λ b.
            b.network_id == d.network_id && b.id == d.block_id && leb b.block_number block_number)
          db.blocks

  -- One more than the greatest deposit count, as a uint32.
  unfoldable pub number_deposits : ℕ → ℕ → Db D → ℕ
  unfolding is_stored_below keep maximum
  number_deposits network_id block_number db =
      elim (maximum (
        map (λ d. d.deposit_count)
          (keep (is_stored_below db network_id block_number) db.deposits))) [
            | none ↦ 0
            | some count ↦ (count + 1) % u32_mod
          ]

  unfoldable pub get_number_deposits : ℕ → ℕ → State (Db D) ℕ
  unfolding serve number_deposits
  get_number_deposits network_id block_number = do
    serve
    gets (number_deposits network_id block_number)

  unfoldable pub get_deposit : ℕ → ℕ → State (Db D) Deposit
  unfolding serve find block_of is_stored_below any
  get_deposit deposit_counter network_id = do
    serve
    row ← gets λ db.
        find
          (λ d.
            d.network_id == network_id
            && d.deposit_count == deposit_counter
            && any (λ b. b.network_id == d.network_id && b.id == d.block_id) db.blocks)
          db.deposits
    d ← lift (or_err storage_not_found row)
    block ← gets λ db. block_of db d
    lift (with_block d block)

  unfoldable pub add_claim : Claim → State (Db D) (Unit {0})
  unfolding serve any same_claim
  add_claim claim = do
    serve
    exists ← gets λ db. any (same_claim claim) db.claims
    if exists
        then fail already_exists
        else modify λ db. record db { claims = db.claims ++ claim ∷ [] }

  unfoldable pub delete_claim_by_global_index : ℕ → ℕ → State (Db D) (Unit {0})
  unfolding serve keep
  delete_claim_by_global_index global_index network_id = do
    serve
    modify λ db. record db {
      claims =
          keep (λ c. not (c.global_index == global_index && c.network_id == network_id)) db.claims;
    }

  -- The deposits that go, with their rows of mt.root and mt.rht.
  unfoldable pub delete_deposits : (Deposit → Bool) → Db D → Db D
  unfolding keep any
  delete_deposits doomed db =
      let gone = λ (id : ℕ). any (λ d. d.id == id && doomed d) db.deposits in
      record db {
        deposits = keep (λ d. not (doomed d)) db.deposits;
        roots = keep (λ r. not (gone r.deposit_id)) db.roots;
        rht = keep (λ r. not (gone r.deposit_id)) db.rht;
      }

  unfoldable pub event_block : EventRow D → ℕ
  event_block (backward_let e) = e.block_id
  event_block (forward_let e) = e.block_id
  event_block (set_claim e) = e.block_id
  event_block (unset_claim e) = e.block_id
  event_block (removed_root e) = e.block_id

  -- The blocks that go, with all rows that name them.
  unfoldable pub delete_blocks : (Block → Bool) → Db D → Db D
  unfolding delete_deposits keep any event_block
  delete_blocks doomed db =
      let gone = λ (id : ℕ). any (λ b. b.id == id && doomed b) db.blocks in
      record (delete_deposits (λ d. gone d.block_id) db) {
        blocks = keep (λ b. not (doomed b)) db.blocks;
        rollup_exit = keep (λ r. not (gone r.block_id)) db.rollup_exit;
        claims = keep (λ c. not (gone c.block_id)) db.claims;
        tokens = keep (λ t. not (gone t.block_id)) db.tokens;
        exit_roots = keep (λ r. not (gone r.ger.block_id)) db.exit_roots;
        events = keep (λ e. not (gone (event_block e))) db.events;
      }

  unfoldable pub reset : ℕ → ℕ → State (Db D) (Unit {0})
  unfolding serve delete_blocks
  reset block_number network_id = do
    serve
    modify (delete_blocks (λ b. ltb block_number b.block_number && b.network_id == network_id))

  unfoldable pub reset_deposits : ℕ → ℕ → State (Db D) (Unit {0})
  unfolding serve delete_deposits
  reset_deposits deposit_count network_id = if network_id == 0 then fail cannot_reset_l1 else (do
    serve
    modify (delete_deposits (λ d. leb deposit_count d.deposit_count && d.network_id == network_id)))

  unfoldable pub add_event : EventRow D → State (Db D) (Unit {0})
  unfolding serve
  add_event row = do serve; modify λ db. record db { events = db.events ++ row ∷ [] }

  unfoldable pub token_metadata : DecodeToken → TokenWrapped → Db D → Result TokenMetadata
  unfolding find
  token_metadata decode t db =
      elim (find
        (λ d.
          d.network_id == t.original_network
          && d.original_address == t.original_token_address
          && d.destination_network == t.network_id)
        db.deposits) [
          | none ↦ ok (record { name = []; symbol = []; decimals = 0 })
          | some d ↦ decode d.metadata
        ]

  unfoldable pub add_token_wrapped : DecodeToken → TokenWrapped → State (Db D) (Unit {0})
  unfolding serve token_metadata any same_token
  add_token_wrapped decode t = do
    serve
    metadata ← λ db. (token_metadata decode t db, db)
    serve
    exists ← gets λ db. any (same_token t) db.tokens
    if exists
        then fail already_exists
        else modify λ db. record db { tokens = db.tokens ++ record t { metadata = metadata } ∷ [] }
