-- ===== src/Claimtxman/Deposits/Queries.antt =====
-- db/pgstorage/pgstorage.go: the queries for the deposits that are to be claimed. Rows that their
-- ORDER BY leaves equal stay in the order of the table.
use zkevm_bridge_service.Base.{
  ℕ, List, [], ◌∷◌, Bool, true, false, ◌&&◌, not, Option, none, some, any, keep, find, take, drop,
  get_elem?, length, ltb, leb, ◌==◌, if◌then◌else◌, Result, ok, err, storage_not_found,
}
use zkevm_bridge_service.Base.State.{State, ◌>>=◌, ◌>>◌, pure, lift, gets, zoom}
use zkevm_bridge_service.Storage.Tables.{Block, Deposit, ExitRootRow, Db, serve}
use zkevm_bridge_service.Claimtxman.Deposits.{ClaimDb}

-- ORDER BY: `before x y` puts the row x first.
module _ {A : Type 0} (before : A → A → Bool) where
  unfoldable pub put : A → List A → List A
  put x [] = x ∷ []
  put x (y ∷ ys) = let rest = put x ys in if before x y then x ∷ y ∷ ys else y ∷ rest

  unfoldable pub order_by : List A → List A
  unfolding put
  order_by [] = []
  order_by (x ∷ xs) = put x (order_by xs)

-- The parameter fromNetwork: below 0 or above 1, 0, and 1.
pub data FromNetwork : Type 0 where
  all_networks only_l1 only_l2 : FromNetwork

abbrev pub comes_from : FromNetwork → ℕ → Bool
comes_from all_networks network_id = true
comes_from only_l1 network_id = network_id == 0
comes_from only_l2 network_id = not (network_id == 0)

-- addrSQL: the destination of an asset or the origin of a message, unless the address is zero.
unfoldable pub matches_address : ℕ → ℕ → Deposit → Bool
matches_address address_filter leaf_type d =
    if address_filter == 0
    then true
    else if leaf_type == 0
    then d.destination_address == address_filter
    else if leaf_type == 1
    then d.original_address == address_filter
    else true

-- A claim with the deposit's index on the network, whatever network the claim's deposit was made on.
unfoldable pub has_claim : ℕ → ClaimDb → Deposit → Bool
unfolding any
has_claim network_id db d =
    any (λ c. c.network_id == network_id && c.index == d.deposit_count) db.base.claims

unfoldable pub is_ignored : ClaimDb → Deposit → Bool
unfolding any
is_ignored db d = any (λ id. id == d.id) db.ignored

unfoldable pub has_monitored_tx : ClaimDb → Deposit → Bool
unfolding any
has_monitored_tx db d = any (λ t. t.deposit_id == d.id) db.monitored_txs

-- The WHERE clause of GetDepositsFromOtherL2ToClaim.
unfoldable pub is_l2_to_claim : ℕ → ClaimDb → Deposit → Bool
unfolding has_claim is_ignored
is_l2_to_claim destination_network db d =
    not (has_claim destination_network db d)
    && not (d.network_id == 0)
    && not (is_ignored db d)
    && d.destination_network == destination_network
    && d.ready_for_claim

-- The WHERE clause of GetPendingDepositsToClaim.
unfoldable pub is_pending_to_claim : ℕ → ℕ → ℕ → FromNetwork → ClaimDb → Deposit → Bool
unfolding matches_address has_claim has_monitored_tx is_ignored
is_pending_to_claim address_filter dest_network leaf_type from_network db d =
    d.destination_network == dest_network
    && d.ready_for_claim
    && comes_from from_network d.network_id
    && d.leaf_type == leaf_type
    && matches_address address_filter leaf_type d
    && not (is_ignored db d)
    && not (has_claim dest_network db d)
    && not (has_monitored_tx db d)

-- INNER JOIN sync.block, whose column is the block number of the row.
abbrev pub join_block : Deposit → Option Block → List Deposit → List Deposit
join_block d (some b) rest = record d { block_number = b.block_number } ∷ rest
join_block d none rest = rest

unfoldable pub with_blocks : List Block → List Deposit → List Deposit
unfolding find
with_blocks blocks [] = []
with_blocks blocks (d ∷ ds) =
    join_block d (find (λ b. b.id == d.block_id) blocks) (with_blocks blocks ds)

abbrev pub on_tables : {A : Type 0} → State (Db ℕ) A → State ClaimDb A
on_tables = zoom (λ db. db.base) (λ b db. record db { base = b })

-- The query has no column for the block number.
abbrev pub without_blocks : List Deposit → List Deposit
without_blocks [] = []
without_blocks (d ∷ ds) = record d { block_number = 0 } ∷ without_blocks ds

unfoldable pub get_deposits_from_other_l2_to_claim : ℕ → State ClaimDb (List Deposit)
unfolding serve keep is_l2_to_claim order_by
get_deposits_from_other_l2_to_claim destination_network = do
  on_tables serve
  gets λ db. without_blocks (
      order_by (λ d e. leb e.id d.id)
        (keep (is_l2_to_claim destination_network db) db.base.deposits))

-- getNumberPendingDepositsToClaimSQL and getPendingDepositsToClaimSQL.
unfoldable pub count_pending : ℕ → ℕ → ℕ → FromNetwork → State ClaimDb ℕ
unfolding serve keep is_pending_to_claim
count_pending address_filter dest_network leaf_type from_network = do
  on_tables serve
  gets λ db. length (
      keep (is_pending_to_claim address_filter dest_network leaf_type from_network db)
        db.base.deposits)

unfoldable pub select_pending : ℕ → ℕ → ℕ → FromNetwork → State ClaimDb (List Deposit)
unfolding serve keep is_pending_to_claim with_blocks order_by
select_pending address_filter dest_network leaf_type from_network = do
  on_tables serve
  gets λ db.
      order_by (λ d e. leb d.deposit_count e.deposit_count)
        (with_blocks db.base.blocks (
          keep (is_pending_to_claim address_filter dest_network leaf_type from_network db)
            db.base.deposits))

-- LIMIT and OFFSET.
abbrev pub limited : {A : Type 0} → ℕ → ℕ → List A → List A
limited limit offset rows = if ltb 0 limit then take limit (drop offset rows) else rows

-- The deposits and their number.
unfoldable pub get_pending_deposits_to_claim :
    ℕ → ℕ → ℕ → ℕ → ℕ → FromNetwork → State ClaimDb (List Deposit × ℕ)
unfolding count_pending select_pending
get_pending_deposits_to_claim address_filter dest_network leaf_type limit offset from_network = do
  total_count ← count_pending address_filter dest_network leaf_type from_network
  deposits ← select_pending address_filter dest_network leaf_type from_network
  pure (limited limit offset deposits, total_count)

abbrev is_rollups_root : ℕ → Option ℕ → Bool
is_rollups_root root (some r) = r == root
is_rollups_root root none = false

-- The joins of GetLatestTrustedGERByDeposit: the deposit's root is a leaf, under this rollup, of a
-- rollups exit tree whose root is the second exit root of the row.
unfoldable pub is_trusted_ger : ℕ → ℕ → ℕ → Db ℕ → ExitRootRow ℕ → Bool
unfolding any
is_trusted_ger deposit_cnt network_id destination_network db row =
    row.allowed
    && row.ger.network_id == destination_network
    && any
        (λ d.
          d.deposit_count == deposit_cnt
          && d.network_id == network_id
          && d.destination_network == destination_network
          && any
              (λ r.
                r.deposit_id == d.id
                && any
                    (λ l.
                      l.leaf == r.root
                      && l.rollup_id == network_id
                      && is_rollups_root l.root (get_elem? row.ger.exit_roots 1))
                    db.rollup_exit)
              db.roots)
        db.deposits

abbrev pub first_ger : List (ExitRootRow ℕ) → Result ℕ
first_ger [] = err storage_not_found
first_ger (row ∷ rows) = ok row.ger.global_exit_root

unfoldable pub select_trusted : ℕ → ℕ → ℕ → State ClaimDb (List (ExitRootRow ℕ))
unfolding serve keep is_trusted_ger order_by
select_trusted deposit_cnt network_id destination_network = do
  on_tables serve
  gets λ db.
      order_by (λ a b. leb b.ger.id a.ger.id)
        (keep (is_trusted_ger deposit_cnt network_id destination_network db.base)
          db.base.exit_roots)

unfoldable pub get_latest_trusted_ger_by_deposit : ℕ → ℕ → ℕ → State ClaimDb ℕ
unfolding select_trusted
get_latest_trusted_ger_by_deposit deposit_cnt network_id destination_network = do
  rows ← select_trusted deposit_cnt network_id destination_network
  lift (first_ger rows)
