-- ===== src/Storage/Trees.antt =====
-- db/pgstorage/pgstorage.go: the statements on mt.root, mt.rht and mt.rollup_exit.
use zkevm_bridge_service.Base.{
  ℕ, suc, ◌+◌, List, [], map, ◌∷◌, ◌++◌, Bool, true, false, ◌&&◌, Option, none, some, find, any,
  keep, maximum, ltb, leb, ◌==◌, if◌then◌else◌, or_err, Result, ok, err, panic, storage_not_found,
  length,
}
use zkevm_bridge_service.Base.State.{State, ◌>>=◌, ◌>>◌, lift, gets, modify}
use zkevm_bridge_service.Bridgectrl.Keccak.{Keccak}
use zkevm_bridge_service.Storage.Tables.{RootRow, Node, RollupExitLeaf, Db, serve}

module _ {D : Type 0} ⦃k : Keccak D⦄ where
  unfoldable pub same_digest : D → D → Bool
  same_digest a b = elim (k.same a b) [ yes _ ↦ true | no _ ↦ false ]

  unfoldable pub set_root : D → ℕ → ℕ → State (Db D) (Unit {0})
  unfolding serve
  set_root root deposit_id network = do
    serve
    modify λ db. record db {
      roots = db.roots ++ record { root = root; deposit_id = deposit_id; network = network } ∷ [];
    }

  -- The row that the join of mt.root with sync.deposit keeps for a deposit count.
  unfoldable pub is_root_of : Db D → ℕ → ℕ → RootRow D → Bool
  unfolding any
  is_root_of db deposit_cnt network row =
      row.network == network
      && any (λ d. d.id == row.deposit_id && d.deposit_count == deposit_cnt) db.deposits

  unfoldable pub get_root : ℕ → ℕ → State (Db D) D
  unfolding serve is_root_of find
  get_root deposit_cnt network = do
    serve
    row ← gets λ db. find (is_root_of db deposit_cnt network) db.roots
    found ← lift (or_err storage_not_found row)
    gets λ db. found.root

  abbrev or_absent : (Db D → Bool) → Result (Unit {0}) × Db D → Result Bool × Db D
  or_absent exists (ok _, db) = (ok (exists db), db)
  or_absent exists (err e, db) = (ok false, db)
  or_absent exists (panic, db) = (panic, db)

  -- A query that fails counts as one that finds no root.
  unfoldable pub check_if_root_exists : D → ℕ → State (Db D) Bool
  unfolding serve any same_digest
  check_if_root_exists root network db =
      or_absent (λ d. any (λ row. same_digest row.root root && row.network == network) d.roots)
        (serve db)

  unfoldable pub bulk_set : List (Node D) → State (Db D) (Unit {0})
  unfolding serve
  bulk_set rows = do serve; modify λ db. record db { rht = db.rht ++ rows }

  unfoldable pub get_node : D → State (Db D) (Node D)
  unfolding serve find same_digest
  get_node key = do
    serve
    found ← gets λ db. find (λ row. same_digest row.key key) db.rht
    lift (or_err storage_not_found found)

  -- The deposit count of the newest deposit that has a root.
  unfoldable pub last_count : Db D → ℕ → Option ℕ
  unfolding keep find maximum
  last_count db network =
      elim (maximum (map (λ r. r.deposit_id) (keep (λ r. r.network == network) db.roots))) [
        | none ↦ none
        | some id ↦ elim (find (λ d. d.id == id) db.deposits) [
          | none ↦ none
          | some d ↦ some d.deposit_count
        ]
      ]

  -- A failed query is answered by the count 0 and no error.
  abbrev pub counted : ℕ → Result (Unit {0}) × Db D → Result ℕ × Db D
  counted network (ok _, db) = (or_err storage_not_found (last_count db network), db)
  counted network (err e, db) = (ok 0, db)
  counted network (panic, db) = (panic, db)

  unfoldable pub get_last_deposit_count : ℕ → State (Db D) ℕ
  unfolding serve last_count
  get_last_deposit_count network db = counted network (serve db)

  unfoldable pub is_rollup_exit_root : D → State (Db D) Bool
  unfolding serve any same_digest
  is_rollup_exit_root root = do
    serve
    gets λ db. any (λ row. same_digest row.root root) db.rollup_exit

  abbrev leaf_rows : ℕ → D → ℕ → List (ℕ × D) → List (RollupExitLeaf D)
  leaf_rows id root block_id [] = []
  leaf_rows id root block_id ((rollup_id, leaf) ∷ rest) =
      record { id = id; leaf = leaf; rollup_id = rollup_id; root = root; block_id = block_id }
      ∷ leaf_rows (suc id) root block_id rest

  -- The rows of one call have one root and one block.
  unfoldable pub add_rollup_exit_leaves : List (ℕ × D) → D → ℕ → State (Db D) (Unit {0})
  unfolding serve
  add_rollup_exit_leaves rows root block_id = do
    serve
    modify λ db. record db {
      rollup_exit = db.rollup_exit ++ leaf_rows db.next_leaf_id root block_id rows;
      next_leaf_id = db.next_leaf_id + length rows;
    }

  -- One row for each rollup, in the order of the rollups: of two rows the one with the greater id.
  unfoldable pub put_latest : RollupExitLeaf D → List (RollupExitLeaf D) → List (RollupExitLeaf D)
  put_latest row [] = row ∷ []
  put_latest row (r ∷ rs) =
      let rest = put_latest row rs in
      if row.rollup_id == r.rollup_id
      then (if ltb r.id row.id then row else r) ∷ rs
      else if ltb row.rollup_id r.rollup_id
      then row ∷ r ∷ rs
      else r ∷ rest

  unfoldable pub latest_leaves : List (RollupExitLeaf D) → List (RollupExitLeaf D)
  unfolding put_latest
  latest_leaves [] = []
  latest_leaves (row ∷ rows) = put_latest row (latest_leaves rows)

  unfoldable pub get_latest_rollup_exit_leaves : State (Db D) (List (RollupExitLeaf D))
  unfolding serve latest_leaves
  get_latest_rollup_exit_leaves = do serve; gets λ db. latest_leaves db.rollup_exit

  unfoldable pub put_by_rollup :
      RollupExitLeaf D → List (RollupExitLeaf D) → List (RollupExitLeaf D)
  put_by_rollup row [] = row ∷ []
  put_by_rollup row (r ∷ rs) =
      let rest = put_by_rollup row rs in
      if leb row.rollup_id r.rollup_id then row ∷ r ∷ rs else r ∷ rest

  unfoldable pub leaves_by_root : D → List (RollupExitLeaf D) → List (RollupExitLeaf D)
  unfolding same_digest put_by_rollup
  leaves_by_root root [] = []
  leaves_by_root root (row ∷ rows) =
      let rest = leaves_by_root root rows in
      if same_digest row.root root then put_by_rollup row rest else rest

  unfoldable pub get_rollup_exit_leaves_by_root : D → State (Db D) (List (RollupExitLeaf D))
  unfolding serve leaves_by_root
  get_rollup_exit_leaves_by_root root = do serve; gets λ db. leaves_by_root root db.rollup_exit
