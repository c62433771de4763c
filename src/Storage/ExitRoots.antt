-- ===== src/Storage/ExitRoots.antt =====
-- db/pgstorage/pgstorage.go: the statements on sync.exit_root. Rows stand in the order of their ids.
use zkevm_bridge_service.Base.{
  ℕ, suc, List, [], map, ◌∷◌, ◌++◌, Bool, true, false, ◌&&◌, not, none, some, find, any, keep, ltb,
  ◌==◌, if◌then◌else◌, or_err, Result, ok, err, panic, length, reverse, u64_mod, ◌-◌,
  storage_not_found, l1_ger_not_found, already_exists, database,
}
use zkevm_bridge_service.Base.State.{State, ◌>>=◌, ◌>>◌, pure, fail, lift, gets, modify}
use zkevm_bridge_service.Bridgectrl.Keccak.{Keccak}
use zkevm_bridge_service.Storage.Tables.{
  GlobalExitRoot, ExitRootRow, Deposit, removed_root, Db, serve,
}
use zkevm_bridge_service.Storage.Trees.{same_digest}
use zkevm_bridge_service.Storage.Chain.{add_event}

module _ {D : Type 0} where
  -- The first two exit roots; one alone is an index out of range.
  unfoldable pub two_roots : List D → Result (List D)
  two_roots [] = ok []
  two_roots (a ∷ []) = panic
  two_roots (a ∷ b ∷ rest) = ok (a ∷ b ∷ [])

  -- A stored row's two exit roots.
  unfoldable pub both_roots : List D → Result (List D)
  both_roots (a ∷ b ∷ rest) = ok (a ∷ b ∷ [])
  both_roots other = panic

module _ {D : Type 0} ⦃k : Keccak D⦄ where
  unfoldable pub same_root_row : GlobalExitRoot D → ExitRootRow D → Bool
  unfolding same_digest
  same_root_row ger row =
      row.ger.block_id == ger.block_id
      && same_digest row.ger.global_exit_root ger.global_exit_root
      && row.ger.network_id == ger.network_id

  abbrev new_row : ℕ → GlobalExitRoot D → List D → ExitRootRow D
  new_row id ger exit_roots = record {
    ger = record ger { id = id; exit_roots = exit_roots };
    allowed = true;
  }

  unfoldable pub add_global_exit_root : GlobalExitRoot D → State (Db D) (Unit {0})
  unfolding serve two_roots any same_root_row
  add_global_exit_root ger = do
    exit_roots ← lift (two_roots ger.exit_roots)
    serve
    exists ← gets λ db. any (same_root_row ger) db.exit_roots
    if exists
        then fail already_exists
        else modify λ db. record db {
          exit_roots = db.exit_roots ++ new_row db.next_exit_root_id ger exit_roots ∷ [];
          next_exit_root_id = suc db.next_exit_root_id;
        }

  -- What GetL1ExitRootByGER and GetLatestL1SyncedExitRoot read of a row.
  abbrev l1_row : GlobalExitRoot D → Result (GlobalExitRoot D)
  l1_row ger = elim (both_roots ger.exit_roots) [
    | ok roots ↦ ok (record ger { id = 0; block_number = 0; network_id = 0; exit_roots = roots })
    | err e ↦ err e
    | panic ↦ panic
  ]

  unfoldable pub is_l1_row : ExitRootRow D → Bool
  is_l1_row row = row.allowed && ltb 0 row.ger.block_id && row.ger.network_id == 0

  unfoldable pub get_l1_exit_root_by_ger : D → State (Db D) (GlobalExitRoot D)
  unfolding serve find is_l1_row same_digest both_roots
  get_l1_exit_root_by_ger ger = do
    serve
    row ← gets λ db.
        find (λ r. is_l1_row r && same_digest r.ger.global_exit_root ger) (reverse db.exit_roots)
    found ← lift (or_err storage_not_found row)
    lift (l1_row found.ger)

  unfoldable pub get_latest_l1_synced_exit_root : State (Db D) (GlobalExitRoot D)
  unfolding serve find is_l1_row both_roots
  get_latest_l1_synced_exit_root = do
    serve
    row ← gets λ db. find is_l1_row (reverse db.exit_roots)
    found ← lift (or_err storage_not_found row)
    lift (l1_row found.ger)

  -- A row of another network than L1 that has the root and no exit roots yet.
  unfoldable pub is_incomplete : D → ExitRootRow D → Bool
  unfolding same_digest
  is_incomplete ger row =
      row.allowed
      && ltb 0 row.ger.block_id
      && same_digest row.ger.global_exit_root ger
      && not (row.ger.network_id == 0)
      && length row.ger.exit_roots == 0

  unfoldable pub get_l2_exit_roots_by_ger : D → State (Db D) (List (GlobalExitRoot D))
  unfolding serve keep is_incomplete
  get_l2_exit_roots_by_ger ger = do
    serve
    gets λ db. map (λ r. r.ger) (reverse (keep (is_incomplete ger) db.exit_roots))

  unfoldable pub set_exit_roots : ℕ → List D → ExitRootRow D → ExitRootRow D
  set_exit_roots id exit_roots row =
      if row.ger.id == id
      then record row { ger = record row.ger { exit_roots = exit_roots } }
      else row

  unfoldable pub update_l2_ger : GlobalExitRoot D → State (Db D) (Unit {0})
  unfolding serve both_roots set_exit_roots
  update_l2_ger ger = do
    exit_roots ← lift (both_roots ger.exit_roots)
    serve
    modify λ db. record db { exit_roots = map (set_exit_roots ger.id exit_roots) db.exit_roots }

  -- The exit roots of the row, or else those of L1's row of the root.
  abbrev completed :
      GlobalExitRoot D → Result (GlobalExitRoot D) × Db D → Result (GlobalExitRoot D) × Db D
  completed ger (ok l1_ger, db) = (ok (record ger { exit_roots = l1_ger.exit_roots }), db)
  completed ger (err e, db) = (err l1_ger_not_found, db)
  completed ger (panic, db) = (panic, db)

  unfoldable pub get_latest_trusted_exit_root : ℕ → State (Db D) (GlobalExitRoot D)
  unfolding serve find get_l1_exit_root_by_ger
  get_latest_trusted_exit_root network_id = do
    serve
    row ← gets λ db. find (λ r. r.ger.network_id == network_id && r.allowed) (reverse db.exit_roots)
    found ← lift (or_err storage_not_found row)
    let ger : GlobalExitRoot D = record found.ger { block_number = 0 }
    if length ger.exit_roots == 2 then pure ger else λ db.
        completed ger (get_l1_exit_root_by_ger ger.global_exit_root db)

  -- The deposits whose root of L1's tree is the first exit root of a row of the global exit root.
  unfoldable pub is_deposit_of_ger : Db D → D → ℕ → Deposit → Bool
  unfolding any same_digest
  is_deposit_of_ger db ger network d =
      any
        (λ r.
          r.deposit_id == d.id
          && r.network == 0
          && any
              (λ e.
                same_digest e.ger.global_exit_root ger
                && e.ger.network_id == network
                && any (λ first. same_digest r.root first)
                    (elim e.ger.exit_roots [ [] ↦ [] | x ∷ xs ↦ x ∷ [] ]))
              db.exit_roots)
        db.roots

  -- GetDepositCountByGER for L1's tree: the id alone, and what stands in for it if there is none.
  unfoldable pub deposit_id_by_ger : ℕ → D → ℕ → State (Db D) ℕ
  unfolding serve find is_deposit_of_ger
  deposit_id_by_ger default ger network = do
    serve
    gets λ db. elim (find (is_deposit_of_ger db ger network) db.deposits) [
      | none ↦ default
      | some d ↦ d.id
    ]

  -- AddRemoveL2GER: the root is no longer allowed, and the deposits from L1 that it brought are no
  -- longer ready.
  unfoldable pub add_remove_l2_ger : GlobalExitRoot D → State (Db D) (Unit {0})
  unfolding serve add_event find same_digest deposit_id_by_ger
  add_remove_l2_ger ger = do
    add_event (removed_root ger)
    serve
    let is_it : ExitRootRow D → Bool = λ r.
        same_digest r.ger.global_exit_root ger.global_exit_root
        && r.ger.network_id == ger.network_id
    row ← gets λ db. find is_it db.exit_roots
    modify λ db. record db {
      exit_roots = map (λ r. if is_it r then record r { allowed = false } else r) db.exit_roots;
    }
    it ← lift (or_err database row)
    serve
    earlier ← gets λ db.
        find (λ r. r.ger.network_id == ger.network_id && ltb r.ger.id it.ger.id)
          (reverse db.exit_roots)
    prev ← lift (or_err database earlier)
    prev_id ← deposit_id_by_ger 0 prev.ger.global_exit_root ger.network_id
    current_id ← deposit_id_by_ger (u64_mod - 1) ger.global_exit_root ger.network_id
    serve
    modify λ db. record db {
      deposits =
          map
            (λ d.
              if ltb prev_id d.id
                && not (ltb current_id d.id)
                && d.network_id == 0
                && d.destination_network == ger.network_id
              then record d { ready_for_claim = false }
              else d)
            db.deposits;
    }
