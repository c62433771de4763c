-- ===== src/Claimtxman/Status.antt =====
-- claimtxman/claimtxman.go: updateDepositsStatus, on the tables of its transaction.
pub mod Marks
pub mod Proven
pub mod Tests
use zkevm_bridge_service.Base.{
  ℕ, List, [], ◌∷◌, Bool, true, false, ◌&&◌, not, ◌==◌, if◌then◌else◌, Result, ok, err, panic,
}
use zkevm_bridge_service.Base.State.{State, ◌>>=◌, ◌>>◌, lift}
use zkevm_bridge_service.Bridgectrl.Keccak.{Keccak}
use zkevm_bridge_service.Storage.Tables.{GlobalExitRoot, Db, serve}
use zkevm_bridge_service.Storage.Ready.{update_l1_deposits_status, update_l2_deposits_status}

-- The fields of ClaimTxManager that are read.
pub record Network : Type 0 where
  pub l2_network_id : ℕ
  pub rollup_id : ℕ

module _ {D : Type 0} where
  -- rollbackState: a transaction that is not committed leaves its tables as they were.
  abbrev pub rolled_back : Db D → Result (Unit {0}) × Db D → Result (Unit {0}) × Db D
  rolled_back before (r, db) = (r, record before { faults = db.faults })

  abbrev pub kept : Db D → Result (Unit {0}) × Db D → Result (Unit {0}) × Db D
  kept before (ok _, db) = (ok tt, db)
  kept before (err e, db) = rolled_back before (err e, db)
  kept before (panic, db) = rolled_back before (panic, db)

  -- From Begin to Commit.
  unfoldable pub in_transaction : State (Db D) (Unit {0}) → State (Db D) (Unit {0})
  unfolding serve
  in_transaction body db = kept db ((do serve; body; serve) db)

module _ {D : Type 0} ⦃k : Keccak D⦄ where
  -- Fewer than two exit roots are an index out of range.
  unfoldable pub update_by_ger : Network → Bool → List D → State (Db D) (Unit {0})
  unfolding update_l1_deposits_status update_l2_deposits_status
  update_by_ger net is_from_l1 (mainnet ∷ rollups ∷ rest) =
      if is_from_l1
      then update_l2_deposits_status rollups net.rollup_id net.l2_network_id true
      else (do
        update_l1_deposits_status mainnet net.l2_network_id
        update_l2_deposits_status rollups net.rollup_id net.l2_network_id false)
  update_by_ger net is_from_l1 other = lift panic

  unfoldable pub update_deposits_status : Network → GlobalExitRoot D → State (Db D) (Unit {0})
  unfolding in_transaction update_by_ger
  update_deposits_status net ger =
      in_transaction
        (update_by_ger net (not (ger.block_id == 0) && ger.network_id == 0) ger.exit_roots)
