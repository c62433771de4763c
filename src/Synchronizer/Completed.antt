-- ===== src/Synchronizer/Completed.antt =====
-- processGlobalExitRoot: what becomes of the rows of a global exit root that wait for its exit roots.
use zkevm_bridge_service.Base.{
  ℕ, ◌≡◌, List, [], map, reverse, ◌∷◌, Bool, false, ◌&&◌, not, any, keep, ◌==◌,
}
use zkevm_bridge_service.Bridgectrl.Keccak.{Keccak}
use zkevm_bridge_service.Storage.Tables.{GlobalExitRoot, ExitRootRow, Db}
use zkevm_bridge_service.Storage.ExitRoots.{is_incomplete}
use zkevm_bridge_service.Synchronizer.World.{World}

abbrev has : ℕ → List ℕ → Bool
has id ids = any (λ i. id == i) ids

abbrev rows_of : {D : Type 0} → Db D → List (ExitRootRow D)
rows_of db = db.exit_roots

module _ {D : Type 0} ⦃k : Keccak D⦄ (root : D) where
  -- An incomplete row that none of these updates reaches.
  abbrev waits : List ℕ → ExitRootRow D → Bool
  waits ids row = is_incomplete root row && not (has row.ger.id ids)

  abbrev ids_of : List (ExitRootRow D) → List ℕ
  ids_of [] = []
  ids_of (row ∷ rows) = row.ger.id ∷ ids_of rows

  abbrev ger_ids : List (GlobalExitRoot D) → List ℕ
  ger_ids [] = []
  ger_ids (g ∷ gs) = g.id ∷ ger_ids gs

  -- The rows that the query finds.
  abbrev waiting : Db D → List (GlobalExitRoot D)
  waiting db = map (λ r. r.ger) (reverse (keep (is_incomplete root) db.exit_roots))

  -- No row of the root waits for its exit roots.
  abbrev pub IsComplete : List (ExitRootRow D) → Type 0
  IsComplete rows = any (is_incomplete root) rows ≡ false
