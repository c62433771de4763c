-- ===== src/Synchronizer/GerTests.antt =====
-- The global exit roots of a synchronizer of L2, at a row that waits for its exit roots.
use zkevm_bridge_service.Base.{[], ◌∷◌, true, Option, none, some, Result}
use zkevm_bridge_service.Bridgectrl.Tests.{Term, empty, pair, term_keccak, empty_db}
use zkevm_bridge_service.Storage.Tables.{GlobalExitRoot, ExitRootRow, Db}
use zkevm_bridge_service.Synchronizer.World.{World}
use zkevm_bridge_service.Synchronizer.Events.{process_global_exit_root}
use zkevm_bridge_service.Synchronizer.EventTests.{cfg, world}

-- A root that was inserted at the L2, with no exit roots yet.
abbrev waiting : ExitRootRow Term
waiting = record {
  ger = record {
    id = 1;
    block_id = 4;
    block_number = 0;
    network_id = 1;
    global_exit_root = pair empty empty;
    exit_roots = [];
  };
  allowed = true;
}

abbrev waiting_db : Db Term
waiting_db = record empty_db { exit_roots = waiting ∷ [] }

abbrev waiting_world : World Term
waiting_world = record world { db = waiting_db; tx = waiting_db }

-- The exit roots that the L1 publishes for it.
abbrev published : GlobalExitRoot Term
published = record {
  id = 0;
  block_id = 0;
  block_number = 9;
  network_id = 0;
  global_exit_root = pair empty empty;
  exit_roots = [];
}

abbrev after : {A : Type 0} → World Term → Option (Result A × World Term) → World Term
after w (some (_, w')) = w'
after w none = w

abbrev completed : World Term
completed = after waiting_world (
    process_global_exit_root cfg (record published { exit_roots = empty ∷ empty ∷ [] }) 7
      waiting_world)
