-- ===== src/Claimtxman/Start.antt =====
-- claimtxman/claimtxman.go: Start, one function for each case of its select and a relation of the
-- steps. A goroutine of processPendingDeposits reads the variable `ger`, which it shares with the
-- loop, at any time after it was started, and runs at any time after that: the mutex lets one run at
-- a time. The answers of the nodes to MonitorTxs may differ at each tick. That a panic ends the
-- program, and that a goroutine's statements may come between those of the loop, is left out.
pub mod Runs
pub mod Tests
use zkevm_bridge_service.Base.{
  ℕ, suc, zero, ◌≡◌, refl, ap, ◌∙◌, ◌⊎◌, inl, inr, List, [], ◌∷◌, ◌++◌, Bool, true, false, ◌&&◌,
  not, Bool-cases, ◌==◌, if◌then◌else◌, Result, ok, err, panic, arith,
}
use zkevm_bridge_service.Base.State.{State}
use zkevm_bridge_service.Bridgectrl.Keccak.{Keccak}
use zkevm_bridge_service.Storage.Tables.{GlobalExitRoot}
use zkevm_bridge_service.Claimtxman.NonceCache.{NonceStore}
use zkevm_bridge_service.Claimtxman.Deposits.{ClaimTxManager, Nodes, Claiming, on_base}
use zkevm_bridge_service.Claimtxman.Deposits.Process.{process_pending_deposits}
use zkevm_bridge_service.Claimtxman.Monitor.{Monitor, Monitoring, monitor_txs}
use zkevm_bridge_service.Claimtxman.Types.{GroupEntry}
use zkevm_bridge_service.Claimtxman.Compressed.{MonitorCompressed, Grouped, monitor_compressed_txs}
use zkevm_bridge_service.Claimtxman.Status.{Network, update_deposits_status}

-- The variables of Start, the flags of ClaimTxManager, how many goroutines have not read the exit
-- root yet, those that others have read and wait with for the mutex, and what they work on.
module _ (store : NonceStore) (tm : ClaimTxManager) (nodes : Nodes) where
  pub record Manager : Type 0 where
    pub l1_synced : Bool
    pub l2_synced : Bool
    pub ger : GlobalExitRoot ℕ
    pub latest_processed_ger : ℕ
    pub started : ℕ
    pub called : List (GlobalExitRoot ℕ)
    pub claiming : Claiming store tm nodes
    pub groups : List GroupEntry

-- GroupingClaims.Enabled and the rollup.
pub record Settings : Type 0 where
  pub rollup_id : ℕ
  pub grouping_enabled : Bool

module _ ⦃k : Keccak ℕ⦄ (store : NonceStore) (tm : ClaimTxManager) (nodes : Nodes)
    (cfg : Settings) where
  abbrev pub M : Type 0
  M = Manager store tm nodes

  abbrev pub is_synced : M → Bool
  is_synced m = m.l2_synced && m.l1_synced

  -- The case of chSynced.
  unfoldable pub note_network : ℕ → M → M
  note_network net_id m = record m {
    l2_synced = if net_id == tm.l2_network_id then true else m.l2_synced;
    l1_synced = if net_id == 0 then true else m.l1_synced;
  }

  abbrev pub start_processing : M → M
  start_processing m = record m { started = suc m.started }

  abbrev pub after_update : M → Result (Unit {0}) × Claiming store tm nodes → M
  after_update m (ok _, w) =
      let n = record m { claiming = w } in if cfg.grouping_enabled then n else start_processing n
  after_update m (err e, w) = record m { claiming = w }
  after_update m (panic, w) = record m { claiming = w }

  -- The case of chExitRootEvent.
  unfoldable pub receive_ger : GlobalExitRoot ℕ → M → M
  unfolding update_deposits_status
  receive_ger ger m =
      let n = record m { ger = ger } in
      if is_synced m
      then after_update n (
          on_base store tm nodes
            (update_deposits_status
              (record { l2_network_id = tm.l2_network_id; rollup_id = cfg.rollup_id }) ger)
            n.claiming)
      else n

  -- The case of the compressor's ticker.
  unfoldable pub compressor_tick : M → M
  compressor_tick m =
      if is_synced m
        && cfg.grouping_enabled
        && not (m.ger.global_exit_root == m.latest_processed_ger)
      then record (start_processing m) { latest_processed_ger = m.ger.global_exit_root }
      else m

  -- MonitorTxs on the tables and the cache; the hashes that it sends are not kept here.
  unfoldable pub monitor_once : Monitor → Claiming store tm nodes → Claiming store tm nodes
  unfolding monitor_txs
  monitor_once monitor w =
      let before : Monitoring store monitor = record {
        db = w.db;
        nonces = w.nonces;
        sent_txs = [];
      } in
      let after = (monitor_txs store monitor before).1 in
      record w { db = after.db; nonces = after.nonces }

  -- The tables and the cache, with the groups.
  abbrev pub Work : Type 0
  Work = Claiming store tm nodes × List GroupEntry

  unfoldable pub monitor_groups_once : MonitorCompressed → Work → Work
  unfolding monitor_compressed_txs
  monitor_groups_once monitor (w, groups) =
      let before : Grouped = record { db = w.db; groups = groups } in
      let after = (monitor_compressed_txs monitor before).1 in
      (record w { db = after.db }, after.groups)

  -- What the two monitors ask in a round; NewClaimTxManager chooses one of them.
  abbrev pub Asked : Type 0
  Asked = Monitor × MonitorCompressed

  abbrev pub monitoring : Asked → Work → Work
  monitoring (single, grouped) (w, groups) =
      if cfg.grouping_enabled
      then monitor_groups_once grouped (w, groups)
      else (monitor_once single w, groups)

  -- The case of the ticker.
  unfoldable pub monitor_tick : Asked → M → M
  unfolding monitor_once monitor_groups_once
  monitor_tick asked m =
      let after = monitoring asked (m.claiming, m.groups) in
      record m { claiming = after.0; groups = after.1 }

  -- One of the goroutines reads the exit root and calls processPendingDeposits.
  unfoldable pub call_started : ℕ → M → M
  call_started others m = record m { started = others; called = m.called ++ m.ger ∷ [] }

  -- One of the calls runs.
  unfoldable pub run_called :
      List (GlobalExitRoot ℕ) → GlobalExitRoot ℕ → List (GlobalExitRoot ℕ) → M → M
  unfolding process_pending_deposits
  run_called earlier ger later m = record m {
    called = earlier ++ later;
    claiming = (process_pending_deposits store tm nodes ger m.claiming).1;
  }

  pub data Steps : M → M → Type 0 where
    none_yet : {m : M} → Steps m m
    synced : {m n : M} → (net_id : ℕ) → Steps m n → Steps m (note_network net_id n)
    received : {m n : M} → (ger : GlobalExitRoot ℕ) → Steps m n → Steps m (receive_ger ger n)
    compressed : {m n : M} → Steps m n → Steps m (compressor_tick n)
    monitored : {m n : M} → (asked : Asked) → Steps m n → Steps m (monitor_tick asked n)
    read :
        {m n : M}
        → (others : ℕ) → n.started ≡ suc others
        → Steps m n
        → Steps m (call_started others n)
    processed :
        {m n : M}
        → (earlier : List (GlobalExitRoot ℕ)) (ger : GlobalExitRoot ℕ)
          (later : List (GlobalExitRoot ℕ))
        → n.called ≡ earlier ++ ger ∷ later
        → Steps m n
        → Steps m (run_called earlier ger later n)
