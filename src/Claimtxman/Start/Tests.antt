-- ===== src/Claimtxman/Start/Tests.antt =====
-- claimtxman/claimtxman.go's Start: an exit root that comes before the networks are synced, and is
-- processed by the compressor's ticker once they are.
use mathlib.Core.List.{Memᴰ}
use zkevm_bridge_service.Base.{
  ℕ, suc, map, some, ok, ◌+◌, ◌*◌, ◌≡◌, refl, [], ◌∷◌, true, false, ℕ_discrete,
}
use zkevm_bridge_service.Bridgectrl.Keccak.{Keccak}
use zkevm_bridge_service.Storage.Tables.{GlobalExitRoot}
use zkevm_bridge_service.Claimtxman.Tests.{cache, config, claim}
use zkevm_bridge_service.Claimtxman.Groups.{waiting}
use zkevm_bridge_service.Claimtxman.Compressed.{MonitorCompressed, Grouped, monitor_compressed_txs}
use zkevm_bridge_service.Claimtxman.Deposits.Tests.{manager, answers, synced_tables}
use zkevm_bridge_service.Claimtxman.Deposits.Selected.{AreAll}
use zkevm_bridge_service.Claimtxman.Start.{
  Manager, Settings, note_network, receive_ger, compressor_tick, call_started, Steps, none_yet,
  synced, received, compressed, read,
}
use zkevm_bridge_service.Claimtxman.Start.Runs.{IsIdle, Steps-IsIdle}

abbrev number_keccak : Keccak ℕ
number_keccak = record {
  hash_zero = 0;
  hash = λ a b. suc (2 * a + 3 * b);
  same = ℕ_discrete;
  keccak = λ bytes. 0;
  digest_bytes = λ d. d ∷ [];
}

abbrev settings : Settings
settings = record { rollup_id = 1; grouping_enabled = true }

abbrev root : ℕ → GlobalExitRoot ℕ
root hash = record {
  id = 1;
  block_id = 0;
  block_number = 12;
  network_id = 1;
  global_exit_root = hash;
  exit_roots = 6 ∷ 7 ∷ [];
}

abbrev fresh : Manager cache manager answers
fresh = record {
  l1_synced = false;
  l2_synced = false;
  ger = root 0;
  latest_processed_ger = 0;
  started = 0;
  called = [];
  claiming = synced_tables;
  groups = [];
}

abbrev prepared : Manager cache manager answers
prepared = compressor_tick ⦃k = number_keccak⦄ cache manager answers settings (
    note_network ⦃k = number_keccak⦄ cache manager answers settings 1 (
      note_network ⦃k = number_keccak⦄ cache manager answers settings 0
        (receive_ger ⦃k = number_keccak⦄ cache manager answers settings (root 8) fresh)))

abbrev until_ready : Steps ⦃k = number_keccak⦄ cache manager answers settings fresh prepared
until_ready = compressed (synced 1 (synced 0 (received (root 8) none_yet)))

-- The goroutine reads an exit root that came after it was started.
abbrev overtaken : Manager cache manager answers
overtaken =
    call_started ⦃k = number_keccak⦄ cache manager answers settings 0
      (receive_ger ⦃k = number_keccak⦄ cache manager answers settings (root 9) prepared)

one_started :
    (receive_ger ⦃k = number_keccak⦄ cache manager answers settings (root 9) prepared).started ≡ 1
unfolding receive_ger compressor_tick note_network
one_started = refl

abbrev processing : Steps ⦃k = number_keccak⦄ cache manager answers settings fresh overtaken
processing = read 0 one_started (received (root 9) until_ready)

one_called : overtaken.called ≡ root 9 ∷ []
unfolding call_started receive_ger compressor_tick note_network
one_called = refl

Steps-IsIdle_example :
    AreAll (λ g. Memᴰ g (root 9 ∷ root 8 ∷ [])) overtaken.called
    × IsIdle ⦃k = number_keccak⦄ cache manager answers settings fresh overtaken
Steps-IsIdle_example =
    Steps-IsIdle ⦃k = number_keccak⦄ cache manager answers settings processing (refl, refl) refl

abbrev asked : MonitorCompressed
asked = record {
  rollup_id = 1;
  grouping = config;
  now = 200;
  network = record {
    estimate_gas = λ payload. some 5;
    send_compressed_claims = λ gas payload. some 11;
    check_tx_was_mined = λ h. waiting;
  };
  compress = λ txs. ok (9 ∷ []);
}

abbrev ungrouped : Grouped
ungrouped = record {
  db = record synced_tables.db { monitored_txs = claim 1 ∷ claim 2 ∷ [] };
  groups = [];
}

-- The first round stores a group of the two claims.
groups_after :
    map (λ e. e.deposit_ids) (monitor_compressed_txs asked ungrouped).1.groups ≡ (1 ∷ 2 ∷ []) ∷ []
unfolding monitor_compressed_txs
groups_after = refl
