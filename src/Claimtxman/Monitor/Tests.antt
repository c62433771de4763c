-- ===== src/Claimtxman/Monitor/Tests.antt =====
-- claimtxman/monitortxs.go's rounds over three claims: one whose transaction was mined, one that is
-- sent, and one whose execution reverts since its deposit was claimed already.
use zkevm_bridge_service.Base.{
  ℕ, ◌≡◌, refl, List, [], ◌∷◌, none, some, any, keep, find, ◌==◌, ok, if◌then◌else◌,
}
use zkevm_bridge_service.Storage.Tables.{serve}
use zkevm_bridge_service.Storage.Chain.{block_of}
use zkevm_bridge_service.Claimtxman.Types.{
  TxStatus, created, confirmed, MonitoredTx, add_history, remove_history,
}
use zkevm_bridge_service.Claimtxman.NonceCache.{get_next_nonce, remove_nonce}
use zkevm_bridge_service.Claimtxman.Single.{
  mined, no_receipt, not_found, gas_of, reverted, check_tx_history, check_loop, retry_lookup,
  retry_estimate, review_monitored_tx,
}
use zkevm_bridge_service.Claimtxman.Tests.{cache}
use zkevm_bridge_service.Claimtxman.Deposits.Tests.{tables}
use zkevm_bridge_service.Claimtxman.Deposits.Selected.{AreAll}
use zkevm_bridge_service.Claimtxman.Deposits.Queries.{put, order_by}
use zkevm_bridge_service.Claimtxman.Monitor.{
  Monitor, sent, Monitoring, set_columns, is_created_claim, get_created_claim_txs,
  get_deposit_by_deposit_id, update_claim_tx, update, check_if_claimed, review, failed_sending,
  send, monitor_tx, monitor_in_tx, monitor_each, monitor_txs,
}
use zkevm_bridge_service.Claimtxman.Monitor.Settled.{IsRow}
use zkevm_bridge_service.Claimtxman.Monitor.Rounds.{monitor_txs-IsKept}

abbrev claim_of_deposit : ℕ → List ℕ → MonitoredTx
claim_of_deposit id history = record {
  deposit_id = id;
  from = 9;
  to = some 2;
  nonce = 4;
  value = 0;
  payload = id ∷ [];
  gas = 7;
  gas_price = 0;
  status = created;
  history = history;
  created_at = 0;
  updated_at = 0;
  group_id = none;
  global_exit_root = 8;
}

-- The transaction 71 was mined with success and 73 without; deposit 3 is claimed.
abbrev pub monitor : Monitor
monitor = record {
  rollup_id = 1;
  retry_number = 2;
  receipts = λ h. if h == 71 then mined 1 else if h == 73 then mined 0 else no_receipt;
  pool = λ h attempt. not_found;
  estimate_gas = λ after tx attempt. if tx.deposit_id == 3 then reverted else gas_of 8;
  nonce_at = λ from. some 5;
  suggest_gas_price = ok 6;
  sign = λ tx. ok 72;
  transaction_by_hash = λ h. not_found;
  send_transaction = λ tx. sent;
  is_claimed = λ count network. ok (count == 3);
}

abbrev start : Monitoring cache monitor
start = record {
  db = record {
    base = record tables {
      blocks = record { id = 1; block_number = 12; block_hash = 3; network_id = 0 } ∷ [];
    };
    monitored_txs =
        claim_of_deposit 1 (71 ∷ []) ∷ claim_of_deposit 2 [] ∷ claim_of_deposit 3 (73 ∷ []) ∷ [];
    ignored = [];
  };
  nonces = λ _. none;
  sent_txs = [];
}

abbrev end : Monitoring cache monitor
end = (monitor_txs cache monitor start).1

monitor_txs-IsKept_example :
    (end.db.base.deposits ≡ start.db.base.deposits)
    × AreAll (IsRow monitor start.db.base.deposits start.db.monitored_txs) end.db.monitored_txs
monitor_txs-IsKept_example = monitor_txs-IsKept cache monitor start

abbrev statuses : List MonitoredTx → List TxStatus
statuses [] = []
statuses (t ∷ ts) = t.status ∷ statuses ts

settled :
    (statuses end.db.monitored_txs ≡ confirmed ∷ created ∷ confirmed ∷ [])
    × (end.sent_txs ≡ 72 ∷ [])
unfolding monitor_txs monitor_each monitor_in_tx monitor_tx send failed_sending review
    check_if_claimed update update_claim_tx set_columns get_created_claim_txs
    get_deposit_by_deposit_id is_created_claim order_by put check_tx_history check_loop retry_lookup
    retry_estimate review_monitored_tx add_history remove_history get_next_nonce remove_nonce
    block_of serve any keep find
settled = (refl, refl)
