-- ===== src/Claimtxman/Deposits.antt =====
-- claimtxman/claimtxman.go: from the pending deposits to the claims that are sent for them.
-- The nodes, BuildSendClaim and GetClaimProofForCompressed are asked through a record. The clock, a
-- nil value and the waiting are left out. A transaction that is not committed leaves no trace.
pub mod Queries
pub mod Process
pub mod Selected
pub mod Wanted
pub mod Processed
pub mod Allowed
pub mod Tests
use zkevm_bridge_service.Base.{
  ℕ, zero, suc, ◌+◌, ◌-◌, ◌%◌, List, [], ◌∷◌, ◌++◌, Bool, true, false, ◌&&◌, ◌||◌, not, Option,
  none, some, ltb, leb, ◌==◌, if◌then◌else◌, any, keep, length, u64_mod, Result, ok, err, panic,
}
use zkevm_bridge_service.Base.State.{State, ◌>>=◌, ◌>>◌, pure, lift, gets, modify, zoom}
use zkevm_bridge_service.Storage.Tables.{Deposit, Db, serve}
use zkevm_bridge_service.Claimtxman.Types.{MonitoredTx, created}
use zkevm_bridge_service.Claimtxman.NonceCache.{NonceStore, get_next_nonce}

-- The fields of ClaimTxManager and of its configuration that are read.
pub record ClaimTxManager : Type 0 where
  pub l2_network_id : ℕ
  pub from : ℕ
  pub authorized_claim_message_addresses : List ℕ
  pub retry_number : ℕ
  pub are_claims_between_l2s_enabled : Bool
  pub ignore_deposit_after_x_l1_blocks : ℕ

-- EstimateGas: the gas, ErrExecutionReverted, or another error.
pub data Estimate : Type 0 where
  gas : ℕ → Estimate
  reverted failed : Estimate

-- The tables with sync.monitored_txs and the ids of the deposits that are ignored.
pub record ClaimDb : Type 0 where
  pub base : Db ℕ
  pub monitored_txs : List MonitoredTx
  pub ignored : List ℕ

-- An estimate that is asked for again is numbered by the attempt.
pub record Nodes : Type 0 where
  pub claim_proof : ℕ → ℕ → ℕ → State (Db ℕ) (ℕ × List ℕ × List ℕ)
  pub build_send_claim : Deposit → List ℕ → List ℕ → ℕ → Result (Option ℕ × List ℕ)
  pub estimate_gas : Option ℕ → List ℕ → ℕ → Estimate
  pub l1_block_number : Result ℕ
  pub nonce_at : Option ℕ

-- isDepositMessageAllowed.
unfoldable pub is_deposit_message_allowed : ClaimTxManager → Deposit → Bool
unfolding any
is_deposit_message_allowed tm deposit =
    any (λ addr. deposit.original_address == addr) tm.authorized_claim_message_addresses

-- The deposits that the loop does not skip: to this network, and no message but an allowed one.
unfoldable pub is_claimable : ClaimTxManager → Deposit → Bool
unfolding is_deposit_message_allowed
is_claimable tm deposit =
    tm.l2_network_id == deposit.destination_network
    && not (deposit.leaf_type == 1 && not (is_deposit_message_allowed tm deposit))

-- The estimate with `retries` more attempts; a revert is not asked for again.
unfoldable pub retry_gas : (ℕ → Estimate) → ℕ → ℕ → Option ℕ
retry_gas estimate zero attempt = elim (estimate attempt) [
  | gas g ↦ some g
  | reverted ↦ none
  | failed ↦ none
]
retry_gas estimate (suc retries) attempt = elim (estimate attempt) [
  | gas g ↦ some g
  | reverted ↦ none
  | failed ↦ retry_gas estimate retries (suc attempt)
]

module _ (store : NonceStore) (tm : ClaimTxManager) (nodes : Nodes) where
  -- The tables of a transaction and the cache of the nonces, which no rollback undoes.
  pub record Claiming : Type 0 where
    pub db : ClaimDb
    pub nonces : store.Cache

  abbrev pub on_base : {A : Type 0} → State (Db ℕ) A → State Claiming A
  on_base = zoom (λ w. w.db.base) (λ b w. record w { db = record w.db { base = b } })

  -- ON CONFLICT (deposit_id) DO NOTHING.
  unfoldable pub add_monitored : MonitoredTx → List MonitoredTx → List MonitoredTx
  unfolding any
  add_monitored m_tx txs =
      if any (λ t. t.deposit_id == m_tx.deposit_id) txs then txs else txs ++ m_tx ∷ []

  unfoldable pub store_claim_tx : MonitoredTx → State Claiming (Unit {0})
  unfolding serve add_monitored
  store_claim_tx m_tx = do
    on_base serve
    modify
        λ w. record w { db = record w.db { monitored_txs = add_monitored m_tx w.db.monitored_txs } }

  -- An error of IgnoreDeposit is only logged; that PostgreSQL refuses the rest of such a transaction
  -- is left out.
  abbrev pub ignored : ℕ → Result (Unit {0}) × Claiming → Result (Unit {0}) × Claiming
  ignored id (ok _, w) = (ok tt, record w { db = record w.db { ignored = id ∷ w.db.ignored } })
  ignored id (err e, w) = (ok tt, w)
  ignored id (panic, w) = (panic, w)

  unfoldable pub ignore_deposit : ℕ → State Claiming (Unit {0})
  unfolding serve
  ignore_deposit id w = ignored id (on_base serve w)

  abbrev pub ignore_at : Deposit → Result ℕ → State Claiming (Unit {0})
  ignore_at deposit (ok number) =
      if ltb ((deposit.block_number + tm.ignore_deposit_after_x_l1_blocks) % u64_mod) number
      then ignore_deposit deposit.id
      else pure tt
  ignore_at deposit (err e) = pure tt
  ignore_at deposit panic = lift panic

  -- The deposit whose claim cannot be estimated is ignored once it is old enough.
  unfoldable pub ignore_old : Deposit → State Claiming (Unit {0})
  unfolding ignore_deposit
  ignore_old deposit = ignore_at deposit nodes.l1_block_number

  unfoldable pub next_nonce : State Claiming ℕ
  unfolding get_next_nonce
  next_nonce =
      zoom (λ w. w.nonces) (λ c w. record w { nonces = c })
        (get_next_nonce store nodes.nonce_at tm.from)

  abbrev pub new_claim_tx : Deposit → Option ℕ → List ℕ → ℕ → ℕ → ℕ → MonitoredTx
  new_claim_tx deposit to payload ger amount nonce = record {
    deposit_id = deposit.id;
    from = tm.from;
    to = to;
    nonce = nonce;
    value = 0;
    payload = payload;
    gas = amount;
    gas_price = 0;
    status = created;
    history = [];
    created_at = 0;
    updated_at = 0;
    group_id = none;
    global_exit_root = ger;
  }

  abbrev pub add_estimated : Deposit → Option ℕ → List ℕ → ℕ → Option ℕ → State Claiming (Unit {0})
  add_estimated deposit to payload ger none = ignore_old deposit
  add_estimated deposit to payload ger (some amount) = do
    nonce ← next_nonce
    store_claim_tx (new_claim_tx deposit to payload ger amount nonce)

  unfoldable pub add_claim_tx : Deposit → Option ℕ → List ℕ → ℕ → State Claiming (Unit {0})
  unfolding retry_gas ignore_old next_nonce store_claim_tx
  add_claim_tx deposit to payload ger =
      add_estimated deposit to payload ger
        (retry_gas (nodes.estimate_gas to payload) (tm.retry_number - 1) 0)

  -- The arrays of a claim take 32 siblings: fewer are an index out of range.
  unfoldable pub claim_deposit : ℕ → Deposit → State Claiming (Unit {0})
  unfolding add_claim_tx
  claim_deposit ger deposit = do
    (claim_ger, proof, rollup_proof) ←
        on_base (nodes.claim_proof ger deposit.deposit_count deposit.network_id)
    if leb 32 (length proof) && leb 32 (length rollup_proof)
        then (do
          (to, payload) ← lift (nodes.build_send_claim deposit proof rollup_proof claim_ger)
          add_claim_tx deposit to payload claim_ger)
        else lift panic

  -- rollbackState: the tables of the transaction are dropped. Rollback itself is served.
  abbrev pub rollback_state : Claiming → Result (Unit {0}) × Claiming → Result (Unit {0}) × Claiming
  rollback_state before (r, w) = (
    r,
    record w {
      db = record before.db { base = record before.db.base { faults = w.db.base.faults } };
    },
  )

  abbrev pub committed : Claiming → Result (Unit {0}) × Claiming → Result (Unit {0}) × Claiming
  committed before (ok _, w) = (ok tt, w)
  committed before (err e, w) = rollback_state before (err e, w)
  committed before (panic, w) = rollback_state before (panic, w)

  -- Commit, or a rollback with the error.
  abbrev pub closed : Claiming → Result (Unit {0}) × Claiming → Result (Unit {0}) × Claiming
  closed before (ok _, w) = committed before (on_base serve w)
  closed before (err e, w) = rollback_state before (err e, w)
  closed before (panic, w) = rollback_state before (panic, w)

  abbrev pub opened : ℕ → Deposit → Result (Unit {0}) × Claiming → Result (Unit {0}) × Claiming
  opened ger deposit (ok _, w) = closed w (claim_deposit ger deposit w)
  opened ger deposit (err e, w) = (err e, w)
  opened ger deposit (panic, w) = (panic, w)

  -- One deposit in a transaction of its own.
  unfoldable pub claim_in_tx : ℕ → Deposit → State Claiming (Unit {0})
  unfolding serve claim_deposit
  claim_in_tx ger deposit w = opened ger deposit (on_base serve w)

  unfoldable pub claim_deposits : ℕ → List Deposit → State Claiming (Unit {0})
  unfolding is_claimable claim_in_tx
  claim_deposits ger [] = pure tt
  claim_deposits ger (d ∷ ds) =
      let rest = claim_deposits ger ds in
      if is_claimable tm d then (do claim_in_tx ger d; rest) else rest
