-- ===== src/Claimtxman/Single.antt =====
-- claimtxman/monitortxs.go: the history of a single claim, and the review of its transaction.
-- The node's answers are functions; an answer that is asked for again is numbered by the attempt.
use mathlib.Core.Bool.{false≢true}
use zkevm_bridge_service.Base.{
  ℕ, zero, suc, ◌-◌, ◌≤◌, ◌≡◌, refl, sym, ap, ◌↔◌, ◌⊎◌, inl, inr, List, [], ◌∷◌, Bool, true, false,
  ltb, ◌==◌, if◌then◌else◌, Bool-cases, Result, ok, err, panic, node_failed, arith,
}
use zkevm_bridge_service.Claimtxman.Types.{MonitoredTx}

-- CheckTxWasMined: an error, no receipt, or the receipt's status.
pub data Receipt : Type 0 where
  failed_check no_receipt : Receipt
  mined : ℕ → Receipt

-- TransactionByHash.
pub data Lookup : Type 0 where
  found not_found failed_lookup : Lookup

-- The look-up in the pool, with `retries` more attempts while it fails.
unfoldable pub retry_lookup : (ℕ → Lookup) → ℕ → ℕ → Lookup
retry_lookup lookup zero attempt = lookup attempt
retry_lookup lookup (suc retries) attempt = elim (lookup attempt) [
  | found ↦ found
  | not_found ↦ retry_lookup lookup retries (suc attempt)
  | failed_lookup ↦ retry_lookup lookup retries (suc attempt)
]

-- hasFailedReceipts, allHistoryTxMined and receiptSuccessful.
pub record Checked : Type 0 where
  pub has_failed_receipts : Bool
  pub all_history_tx_mined : Bool
  pub receipt_successful : Bool

-- A transaction that is missing in the pool counts as one with a failed receipt.
abbrev or_missing : Bool → Lookup → Bool
or_missing has_failed not_found = true
or_missing has_failed _ = has_failed

-- The loop of checkTxHistory; the first two arguments after the retries are the flags so far.
unfoldable pub check_loop : (ℕ → Receipt) → (ℕ → ℕ → Lookup) → ℕ → Bool → Bool → List ℕ → Checked
unfolding retry_lookup
check_loop receipts pool retries has_failed all_mined [] = record {
  has_failed_receipts = has_failed;
  all_history_tx_mined = all_mined;
  receipt_successful = false;
}
check_loop receipts pool retries has_failed all_mined (tx_hash ∷ hashes) = elim (receipts tx_hash) [
  | failed_check ↦ check_loop receipts pool retries has_failed false hashes
  | no_receipt ↦
      check_loop receipts pool retries
        (or_missing has_failed (retry_lookup (pool tx_hash) retries 0)) false hashes
  | mined status ↦ elim (status == 1) [
    | true ↦ record {
      has_failed_receipts = has_failed;
      all_history_tx_mined = all_mined;
      receipt_successful = true;
    }
    | false ↦ check_loop receipts pool retries true all_mined hashes
  ]
]

unfoldable pub check_tx_history : (ℕ → Receipt) → (ℕ → ℕ → Lookup) → ℕ → MonitoredTx → Checked
unfolding check_loop
check_tx_history receipts pool retries tx = check_loop receipts pool retries false true tx.history

-- EstimateGas: the gas, an execution that reverts, or another error.
pub data Estimate : Type 0 where
  gas_of : ℕ → Estimate
  reverted unavailable : Estimate

-- The estimate, with `retries` more attempts while it is unavailable.
unfoldable pub retry_estimate : (ℕ → Estimate) → ℕ → ℕ → Estimate
retry_estimate estimate zero attempt = estimate attempt
retry_estimate estimate (suc retries) attempt = elim (estimate attempt) [
  | gas_of gas ↦ gas_of gas
  | reverted ↦ reverted
  | unavailable ↦ retry_estimate estimate retries (suc attempt)
]

abbrev raise_gas : ℕ → MonitoredTx → MonitoredTx
raise_gas gas tx = if ltb tx.gas gas then record tx { gas = gas } else tx

abbrev raise_nonce : Result ℕ → MonitoredTx → Result (Unit {0}) × MonitoredTx
raise_nonce (ok nonce) tx = (ok tt, if ltb tx.nonce nonce then record tx { nonce = nonce } else tx)
raise_nonce (err e) tx = (err e, tx)
raise_nonce panic tx = (panic, tx)

-- ReviewMonitoredTx on the transaction that its argument points to; `next_nonce` is the answer of
-- the nonce cache. The first attempt at the gas is made whatever the number of retries is.
unfoldable pub review_monitored_tx :
    (ℕ → Estimate) → ℕ → Result ℕ → Bool → MonitoredTx → Result (Unit {0}) × MonitoredTx
unfolding retry_estimate
review_monitored_tx estimate retry_number next_nonce review_nonce tx =
    elim (retry_estimate estimate (retry_number - 1) 0) [
      | reverted ↦ (err node_failed, tx)
      | unavailable ↦ (err node_failed, tx)
      | gas_of gas ↦
          if review_nonce
          then raise_nonce next_nonce (raise_gas gas tx)
          else (ok tt, raise_gas gas tx)
    ]

-- Some transaction was mined with the status of success.
abbrev pub IsClaimed : (ℕ → Receipt) → List ℕ → Type 0
IsClaimed receipts [] = ⊥
IsClaimed receipts (h ∷ hs) = (receipts h ≡ mined 1) ⊎ IsClaimed receipts hs

-- Every transaction has a receipt.
abbrev pub AreMined : (ℕ → Receipt) → List ℕ → Type 0
AreMined receipts [] = Unit {0}
AreMined receipts (h ∷ hs) = ((status : ℕ) × (receipts h ≡ mined status)) × AreMined receipts hs

check_loop-IsClaimed :
    (receipts : ℕ → Receipt) (pool : ℕ → ℕ → Lookup) (retries : ℕ) (f m : Bool) (hs : List ℕ)
    → ((check_loop receipts pool retries f m hs).receipt_successful ≡ true) ↔ IsClaimed receipts hs
unfolding check_loop
check_loop-IsClaimed receipts pool retries f m [] = (λ e. cc, λ h. elim h [ ])
check_loop-IsClaimed receipts pool retries f m (h ∷ hs) =
    seen (λ g n. check_loop-IsClaimed receipts pool retries g n hs) (receipts h) refl
  where
    pooled : Bool
    pooled = or_missing f (retry_lookup (pool h) retries 0)

    seen :
        ((g n : Bool)
          → ((check_loop receipts pool retries g n hs).receipt_successful ≡ true)
            ↔ IsClaimed receipts hs)
        → (r : Receipt) → receipts h ≡ r
        → ((check_loop receipts pool retries f m (h ∷ hs)).receipt_successful ≡ true)
          ↔ IsClaimed receipts (h ∷ hs)
    seen ih failed_check e =
        let (to, back) = ih f false in
        rw (check_loop, e) (λ s. inr (to s), λ c. elim c [ inl x ↦ cc | inr l ↦ back l ])
    seen ih no_receipt e =
        let (to, back) = ih pooled false in
        rw (check_loop, e) (λ s. inr (to s), λ c. elim c [ inl x ↦ cc | inr l ↦ back l ])
    seen ih (mined status) e =
        let (to, back) = ih true m in
        elim (Bool-cases (status == 1)) [
          | inl success ↦
              let one : status ≡ 1 = ground arith in
              rw (check_loop, e, success) (λ _. inl (ap mined one), λ _. refl)
          | inr failure ↦
              rw (check_loop, e, failure)
                (
                  λ s. inr (to s),
                  λ c. elim c [
                    | inl x ↦ let one : status ≡ 1 = cc in absurd (ground arith)
                    | inr l ↦ back l
                  ],
                )
        ]

check_loop-AreMined :
    (receipts : ℕ → Receipt) (pool : ℕ → ℕ → Lookup) (retries : ℕ) (f m : Bool) (hs : List ℕ)
    → (check_loop receipts pool retries f m hs).receipt_successful ≡ false
    → ((check_loop receipts pool retries f m hs).all_history_tx_mined ≡ true)
      ↔ ((m ≡ true) × AreMined receipts hs)
unfolding check_loop
check_loop-AreMined receipts pool retries f m [] unclaimed = (λ e. (e, tt), λ (e, _). e)
check_loop-AreMined receipts pool retries f m (h ∷ hs) unclaimed =
    seen (λ g n. check_loop-AreMined receipts pool retries g n hs) (receipts h) refl unclaimed
  where
    pooled : Bool
    pooled = or_missing f (retry_lookup (pool h) retries 0)

    seen :
        ((g n : Bool)
          → (check_loop receipts pool retries g n hs).receipt_successful ≡ false
          → ((check_loop receipts pool retries g n hs).all_history_tx_mined ≡ true)
            ↔ ((n ≡ true) × AreMined receipts hs))
        → (r : Receipt) → receipts h ≡ r
        → (check_loop receipts pool retries f m (h ∷ hs)).receipt_successful ≡ false
        → ((check_loop receipts pool retries f m (h ∷ hs)).all_history_tx_mined ≡ true)
          ↔ ((m ≡ true) × AreMined receipts (h ∷ hs))
    seen ih failed_check e =
        rw (check_loop, e)
          λ u.
            let (to, back) = ih f false u in
            (λ s. absurd (false≢true (to s).0), λ (_, ((status, x), _)). cc)
    seen ih no_receipt e =
        rw (check_loop, e)
          λ u.
            let (to, back) = ih pooled false u in
            (λ s. absurd (false≢true (to s).0), λ (_, ((status, x), _)). cc)
    seen ih (mined status) e = elim (Bool-cases (status == 1)) [
      | inl success ↦ rw (check_loop, e, success) λ u. absurd (false≢true (sym u))
      | inr failure ↦
          rw (check_loop, e, failure)
            λ u.
              let (to, back) = ih true m u in
              (λ s. ((to s).0, ((status, refl), (to s).1)), λ (good, (_, rest)). back (good, rest))
    ]

-- checkTxHistory reports a success just when some transaction of the history was mined with the
-- status of success; when it reports none, it reports that all were mined just when each of them has
-- a receipt.
pub check_tx_history_lem :
    (receipts : ℕ → Receipt) (pool : ℕ → ℕ → Lookup) (retries : ℕ) (tx : MonitoredTx)
    → (((check_tx_history receipts pool retries tx).receipt_successful ≡ true)
        ↔ IsClaimed receipts tx.history)
      × ((check_tx_history receipts pool retries tx).receipt_successful ≡ false
          → ((check_tx_history receipts pool retries tx).all_history_tx_mined ≡ true)
            ↔ AreMined receipts tx.history)
unfolding check_tx_history
check_tx_history_lem receipts pool retries tx = (
  check_loop-IsClaimed receipts pool retries false true tx.history,
  λ unclaimed.
      let (to, back) = check_loop-AreMined receipts pool retries false true tx.history unclaimed in
      (λ s. (to s).1, λ all. back (refl, all)),
)

-- ReviewMonitoredTx, also when it fails, lowers neither the gas nor the nonce of the transaction and
-- keeps its status; without a review of the nonce it keeps the nonce.
pub review_monitored_tx-grows :
    (estimate : ℕ → Estimate) (retry_number : ℕ) (next_nonce : Result ℕ) (review_nonce : Bool)
    (tx : MonitoredTx)
    → (tx.gas ≤ (review_monitored_tx estimate retry_number next_nonce review_nonce tx).1.gas)
      × (tx.nonce ≤ (review_monitored_tx estimate retry_number next_nonce review_nonce tx).1.nonce)
      × ((review_monitored_tx estimate retry_number next_nonce review_nonce tx).1.status
          ≡ tx.status)
      × ((review_monitored_tx estimate retry_number next_nonce false tx).1.nonce ≡ tx.nonce)
unfolding review_monitored_tx
review_monitored_tx-grows estimate retry_number next_nonce review_nonce tx = ground arith
