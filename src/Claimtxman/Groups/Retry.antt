-- ===== src/Claimtxman/Groups/Retry.antt =====
-- SendClaims, CheckReceipts and OutdateClaims: the transactions of a group that are in flight, and
-- what happens to a group whose retries are used up.
use zkevm_bridge_service.Base.{
  ℕ, suc, ◌+◌, ◌%◌, u64_mod, ◌≤◌, ◌≡◌, refl, ap, inl, inr, List, [], ◌∷◌, ◌++◌, Bool, true, false,
  not, Option, none, some, ◌&&◌, if◌then◌else◌, any, Bool-cases, Option-cases, ok, arith,
}
use zkevm_bridge_service.Claimtxman.Types.{
  TxStatus, MonitoredTx, GroupStatus, TxHashEntry, TxHistory, LogLine, Group, GroupingConfig,
  is_pending, is_outdated, add_hash, add_pending_tx,
}
use zkevm_bridge_service.Claimtxman.Groups.{
  Network, check_history, check_receipts_group, put_status, outdate_history, outdate_pending,
  outdate_group, on_fail_group, send_claim, send_group, can_send_new_claim_call, is_created,
}

-- The transactions of a history that have no receipt.
unfoldable pub pending_count : List TxHashEntry → ℕ
unfolding is_pending
pending_count [] = 0
pending_count (e ∷ es) = let rest = pending_count es in if is_pending e then suc rest else rest

unfoldable pub in_flight : Group → ℕ
unfolding pending_count
in_flight g = elim g.db_entry.claim_tx_history [ none ↦ 0 | some h ↦ pending_count h.tx_hashes ]

-- At most one transaction of the group is in flight, and none before it was first sent.
abbrev pub IsSingle : Group → Type 0
IsSingle g = (in_flight g ≤ 1) × (is_created g.db_entry.status ≡ true → in_flight g ≡ 0)

pending_count-append :
    (es : List TxHashEntry) (tx_hash now : ℕ)
    → pending_count
        (es ++ record { tx_hash = tx_hash; receipt_status = none; created_at = now } ∷ [])
      ≡ suc (pending_count es)
unfolding pending_count
pending_count-append [] tx_hash now = refl
pending_count-append (e ∷ es) tx_hash now = ground (arith, pending_count-append es tx_hash now)

pending_count-check_history :
    (net : Network) (group_id index : ℕ) (log : LogLine) (es : List TxHashEntry)
    → pending_count (check_history net group_id index log es).tx_hashes ≤ pending_count es
unfolding check_history pending_count
pending_count-check_history net group_id index log [] = omega arith
pending_count-check_history net group_id index log (e ∷ es) = ground (
  arith,
  pending_count-check_history net group_id (suc index) log es,
  pending_count-check_history net group_id (suc index) (LogLine.check_failed index e.tx_hash) es,
  pending_count-check_history net group_id (suc index) (LogLine.not_mined e.tx_hash) es,
  pending_count-check_history net group_id (suc index) (LogLine.receipt_or_logs e.tx_hash) es,
)

pending_count-outdate_history :
    (cfg : GroupingConfig) (now : ℕ) (log : LogLine) (es : List TxHashEntry)
    → pending_count (outdate_history cfg now log es).tx_hashes ≤ pending_count es
unfolding outdate_history pending_count
pending_count-outdate_history cfg now log [] = omega arith
pending_count-outdate_history cfg now log (e ∷ es) = ground (
  arith,
  pending_count-outdate_history cfg now log es,
  pending_count-outdate_history cfg now (LogLine.maximum_wait e.tx_hash) es,
)

none_pending :
    (es : List TxHashEntry)
    → any (λ e. is_pending e && not (is_outdated e)) es ≡ false
    → pending_count es ≡ 0
unfolding any pending_count is_pending is_outdated
none_pending [] h = refl
none_pending (e ∷ es) h = ground (arith, none_pending es)

-- What a history holds, or nothing for a nil history.
abbrev hashes : Option TxHistory → List TxHashEntry
hashes none = []
hashes (some h) = h.tx_hashes

may_send :
    (cfg : GroupingConfig) (now : ℕ) (g : Group)
    → IsSingle g
    → can_send_new_claim_call cfg now g.db_entry ≡ true
    → in_flight g ≡ 0
unfolding can_send_new_claim_call in_flight
may_send cfg now g (single, fresh) h =
    ground (arith, none_pending (hashes g.db_entry.claim_tx_history))

send_group-IsSingle :
    (net : Network) (cfg : GroupingConfig) (now : ℕ) (g : Group) (payload : List ℕ)
    → IsSingle g
    → in_flight g ≡ 0
    → IsSingle (send_group net cfg now g payload)
unfolding send_group in_flight add_pending_tx add_hash
send_group-IsSingle net cfg now g payload single none_now =
    elim (Option-cases (net.estimate_gas payload)) [
      | inl refused ↦ ground arith
      | inr (gas, e) ↦
          elim (Option-cases
            (net.send_compressed_claims ((gas + cfg.gas_offset) % u64_mod) payload)) [
              | inl refused ↦ ground arith
              | inr (tx_hash, sent) ↦ ground (
                arith,
                pending_count-append (hashes g.db_entry.claim_tx_history) tx_hash now,
                pending_count-append [] tx_hash now,
              )
            ]
    ]

pub send_claim-IsSingle :
    (net : Network) (cfg : GroupingConfig) (now : ℕ) (first : Bool) (g : Group)
    → IsSingle g
    → IsSingle (send_claim net cfg now first g)
unfolding send_claim
send_claim-IsSingle net cfg now first g single = elim (Option-cases g.db_entry.compressed_tx_data) [
  | inl e ↦ ground arith
  | inr (payload, e) ↦ elim (Bool-cases (can_send_new_claim_call cfg now g.db_entry)) [
    | inl can ↦
        ground
          (arith, send_group-IsSingle net cfg now g payload single (may_send cfg now g single can))
    | inr cannot ↦ ground arith
  ]
]

pub check_receipts_group-IsSingle :
    (net : Network) (g g' : Group) → IsSingle g → check_receipts_group net g ≡ ok g' → IsSingle g'
unfolding check_receipts_group in_flight
check_receipts_group-IsSingle net g g' single h = ground (
  arith,
  pending_count-check_history net g.db_entry.group_id 0 g.db_entry.last_log
      (hashes g.db_entry.claim_tx_history),
  Bool-cases
      (check_history net g.db_entry.group_id 0 g.db_entry.last_log
        (hashes g.db_entry.claim_tx_history)).finished,
)

pub outdate_group-IsSingle :
    (cfg : GroupingConfig) (now : ℕ) (g g' : Group)
    → IsSingle g
    → outdate_group cfg now g ≡ ok g'
    → IsSingle g'
unfolding outdate_group outdate_pending in_flight on_fail_group
outdate_group-IsSingle cfg now g g' single h = ground (
  arith,
  pending_count-outdate_history cfg now g.db_entry.last_log (hashes g.db_entry.claim_tx_history),
)

pub send_claim-num_retries :
    (net : Network) (cfg : GroupingConfig) (now : ℕ) (first : Bool) (g : Group)
    → (g.db_entry.num_retries ≤ (send_claim net cfg now first g).db_entry.num_retries)
      × ((send_claim net cfg now first g).txs ≡ g.txs)
unfolding send_claim send_group add_pending_tx
send_claim-num_retries net cfg now first g = ground arith

failed_confirmed :
    (txs : List MonitoredTx)
    → put_status TxStatus.failed (put_status TxStatus.confirmed txs)
      ≡ put_status TxStatus.failed txs
failed_confirmed [] = refl
failed_confirmed (tx ∷ txs) =
    ap (λ rest. record tx { status = TxStatus.failed } ∷ rest) (failed_confirmed txs)

pub check_receipts_group-num_retries :
    (net : Network) (g g' : Group)
    → check_receipts_group net g ≡ ok g'
    → (g.db_entry.num_retries ≡ g'.db_entry.num_retries)
      × (put_status TxStatus.failed g'.txs ≡ put_status TxStatus.failed g.txs)
unfolding check_receipts_group
check_receipts_group-num_retries net g g' h = ground (
  arith,
  failed_confirmed g.txs,
  Bool-cases
      (check_history net g.db_entry.group_id 0 g.db_entry.last_log
        (hashes g.db_entry.claim_tx_history)).finished,
)

pub outdate_group-exhausted :
    (cfg : GroupingConfig) (now : ℕ) (g g' : Group)
    → outdate_group cfg now g ≡ ok g'
    → cfg.max_retries ≤ g.db_entry.num_retries
    → (g'.db_entry.status ≡ GroupStatus.failed) × (g'.txs ≡ put_status TxStatus.failed g.txs)
unfolding outdate_group outdate_pending on_fail_group
outdate_group-exhausted cfg now g g' h used_up = ground arith
