-- ===== src/Claimtxman/Groups/Confirm.antt =====
-- CheckReceipts: when a group is confirmed.
use mathlib.Core.Bool.{false≢true}
use zkevm_bridge_service.Base.{
  and_left, and_right, both, any, sym, ℕ, suc, ◌<◌, ◌≡◌, refl, ◌∙◌, ◌⊎◌, inl, inr, ◌↔◌, List, [],
  ◌∷◌, map, Bool, true, false, some, ltb, ◌==◌, ◌&&◌, Bool-cases, ok, arith,
}
use zkevm_bridge_service.Claimtxman.Types.{
  TxStatus, GroupStatus, TxHashEntry, TxHistory, LogLine, Group, is_pending,
}
use zkevm_bridge_service.Claimtxman.Groups.{
  Network, Mined, mined, unknown, waiting, check_history, check_receipts_group, put_status,
  put_finished, put_scan,
}

-- Some transaction that waits for its receipt was mined with success and a log.
abbrev pub HasSuccess : Network → List TxHashEntry → Type 0
HasSuccess net [] = ⊥
HasSuccess net (e ∷ es) =
    ((is_pending e ≡ true)
      × (logs : ℕ) × (0 < logs)
      × (net.check_tx_was_mined e.tx_hash ≡ mined 1 logs))
    ⊎ HasSuccess net es

abbrev pub hashes_of : List TxHashEntry → List ℕ
hashes_of = map λ e. e.tx_hash

check_history-hashes :
    (net : Network) (group_id index : ℕ) (log : LogLine) (es : List TxHashEntry)
    → hashes_of (check_history net group_id index log es).tx_hashes ≡ hashes_of es
unfolding check_history
check_history-hashes net group_id index log [] = refl
check_history-hashes net group_id index log (e ∷ es) = ground (
  arith,
  check_history-hashes net group_id (suc index) log es,
  check_history-hashes net group_id (suc index) (LogLine.check_failed index e.tx_hash) es,
  check_history-hashes net group_id (suc index) (LogLine.not_mined e.tx_hash) es,
  check_history-hashes net group_id (suc index) (LogLine.receipt_or_logs e.tx_hash) es,
)

abbrev success : Mined → Bool
success (mined status logs) = status == 1 && ltb 0 logs
success _ = false

success_iff : (m : Mined) → (success m ≡ true) ↔ ((logs : ℕ) × (0 < logs) × (m ≡ mined 1 logs))
success_iff (mined status logs) =
    (λ e. (logs, ground arith, ground arith), λ (n, pos, e). ground arith)
success_iff unknown = (λ e. cc, λ (n, pos, e). cc)
success_iff waiting = (λ e. cc, λ (n, pos, e). cc)

check_history-any :
    (net : Network) (group_id index : ℕ) (log : LogLine) (es : List TxHashEntry)
    → (check_history net group_id index log es).finished
      ≡ any (λ e. is_pending e && success (net.check_tx_was_mined e.tx_hash)) es
unfolding check_history any
check_history-any net group_id index log [] = refl
check_history-any net group_id index log (e ∷ es) = ground (
  arith,
  check_history-any net group_id (suc index) log es,
  check_history-any net group_id (suc index) (LogLine.check_failed index e.tx_hash) es,
  check_history-any net group_id (suc index) (LogLine.not_mined e.tx_hash) es,
  check_history-any net group_id (suc index) (LogLine.receipt_or_logs e.tx_hash) es,
)

any-HasSuccess :
    (net : Network) (es : List TxHashEntry)
    → (any (λ e. is_pending e && success (net.check_tx_was_mined e.tx_hash)) es ≡ true)
      ↔ HasSuccess net es
unfolding any
any-HasSuccess net [] = (λ e. cc, λ h. elim h [ ])
any-HasSuccess net (e ∷ es) =
    let (to, back) = success_iff (net.check_tx_was_mined e.tx_hash) in
    let (later, earlier) = any-HasSuccess net es in
    elim (Bool-cases (is_pending e && success (net.check_tx_was_mined e.tx_hash))) [
      | inl here ↦ rw here (
        λ _.
            let (logs, pos, mined_here) = to (and_right (is_pending e) _ here) in
            inl (and_left (is_pending e) _ here, logs, pos, mined_here),
        λ _. refl,
      )
      | inr there ↦ rw there (
        λ h. inr (later h),
        λ h. elim h [
          | inl (pending, logs, pos, mined_here) ↦ absurd (
              false≢true (sym there ∙ both (is_pending e) _ pending (back (logs, pos, mined_here))))
          | inr r ↦ earlier r
        ],
      )
    ]

-- Where the group waits for its claim, CheckReceipts returns (it does not panic), keeps the hashes
-- of the history, and confirms the group with all its transactions if one of the hashes that wait
-- was mined with success and a log; if none was, the group goes on waiting with the same
-- transactions.
pub check_receipts_group-confirmed :
    (net : Network) (g : Group) (h : TxHistory)
    → g.db_entry.status ≡ GroupStatus.claiming
    → g.db_entry.claim_tx_history ≡ some h
    → (g' : Group) × (h' : TxHistory) × (check_receipts_group net g ≡ ok g')
      × (g'.db_entry.claim_tx_history ≡ some h')
      × (hashes_of h'.tx_hashes ≡ hashes_of h.tx_hashes)
      × (HasSuccess net h.tx_hashes
          → (g'.db_entry.status ≡ GroupStatus.confirmed)
            × (g'.txs ≡ put_status TxStatus.confirmed g.txs))
      × (¬ HasSuccess net h.tx_hashes
          → (g'.db_entry.status ≡ GroupStatus.claiming) × (g'.txs ≡ g.txs))
unfolding check_receipts_group
check_receipts_group-confirmed net g h claiming some_history =
    let scan = check_history net g.db_entry.group_id 0 g.db_entry.last_log h.tx_hashes in
    let (to, back) = any-HasSuccess net h.tx_hashes in
    let same = check_history-any net g.db_entry.group_id 0 g.db_entry.last_log h.tx_hashes in
    (
      put_finished scan.finished (put_scan g h scan),
      record h { tx_hashes = scan.tx_hashes },
      simp (claiming, some_history),
      kept scan.finished (put_scan g h scan),
      check_history-hashes net g.db_entry.group_id 0 g.db_entry.last_log h.tx_hashes,
      λ yes_success. rw (same, back yes_success) (refl, refl),
      λ no_success. elim (Bool-cases scan.finished) [
        | inl done ↦ absurd (no_success (to (sym same ∙ done)))
        | inr waits ↦ rw waits (claiming, refl)
      ],
    )
  where
    kept :
        (b : Bool) (g' : Group)
        → (put_finished b g').db_entry.claim_tx_history ≡ g'.db_entry.claim_tx_history
    kept true g' = refl
    kept false g' = refl
