-- ===== src/Claimtxman/Pending/Exhausted.antt =====
-- Process: what becomes of a group whose retries are used up.
use mathlib.Core.List.{Memᴰ}
use mathlib.Core.List.Memᴰ
use zkevm_bridge_service.Base.{
  ℕ, ◌≤◌, ◌≡◌, ap, ◌∙◌, subst, inl, inr, List, [], ◌∷◌, map, false, Bool-cases, none, some,
  Option-cases, ◌==◌, Result, ok, ◌>>=◌, >>=-eq-ok, ok-injective,
}
use zkevm_bridge_service.Claimtxman.Types.{
  TxStatus, MonitoredTx, GroupStatus, Group, GroupingConfig,
}
use zkevm_bridge_service.Claimtxman.Groups.{
  Network, send_claim, check_receipts_group, outdate_group, put_status,
}
use zkevm_bridge_service.Claimtxman.Groups.Retry.{
  send_claim-num_retries, check_receipts_group-num_retries, outdate_group-exhausted,
}
use zkevm_bridge_service.Claimtxman.Pending.{
  PendingTxs, get_group, put_group, generate_new_group_id, add_group, send_claims, each_group,
  check_receipts, outdate_claims, create_new_groups, process,
}
use zkevm_bridge_service.Claimtxman.Pending.Rounds.{new_group, create_new_groups-cases}

abbrev Groups : Type 0
Groups = List (ℕ × Group)

each_group-Memᴰ :
    (f : Group → Result Group) (id : ℕ) (g : Group) (gs gs' : Groups)
    → each_group f gs ≡ ok gs'
    → Memᴰ (id, g) gs
    → (g' : Group) × Memᴰ (id, g') gs' × (f g ≡ ok g')
unfolding each_group
each_group-Memᴰ f id g [] gs' h there = elim (Memᴰ.not-nil there) [ ]
each_group-Memᴰ f id g ((i, x) ∷ gs) gs' h (Memᴰ.head e) =
    let (x', first, h1) = >>=-eq-ok (f x) _ h in
    let (rest, later, h2) = >>=-eq-ok (each_group f gs) _ h1 in
    let same : f g ≡ ok x' = ap (λ z. f z.1) e ∙ first in
    (x', subst (Memᴰ (id, x')) (ok-injective h2) (Memᴰ.head (ap (λ z. (z.0, x')) e)), same)
each_group-Memᴰ f id g ((i, x) ∷ gs) gs' h (Memᴰ.tail there) =
    let (x', first, h1) = >>=-eq-ok (f x) _ h in
    let (rest, later, h2) = >>=-eq-ok (each_group f gs) _ h1 in
    let (g', in_rest, run) = each_group-Memᴰ f id g gs rest later there in
    (g', subst (Memᴰ (id, g')) (ok-injective h2) (Memᴰ.tail in_rest), run)

over_groups-Memᴰ :
    (f : Group → Result Group) (p p' : PendingTxs) (id : ℕ) (g : Group)
    → (each_group f p.group_tx >>= λ gs. ok (record p { group_tx = gs })) ≡ ok p'
    → Memᴰ (id, g) p.group_tx
    → (g' : Group) × Memᴰ (id, g') p'.group_tx × (f g ≡ ok g')
over_groups-Memᴰ f p p' id g h there =
    let (gs, e, made) =
      >>=-eq-ok (each_group f p.group_tx) (λ gs. ok (record p { group_tx = gs })) h in
    let (g', in_gs, run) = each_group-Memᴰ f id g p.group_tx gs e there in
    (g', subst (Memᴰ (id, g')) (ap (λ q. q.group_tx) (ok-injective made)) in_gs, run)

map-Memᴰ :
    (f : Group → Group) (id : ℕ) (g : Group) (gs : Groups)
    → Memᴰ (id, g) gs
    → Memᴰ {A = ℕ × Group} (id, f g) (map (λ (i, x). (i, f x)) gs)
map-Memᴰ f id g [] there = elim (Memᴰ.not-nil there) [ ]
map-Memᴰ f id g (x ∷ gs) (Memᴰ.head e) = Memᴰ.head (ap (λ z. (z.0, f z.1)) e)
map-Memᴰ f id g (x ∷ gs) (Memᴰ.tail there) = Memᴰ.tail (map-Memᴰ f id g gs there)

-- A group is only put under an id that is free.
put_group-Memᴰ :
    (x : ℕ × Group) (id : ℕ) (g : Group) (gs : Groups)
    → get_group id gs ≡ none
    → Memᴰ x gs
    → Memᴰ x (put_group id g gs)
unfolding put_group get_group
put_group-Memᴰ x id g [] free there = elim (Memᴰ.not-nil there) [ ]
put_group-Memᴰ x id g ((i, y) ∷ gs) free there = elim (Bool-cases (i == id)) [
  | inl same ↦ absurd (taken (rw same at free))
  | inr other ↦ rw other (later (put_group-Memᴰ x id g gs) (rw other at free) there)
]
  where
    taken : some y ≡ none → ⊥
    taken e = cc

    later :
        (get_group id gs ≡ none → Memᴰ x gs → Memᴰ x (put_group id g gs))
        → get_group id gs ≡ none
        → Memᴰ x ((i, y) ∷ gs)
        → Memᴰ x ((i, y) ∷ put_group id g gs)
    later ih free' (Memᴰ.head e) = Memᴰ.head e
    later ih free' (Memᴰ.tail rest) = Memᴰ.tail (ih free' rest)

add_group-Memᴰ :
    (x : ℕ × Group) (g : Group) (p : PendingTxs)
    → Memᴰ x p.group_tx
    → Memᴰ x (add_group g p).group_tx
unfolding add_group
add_group-Memᴰ x g p there = elim (Option-cases (get_group g.db_entry.group_id p.group_tx)) [
  | inl free ↦ rw (add_group, free) (put_group-Memᴰ x g.db_entry.group_id g p.group_tx free there)
  | inr (old, held) ↦ rw (add_group, held) there
]

create_new_groups-Memᴰ :
    (cfg : GroupingConfig) (now : ℕ) (compress : List MonitoredTx → Result (List ℕ))
    (p p' : PendingTxs) (x : ℕ × Group)
    → create_new_groups cfg now compress p ≡ ok p'
    → Memᴰ x p.group_tx
    → Memᴰ x p'.group_tx
unfolding generate_new_group_id
create_new_groups-Memᴰ cfg now compress p p' x h there =
    elim (create_new_groups-cases cfg now compress p p' h) [
      | inl same ↦ subst (λ q. Memᴰ x q.group_tx) same there
      | inr (data_of, e) ↦
          subst (λ q. Memᴰ x q.group_tx) e
            (add_group-Memᴰ x (new_group cfg now p data_of) (generate_new_group_id p) there)
    ]

-- When Process succeeds, each group of before that has used up its retries once SendClaims has been
-- at it is still there under its id, failed with all its transactions, whatever CheckReceipts found:
-- also when a claim was confirmed in this round, and when the last allowed transaction was sent in
-- this round and is still without a receipt.
pub process-exhausted :
    (net : Network) (cfg : GroupingConfig) (now : ℕ) (compress : List MonitoredTx → Result (List ℕ))
    (p p' : PendingTxs) (id : ℕ) (g : Group)
    → process net cfg now compress p ≡ ok p'
    → Memᴰ (id, g) p.group_tx
    → cfg.max_retries ≤ (send_claim net cfg now false g).db_entry.num_retries
    → (g' : Group) × Memᴰ (id, g') p'.group_tx
      × (g'.db_entry.status ≡ GroupStatus.failed)
      × (g'.txs ≡ put_status TxStatus.failed g.txs)
unfolding process send_claims check_receipts outdate_claims
process-exhausted net cfg now compress p p' id g h there used_up =
    let sent = send_claim net cfg now false g in
    let (checked, received, rest) =
      >>=-eq-ok (check_receipts net (send_claims net cfg now false p)) _ h in
    let (outdated, settled, made) = >>=-eq-ok (outdate_claims cfg now checked) _ rest in
    let (g1, there1, run1) =
      over_groups-Memᴰ (check_receipts_group net) (send_claims net cfg now false p) checked id sent
        received (map-Memᴰ (send_claim net cfg now false) id g p.group_tx there) in
    let (g2, there2, run2) =
      over_groups-Memᴰ (outdate_group cfg now) checked outdated id g1 settled there1 in
    let (same_retries, same_txs) = check_receipts_group-num_retries net sent g1 run1 in
    let (grown, kept) = send_claim-num_retries net cfg now false g in
    let (over, txs) =
      outdate_group-exhausted cfg now g1 g2 run2
        (subst (λ n. cfg.max_retries ≤ n) same_retries used_up) in
    (
      g2,
      create_new_groups-Memᴰ cfg now compress outdated p' (id, g2) made there2,
      over,
      txs ∙ same_txs ∙ ap (put_status TxStatus.failed) kept,
    )
