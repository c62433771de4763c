-- ===== src/Claimtxman/Pending/Rounds.antt =====
-- NewPendingTxs and Process: which claims wait for a group, and the groups after a round.
use zkevm_bridge_service.Base.{
  ℕ, ◌≡◌, ◌≢◌, refl, ap, ◌⊎◌, inl, inr, List, [], ◌∷◌, map, Bool, false, Option, none, some, ◌==◌,
  length, Bool-cases, if-cases, Result, ok, ◌>>=◌, >>=-eq-ok, ok-injective, subst, arith,
}
use zkevm_bridge_service.Claimtxman.Types.{
  MonitoredTx, GroupEntry, Group, GroupingConfig, assign_txs_group_id, new_monitored_tx_group,
  is_candidate_to_be_grouped,
}
use zkevm_bridge_service.Claimtxman.Trigger.{choose_txs}
use zkevm_bridge_service.Claimtxman.Groups.{
  Network, send_claim, check_receipts_group, outdate_group,
}
use zkevm_bridge_service.Claimtxman.Groups.Retry.{
  IsSingle, in_flight, send_claim-IsSingle, check_receipts_group-IsSingle, outdate_group-IsSingle,
}
use zkevm_bridge_service.Claimtxman.Pending.{
  PendingTxs, get_group, put_group, generate_new_group_id, add_group, get_entry, send_claims,
  each_group, check_receipts, outdate_claims, new_entry, put_compressed, create_new_groups, process,
}

abbrev pub AllGroups : (Group → Type 0) → List (ℕ × Group) → Type 0
AllGroups P [] = Unit {0}
AllGroups P ((id, g) ∷ gs) = P g × AllGroups P gs

each_group-AllGroups :
    (P : Group → Type 0) (f : Group → Result Group)
    → ((g g' : Group) → P g → f g ≡ ok g' → P g')
    → (gs gs' : List (ℕ × Group)) → AllGroups P gs
    → each_group f gs ≡ ok gs'
    → AllGroups P gs'
unfolding each_group
each_group-AllGroups P f step [] gs' all h = subst (AllGroups P) (ok-injective h) tt
each_group-AllGroups P f step ((id, g) ∷ gs) gs' (here, all) h =
    let (g', first, h1) = >>=-eq-ok (f g) _ h in
    let (rest, later, h2) = >>=-eq-ok (each_group f gs) _ h1 in
    subst (AllGroups P) (ok-injective h2)
      (step g g' here first, each_group-AllGroups P f step gs rest all later)

send_claims-AllSingle :
    (net : Network) (cfg : GroupingConfig) (now : ℕ) (first : Bool) (gs : List (ℕ × Group))
    → AllGroups IsSingle gs
    → AllGroups IsSingle (map (λ (id, g). (id, send_claim net cfg now first g)) gs)
send_claims-AllSingle net cfg now first [] all = tt
send_claims-AllSingle net cfg now first ((id, g) ∷ gs) (here, all) =
    (send_claim-IsSingle net cfg now first g here, send_claims-AllSingle net cfg now first gs all)

put_group-AllGroups :
    (P : Group → Type 0) (id : ℕ) (g : Group) (gs : List (ℕ × Group))
    → P g
    → AllGroups P gs
    → AllGroups P (put_group id g gs)
unfolding put_group
put_group-AllGroups P id g [] here all = (here, tt)
put_group-AllGroups P id g ((i, h) ∷ gs) here (there, all) = elim (Bool-cases (i == id)) [
  | inl same ↦ rw same (here, all)
  | inr other ↦ rw other (there, put_group-AllGroups P id g gs here all)
]

-- The group that createNewGroups makes.
unfoldable pub new_group : GroupingConfig → ℕ → PendingTxs → List ℕ → Group
unfolding generate_new_group_id new_monitored_tx_group choose_txs
new_group cfg now p data_of = put_compressed data_of (
    new_monitored_tx_group (new_entry (generate_new_group_id p).last_group_tx_id now)
      (choose_txs cfg now p.tx_candidates_for_group))

pub create_new_groups-cases :
    (cfg : GroupingConfig) (now : ℕ) (compress : List MonitoredTx → Result (List ℕ))
    (p p' : PendingTxs)
    → create_new_groups cfg now compress p ≡ ok p'
    → (p ≡ p')
      ⊎ ((data_of : List ℕ) × (add_group (new_group cfg now p data_of) (generate_new_group_id p)
            ≡ p'))
unfolding create_new_groups new_group
create_new_groups-cases cfg now compress p p' h =
    elim (if-cases (length (choose_txs cfg now p.tx_candidates_for_group) == 0) h) [
      | inl (_, e) ↦ inl (ok-injective e)
      | inr (_, e) ↦
          let (data_of, _, made) = >>=-eq-ok (compress _) _ e in inr (data_of, ok-injective made)
    ]

add_group-AllSingle :
    (g : Group) (p : PendingTxs)
    → IsSingle g
    → AllGroups IsSingle p.group_tx
    → AllGroups IsSingle (add_group g p).group_tx
unfolding add_group
add_group-AllSingle g p single all = held (get_group g.db_entry.group_id p.group_tx)
  where
    held :
        (o : Option Group)
        → AllGroups IsSingle
            (elim o as (λ _. PendingTxs) [
              | some _ ↦ p
              | none ↦ record p { group_tx = put_group g.db_entry.group_id g p.group_tx }
            ]).group_tx
    held none = put_group-AllGroups IsSingle g.db_entry.group_id g p.group_tx single all
    held (some _) = all

new_group-IsSingle :
    (cfg : GroupingConfig) (now : ℕ) (p : PendingTxs) (data_of : List ℕ)
    → IsSingle (new_group cfg now p data_of)
unfolding new_group in_flight new_monitored_tx_group assign_txs_group_id
new_group-IsSingle cfg now p data_of = (omega arith, λ _. refl)

create_new_groups-AllSingle :
    (cfg : GroupingConfig) (now : ℕ) (compress : List MonitoredTx → Result (List ℕ))
    (p p' : PendingTxs)
    → AllGroups IsSingle p.group_tx
    → create_new_groups cfg now compress p ≡ ok p'
    → AllGroups IsSingle p'.group_tx
unfolding create_new_groups
create_new_groups-AllSingle cfg now compress p p' all h =
    elim (create_new_groups-cases cfg now compress p p' h) [
      | inl same ↦ subst (λ q. AllGroups IsSingle q.group_tx) same all
      | inr (data_of, e) ↦
          subst (λ q. AllGroups IsSingle q.group_tx) e
            (add_group-AllSingle (new_group cfg now p data_of) (generate_new_group_id p)
              (new_group-IsSingle cfg now p data_of) all)
    ]

over_groups :
    (f : Group → Result Group) (p p' : PendingTxs)
    → ((g g' : Group) → IsSingle g → f g ≡ ok g' → IsSingle g')
    → AllGroups IsSingle p.group_tx
    → (each_group f p.group_tx >>= λ gs. ok (record p { group_tx = gs })) ≡ ok p'
    → AllGroups IsSingle p'.group_tx
over_groups f p p' step all h =
    let (gs, e, made) =
      >>=-eq-ok (each_group f p.group_tx) (λ gs. ok (record p { group_tx = gs })) h in
    subst (AllGroups IsSingle) (ap (λ q. q.group_tx) (ok-injective made))
      (each_group-AllGroups IsSingle f step p.group_tx gs all e)

-- A round keeps at most one transaction of each group in flight, new groups included.
pub process-AllSingle :
    (net : Network) (cfg : GroupingConfig) (now : ℕ) (compress : List MonitoredTx → Result (List ℕ))
    (p p' : PendingTxs)
    → AllGroups IsSingle p.group_tx
    → process net cfg now compress p ≡ ok p'
    → AllGroups IsSingle p'.group_tx
unfolding process send_claims check_receipts outdate_claims
process-AllSingle net cfg now compress p p' all h =
    let (checked, received, rest) =
      >>=-eq-ok (check_receipts net (send_claims net cfg now false p)) _ h in
    let (outdated, settled, created) = >>=-eq-ok (outdate_claims cfg now checked) _ rest in
    let sent = send_claims-AllSingle net cfg now false p.group_tx all in
    let after_receipts =
      over_groups (check_receipts_group net) (send_claims net cfg now false p) checked
        (check_receipts_group-IsSingle net) sent received in
    let after_outdate =
      over_groups (outdate_group cfg now) checked outdated (outdate_group-IsSingle cfg now)
        after_receipts settled in
    create_new_groups-AllSingle cfg now compress outdated p' after_outdate created

-- The group of every transaction that has one and is no candidate is among the stored groups.
abbrev pub AreStored : ℕ → List (ℕ × GroupEntry) → List MonitoredTx → Type 0
AreStored ger groups [] = Unit {0}
AreStored ger groups (tx ∷ txs) =
    (is_candidate_to_be_grouped ger tx ≡ false
      → (id : ℕ) → tx.group_id ≡ some id
      → get_entry id groups ≢ none)
    × AreStored ger groups txs
