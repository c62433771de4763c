-- ===== src/Claimtxman/Status/Proven.antt =====
-- Which deposits updateDepositsStatus marks as ready for the claim.
use mathlib.Core.List.{Memᴰ}
use zkevm_bridge_service.Base.{
  ◌≡◌, refl, sym, ap, ◌∙◌, ◌⊎◌, inl, inr, subst, List, [], ◌∷◌, Bool, true, false, ◌&&◌, not, ◌==◌,
  some, some-injective, Result, ok, err, panic, arith,
}
use zkevm_bridge_service.Base.State.{State, ◌>>◌}
use zkevm_bridge_service.Bridgectrl.Keccak.{Keccak}
use zkevm_bridge_service.Storage.Tables.{RollupExitLeaf, Deposit, GlobalExitRoot, Db, serve}
use zkevm_bridge_service.Storage.Ready.{
  scalar, is_l1_deposit_to, is_l2_deposit, leaves_at, update_l1_deposits_status,
  update_l2_deposits_status,
}
use zkevm_bridge_service.Storage.Ready.Joins.{Marked-refl, leaves_at-row}
use zkevm_bridge_service.Claimtxman.Status.{
  Network, kept, in_transaction, update_by_ger, update_deposits_status,
}
use zkevm_bridge_service.Claimtxman.Status.Marks.{
  scalar-Memᴰ, IsCovered, IsMarked, Marks, Marks-bind, serve-Marks, mark_up_to-Marks,
}

l2_destination :
    (net : Network) (b : Bool) (d : Deposit)
    → is_l2_deposit net.l2_network_id b d ≡ true
    → (d.destination_network == 0) ≡ b
unfolding is_l2_deposit
l2_destination net true d h = ground arith
l2_destination net false d h = ground arith

module _ {D : Type 0} ⦃k : Keccak D⦄ where
  -- The deposits that a global exit root proves: L1's for this network by its first exit root, and
  -- this network's by the leaf of this rollup under the second.
  abbrev pub IsProven : Network → Bool → List D → Db D → Deposit → Type 0
  IsProven net is_from_l1 exit_roots db d =
      (mainnet rollups : D) × (rest : List D) × (exit_roots ≡ mainnet ∷ rollups ∷ rest)
      × (((d.network_id ≡ 0)
            × (d.destination_network ≡ net.l2_network_id)
            × IsCovered db mainnet 0 d)
          ⊎ ((d.network_id ≡ net.l2_network_id)
              × ((d.destination_network == 0) ≡ is_from_l1)
              × ((l : RollupExitLeaf D) × Memᴰ l db.rollup_exit
                  × (l.root ≡ rollups)
                  × (l.rollup_id ≡ net.rollup_id)
                  × IsCovered db l.leaf net.l2_network_id d)))

  update_l1-Marks :
      (net : Network) (b : Bool) (mainnet rollups : D) (rest : List D) (before : Db D)
      → Marks
          (IsProven net b (mainnet ∷ rollups ∷ rest) before)
          before
          (update_l1_deposits_status mainnet net.l2_network_id)
  unfolding update_l1_deposits_status is_l1_deposit_to
  update_l1-Marks net b mainnet rollups rest before db h =
      let P = IsProven net b (mainnet ∷ rollups ∷ rest) before in
      let served = serve-Marks P before db h in
      Marks-bind P before (serve db) _ served (λ _ _.
        mark_up_to-Marks P before (is_l1_deposit_to net.l2_network_id) 0 (some mainnet)
          (λ root e d covered picked. (
            mainnet,
            rollups,
            rest,
            refl,
            inl (
              ground arith,
              ground arith,
              subst (λ r. IsCovered before r 0 d) (sym (some-injective e)) covered,
            ),
          ))
          (serve db).1 served)

  update_l2-Marks :
      (net : Network) (b : Bool) (mainnet rollups : D) (rest : List D) (before : Db D)
      → Marks
          (IsProven net b (mainnet ∷ rollups ∷ rest) before)
          before
          (update_l2_deposits_status rollups net.rollup_id net.l2_network_id b)
  unfolding update_l2_deposits_status is_l2_deposit
  update_l2-Marks net b mainnet rollups rest before db h =
      let P = IsProven net b (mainnet ∷ rollups ∷ rest) before in
      let served = serve-Marks P before db h in
      let v = (serve db).1 in
      let leaves = leaves_at rollups net.rollup_id v.rollup_exit in
      Marks-bind P before (serve db) _ served (λ _ _.
        Marks-bind P before (scalar leaves, v) _ served
          (λ leaf found.
            mark_up_to-Marks P before (is_l2_deposit net.l2_network_id b) net.l2_network_id leaf
              (λ root e d covered picked.
                let (l, place, under, of, is_root) =
                  leaves_at-row rollups net.rollup_id v.rollup_exit root
                    (scalar-Memᴰ leaves root (found ∙ ap ok e)) in
                (
                  mainnet,
                  rollups,
                  rest,
                  refl,
                  inr (
                    ground arith,
                    l2_destination net b d picked,
                    (
                      l,
                      subst (λ ls. Memᴰ l ls) served.1 place,
                      under,
                      of,
                      subst (λ r. IsCovered before r net.l2_network_id d) (sym is_root) covered,
                    ),
                  ),
                ))
              v served))

  update_by_ger-Marks :
      (net : Network) (b : Bool) (exit_roots : List D) (before : Db D)
      → Marks (IsProven net b exit_roots before) before (update_by_ger net b exit_roots)
  unfolding update_by_ger
  update_by_ger-Marks net true (mainnet ∷ rollups ∷ rest) before =
      update_l2-Marks net true mainnet rollups rest before
  update_by_ger-Marks net false (mainnet ∷ rollups ∷ rest) before = λ db h.
      let after = update_l1-Marks net false mainnet rollups rest before db h in
      Marks-bind (IsProven net false (mainnet ∷ rollups ∷ rest) before) before
        (update_l1_deposits_status mainnet net.l2_network_id db) _ after
        (λ _ _.
          update_l2-Marks net false mainnet rollups rest before
            (update_l1_deposits_status mainnet net.l2_network_id db).1 after)
  update_by_ger-Marks net b [] before = λ db h. h
  update_by_ger-Marks net b (root ∷ []) before = λ db h. h

  kept-Marks :
      (P : Deposit → Type 0) (before : Db D) (z : Result (Unit {0}) × Db D)
      → IsMarked P before z.1
      → IsMarked P before (kept before z).1
  kept-Marks P before (ok _, db) h = h
  kept-Marks P before (err e, db) h = (refl, refl, Marked-refl P before.deposits)
  kept-Marks P before (panic, db) h = (refl, refl, Marked-refl P before.deposits)

  in_transaction-Marks :
      (P : Deposit → Type 0) (before : Db D) (body : State (Db D) (Unit {0}))
      → Marks P before body
      → IsMarked P before (in_transaction body before).1
  unfolding in_transaction
  in_transaction-Marks P before body marks =
      let begun = serve-Marks P before before (refl, refl, Marked-refl P before.deposits) in
      kept-Marks P before ((do serve; body; serve) before) (
        Marks-bind P before (serve before) _ begun (λ _ _.
          let done = marks (serve before).1 begun in
          Marks-bind P before (body (serve before).1) _ done
            (λ _ _. serve-Marks P before (body (serve before).1).1 done)))

  -- However updateDepositsStatus ends, the roots and the rollups' leaves are as before, and the
  -- deposits differ only in that some became ready for the claim that the global exit root proves:
  -- L1's deposits to this network, up to the deposit whose root is the first exit root, and this
  -- network's deposits, up to the one whose root is a leaf of this rollup under the second exit
  -- root. Of these last ones, L1's row of the global exit root serves those to L1 and another row
  -- those to the other networks.
  pub update_deposits_status-IsMarked :
      (net : Network) (ger : GlobalExitRoot D) (db : Db D)
      → IsMarked
          (IsProven net (not (ger.block_id == 0) && ger.network_id == 0) ger.exit_roots db)
          db
          (update_deposits_status net ger db).1
  unfolding update_deposits_status
  update_deposits_status-IsMarked net ger db =
      in_transaction-Marks _ db
        (update_by_ger net (not (ger.block_id == 0) && ger.network_id == 0) ger.exit_roots)
        (update_by_ger-Marks net (not (ger.block_id == 0) && ger.network_id == 0) ger.exit_roots db)
