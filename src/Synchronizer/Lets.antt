-- ===== src/Synchronizer/Lets.antt =====
-- processBackwardLETSovereign: the deposits and the tree after a local exit tree went back.
use zkevm_bridge_service.Base.{
  ℕ, ◌≡◌, sym, ap, ◌∙◌, subst, [], ◌∷◌, ◌++◌, Bool, ◌&&◌, ◌==◌, inl, inr, some, ok, leb, ==_iff,
  and_left, and_right,
}
use zkevm_bridge_service.Base.State.{bind-eq-ok, if-at}
use zkevm_bridge_service.Bridgectrl.Keccak.{Keccak}
use zkevm_bridge_service.Bridgectrl.Controller.{
  BridgeController, Controlled, reorg_mt, get_exit_root,
}
use zkevm_bridge_service.Bridgectrl.Controller.Reads.{seen, reorg_mt-seen, get_exit_root-seen}
use zkevm_bridge_service.Storage.Tables.{BackwardLet, EventRow, backward_let, Deposit, Db, serve}
use zkevm_bridge_service.Storage.Trees.{same_digest}
use zkevm_bridge_service.Storage.Chain.{
  delete_deposits, reset_deposits, get_number_deposits, number_deposits, add_event,
}
use zkevm_bridge_service.Storage.Reads.{tables, same_digest-eq}
use zkevm_bridge_service.Synchronizer.World.{Config, World, in_tx, in_tx-eq-ok, in_trees, tx_view}
use zkevm_bridge_service.Synchronizer.Events.{
  check_tree, go_backward, process_backward_let_sovereign,
}
use zkevm_bridge_service.Synchronizer.Reset.{serve-eq-ok, number-tables}
use zkevm_bridge_service.Synchronizer.Rollback.{or_rollback-eq-ok}

-- The deposits of a network from a count on.
abbrev pub is_from : ℕ → ℕ → Deposit → Bool
is_from count network_id d = leb count d.deposit_count && d.network_id == network_id

module _ {D : Type 0} where
  reset_deposits-tables :
      (count network : ℕ) (db db' : Db D)
      → reset_deposits count network db ≡ (ok tt, db')
      → tables db' ≡ delete_deposits (is_from count network) (tables db)
  unfolding reset_deposits delete_deposits
  reset_deposits-tables count network db db' run = elim (if-at (network == 0) _ _ db run) [
    | inl (l1, bad) ↦ cc
    | inr (l2, good) ↦
        let (_, v, served, rest) = bind-eq-ok serve _ db good in
        ap (λ z. tables z.1) (sym rest)
        ∙ ap (delete_deposits (is_from count network)) (serve-eq-ok db v served)
  ]

  -- The tables with one more event.
  abbrev pub with_event : EventRow D → Db D → Db D
  with_event row db = record db { events = db.events ++ row ∷ [] }

  pub add_event-tables :
      (row : EventRow D) (db db' : Db D)
      → add_event row db ≡ (ok tt, db')
      → tables db' ≡ with_event row (tables db)
  unfolding add_event
  add_event-tables row db db' run =
      let (_, v, served, rest) = bind-eq-ok serve _ db run in
      ap (λ z. tables z.1) (sym rest) ∙ ap (with_event row) (serve-eq-ok db v served)

module _ {D : Type 0} ⦃k : Keccak D⦄ where
  -- GetExitRoot on the trees `before` and these tables answers with the root, and leaves the trees
  -- `after`.
  abbrev pub HasRoot : ℕ → Db D → BridgeController D → BridgeController D → D → Type 0
  HasRoot network_id db before after root =
      (c : Controlled D) × (c' : Controlled D) × (get_exit_root network_id c ≡ (ok root, c'))
      × (seen c ≡ db)
      × (c.bridge ≡ before)
      × (c'.bridge ≡ after)

  -- ReorgMT to a count, likewise.
  abbrev pub IsReorged : ℕ → ℕ → Db D → BridgeController D → BridgeController D → Type 0
  IsReorged network_id count db before after =
      (c : Controlled D) × (c' : Controlled D) × (reorg_mt count network_id c ≡ (ok tt, c'))
      × (seen c ≡ db)
      × (c.bridge ≡ before)
      × (c'.bridge ≡ after)

  check_tree-eq-ok :
      (cfg : Config) (n : ℕ) (root : D) (count : ℕ) (w w' : World D)
      → check_tree cfg n root count w ≡ (ok tt, w')
      → (tables w'.tx ≡ tables w.tx)
        × (number_deposits cfg.network_id n (tables w.tx) ≡ count)
        × HasRoot cfg.network_id (tables w.tx) w.bridge w'.bridge root
  unfolding check_tree
  check_tree-eq-ok cfg n root count w w' run =
      let net = cfg.network_id in
      let (cnt, w1, counted, run1) = bind-eq-ok (in_tx (get_number_deposits net n)) _ w run in
      let (db1, counted', is_w1) = in_tx-eq-ok (get_number_deposits net n) w counted in
      let (let_root, w2, rooted, run2) = bind-eq-ok (in_trees (get_exit_root net)) _ w1 run1 in
      let (same1, is_cnt) = number-tables n net cnt w.tx db1 counted' in
      let tx1 : tables w1.tx ≡ tables w.tx = ap (λ x. tables x.tx) is_w1 ∙ same1 in
      let c' = (get_exit_root net (tx_view w1)).1 in
      let tx2 : tables w2.tx ≡ tables w1.tx =
        ap (λ z. tables z.1.tx) (sym rooted) ∙ (get_exit_root-seen net).at (tx_view w1) in
      elim (if-at (same_digest let_root root && cnt == count) _ _ w2 run2) [
        | inl (same, done) ↦
            let is_w' : w2 ≡ w' = ap (λ z. z.1) done in
            let is_root : let_root ≡ root =
              same_digest-eq let_root root
                (and_left (same_digest let_root root) (cnt == count) same) in
            let is_count : cnt ≡ count =
              (==_iff cnt count).0 (and_right (same_digest let_root root) (cnt == count) same) in
            (
              ap (λ x. tables x.tx) (sym is_w') ∙ tx2 ∙ tx1,
              sym is_cnt ∙ is_count,
              (
                tx_view w1,
                c',
                subst (λ r. get_exit_root net (tx_view w1) ≡ (ok r, c')) is_root
                    (ap (λ z. (z.0, c')) rooted),
                tx1,
                ap (λ x. x.bridge) is_w1,
                ap (λ z. z.1.bridge) rooted ∙ ap (λ x. x.bridge) is_w',
              ),
            )
        | inr (differ, bad) ↦ cc
      ]

  -- When processBackwardLETSovereign succeeds: on the synchronizer's trees and the tables before,
  -- GetExitRoot answered with the previous root, and the network had the previous number of deposits;
  -- the tables are those before less the network's deposits from the new count on, with their roots
  -- and nodes, and with one event more; ReorgMT to the new count succeeded on the trees that were left
  -- and the tables less that event, GetExitRoot on its trees then answered with the new root and left
  -- the synchronizer's trees, and the number of deposits is the new count.
  pub process_backward_let_sovereign-eq-ok :
      (cfg : Config) (event : BackwardLet D) (block_id block_number : ℕ) (w w' : World D)
      → process_backward_let_sovereign cfg event block_id block_number w ≡ some (ok tt, w')
      → (number_deposits cfg.network_id block_number (tables w.tx) ≡ event.previous_deposit_count)
        × (cut : Db D) × (cut
            ≡ delete_deposits (is_from event.new_deposit_count cfg.network_id) (tables w.tx))
        × (tables w'.tx ≡ with_event (backward_let (record event { block_id = block_id })) cut)
        × (number_deposits cfg.network_id block_number cut ≡ event.new_deposit_count)
        × (read : BridgeController D) × (turned : BridgeController D) × HasRoot cfg.network_id
            (tables w.tx)
            w.bridge
            read
            event.previous_root
        × IsReorged cfg.network_id event.new_deposit_count cut read turned
        × HasRoot cfg.network_id cut turned w'.bridge event.new_root
  unfolding process_backward_let_sovereign go_backward
  process_backward_let_sovereign-eq-ok cfg event block_id n w w' run =
      let net = cfg.network_id in
      let e = record event { block_id = block_id } in
      let count = event.new_deposit_count in
      let done = or_rollback-eq-ok cfg (go_backward cfg e n) w run in
      let (_, w1, before, run1) =
        bind-eq-ok (check_tree cfg n event.previous_root event.previous_deposit_count) _ w done in
      let (same1, number1, root1) =
        check_tree-eq-ok cfg n event.previous_root event.previous_deposit_count w w1 before in
      let (_, w2, deleted, run2) = bind-eq-ok (in_tx (reset_deposits count net)) _ w1 run1 in
      let (db2, deleted', is_w2) = in_tx-eq-ok (reset_deposits count net) w1 deleted in
      let (_, w3, reorged, run3) = bind-eq-ok (in_trees (reorg_mt count net)) _ w2 run2 in
      let (_, w4, after, run4) = bind-eq-ok (check_tree cfg n event.new_root count) _ w3 run3 in
      let (same4, number4, (c, c', rooted, held, from, left)) =
        check_tree-eq-ok cfg n event.new_root count w3 w4 after in
      let (db5, added, is_w') = in_tx-eq-ok (add_event (backward_let e)) w4 run4 in
      let tx2 : tables w2.tx ≡ delete_deposits (is_from count net) (tables w.tx) =
        ap (λ x. tables x.tx) is_w2
        ∙ reset_deposits-tables count net w1.tx db2 deleted'
        ∙ ap (delete_deposits (is_from count net)) same1 in
      let tx3 : tables w3.tx ≡ tables w2.tx =
        ap (λ z. tables z.1.tx) (sym reorged) ∙ (reorg_mt-seen count net).at (tx_view w2) in
      (
        number1,
        tables w3.tx,
        tx3 ∙ tx2,
        ap (λ x. tables x.tx) is_w'
            ∙ add_event-tables (backward_let e) w4.tx db5 added
            ∙ ap (with_event (backward_let e)) same4,
        number4,
        w1.bridge,
        w3.bridge,
        root1,
        (
          tx_view w2,
          (reorg_mt count net (tx_view w2)).1,
          ap (λ z. (z.0, (reorg_mt count net (tx_view w2)).1)) reorged,
          tx2 ∙ sym (tx3 ∙ tx2),
          ap (λ x. x.bridge) is_w2,
          ap (λ z. z.1.bridge) reorged,
        ),
        (c, c', rooted, held, from, left ∙ ap (λ x. x.bridge) (sym is_w')),
      )
