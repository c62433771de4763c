-- ===== src/Synchronizer/Reset.antt =====
-- resetState: what stays stored after the synchronizer went back to a block.
use zkevm_bridge_service.Base.{
  ℕ, ◌≡◌, refl, sym, ap, ◌∙◌, subst, List, [], ◌∷◌, Bool, false, not, ◌&&◌, ◌==◌, ltb, some, Result,
  ok, err, panic, ok-injective, any, keep, arith,
}
use zkevm_bridge_service.Base.State.{bind_result, bind-eq-ok, modify}
use zkevm_bridge_service.Bridgectrl.Keccak.{Keccak}
use zkevm_bridge_service.Bridgectrl.Controller.{Controlled, reorg_mt}
use zkevm_bridge_service.Bridgectrl.Controller.Reads.{seen, reorg_mt-seen}
use zkevm_bridge_service.Storage.Tables.{Block, Db, serve}
use zkevm_bridge_service.Storage.Chain.{
  DecodeToken, delete_deposits, delete_blocks, reset, get_number_deposits, number_deposits,
}
use zkevm_bridge_service.Storage.Reads.{tables, serve-tables}
use zkevm_bridge_service.Synchronizer.World.{
  Config, World, Outcome, in_tx, in_tx-eq-ok, in_trees, tx_view, begin_db_transaction, commit,
  or_rollback, first, others,
}
use zkevm_bridge_service.Synchronizer.Range.{begun, go_back, reset_state}
use zkevm_bridge_service.Synchronizer.Rollback.{committed, or_rollback-eq-ok}

-- The blocks of a network above a number.
abbrev pub is_above : ℕ → ℕ → Block → Bool
is_above block_number network_id b = ltb block_number b.block_number && b.network_id == network_id

-- A deletion leaves no row that it dooms.
any-keep-not {ℓ} :
    {A : Type ℓ} (doomed : A → Bool) (xs : List A)
    → any doomed (keep (λ x. not (doomed x)) xs) ≡ false
unfolding any keep
any-keep-not doomed [] = refl
any-keep-not doomed (x ∷ xs) = ground (arith, any-keep-not doomed xs)

module _ {D : Type 0} where
  -- What went through a statement that is answered.
  pub serve-eq-ok : (db db' : Db D) → serve db ≡ (ok tt, db') → tables db' ≡ tables db
  serve-eq-ok db db' run = ap (λ z. tables z.1) (sym run) ∙ serve-tables.at db

  reset-tables :
      (n network : ℕ) (db db' : Db D)
      → reset n network db ≡ (ok tt, db')
      → tables db' ≡ delete_blocks (is_above n network) (tables db)
  unfolding reset delete_blocks delete_deposits
  reset-tables n network db db' run =
      let (_, v, served, rest) = bind-eq-ok serve _ db run in
      ap (λ z. tables z.1) (sym rest)
      ∙ ap (delete_blocks (is_above n network)) (serve-eq-ok db v served)

  pub number-tables :
      (n network count : ℕ) (db db' : Db D)
      → get_number_deposits network n db ≡ (ok count, db')
      → (tables db' ≡ tables db) × (count ≡ number_deposits network n (tables db))
  unfolding get_number_deposits number_deposits
  number-tables n network count db db' run =
      let (_, v, served, rest) = bind-eq-ok serve _ db run in
      let same = serve-eq-ok db v served in
      (
        ap (λ z. tables z.1) (sym rest) ∙ same,
        sym (ok-injective (ap (λ z. z.0) rest)) ∙ ap (number_deposits network n) same,
      )

  abbrev after_first : World D → Db D → World D
  after_first w db = record w {
    db = db;
    tx = record db { faults = first w.tx_answers };
    tx_answers = others w.tx_answers;
  }

  started :
      (w : World D) (z : Result (Unit {0}) × Db D) {a : Unit {0}} {v : World D}
      → bind_result
          (z.0, record w { db = z.1 })
          (λ _. modify λ u. record u {
            tx = record u.db { faults = first u.tx_answers };
            tx_answers = others u.tx_answers;
          })
        ≡ (ok a, v)
      → v ≡ after_first w z.1
  started w (ok _, db) run = ap (λ z. z.1) (sym run)
  started w (err e, db) run = cc
  started w (panic, db) run = cc

  begin-eq-ok :
      (w v : World D) {a : Unit {0}}
      → begin_db_transaction w ≡ (ok a, v)
      → (tables v.tx ≡ committed w) × (v.bridge ≡ w.bridge)
  unfolding begin_db_transaction
  begin-eq-ok w v run =
      let is_v = started w (serve w.db) run in
      (ap (λ u. tables u.tx) is_v ∙ serve-tables.at w.db, ap (λ u. u.bridge) is_v)

  commit-eq-ok :
      (w v : World D) → commit w ≡ (ok tt, v) → (committed v ≡ tables w.tx) × (v.bridge ≡ w.bridge)
  unfolding commit
  commit-eq-ok w v run =
      let (_, u, served, rest) = bind-eq-ok (in_tx serve) _ w run in
      let (db, served', is_u) = in_tx-eq-ok serve w served in
      (
        ap committed (ap (λ z. z.1) (sym rest))
            ∙ ap (λ x. tables x.tx) is_u
            ∙ serve-eq-ok w.tx db served',
        ap (λ z. z.1.bridge) (sym rest) ∙ ap (λ x. x.bridge) is_u,
      )

module _ {D : Type 0} ⦃k : Keccak D⦄ where
  go_back-eq-ok :
      (cfg : Config) (decode : DecodeToken) (n : ℕ) (w w' : World D)
      → go_back cfg decode n w ≡ (ok tt, w')
      → (committed w' ≡ delete_blocks (is_above n cfg.network_id) (tables w.tx))
        × (c : Controlled D) × (c' : Controlled D) × (reorg_mt
              (number_deposits cfg.network_id n (committed w'))
              cfg.network_id
              c
            ≡ (ok tt, c'))
        × (seen c ≡ committed w')
        × (c'.bridge ≡ w'.bridge)
  unfolding go_back
  go_back-eq-ok cfg decode n w w' run =
      let net = cfg.network_id in
      let (_, w1, cut, run1) = bind-eq-ok (in_tx (reset n net)) _ w run in
      let (db1, cut', is_w1) = in_tx-eq-ok (reset n net) w cut in
      let (count, w2, counted, run2) = bind-eq-ok (in_tx (get_number_deposits net n)) _ w1 run1 in
      let (db2, counted', is_w2) = in_tx-eq-ok (get_number_deposits net n) w1 counted in
      let (_, w3, reorged, run3) = bind-eq-ok (in_trees (reorg_mt count net)) _ w2 run2 in
      let (stored, bridge) = commit-eq-ok w3 w' run3 in
      let (same2, is_count) = number-tables n net count w1.tx db2 counted' in
      let tx1 : tables w1.tx ≡ delete_blocks (is_above n net) (tables w.tx) =
        ap (λ x. tables x.tx) is_w1 ∙ reset-tables n net w.tx db1 cut' in
      let tx2 : tables w2.tx ≡ tables w1.tx = ap (λ x. tables x.tx) is_w2 ∙ same2 in
      let c' = (reorg_mt count net (tx_view w2)).1 in
      let tx3 : tables w3.tx ≡ tables w2.tx =
        ap (λ z. tables z.1.tx) (sym reorged) ∙ (reorg_mt-seen count net).at (tx_view w2) in
      let at_end : committed w' ≡ tables w1.tx = stored ∙ tx3 ∙ tx2 in
      let count_end : count ≡ number_deposits net n (committed w') =
        is_count ∙ ap (number_deposits net n) (sym at_end) in
      let reorged' : reorg_mt count net (tx_view w2) ≡ (ok tt, c') = ap (λ z. (z.0, c')) reorged in
      (
        at_end ∙ tx1,
        tx_view w2,
        c',
        subst (λ m. reorg_mt m net (tx_view w2) ≡ (ok tt, c')) count_end reorged',
        sym (stored ∙ tx3),
        ap (λ z. z.1.bridge) reorged ∙ sym bridge,
      )

  begun-eq-ok :
      (cfg : Config) (decode : DecodeToken) (next : World D → Outcome D (Unit {0}))
      (z : Result (Unit {0}) × World D) {w' : World D}
      → begun cfg decode next z ≡ some (ok tt, w')
      → (v : World D) × (z ≡ (ok tt, v)) × (next v ≡ some (ok tt, w'))
  begun-eq-ok cfg decode next (ok _, v) run = (v, refl, run)
  begun-eq-ok cfg decode next (err e, v) run = cc
  begun-eq-ok cfg decode next (panic, v) run = cc

  -- When resetState succeeds, the pool's tables are those before less the blocks of the network
  -- above the number, with every row that hangs on these; none of those blocks is left; and the
  -- trees are those that a ReorgMT made of these tables, at the number of deposits in them.
  pub reset_state-eq-ok :
      (cfg : Config) (decode : DecodeToken) (block_number : ℕ) (w w' : World D)
      → reset_state cfg decode block_number w ≡ some (ok tt, w')
      → (committed w' ≡ delete_blocks (is_above block_number cfg.network_id) (committed w))
        × (any (is_above block_number cfg.network_id) (committed w').blocks ≡ false)
        × (c : Controlled D) × (c' : Controlled D) × (reorg_mt
              (number_deposits cfg.network_id block_number (committed w'))
              cfg.network_id
              c
            ≡ (ok tt, c'))
        × (seen c ≡ committed w')
        × (c'.bridge ≡ w'.bridge)
  unfolding reset_state delete_blocks
  reset_state-eq-ok cfg decode n w w' run =
      let (v, began, ended) =
        begun-eq-ok cfg decode (or_rollback cfg (go_back cfg decode n)) (begin_db_transaction w)
          run in
      let (same, _) = begin-eq-ok w v began in
      let (stored, c, c', reorged, held, bridge) =
        go_back-eq-ok cfg decode n v w' (or_rollback-eq-ok cfg (go_back cfg decode n) v ended) in
      let is_cut = stored ∙ ap (delete_blocks (is_above n cfg.network_id)) same in
      (
        is_cut,
        ap (λ db. any (is_above n cfg.network_id) db.blocks) is_cut
            ∙ any-keep-not (is_above n cfg.network_id) w.db.blocks,
        c,
        c',
        reorged,
        held,
        bridge,
      )
