-- ===== src/Synchronizer/Atomic.antt =====
-- processBlockRange: what is stored of a block.
use zkevm_bridge_service.Base.{
  ℕ, ◌≡◌, refl, ap, ◌∙◌, subst, List, [], ◌∷◌, Bool, true, false, ◌==◌, if◌then◌else◌, Option, none,
  some, length, get_elem?, Result, ok, err, panic, arith,
}
use zkevm_bridge_service.Base.State.{State, bind_result, modify}
use zkevm_bridge_service.Base.Keeps.{Keeps}
use zkevm_bridge_service.Bridgectrl.Keccak.{Keccak}
use zkevm_bridge_service.Storage.Tables.{GlobalExitRoot, Db, serve}
use zkevm_bridge_service.Storage.Trees.{same_digest}
use zkevm_bridge_service.Storage.Chain.{DecodeToken, add_block, add_claim, add_token_wrapped}
use zkevm_bridge_service.Storage.ExitRoots.{add_remove_l2_ger}
use zkevm_bridge_service.Storage.Reads.{tables, serve-tables}
use zkevm_bridge_service.Etherman.Types.{
  BlockData, EventOrder, Order, VerifiedBatch, backward_let_order, claims_order, deposits_order,
  forward_let_order, global_exit_roots_order, other_order, remove_l2_ger_order, set_claim_order,
  tokens_order, unset_claim_order, verify_batch_order,
}
use zkevm_bridge_service.Synchronizer.World.{
  Config, World, Outcome, in_tx, and_then, rollback, or_rollback, ended, commit, first, others,
  begin_db_transaction,
}
use zkevm_bridge_service.Synchronizer.Rollback.{
  committed, IsRolledBack, IsFailed, rollback-IsRolledBack, rollback-IsFailed,
  or_rollback-IsRolledBack, in_tx-committed,
}
use zkevm_bridge_service.Synchronizer.Events.{
  verify_batch, process_verify_batch, l1_global_exit_root, l2_global_exit_root,
  process_global_exit_root, store_deposit, process_deposit, process_claim, process_token_wrapped,
  process_remove_l2_global_exit_root, process_backward_let_sovereign, process_forward_let_sovereign,
  process_unset_claim_sovereign, process_set_claim_sovereign,
}
use zkevm_bridge_service.Synchronizer.Kept.{
  verify_batch-committed, l1_global_exit_root-committed, l2_global_exit_root-committed,
  store_deposit-committed, go_backward-committed, go_forward-committed, apply_unset_claim-committed,
  apply_set_claim-committed,
}
use zkevm_bridge_service.Synchronizer.Range.{
  on_event, note_ger, process_event, process_events, store_block, stored, begun, process_block,
}

if-holds {ℓ κ} :
    {A : Type ℓ} (b : Bool) (P : A → Type κ) {x y : A} → P x → P y → P (if b then x else y)
if-holds true P h g = h
if-holds false P h g = g

module _ {D : Type 0} ⦃k : Keccak D⦄ where
  -- The pool's tables at the end of a call.
  abbrev IsUnharmed : Db D → Outcome D (Unit {0}) → Type 0
  IsUnharmed db none = Unit {0}
  IsUnharmed db (some (r, w)) = committed w ≡ db

  IsRolledBack-IsUnharmed :
      (network_id : ℕ) (db : Db D) (o : Outcome D (Unit {0}))
      → IsRolledBack network_id db o
      → IsUnharmed db o
  IsRolledBack-IsUnharmed network_id db none h = tt
  IsRolledBack-IsUnharmed network_id db (some (ok _, w)) h = h
  IsRolledBack-IsUnharmed network_id db (some (err e, w)) (h, _) = h
  IsRolledBack-IsUnharmed network_id db (some (panic, w)) h = h

  or_rollback-IsUnharmed :
      (cfg : Config) (m : State (World D) (Unit {0})) (w : World D)
      → Keeps committed m
      → IsUnharmed (committed w) (or_rollback cfg m w)
  or_rollback-IsUnharmed cfg m w keeps =
      IsRolledBack-IsUnharmed cfg.network_id (committed w) (or_rollback cfg m w)
        (or_rollback-IsRolledBack cfg m w keeps)

  and_then-IsUnharmed :
      (db : Db D) (o : Outcome D (Unit {0})) (next : World D → Outcome D (Unit {0}))
      → IsUnharmed db o
      → ((w : World D) → committed w ≡ db → IsUnharmed db (next w))
      → IsUnharmed db (and_then o next)
  unfolding and_then
  and_then-IsUnharmed db none next h after = tt
  and_then-IsUnharmed db (some (ok _, w)) next h after = after w h
  and_then-IsUnharmed db (some (err e, w)) next h after = h
  and_then-IsUnharmed db (some (panic, w)) next h after = h

  module _ (cfg : Config) (decode : DecodeToken) where
    on_event-IsUnharmed :
        {E : Type 0} (db : Db D) (found : Option E) (handler : E → World D → Outcome D (Unit {0}))
        (w : World D)
        → committed w ≡ db
        → ((event : E) (v : World D) → committed v ≡ db → IsUnharmed db (handler event v))
        → IsUnharmed db (on_event found handler w)
    on_event-IsUnharmed db none handler w same h = same
    on_event-IsUnharmed db (some event) handler w same h = h event w same

    handled :
        (db : Db D) (m : State (World D) (Unit {0})) (w : World D)
        → committed w ≡ db
        → Keeps committed m
        → IsUnharmed db (or_rollback cfg m w)
    handled db m w same keeps =
        subst (λ t. IsUnharmed t (or_rollback cfg m w)) same (or_rollback-IsUnharmed cfg m w keeps)

    note_ger-committed :
        (ger : GlobalExitRoot D) (w : World D) → committed (note_ger ger w) ≡ committed w
    unfolding note_ger
    note_ger-committed ger w = ground arith

    process_global_exit_root-IsUnharmed :
        (db : Db D) (ger : GlobalExitRoot D) (id : ℕ) (w : World D)
        → committed w ≡ db
        → IsUnharmed db (process_global_exit_root cfg ger id w)
    unfolding process_global_exit_root
    process_global_exit_root-IsUnharmed db ger id w same =
        let row = record ger { block_id = id; network_id = cfg.network_id } in
        if-holds (length ger.exit_roots == 2) (IsUnharmed db)
          (handled db (l1_global_exit_root row) w same (l1_global_exit_root-committed row))
          (if-holds (length ger.exit_roots == 0) (IsUnharmed db)
            (handled db (l2_global_exit_root row) w same (l2_global_exit_root-committed row)) same)

    process_verify_batch-IsUnharmed :
        (db : Db D) (batch : VerifiedBatch D) (id : ℕ) (w : World D)
        → committed w ≡ db
        → IsUnharmed db (process_verify_batch cfg batch id w)
    unfolding process_verify_batch
    process_verify_batch-IsUnharmed db batch id w same =
        if-holds (same_digest batch.local_exit_root k.hash_zero) (IsUnharmed db) same
          (handled db (verify_batch cfg batch id) w same (verify_batch-committed cfg batch id))

    process_event-IsUnharmed :
        (db : Db D) (b : BlockData D) (id : ℕ) (o : EventOrder) (pos : ℕ) (w : World D)
        → committed w ≡ db
        → IsUnharmed db (process_event cfg decode b id o pos w)
    unfolding process_event process_deposit process_claim process_token_wrapped
        process_remove_l2_global_exit_root process_backward_let_sovereign
        process_forward_let_sovereign process_unset_claim_sovereign process_set_claim_sovereign
    process_event-IsUnharmed db b id global_exit_roots_order pos w same =
        on_event-IsUnharmed db (get_elem? b.global_exit_roots pos) _ w same (λ ger v h.
          process_global_exit_root-IsUnharmed db ger id (note_ger ger v)
            (note_ger-committed ger v ∙ h))
    process_event-IsUnharmed db b id remove_l2_ger_order pos w same =
        on_event-IsUnharmed db (get_elem? b.remove_l2_ger pos) _ w same (λ ger v h.
          handled db
            (in_tx (add_remove_l2_ger (record ger { block_id = id; network_id = cfg.network_id })))
            v h (in_tx-committed _))
    process_event-IsUnharmed db b id deposits_order pos w same =
        on_event-IsUnharmed db (get_elem? b.deposits pos) _ w same (λ d v h.
          let row = record d { block_id = id; network_id = cfg.network_id } in
          handled db (store_deposit row) v h (store_deposit-committed row))
    process_event-IsUnharmed db b id claims_order pos w same =
        on_event-IsUnharmed db (get_elem? b.claims pos) _ w same (λ c v h.
          handled db (in_tx (add_claim (record c { block_id = id; network_id = cfg.network_id }))) v
            h (in_tx-committed _))
    process_event-IsUnharmed db b id tokens_order pos w same =
        on_event-IsUnharmed db (get_elem? b.tokens pos) _ w same (λ t v h.
          handled db
            (in_tx
              (add_token_wrapped decode (record t { block_id = id; network_id = cfg.network_id })))
            v h (in_tx-committed _))
    process_event-IsUnharmed db b id verify_batch_order pos w same =
        on_event-IsUnharmed db (get_elem? b.verified_batches pos) _ w same
          (λ batch v h. process_verify_batch-IsUnharmed db batch id v h)
    process_event-IsUnharmed db b id backward_let_order pos w same =
        on_event-IsUnharmed db (get_elem? b.backward_lets pos) _ w same
          (λ e v h. handled db _ v h (go_backward-committed cfg _ _))
    process_event-IsUnharmed db b id unset_claim_order pos w same =
        on_event-IsUnharmed db (get_elem? b.unset_claims pos) _ w same
          (λ e v h. handled db _ v h (apply_unset_claim-committed cfg _))
    process_event-IsUnharmed db b id set_claim_order pos w same =
        on_event-IsUnharmed db (get_elem? b.set_claims pos) _ w same
          (λ e v h. handled db _ v h (apply_set_claim-committed cfg _ _))
    process_event-IsUnharmed db b id forward_let_order pos w same =
        on_event-IsUnharmed db (get_elem? b.forward_lets pos) _ w same
          (λ e v h. handled db _ v h (go_forward-committed cfg _ _))
    process_event-IsUnharmed db b id other_order pos w same = same

    process_events-IsUnharmed :
        (db : Db D) (b : BlockData D) (id : ℕ) (os : List Order) (w : World D)
        → committed w ≡ db
        → IsUnharmed db (process_events cfg decode b id os w)
    unfolding process_events
    process_events-IsUnharmed db b id [] w same = same
    process_events-IsUnharmed db b id (o ∷ os) w same =
        and_then-IsUnharmed db (process_event cfg decode b id o.name o.pos w)
          (process_events cfg decode b id os) (process_event-IsUnharmed db b id o.name o.pos w same)
          (process_events-IsUnharmed db b id os)

    stored-IsUnharmed :
        (db : Db D) (b : BlockData D) (z : Result ℕ × World D)
        → committed z.1 ≡ db
        → IsUnharmed db (stored cfg decode b z)
    stored-IsUnharmed db b (ok id, w) same = process_events-IsUnharmed db b id b.order w same
    stored-IsUnharmed db b (err e, w) same =
        handled db (λ v. (err e, v)) w same (record { at = λ v. refl })
    stored-IsUnharmed db b (panic, w) same = same

    store_block-IsUnharmed :
        (db : Db D) (b : BlockData D) (w : World D)
        → committed w ≡ db
        → IsUnharmed db (store_block cfg decode b w)
    unfolding store_block
    store_block-IsUnharmed db b w same =
        let row = record b.block { network_id = cfg.network_id } in
        stored-IsUnharmed db b (in_tx (add_block row) w) same

    abbrev CommitEnds : Db D → Db D → Outcome D (Unit {0}) → Type 0
    CommitEnds tx db none = Unit {0}
    CommitEnds tx db (some (ok _, w)) = committed w ≡ tx
    CommitEnds tx db (some (err e, w)) = committed w ≡ db
    CommitEnds tx db (some (panic, w)) = committed w ≡ db

    failed-CommitEnds :
        (tx db : Db D) (o : Outcome D (Unit {0}))
        → IsFailed o
        → IsUnharmed db o
        → CommitEnds tx db o
    failed-CommitEnds tx db none f h = tt
    failed-CommitEnds tx db (some (ok _, w)) f h = elim f [ ]
    failed-CommitEnds tx db (some (err e, w)) f h = h
    failed-CommitEnds tx db (some (panic, w)) f h = h

    served-CommitEnds :
        (v : World D) (z : Result (Unit {0}) × Db D)
        → tables z.1 ≡ tables v.tx
        → CommitEnds (tables v.tx) (committed v) (
            ended cfg (
              bind_result
                (z.0, record v { tx = z.1 })
                (λ _. modify λ w. record w { db = record w.tx { faults = w.db.faults } })))
    served-CommitEnds v (ok _, tx) same = same
    served-CommitEnds v (err e, tx) same =
        let after = rollback cfg e (record v { tx = tx }) in
        failed-CommitEnds (tables v.tx) (committed v) after (rollback-IsFailed cfg e _) (
          IsRolledBack-IsUnharmed cfg.network_id (committed v) after
            (rollback-IsRolledBack cfg e (record v { tx = tx })))
    served-CommitEnds v (panic, tx) same = refl

    commit-CommitEnds :
        (v : World D) → CommitEnds (tables v.tx) (committed v) (or_rollback cfg commit v)
    unfolding or_rollback commit
    commit-CommitEnds v = served-CommitEnds v (serve v.tx) (serve-tables.at v.tx)

    -- How the transaction of a block ends: an error or a panic leaves the pool's tables as they
    -- were, and a success leaves there what the block's events made of the transaction.
    abbrev pub IsAtomic : World D → BlockData D → Outcome D (Unit {0}) → Type 0
    IsAtomic w b none = Unit {0}
    IsAtomic w b (some (ok _, w')) =
        (v : World D) × (store_block cfg decode b (begin_db_transaction w).1 ≡ some (ok tt, v))
        × (committed w' ≡ tables v.tx)
    IsAtomic w b (some (err e, w')) = committed w' ≡ committed w
    IsAtomic w b (some (panic, w')) = committed w' ≡ committed w

    committed-IsAtomic :
        (w v : World D) (b : BlockData D) (db : Db D) (o : Outcome D (Unit {0}))
        → store_block cfg decode b (begin_db_transaction w).1 ≡ some (ok tt, v)
        → committed v ≡ committed w
        → CommitEnds (tables v.tx) (committed v) o
        → IsAtomic w b o
    committed-IsAtomic w v b db none run same h = tt
    committed-IsAtomic w v b db (some (ok _, w')) run same h = (v, run, h)
    committed-IsAtomic w v b db (some (err e, w')) run same h = h ∙ same
    committed-IsAtomic w v b db (some (panic, w')) run same h = h ∙ same

    block-IsAtomic :
        (w : World D) (b : BlockData D) (o : Outcome D (Unit {0}))
        → store_block cfg decode b (begin_db_transaction w).1 ≡ o
        → IsUnharmed (committed w) o
        → IsAtomic w b (and_then o (or_rollback cfg commit))
    unfolding and_then
    block-IsAtomic w b none run h = tt
    block-IsAtomic w b (some (ok _, v)) run h =
        committed-IsAtomic w v b (committed w) (or_rollback cfg commit v) run h
          (commit-CommitEnds v)
    block-IsAtomic w b (some (err e, v)) run h = h
    block-IsAtomic w b (some (panic, v)) run h = h

    begun-committed :
        (w : World D) (z : Result (Unit {0}) × Db D)
        → tables z.1 ≡ committed w
        → committed
            (bind_result
              (z.0, record w { db = z.1 })
              (λ _. modify λ v. record v {
                tx = record v.db { faults = first v.tx_answers };
                tx_answers = others v.tx_answers;
              })).1
          ≡ committed w
    begun-committed w (ok _, db) same = same
    begun-committed w (err e, db) same = same
    begun-committed w (panic, db) same = same

    begin-committed : Keeps {W = World D} committed begin_db_transaction
    unfolding begin_db_transaction
    begin-committed = record { at = λ w. begun-committed w (serve w.db) (serve-tables.at w.db) }

    begun-IsAtomic :
        (w : World D) (b : BlockData D) (z : Result (Unit {0}) × World D)
        → begin_db_transaction w ≡ z
        → committed z.1 ≡ committed w
        → IsAtomic w b (
            begun cfg decode
              (λ v. and_then (store_block cfg decode b v) (or_rollback cfg commit))
              z)
    begun-IsAtomic w b (ok _, v) run same =
        block-IsAtomic w b (store_block cfg decode b v) (ap (λ t. store_block cfg decode b t.1) run)
          (store_block-IsUnharmed (committed w) b v same)
    begun-IsAtomic w b (err e, v) run same = same
    begun-IsAtomic w b (panic, v) run same = same

    -- A block is stored whole or not at all: if processing it ends in an error or a panic, the
    -- pool's tables are as before; if it succeeds, they are what AddBlock and the handlers of its
    -- events made of the transaction that began on them.
    pub process_block-IsAtomic :
        (w : World D) (b : BlockData D) → IsAtomic w b (process_block cfg decode b w)
    unfolding process_block
    process_block-IsAtomic w b =
        begun-IsAtomic w b (begin_db_transaction w) refl (begin-committed.at w)
