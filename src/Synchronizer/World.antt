-- ===== src/Synchronizer/World.antt =====
-- synchronizer/synchronizer.go: what a synchronizer works on, its database transactions and its
-- rollback. `db` is what the pool sees and `tx` what the open transaction sees; `tx_answers` lists
-- the database's answers to each of the next transactions. A transaction that is not committed leaves
-- no trace here, also not in the sequences of the serial keys.
use zkevm_bridge_service.Base.{
  ℕ, zero, suc, List, [], ◌∷◌, Bool, Option, none, some, ◌≡◌, sym, ap, Result, ok, err, panic,
  Error,
}
use zkevm_bridge_service.Base.State.{State, ◌>>◌, modify, zoom}
use zkevm_bridge_service.Bridgectrl.Keccak.{Keccak}
use zkevm_bridge_service.Bridgectrl.Controller.{BridgeController, Controlled, rollback_tree}
use zkevm_bridge_service.Storage.Tables.{GlobalExitRoot, Db, serve}

-- The fields of ClientSynchronizer that the handlers read; `fuel` bounds the rounds of rollback.
pub record Config : Type 0 where
  pub network_id : ℕ
  pub all_network_ids : List ℕ
  pub fuel : ℕ

-- The `new_` fields are the local variables isNewL1Ger and isNewL2Ger; the `sent_` ones what went
-- into the channels, the newest first.
pub record World (D : Type 0) : Type 0 where
  pub bridge : BridgeController D
  pub db : Db D
  pub tx : Db D
  pub tx_answers : List (List Bool)
  pub new_l1_ger : Bool
  pub new_l2_ger : Bool
  pub l1_rollup_exit_root : D
  pub sent_l1 : List (GlobalExitRoot D)
  pub sent_l2 : List (GlobalExitRoot D)

-- How a handler ends: `none` is no fuel left for the rollback.
abbrev pub Outcome : Type 0 → Type 0 → Type 0
Outcome D A = Option (Result A × World D)

abbrev pub first : List (List Bool) → List Bool
first [] = []
first (answers ∷ rest) = answers

abbrev pub others : List (List Bool) → List (List Bool)
others [] = []
others (answers ∷ rest) = rest

module _ {D : Type 0} where
  -- A statement in the transaction, or on the pool.
  abbrev pub in_tx : {A : Type 0} → State (Db D) A → State (World D) A
  in_tx = zoom (λ w. w.tx) (λ db w. record w { tx = db })

  abbrev pub in_pool : {A : Type 0} → State (Db D) A → State (World D) A
  in_pool = zoom (λ w. w.db) (λ db w. record w { db = db })

  abbrev pub tx_view : World D → Controlled D
  tx_view w = record { bridge = w.bridge; db = w.tx }

  abbrev pub pool_view : World D → Controlled D
  pool_view w = record { bridge = w.bridge; db = w.db }

  -- A call of the bridge controller in the transaction.
  abbrev pub in_trees : {A : Type 0} → State (Controlled D) A → State (World D) A
  in_trees = zoom tx_view (λ c w. record w { bridge = c.bridge; tx = c.db })

  -- A call in the transaction that ended well, and what it wrote.
  pub in_tx-eq-ok :
      {A : Type 0} (m : State (Db D) A) (w : World D) {a : A} {v : World D}
      → in_tx m w ≡ (ok a, v)
      → (db : Db D) × (m w.tx ≡ (ok a, db)) × (v ≡ record w { tx = db })
  in_tx-eq-ok m w run = ((m w.tx).1, ap (λ z. (z.0, (m w.tx).1)) run, ap (λ z. z.1) (sym run))

  unfoldable pub begin_db_transaction : State (World D) (Unit {0})
  unfolding serve
  begin_db_transaction = do
    in_pool serve
    modify λ w. record w {
      tx = record w.db { faults = first w.tx_answers };
      tx_answers = others w.tx_answers;
    }

  unfoldable pub commit : State (World D) (Unit {0})
  unfolding serve
  commit = do in_tx serve; modify λ w. record w { db = record w.tx { faults = w.db.faults } }

  -- One call after another.
  unfoldable pub and_then : {A : Type 0} → Outcome D A → (World D → Outcome D A) → Outcome D A
  and_then none next = none
  and_then (some (ok a, w)) next = next w
  and_then (some (err e, w)) next = some (err e, w)
  and_then (some (panic, w)) next = some (panic, w)

abbrev pub Retried : Type 0 → Type 0
Retried D = Option (Result (Unit {0}) × Controlled D)

module _ {D : Type 0} ⦃k : Keccak D⦄ where
  -- One round of the loop: `again` runs the next ones.
  unfoldable pub retried : (Controlled D → Retried D) → Result (Unit {0}) × Controlled D → Retried D
  retried again (ok _, c) = some (ok tt, c)
  retried again (err e, c) = again c
  retried again (panic, c) = some (panic, c)

  -- The loop on RollbackMT, which runs on the pool.
  unfoldable pub retry_rollback : ℕ → ℕ → Controlled D → Retried D
  unfolding retried
  retry_rollback zero network_id c = none
  retry_rollback (suc fuel) network_id c =
      retried (retry_rollback fuel network_id) (rollback_tree network_id c)

  -- The transaction's end: its own error goes before the one that caused it.
  abbrev pub closed : Error → Result (Unit {0}) × Db D → World D → Result (Unit {0}) × World D
  closed e (ok _, tx) w = (err e, record w { tx = tx })
  closed e (err e', tx) w = (err e', record w { tx = tx })
  closed e (panic, tx) w = (panic, record w { tx = tx })

  abbrev pub rolled : Error → World D → Retried D → Outcome D (Unit {0})
  rolled e w none = none
  rolled e w (some (ok _, c)) =
      some (closed e (serve w.tx) (record w { bridge = c.bridge; db = c.db }))
  rolled e w (some (err _, c)) = some (err e, record w { bridge = c.bridge; db = c.db })
  rolled e w (some (panic, c)) = some (panic, record w { bridge = c.bridge; db = c.db })

  unfoldable pub rollback : Config → Error → World D → Outcome D (Unit {0})
  unfolding retry_rollback serve
  rollback cfg e w = rolled e w (retry_rollback cfg.fuel cfg.network_id (pool_view w))

  -- `if err != nil { return s.rollback(…, err, dbTx) }` after each call of a handler.
  abbrev pub ended : Config → Result (Unit {0}) × World D → Outcome D (Unit {0})
  ended cfg (ok _, w) = some (ok tt, w)
  ended cfg (err e, w) = rollback cfg e w
  ended cfg (panic, w) = some (panic, w)

  unfoldable pub or_rollback : Config → State (World D) (Unit {0}) → World D → Outcome D (Unit {0})
  unfolding rollback
  or_rollback cfg m w = ended cfg (m w)
