-- ===== src/Synchronizer/Rollback.antt =====
-- rollback: what is left after an error of a handler.
use zkevm_bridge_service.Base.{
  ℕ, zero, suc, ◌≡◌, refl, ◌∙◌, none, some, Result, ok, err, panic, Error, subst,
}
use zkevm_bridge_service.Base.State.{State}
use zkevm_bridge_service.Base.Keeps.{Keeps}
use zkevm_bridge_service.Bridgectrl.Keccak.{Keccak}
use zkevm_bridge_service.Bridgectrl.Controller.{BridgeController, Controlled, rollback_tree}
use zkevm_bridge_service.Bridgectrl.Controller.Reads.{seen, rollback_tree-seen}
use zkevm_bridge_service.Storage.Tables.{Db, serve}
use zkevm_bridge_service.Storage.Reads.{tables}
use zkevm_bridge_service.Synchronizer.World.{
  Config, World, Outcome, Retried, pool_view, retried, retry_rollback, closed, rolled, rollback,
  ended, or_rollback, in_tx, in_pool, in_trees,
}

-- The tables that the pool sees.
abbrev pub committed : {D : Type 0} → World D → Db D
committed w = tables w.db

module _ {D : Type 0} ⦃k : Keccak D⦄ where
  -- The trees are those that RollbackMT made of these tables.
  abbrev pub IsReloaded : ℕ → Db D → BridgeController D → Type 0
  IsReloaded network_id db bridge =
      (c c' : Controlled D) × (rollback_tree network_id c ≡ (ok tt, c'))
      × (seen c ≡ db)
      × (c'.bridge ≡ bridge)

  -- How the loop ends: at a RollbackMT that succeeds, or in a panic, and with the tables as before.
  abbrev IsRetried : ℕ → Db D → Retried D → Type 0
  IsRetried network_id db none = Unit {0}
  IsRetried network_id db (some (ok _, c)) = (seen c ≡ db) × IsReloaded network_id db c.bridge
  IsRetried network_id db (some (err e, c)) = ⊥
  IsRetried network_id db (some (panic, c)) = seen c ≡ db

  retried-IsRetried :
      (network_id : ℕ) (db : Db D) (again : Controlled D → Retried D) (c : Controlled D)
      (z : Result (Unit {0}) × Controlled D)
      → ((v : Controlled D) → seen v ≡ db → IsRetried network_id db (again v))
      → rollback_tree network_id c ≡ z
      → seen c ≡ db
      → seen z.1 ≡ db
      → IsRetried network_id db (retried again z)
  unfolding retried
  retried-IsRetried network_id db again c (ok _, v) next run before after =
      (after, (c, v, run, before, refl))
  retried-IsRetried network_id db again c (err e, v) next run before after = next v after
  retried-IsRetried network_id db again c (panic, v) next run before after = after

  retry_rollback-IsRetried :
      (fuel network_id : ℕ) (db : Db D) (c : Controlled D)
      → seen c ≡ db
      → IsRetried network_id db (retry_rollback fuel network_id c)
  unfolding retry_rollback
  retry_rollback-IsRetried zero network_id db c before = tt
  retry_rollback-IsRetried (suc fuel) network_id db c before =
      retried-IsRetried network_id db (retry_rollback fuel network_id) c
        (rollback_tree network_id c) (retry_rollback-IsRetried fuel network_id db) refl before
        ((rollback_tree-seen network_id).at c ∙ before)

  -- An error leaves the pool's tables as before and the trees as they stand there.
  abbrev pub IsRolledBack : ℕ → Db D → Outcome D (Unit {0}) → Type 0
  IsRolledBack network_id db none = Unit {0}
  IsRolledBack network_id db (some (ok _, w)) = committed w ≡ db
  IsRolledBack network_id db (some (err e, w)) =
      (committed w ≡ db) × IsReloaded network_id db w.bridge
  IsRolledBack network_id db (some (panic, w)) = committed w ≡ db

  closed-IsRolledBack :
      (network_id : ℕ) (db : Db D) (e : Error) (w : World D) (z : Result (Unit {0}) × Db D)
      → committed w ≡ db
      → IsReloaded network_id db w.bridge
      → IsRolledBack network_id db (some (closed e z w))
  closed-IsRolledBack network_id db e w (ok _, tx) same reloaded = (same, reloaded)
  closed-IsRolledBack network_id db e w (err e', tx) same reloaded = (same, reloaded)
  closed-IsRolledBack network_id db e w (panic, tx) same reloaded = same

  rolled-IsRolledBack :
      (network_id : ℕ) (db : Db D) (e : Error) (w : World D) (r : Retried D)
      → IsRetried network_id db r
      → IsRolledBack network_id db (rolled e w r)
  rolled-IsRolledBack network_id db e w none h = tt
  rolled-IsRolledBack network_id db e w (some (ok _, c)) (same, reloaded) =
      closed-IsRolledBack network_id db e (record w { bridge = c.bridge; db = c.db }) (serve w.tx)
        same reloaded
  rolled-IsRolledBack network_id db e w (some (err _, c)) h = elim h [ ]
  rolled-IsRolledBack network_id db e w (some (panic, c)) h = h

  pub rollback-IsRolledBack :
      (cfg : Config) (e : Error) (w : World D)
      → IsRolledBack cfg.network_id (committed w) (rollback cfg e w)
  unfolding rollback
  rollback-IsRolledBack cfg e w =
      rolled-IsRolledBack cfg.network_id (committed w) e w
        (retry_rollback cfg.fuel cfg.network_id (pool_view w))
        (retry_rollback-IsRetried cfg.fuel cfg.network_id (committed w) (pool_view w) refl)

  ended-IsRolledBack :
      (cfg : Config) (db : Db D) (z : Result (Unit {0}) × World D)
      → committed z.1 ≡ db
      → IsRolledBack cfg.network_id db (ended cfg z)
  ended-IsRolledBack cfg db (ok _, w) same = same
  ended-IsRolledBack cfg db (err e, w) same =
      subst (λ t. IsRolledBack cfg.network_id t (rollback cfg e w)) same
        (rollback-IsRolledBack cfg e w)
  ended-IsRolledBack cfg db (panic, w) same = same

  pub or_rollback-IsRolledBack :
      (cfg : Config) (m : State (World D) (Unit {0})) (w : World D)
      → Keeps committed m
      → IsRolledBack cfg.network_id (committed w) (or_rollback cfg m w)
  unfolding or_rollback
  or_rollback-IsRolledBack cfg m w keeps = ended-IsRolledBack cfg (committed w) (m w) (keeps.at w)

  pub in_tx-committed : {A : Type 0} (m : State (Db D) A) → Keeps committed (in_tx m)
  in_tx-committed m = record { at = λ w. refl }

  pub in_trees-committed : {A : Type 0} (m : State (Controlled D) A) → Keeps committed (in_trees m)
  in_trees-committed m = record { at = λ w. refl }

  pub in_pool-committed :
      {A : Type 0} {m : State (Db D) A} → Keeps tables m → Keeps committed (in_pool m)
  in_pool-committed keeps = record { at = λ w. keeps.at w.db }

  -- A rollback does not end well.
  abbrev pub IsFailed : Outcome D (Unit {0}) → Type 0
  IsFailed none = Unit {0}
  IsFailed (some (ok _, w)) = ⊥
  IsFailed (some (err e, w)) = Unit {0}
  IsFailed (some (panic, w)) = Unit {0}

  closed-IsFailed :
      (e : Error) (w : World D) (z : Result (Unit {0}) × Db D) → IsFailed (some (closed e z w))
  closed-IsFailed e w (ok _, tx) = tt
  closed-IsFailed e w (err e', tx) = tt
  closed-IsFailed e w (panic, tx) = tt

  rolled-IsFailed : (e : Error) (w : World D) (r : Retried D) → IsFailed (rolled e w r)
  rolled-IsFailed e w none = tt
  rolled-IsFailed e w (some (ok _, c)) =
      closed-IsFailed e (record w { bridge = c.bridge; db = c.db }) (serve w.tx)
  rolled-IsFailed e w (some (err _, c)) = tt
  rolled-IsFailed e w (some (panic, c)) = tt

  pub rollback-IsFailed : (cfg : Config) (e : Error) (w : World D) → IsFailed (rollback cfg e w)
  unfolding rollback
  rollback-IsFailed cfg e w =
      rolled-IsFailed e w (retry_rollback cfg.fuel cfg.network_id (pool_view w))

  failed-ne-ok : {o : Outcome D (Unit {0})} {w : World D} → IsFailed o → o ≡ some (ok tt, w) → ⊥
  failed-ne-ok f e = subst IsFailed e f

  ended-eq-ok :
      (cfg : Config) (z : Result (Unit {0}) × World D) {w' : World D}
      → ended cfg z ≡ some (ok tt, w')
      → z ≡ (ok tt, w')
  ended-eq-ok cfg (ok _, w) run = cc
  ended-eq-ok cfg (err e, w) run = absurd (failed-ne-ok (rollback-IsFailed cfg e w) run)
  ended-eq-ok cfg (panic, w) run = cc

  -- A handler that succeeds did not roll back.
  pub or_rollback-eq-ok :
      (cfg : Config) (m : State (World D) (Unit {0})) (w : World D) {w' : World D}
      → or_rollback cfg m w ≡ some (ok tt, w')
      → m w ≡ (ok tt, w')
  unfolding or_rollback
  or_rollback-eq-ok cfg m w run = ended-eq-ok cfg (m w) run
