-- ===== src/Claimtxman/Monitor/Settled.antt =====
-- What MonitorTxs may do to a claim.
use mathlib.Core.List.{Memᴰ}
use zkevm_bridge_service.Base.{
  ℕ, ◌≤◌, ◌≡◌, refl, subst, ◌⊎◌, inl, inr, List, [], ◌∷◌, Bool, true, false, Bool-cases, Option,
  none, some, find, keep, ◌==◌, or_err, ok, ok-injective, storage_not_found, arith,
}
use zkevm_bridge_service.Base.Yields.{Yields, Yields-bind, Yields-lift, Yields-gets}
use zkevm_bridge_service.Storage.Tables.{Deposit}
use zkevm_bridge_service.Storage.Chain.{block_of}
use zkevm_bridge_service.Claimtxman.Types.{
  TxStatus, created, failed, confirmed, compressing, claiming, MonitoredTx, is_created,
}
use zkevm_bridge_service.Claimtxman.Single.{IsClaimed, AreMined}
use zkevm_bridge_service.Claimtxman.Deposits.{ClaimDb}
use zkevm_bridge_service.Claimtxman.Deposits.Selected.{AreAll, AreAll-keep, AreAll-order_by}
use zkevm_bridge_service.Claimtxman.Deposits.Wanted.{seen, Any, serve-Yields}
use zkevm_bridge_service.Claimtxman.Monitor.{
  Monitor, is_created_claim, get_created_claim_txs, get_deposit_by_deposit_id, joined, is_some,
}

-- The contract's answer for the stored deposit of the claim.
abbrev pub IsAnswered : Monitor → List Deposit → MonitoredTx → Bool → Type 0
IsAnswered tm ds s b =
    (d : Deposit) × Memᴰ d ds
    × (d.id ≡ s.deposit_id)
    × (tm.is_claimed d.deposit_count d.network_id ≡ ok b)

-- The claim `t` is the claim `s` later: no less gas and nonce, confirmed only when a transaction of
-- its history was mined with success or the deposit is claimed, failed only when all were mined or
-- the deposit is not claimed.
abbrev pub IsMoved : Monitor → List Deposit → MonitoredTx → MonitoredTx → Type 0
IsMoved tm ds s t =
    (t.deposit_id ≡ s.deposit_id)
    × (s.gas ≤ t.gas)
    × (s.nonce ≤ t.nonce)
    × ((t.status ≡ s.status)
        ⊎ (((t.status ≡ confirmed) × (IsClaimed tm.receipts s.history ⊎ IsAnswered tm ds s true))
            ⊎ ((t.status ≡ failed) × (AreMined tm.receipts s.history ⊎ IsAnswered tm ds s false))))

-- A claim of before, or a created one of before that has moved.
abbrev pub IsRow : Monitor → List Deposit → List MonitoredTx → MonitoredTx → Type 0
IsRow tm ds old t =
    Memᴰ t old ⊎ ((s : MonitoredTx) × Memᴰ s old × (s.status ≡ created) × IsMoved tm ds s t)

is_created-eq : (s : TxStatus) → is_created s ≡ true → s ≡ created
is_created-eq created h = refl
is_created-eq failed h = cc
is_created-eq confirmed h = cc
is_created-eq compressing h = cc
is_created-eq claiming h = cc

is_created_claim-created :
    (rollup_id : ℕ) (db : ClaimDb) (t : MonitoredTx)
    → is_created_claim rollup_id db t ≡ true
    → t.status ≡ created
unfolding is_created_claim
is_created_claim-created rollup_id db t h = is_created-eq t.status (ground arith)

abbrev HasId : ℕ → List Deposit → Option Deposit → Type 0
HasId id ds none = Unit {0}
HasId id ds (some d) = Memᴰ d ds × (d.id ≡ id)

HasId-more :
    (id : ℕ) (e : Deposit) (ds : List Deposit) (o : Option Deposit)
    → HasId id ds o
    → HasId id (e ∷ ds) o
HasId-more id e ds none h = tt
HasId-more id e ds (some d) (there, same) = (Memᴰ.tail there, same)

find-HasId : (id : ℕ) (ds : List Deposit) → HasId id ds (find (λ d. d.id == id) ds)
unfolding find
find-HasId id [] = tt
find-HasId id (d ∷ ds) = elim (Bool-cases (d.id == id)) [
  | inl same ↦ rw same (Memᴰ.head refl, ground arith)
  | inr other ↦ rw other (HasId-more id d ds (find (λ e. e.id == id) ds) (find-HasId id ds))
]

module _ (s : ClaimDb) where
  pub get_created-Yields :
      (rollup_id : ℕ)
      → Yields seen s
          (AreAll (λ t. Memᴰ t s.monitored_txs × (t.status ≡ created)))
          (get_created_claim_txs rollup_id)
  unfolding get_created_claim_txs
  get_created-Yields rollup_id = Yields-bind (serve-Yields s) (λ _ _. Yields-gets _ (λ db same.
      AreAll-order_by _ _ _ (
        subst
          (λ x.
            AreAll (λ t. Memᴰ t x.monitored_txs × (t.status ≡ created))
              (keep (is_created_claim rollup_id db) db.monitored_txs))
          same
          (AreAll-keep (λ t. Memᴰ t db.monitored_txs × (t.status ≡ created))
            (is_created_claim rollup_id db) db.monitored_txs
            (λ t there fits. (there, is_created_claim-created rollup_id db t fits))))))

  HasId-or_err :
      (id : ℕ) (o : Option Deposit) (d : Deposit)
      → HasId id s.base.deposits o
      → or_err storage_not_found o ≡ ok d
      → Memᴰ d s.base.deposits × (d.id ≡ id)
  HasId-or_err id none d h e = cc
  HasId-or_err id (some x) d (there, same) e =
      subst (λ y. Memᴰ y s.base.deposits × (y.id ≡ id)) (ok-injective e) (there, same)

  joined-same : (b : Bool) (d e : Deposit) → joined d b ≡ ok e → d ≡ e
  joined-same true d e h = ok-injective h
  joined-same false d e h = cc

  pub get_deposit-Yields :
      (id : ℕ)
      → Yields seen s (λ d. Memᴰ d s.base.deposits × (d.id ≡ id)) (get_deposit_by_deposit_id id)
  unfolding get_deposit_by_deposit_id
  get_deposit-Yields id = Yields-bind (serve-Yields s) (λ _ _.
      Yields-bind {A = Option Deposit} {P = HasId id s.base.deposits}
        (Yields-gets (λ db. find (λ d. d.id == id) db.base.deposits)
          (λ db same.
            subst (λ x. HasId id x.base.deposits (find (λ d. d.id == id) db.base.deposits)) same
              (find-HasId id db.base.deposits)))
        (λ o has.
          Yields-bind {A = Deposit} {P = λ d. Memᴰ d s.base.deposits × (d.id ≡ id)}
            (Yields-lift (or_err storage_not_found o) (λ d e. HasId-or_err id o d has e))
            (λ d h.
              Yields-bind {A = Bool} {P = Any}
                (Yields-gets (λ db. is_some (block_of db.base d)) (λ db same. tt))
                (λ b _. Yields-lift (joined d b) (λ e same.
                  subst (λ y. Memᴰ y s.base.deposits × (y.id ≡ id)) (joined-same b d e same) h)))))
