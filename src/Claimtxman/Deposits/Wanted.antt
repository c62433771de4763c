-- ===== src/Claimtxman/Deposits/Wanted.antt =====
-- Which deposits processPendingDeposits takes up.
use mathlib.Core.List.{Memᴰ}
use zkevm_bridge_service.Base.{
  ℕ, ◌≡◌, refl, ap, subst, ◌≢◌, List, [], ◌∷◌, Bool, true, false, ◌&&◌, keep, ◌==◌, arith,
}
use zkevm_bridge_service.Base.Yields.{
  After, Yields, Yields-bind, Yields-pure, Yields-lift, Yields-gets,
}
use zkevm_bridge_service.Storage.Tables.{Deposit, Claim, serve, answer}
use zkevm_bridge_service.Claimtxman.Deposits.{ClaimTxManager, ClaimDb}
use zkevm_bridge_service.Claimtxman.Deposits.Queries.{
  only_l1, has_claim, is_ignored, is_l2_to_claim, is_pending_to_claim, on_tables, first_ger,
  get_deposits_from_other_l2_to_claim, get_pending_deposits_to_claim, count_pending, select_pending,
  select_trusted, get_latest_trusted_ger_by_deposit,
}
use zkevm_bridge_service.Claimtxman.Deposits.Selected.{
  AreAll, AreAll-order_by, AreAll-keep, any-false, AreAll-with_blocks, AreAll-without_blocks,
}

-- The tables, whatever PostgreSQL answers next.
abbrev pub seen : ClaimDb → ClaimDb
seen db = record db { base = record db.base { faults = [] } }

-- A deposit that is stored as it is, but for the number of its block, goes to the network, is
-- ready and not ignored, and whose index no claim on the network has.
abbrev pub IsOpen : ℕ → ClaimDb → Deposit → Type 0
IsOpen network_id db d =
    ((e : Deposit) × Memᴰ e db.base.deposits × (d ≡ record e { block_number = d.block_number }))
    × (d.destination_network ≡ network_id)
    × (d.ready_for_claim ≡ true)
    × ((id : ℕ) → Memᴰ id db.ignored → id ≢ d.id)
    × ((c : Claim) → Memᴰ c db.base.claims → c.network_id ≡ network_id → c.index ≢ d.deposit_count)

-- After an exit root of L1, the deposits of other L2s, if they are enabled, and else those of L1.
abbrev pub IsWanted : ClaimTxManager → Bool → ClaimDb → Deposit → Type 0
IsWanted tm true db d =
    IsOpen tm.l2_network_id db d × (tm.are_claims_between_l2s_enabled ≡ true) × (d.network_id ≢ 0)
IsWanted tm false db d = IsOpen tm.l2_network_id db d × (d.network_id ≡ 0)

abbrev pub Any : {A : Type 0} → A → Type 0
Any a = Unit {0}

module _ (s : ClaimDb) where
  served :
      (fs : List Bool) (db : ClaimDb) → seen db ≡ s → After seen s Any (on_tables (answer fs) db)
  served [] db same = (same, tt)
  served (true ∷ fs) db same = same
  served (false ∷ fs) db same = (same, tt)

  pub serve-Yields : Yields seen s Any (on_tables serve)
  unfolding serve
  serve-Yields = record { at = λ db same. served db.base.faults db same }

has_claim-false :
    (network_id : ℕ) (db : ClaimDb) (d : Deposit)
    → has_claim network_id db d ≡ false
    → (c : Claim) → Memᴰ c db.base.claims
    → c.network_id ≡ network_id
    → c.index ≢ d.deposit_count
unfolding has_claim
has_claim-false network_id db d h c there net index =
    let no =
      any-false (λ c. c.network_id == network_id && c.index == d.deposit_count) c db.base.claims h
        there in
    ground arith

is_ignored-false :
    (db : ClaimDb) (d : Deposit)
    → is_ignored db d ≡ false
    → (id : ℕ) → Memᴰ id db.ignored
    → id ≢ d.id
unfolding is_ignored
is_ignored-false db d h id there same =
    let no = any-false (λ i. i == d.id) id db.ignored h there in ground arith

is_l2_to_claim-IsWanted :
    (tm : ClaimTxManager) (db : ClaimDb) (d : Deposit)
    → tm.are_claims_between_l2s_enabled ≡ true
    → Memᴰ d db.base.deposits
    → is_l2_to_claim tm.l2_network_id db d ≡ true
    → IsWanted tm true db d
unfolding is_l2_to_claim
is_l2_to_claim-IsWanted tm db d on there h = (
  (
    (d, there, refl),
    ground arith,
    ground arith,
    is_ignored-false db d (ground arith),
    has_claim-false tm.l2_network_id db d (ground arith),
  ),
  on,
  ground arith,
)

is_pending_to_claim-IsWanted :
    (tm : ClaimTxManager) (address leaf_type : ℕ) (db : ClaimDb) (d : Deposit)
    → Memᴰ d db.base.deposits
    → is_pending_to_claim address tm.l2_network_id leaf_type only_l1 db d ≡ true
    → IsWanted tm false db d
unfolding is_pending_to_claim
is_pending_to_claim-IsWanted tm address leaf_type db d there h = (
  (
    (d, there, refl),
    ground arith,
    ground arith,
    is_ignored-false db d (ground arith),
    has_claim-false tm.l2_network_id db d (ground arith),
  ),
  ground arith,
)

-- The block number of a query's row is that of its join.
moved_block :
    (tm : ClaimTxManager) (db : ClaimDb) (from_l1 : Bool) (d : Deposit) (n : ℕ)
    → IsWanted tm from_l1 db d
    → IsWanted tm from_l1 db (record d { block_number = n })
moved_block tm db true d n (((e, there, same), to, ready, kept, unclaimed), on, from) = (
  (
    (e, there, ap (λ (x : Deposit). record x { block_number = n }) same),
    to,
    ready,
    kept,
    unclaimed,
  ),
  on,
  from,
)
moved_block tm db false d n (((e, there, same), to, ready, kept, unclaimed), from) = (
  (
    (e, there, ap (λ (x : Deposit). record x { block_number = n }) same),
    to,
    ready,
    kept,
    unclaimed,
  ),
  from,
)

-- The queries, at tables that are seen as `s`.
module _ (tm : ClaimTxManager) (s : ClaimDb) where
  abbrev pub AreWanted : Bool → List Deposit → Type 0
  AreWanted from_l1 ds = AreAll (IsWanted tm from_l1 s) ds

  kept-AreWanted :
      (from_l1 : Bool) (p : ClaimDb → Deposit → Bool)
      → ((db : ClaimDb) (d : Deposit)
          → Memᴰ d db.base.deposits
          → p db d ≡ true
          → IsWanted tm from_l1 db d)
      → (db : ClaimDb) → seen db ≡ s
      → AreWanted from_l1 (keep (p db) db.base.deposits)
  kept-AreWanted true p fits db same =
      subst (λ x. AreAll (IsWanted tm true x) (keep (p db) db.base.deposits)) same
        (AreAll-keep (IsWanted tm true (seen db)) (p db) db.base.deposits (fits db))
  kept-AreWanted false p fits db same =
      subst (λ x. AreAll (IsWanted tm false x) (keep (p db) db.base.deposits)) same
        (AreAll-keep (IsWanted tm false (seen db)) (p db) db.base.deposits (fits db))

  pub from_other_l2-Yields :
      tm.are_claims_between_l2s_enabled ≡ true
      → Yields seen s (AreWanted true) (get_deposits_from_other_l2_to_claim tm.l2_network_id)
  unfolding get_deposits_from_other_l2_to_claim
  from_other_l2-Yields on = Yields-bind (serve-Yields s) (λ _ _. Yields-gets _ (λ db same.
      AreAll-without_blocks _ (moved_block tm s true) _ (
        AreAll-order_by _ _ _ (
          kept-AreWanted true (is_l2_to_claim tm.l2_network_id)
            (λ db d. is_l2_to_claim-IsWanted tm db d on) db same))))

  count-Yields :
      (address leaf_type : ℕ)
      → Yields seen s Any (count_pending address tm.l2_network_id leaf_type only_l1)
  unfolding count_pending
  count-Yields address leaf_type =
      Yields-bind (serve-Yields s) (λ _ _. Yields-gets _ (λ db same. tt))

  select-Yields :
      (address leaf_type : ℕ)
      → Yields seen s (AreWanted false) (select_pending address tm.l2_network_id leaf_type only_l1)
  unfolding select_pending
  select-Yields address leaf_type = Yields-bind (serve-Yields s) (λ _ _. Yields-gets _ (λ db same.
      AreAll-order_by _ _ _ (
        AreAll-with_blocks _ (moved_block tm s false) _ _ (
          kept-AreWanted false (is_pending_to_claim address tm.l2_network_id leaf_type only_l1)
            (is_pending_to_claim-IsWanted tm address leaf_type) db same))))

  pub pending-Yields :
      (address leaf_type : ℕ)
      → Yields seen s
          (λ (ds, total). AreWanted false ds)
          (get_pending_deposits_to_claim address tm.l2_network_id leaf_type 0 0 only_l1)
  unfolding get_pending_deposits_to_claim
  pending-Yields address leaf_type =
      Yields-bind (count-Yields address leaf_type) (λ total _.
        Yields-bind (select-Yields address leaf_type) (λ ds h. Yields-pure (ds, total) h))

  select_trusted-Yields :
      (deposit_cnt network_id destination_network : ℕ)
      → Yields seen s Any (select_trusted deposit_cnt network_id destination_network)
  unfolding select_trusted
  select_trusted-Yields deposit_cnt network_id destination_network =
      Yields-bind (serve-Yields s) (λ _ _. Yields-gets _ (λ db same. tt))

  pub trusted_ger-Yields :
      (deposit_cnt network_id destination_network : ℕ)
      → Yields seen s Any
          (get_latest_trusted_ger_by_deposit deposit_cnt network_id destination_network)
  unfolding get_latest_trusted_ger_by_deposit
  trusted_ger-Yields deposit_cnt network_id destination_network =
      Yields-bind (select_trusted-Yields deposit_cnt network_id destination_network)
        (λ rows _. Yields-lift (first_ger rows) (λ _ _. tt))
