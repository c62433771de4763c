-- ===== src/Synchronizer/Claims.antt =====
-- processSetClaimSovereign and processUnsetClaimSovereign: the rows of sync.claim.
use mathlib.Core.List.{Memᴰ}
use zkevm_bridge_service.Base.{
  ℕ, ◌≡◌, refl, sym, ap, ◌∙◌, List, [], ◌∷◌, ◌++◌, Bool, true, false, not, ◌&&◌, ◌==◌, some, Result,
  ok, any, keep, find, or_err, storage_not_found, none, ok-injective, subst, Option, some-injective,
  Bool-cases, inl, inr, ==_iff, arith,
}
use zkevm_bridge_service.Base.State.{bind-eq-ok, if-at, lift}
use zkevm_bridge_service.Base.Keeps.{Keeps, keeps_rules}
use zkevm_bridge_service.Bridgectrl.Keccak.{Keccak}
use zkevm_bridge_service.Storage.Tables.{
  Block, Deposit, Claim, SetClaim, EventRow, set_claim, unset_claim, Db, serve, answer,
}
use zkevm_bridge_service.Storage.Chain.{
  get_deposit, block_of, with_block, add_claim, add_event, delete_claim_by_global_index, same_claim,
}
use zkevm_bridge_service.Synchronizer.World.{Config, World, in_tx, in_tx-eq-ok}
use zkevm_bridge_service.Synchronizer.Events.{
  claim_of, deposit_network, apply_set_claim, apply_unset_claim, process_set_claim_sovereign,
  process_unset_claim_sovereign,
}
use zkevm_bridge_service.Synchronizer.Rollback.{or_rollback-eq-ok}
use zkevm_bridge_service.Synchronizer.Reset.{serve-eq-ok}
use zkevm_bridge_service.Synchronizer.Lets.{add_event-tables}

-- The claims that a global index of a network does not name.
abbrev pub without : ℕ → ℕ → List Claim → List Claim
without global_index network_id =
    keep (λ c. not (c.global_index == global_index && c.network_id == network_id))

abbrev claims_of : {D : Type 0} → Db D → List Claim
claims_of db = db.claims

-- A stored deposit of the network with the count.
abbrev pub IsStored : ℕ → ℕ → List Deposit → Deposit → Type 0
IsStored count network ds d =
    (e : Deposit) × Memᴰ e ds
    × (e.network_id ≡ network)
    × (e.deposit_count ≡ count)
    × (d ≡ record e { block_number = d.block_number })

find-IsStored :
    (count network : ℕ) (p : Deposit → Bool) (ds : List Deposit) (o : Option Deposit)
    → find p ds ≡ o
    → ((d : Deposit) → p d ≡ true → (d.network_id ≡ network) × (d.deposit_count ≡ count))
    → (e : Deposit) → o ≡ some e
    → Memᴰ e ds × (e.network_id ≡ network) × (e.deposit_count ≡ count)
unfolding find
find-IsStored count network p [] o run fits e found = cc
find-IsStored count network p (d ∷ ds) o run fits e found = elim (Bool-cases (p d)) [
  | inl fit ↦
      let same : some d ≡ some e = sym (rw fit refl) ∙ run ∙ found in
      let is_e = some-injective same in
      let (net, number) = fits d fit in
      (
        Memᴰ.head (sym is_e),
        ap (λ (x : Deposit). x.network_id) (sym is_e) ∙ net,
        ap (λ (x : Deposit). x.deposit_count) (sym is_e) ∙ number,
      )
  | inr other ↦
      let (there, net, number) =
        find-IsStored count network p ds o (sym (rw other refl) ∙ run) fits e found in
      (Memᴰ.tail there, net, number)
]

or_err-eq-ok : (o : Option Deposit) (e : Deposit) → or_err storage_not_found o ≡ ok e → o ≡ some e
or_err-eq-ok none e h = cc
or_err-eq-ok (some x) e h = ap some (ok-injective h)

with_block-eq-ok :
    (e d : Deposit) (b : Option Block)
    → with_block e b ≡ ok d
    → d ≡ record e { block_number = d.block_number }
with_block-eq-ok e d none h = cc
with_block-eq-ok e d (some b) h =
    subst (λ (x : Deposit). x ≡ record e { block_number = x.block_number }) (ok-injective h) refl

module _ {D : Type 0} where
  answer-claims : (fs : List Bool) (db : Db D) → (answer fs db).1.claims ≡ db.claims
  answer-claims [] db = refl
  answer-claims (true ∷ fs) db = refl
  answer-claims (b ∷ fs) db = refl

  serve-claims :
      (db db' : Db D) {r : Result (Unit {0})} → serve db ≡ (r, db') → db'.claims ≡ db.claims
  unfolding serve
  serve-claims db db' run = ap (λ z. z.1.claims) (sym run) ∙ answer-claims db.faults db

  add_event-claims :
      (row : EventRow D) (db db' : Db D) → add_event row db ≡ (ok tt, db') → db'.claims ≡ db.claims
  unfolding add_event
  add_event-claims row db db' run =
      let (_, v, served, rest) = bind-eq-ok serve _ db run in
      ap (λ z. z.1.claims) (sym rest) ∙ serve-claims db v served

  add_claim-claims :
      (claim : Claim) (db db' : Db D)
      → add_claim claim db ≡ (ok tt, db')
      → db'.claims ≡ db.claims ++ claim ∷ []
  unfolding add_claim
  add_claim-claims claim db db' run =
      let (_, v, served, rest) = bind-eq-ok serve _ db run in
      elim (if-at (any (same_claim claim) v.claims) _ _ v rest) [
        | inl (exists, bad) ↦ cc
        | inr (new, good) ↦
            ap (λ z. z.1.claims) (sym good) ∙ ap (λ cs. cs ++ claim ∷ []) (serve-claims db v served)
      ]

  delete_claim-claims :
      (global_index network_id : ℕ) (db db' : Db D)
      → delete_claim_by_global_index global_index network_id db ≡ (ok tt, db')
      → db'.claims ≡ without global_index network_id db.claims
  unfolding delete_claim_by_global_index
  delete_claim-claims global_index network_id db db' run =
      let (_, v, served, rest) = bind-eq-ok serve _ db run in
      ap (λ z. z.1.claims) (sym rest)
      ∙ ap (without global_index network_id) (serve-claims db v served)

  serve-claims_of : Keeps claims_of (serve {D = D})
  unfolding serve
  serve-claims_of = record { at = λ db. answer-claims db.faults db }

  -- The query's WHERE clause and its join.
  abbrev is_row : ℕ → ℕ → Db D → Deposit → Bool
  is_row count network db d =
      d.network_id == network
      && d.deposit_count == count
      && any (λ b. b.network_id == d.network_id && b.id == d.block_id) db.blocks

  is_row-eq :
      (count network : ℕ) (db : Db D) (d : Deposit)
      → is_row count network db d ≡ true
      → (d.network_id ≡ network) × (d.deposit_count ≡ count)
  is_row-eq count network db d h = (ground arith, ground arith)

  get_deposit-IsStored :
      (count network : ℕ) (db db' : Db D) (d : Deposit)
      → get_deposit count network db ≡ (ok d, db')
      → IsStored count network db.deposits d
  unfolding get_deposit
  get_deposit-IsStored count network db db' d run =
      let (_, v, served, run1) = bind-eq-ok serve _ db run in
      let row = find (is_row count network v) v.deposits in
      let (e, u, there, run2) =
        bind-eq-ok (lift (or_err storage_not_found row)) (λ e x. (with_block e (block_of x e), x)) v
          run1 in
      let (stored, net, number) =
        find-IsStored count network (is_row count network v) v.deposits row refl
          (is_row-eq count network v) e (or_err-eq-ok row e (ap (λ z. z.0) there)) in
      let same : v.deposits ≡ db.deposits =
        ap (λ (x : Db D). x.deposits) (serve-eq-ok db v served) in
      (
        e,
        subst (Memᴰ e) same stored,
        net,
        number,
        with_block-eq-ok e d (block_of u e) (ap (λ z. z.0) run2),
      )

  get_deposit-claims : (n network : ℕ) → Keeps claims_of (get_deposit {D = D} n network)
  unfolding get_deposit
  get_deposit-claims n network = search (keeps_rules, serve-claims_of) depth 10

-- No claim of the network has the global index.
abbrev pub IsUnclaimed : ℕ → ℕ → List Claim → Type 0
IsUnclaimed global_index network_id claims =
    any (λ c. c.global_index == global_index && c.network_id == network_id) claims ≡ false

without-append :
    (g n : ℕ) (claims : List Claim) (c : Claim)
    → IsUnclaimed g n claims
    → c.global_index ≡ g
    → c.network_id ≡ n
    → without g n (claims ++ c ∷ []) ≡ claims
unfolding any keep
without-append g n [] c h e f = ground arith
without-append g n (b ∷ bs) c h e f = ground (arith, without-append g n bs c)

module _ {D : Type 0} ⦃k : Keccak D⦄ where
  set_claim-claims :
      (cfg : Config) (event : SetClaim) (block_number : ℕ) (w w' : World D)
      → apply_set_claim cfg event block_number w ≡ (ok tt, w')
      → (d : Deposit) × (w'.tx.claims ≡ w.tx.claims ++ claim_of cfg event block_number d ∷ [])
        × (cfg.network_id ≡ d.destination_network)
        × IsStored event.index (deposit_network event) w.tx.deposits d
  unfolding apply_set_claim
  set_claim-claims cfg event block_number w w' run =
      let (_, v, noted, rest) = bind-eq-ok (in_tx (add_event (set_claim event))) _ w run in
      let (db1, noted', is_v) = in_tx-eq-ok (add_event (set_claim event)) w noted in
      let (d, u, read, last) =
        bind-eq-ok (in_tx (get_deposit event.index (deposit_network event))) _ v rest in
      let (db2, read', is_u) =
        in_tx-eq-ok (get_deposit event.index (deposit_network event)) v read in
      let kept : v.tx.deposits ≡ w.tx.deposits =
        ap (λ x. x.tx.deposits) is_v
        ∙ ap (λ (x : Db D). x.deposits) (add_event-tables (set_claim event) w.tx db1 noted') in
      let before : u.tx.claims ≡ w.tx.claims =
        ap (λ x. x.tx.claims) is_u
        ∙ ap (λ z. z.1.claims) (sym read')
        ∙ (get_deposit-claims event.index (deposit_network event)).at v.tx
        ∙ ap (λ x. x.tx.claims) is_v
        ∙ add_event-claims (set_claim event) w.tx db1 noted' in
      elim (if-at (cfg.network_id == d.destination_network) _ _ u last) [
        | inl (same, good) ↦
            let (db3, added, is_w') =
              in_tx-eq-ok (add_claim (claim_of cfg event block_number d)) u good in
            (
              d,
              ap (λ x. x.tx.claims) is_w'
                  ∙ add_claim-claims (claim_of cfg event block_number d) u.tx db3 added
                  ∙ ap (λ cs. cs ++ claim_of cfg event block_number d ∷ []) before,
              (==_iff cfg.network_id d.destination_network).0 same,
              subst (λ ds. IsStored event.index (deposit_network event) ds d) kept
                  (get_deposit-IsStored event.index (deposit_network event) v.tx db2 d read'),
            )
        | inr (differ, bad) ↦ cc
      ]

  unset_claim-claims :
      (cfg : Config) (event : SetClaim) (w w' : World D)
      → apply_unset_claim cfg event w ≡ (ok tt, w')
      → w'.tx.claims ≡ without event.global_index cfg.network_id w.tx.claims
  unfolding apply_unset_claim
  unset_claim-claims cfg event w w' run =
      let (_, v, noted, rest) = bind-eq-ok (in_tx (add_event (unset_claim event))) _ w run in
      let (db1, noted', is_v) = in_tx-eq-ok (add_event (unset_claim event)) w noted in
      let (db2, deleted, is_w') =
        in_tx-eq-ok (delete_claim_by_global_index event.global_index cfg.network_id) v rest in
      ap (λ x. x.tx.claims) is_w'
      ∙ delete_claim-claims event.global_index cfg.network_id v.tx db2 deleted
      ∙ ap (without event.global_index cfg.network_id)
          (ap (λ x. x.tx.claims) is_v ∙ add_event-claims (unset_claim event) w.tx db1 noted')

  -- When processSetClaimSovereign succeeds, and then processUnsetClaimSovereign with the same global
  -- index on what it left, and no claim of the network had that index before: the first adds one
  -- claim, made of a deposit that the tables hold (but for the number of its block), with the event's
  -- index on the event's network and for the synchronizer's network; the second leaves the claims that
  -- there were before both.
  pub process_unset_claim-process_set_claim :
      (cfg : Config) (event event' : SetClaim) (block_id block_id' block_number : ℕ)
      (w w1 w2 : World D)
      → process_set_claim_sovereign cfg event block_id block_number w ≡ some (ok tt, w1)
      → process_unset_claim_sovereign cfg event' block_id' w1 ≡ some (ok tt, w2)
      → event'.global_index ≡ event.global_index
      → IsUnclaimed event.global_index cfg.network_id w.tx.claims
      → (d : Deposit) × (w1.tx.claims
          ≡ w.tx.claims ++ claim_of cfg (record event { block_id = block_id }) block_number d ∷ [])
        × (cfg.network_id ≡ d.destination_network)
        × IsStored event.index (deposit_network event) w.tx.deposits d
        × (w2.tx.claims ≡ w.tx.claims)
  unfolding process_set_claim_sovereign process_unset_claim_sovereign
  process_unset_claim-process_set_claim cfg event event' block_id block_id' block_number w w1 w2 set
        unset same unclaimed =
      let e = record event { block_id = block_id } in
      let e' = record event' { block_id = block_id' } in
      let (d, added, to, stored) =
        set_claim-claims cfg e block_number w w1
          (or_rollback-eq-ok cfg (apply_set_claim cfg e block_number) w set) in
      let removed =
        unset_claim-claims cfg e' w1 w2
          (or_rollback-eq-ok cfg (apply_unset_claim cfg e') w1 unset) in
      (
        d,
        added,
        to,
        stored,
        removed
            ∙ ap (λ g. without g cfg.network_id w1.tx.claims) same
            ∙ ap (without event.global_index cfg.network_id) added
            ∙ without-append event.global_index cfg.network_id w.tx.claims
                (claim_of cfg e block_number d) unclaimed refl refl,
      )
