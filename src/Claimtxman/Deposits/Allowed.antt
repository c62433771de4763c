-- ===== src/Claimtxman/Deposits/Allowed.antt =====
-- Which claims processPendingDeposits adds.
use mathlib.Core.List.{Memᴰ, append_assoc, append-nil}
use zkevm_bridge_service.Base.{
  ℕ, ◌≡◌, refl, sym, ap, ◌∙◌, ◌⊎◌, ◌≢◌, inl, inr, subst, List, [], ◌∷◌, ◌++◌, Bool, true, false,
  ◌&&◌, ◌==◌, if◌then◌else◌, Bool-cases, Option, none, some, any, length, leb, Result, ok, err,
  panic, arith, ◌-◌,
}
use zkevm_bridge_service.Base.State.{State, bind_result, lift}
use zkevm_bridge_service.Base.Keeps.{Keeps, Keeps-if, Keeps-pure, Keeps-lift}
use zkevm_bridge_service.Storage.Tables.{Deposit, Db, serve}
use zkevm_bridge_service.Claimtxman.Types.{MonitoredTx, created}
use zkevm_bridge_service.Claimtxman.NonceCache.{NonceStore}
use zkevm_bridge_service.Claimtxman.Deposits.{
  ClaimTxManager, Nodes, Claiming, is_claimable, is_deposit_message_allowed, on_base, add_monitored,
  store_claim_tx, ignored, ignore_deposit, ignore_at, ignore_old, next_nonce, new_claim_tx,
  add_estimated, add_claim_tx, retry_gas, claim_deposit, committed, closed, opened, claim_in_tx,
  claim_deposits,
}

-- A deposit to the manager's network that is no message, or one from an authorised address.
abbrev pub IsAllowed : ClaimTxManager → Deposit → Type 0
IsAllowed tm d =
    (tm.l2_network_id ≡ d.destination_network)
    × ((d.leaf_type ≢ 1) ⊎ Memᴰ d.original_address tm.authorized_claim_message_addresses)

any-Memᴰ : (a : ℕ) (xs : List ℕ) → any (λ x. a == x) xs ≡ true → Memᴰ a xs
unfolding any
any-Memᴰ a [] h = ground arith
any-Memᴰ a (x ∷ xs) h = elim (Bool-cases (a == x)) [
  | inl same ↦ Memᴰ.head (ground arith)
  | inr other ↦ Memᴰ.tail (any-Memᴰ a xs (ground arith))
]

is_claimable-IsAllowed :
    (tm : ClaimTxManager) (d : Deposit) → is_claimable tm d ≡ true → IsAllowed tm d
unfolding is_claimable is_deposit_message_allowed
is_claimable-IsAllowed tm d h = elim (Bool-cases (is_deposit_message_allowed tm d)) [
  | inl listed ↦
      (ground arith, inr (any-Memᴰ d.original_address tm.authorized_claim_message_addresses listed))
  | inr unlisted ↦ (ground arith, inl (ground arith))
]

-- Claims that were just created, each for one of these deposits that is allowed.
abbrev pub AreClaims : ClaimTxManager → List Deposit → List MonitoredTx → Type 0
AreClaims tm ds [] = Unit {0}
AreClaims tm ds (t ∷ ts) =
    (((d : Deposit) × Memᴰ d ds × IsAllowed tm d × (t.deposit_id ≡ d.id)) × (t.status ≡ created))
    × AreClaims tm ds ts

AreClaims-more :
    (tm : ClaimTxManager) (d : Deposit) (ds : List Deposit) (ts : List MonitoredTx)
    → AreClaims tm ds ts
    → AreClaims tm (d ∷ ds) ts
AreClaims-more tm d ds [] h = tt
AreClaims-more tm d ds (t ∷ ts) (((e, there, allowed, id), status), h) =
    (((e, Memᴰ.tail there, allowed, id), status), AreClaims-more tm d ds ts h)

-- The list before, or with one new claim for this deposit.
abbrev Grown : Deposit → List MonitoredTx → List MonitoredTx → Type 0
Grown d old txs =
    (txs ≡ old)
    ⊎ ((t : MonitoredTx) × (txs ≡ old ++ t ∷ []) × (t.deposit_id ≡ d.id) × (t.status ≡ created))

module _ (store : NonceStore) (tm : ClaimTxManager) (nodes : Nodes) where
  abbrev W : Type 0
  W = Claiming store tm nodes

  abbrev pub monitored : W → List MonitoredTx
  monitored w = w.db.monitored_txs

  on_base-monitored : {A : Type 0} (m : State (Db ℕ) A) → Keeps monitored (on_base store tm nodes m)
  on_base-monitored m = record { at = λ w. refl }

  next_nonce-monitored : Keeps monitored (next_nonce store tm nodes)
  unfolding next_nonce
  next_nonce-monitored = record { at = λ w. refl }

  ignored-monitored :
      (id : ℕ) (z : Result (Unit {0}) × W)
      → monitored (ignored store tm nodes id z).1 ≡ monitored z.1
  ignored-monitored id (ok _, w) = refl
  ignored-monitored id (err e, w) = refl
  ignored-monitored id (panic, w) = refl

  ignore_deposit-monitored : (id : ℕ) → Keeps monitored (ignore_deposit store tm nodes id)
  unfolding ignore_deposit
  ignore_deposit-monitored id = record {
    at = λ w. ignored-monitored id (on_base store tm nodes serve w);
  }

  ignore_at-monitored :
      (d : Deposit) (r : Result ℕ) → Keeps monitored (ignore_at store tm nodes d r)
  ignore_at-monitored d (ok number) = Keeps-if _ (ignore_deposit-monitored d.id) (Keeps-pure _)
  ignore_at-monitored d (err e) = Keeps-pure _
  ignore_at-monitored d panic = Keeps-lift _

  abbrev GrowsBy : {A : Type 0} → Deposit → State W A → Type 0
  GrowsBy d m = (w : W) → Grown d (monitored w) (monitored (m w).1)

  bind-GrowsBy :
      {A B : Type 0} (d : Deposit) (r : Result A × W) (f : A → State W B) (old : List MonitoredTx)
      → monitored r.1 ≡ old
      → ((a : A) → GrowsBy d (f a))
      → Grown d old (monitored (bind_result r f).1)
  bind-GrowsBy d (ok a, w) f old same grows =
      subst (λ o. Grown d o (monitored (f a w).1)) same (grows a w)
  bind-GrowsBy d (err e, w) f old same grows = inl same
  bind-GrowsBy d (panic, w) f old same grows = inl same

  add_monitored-Grown :
      (d : Deposit) (t : MonitoredTx) (txs : List MonitoredTx)
      → t.deposit_id ≡ d.id
      → t.status ≡ created
      → Grown d txs (add_monitored store tm nodes t txs)
  unfolding add_monitored
  add_monitored-Grown d t txs same status =
      elim (Bool-cases (any (λ u. u.deposit_id == t.deposit_id) txs)) [
        | inl there ↦ inl (rw there refl)
        | inr new ↦ inr (t, rw new refl, same, status)
      ]

  store_claim_tx-GrowsBy :
      (d : Deposit) (t : MonitoredTx)
      → t.deposit_id ≡ d.id
      → t.status ≡ created
      → GrowsBy d (store_claim_tx store tm nodes t)
  unfolding store_claim_tx
  store_claim_tx-GrowsBy d t same status w =
      bind-GrowsBy d (on_base store tm nodes serve w) _ (monitored w) refl
        (λ _ v. add_monitored-Grown d t (monitored v) same status)

  add_estimated-GrowsBy :
      (d : Deposit) (to : Option ℕ) (payload : List ℕ) (ger : ℕ) (o : Option ℕ)
      → GrowsBy d (add_estimated store tm nodes d to payload ger o)
  unfolding ignore_old
  add_estimated-GrowsBy d to payload ger none w =
      inl ((ignore_at-monitored d nodes.l1_block_number).at w)
  add_estimated-GrowsBy d to payload ger (some amount) w =
      bind-GrowsBy d (next_nonce store tm nodes w) _ (monitored w) (next_nonce-monitored.at w)
        (λ nonce.
          store_claim_tx-GrowsBy d (new_claim_tx store tm nodes d to payload ger amount nonce) refl
            refl)

  add_claim_tx-GrowsBy :
      (d : Deposit) (to : Option ℕ) (payload : List ℕ) (ger : ℕ)
      → GrowsBy d (add_claim_tx store tm nodes d to payload ger)
  unfolding add_claim_tx
  add_claim_tx-GrowsBy d to payload ger =
      add_estimated-GrowsBy d to payload ger
        (retry_gas (nodes.estimate_gas to payload) (tm.retry_number - 1) 0)

  if-GrowsBy :
      (d : Deposit) (b : Bool) (m n : State W (Unit {0}))
      → GrowsBy d m
      → GrowsBy d n
      → GrowsBy d (if b then m else n)
  if-GrowsBy d true m n hm hn = hm
  if-GrowsBy d false m n hm hn = hn

  claim_deposit-GrowsBy : (d : Deposit) (ger : ℕ) → GrowsBy d (claim_deposit store tm nodes ger d)
  unfolding claim_deposit
  claim_deposit-GrowsBy d ger w =
      bind-GrowsBy d (on_base store tm nodes (nodes.claim_proof ger d.deposit_count d.network_id) w)
        _ (monitored w) refl
        (λ (claim_ger, proof, rollup_proof).
          if-GrowsBy d (leb 32 (length proof) && leb 32 (length rollup_proof)) _ _
            (λ v.
              bind-GrowsBy d (lift (nodes.build_send_claim d proof rollup_proof claim_ger) v) _
                (monitored v) refl (λ (to, payload). add_claim_tx-GrowsBy d to payload claim_ger))
            (λ v. inl refl))

  committed-Grown :
      (d : Deposit) (before : W) (z : Result (Unit {0}) × W)
      → Grown d (monitored before) (monitored z.1)
      → Grown d (monitored before) (monitored (committed store tm nodes before z).1)
  committed-Grown d before (ok _, w) h = h
  committed-Grown d before (err e, w) h = inl refl
  committed-Grown d before (panic, w) h = inl refl

  closed-Grown :
      (d : Deposit) (before : W) (z : Result (Unit {0}) × W)
      → Grown d (monitored before) (monitored z.1)
      → Grown d (monitored before) (monitored (closed store tm nodes before z).1)
  closed-Grown d before (ok _, w) h = committed-Grown d before (on_base store tm nodes serve w) h
  closed-Grown d before (err e, w) h = inl refl
  closed-Grown d before (panic, w) h = inl refl

  opened-Grown :
      (d : Deposit) (ger : ℕ) (old : List MonitoredTx) (z : Result (Unit {0}) × W)
      → monitored z.1 ≡ old
      → Grown d old (monitored (opened store tm nodes ger d z).1)
  opened-Grown d ger old (ok _, w) same =
      subst
        (λ o.
          Grown d o (monitored (closed store tm nodes w (claim_deposit store tm nodes ger d w)).1))
        same
        (closed-Grown d w (claim_deposit store tm nodes ger d w) (claim_deposit-GrowsBy d ger w))
  opened-Grown d ger old (err e, w) same = inl same
  opened-Grown d ger old (panic, w) same = inl same

  claim_in_tx-GrowsBy : (d : Deposit) (ger : ℕ) → GrowsBy d (claim_in_tx store tm nodes ger d)
  unfolding claim_in_tx
  claim_in_tx-GrowsBy d ger w =
      opened-Grown d ger (monitored w) (on_base store tm nodes serve w) refl

  -- The list before, with new claims for these deposits behind.
  abbrev pub IsExtended : List Deposit → List MonitoredTx → List MonitoredTx → Type 0
  IsExtended ds old txs = (new : List MonitoredTx) × (txs ≡ old ++ new) × AreClaims tm ds new

  after_first :
      (d : Deposit) (ds : List Deposit) (old mid txs : List MonitoredTx)
      → is_claimable tm d ≡ true
      → Grown d old mid
      → IsExtended ds mid txs
      → IsExtended (d ∷ ds) old txs
  after_first d ds old mid txs fits (inl same) (new, e, h) =
      (new, e ∙ ap (λ l. l ++ new) same, AreClaims-more tm d ds new h)
  after_first d ds old mid txs fits (inr (t, same, id, status)) (new, e, h) = (
    t ∷ new,
    e ∙ ap (λ l. l ++ new) same ∙ append_assoc old (t ∷ []) new,
    (
      ((d, Memᴰ.head refl, is_claimable-IsAllowed tm d fits, id), status),
      AreClaims-more tm d ds new h,
    ),
  )

  first-Extended :
      (d : Deposit) (ds : List Deposit) (old mid : List MonitoredTx)
      → is_claimable tm d ≡ true
      → Grown d old mid
      → IsExtended (d ∷ ds) old mid
  first-Extended d ds old mid fits grown =
      after_first d ds old mid mid fits grown ([], sym (append-nil mid), tt)

  bind-Extended :
      (d : Deposit) (ds : List Deposit) (old : List MonitoredTx) (r : Result (Unit {0}) × W)
      (rest : State W (Unit {0}))
      → is_claimable tm d ≡ true
      → Grown d old (monitored r.1)
      → ((w : W) → IsExtended ds (monitored w) (monitored (rest w).1))
      → IsExtended (d ∷ ds) old (monitored (bind_result r (λ _. rest)).1)
  bind-Extended d ds old (ok _, w) rest fits grown after =
      after_first d ds old (monitored w) (monitored (rest w).1) fits grown (after w)
  bind-Extended d ds old (err e, w) rest fits grown after =
      first-Extended d ds old (monitored w) fits grown
  bind-Extended d ds old (panic, w) rest fits grown after =
      first-Extended d ds old (monitored w) fits grown

  -- However the loop of processPendingDeposits over the deposits ends: the monitored transactions
  -- are those before with new ones behind, each just created and for one of the deposits that goes
  -- to this network and that is no message, or one from an authorised address.
  pub claim_deposits-IsExtended :
      (ger : ℕ) (ds : List Deposit) (w : W)
      → IsExtended ds (monitored w) (monitored (claim_deposits store tm nodes ger ds w).1)
  unfolding claim_deposits
  claim_deposits-IsExtended ger [] w = ([], sym (append-nil (monitored w)), tt)
  claim_deposits-IsExtended ger (d ∷ ds) w = elim (Bool-cases (is_claimable tm d)) [
    | inl fits ↦
        rw (claim_deposits, fits)
          (bind-Extended d ds (monitored w) (claim_in_tx store tm nodes ger d w)
            (claim_deposits store tm nodes ger ds) fits (claim_in_tx-GrowsBy d ger w)
            (claim_deposits-IsExtended ger ds))
    | inr skipped ↦
        let (new, e, h) = claim_deposits-IsExtended ger ds w in
        rw (claim_deposits, skipped) (new, e, AreClaims-more tm d ds new h)
  ]
