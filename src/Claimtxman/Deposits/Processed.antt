-- ===== src/Claimtxman/Deposits/Processed.antt =====
-- Which claims a whole run of processPendingDeposits adds.
use mathlib.Core.List.{append-nil}
use zkevm_bridge_service.Base.{
  ℕ, ◌≡◌, refl, sym, ap, ◌∙◌, List, [], ◌∷◌, ◌++◌, Bool, true, false, Option, none, some, length,
  leb, if◌then◌else◌, Result, ok, err, panic, Bool-cases, inl, inr,
}
use zkevm_bridge_service.Base.State.{State, pure}
use zkevm_bridge_service.Base.Yields.{
  After, Yields, Yields-bind, Yields-pure, Yields-if, Yields-lift,
}
use zkevm_bridge_service.Storage.Tables.{Deposit, GlobalExitRoot, serve, answer}
use zkevm_bridge_service.Claimtxman.Types.{MonitoredTx, created}
use zkevm_bridge_service.Claimtxman.NonceCache.{NonceStore}
use zkevm_bridge_service.Claimtxman.Deposits.{ClaimTxManager, ClaimDb, Nodes, on_base}
use zkevm_bridge_service.Claimtxman.Deposits.Process.{
  Found, W, on_db, or_else, is_not_found, latest_trusted_ger, retried_ger, at_ger, with_trusted_ger,
  deposits_from_other_l2, pending_from_l1, messages_from_l1, deposits_from_l1, is_from_l1,
  deposits_to_claim, claims_after, claimed, begun, process_pending_deposits,
}
use zkevm_bridge_service.Claimtxman.Deposits.Allowed.{
  IsAllowed, AreClaims, claim_deposits-IsExtended,
}
use zkevm_bridge_service.Claimtxman.Deposits.Selected.{AreAll, AreAll-append, AreAll-Memᴰ}
use zkevm_bridge_service.Claimtxman.Deposits.Wanted.{
  seen, IsWanted, Any, from_other_l2-Yields, pending-Yields, trusted_ger-Yields,
}

module _ (store : NonceStore) (tm : ClaimTxManager) (nodes : Nodes) where
  abbrev view : W store tm nodes → ClaimDb
  view w = seen w.db

  module _ (s : ClaimDb) where
    on_db-After :
        {A : Type 0} (P : A → Type 0) (z : Result A × ClaimDb) (w : W store tm nodes)
        → After seen s P z
        → After view s P (z.0, record w { db = z.1 })
    on_db-After P (ok a, db) w h = h
    on_db-After P (err e, db) w h = h
    on_db-After P (panic, db) w h = h

    on_db-Yields :
        {A : Type 0} {P : A → Type 0} {m : State ClaimDb A}
        → Yields seen s P m
        → Yields view s P (on_db store tm nodes m)
    on_db-Yields {P} {m} h = record { at = λ w same. on_db-After P (m w.db) w (h.at w.db same) }

    if-After :
        (b : Bool) (y z : Result (Option ℕ) × W store tm nodes)
        → After view s Any y
        → After view s Any z
        → After view s Any (if b then y else z)
    if-After true y z hy hz = hy
    if-After false y z hy hz = hz

    or_else-After :
        (otherwise : State (W store tm nodes) (Option ℕ)) (z : Result ℕ × W store tm nodes)
        → ((w : W store tm nodes) → view w ≡ s → After view s Any (otherwise w))
        → After view s Any z
        → After view s Any (or_else store tm nodes otherwise z)
    or_else-After otherwise (ok ger, w) next h = h
    or_else-After otherwise (err e, w) next h =
        if-After (is_not_found e) (otherwise w) (err e, w) (next w h) h
    or_else-After otherwise (panic, w) next h = h

    latest-Yields : (d : Deposit) → Yields view s Any (latest_trusted_ger store tm nodes d)
    unfolding latest_trusted_ger
    latest-Yields d =
        on_db-Yields (trusted_ger-Yields tm s d.deposit_count d.network_id d.destination_network)

    retried-Yields : (d : Deposit) → Yields view s Any (retried_ger store tm nodes d)
    unfolding retried_ger
    retried-Yields d = record {
      at = λ w same.
          or_else-After _ (latest_trusted_ger store tm nodes d w)
            (λ v same'.
              or_else-After (pure none) (latest_trusted_ger store tm nodes d v)
                (λ u same''. (same'', tt)) ((latest-Yields d).at v same'))
            ((latest-Yields d).at w same);
    }

    -- What is found is wanted.
    abbrev FoundWanted : Bool → Found → Type 0
    FoundWanted from_l1 none = Unit {0}
    FoundWanted from_l1 (some (ger, ds)) = AreAll (IsWanted tm from_l1 s) ds

    at_ger-FoundWanted :
        (from_l1 : Bool) (ds : List Deposit) (found : Option ℕ)
        → AreAll (IsWanted tm from_l1 s) ds
        → FoundWanted from_l1 (at_ger store tm nodes ds found)
    at_ger-FoundWanted from_l1 ds none h = tt
    at_ger-FoundWanted from_l1 ds (some ger) h = h

    with_trusted_ger-Yields :
        (ger : ℕ) (ds : List Deposit)
        → AreAll (IsWanted tm true s) ds
        → Yields view s (FoundWanted true) (with_trusted_ger store tm nodes ger ds)
    unfolding with_trusted_ger
    with_trusted_ger-Yields ger [] h = Yields-pure (some (ger, [])) tt
    with_trusted_ger-Yields ger (d ∷ ds) h = Yields-bind (retried-Yields d) (λ found _.
        Yields-pure (at_ger store tm nodes (d ∷ ds) found)
          (at_ger-FoundWanted true (d ∷ ds) found h))

    from_l2-Yields :
        (ger : ℕ) → Yields view s (FoundWanted true) (deposits_from_other_l2 store tm nodes ger)
    unfolding deposits_from_other_l2
    from_l2-Yields ger =
        Yields-if tm.are_claims_between_l2s_enabled
          (λ on.
            Yields-bind (on_db-Yields (from_other_l2-Yields tm s on)) (with_trusted_ger-Yields ger))
          (λ off. Yields-pure (some (ger, [])) tt)

    pending_from_l1-Yields :
        (address leaf_type : ℕ)
        → Yields view s
            (AreAll (IsWanted tm false s))
            (pending_from_l1 store tm nodes address leaf_type)
    unfolding pending_from_l1
    pending_from_l1-Yields address leaf_type =
        Yields-bind (on_db-Yields (pending-Yields tm s address leaf_type))
          (λ (ds, total) h. Yields-pure ds h)

    messages-Yields :
        (addresses : List ℕ)
        → Yields view s (AreAll (IsWanted tm false s)) (messages_from_l1 store tm nodes addresses)
    unfolding messages_from_l1
    messages-Yields [] = Yields-pure [] tt
    messages-Yields (address ∷ addresses) = Yields-bind (pending_from_l1-Yields address 1) (λ ds h.
        Yields-bind (messages-Yields addresses)
          (λ rest h'. Yields-pure (ds ++ rest) (AreAll-append (IsWanted tm false s) ds rest h h')))

    from_l1-Yields :
        (ger : ℕ) → Yields view s (FoundWanted false) (deposits_from_l1 store tm nodes ger)
    unfolding deposits_from_l1
    from_l1-Yields ger = Yields-bind (pending_from_l1-Yields 0 0) (λ ds h.
        Yields-bind (messages-Yields tm.authorized_claim_message_addresses) (λ rest h'.
          Yields-pure (some (ger, ds ++ rest)) (AreAll-append (IsWanted tm false s) ds rest h h')))

    to_claim-Yields :
        (ger : GlobalExitRoot ℕ)
        → Yields view s
            (FoundWanted (is_from_l1 store tm nodes ger))
            (deposits_to_claim store tm nodes ger)
    unfolding deposits_to_claim
    to_claim-Yields ger = elim (Bool-cases (is_from_l1 store tm nodes ger)) [
      | inl l1 ↦ rw l1 (
          Yields-if (leb 2 (length ger.exit_roots)) (λ _. from_l2-Yields ger.global_exit_root)
            (λ _. Yields-lift panic (λ a impossible. cc)))
      | inr l2 ↦ rw l2 (
          Yields-if (leb 1 (length ger.exit_roots)) (λ _. from_l1-Yields ger.global_exit_root)
            (λ _. Yields-lift panic (λ a impossible. cc)))
    ]

-- Claims that were just created, each for a deposit that these tables want claimed and that the
-- manager allows.
abbrev pub AreWantedClaims : ClaimTxManager → Bool → ClaimDb → List MonitoredTx → Type 0
AreWantedClaims tm from_l1 db [] = Unit {0}
AreWantedClaims tm from_l1 db (t ∷ ts) =
    (((d : Deposit) × IsWanted tm from_l1 db d × IsAllowed tm d × (t.deposit_id ≡ d.id))
      × (t.status ≡ created))
    × AreWantedClaims tm from_l1 db ts

-- The list before, with such claims behind.
abbrev pub Adds : ClaimTxManager → Bool → ClaimDb → List MonitoredTx → Type 0
Adds tm from_l1 db txs =
    (new : List MonitoredTx) × (txs ≡ db.monitored_txs ++ new) × AreWantedClaims tm from_l1 db new

module _ (tm : ClaimTxManager) (db : ClaimDb) where
  IsWanted-seen :
      (from_l1 : Bool) (d : Deposit) → IsWanted tm from_l1 (seen db) d → IsWanted tm from_l1 db d
  IsWanted-seen true d h = h
  IsWanted-seen false d h = h

  AreClaims-AreWantedClaims :
      (from_l1 : Bool) (ds : List Deposit) (ts : List MonitoredTx)
      → AreAll (IsWanted tm from_l1 (seen db)) ds
      → AreClaims tm ds ts
      → AreWantedClaims tm from_l1 db ts
  AreClaims-AreWantedClaims from_l1 ds [] wanted h = tt
  AreClaims-AreWantedClaims from_l1 ds (t ∷ ts) wanted (((d, there, allowed, id), status), h) = (
    ((d, IsWanted-seen from_l1 d (AreAll-Memᴰ _ d ds wanted there), allowed, id), status),
    AreClaims-AreWantedClaims from_l1 ds ts wanted h,
  )

module _ (store : NonceStore) (tm : ClaimTxManager) (nodes : Nodes) (db : ClaimDb) where
  abbrev S : Type 0
  S = W store tm nodes

  same-Adds : (from_l1 : Bool) (w : S) → seen w.db ≡ seen db → Adds tm from_l1 db w.db.monitored_txs
  same-Adds from_l1 w same =
      ([], ap (λ (x : ClaimDb). x.monitored_txs) same ∙ sym (append-nil db.monitored_txs), tt)

  answered :
      (fs : List Bool) (w : S)
      → seen w.db ≡ seen db
      → After (view store tm nodes) (seen db) Any (on_base store tm nodes (answer fs) w)
  answered [] w same = (same, tt)
  answered (true ∷ fs) w same = same
  answered (false ∷ fs) w same = (same, tt)

  served :
      (w : S)
      → seen w.db ≡ seen db
      → After (view store tm nodes) (seen db) Any (on_base store tm nodes serve w)
  unfolding serve
  served w same = answered w.db.base.faults w same

  claims_after-Adds :
      (from_l1 : Bool) (before : S) (ger : ℕ) (ds : List Deposit) (z : Result (Unit {0}) × S)
      → seen before.db ≡ seen db
      → AreAll (IsWanted tm from_l1 (seen db)) ds
      → After (view store tm nodes) (seen db) Any z
      → Adds tm from_l1 db (claims_after store tm nodes before ger ds z).1.db.monitored_txs
  claims_after-Adds from_l1 before ger ds (ok _, w) start wanted (same, _) =
      let (new, e, h) = claim_deposits-IsExtended store tm nodes ger ds w in
      (
        new,
        e ∙ ap (λ (x : ClaimDb). x.monitored_txs ++ new) same,
        AreClaims-AreWantedClaims tm db from_l1 ds new wanted h,
      )
  claims_after-Adds from_l1 before ger ds (err e, w) start wanted h = same-Adds from_l1 before start
  claims_after-Adds from_l1 before ger ds (panic, w) start wanted h = same-Adds from_l1 before start

  claimed-Adds :
      (from_l1 : Bool) (before : S) (z : Result Found × S)
      → seen before.db ≡ seen db
      → After (view store tm nodes) (seen db) (FoundWanted store tm nodes (seen db) from_l1) z
      → Adds tm from_l1 db (claimed store tm nodes before z).1.db.monitored_txs
  claimed-Adds from_l1 before (ok none, w) start (same, _) = same-Adds from_l1 w same
  claimed-Adds from_l1 before (ok (some (ger, ds)), w) start (same, wanted) =
      claims_after-Adds from_l1 before ger ds (on_base store tm nodes serve w) start wanted
        (served w same)
  claimed-Adds from_l1 before (err e, w) start h = same-Adds from_l1 before start
  claimed-Adds from_l1 before (panic, w) start h = same-Adds from_l1 before start

  begun-Adds :
      (ger : GlobalExitRoot ℕ) (z : Result (Unit {0}) × S)
      → After (view store tm nodes) (seen db) Any z
      → Adds tm (is_from_l1 store tm nodes ger) db (begun store tm nodes ger z).1.db.monitored_txs
  begun-Adds ger (ok _, w) (same, _) =
      claimed-Adds (is_from_l1 store tm nodes ger) w (deposits_to_claim store tm nodes ger w) same
        ((to_claim-Yields store tm nodes (seen db) ger).at w same)
  begun-Adds ger (err e, w) same = same-Adds (is_from_l1 store tm nodes ger) w same
  begun-Adds ger (panic, w) same = same-Adds (is_from_l1 store tm nodes ger) w same

-- However processPendingDeposits ends: the monitored transactions are those before with new ones
-- behind, each just created and for a deposit to this network that is stored as it is (but for the
-- number of its block), ready, not ignored, whose index no claim on the network has, and that is no
-- message, or one from an authorised address. After an exit root of L1 it is a deposit of another
-- L2, and claims between L2s are enabled; else it is a deposit of L1.
pub process_pending_deposits-Adds :
    (store : NonceStore) (tm : ClaimTxManager) (nodes : Nodes) (ger : GlobalExitRoot ℕ)
    (w : W store tm nodes)
    → Adds tm
        (is_from_l1 store tm nodes ger)
        w.db
        (process_pending_deposits store tm nodes ger w).1.db.monitored_txs
unfolding process_pending_deposits
process_pending_deposits-Adds store tm nodes ger w =
    begun-Adds store tm nodes w.db ger (on_base store tm nodes serve w)
      (served store tm nodes w.db w refl)
