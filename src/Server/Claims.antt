-- ===== src/Server/Claims.antt =====
-- getRollupExitProof and the claim proofs: both proofs of a deposit check against the roots of the
-- global exit root that they come with.
use zkevm_bridge_service.Base.{
  ℕ, zero, suc, ◌-◌, ◌^◌, ◌≤◌, ◌<◌, ◌≡◌, refl, sym, ap, ap₂, subst, ◌∙◌, ◌⊎◌, inl, inr, List, [],
  ◌∷◌, map, length, Bool, true, false, not, leb, ◌==◌, if◌then◌else◌, if-cases, Option, none, some,
  some-injective, get_elem?, Result, ok, err, panic, ok-injective, or_panic, arith,
}
use zkevm_bridge_service.Base.State.{bind_result, lift, bind-eq-ok, if-at}
use zkevm_bridge_service.Bridgectrl.Keccak.{Keccak}
use zkevm_bridge_service.Bridgectrl.Levels.{calculate_root, compute_siblings}
use zkevm_bridge_service.Bridgectrl.Levels.Proofs.{
  calculate_root-proof_of, compute_siblings-exit_root,
}
use zkevm_bridge_service.Bridgectrl.Levels.Binding.{IsCollisionFree, calculate_root-binding}
use zkevm_bridge_service.Bridgectrl.Controller.{hash_deposit}
use zkevm_bridge_service.Bridgectrl.Tree.{node, leaf_of, exit_root}
use zkevm_bridge_service.Storage.Tables.{Deposit, GlobalExitRoot, Db, serve, answer}
use zkevm_bridge_service.Storage.Trees.{same_digest, leaves_by_root, get_rollup_exit_leaves_by_root}
use zkevm_bridge_service.Server.{
  NodeCache, Service, ExitRoots, on_db, latest_ger, get_proof, checked_proof, rollup_proof,
  get_rollup_exit_proof, empty_proof, mainnet_proofs, rollup_proofs, proofs_of, get_claim_proof,
  get_claim_proof_by_ger,
}
use zkevm_bridge_service.Storage.Reads.{same_digest-eq}
use zkevm_bridge_service.Server.Paths.{AreHashes, IsSound, get_proof-calculate_root}

module _ {D : Type 0} ⦃k : Keccak D⦄ (cache : NodeCache D) where
  get_elem?-leaf_of :
      (ls : List D) (i : ℕ) (leaf : D)
      → get_elem? ls i ≡ some leaf
      → (i < length ls) × (leaf_of ls i ≡ leaf)
  get_elem?-leaf_of [] i leaf h = cc
  get_elem?-leaf_of (l ∷ ls) zero leaf h = (omega arith, cc)
  get_elem?-leaf_of (l ∷ ls) (suc i) leaf h =
      let (lt, e) = get_elem?-leaf_of ls i leaf h in (omega arith, e)

  not-false : (b : Bool) → not b ≡ false → b ≡ true
  not-false b e = ground arith

  checked_proof-ok :
      (rollup_index : ℕ) (root : D) (ls siblings siblings' : List D) (r leaf : D)
      → checked_proof cache rollup_index root ls siblings r ≡ ok (siblings', leaf)
      → (root ≡ r) × (siblings ≡ siblings') × (get_elem? ls rollup_index ≡ some leaf)
  unfolding checked_proof
  checked_proof-ok rollup_index root ls siblings siblings' r leaf h =
      elim (if-cases (not (same_digest root r)) h) [
        | inl (_, e) ↦ cc
        | inr (same, h1) ↦ elim (if-cases (length siblings == 0) h1) [
          | inl (_, e) ↦ cc
          | inr (_, h2) ↦ elim (if-cases (length ls == 0) h2) [
            | inl (_, e) ↦ cc
            | inr (_, h3) ↦ elim (if-cases (leb (length ls) rollup_index) h3) [
              | inl (_, e) ↦ cc
              | inr (_, h4) ↦
                  let (e, found) = taken (get_elem? ls rollup_index) h4 in
                  (same_digest-eq root r (not-false (same_digest root r) same), e, found)
            ]
          ]
        ]
      ]
    where
      taken :
          (o : Option D)
          → (elim o as (λ _. Result (List D × D)) [ none ↦ panic | some l ↦ ok (siblings, l) ])
            ≡ ok (siblings', leaf)
          → (siblings ≡ siblings') × (o ≡ some leaf)
      taken none e = cc
      taken (some l) e = (ap (λ p. p.0) (ok-injective e), ap (λ p. some p.1) (ok-injective e))

  rollup_proof-computed :
      (height rollup_index : ℕ) (root : D) (ls siblings : List D) (leaf : D)
      → rollup_proof cache height rollup_index root ls ≡ ok (siblings, leaf)
      → (compute_siblings rollup_index ls height ≡ ok (siblings, root))
        × (get_elem? ls rollup_index ≡ some leaf)
  unfolding rollup_proof
  rollup_proof-computed height rollup_index root ls siblings leaf h =
      computed (compute_siblings rollup_index ls height) h
    where
      computed :
          (c : Result (List D × D))
          → (elim c as (λ _. Result (List D × D)) [
            | panic ↦ panic
            | err e ↦ err e
            | ok (found, r) ↦ checked_proof cache rollup_index root ls found r
          ])
            ≡ ok (siblings, leaf)
          → (c ≡ ok (siblings, root)) × (get_elem? ls rollup_index ≡ some leaf)
      computed panic e = cc
      computed (err x) e = cc
      computed (ok (found, r)) e =
          let (same, path, there) = checked_proof-ok rollup_index root ls found siblings r leaf e in
          (ap₂ (λ p q. ok (p, q)) path (sym same), there)

  exit_root-node : (ls : List D) (height : ℕ) → node height (leaf_of ls) 0 ≡ exit_root height ls
  unfolding exit_root
  exit_root-node ls height = refl

  -- For a height from 1 to 65, the siblings that getRollupExitProof computes from the leaves of a
  -- root lead from the leaf that it returns, the one at the rollup's index, to that root.
  pub rollup_proof-calculate_root :
      (height rollup_index : ℕ) (root : D) (ls siblings : List D) (leaf : D)
      → 0 < height
      → height ≤ 65
      → rollup_proof cache height rollup_index root ls ≡ ok (siblings, leaf)
      → (get_elem? ls rollup_index ≡ some leaf)
        × (calculate_root leaf siblings rollup_index height ≡ ok root)
  rollup_proof-calculate_root height rollup_index root ls siblings leaf pos le h =
      let (computed, found) = rollup_proof-computed height rollup_index root ls siblings leaf h in
      let (lt, same) = get_elem?-leaf_of ls rollup_index leaf found in
      let (_, many, few) = compute_siblings-exit_root rollup_index ls height pos le (omega arith) in
      (
        found,
        elim (leb-cases (length ls) (2 ^ height)) [
          | inl fits ↦
              let pair = ok-injective (sym (few lt fits) ∙ computed) in
              let checks = calculate_root-proof_of height rollup_index (leaf_of ls) (omega arith) in
              ap₂ (λ l p. calculate_root l p rollup_index height) (sym same)
                (sym (ap (λ q. q.0) pair))
              ∙ checks
              ∙ ap ok (exit_root-node ls height ∙ ap (λ q. q.1) pair)
          | inr over ↦ absurd (cc (many lt over, computed))
        ],
      )
    where
      leb-cases : (m n : ℕ) → (m ≤ n) ⊎ (n < m)
      leb-cases m n = omega arith

  -- The proofs of a deposit check against the exit roots of `ger`: on mainnet against the first one,
  -- on the rollup `suc n` against the leaf at `n` of the tree of the second one.
  abbrev pub AreClaimProofs : ℕ → ℕ → ℕ → GlobalExitRoot D → List D → List D → Type 0
  AreClaimProofs height deposit_cnt zero ger proof rollup_merkle_proof =
      (root : D) × (leaf : D) × (get_elem? ger.exit_roots 0 ≡ some root)
      × (calculate_root leaf proof deposit_cnt height ≡ ok root)
      × (rollup_merkle_proof ≡ empty_proof cache)
  AreClaimProofs height deposit_cnt (suc n) ger proof rollup_merkle_proof =
      (root : D) × (rollup_leaf : D) × (leaf : D) × (get_elem? ger.exit_roots 1 ≡ some root)
      × (calculate_root rollup_leaf rollup_merkle_proof n height ≡ ok root)
      × (calculate_root leaf proof deposit_cnt height ≡ ok rollup_leaf)

  or_panic-eq-ok : (o : Option D) (d : D) → or_panic o ≡ ok d → o ≡ some d
  or_panic-eq-ok none d h = cc
  or_panic-eq-ok (some x) d h = cc

  mainnet_proofs-check :
      (height deposit_cnt : ℕ) (ger ger' : GlobalExitRoot D) (s s' : Service cache)
      (proof rollup_merkle_proof : List D)
      → 0 < height
      → height ≤ 65
      → IsSound cache s
      → mainnet_proofs cache height deposit_cnt ger s ≡ (ok (ger', proof, rollup_merkle_proof), s')
      → AreClaimProofs height deposit_cnt 0 ger' proof rollup_merkle_proof
  unfolding mainnet_proofs
  mainnet_proofs-check height deposit_cnt ger ger' s s' proof rp pos le sound h =
      let (root, v, e1, h1) = bind-eq-ok (lift (or_panic (get_elem? ger.exit_roots 0))) _ s h in
      let sound1 = subst (IsSound cache) (ap (λ r. r.1) e1) sound in
      let (found, u, e2, h2) = bind-eq-ok (get_proof cache height deposit_cnt root) _ v h1 in
      let (leaf, checks, _) =
        get_proof-calculate_root cache height deposit_cnt root v u found pos (omega arith) sound1
          e2 in
      let result = ok-injective (ap (λ r. r.0) h2) in
      (
        root,
        leaf,
        ap (λ r. get_elem? r.0.exit_roots 0) (sym result)
            ∙ or_panic-eq-ok _ root (ap (λ r. r.0) e1),
        ap (λ r. calculate_root leaf r.1 deposit_cnt height) (sym result) ∙ checks,
        ap (λ r. r.2) (sym result),
      )

  leaves_by_root-rht :
      (root : D) (db : Db D) → (get_rollup_exit_leaves_by_root root db).1.rht ≡ db.rht
  unfolding get_rollup_exit_leaves_by_root serve
  leaves_by_root-rht root db = answered db.faults
    where
      answered :
          (fs : List Bool)
          → (bind_result (answer fs db) (λ _ w. (ok (leaves_by_root root w.rollup_exit), w))).1.rht
            ≡ db.rht
      answered [] = refl
      answered (true ∷ fs) = refl
      answered (false ∷ fs) = refl

  rollup_exit_proof-check :
      (height index : ℕ) (root leaf : D) (s s' : Service cache) (siblings : List D)
      → 0 < height
      → height ≤ 65
      → IsSound cache s
      → get_rollup_exit_proof cache height index root s ≡ (ok (siblings, leaf), s')
      → (calculate_root leaf siblings index height ≡ ok root) × IsSound cache s'
  unfolding get_rollup_exit_proof
  rollup_exit_proof-check height index root leaf s s' siblings pos le (held, rows) h =
      let (leaves, v, e1, h1) =
        bind-eq-ok (on_db cache (get_rollup_exit_leaves_by_root root)) _ s h in
      let read = get_rollup_exit_leaves_by_root root s.db in
      let kept : IsSound cache (record s { db = read.1 }) =
        (held, subst AreHashes (sym (leaves_by_root-rht root s.db)) rows) in
      let (_, checks) =
        rollup_proof-calculate_root height index root (map (λ l. l.leaf) leaves) siblings leaf pos
          le (ap (λ r. r.0) h1) in
      (checks, subst (IsSound cache) (ap (λ r. r.1) e1 ∙ ap (λ r. r.1) h1) kept)

  rollup_proofs-check :
      (height deposit_cnt n : ℕ) (ger ger' : GlobalExitRoot D) (s s' : Service cache)
      (proof rollup_merkle_proof : List D)
      → 0 < height
      → height ≤ 65
      → IsSound cache s
      → rollup_proofs cache height deposit_cnt (suc n) ger s
        ≡ (ok (ger', proof, rollup_merkle_proof), s')
      → AreClaimProofs height deposit_cnt (suc n) ger' proof rollup_merkle_proof
  unfolding rollup_proofs
  rollup_proofs-check height deposit_cnt n ger ger' s s' proof rp pos le sound h =
      let (root, v, e1, h1) = bind-eq-ok (lift (or_panic (get_elem? ger.exit_roots 1))) _ s h in
      let sound1 = subst (IsSound cache) (ap (λ r. r.1) e1) sound in
      let ((siblings, rollup_leaf), u, e2, h2) =
        bind-eq-ok (get_rollup_exit_proof cache height (suc n - 1) root) _ v h1 in
      let (rollup_checks, sound2) =
        rollup_exit_proof-check height (suc n - 1) root rollup_leaf v u siblings pos le sound1 e2 in
      let (found, w, e3, h3) = bind-eq-ok (get_proof cache height deposit_cnt rollup_leaf) _ u h2 in
      let (leaf, checks, _) =
        get_proof-calculate_root cache height deposit_cnt rollup_leaf u w found pos (omega arith)
          sound2 e3 in
      let result = ok-injective (ap (λ r. r.0) h3) in
      let index : n ≡ suc n - 1 = omega arith in
      (
        root,
        rollup_leaf,
        leaf,
        ap (λ r. get_elem? r.0.exit_roots 1) (sym result)
            ∙ or_panic-eq-ok _ root (ap (λ r. r.0) e1),
        ap₂ (λ r i. calculate_root rollup_leaf r.2 i height) (sym result) index ∙ rollup_checks,
        ap (λ r. calculate_root leaf r.1 deposit_cnt height) (sym result) ∙ checks,
      )

  proofs_of-check :
      (height deposit_cnt network_id : ℕ) (ger ger' : GlobalExitRoot D) (s s' : Service cache)
      (proof rollup_merkle_proof : List D)
      → 0 < height
      → height ≤ 65
      → IsSound cache s
      → proofs_of cache height deposit_cnt network_id ger s
        ≡ (ok (ger', proof, rollup_merkle_proof), s')
      → AreClaimProofs height deposit_cnt network_id ger' proof rollup_merkle_proof
  unfolding proofs_of
  proofs_of-check height deposit_cnt zero ger ger' s s' proof rp pos le sound h =
      mainnet_proofs-check height deposit_cnt ger ger' s s' proof rp pos le sound h
  proofs_of-check height deposit_cnt (suc n) ger ger' s s' proof rp pos le sound h =
      rollup_proofs-check height deposit_cnt n ger ger' s s' proof rp pos le sound (
        sym (
          ap
            (λ b.
              (if b
                  then mainnet_proofs cache height deposit_cnt ger
                  else rollup_proofs cache height deposit_cnt (suc n) ger)
                s)
            never)
        ∙ h)
    where
      never : (suc n == 0) ≡ false
      never = ground arith

  -- The proofs that GetClaimProof and GetClaimProofbyGER answer with lead from some leaf.
  get_claim_proof-leads :
      (rows : ExitRoots D) (finalized_ger : Bool) (height deposit_cnt network_id : ℕ)
      (s s' : Service cache) (ger : GlobalExitRoot D) (proof rollup_merkle_proof : List D)
      → 0 < height
      → height ≤ 65
      → IsSound cache s
      → get_claim_proof cache rows finalized_ger height deposit_cnt network_id s
        ≡ (ok (ger, proof, rollup_merkle_proof), s')
      → (deposit : Deposit) × (rows.get_deposit deposit_cnt network_id ≡ ok deposit)
        × (deposit.ready_for_claim ≡ true)
        × AreClaimProofs height deposit_cnt network_id ger proof rollup_merkle_proof
  unfolding get_claim_proof
  get_claim_proof-leads rows fin height deposit_cnt network_id s s' ger proof rp pos le sound h =
      let (deposit, v, e1, h1) =
        bind-eq-ok (lift (rows.get_deposit deposit_cnt network_id)) _ s h in
      let sound1 = subst (IsSound cache) (ap (λ r. r.1) e1) sound in
      elim (if-at (not deposit.ready_for_claim) _ _ v h1) [
        | inl (_, e) ↦ absurd (cc e)
        | inr (claimable, h2) ↦
            let (ger', u, e2, h3) =
              bind-eq-ok (lift (latest_ger cache rows fin network_id deposit))
                (λ g. proofs_of cache height deposit_cnt network_id g) v h2 in
            (
              deposit,
              ap (λ r. r.0) e1,
              not-false deposit.ready_for_claim claimable,
              proofs_of-check height deposit_cnt network_id ger' ger u s' proof rp pos le
                  (subst (IsSound cache) (ap (λ r. r.1) e2) sound1) h3,
            )
      ]

  get_claim_proof_by_ger-leads :
      (rows : ExitRoots D) (from_api : Bool) (height deposit_cnt network_id : ℕ) (hash : D)
      (s s' : Service cache) (ger : GlobalExitRoot D) (proof rollup_merkle_proof : List D)
      → 0 < height
      → height ≤ 65
      → IsSound cache s
      → get_claim_proof_by_ger cache rows from_api height deposit_cnt network_id hash s
        ≡ (ok (ger, proof, rollup_merkle_proof), s')
      → AreClaimProofs height deposit_cnt network_id ger proof rollup_merkle_proof
  unfolding get_claim_proof_by_ger
  get_claim_proof_by_ger-leads rows from_api height deposit_cnt network_id hash s s' ger proof rp
        pos le sound h =
      let asked = if from_api then _ else _ in
      let (_, v, e1, h1) = bind-eq-ok asked _ s h in
      let sound1 = elim (if-at from_api _ _ s e1) as (λ _. IsSound cache v) [
        | inl (_, e) ↦ subst (IsSound cache) (ap (λ r. r.1) e) sound
        | inr (_, e) ↦ subst (IsSound cache) (ap (λ r. r.1) e) sound
      ] in
      let (roots, u, e2, h2) = bind-eq-ok (lift (rows.get_l1_exit_root_by_ger hash)) _ v h1 in
      proofs_of-check height deposit_cnt network_id roots ger u s' proof rp pos le
        (subst (IsSound cache) (ap (λ r. r.1) e2) sound1) h2

  -- The global exit root's tree of the network has these leaves: on mainnet it is that of the first
  -- exit root, on the rollup `suc n` that of the leaf at `n` of the tree of the second one.
  abbrev pub IsTreeOf : ℕ → ℕ → GlobalExitRoot D → List D → Type 0
  IsTreeOf height zero ger leaves = get_elem? ger.exit_roots 0 ≡ some (exit_root height leaves)
  IsTreeOf height (suc n) ger leaves =
      (rollups : List D) × (n < 2 ^ height)
      × (get_elem? ger.exit_roots 1 ≡ some (exit_root height rollups))
      × (leaf_of rollups n ≡ exit_root height leaves)

  -- The proofs lead from this leaf to the exit roots of `ger`.
  abbrev pub Proves : ℕ → ℕ → ℕ → GlobalExitRoot D → D → List D → List D → Type 0
  Proves height deposit_cnt zero ger leaf proof rollup_merkle_proof =
      (root : D) × (get_elem? ger.exit_roots 0 ≡ some root)
      × (calculate_root leaf proof deposit_cnt height ≡ ok root)
      × (rollup_merkle_proof ≡ empty_proof cache)
  Proves height deposit_cnt (suc n) ger leaf proof rollup_merkle_proof =
      (root : D) × (rollup_leaf : D) × (get_elem? ger.exit_roots 1 ≡ some root)
      × (calculate_root rollup_leaf rollup_merkle_proof n height ≡ ok root)
      × (calculate_root leaf proof deposit_cnt height ≡ ok rollup_leaf)

  AreClaimProofs-Proves :
      IsCollisionFree k
      → (height deposit_cnt network_id : ℕ) (ger : GlobalExitRoot D) (leaves : List D) (leaf : D)
        (proof rollup_merkle_proof : List D)
      → deposit_cnt < 2 ^ height
      → IsTreeOf height network_id ger leaves
      → get_elem? leaves deposit_cnt ≡ some leaf
      → AreClaimProofs height deposit_cnt network_id ger proof rollup_merkle_proof
      → Proves height deposit_cnt network_id ger leaf proof rollup_merkle_proof
  AreClaimProofs-Proves free height deposit_cnt zero ger leaves leaf proof rp fits tree held
        (root, from, there, checks, empty) =
      let same : root ≡ exit_root height leaves = some-injective (sym there ∙ tree) in
      let named =
        calculate_root-binding free height deposit_cnt leaves from proof fits
          (checks ∙ ap ok same) in
      let (_, is_leaf) = get_elem?-leaf_of leaves deposit_cnt leaf held in
      (
        root,
        there,
        subst (λ l. calculate_root l proof deposit_cnt height ≡ ok root) (named ∙ is_leaf) checks,
        empty,
      )
  AreClaimProofs-Proves free height deposit_cnt (suc n) ger leaves leaf proof rp fits
        (rollups, fits', tree, at_n) held (root, rollup_leaf, from, there, rollup_checks, checks) =
      let same : root ≡ exit_root height rollups = some-injective (sym there ∙ tree) in
      let rollup_named =
        calculate_root-binding free height n rollups rollup_leaf rp fits'
          (rollup_checks ∙ ap ok same) in
      let named =
        calculate_root-binding free height deposit_cnt leaves from proof fits
          (checks ∙ ap ok (rollup_named ∙ at_n)) in
      let (_, is_leaf) = get_elem?-leaf_of leaves deposit_cnt leaf held in
      (
        root,
        rollup_leaf,
        there,
        rollup_checks,
        subst (λ l. calculate_root l proof deposit_cnt height ≡ ok rollup_leaf) (named ∙ is_leaf)
            checks,
      )

  -- For a height from 1 to 65 and a hash without collisions, where the rows and the cache hold the
  -- children of their keys: when GetClaimProof answers for a deposit that the query for deposits
  -- finds, and the tree that the global exit root of the answer has for the network holds the hash of
  -- this deposit at its count, then the deposit is ready for claim, and the proofs lead from the
  -- deposit's hash to the exit roots of that global exit root.
  pub get_claim_proof-check :
      IsCollisionFree k
      → (rows : ExitRoots D) (finalized_ger : Bool) (height deposit_cnt network_id : ℕ)
        (s s' : Service cache) (ger : GlobalExitRoot D) (proof rollup_merkle_proof leaves : List D)
        (deposit : Deposit) (leaf : D)
      → 0 < height
      → height ≤ 65
      → deposit_cnt < 2 ^ height
      → IsSound cache s
      → get_claim_proof cache rows finalized_ger height deposit_cnt network_id s
        ≡ (ok (ger, proof, rollup_merkle_proof), s')
      → rows.get_deposit deposit_cnt network_id ≡ ok deposit
      → hash_deposit deposit ≡ ok leaf
      → IsTreeOf height network_id ger leaves
      → get_elem? leaves deposit_cnt ≡ some leaf
      → (deposit.ready_for_claim ≡ true)
        × Proves height deposit_cnt network_id ger leaf proof rollup_merkle_proof
  get_claim_proof-check free rows fin height deposit_cnt network_id s s' ger proof rp leaves deposit
        leaf pos le fits sound run found hashed tree held =
      let (read, is_read, ready, leads) =
        get_claim_proof-leads rows fin height deposit_cnt network_id s s' ger proof rp pos le sound
          run in
      (
        ap (λ (d : Deposit). d.ready_for_claim) (ok-injective (sym found ∙ is_read)) ∙ ready,
        AreClaimProofs-Proves free height deposit_cnt network_id ger leaves leaf proof rp fits tree
            held leads,
      )

  -- For a height from 1 to 65 and a hash without collisions, where the rows and the cache hold the
  -- children of their keys: when GetClaimProofbyGER answers, and the tree that the global exit root
  -- of the answer has for the network holds a leaf at the deposit count, then the proofs lead from that
  -- leaf to the exit roots of that global exit root.
  pub get_claim_proof_by_ger-check :
      IsCollisionFree k
      → (rows : ExitRoots D) (from_api : Bool) (height deposit_cnt network_id : ℕ) (hash : D)
        (s s' : Service cache) (ger : GlobalExitRoot D) (proof rollup_merkle_proof leaves : List D)
        (leaf : D)
      → 0 < height
      → height ≤ 65
      → deposit_cnt < 2 ^ height
      → IsSound cache s
      → get_claim_proof_by_ger cache rows from_api height deposit_cnt network_id hash s
        ≡ (ok (ger, proof, rollup_merkle_proof), s')
      → IsTreeOf height network_id ger leaves
      → get_elem? leaves deposit_cnt ≡ some leaf
      → Proves height deposit_cnt network_id ger leaf proof rollup_merkle_proof
  get_claim_proof_by_ger-check free rows from_api height deposit_cnt network_id hash s s' ger proof
        rp leaves leaf pos le fits sound run tree held =
      AreClaimProofs-Proves free height deposit_cnt network_id ger leaves leaf proof rp fits tree
        held
        (get_claim_proof_by_ger-leads rows from_api height deposit_cnt network_id hash s s' ger
          proof rp pos le sound run)
