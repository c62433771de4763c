-- ===== src/Bridgectrl/Controller/Routing.antt =====
-- The calls of the controller reach the tree of their network and leave the others alone.
use zkevm_bridge_service.Base.{
  ℕ, zero, suc, ◌+◌, ◌^◌, ◌%◌, ◌≤◌, ◌<◌, ◌≡◌, ◌≢◌, refl, sym, ap, ◌∙◌, subst, List, [], ◌∷◌, ◌++◌,
  Bool, true, ◌==◌, if◌then◌else◌, Bool-cases, ==_iff, inl, inr, some, get_elem?, set, length,
  u32_mod, ok, arith, some-injective, some-injective,
}
use zkevm_bridge_service.Base.State.{State}
use zkevm_bridge_service.Base.Keeps.{Keeps, Keeps-bind, keeps_rules}
use zkevm_bridge_service.Bridgectrl.Keccak.{Keccak}
use zkevm_bridge_service.Bridgectrl.Tree.{exit_root}
use zkevm_bridge_service.Bridgectrl.MerkleTree.{MerkleTree, Stored, on_db, put_tree, add_leaf}
use zkevm_bridge_service.Bridgectrl.MerkleTree.Insert.{IsTree, add_leaf-IsTree}
use zkevm_bridge_service.Bridgectrl.Controller.{
  BridgeController, Controlled, find_id, hash_deposit, get_merkle_tree_id, put_back, on_tree,
  add_deposit,
}
use zkevm_bridge_service.Storage.Tables.{Deposit, Node, Db, serve, answer}
use zkevm_bridge_service.Storage.Trees.{set_root, bulk_set}

module _ {ℓ} {A : Type ℓ} where
  pub get_elem?-set_self :
      (xs : List A) (i : ℕ) (v : A) {x : A}
      → get_elem? xs i ≡ some x
      → get_elem? (set xs i v) i ≡ some v
  get_elem?-set_self [] i v h = cc
  get_elem?-set_self (x ∷ xs) zero v h = refl
  get_elem?-set_self (x ∷ xs) (suc i) v h = get_elem?-set_self xs i v h

  pub get_elem?-set_other :
      (xs : List A) (i j : ℕ) (v : A) → j ≢ i → get_elem? (set xs i v) j ≡ get_elem? xs j
  get_elem?-set_other [] i j v h = refl
  get_elem?-set_other (x ∷ xs) zero zero v h = absurd (h refl)
  get_elem?-set_other (x ∷ xs) zero (suc j) v h = refl
  get_elem?-set_other (x ∷ xs) (suc i) zero v h = refl
  get_elem?-set_other (x ∷ xs) (suc i) (suc j) v h =
      get_elem?-set_other xs i j v (λ e. h (ap suc e))

-- What addLeaf leaves alone: the rows of the deposits, and the height of the tree.
abbrev pub rest_of : {D : Type 0} → Stored D → List Deposit × ℕ
rest_of s = (s.db.deposits, s.tree.height)

abbrev deposits_of : {D : Type 0} → Db D → List Deposit
deposits_of db = db.deposits

module _ {D : Type 0} ⦃k : Keccak D⦄ where
  answer-deposits : (fs : List Bool) (db : Db D) → (answer fs db).1.deposits ≡ db.deposits
  answer-deposits [] db = refl
  answer-deposits (true ∷ fs) db = refl
  answer-deposits (b ∷ fs) db = refl

  serve-deposits : Keeps deposits_of (serve {D = D})
  unfolding serve
  serve-deposits = record { at = λ db. answer-deposits db.faults db }

  set_root-deposits : (root : D) (id n : ℕ) → Keeps deposits_of (set_root root id n)
  unfolding set_root
  set_root-deposits root id n = Keeps-bind serve-deposits (λ _. record { at = λ db. refl })

  bulk_set-deposits : (rows : List (Node D)) → Keeps deposits_of (bulk_set rows)
  unfolding bulk_set
  bulk_set-deposits rows = Keeps-bind serve-deposits (λ _. record { at = λ db. refl })

  on_db-rest : {A : Type 0} {m : State (Db D) A} → Keeps deposits_of m → Keeps rest_of (on_db m)
  on_db-rest keeps = record { at = λ s. ap (λ ds. (ds, s.tree.height)) (keeps.at s.db) }

  siblings-rest :
      (siblings : List D)
      → Keeps rest_of (put_tree (λ (t : MerkleTree D). record t { siblings = siblings }))
  siblings-rest siblings = record { at = λ s. refl }

  count-rest :
      Keeps rest_of (put_tree (λ (t : MerkleTree D). record t { count = (t.count + 1) % u32_mod }))
  count-rest = record { at = λ s. refl }

  add_leaf-rest : (id : ℕ) (leaf : D) (index : ℕ) → Keeps rest_of (add_leaf id leaf index)
  unfolding add_leaf
  add_leaf-rest id leaf index =
      search
        (keeps_rules, on_db-rest, set_root-deposits, bulk_set-deposits, siblings-rest, count-rest)
        depth 14

  pub on_tree-found :
      {A : Type 0} (network_id id : ℕ) (t : MerkleTree D) (m : State (Stored D) A)
      (c : Controlled D)
      → find_id network_id c.bridge.merkle_tree_ids ≡ some id
      → get_elem? c.bridge.exit_trees id ≡ some t
      → on_tree network_id m c ≡ put_back id c (m (record { tree = t; db = c.db }))
  unfolding on_tree get_merkle_tree_id
  on_tree-found network_id id t m c registered found = rw (registered, found) refl

  -- Each exit tree holds the leaves of its place, and is not higher than the zero hashes reach.
  abbrev pub AreTrees : (ℕ → List D) → BridgeController D → Type 0
  AreTrees leaves bridge =
      (id : ℕ) (t : MerkleTree D)
      → get_elem? bridge.exit_trees id ≡ some t
      → IsTree (leaves id) t × (t.height ≤ 65)

  -- The leaves after one more at a place.
  abbrev pub append_leaf : (ℕ → List D) → ℕ → D → ℕ → List D
  append_leaf leaves id leaf j = if j == id then leaves id ++ leaf ∷ [] else leaves j

  append_leaf_self :
      (leaves : ℕ → List D) (id : ℕ) (leaf : D)
      → append_leaf leaves id leaf id ≡ leaves id ++ leaf ∷ []
  append_leaf_self leaves id leaf = ground arith

  append_leaf_other :
      (leaves : ℕ → List D) (id j : ℕ) (leaf : D) → j ≢ id → append_leaf leaves id leaf j ≡ leaves j
  append_leaf_other leaves id j leaf h = ground arith

  set-AreTrees :
      (leaves : ℕ → List D) (bridge : BridgeController D) (id : ℕ) (leaf : D) (t t' : MerkleTree D)
      → AreTrees leaves bridge
      → get_elem? bridge.exit_trees id ≡ some t
      → IsTree (leaves id ++ leaf ∷ []) t'
      → t'.height ≤ 65
      → AreTrees
          (append_leaf leaves id leaf)
          (record bridge { exit_trees = set bridge.exit_trees id t' })
  set-AreTrees leaves bridge id leaf t t' before found holds le j u at =
      elim (Bool-cases (j == id)) [
        | inl same ↦
            let e : j ≡ id = (==_iff j id).0 same in
            let there : get_elem? (set bridge.exit_trees id t') id ≡ some u =
              subst (λ i. get_elem? (set bridge.exit_trees id t') i ≡ some u) e at in
            let is_new : t' ≡ u =
              some-injective (sym (get_elem?-set_self bridge.exit_trees id t' found) ∙ there) in
            subst (λ v. IsTree (append_leaf leaves id leaf j) v × (v.height ≤ 65)) is_new
              (subst (λ ls. IsTree ls t' × (t'.height ≤ 65))
                (sym (ap (append_leaf leaves id leaf) e ∙ append_leaf_self leaves id leaf))
                (holds, le))
        | inr differ ↦
            let ne : j ≢ id = λ e. cc (sym differ ∙ (==_iff j id).1 e) in
            let there = sym (get_elem?-set_other bridge.exit_trees id j t' ne) ∙ at in
            subst (λ ls. IsTree ls u × (u.height ≤ 65))
              (sym (append_leaf_other leaves id j leaf ne)) (before j u there)
      ]

  -- For a deposit of a registered network whose tree holds `leaves id`, with room for one more and
  -- the next deposit count, and an amount of 32 bytes, when no statement fails: AddDeposit succeeds,
  -- the trees then hold the leaves with the hash of the deposit appended at that place, the rows of
  -- the deposits are as before, and one row of mt.root is added, for the deposit's id.
  pub add_deposit-AreTrees :
      (leaves : ℕ → List D) (c : Controlled D) (d : Deposit) (id : ℕ) (t : MerkleTree D) (leaf : D)
      → AreTrees leaves c.bridge
      → c.db.faults ≡ []
      → find_id d.network_id c.bridge.merkle_tree_ids ≡ some id
      → get_elem? c.bridge.exit_trees id ≡ some t
      → d.deposit_count ≡ length (leaves id)
      → length (leaves id) < 2 ^ t.height
      → length (leaves id) + 1 < u32_mod
      → hash_deposit d ≡ ok leaf
      → (c' : Controlled D) × (add_deposit d c ≡ (ok tt, c'))
        × AreTrees (append_leaf leaves id leaf) c'.bridge
        × (c'.bridge.merkle_tree_ids ≡ c.bridge.merkle_tree_ids)
        × (c'.db.deposits ≡ c.db.deposits)
        × (c'.db.roots
            ≡ c.db.roots
              ++ record {
                root = exit_root t.height (leaves id ++ leaf ∷ []);
                deposit_id = d.id;
                network = t.network_id;
              }
                ∷ [])
  unfolding add_deposit
  add_deposit-AreTrees leaves c d id t leaf before answers registered found next room small hashed =
      let (holds, le) = before id t found in
      let s : Stored D = record { tree = t; db = c.db } in
      let (s', run, held, roots) =
        add_leaf-IsTree d.id leaf (leaves id) s answers le room small holds in
      let kept : rest_of s' ≡ rest_of s =
        ap (λ z. rest_of z.1) (sym run) ∙ (add_leaf-rest d.id leaf (length (leaves id))).at s in
      let height : s'.tree.height ≡ t.height = ap (λ r. r.1) kept in
      let bridge = record c.bridge { exit_trees = set c.bridge.exit_trees id s'.tree } in
      let called : on_tree d.network_id (add_leaf d.id leaf d.deposit_count) c
          ≡ put_back id c (add_leaf d.id leaf d.deposit_count s) =
        on_tree-found d.network_id id t (add_leaf d.id leaf d.deposit_count) c registered found in
      (
        record c { bridge = bridge; db = s'.db },
        rw hashed (called ∙ ap (put_back id c) (ap (λ n. add_leaf d.id leaf n s) next ∙ run)),
        set-AreTrees leaves c.bridge id leaf t s'.tree before found held (omega (arith, height)),
        refl,
        ap (λ r. r.0) kept,
        roots,
      )
