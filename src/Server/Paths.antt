-- ===== src/Server/Paths.antt =====
-- getNode and getProof: the path that is read from the tree's rows checks against its root.
use mathlib.Core.List.{reverse-cons}
use zkevm_bridge_service.Base.{
  ℕ, zero, suc, ◌+◌, ◌≤◌, ◌<◌, ◌≡◌, refl, sym, ap, ap₂, subst, ◌∙◌, inl, inr, List, [], ◌∷◌, ◌++◌,
  reverse, length, length-append, Bool, true, false, find, if◌then◌else◌, if-cases, Option, none,
  some, bit, Result, ok, err, panic, ok-injective, some-injective, or_err-eq-ok, storage_not_found,
  arith,
}
use zkevm_bridge_service.Base.State.{bind-eq-ok}
use zkevm_bridge_service.Bridgectrl.Keccak.{Keccak}
use zkevm_bridge_service.Bridgectrl.Levels.{proof_levels, calculate_root}
use zkevm_bridge_service.Bridgectrl.MerkleTree.{rounds_down}
use zkevm_bridge_service.Storage.Tables.{Node, Db, serve, answer}
use zkevm_bridge_service.Storage.Trees.{get_node, same_digest}
use zkevm_bridge_service.Storage.Reads.{same_digest-eq}
use zkevm_bridge_service.Server.{
  NodeCache, Service, cached, or_stored, service_node, proof_loop, get_proof,
}

module _ {D : Type 0} ⦃k : Keccak D⦄ where
  -- Each row's key is the hash of its children.
  abbrev pub AreHashes : List (Node D) → Type 0
  AreHashes [] = Unit {0}
  AreHashes (row ∷ rows) = (row.key ≡ k.hash row.left row.right) × AreHashes rows

  find-AreHashes :
      (key : D) (rows : List (Node D)) (row : Node D)
      → AreHashes rows
      → find (λ r. same_digest r.key key) rows ≡ some row
      → key ≡ k.hash row.left row.right
  unfolding find
  find-AreHashes key [] row all h = cc
  find-AreHashes key (r ∷ rows) row (here, all) h = elim (if-cases (same_digest r.key key) h) [
    | inl (same, e) ↦
        subst (λ v. key ≡ k.hash v.left v.right) (some-injective e)
          (sym (same_digest-eq r.key key same) ∙ here)
    | inr (_, later) ↦ find-AreHashes key rows row all later
  ]

  serve-rht : (db : Db D) → (serve db).1.rht ≡ db.rht
  unfolding serve
  serve-rht db = answered db.faults
    where
      answered : (fs : List Bool) → (answer fs db).1.rht ≡ db.rht
      answered [] = refl
      answered (true ∷ fs) = refl
      answered (false ∷ fs) = refl

  get_node-AreHashes :
      (key : D) (db db' : Db D) (row : Node D)
      → AreHashes db.rht
      → get_node key db ≡ (ok row, db')
      → (key ≡ k.hash row.left row.right) × AreHashes db'.rht
  unfolding get_node
  get_node-AreHashes key db db' row all h =
      let (_, served, e, h1) = bind-eq-ok serve _ db h in
      let kept : AreHashes served.rht =
        subst AreHashes (sym (serve-rht db) ∙ ap (λ r. r.1.rht) e) all in
      (
        find-AreHashes key served.rht row kept
            (or_err-eq-ok storage_not_found _ (ap (λ r. r.0) h1)),
        subst (λ v. AreHashes v.rht) (ap (λ r. r.1) h1) kept,
      )

  proof_levels-append :
      (n h top index : ℕ) (leaf node sibling : D) (below : List D)
      → h + n ≡ top
      → length below ≡ n
      → proof_levels n h index leaf below ≡ ok node
      → proof_levels (suc n) h index leaf (below ++ sibling ∷ [])
        ≡ ok (if bit index top then k.hash sibling node else k.hash node sibling)
  unfolding proof_levels
  proof_levels-append zero h top index leaf node sibling [] t len run =
      let lev : h ≡ top = omega arith in rw (lev, ok-injective run) refl
  proof_levels-append zero h top index leaf node sibling (b ∷ bs) t len run = absurd (omega arith)
  proof_levels-append (suc n) h top index leaf node sibling [] t len run = absurd (omega arith)
  proof_levels-append (suc n) h top index leaf node sibling (b ∷ bs) t len run =
      proof_levels-append n (suc h) top index _ node sibling bs (omega arith) (omega arith) run

module _ {D : Type 0} ⦃k : Keccak D⦄ (cache : NodeCache D) where
  -- Rows and cache give each node its children.
  abbrev pub IsSound : Service cache → Type 0
  IsSound s =
      ((key : D) (v : D × D) → cache.Holds s.nodes key v → key ≡ k.hash v.0 v.1)
      × AreHashes s.db.rht

  touched-IsSound :
      (parent_hash : D) (s : Service cache)
      → IsSound s
      → IsSound (record s { nodes = cache.touch parent_hash s.nodes })
  touched-IsSound parent_hash s (held, rows) =
      (λ key v here. held key v (cache.touch-Holds parent_hash s.nodes key v here), rows)

  stored-IsSound :
      (parent_hash : D) (s s' : Service cache) (v : D × D) (r : Result (Node D)) (db : Db D)
      → IsSound s
      → get_node parent_hash s.db ≡ (r, db)
      → cached cache parent_hash (r, record s { db = db }) ≡ (ok v, s')
      → (parent_hash ≡ k.hash v.0 v.1) × IsSound s'
  stored-IsSound parent_hash s s' v (ok value) db (held, rows) e h =
      let same : (value.left, value.right) ≡ v = ok-injective (ap (λ r. r.0) h) in
      let (hashes, rows') = get_node-AreHashes parent_hash s.db db value rows e in
      (
        hashes ∙ ap (λ w. k.hash w.0 w.1) same,
        subst IsSound (ap (λ r. r.1) h) (
          λ key w here.
              elim (cache.add-Holds parent_hash (value.left, value.right) s.nodes key w here) [
                | inl (same_key, same_value) ↦
                    sym same_key ∙ hashes ∙ ap (λ u. k.hash u.0 u.1) same_value
                | inr before ↦ held key w before
              ],
          rows',
        ),
      )
  stored-IsSound parent_hash s s' v (err x) db sound e h = cc
  stored-IsSound parent_hash s s' v panic db sound e h = cc

  service_node-IsSound :
      (parent_hash : D) (s s' : Service cache) (v : D × D)
      → IsSound s
      → service_node cache parent_hash s ≡ (ok v, s')
      → (parent_hash ≡ k.hash v.0 v.1) × IsSound s'
  unfolding service_node
  service_node-IsSound parent_hash s s' v (held, rows) h =
      found (cache.get parent_hash s.nodes) refl h
    where
      touched : Service cache
      touched = record s { nodes = cache.touch parent_hash s.nodes }

      found :
          (o : Option (D × D))
          → cache.get parent_hash s.nodes ≡ o
          → or_stored cache parent_hash o touched ≡ (ok v, s')
          → (parent_hash ≡ k.hash v.0 v.1) × IsSound s'
      found (some w) e h1 =
          let same : w ≡ v = ok-injective (ap (λ r. r.0) h1) in
          (
            held parent_hash v (cache.get-Holds parent_hash s.nodes v (e ∙ ap some same)),
            subst (IsSound) (ap (λ r. r.1) h1) (touched-IsSound parent_hash s (held, rows)),
          )
      found none e h1 =
          stored-IsSound parent_hash touched s' v (get_node parent_hash s.db).0
            (get_node parent_hash s.db).1 (touched-IsSound parent_hash s (held, rows)) refl h1

  parent :
      (b : Bool) (left right : D)
      → (if b
          then k.hash (if b then left else right) (if b then right else left)
          else k.hash (if b then right else left) (if b then left else right))
        ≡ k.hash left right
  parent true left right = refl
  parent false left right = refl

  proof_loop-proof_levels :
      (h index : ℕ) (cur : D) (s s' : Service cache) (siblings : List D)
      → IsSound s
      → proof_loop cache h index cur s ≡ (ok siblings, s')
      → (leaf : D) × (proof_levels h 0 index leaf (reverse siblings) ≡ ok cur)
        × (length (reverse siblings) ≡ h)
        × IsSound s'
  unfolding proof_loop proof_levels
  proof_loop-proof_levels zero index cur s s' siblings sound h =
      let none_left : [] ≡ siblings = ok-injective (ap (λ r. r.0) h) in
      (
        cur,
        refl,
        ap (λ l. length (reverse l)) (sym none_left),
        subst IsSound (ap (λ r. r.1) h) sound,
      )
  proof_loop-proof_levels (suc h) index cur s s' siblings sound e =
      let ((left, right), v, e1, e2) = bind-eq-ok (service_node cache cur) _ s e in
      let (children, sound1) = service_node-IsSound cur s v (left, right) sound e1 in
      let b = bit index h in
      let (below, u, e3, e4) =
        bind-eq-ok (proof_loop cache h index (if b then right else left)) _ v e2 in
      let (leaf, run, len, sound2) =
        proof_loop-proof_levels h index (if b then right else left) v u below sound1 e3 in
      let path : reverse siblings ≡ reverse below ++ (if b then left else right) ∷ [] =
        ap reverse (sym (ok-injective (ap (λ r. r.0) e4))) ∙ reverse-cons _ below in
      let step =
        proof_levels-append h 0 h index leaf _ (if b then left else right) (reverse below)
          (omega arith) len run in
      (
        leaf,
        ap (λ l. proof_levels (suc h) 0 index leaf l) path
            ∙ step
            ∙ ap ok (parent b left right ∙ sym children),
        ap length path ∙ length-append (reverse below) _ ∙ omega (arith, len),
        subst IsSound (ap (λ r. r.1) e4) sound2,
      )

  -- Where the rows and the cache hold the children of their keys, for a height from 1 to 256: the
  -- siblings that getProof returns lead from some leaf to the root it was given.
  pub get_proof-calculate_root :
      (height index : ℕ) (root : D) (s s' : Service cache) (siblings : List D)
      → 0 < height
      → height ≤ 256
      → IsSound s
      → get_proof cache height index root s ≡ (ok siblings, s')
      → (leaf : D) × (calculate_root leaf siblings index height ≡ ok root) × IsSound s'
  unfolding get_proof calculate_root
  get_proof-calculate_root height index root s s' siblings pos le sound h =
      let (down, v, e1, e2) = bind-eq-ok (proof_loop cache (rounds_down height) index root) _ s h in
      let (leaf, run, len, sound') =
        proof_loop-proof_levels (rounds_down height) index root s v down sound e1 in
      let rounds : rounds_down height ≡ height = omega arith in
      (
        leaf,
        ap₂ (λ n l. proof_levels n 0 index leaf l) (sym rounds)
              (sym (ok-injective (ap (λ r. r.0) e2)))
            ∙ run,
        subst IsSound (ap (λ r. r.1) e2) sound',
      )
