-- ===== src/Etherman/Events/Placed.antt =====
-- etherman/etherman.go: where an event is stored, for the logs of one chain.
use mathlib.Core.List.{append_assoc, append-nil}
use zkevm_bridge_service.Base.{
  ℕ, suc, ◌≤◌, ◌<◌, ◌≡◌, ◌≢◌, refl, sym, ap, ◌∙◌, inl, inr, subst, List, [], ◌∷◌, ◌++◌, true, false,
  Bool-cases, Option, some, arith,
}
use zkevm_bridge_service.Etherman.Types.{Order, BlockData}
use zkevm_bridge_service.Etherman.Logs.{Log}
use zkevm_bridge_service.Etherman.Events.{
  Event, ger_event, Orders, order_at, add_order, last_or, new_block, append_to, order_of,
  is_block_of, store_in,
}
use zkevm_bridge_service.Etherman.Events.Trace.{
  AllSome, AllSome-left, AllSome-right, event_at, trace_of, event_at-order_of, trace_of-append_to,
  trace_of-snoc,
}

order_at-add_order :
    (hash : ℕ) (o : Order) (orders : Orders)
    → order_at hash (add_order hash o orders) ≡ order_at hash orders ++ o ∷ []
unfolding order_at add_order
order_at-add_order hash o [] = ground arith
order_at-add_order hash o ((h, os) ∷ rest) = ground (arith, order_at-add_order hash o rest)

pub order_at-add_order_ne :
    (other hash : ℕ) (o : Order) (orders : Orders)
    → other ≢ hash
    → order_at other (add_order hash o orders) ≡ order_at other orders
unfolding order_at add_order
order_at-add_order_ne other hash o [] differ = ground arith
order_at-add_order_ne other hash o ((h, os) ∷ rest) differ =
    ground (arith, order_at-add_order_ne other hash o rest differ)

module _ {D : Type 0} where
  -- Blocks of the chain from this number on, one for each number at most.
  abbrev pub AreAscending : (ℕ → ℕ) → ℕ → List (BlockData D) → Type 0
  AreAscending chain lo [] = Unit {0}
  AreAscending chain lo (b ∷ bs) =
      (lo ≤ b.block.block_number)
      × (b.block.block_hash ≡ chain b.block.block_number)
      × AreAscending chain (suc b.block.block_number) bs

  abbrev pub AreUpTo : ℕ → List (BlockData D) → Type 0
  AreUpTo top [] = Unit {0}
  AreUpTo top (b ∷ bs) = (b.block.block_number ≤ top) × AreUpTo top bs

  -- No block of this number.
  abbrev pub HasNot : ℕ → List (BlockData D) → Type 0
  HasNot n [] = Unit {0}
  HasNot n (b ∷ bs) = (b.block.block_number ≢ n) × HasNot n bs

  pub append_to-block : (e : Event D) (b : BlockData D) → (append_to e b).block ≡ b.block
  unfolding append_to
  append_to-block (ger_event _) b = refl
  append_to-block other b = refl

  abbrev pub traced : Orders → List (BlockData D) → List (Option (Event D))
  traced orders [] = []
  traced orders (b ∷ bs) = trace_of b (order_at b.block.block_hash orders) ++ traced orders bs

  -- The block that was written to: the events before, then the new one.
  written-traced :
      (e : Event D) (b : BlockData D) (hash : ℕ) (orders : Orders)
      → b.block.block_hash ≡ hash
      → AllSome (trace_of b (order_at hash orders))
      → trace_of (append_to e b) (
          order_at
            (append_to e b).block.block_hash
            (add_order hash (order_of e (append_to e b)) orders))
        ≡ trace_of b (order_at hash orders) ++ some e ∷ []
  written-traced e b hash orders same found =
      let b' = append_to e b in
      let o = order_of e b' in
      let os = order_at hash orders in
      ap (λ h. trace_of b' (order_at h (add_order hash o orders)))
        (ap (λ x. x.block_hash) (append_to-block e b) ∙ same)
      ∙ ap (trace_of b') (order_at-add_order hash o orders)
      ∙ trace_of-snoc b' os o
      ∙ ap (λ t. t ++ event_at b' o.name o.pos ∷ []) (trace_of-append_to e b os found)
      ∙ ap (λ x. trace_of b os ++ x ∷ []) (event_at-order_of e b)

  pub is_block_of-number :
      (v_log : Log D) (b : BlockData D)
      → is_block_of v_log b ≡ true
      → b.block.block_number ≡ v_log.block_number
  unfolding is_block_of
  is_block_of-number v_log b h = ground arith

  pub store_in-same :
      (v_log : Log D) (e : Event D) (b : BlockData D)
      → is_block_of v_log b ≡ true
      → store_in v_log e (b ∷ []) ≡ append_to e b ∷ []
  unfolding store_in
  store_in-same v_log e b h = rw h refl

  pub store_in-other :
      (v_log : Log D) (e : Event D) (b : BlockData D)
      → is_block_of v_log b ≡ false
      → store_in v_log e (b ∷ []) ≡ b ∷ append_to e (new_block v_log) ∷ []
  unfolding store_in
  store_in-other v_log e b h = rw h refl

  module _ (chain : ℕ → ℕ) (injective : (a b : ℕ) → chain a ≡ chain b → a ≡ b) where
    -- A block of another number keeps its orders.
    other-traced :
        (b : BlockData D) (n : ℕ) (o : Order) (orders : Orders)
        → b.block.block_hash ≡ chain b.block.block_number
        → b.block.block_number ≢ n
        → order_at b.block.block_hash (add_order (chain n) o orders)
          ≡ order_at b.block.block_hash orders
    other-traced b n o orders hashed differ =
        order_at-add_order_ne b.block.block_hash (chain n) o orders
          (λ same. differ (injective b.block.block_number n (sym hashed ∙ same)))

    differs :
        (v_log : Log D) (b : BlockData D)
        → v_log.block_hash ≡ chain v_log.block_number
        → b.block.block_hash ≡ chain b.block.block_number
        → is_block_of v_log b ≡ false
        → b.block.block_number ≢ v_log.block_number
    unfolding is_block_of
    differs v_log b of_chain hashed other same =
        let same_hash = hashed ∙ ap chain same ∙ sym of_chain in ground arith

    -- Where the log's block ends up: after it nothing else changed.
    abbrev pub Stores :
        Log D → Event D → ℕ → Orders → List (BlockData D) → List (BlockData D) → Type 0
    Stores v_log e lo orders bs stored =
        (d : BlockData D)
        → let last = last_or d stored in
          (last.block.block_hash ≡ chain v_log.block_number)
          × (traced (add_order (chain v_log.block_number) (order_of e last) orders) stored
              ≡ traced orders bs ++ some e ∷ [])
          × AreAscending chain lo stored
          × AreUpTo v_log.block_number stored

    new-Stores :
        (v_log : Log D) (e : Event D) (lo : ℕ) (orders : Orders)
        → v_log.block_hash ≡ chain v_log.block_number
        → lo ≤ v_log.block_number
        → order_at (chain v_log.block_number) orders ≡ []
        → Stores v_log e lo orders [] (append_to e (new_block v_log) ∷ [])
    new-Stores v_log e lo orders of_chain above fresh d =
        let b = new_block v_log in
        let kept = append_to-block e b in
        let n = v_log.block_number in
        let hashed : (append_to e b).block.block_hash ≡ chain n =
          ap (λ x. x.block_hash) kept ∙ of_chain in
        let numbered : (append_to e b).block.block_number ≡ n = ap (λ x. x.block_number) kept in
        (
          hashed,
          append-nil _
              ∙ written-traced e b (chain n) orders of_chain
                  (subst (λ os. AllSome (trace_of b os)) (sym fresh) tt)
              ∙ ap (λ os. trace_of b os ++ some e ∷ []) fresh,
          (subst (λ m. lo ≤ m) (sym numbered) above, hashed ∙ ap chain (sym numbered), tt),
          (subst (λ m. m ≤ n) (sym numbered) (omega arith), tt),
        )

    -- One more block before these, which keeps its events.
    behind-Stores :
        (v_log : Log D) (e : Event D) (lo : ℕ) (orders : Orders) (b : BlockData D)
        (bs stored : List (BlockData D))
        → lo ≤ b.block.block_number
        → b.block.block_hash ≡ chain b.block.block_number
        → b.block.block_number < v_log.block_number
        → Stores v_log e (suc b.block.block_number) orders bs stored
        → Stores v_log e lo orders (b ∷ bs) (b ∷ stored)
    behind-Stores v_log e lo orders b bs stored above hashed below stores d =
        let (last_hash, rest, ascending, up_to) = stores b in
        let o = order_of e (last_or b stored) in
        let kept = other-traced b v_log.block_number o orders hashed (omega arith) in
        (
          last_hash,
          ap (λ os. trace_of b os ++ traced (add_order (chain v_log.block_number) o orders) stored)
                kept
              ∙ ap (λ t. trace_of b (order_at b.block.block_hash orders) ++ t) rest
              ∙ sym (
                  append_assoc (trace_of b (order_at b.block.block_hash orders)) (traced orders bs)
                    (some e ∷ [])),
          (above, hashed, ascending),
          (omega arith, up_to),
        )

    same-Stores :
        (v_log : Log D) (e : Event D) (lo : ℕ) (orders : Orders) (b : BlockData D)
        → lo ≤ b.block.block_number
        → b.block.block_number ≡ v_log.block_number
        → b.block.block_hash ≡ chain v_log.block_number
        → AllSome (trace_of b (order_at b.block.block_hash orders))
        → Stores v_log e lo orders (b ∷ []) (append_to e b ∷ [])
    same-Stores v_log e lo orders b above numbered hashed found d =
        let n = v_log.block_number in
        let kept = append_to-block e b in
        let hashed' : (append_to e b).block.block_hash ≡ chain n =
          ap (λ x. x.block_hash) kept ∙ hashed in
        let numbered' : (append_to e b).block.block_number ≡ n =
          ap (λ x. x.block_number) kept ∙ numbered in
        (
          hashed',
          append-nil _
              ∙ written-traced e b (chain n) orders hashed
                  (subst (λ h. AllSome (trace_of b (order_at h orders))) hashed found)
              ∙ ap (λ h. trace_of b (order_at h orders) ++ some e ∷ []) (sym hashed)
              ∙ ap (λ t. t ++ some e ∷ [])
                  (sym (append-nil (trace_of b (order_at b.block.block_hash orders)))),
          (omega (arith, numbered'), hashed' ∙ ap chain (sym numbered'), tt),
          (omega (arith, numbered'), tt),
        )

    pub store_in-Stores :
        (v_log : Log D) (e : Event D) (lo : ℕ) (orders : Orders) (bs : List (BlockData D))
        → v_log.block_hash ≡ chain v_log.block_number
        → lo ≤ v_log.block_number
        → AreAscending chain lo bs
        → AreUpTo v_log.block_number bs
        → (HasNot v_log.block_number bs → order_at (chain v_log.block_number) orders ≡ [])
        → AllSome (traced orders bs)
        → Stores v_log e lo orders bs (store_in v_log e bs)
    unfolding store_in
    store_in-Stores v_log e lo orders [] of_chain above asc up fresh found =
        new-Stores v_log e lo orders of_chain above (fresh tt)
    store_in-Stores v_log e lo orders (b ∷ []) of_chain above (low, hashed, _) (top, _) fresh
          found =
        elim (Bool-cases (is_block_of v_log b)) [
          | inl same ↦
              let numbered = is_block_of-number v_log b same in
              subst (Stores v_log e lo orders (b ∷ [])) (sym (store_in-same v_log e b same)) (
                same-Stores v_log e lo orders b low numbered (hashed ∙ ap chain numbered)
                  (AllSome-left (trace_of b (order_at b.block.block_hash orders)) [] found))
          | inr other ↦
              let differ = differs v_log b of_chain hashed other in
              subst (Stores v_log e lo orders (b ∷ [])) (sym (store_in-other v_log e b other)) (
                behind-Stores v_log e lo orders b [] (append_to e (new_block v_log) ∷ []) low hashed
                  (omega (arith, differ))
                  (new-Stores v_log e (suc b.block.block_number) orders of_chain
                    (omega (arith, differ)) (fresh (differ, tt))))
        ]
    store_in-Stores v_log e lo orders (b ∷ b' ∷ rest) of_chain above
          (low, hashed, (next, hashed', later)) (top, (top', up)) fresh found =
        let below : b.block.block_number < v_log.block_number = omega arith in
        behind-Stores v_log e lo orders b (b' ∷ rest) (store_in v_log e (b' ∷ rest)) low hashed
          below
          (store_in-Stores v_log e (suc b.block.block_number) orders (b' ∷ rest) of_chain below
            (next, hashed', later) (top', up)
            (λ has_not. fresh ((λ same. omega (arith, same)), has_not))
            (AllSome-right (trace_of b (order_at b.block.block_hash orders))
              (traced orders (b' ∷ rest)) found))
