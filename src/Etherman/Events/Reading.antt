-- ===== src/Etherman/Events/Reading.antt =====
-- etherman/etherman.go: readEvents over the logs of one chain.
use mathlib.Core.List.{append_assoc, append-nil}
use zkevm_bridge_service.Base.{
  ℕ, ◌≤◌, ◌≡◌, ◌≢◌, refl, sym, ap, ◌∙◌, subst, inl, inr, Bool-cases, List, [], map, ◌∷◌, ◌++◌,
  Option, none, some, Result, ok, err, panic, ◌>>=◌, arith,
}
use zkevm_bridge_service.Bridgectrl.Keccak.{Keccak}
use zkevm_bridge_service.Etherman.Types.{Order, EventOrder, BlockData, global_exit_roots_order}
use zkevm_bridge_service.Etherman.Logs.{Log, Bindings}
use zkevm_bridge_service.Etherman.Events.{
  Event, is_block_of, Orders, order_at, add_order, last_or, new_block, order_of, store_in,
  store_event, parsed, with_event, process_event, process_logs, get_rollup_info_by_block_range,
  ordered,
}
use zkevm_bridge_service.Etherman.Events.Trace.{AllSome, AllSome-append, event_at, trace_of, trace}
use zkevm_bridge_service.Etherman.Events.Placed.{
  AreAscending, AreUpTo, HasNot, traced, store_in-Stores, order_at-add_order_ne, append_to-block,
  store_in-same, store_in-other, is_block_of-number,
}

event_at-ordered :
    {D : Type 0} (b : BlockData D) (os : List Order) (name : EventOrder) (pos : ℕ)
    → event_at (record b { order = os }) name pos ≡ event_at b name pos
event_at-ordered b os global_exit_roots_order pos = refl
event_at-ordered b os other pos = refl

trace_of-ordered :
    {D : Type 0} (b : BlockData D) (os ps : List Order)
    → trace_of (record b { order = os }) ps ≡ trace_of b ps
trace_of-ordered b os [] = refl
trace_of-ordered b os (p ∷ ps) =
    ap (λ x. x ∷ trace_of (record b { order = os }) ps) (event_at-ordered b os p.name p.pos)
    ∙ ap (λ t. event_at b p.name p.pos ∷ t) (trace_of-ordered b os ps)

trace-ordered :
    {D : Type 0} (orders : Orders) (bs : List (BlockData D))
    → trace (ordered orders bs) ≡ traced orders bs
unfolding ordered
trace-ordered orders [] = refl
trace-ordered orders (b ∷ bs) =
    let os = order_at b.block.block_hash orders in
    ap (λ t. t ++ trace (ordered orders bs)) (trace_of-ordered b os os)
    ∙ ap (λ t. trace_of b os ++ t) (trace-ordered orders bs)

some-AllSome : {A : Type 0} (xs : List A) → AllSome (map some xs)
some-AllSome [] = tt
some-AllSome (x ∷ xs) = some-AllSome xs

-- The logs of one chain, from this block on, in the order of their blocks.
abbrev pub AreOfChain : {D : Type 0} → (ℕ → ℕ) → ℕ → List (Log D) → Type 0
AreOfChain chain lo [] = Unit {0}
AreOfChain chain lo (l ∷ ls) =
    (lo ≤ l.block_number)
    × (l.block_hash ≡ chain l.block_number)
    × AreOfChain chain l.block_number ls

module _ {D : Type 0} where
  -- What was read is right for logs from this block on.
  abbrev IsRead : (ℕ → ℕ) → ℕ → List (BlockData D) × Orders → Type 0
  IsRead chain n (bs, orders) =
      AreAscending chain 0 bs
      × AreUpTo n bs
      × ((m : ℕ) → HasNot m bs → order_at (chain m) orders ≡ [])
      × AllSome (traced orders bs)

  AreUpTo-more : (n m : ℕ) (bs : List (BlockData D)) → n ≤ m → AreUpTo n bs → AreUpTo m bs
  AreUpTo-more n m [] le h = tt
  AreUpTo-more n m (b ∷ bs) le (top, h) = (omega arith, AreUpTo-more n m bs le h)

  -- A block number that is not there was not there before, and is not the log's.
  store_in-HasNot :
      (v_log : Log D) (e : Event D) (bs : List (BlockData D)) (m : ℕ)
      → HasNot m (store_in v_log e bs)
      → HasNot m bs × (v_log.block_number ≢ m)
  unfolding store_in
  store_in-HasNot v_log e [] m (differ, _) =
      (tt, subst (λ x. x.block_number ≢ m) (append_to-block e (new_block v_log)) differ)
  store_in-HasNot v_log e (b ∷ []) m h = elim (Bool-cases (is_block_of v_log b)) [
    | inl same ↦
        let (differ, _) = subst (HasNot m) (store_in-same v_log e b same) h in
        let differ' = subst (λ x. x.block_number ≢ m) (append_to-block e b) differ in
        ((differ', tt), λ is. differ' (is_block_of-number v_log b same ∙ is))
    | inr other ↦
        let (differ, (new, _)) = subst (HasNot m) (store_in-other v_log e b other) h in
        ((differ, tt), subst (λ x. x.block_number ≢ m) (append_to-block e (new_block v_log)) new)
  ]
  store_in-HasNot v_log e (b ∷ b' ∷ rest) m (differ, h) =
      let (before, own) = store_in-HasNot v_log e (b' ∷ rest) m h in ((differ, before), own)

  module _ (chain : ℕ → ℕ) (injective : (a b : ℕ) → chain a ≡ chain b → a ≡ b) where
    store_event-IsRead :
        (v_log : Log D) (e : Event D) (n : ℕ) (bs : List (BlockData D)) (orders : Orders)
        → v_log.block_hash ≡ chain v_log.block_number
        → n ≤ v_log.block_number
        → IsRead chain n (bs, orders)
        → let s = store_event v_log e (bs, orders) in
          IsRead chain v_log.block_number s × (traced s.1 s.0 ≡ traced orders bs ++ some e ∷ [])
    unfolding store_event
    store_event-IsRead v_log e n bs orders of_chain le (asc, up, fresh, found) =
        let m = v_log.block_number in
        let stored = store_in v_log e bs in
        let last = last_or (new_block v_log) stored in
        let o = order_of e last in
        let (hashed, written, asc', up') =
          store_in-Stores chain injective v_log e 0 orders bs of_chain (omega arith) asc
            (AreUpTo-more n m bs le up) (fresh m) found (new_block v_log) in
        let written' : traced (add_order last.block.block_hash o orders) stored
            ≡ traced orders bs ++ some e ∷ [] =
          ap (λ h. traced (add_order h o orders) stored) hashed ∙ written in
        (
          (
            asc',
            up',
            (λ i has_not.
                let (before, own) = store_in-HasNot v_log e bs i has_not in
                ap (λ h. order_at (chain i) (add_order h o orders)) hashed
                ∙ order_at-add_order_ne (chain i) (chain m) o orders
                    (λ same. own (sym (injective i m same)))
                ∙ fresh i before),
            subst AllSome (sym written') (AllSome-append (traced orders bs) (some e ∷ []) found tt),
          ),
          written',
        )

  abbrev added : Option (Event D) → List (Event D) → List (Event D)
  added none es = es
  added (some e) es = e ∷ es

  -- The blocks hold the events in their order behind what was there, or the same error was met.
  abbrev pub Holds :
      (ℕ → ℕ)
      → List (Option (Event D))
      → Result (List (Event D))
      → Result (List (BlockData D) × Orders)
      → Type 0
  Holds chain before (ok es) (ok (bs, orders)) =
      AreAscending chain 0 bs × (trace (ordered orders bs) ≡ before ++ map some es)
  Holds chain before (err e) (err e') = e ≡ e'
  Holds chain before panic panic = Unit {0}
  Holds chain before other result = ⊥

  Holds-added :
      (chain : ℕ → ℕ) (before after : List (Option (Event D))) (e : Event D)
      (es : Result (List (Event D))) (r : Result (List (BlockData D) × Orders))
      → after ≡ before ++ some e ∷ []
      → Holds chain after es r
      → Holds chain before (es >>= λ l. ok (e ∷ l)) r
  Holds-added chain before after e (ok es) (ok (bs, orders)) grown (asc, h) =
      (asc, h ∙ ap (λ t. t ++ map some es) grown ∙ append_assoc before (some e ∷ []) (map some es))
  Holds-added chain before after e (err x) (err y) grown h = h
  Holds-added chain before after e panic panic grown h = tt
  Holds-added chain before after e (ok es) (err y) grown h = elim h [ ]
  Holds-added chain before after e (ok es) panic grown h = elim h [ ]
  Holds-added chain before after e (err x) (ok s) grown h = elim h [ ]
  Holds-added chain before after e (err x) panic grown h = elim h [ ]
  Holds-added chain before after e panic (ok s) grown h = elim h [ ]
  Holds-added chain before after e panic (err y) grown h = elim h [ ]

  Holds-same :
      (chain : ℕ → ℕ) (before : List (Option (Event D))) (es : Result (List (Event D)))
      (r : Result (List (BlockData D) × Orders))
      → Holds chain before es r
      → Holds chain before (es >>= λ l. ok l) r
  Holds-same chain before (ok es) r h = h
  Holds-same chain before (err x) r h = h
  Holds-same chain before panic r h = h

module _ {D : Type 0} ⦃k : Keccak D⦄ (bind : Bindings D) where
  -- The events of the logs, one after the other.
  abbrev pub events_of : List (Log D) → Result (List (Event D))
  events_of [] = ok []
  events_of (l ∷ ls) = do e ← parsed bind l; es ← events_of ls; ok (added e es)

  module _ (chain : ℕ → ℕ) (injective : (a b : ℕ) → chain a ≡ chain b → a ≡ b) where
    after_parsed :
        (v_log : Log D) (ls : List (Log D)) (n : ℕ) (bs : List (BlockData D)) (orders : Orders)
        (o : Result (Option (Event D)))
        → v_log.block_hash ≡ chain v_log.block_number
        → n ≤ v_log.block_number
        → IsRead chain n (bs, orders)
        → ((cs : List (BlockData D)) (os : Orders)
            → IsRead chain v_log.block_number (cs, os)
            → Holds chain (traced os cs) (events_of ls) (process_logs bind ls (cs, os)))
        → Holds chain
            (traced orders bs)
            (o >>= λ e. events_of ls >>= λ es. ok (added e es))
            ((o >>= λ e. ok (with_event bind v_log (bs, orders) e)) >>= process_logs bind ls)
    after_parsed v_log ls n bs orders panic of_chain le h next = tt
    after_parsed v_log ls n bs orders (err e) of_chain le h next = refl
    after_parsed v_log ls n bs orders (ok none) of_chain le (asc, up, fresh, found) next =
        Holds-same chain (traced orders bs) (events_of ls) (process_logs bind ls (bs, orders))
          (next bs orders (asc, AreUpTo-more n v_log.block_number bs le up, fresh, found))
    after_parsed v_log ls n bs orders (ok (some e)) of_chain le h next =
        let s = store_event v_log e (bs, orders) in
        let (read, grown) = store_event-IsRead chain injective v_log e n bs orders of_chain le h in
        Holds-added chain (traced orders bs) (traced s.1 s.0) e (events_of ls)
          (process_logs bind ls s) grown (next s.0 s.1 read)

    process_logs-Holds :
        (ls : List (Log D)) (n : ℕ) (bs : List (BlockData D)) (orders : Orders)
        → AreOfChain chain n ls
        → IsRead chain n (bs, orders)
        → Holds chain (traced orders bs) (events_of ls) (process_logs bind ls (bs, orders))
    unfolding process_logs process_event
    process_logs-Holds [] n bs orders tt (asc, up, fresh, found) =
        (asc, trace-ordered orders bs ∙ sym (append-nil (traced orders bs)))
    process_logs-Holds (l ∷ ls) n bs orders (le, of_chain, later) h =
        after_parsed l ls n bs orders (parsed bind l) of_chain le h
          (λ cs os read. process_logs-Holds ls l.block_number cs os later read)

    -- For logs of one chain in the order of their blocks, where different blocks have different
    -- hashes: what readEvents returns for them are blocks of the chain with ascending numbers, and
    -- the orders that processBlockRange looks up for these blocks lead, one after the other, to
    -- exactly the events of the logs: no event is lost, stored twice or out of place, and each
    -- place in the orders holds an event. If a log cannot be parsed, the first such error is
    -- returned.
    pub get_rollup_info_by_block_range-Holds :
        (from_block : ℕ) (to_block : Option ℕ) (logs : List (Log D))
        → bind.filter_logs from_block to_block ≡ ok logs
        → AreOfChain chain 0 logs
        → Holds chain [] (events_of logs) (get_rollup_info_by_block_range bind from_block to_block)
    unfolding get_rollup_info_by_block_range order_at
    get_rollup_info_by_block_range-Holds from_block to_block logs answered of_chain =
        subst (λ r. Holds chain [] (events_of logs) (r >>= λ ls. process_logs bind ls ([], [])))
          (sym answered) (process_logs-Holds logs 0 [] [] of_chain (tt, tt, (λ m _. refl), tt))
