-- ===== src/Synchronizer/Handled.antt =====
-- etherman/etherman.go and synchronizer/synchronizer.go together: processBlockRange on the blocks
-- that readEvents returned.
use zkevm_bridge_service.Base.{
  ℕ, ◌≡◌, refl, ap, ◌∙◌, subst, List, [], map, ◌∷◌, ◌++◌, Option, none, some, some-injective,
  ok-injective, get_elem?, Result, ok, err, panic,
}
use zkevm_bridge_service.Bridgectrl.Keccak.{Keccak}
use zkevm_bridge_service.Storage.Chain.{DecodeToken}
use zkevm_bridge_service.Etherman.Types.{
  EventOrder, Order, BlockData, global_exit_roots_order, remove_l2_ger_order, deposits_order,
  claims_order, tokens_order, verify_batch_order, backward_let_order, unset_claim_order,
  set_claim_order, forward_let_order, other_order,
}
use zkevm_bridge_service.Etherman.Logs.{Log, Bindings}
use zkevm_bridge_service.Etherman.Events.{
  Event, ger_event, removed_event, deposit_event, claim_event, token_event, batch_event,
  unset_event, set_event, backward_event, forward_event, Orders, ordered,
  get_rollup_info_by_block_range,
}
use zkevm_bridge_service.Etherman.Events.Trace.{some_map, event_at, trace_of, trace}
use zkevm_bridge_service.Etherman.Events.Reading.{
  AreOfChain, Holds, events_of, get_rollup_info_by_block_range-Holds,
}
use zkevm_bridge_service.Synchronizer.World.{Config, World, Outcome, and_then}
use zkevm_bridge_service.Synchronizer.Events.{
  process_verify_batch, process_global_exit_root, process_deposit, process_claim,
  process_token_wrapped, process_remove_l2_global_exit_root, process_backward_let_sovereign,
  process_forward_let_sovereign, process_unset_claim_sovereign, process_set_claim_sovereign,
}
use zkevm_bridge_service.Synchronizer.Range.{on_event, note_ger, process_event, process_events}

module _ {D : Type 0} ⦃k : Keccak D⦄ (cfg : Config) (decode : DecodeToken) where
  -- The handler of an event.
  abbrev pub handle : BlockData D → ℕ → Event D → World D → Outcome D (Unit {0})
  handle b id (ger_event e) = λ w. process_global_exit_root cfg e id (note_ger e w)
  handle b id (removed_event e) = process_remove_l2_global_exit_root cfg e id
  handle b id (deposit_event e) = process_deposit cfg e id
  handle b id (claim_event e) = process_claim cfg e id
  handle b id (token_event e) = process_token_wrapped cfg decode e id
  handle b id (batch_event e) = process_verify_batch cfg e id
  handle b id (unset_event e) = process_unset_claim_sovereign cfg e id
  handle b id (set_event e) = process_set_claim_sovereign cfg e id b.block.block_number
  handle b id (backward_event e) = process_backward_let_sovereign cfg e id b.block.block_number
  handle b id (forward_event e) = process_forward_let_sovereign cfg e id b.block.block_number

  abbrev pub handle_all : BlockData D → ℕ → List (Event D) → World D → Outcome D (Unit {0})
  handle_all b id [] w = some (ok tt, w)
  handle_all b id (e ∷ es) w = and_then (handle b id e w) (handle_all b id es)

  on_event-handle :
      {E : Type 0} (f : E → Event D) (o : Option E) (handler : E → World D → Outcome D (Unit {0}))
      (b : BlockData D) (id : ℕ) (e : Event D)
      → some_map f o ≡ some e
      → ((x : E) → handler x ≡ handle b id (f x))
      → on_event o handler ≡ handle b id e
  on_event-handle f none handler b id e found same = cc
  on_event-handle f (some x) handler b id e found same =
      same x ∙ ap (handle b id) (some-injective found)

  process_event-handle :
      (b : BlockData D) (id : ℕ) (name : EventOrder) (pos : ℕ) (e : Event D)
      → event_at b name pos ≡ some e
      → process_event cfg decode b id name pos ≡ handle b id e
  unfolding process_event
  process_event-handle b id global_exit_roots_order pos e h =
      on_event-handle ger_event (get_elem? b.global_exit_roots pos) _ b id e h (λ x. refl)
  process_event-handle b id remove_l2_ger_order pos e h =
      on_event-handle removed_event (get_elem? b.remove_l2_ger pos) _ b id e h (λ x. refl)
  process_event-handle b id deposits_order pos e h =
      on_event-handle deposit_event (get_elem? b.deposits pos) _ b id e h (λ x. refl)
  process_event-handle b id claims_order pos e h =
      on_event-handle claim_event (get_elem? b.claims pos) _ b id e h (λ x. refl)
  process_event-handle b id tokens_order pos e h =
      on_event-handle token_event (get_elem? b.tokens pos) _ b id e h (λ x. refl)
  process_event-handle b id verify_batch_order pos e h =
      on_event-handle batch_event (get_elem? b.verified_batches pos) _ b id e h (λ x. refl)
  process_event-handle b id backward_let_order pos e h =
      on_event-handle backward_event (get_elem? b.backward_lets pos) _ b id e h (λ x. refl)
  process_event-handle b id unset_claim_order pos e h =
      on_event-handle unset_event (get_elem? b.unset_claims pos) _ b id e h (λ x. refl)
  process_event-handle b id set_claim_order pos e h =
      on_event-handle set_event (get_elem? b.set_claims pos) _ b id e h (λ x. refl)
  process_event-handle b id forward_let_order pos e h =
      on_event-handle forward_event (get_elem? b.forward_lets pos) _ b id e h (λ x. refl)
  process_event-handle b id other_order pos e h = cc

  uncons :
      {x : Option (Event D)} {e : Event D} {xs ys : List (Option (Event D))}
      → x ∷ xs ≡ some e ∷ ys
      → (x ≡ some e) × (xs ≡ ys)
  uncons h = (cc, cc)

  process_events-handle_all :
      (b : BlockData D) (id : ℕ) (os : List Order) (es : List (Event D)) (w : World D)
      → trace_of b os ≡ map some es
      → process_events cfg decode b id os w ≡ handle_all b id es w
  unfolding process_events
  process_events-handle_all b id [] [] w h = refl
  process_events-handle_all b id [] (e ∷ es) w h = cc
  process_events-handle_all b id (o ∷ os) [] w h = cc
  process_events-handle_all b id (o ∷ os) (e ∷ es) w h =
      let (here, later) = uncons h in
      ap (λ f. and_then (f w) (process_events cfg decode b id os))
        (process_event-handle b id o.name o.pos e here)
      ∙ ap (and_then (handle b id e w)) (λ i v. process_events-handle_all b id os es v later i)

  -- The blocks' share of these events, one block after the other.
  abbrev pub AreHandled : List (BlockData D) → List (Event D) → Type 0
  AreHandled [] es = es ≡ []
  AreHandled (b ∷ bs) es =
      (own rest : List (Event D)) × (es ≡ own ++ rest)
      × ((id : ℕ) (w : World D) → process_events cfg decode b id b.order w ≡ handle_all b id own w)
      × AreHandled bs rest

  map-some-append :
      (xs ys : List (Option (Event D))) (es : List (Event D))
      → xs ++ ys ≡ map some es
      → (own rest : List (Event D)) × (es ≡ own ++ rest)
        × (xs ≡ map some own)
        × (ys ≡ map some rest)
  map-some-append [] ys es h = ([], es, refl, refl, h)
  map-some-append (x ∷ xs) ys [] h = cc
  map-some-append (x ∷ xs) ys (e ∷ es) h =
      let (here, later) = uncons h in
      let (own, rest, split, left, right) = map-some-append xs ys es later in
      (e ∷ own, rest, ap (λ l. e ∷ l) split, cc, right)

  trace-AreHandled :
      (bs : List (BlockData D)) (es : List (Event D)) → trace bs ≡ map some es → AreHandled bs es
  trace-AreHandled [] [] h = refl
  trace-AreHandled [] (e ∷ es) h = cc
  trace-AreHandled (b ∷ bs) es h =
      let (own, rest, split, left, right) = map-some-append (trace_of b b.order) (trace bs) es h in
      (
        own,
        rest,
        split,
        (λ id w. process_events-handle_all b id b.order own w left),
        trace-AreHandled bs rest right,
      )

  Holds-AreHandled :
      (chain : ℕ → ℕ) (es : List (Event D)) (r : Result (List (BlockData D) × Orders))
      (bs : List (BlockData D)) (orders : Orders)
      → Holds chain [] (ok es) r
      → r ≡ ok (bs, orders)
      → AreHandled (ordered orders bs) es
  Holds-AreHandled chain es (ok s) bs orders (asc, h) same =
      trace-AreHandled (ordered orders bs) es (
        subst (λ (x : List (BlockData D) × Orders). trace (ordered x.1 x.0) ≡ map some es)
          (ok-injective same) h)
  Holds-AreHandled chain es (err x) bs orders h same = cc
  Holds-AreHandled chain es panic bs orders h same = cc

  -- The loop over the events of the blocks that readEvents returned for the logs of one chain, in
  -- the order of their blocks, where different blocks have different hashes: for each block it is
  -- the handlers of the block's share of the logs' events, in the order of the logs, where the
  -- shares of the blocks one after the other are all the events. In particular no place in the
  -- orders is without its event.
  pub process_events-AreHandled :
      (bind : Bindings D) (chain : ℕ → ℕ)
      → ((a b : ℕ) → chain a ≡ chain b → a ≡ b)
      → (from_block : ℕ) (to_block : Option ℕ) (logs : List (Log D))
      → bind.filter_logs from_block to_block ≡ ok logs
      → AreOfChain chain 0 logs
      → (es : List (Event D)) (bs : List (BlockData D)) (orders : Orders)
      → events_of bind logs ≡ ok es
      → get_rollup_info_by_block_range bind from_block to_block ≡ ok (bs, orders)
      → AreHandled (ordered orders bs) es
  process_events-AreHandled bind chain injective from_block to_block logs answered of_chain es bs
        orders parsed run =
      Holds-AreHandled chain es (get_rollup_info_by_block_range bind from_block to_block) bs orders
        (subst (λ r. Holds chain [] r (get_rollup_info_by_block_range bind from_block to_block))
          parsed
          (get_rollup_info_by_block_range-Holds bind chain injective from_block to_block logs
            answered of_chain))
        run
