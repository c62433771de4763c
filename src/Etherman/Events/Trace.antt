-- ===== src/Etherman/Events/Trace.antt =====
-- etherman/etherman.go: the events that a block holds, in their order.
use zkevm_bridge_service.Base.{
  ℕ, zero, suc, ◌-◌, ◌≡◌, refl, ap, inl, inr, subst, List, [], ◌∷◌, ◌++◌, Option-cases, Option,
  none, some, length, get_elem?, get_elem?-append_length, length-append, arith,
}
use zkevm_bridge_service.Etherman.Types.{
  Order, EventOrder, BlockData, global_exit_roots_order, remove_l2_ger_order, deposits_order,
  claims_order, tokens_order, verify_batch_order, backward_let_order, unset_claim_order,
  set_claim_order, forward_let_order, other_order,
}
use zkevm_bridge_service.Etherman.Events.{
  Event, ger_event, removed_event, deposit_event, claim_event, token_event, batch_event,
  unset_event, set_event, backward_event, forward_event, append_to, order_of,
}

abbrev pub some_map : {A B : Type 0} → (A → B) → Option A → Option B
some_map f none = none
some_map f (some a) = some (f a)

-- What was found at each place.
abbrev pub AllSome : {A : Type 0} → List (Option A) → Type 0
AllSome [] = Unit {0}
AllSome (none ∷ xs) = ⊥
AllSome (some a ∷ xs) = AllSome xs

pub AllSome-left : {A : Type 0} (xs ys : List (Option A)) → AllSome (xs ++ ys) → AllSome xs
AllSome-left [] ys h = tt
AllSome-left (none ∷ xs) ys h = elim h [ ]
AllSome-left (some a ∷ xs) ys h = AllSome-left xs ys h

pub AllSome-right : {A : Type 0} (xs ys : List (Option A)) → AllSome (xs ++ ys) → AllSome ys
AllSome-right [] ys h = h
AllSome-right (none ∷ xs) ys h = elim h [ ]
AllSome-right (some a ∷ xs) ys h = AllSome-right xs ys h

pub AllSome-append :
    {A : Type 0} (xs ys : List (Option A)) → AllSome xs → AllSome ys → AllSome (xs ++ ys)
AllSome-append [] ys h h' = h'
AllSome-append (none ∷ xs) ys h h' = elim h [ ]
AllSome-append (some a ∷ xs) ys h h' = AllSome-append xs ys h h'

-- A place that held something still does behind an append.
get-append :
    {A B : Type 0} (f : A → B) (xs : List A) (x : A) (i : ℕ) (b : B)
    → some_map f (get_elem? xs i) ≡ some b
    → some_map f (get_elem? (xs ++ x ∷ []) i) ≡ some b
get-append f [] x i b h = cc
get-append f (y ∷ xs) x zero b h = h
get-append f (y ∷ xs) x (suc i) b h = get-append f xs x i b h

get-last :
    {A : Type 0} (xs : List A) (x : A)
    → get_elem? (xs ++ x ∷ []) (length (xs ++ x ∷ []) - 1) ≡ some x
get-last xs x = rw (last_place xs x) (get_elem?-append_length xs x [])
  where
    last_place : {A : Type 0} (xs : List A) (x : A) → length (xs ++ x ∷ []) - 1 ≡ length xs
    last_place xs x = omega (arith, length-append xs (x ∷ []))

module _ {D : Type 0} where
  -- The event at a place of the order.
  abbrev pub event_at : BlockData D → EventOrder → ℕ → Option (Event D)
  event_at b global_exit_roots_order pos = some_map ger_event (get_elem? b.global_exit_roots pos)
  event_at b remove_l2_ger_order pos = some_map removed_event (get_elem? b.remove_l2_ger pos)
  event_at b deposits_order pos = some_map deposit_event (get_elem? b.deposits pos)
  event_at b claims_order pos = some_map claim_event (get_elem? b.claims pos)
  event_at b tokens_order pos = some_map token_event (get_elem? b.tokens pos)
  event_at b verify_batch_order pos = some_map batch_event (get_elem? b.verified_batches pos)
  event_at b backward_let_order pos = some_map backward_event (get_elem? b.backward_lets pos)
  event_at b unset_claim_order pos = some_map unset_event (get_elem? b.unset_claims pos)
  event_at b set_claim_order pos = some_map set_event (get_elem? b.set_claims pos)
  event_at b forward_let_order pos = some_map forward_event (get_elem? b.forward_lets pos)
  event_at b other_order pos = none

  abbrev pub trace_of : BlockData D → List Order → List (Option (Event D))
  trace_of b [] = []
  trace_of b (o ∷ os) = event_at b o.name o.pos ∷ trace_of b os

  -- The events of the blocks in their order.
  abbrev pub trace : List (BlockData D) → List (Option (Event D))
  trace [] = []
  trace (b ∷ bs) = trace_of b b.order ++ trace bs

  event_at-append_to :
      (e : Event D) (b : BlockData D) (name : EventOrder) (pos : ℕ) (x : Event D)
      → event_at b name pos ≡ some x
      → event_at (append_to e b) name pos ≡ some x
  unfolding append_to
  event_at-append_to (ger_event e) b global_exit_roots_order pos x h =
      get-append ger_event b.global_exit_roots e pos x h
  event_at-append_to (ger_event e) b other pos x h = h
  event_at-append_to (removed_event e) b remove_l2_ger_order pos x h =
      get-append removed_event b.remove_l2_ger e pos x h
  event_at-append_to (removed_event e) b other pos x h = h
  event_at-append_to (deposit_event e) b deposits_order pos x h =
      get-append deposit_event b.deposits e pos x h
  event_at-append_to (deposit_event e) b other pos x h = h
  event_at-append_to (claim_event e) b claims_order pos x h =
      get-append claim_event b.claims e pos x h
  event_at-append_to (claim_event e) b other pos x h = h
  event_at-append_to (token_event e) b tokens_order pos x h =
      get-append token_event b.tokens e pos x h
  event_at-append_to (token_event e) b other pos x h = h
  event_at-append_to (batch_event e) b verify_batch_order pos x h =
      get-append batch_event b.verified_batches e pos x h
  event_at-append_to (batch_event e) b other pos x h = h
  event_at-append_to (unset_event e) b unset_claim_order pos x h =
      get-append unset_event b.unset_claims e pos x h
  event_at-append_to (unset_event e) b other pos x h = h
  event_at-append_to (set_event e) b set_claim_order pos x h =
      get-append set_event b.set_claims e pos x h
  event_at-append_to (set_event e) b other pos x h = h
  event_at-append_to (backward_event e) b backward_let_order pos x h =
      get-append backward_event b.backward_lets e pos x h
  event_at-append_to (backward_event e) b other pos x h = h
  event_at-append_to (forward_event e) b forward_let_order pos x h =
      get-append forward_event b.forward_lets e pos x h
  event_at-append_to (forward_event e) b other pos x h = h

  pub event_at-order_of :
      (e : Event D) (b : BlockData D)
      → let o = order_of e (append_to e b) in event_at (append_to e b) o.name o.pos ≡ some e
  unfolding append_to order_of
  event_at-order_of (ger_event e) b = ap (some_map ger_event) (get-last b.global_exit_roots e)
  event_at-order_of (removed_event e) b = ap (some_map removed_event) (get-last b.remove_l2_ger e)
  event_at-order_of (deposit_event e) b = ap (some_map deposit_event) (get-last b.deposits e)
  event_at-order_of (claim_event e) b = ap (some_map claim_event) (get-last b.claims e)
  event_at-order_of (token_event e) b = ap (some_map token_event) (get-last b.tokens e)
  event_at-order_of (batch_event e) b = ap (some_map batch_event) (get-last b.verified_batches e)
  event_at-order_of (unset_event e) b = ap (some_map unset_event) (get-last b.unset_claims e)
  event_at-order_of (set_event e) b = ap (some_map set_event) (get-last b.set_claims e)
  event_at-order_of (backward_event e) b = ap (some_map backward_event) (get-last b.backward_lets e)
  event_at-order_of (forward_event e) b = ap (some_map forward_event) (get-last b.forward_lets e)

  -- One order: its event, and the rest.
  pub trace_of-append_to :
      (e : Event D) (b : BlockData D) (os : List Order)
      → AllSome (trace_of b os)
      → trace_of (append_to e b) os ≡ trace_of b os
  trace_of-append_to e b [] h = refl
  trace_of-append_to e b (o ∷ os) h = elim (Option-cases (event_at b o.name o.pos)) [
    | inl gone ↦ elim (subst (λ x. AllSome (x ∷ trace_of b os)) gone h) [ ]
    | inr (a, found) ↦
        rw
          (
            event_at-append_to e b o.name o.pos a found,
            found,
            trace_of-append_to e b os (subst (λ x. AllSome (x ∷ trace_of b os)) found h),
          )
          refl
  ]

  pub trace_of-snoc :
      (b : BlockData D) (os : List Order) (o : Order)
      → trace_of b (os ++ o ∷ []) ≡ trace_of b os ++ event_at b o.name o.pos ∷ []
  trace_of-snoc b [] o = refl
  trace_of-snoc b (x ∷ os) o = ap (λ t. event_at b x.name x.pos ∷ t) (trace_of-snoc b os o)
