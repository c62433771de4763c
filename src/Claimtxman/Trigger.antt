-- ===== src/Claimtxman/Trigger.antt =====
-- claimtxman/groups_trigger.go: which claims the next group takes.
use mathlib.Core.List.{append-nil, append_assoc}
use zkevm_bridge_service.Base.{
  sym, ◌↔◌, ℕ, zero, suc, ◌+◌, ◌≤◌, ◌<◌, ◌≡◌, refl, ◌⊎◌, inl, inr, List, [], ◌∷◌, ◌++◌, Bool, true,
  any, ltb, leb, ◌==◌, if◌then◌else◌, length, length-append, take, arith, Bool-cases,
}
use zkevm_bridge_service.Claimtxman.Types.{MonitoredTx, GroupingConfig}

-- `now.Sub(tx.CreatedAt) > period` for one of them.
unfoldable pub is_retained_period_surpassed : GroupingConfig → ℕ → List MonitoredTx → Bool
unfolding any
is_retained_period_surpassed cfg now txs =
    any (λ tx. ltb (tx.created_at + cfg.trigger_retained_claim_period) now) txs

-- The loop of chooseGroupTx: `group` is what it has taken.
unfoldable pub choose_loop : ℕ → List MonitoredTx → List MonitoredTx → List MonitoredTx
choose_loop limit group [] = group
choose_loop limit group (tx ∷ txs) =
    let rest = choose_loop limit (group ++ tx ∷ []) txs in
    if length (group ++ tx ∷ []) == limit then group ++ tx ∷ [] else rest

unfoldable pub choose_group_tx : GroupingConfig → List MonitoredTx → List MonitoredTx
unfolding choose_loop
choose_group_tx cfg txs = choose_loop cfg.max_number_of_claims_per_group [] txs

-- An empty list stands for the nil slice.
unfoldable pub choose_txs : GroupingConfig → ℕ → List MonitoredTx → List MonitoredTx
unfolding is_retained_period_surpassed choose_group_tx
choose_txs cfg now txs =
    if is_retained_period_surpassed cfg now txs
    then choose_group_tx cfg txs
    else if leb cfg.trigger_number_of_claims (length txs)
    then choose_group_tx cfg txs
    else []

-- The claims that one group may take: all of them if the limit is 0, which the loop never meets.
abbrev pub within_limit : ℕ → List MonitoredTx → List MonitoredTx
within_limit limit txs = if limit == 0 then txs else take limit txs

choose_loop-zero : (group txs : List MonitoredTx) → choose_loop 0 group txs ≡ group ++ txs
unfolding choose_loop
choose_loop-zero group [] = sym (append-nil group)
choose_loop-zero group (tx ∷ txs) = ground (
  arith,
  length-append group (tx ∷ []),
  choose_loop-zero (group ++ tx ∷ []) txs,
  append_assoc group (tx ∷ []) txs,
)

choose_loop-take :
    (limit n : ℕ) (group txs : List MonitoredTx)
    → length group + suc n ≡ limit
    → choose_loop limit group txs ≡ group ++ take (suc n) txs
unfolding choose_loop
choose_loop-take limit n group [] e = sym (append-nil group)
choose_loop-take limit zero group (tx ∷ txs) e = ground (arith, length-append group (tx ∷ []))
choose_loop-take limit (suc n) group (tx ∷ txs) e = ground (
  arith,
  length-append group (tx ∷ []),
  choose_loop-take limit n (group ++ tx ∷ []) txs,
  append_assoc group (tx ∷ []) (take (suc n) txs),
)

choose_group_tx-take :
    (cfg : GroupingConfig) (txs : List MonitoredTx)
    → choose_group_tx cfg txs ≡ within_limit cfg.max_number_of_claims_per_group txs
unfolding choose_group_tx
choose_group_tx-take cfg txs = limited cfg.max_number_of_claims_per_group
  where
    limited : (limit : ℕ) → choose_loop limit [] txs ≡ within_limit limit txs
    limited zero = choose_loop-zero [] txs
    limited (suc n) = ground (arith, choose_loop-take (suc n) n [] txs (omega arith))

-- A claim has waited longer than the retained period.
abbrev pub IsOverdue : GroupingConfig → ℕ → List MonitoredTx → Type 0
IsOverdue cfg now [] = ⊥
IsOverdue cfg now (tx ∷ txs) =
    (tx.created_at + cfg.trigger_retained_claim_period < now) ⊎ IsOverdue cfg now txs

is_retained_period_surpassed_iff :
    (cfg : GroupingConfig) (now : ℕ) (txs : List MonitoredTx)
    → (is_retained_period_surpassed cfg now txs ≡ true) ↔ IsOverdue cfg now txs
unfolding is_retained_period_surpassed any
is_retained_period_surpassed_iff cfg now [] = (λ e. cc, λ h. elim h [ ])
is_retained_period_surpassed_iff cfg now (tx ∷ txs) =
    let (there, back) = is_retained_period_surpassed_iff cfg now txs in
    elim (Bool-cases (ltb (tx.created_at + cfg.trigger_retained_claim_period) now)) [
      | inl overdue ↦ rw overdue (λ _. inl (ground arith), λ _. refl)
      | inr early ↦ rw early (
        λ e. inr (there e),
        λ h. back (elim h [ inl now_overdue ↦ absurd (ground arith) | inr later ↦ later ]),
      )
    ]

-- ChooseTxs takes the first claims, up to the limit of a group (all of them if the limit is 0),
-- when a claim is overdue or there are enough claims; otherwise it takes none.
pub choose_txs_lem :
    (cfg : GroupingConfig) (now : ℕ) (txs : List MonitoredTx)
    → (IsOverdue cfg now txs ⊎ (cfg.trigger_number_of_claims ≤ length txs)
        → choose_txs cfg now txs ≡ within_limit cfg.max_number_of_claims_per_group txs)
      × (¬ IsOverdue cfg now txs
          → length txs < cfg.trigger_number_of_claims
          → choose_txs cfg now txs ≡ [])
unfolding choose_txs
choose_txs_lem cfg now txs =
    let (overdue, surpassed) = is_retained_period_surpassed_iff cfg now txs in
    let enough = choose_group_tx-take cfg txs in
    elim (Bool-cases (is_retained_period_surpassed cfg now txs)) [
      | inl late ↦ rw late (λ _. enough, λ h _. absurd (h (overdue late)))
      | inr early ↦ rw early (
        λ h. elim h [ inl o ↦ cc (early, surpassed o) | inr many ↦ ground arith ],
        λ h few. ground arith,
      )
    ]
