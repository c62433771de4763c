-- ===== src/Claimtxman/Start/Runs.antt =====
-- What the loop of Start may have done.
use mathlib.Core.List.{Memᴰ}
use zkevm_bridge_service.Base.{
  ℕ, suc, ◌≡◌, refl, sym, ap, ◌∙◌, subst, ◌⊎◌, inl, inr, List, [], ◌∷◌, ◌++◌, true, false, ◌&&◌,
  not, Bool-cases, ◌==◌, Result, ok, err, panic, arith,
}
use zkevm_bridge_service.Bridgectrl.Keccak.{Keccak}
use zkevm_bridge_service.Storage.Tables.{GlobalExitRoot}
use zkevm_bridge_service.Claimtxman.NonceCache.{NonceStore}
use zkevm_bridge_service.Claimtxman.Deposits.{ClaimTxManager, Nodes, Claiming}
use zkevm_bridge_service.Claimtxman.Deposits.Selected.{AreAll, AreAll-append}
use zkevm_bridge_service.Claimtxman.Start.{
  Settings, M, Work, Asked, is_synced, note_network, after_update, receive_ger, compressor_tick,
  monitor_tick, monitoring, call_started, run_called, Steps, none_yet, synced, received, compressed,
  monitored, read, processed,
}

module _ ⦃k : Keccak ℕ⦄ (store : NonceStore) (tm : ClaimTxManager) (nodes : Nodes)
    (cfg : Settings) where
  abbrev N : Type 0
  N = M store tm nodes cfg

  -- The exit roots that came through the channel, the last one first.
  abbrev pub received_gers : {m n : N} → Steps store tm nodes cfg m n → List (GlobalExitRoot ℕ)
  received_gers none_yet = []
  received_gers (synced net_id steps) = received_gers steps
  received_gers (received ger steps) = ger ∷ received_gers steps
  received_gers (compressed steps) = received_gers steps
  received_gers (monitored asked steps) = received_gers steps
  received_gers (read others e steps) = received_gers steps
  received_gers (processed earlier ger later e steps) = received_gers steps

  -- After these rounds of MonitorTxs, the last one first.
  abbrev pub monitored_by :
      List (Asked store tm nodes cfg) → Work store tm nodes cfg → Work store tm nodes cfg
  monitored_by [] z = z
  monitored_by (asked ∷ rounds) z = monitoring store tm nodes cfg asked (monitored_by rounds z)

  -- No goroutine is under way.
  abbrev pub IsCalm : N → Type 0
  IsCalm n = (n.started ≡ 0) × (n.called ≡ [])

  -- Both networks are synced, or no goroutine was started and nothing but MonitorTxs has run.
  abbrev pub IsIdle : N → N → Type 0
  IsIdle m n =
      ((n.l1_synced ≡ true) × (n.l2_synced ≡ true))
      ⊎ (IsCalm n
          × ((rounds : List (Asked store tm nodes cfg)) × ((n.claiming, n.groups)
                ≡ monitored_by rounds (m.claiming, m.groups))))

  -- The loop's exit root came through the channel, or is still the one of before, which is not
  -- processed and which no goroutine will read.
  abbrev IsCurrent : List (GlobalExitRoot ℕ) → N → Type 0
  IsCurrent gers n =
      Memᴰ n.ger gers ⊎ ((n.started ≡ 0) × (n.ger.global_exit_root ≡ n.latest_processed_ger))

  abbrev AreReceived : List (GlobalExitRoot ℕ) → List (GlobalExitRoot ℕ) → Type 0
  AreReceived gers = AreAll (λ g. Memᴰ g gers)

  abbrev IsSound : N → List (GlobalExitRoot ℕ) → N → Type 0
  IsSound m gers n = IsIdle m n × IsCurrent gers n × AreReceived gers n.called

  AreReceived-more :
      (g : GlobalExitRoot ℕ) (gers gs : List (GlobalExitRoot ℕ))
      → AreReceived gers gs
      → AreReceived (g ∷ gers) gs
  AreReceived-more g gers [] h = tt
  AreReceived-more g gers (x ∷ gs) (h, hs) = (Memᴰ.tail h, AreReceived-more g gers gs hs)

  AreReceived-without :
      (gers earlier : List (GlobalExitRoot ℕ)) (g : GlobalExitRoot ℕ)
      (later : List (GlobalExitRoot ℕ))
      → AreReceived gers (earlier ++ g ∷ later)
      → AreReceived gers (earlier ++ later)
  AreReceived-without gers [] g later (h, hs) = hs
  AreReceived-without gers (x ∷ earlier) g later (h, hs) =
      (h, AreReceived-without gers earlier g later hs)

  not_empty :
      (earlier : List (GlobalExitRoot ℕ)) (g : GlobalExitRoot ℕ) (later : List (GlobalExitRoot ℕ))
      → earlier ++ g ∷ later ≡ []
      → ⊥
  not_empty [] g later e = cc
  not_empty (x ∷ earlier) g later e = cc

  note_network-IsSound :
      (m n : N) (gers : List (GlobalExitRoot ℕ)) (net_id : ℕ)
      → IsSound m gers n
      → IsSound m gers (note_network store tm nodes cfg net_id n)
  unfolding note_network
  note_network-IsSound m n gers net_id (inl (l1, l2), current, begun) =
      (inl (ground arith, ground arith), current, begun)
  note_network-IsSound m n gers net_id (inr idle, current, begun) = (inr idle, current, begun)

  after_update-IsSound :
      (m n : N) (gers : List (GlobalExitRoot ℕ)) (z : Result (Unit {0}) × Claiming store tm nodes)
      → (n.l1_synced ≡ true) × (n.l2_synced ≡ true)
      → Memᴰ n.ger gers
      → AreReceived gers n.called
      → IsSound m gers (after_update store tm nodes cfg n z)
  after_update-IsSound m n gers (ok _, w) up current begun =
      elim (Bool-cases cfg.grouping_enabled) [
        | inl grouped ↦ rw grouped (inl up, inl current, begun)
        | inr single ↦ rw single (inl up, inl current, begun)
      ]
  after_update-IsSound m n gers (err e, w) up current begun = (inl up, inl current, begun)
  after_update-IsSound m n gers (panic, w) up current begun = (inl up, inl current, begun)

  receive_ger-IsSound :
      (m n : N) (gers : List (GlobalExitRoot ℕ)) (ger : GlobalExitRoot ℕ)
      → IsSound m gers n
      → IsSound m (ger ∷ gers) (receive_ger store tm nodes cfg ger n)
  unfolding receive_ger
  receive_ger-IsSound m n gers ger (idle, current, begun) =
      elim (Bool-cases (is_synced store tm nodes cfg n)) [
        | inl up ↦ rw up (
            after_update-IsSound m (record n { ger = ger }) (ger ∷ gers) _
              (ground arith, ground arith) (Memᴰ.head refl)
              (AreReceived-more ger gers n.called begun))
        | inr down ↦ rw down (idle, inl (Memᴰ.head refl), AreReceived-more ger gers n.called begun)
      ]

  compressor_tick-IsSound :
      (m n : N) (gers : List (GlobalExitRoot ℕ))
      → IsSound m gers n
      → IsSound m gers (compressor_tick store tm nodes cfg n)
  unfolding compressor_tick
  compressor_tick-IsSound m n gers (idle, inl current, begun) =
      elim (Bool-cases (
        is_synced store tm nodes cfg n
        && cfg.grouping_enabled
        && not (n.ger.global_exit_root == n.latest_processed_ger))) [
          | inl due ↦ rw due (inl (ground arith, ground arith), inl current, begun)
          | inr calm ↦ rw calm (idle, inl current, begun)
        ]
  compressor_tick-IsSound m n gers (idle, inr (none_started, done), begun) =
      let calm : (is_synced store tm nodes cfg n
            && cfg.grouping_enabled
            && not (n.ger.global_exit_root == n.latest_processed_ger))
          ≡ false =
        ground arith in
      rw calm (idle, inr (none_started, done), begun)

  monitor_tick-IsSound :
      (m n : N) (gers : List (GlobalExitRoot ℕ)) (asked : Asked store tm nodes cfg)
      → IsSound m gers n
      → IsSound m gers (monitor_tick store tm nodes cfg asked n)
  unfolding monitor_tick
  monitor_tick-IsSound m n gers asked (inl up, current, begun) = (inl up, current, begun)
  monitor_tick-IsSound m n gers asked (inr (calm, (rounds, same)), current, begun) =
      (inr (calm, (asked ∷ rounds, ap (monitoring store tm nodes cfg asked) same)), current, begun)

  call_started-IsSound :
      (m n : N) (gers : List (GlobalExitRoot ℕ)) (others : ℕ)
      → n.started ≡ suc others
      → IsSound m gers n
      → IsSound m gers (call_started store tm nodes cfg others n)
  unfolding call_started
  call_started-IsSound m n gers others e (inl up, inl current, begun) =
      (inl up, inl current, AreAll-append _ n.called (n.ger ∷ []) begun (current, tt))
  call_started-IsSound m n gers others e (inl up, inr (none_started, done), begun) =
      absurd (omega (arith, e, none_started))
  call_started-IsSound m n gers others e (inr ((none_started, _), _), current, begun) =
      absurd (omega (arith, e, none_started))

  run_called-IsSound :
      (m n : N) (gers earlier : List (GlobalExitRoot ℕ)) (ger : GlobalExitRoot ℕ)
      (later : List (GlobalExitRoot ℕ))
      → n.called ≡ earlier ++ ger ∷ later
      → IsSound m gers n
      → IsSound m gers (run_called store tm nodes cfg earlier ger later n)
  unfolding run_called
  run_called-IsSound m n gers earlier ger later e (inl up, current, begun) = (
    inl up,
    current,
    AreReceived-without gers earlier ger later (subst (AreReceived gers) e begun),
  )
  run_called-IsSound m n gers earlier ger later e (inr ((_, nothing), _), current, begun) =
      absurd (not_empty earlier ger later (sym e ∙ nothing))

  Steps-IsSound :
      {m n : N} (steps : Steps store tm nodes cfg m n)
      → IsCalm m
      → m.ger.global_exit_root ≡ m.latest_processed_ger
      → IsSound m (received_gers steps) n
  Steps-IsSound {m} none_yet (alone, empty) same =
      (inr ((alone, empty), ([], refl)), inr (alone, same), subst (AreReceived []) (sym empty) tt)
  Steps-IsSound {m} (synced {n} net_id steps) calm same =
      note_network-IsSound m n (received_gers steps) net_id (Steps-IsSound steps calm same)
  Steps-IsSound {m} (received {n} ger steps) calm same =
      receive_ger-IsSound m n (received_gers steps) ger (Steps-IsSound steps calm same)
  Steps-IsSound {m} (compressed {n} steps) calm same =
      compressor_tick-IsSound m n (received_gers steps) (Steps-IsSound steps calm same)
  Steps-IsSound {m} (monitored {n} asked steps) calm same =
      monitor_tick-IsSound m n (received_gers steps) asked (Steps-IsSound steps calm same)
  Steps-IsSound {m} (read {n} others e steps) calm same =
      call_started-IsSound m n (received_gers steps) others e (Steps-IsSound steps calm same)
  Steps-IsSound {m} (processed {n} earlier ger later e steps) calm same =
      run_called-IsSound m n (received_gers steps) earlier ger later e
        (Steps-IsSound steps calm same)

  -- After any steps of Start from a state without goroutines whose exit root is the one that was
  -- processed last, as at the start: each exit root that a goroutine has read and waits with came
  -- through the channel, and until both networks are synced no goroutine is under way and the tables
  -- (with the groups) and nonces are as rounds of MonitorTxs alone left them.
  pub Steps-IsIdle :
      {m n : N} (steps : Steps store tm nodes cfg m n)
      → IsCalm m
      → m.ger.global_exit_root ≡ m.latest_processed_ger
      → AreAll (λ g. Memᴰ g (received_gers steps)) n.called × IsIdle m n
  Steps-IsIdle steps calm same =
      let (idle, current, begun) = Steps-IsSound steps calm same in (begun, idle)
