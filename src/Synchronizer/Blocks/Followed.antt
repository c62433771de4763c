-- ===== src/Synchronizer/Blocks/Followed.antt =====
-- syncBlocks along a chain that stands still, whose calls are all answered.
use mathlib.Core.List.{Memᴰ, append_assoc}
use zkevm_bridge_service.Base.{
  ℕ, zero, suc, ◌+◌, ◌%◌, ◌≤◌, ◌<◌, ◌≡◌, ◌≢◌, refl, sym, ap, ◌∙◌, ◌⊎◌, inl, inr, subst, List, [],
  ◌∷◌, ◌++◌, Bool, true, false, ltb, leb, ◌==◌, Bool-cases, Option, none, some, Result, ok, err,
  u64_mod, keep, storage_not_found, arith,
}
use zkevm_bridge_service.Storage.Tables.{Block}
use zkevm_bridge_service.Etherman.Types.{BlockData}
use zkevm_bridge_service.Synchronizer.Blocks.{
  Chunks, Peers, Progress, Window, last_block_of, empty_block, with_genesis, note_synced, clip,
  check_blocks, next_last, next_window, report, process_window, sync_window, sync_loop,
  first_window, sync_blocks, return,
}
use zkevm_bridge_service.Synchronizer.Blocks.Ranges.{
  number, between, between-none, AreFrom, between-split, between-at, between-from, between-IsNewest,
  AreFrom-Memᴰ, between-AreFrom,
}

-- The chain's last block is `top`, and these of its blocks hold events; no block was reorganised,
-- and the blocks that were handed to processBlockRange are noted.
abbrev pub quiet : {D : Type 0} → ℕ → List (BlockData D) → Peers D (List (BlockData D))
quiet top events = record {
  latest_block = return top;
  header_by_number = λ n. return (n, 0);
  get_rollup_info_by_block_range = λ from to. return (between from to events);
  check_reorg = λ last first. return none;
  reset_state = λ n. return tt;
  get_previous_block = λ depth w. some (err storage_not_found, w);
  process_block_range = λ blocks w. some (ok tt, w ++ blocks);
  add_sync_status = λ percentage remaining synced. return tt;
}

-- ForceSyncChunk is off.
abbrev pub plain : ℕ → ℕ → ℕ → Chunks
plain gen chunk initial = record {
  gen_block_number = gen;
  sync_chunk_size = chunk;
  force_sync_chunk = false;
  initial_remaining_blocks = initial;
}

module _ {D : Type 0} (gen chunk initial top : ℕ) (events : List (BlockData D)) where
  abbrev cfg : Chunks
  cfg = plain gen chunk initial

  abbrev peers : Peers D (List (BlockData D))
  peers = quiet top events

  abbrev State : Type 0
  State = Progress (List (BlockData D))

  abbrev pub at_world : Bool → List (BlockData D) → State
  at_world synced w = record { synced = synced; world = w }

  abbrev window : ℕ → Window
  window m = record { last_known_block = top; from_block = suc m; to_block = suc m + chunk }

  -- A range from this block has one block in front of the blocks that come after it.
  abbrev IsAnchor : Block → Type 0
  IsAnchor b =
      (x : BlockData D) × (with_genesis cfg b.block_number (between b.block_number top events)
        ≡ ok (x ∷ between (suc b.block_number) top events))

  with_genesis-event :
      (x : BlockData D) (xs : List (BlockData D))
      → gen ≤ number x
      → with_genesis cfg (number x) (x ∷ xs) ≡ ok (x ∷ xs)
  unfolding with_genesis
  with_genesis-event x xs le = ground arith

  with_genesis-above : (n : ℕ) (xs : List (BlockData D)) → gen < n → with_genesis cfg n xs ≡ ok xs
  unfolding with_genesis
  with_genesis-above n xs le = ground arith

  event-IsAnchor :
      (x : BlockData D) → AreFrom gen events → Memᴰ x events → number x ≤ top → IsAnchor x.block
  event-IsAnchor x h there le = (
    x,
    ap (with_genesis cfg (number x)) (between-at top gen events x h there le)
        ∙ with_genesis-event x (between (suc (number x)) top events)
            (AreFrom-Memᴰ gen events x h there),
  )

  round_last :
      (last : Block) (m : ℕ) (w : List (BlockData D))
      → top < suc m + chunk
      → last.block_number ≤ top
      → IsAnchor last
      → sync_window peers cfg last (window m) (at_world false w)
        ≡ some (
          ok (last_block_of last (between (suc last.block_number) top events), none),
          at_world true (w ++ between (suc last.block_number) top events),
        )
  unfolding sync_window clip note_synced check_blocks process_window next_last
  round_last last m w near low (x, anchored) =
      let e1 : ltb top (suc m + chunk) ≡ true = ground arith in
      let e2 : ltb top last.block_number ≡ false = ground arith in
      let e3 : leb top top ≡ true = ground arith in rw e1 (rw e1 (rw e2 (rw anchored (rw e3 refl))))

  round_end :
      (last : Block) (m : ℕ) (w : List (BlockData D))
      → suc m + chunk ≡ top
      → gen ≤ m
      → sync_window peers cfg last (window m) (at_world false w)
        ≡ some (
          ok (last_block_of last (between (suc m) (suc m + chunk) events), none),
          at_world true (w ++ between (suc m) (suc m + chunk) events),
        )
  unfolding sync_window clip note_synced check_blocks process_window next_last
  round_end last m w reached low =
      let e1 : ltb top (suc m + chunk) ≡ false = ground arith in
      let e2 : ltb (suc m + chunk) (suc m) ≡ false = ground arith in
      let e3 = with_genesis-above (suc m) (between (suc m) (suc m + chunk) events) (omega arith) in
      let e4 : leb top (suc m + chunk) ≡ true = ground arith in rw e1 (rw e2 (rw e3 (rw e4 refl)))

  next_window-window :
      (m : ℕ) (last : Block)
      → suc (suc m + chunk) + chunk < u64_mod
      → next_window peers cfg false last (window m) ≡ window (suc m + chunk)
  unfolding next_window
  next_window-window m last small =
      let e1 : (suc m + chunk + 1) % u64_mod ≡ suc (suc m + chunk) = omega arith in
      let e2 : (suc (suc m + chunk) + chunk) % u64_mod ≡ suc (suc m + chunk) + chunk =
        omega arith in
      rw (e1, e2) refl

  round_more :
      (last : Block) (m : ℕ) (w : List (BlockData D))
      → suc m + chunk < top
      → gen ≤ m
      → initial ≢ 0
      → top + chunk < u64_mod
      → sync_window peers cfg last (window m) (at_world false w)
        ≡ some (
          ok (
            last_block_of last (between (suc m) (suc m + chunk) events),
            some (window (suc m + chunk)),
          ),
          at_world false (w ++ between (suc m) (suc m + chunk) events),
        )
  unfolding sync_window clip check_blocks process_window next_last report
  round_more last m w more low started small =
      let e1 : ltb top (suc m + chunk) ≡ false = ground arith in
      let e2 : ltb (suc m + chunk) (suc m) ≡ false = ground arith in
      let e3 = with_genesis-above (suc m) (between (suc m) (suc m + chunk) events) (omega arith) in
      let e4 : leb top (suc m + chunk) ≡ false = ground arith in
      let e5 : (initial == 0) ≡ false = ground arith in
      let last' = last_block_of last (between (suc m) (suc m + chunk) events) in
      rw e1 (
        rw e2 (
          rw e3 (
            rw e4 (
              rw e5 (
                ap
                  (λ (win : Window). some (
                    ok (last', some win),
                    at_world false (w ++ between (suc m) (suc m + chunk) events),
                  ))
                  (next_window-window m last' (omega arith)))))))

  -- Nothing is between the last block and this number.
  abbrev UpTo : Block → ℕ → Type 0
  UpTo last m =
      IsAnchor last × (last.block_number ≤ m) × (between (suc last.block_number) m events ≡ [])

  newest-UpTo :
      (last : Block) (m hi : ℕ)
      → AreFrom gen events
      → UpTo last m
      → m ≤ hi
      → hi ≤ top
      → UpTo (last_block_of last (between (suc m) hi events)) hi
  newest-UpTo last m hi h (anchor, low, empty) le le' =
      elim (between-IsNewest last (suc m) hi gen events h) [
        | inl none_new ↦
            subst (λ b. UpTo b hi) (ap (last_block_of last) (sym none_new))
              (
                anchor,
                omega arith,
                between-split (suc last.block_number) m hi gen events h (omega arith) le
                    ∙ ap (λ l. l ++ between (suc m) hi events) empty
                    ∙ none_new,
              )
        | inr (x, there, is, above, below, rest) ↦
            subst (λ b. UpTo b hi) (sym is) (event-IsAnchor x h there (omega arith), below, rest)
      ]

  -- The blocks behind a last one with nothing in between.
  rest-between :
      (last : Block) (m : ℕ)
      → AreFrom gen events
      → UpTo last m
      → m ≤ top
      → between (suc last.block_number) top events ≡ between (suc m) top events
  rest-between last m h (anchor, low, empty) le =
      between-split (suc last.block_number) m top gen events h (omega arith) le
      ∙ ap (λ l. l ++ between (suc m) top events) empty

  -- It ends synced, at a block with no event behind it, and these blocks were processed.
  abbrev pub Follows : List (BlockData D) → Option (Result Block × State) → Type 0
  Follows w r = (b : Block) × (r ≡ some (ok b, at_world true w)) × UpTo b top

  sync_loop-Follows :
      (fuel m : ℕ) (last : Block) (w : List (BlockData D))
      → AreFrom gen events
      → initial ≢ 0
      → top + chunk < u64_mod
      → gen ≤ m
      → m ≤ top
      → top < fuel + m
      → UpTo last m
      → Follows
          (w ++ between (suc m) top events)
          (sync_loop peers cfg fuel last (window m) (at_world false w))
  unfolding sync_loop
  sync_loop-Follows zero m last w h started small low le enough up =
      let absurd : ⊥ = omega arith in elim absurd [ ]
  sync_loop-Follows (suc fuel) m last w h started small low le enough up =
      elim (Bool-cases (ltb top (suc m + chunk))) [
        | inl near ↦
            let (anchor, below, empty) = up in
            let n = last.block_number in
            let own : UpTo last n = (anchor, omega arith, between-none n events) in
            (
              last_block_of last (between (suc n) top events),
              rw (round_last last m w (ground arith) (omega arith) anchor) (
                  ap
                    (λ l. some (
                      ok (last_block_of last (between (suc n) top events)),
                      at_world true (w ++ l),
                    ))
                    (rest-between last m h up le)),
              newest-UpTo last n top h own (omega arith) (omega arith),
            )
        | inr far ↦ elim (Bool-cases (suc m + chunk == top)) [
          | inl reached ↦
              let is : suc m + chunk ≡ top = ground arith in
              let last' = last_block_of last (between (suc m) (suc m + chunk) events) in
              (
                last',
                rw (round_end last m w is low)
                    (ap (λ t. some (ok last', at_world true (w ++ between (suc m) t events))) is),
                subst (UpTo last') is
                    (newest-UpTo last m (suc m + chunk) h up (omega arith) (omega arith)),
              )
          | inr below ↦
              let more : suc m + chunk < top = ground arith in
              let to = suc m + chunk in
              let last' = last_block_of last (between (suc m) to events) in
              let w' = w ++ between (suc m) to events in
              let (b, run, ended) =
                sync_loop-Follows fuel to last' w' h started small (omega arith) (omega arith)
                  (omega arith) (newest-UpTo last m to h up (omega arith) (omega arith)) in
              (
                b,
                rw (round_more last m w more low started small) (
                    run
                    ∙ ap (λ l. some (ok b, at_world true l))
                        (append_assoc w (between (suc m) to events) (between (suc to) top events)
                          ∙ ap (λ l. w ++ l)
                              (sym (
                                between-split (suc m) to top gen events h (omega arith)
                                  (omega arith))))),
                ended,
              )
        ]
      ]

  with_genesis-empty :
      (xs : List (BlockData D))
      → AreFrom (suc gen) xs
      → with_genesis cfg gen xs ≡ ok (empty_block ∷ xs)
  unfolding with_genesis
  with_genesis-empty [] h = ground arith
  with_genesis-empty (x ∷ xs) (above, h) = ground arith

  -- The genesis block, with events or without.
  genesis-anchored :
      (xs : List (BlockData D))
      → AreFrom gen xs
      → gen ≤ top
      → (y : BlockData D) × (with_genesis cfg gen (between gen top xs)
          ≡ ok (y ∷ between (suc gen) top xs))
  unfolding keep
  genesis-anchored [] h le = (empty_block, with_genesis-empty [] tt)
  genesis-anchored (x ∷ xs) (above, h) le = elim (Bool-cases (number x == gen)) [
    | inl same ↦
        let is : number x ≡ gen = ground arith in
        let at_x = between-at top gen (x ∷ xs) x (above, h) (Memᴰ.head refl) (omega arith) in
        (
          x,
          subst
              (λ n.
                with_genesis cfg n (between n top (x ∷ xs)) ≡ ok (x ∷ between (suc n) top (x ∷ xs)))
              is
              (ap (with_genesis cfg (number x)) at_x
                ∙ with_genesis-event x (between (suc (number x)) top (x ∷ xs)) above),
        )
    | inr differ ↦
        let higher : AreFrom (suc gen) (x ∷ xs) = ((ground arith), h) in
        (
          empty_block,
          ap (with_genesis cfg gen) (
                between-from gen (suc gen) top (suc gen) (x ∷ xs) higher (omega arith)
                  (omega arith))
              ∙ with_genesis-empty (between (suc gen) top (x ∷ xs))
                  (between-AreFrom (suc gen) top (suc gen) (x ∷ xs) higher),
        )
  ]

  -- The block that a synchronization goes on from: the genesis block, or one with events.
  abbrev pub IsStart : Block → Type 0
  IsStart last = (last.block_number ≡ gen) ⊎ ((x : BlockData D) × Memᴰ x events × (last ≡ x.block))

  start-IsAnchor :
      (last : Block)
      → AreFrom gen events
      → gen ≤ last.block_number
      → last.block_number ≤ top
      → IsStart last
      → IsAnchor last
  start-IsAnchor last h low le (inl is) =
      let (y, anchored) = genesis-anchored events h (omega arith) in
      (
        y,
        subst (λ n. with_genesis cfg n (between n top events) ≡ ok (y ∷ between (suc n) top events))
            (sym is) anchored,
      )
  start-IsAnchor last h low le (inr (x, there, is)) =
      subst IsAnchor (sym is)
        (event-IsAnchor x h there (subst (λ (b : Block). b.block_number ≤ top) is le))

  -- Not synced yet, without ForceSyncChunk, from the genesis block or a block with events, along a
  -- chain that stands still and loses no block, where every call is answered: with fuel for one
  -- round for each block that is left, syncBlocks ends and is synced then. It has handed to
  -- processBlockRange each block with events after the one it started from, once and in the order
  -- of the chain, and ends at a block that no block with events comes after. The counts of blocks
  -- stay below 2 ^ 64, and at the start some blocks remained.
  pub sync_blocks-Follows :
      (fuel : ℕ) (last : Block) (w : List (BlockData D))
      → AreFrom gen events
      → initial ≢ 0
      → suc top + chunk < u64_mod
      → gen ≤ last.block_number
      → last.block_number ≤ top
      → IsStart last
      → top < fuel + last.block_number
      → Follows
          (w ++ between (suc last.block_number) top events)
          (sync_blocks peers cfg fuel last (at_world false w))
  unfolding sync_blocks first_window
  sync_blocks-Follows fuel last w h started small low le start enough =
      let n = last.block_number in
      let e1 : (n + 1) % u64_mod ≡ suc n = omega arith in
      let e2 : (suc n + chunk) % u64_mod ≡ suc n + chunk = omega arith in
      rw (e1, e2)
        (sync_loop-Follows fuel n last w h started (omega arith) low le enough
          (start-IsAnchor last h low le start, omega arith, between-none n events))
