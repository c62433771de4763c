-- ===== src/Autoclaim/Groups.antt =====
-- claimGrouped: how the claims are split and which of them are sent.
use zkevm_bridge_service.Base.{
  ℕ, zero, suc, ◌≤◌, ◌<◌, ◌≡◌, refl, sym, ap, ◌∙◌, inl, inr, ◌⊎◌, List, [], ◌∷◌, ◌++◌, length,
  length-append, take, drop, keep, ltb, ◌==◌, Bool, false, Bool-cases, if◌then◌else◌, none, some,
  ok, err, panic, Error, Result, ◌>>=◌, map, arith,
}
use zkevm_bridge_service.Autoclaim.{with_chunk, array_splitter, Chain, send_chunks}

abbrev pub flatten : {A : Type 0} → List (List A) → List A
flatten [] = []
flatten (xs ∷ xss) = xs ++ flatten xss

-- Each chunk has a claim and at most `size` of them.
abbrev pub AreChunks : {A : Type 0} → ℕ → List (List A) → Type 0
AreChunks size [] = Unit {0}
AreChunks size (c ∷ cs) = (0 < length c) × (length c ≤ size) × AreChunks size cs

module _ {A : Type 0} where
  take-drop : (n : ℕ) (xs : List A) → take n xs ++ drop n xs ≡ xs
  take-drop zero xs = refl
  take-drop (suc n) [] = refl
  take-drop (suc n) (x ∷ xs) = ap (λ l. x ∷ l) (take-drop n xs)

  length-take : (n : ℕ) (xs : List A) → n ≤ length xs → length (take n xs) ≡ n
  length-take zero xs h = refl
  length-take (suc n) [] h = absurd (omega arith)
  length-take (suc n) (x ∷ xs) h = ap suc (length-take n xs (omega arith))

  wider : (m n : ℕ) (cs : List (List A)) → m ≤ n → AreChunks m cs → AreChunks n cs
  wider m n [] le all = tt
  wider m n (c ∷ cs) le (some_claim, few, all) = (some_claim, omega arith, wider m n cs le all)

  -- For a positive size, with a round of fuel for each element, arraySplitter ends; its chunks are
  -- not empty, hold at most `size` elements, and make up the slice in its order.
  pub array_splitter-AreChunks :
      (fuel : ℕ) (arr : List A) (size : ℕ)
      → 0 < size
      → length arr ≤ fuel
      → (chunks : List (List A)) × (array_splitter fuel arr size ≡ some chunks)
        × (flatten chunks ≡ arr)
        × AreChunks size chunks
  unfolding array_splitter
  array_splitter-AreChunks fuel [] size pos enough = ([], refl, refl, tt)
  array_splitter-AreChunks zero (x ∷ xs) size pos enough = absurd (omega arith)
  array_splitter-AreChunks (suc fuel) (x ∷ xs) size pos enough =
      let arr = x ∷ xs in
      let n = if ltb (length arr) size then length arr else size in
      let small : (0 < n) × (n ≤ length arr) × (n ≤ size) = ground arith in
      let parts = take-drop n arr in
      let taken = length-take n arr small.1 in
      let left : length (drop n arr) ≤ fuel =
        omega (arith, ap length parts, length-append (take n arr) (drop n arr), taken) in
      let (chunks, run, whole, all) = array_splitter-AreChunks fuel (drop n arr) n small.0 left in
      (
        take n arr ∷ chunks,
        ap (with_chunk (take n arr)) run,
        ap (λ l. take n arr ++ l) whole ∙ parts,
        (omega (arith, taken), omega (arith, taken), wider n size chunks small.2 all),
      )

  -- With the size 0 no fuel is enough for a slice that is not empty: the loop does not end.
  pub array_splitter-zero : (fuel : ℕ) (x : A) (xs : List A) → array_splitter fuel (x ∷ xs) 0 ≡ none
  unfolding array_splitter
  array_splitter-zero zero x xs = refl
  array_splitter-zero (suc fuel) x xs =
      let none_fit : (if ltb (length (x ∷ xs)) 0 then length (x ∷ xs) else 0) ≡ 0 = ground arith in
      let arr = x ∷ xs in
      ap (λ n. with_chunk (take n arr) (array_splitter fuel (drop n arr) n)) none_fit
      ∙ ap (with_chunk []) (array_splitter-zero fuel x xs)

  keep-append : (p : A → Bool) (xs ys : List A) → keep p (xs ++ ys) ≡ keep p xs ++ keep p ys
  unfolding keep
  keep-append p [] ys = refl
  keep-append p (x ∷ xs) ys = elim (Bool-cases (p x)) [
    | inl kept ↦ rw (kept, keep-append p xs ys) refl
    | inr left ↦ rw (left, keep-append p xs ys) refl
  ]

module _ {B P : Type 0} (chain : Chain B P) where
  -- The compression of a chunk's claims, and their sending.
  abbrev pub send_chunk : List (B × P) → Result ℕ
  send_chunk chunk =
      chain.compress_claim_call (keep chain.is_claimable chunk) >>= chain.send_compressed_claims

  -- Every chunk has a claimable bridge, and its claims are compressed and sent without an error.
  abbrev pub AreSent : List (List (B × P)) → Type 0
  AreSent [] = Unit {0}
  AreSent (c ∷ cs) =
      (0 < length (keep chain.is_claimable c))
      × ((tx_hash : ℕ) × (send_chunk c ≡ ok tx_hash))
      × AreSent cs

  -- Why the loop ends before these chunks: there is none, the first has no claimable bridge, which
  -- is no error, or its compression or sending fails, with its error.
  abbrev pub EndsBefore : List (List (B × P)) → Result (Unit {0}) → Type 0
  EndsBefore [] r = r ≡ ok tt
  EndsBefore (c ∷ cs) r =
      ((length (keep chain.is_claimable c) ≡ 0) × (r ≡ ok tt))
      ⊎ (((e : Error) × (0 < length (keep chain.is_claimable c))
            × (send_chunk c ≡ err e)
            × (r ≡ err e))
          ⊎ ((0 < length (keep chain.is_claimable c)) × (send_chunk c ≡ panic) × (r ≡ panic)))

  -- What the loop over the chunks did: it sent the claims of the first ones, a group for each.
  abbrev pub IsSending : List (List (B × P)) → Result (Unit {0}) × List (List (B × P)) → Type 0
  IsSending chunks z =
      (done : List (List (B × P))) × (rest : List (List (B × P))) × (chunks ≡ done ++ rest)
      × AreSent done
      × (z.1 ≡ map (keep chain.is_claimable) done)
      × (flatten z.1 ≡ keep chain.is_claimable (flatten done))
      × EndsBefore rest z.0

  nothing_sent :
      (chunks : List (List (B × P))) (r : Result (Unit {0}))
      → EndsBefore chunks r
      → IsSending chunks (r, [])
  unfolding keep
  nothing_sent chunks r ends = ([], chunks, refl, tt, refl, refl, ends)

  one_more :
      (c : List (B × P)) (cs : List (List (B × P))) (z : Result (Unit {0}) × List (List (B × P)))
      (tx_hash : ℕ)
      → 0 < length (keep chain.is_claimable c)
      → send_chunk c ≡ ok tx_hash
      → IsSending cs z
      → IsSending (c ∷ cs) (z.0, keep chain.is_claimable c ∷ z.1)
  one_more c cs z tx_hash full sent (done, rest, split, all, groups, whole, ends) = (
    c ∷ done,
    rest,
    ap (λ l. c ∷ l) split,
    (full, (tx_hash, sent), all),
    ap (λ l. keep chain.is_claimable c ∷ l) groups,
    ap (λ l. keep chain.is_claimable c ++ l) whole
        ∙ sym (keep-append chain.is_claimable c (flatten done)),
    ends,
  )

  -- However claimGrouped's loop over the chunks ends: it has sent exactly the claimable bridges of
  -- the chunks before some point, in order and one group for each chunk; there the chunks end, or
  -- stands one without a claimable bridge, and there is no error, or the compression or the sending
  -- of the next one's claims has failed, and the loop ends with its error.
  pub send_chunks-IsSending :
      (chunks : List (List (B × P))) → IsSending chunks (send_chunks chain chunks)
  unfolding send_chunks
  send_chunks-IsSending [] = nothing_sent [] (ok tt) refl
  send_chunks-IsSending (c ∷ cs) = elim (Bool-cases (length (keep chain.is_claimable c) == 0)) [
    | inl empty ↦ rw empty (nothing_sent (c ∷ cs) (ok tt) (inl (ground arith, refl)))
    | inr full ↦
        let claims : 0 < length (keep chain.is_claimable c) = ground arith in
        compressed (send_chunks-IsSending cs) claims full
          (chain.compress_claim_call (keep chain.is_claimable c)) refl
  ]
    where
      compressed :
          IsSending cs (send_chunks chain cs)
          → 0 < length (keep chain.is_claimable c)
          → (length (keep chain.is_claimable c) == 0) ≡ false
          → (r : Result (List ℕ)) → chain.compress_claim_call (keep chain.is_claimable c) ≡ r
          → IsSending (c ∷ cs) (send_chunks chain (c ∷ cs))
      compressed ih claims full (err e) h =
          rw (full, h) (nothing_sent (c ∷ cs) (err e) (inr (inl (e, claims, rw h refl, refl))))
      compressed ih claims full panic h =
          rw (full, h) (nothing_sent (c ∷ cs) panic (inr (inr (claims, rw h refl, refl))))
      compressed ih claims full (ok data_of) h = sent (chain.send_compressed_claims data_of) refl
        where
          sent :
              (r : Result ℕ)
              → chain.send_compressed_claims data_of ≡ r
              → IsSending (c ∷ cs) (send_chunks chain (c ∷ cs))
          sent (err e) h' =
              rw (full, h, h')
                (nothing_sent (c ∷ cs) (err e) (inr (inl (e, claims, rw (h, h') refl, refl))))
          sent panic h' =
              rw (full, h, h')
                (nothing_sent (c ∷ cs) panic (inr (inr (claims, rw (h, h') refl, refl))))
          sent (ok tx_hash) h' =
              rw (full, h, h')
                (one_more c cs (send_chunks chain cs) tx_hash claims (rw (h, h') refl) ih)
