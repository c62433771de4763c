-- ===== src/Claimtxman/NonceCache.antt =====
-- claimtxman/nonce_cache.go: the nonces handed out to the senders.
-- The LRU cache is a library of other authors: it enters as `NonceStore`, with what it documents.
use zkevm_bridge_service.Base.{
  ℕ, ◌+◌, ◌%◌, ◌≤◌, ◌<◌, ◌≡◌, refl, ap, subst, some-injective, Option, none, some, leb,
  if◌then◌else◌, u64_mod, Result, ok, err, arith, node_failed,
}

pub record NonceStore : Type 1 where
  pub Cache : Type 0
  pub get : ℕ → Cache → Option ℕ
  pub touch : ℕ → Cache → Cache
  pub add : ℕ → ℕ → Cache → Cache
  pub remove : ℕ → Cache → Cache
  pub get-add : (from nonce : ℕ) (c : Cache) → get from (add from nonce c) ≡ some nonce
  pub get-remove : (from : ℕ) (c : Cache) → get from (remove from c) ≡ none

module _ (store : NonceStore) where
  -- The nonce after the one that the cache holds, if that is not below the node's.
  abbrev pub above : ℕ → Option ℕ → ℕ
  above nonce none = nonce
  above nonce (some temp_nonce) = if leb nonce temp_nonce then (temp_nonce + 1) % u64_mod else nonce

  -- `nonce_at` is the node's answer to NonceAt; `none` is an error.
  unfoldable pub get_next_nonce : Option ℕ → ℕ → store.Cache → Result ℕ × store.Cache
  get_next_nonce none from c = (err node_failed, c)
  get_next_nonce (some nonce) from c =
      let next = above nonce (store.get from c) in
      (ok next, store.add from next (store.touch from c))

  unfoldable pub remove_nonce : ℕ → store.Cache → store.Cache
  remove_nonce from c = store.remove from c

  above-some :
      (nonce t : ℕ) → t + 1 < u64_mod → (nonce ≤ above nonce (some t)) × (t < above nonce (some t))
  above-some nonce t small = ground arith

  above-held :
      (nonce : ℕ) (o : Option ℕ)
      → ((t : ℕ) → o ≡ some t → t + 2 < u64_mod)
      → (t : ℕ) → o ≡ some t
      → t < above nonce o
  above-held nonce none bound t e = cc
  above-held nonce (some u) bound t e =
      let same = some-injective e in
      let fits = bound u refl in
      subst (λ x. x < above nonce (some u)) same (above-some nonce u (omega arith)).1

  above-bound :
      (nonce : ℕ) (o : Option ℕ)
      → ((t : ℕ) → o ≡ some t → t + 2 < u64_mod)
      → nonce + 1 < u64_mod
      → (nonce ≤ above nonce o) × (above nonce o + 1 < u64_mod)
  above-bound nonce none bound small = (omega arith, small)
  above-bound nonce (some t) bound small = let below = bound t refl in ground arith

  -- While the cached nonce is below the largest uint64 but one and the node's below the largest: the
  -- sender's next nonce is not below the node's and above the one that the cache held, and the cache
  -- then holds it; so that of two calls in a row the second returns a greater nonce and leaves that
  -- one in the cache, whatever the node answers the second time.
  pub get_next_nonce-increases :
      (nonce nonce' from : ℕ) (c : store.Cache)
      → ((t : ℕ) → store.get from c ≡ some t → t + 2 < u64_mod)
      → nonce + 1 < u64_mod
      → (first second : ℕ) × (c' c'' : store.Cache) × (get_next_nonce (some nonce) from c
          ≡ (ok first, c'))
        × (get_next_nonce (some nonce') from c' ≡ (ok second, c''))
        × (nonce ≤ first)
        × ((t : ℕ) → store.get from c ≡ some t → t < first)
        × (store.get from c' ≡ some first)
        × (nonce' ≤ second)
        × (first < second)
        × (store.get from c'' ≡ some second)
  unfolding get_next_nonce
  get_next_nonce-increases nonce nonce' from c bound small =
      let first = above nonce (store.get from c) in
      let c' = store.add from first (store.touch from c) in
      let (lower, room) = above-bound nonce (store.get from c) bound small in
      let held = store.get-add from first (store.touch from c) in
      let second = above nonce' (some first) in
      let (lower', greater) = above-some nonce' first room in
      (
        first,
        second,
        c',
        store.add from second (store.touch from c'),
        refl,
        ap (λ o. (ok (above nonce' o), store.add from (above nonce' o) (store.touch from c'))) held,
        lower,
        above-held nonce (store.get from c) bound,
        held,
        lower',
        greater,
        store.get-add from second (store.touch from c'),
      )
