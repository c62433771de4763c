-- ===== src/Bridgectrl/Keccak.antt =====
-- bridgectrl/hash.go. Keccak-256 is a library of other authors: it enters as an instance argument.
-- A `Digest` is a `[KeyLen]byte`; `hash a b` is the Keccak-256 of the 64 bytes of `a` and `b`,
-- `keccak` that of a string of bytes, and `digest_bytes` the 32 bytes of a digest.
use native.Mathlib.Omega.{arith}
use zkevm_bridge_service.Base.{
  ℕ, zero, suc, ◌+◌, ◌≤◌, ◌≡◌, refl, ◌∙◌, ap, List, [], ◌∷◌, ◌++◌, some, length, get_elem?, subst,
  ℕ_discrete, get_elem?-append, get_elem?-append_length, length-append, Result, ok, or_panic,
}

pub record Keccak (Digest : Type 0) : Type 0 where
  pub hash_zero : Digest
  pub hash : Digest → Digest → Digest
  pub same : Discrete Digest
  pub keccak : List ℕ → Digest
  pub digest_bytes : Digest → List ℕ

module _ {D : Type 0} ⦃k : Keccak D⦄ where
  -- The loop of generateZeroHashes: `last` is `zeroHashes[i-1]`.
  unfoldable pub zero_hashes_loop : ℕ → D → List D → List D
  zero_hashes_loop zero last acc = acc
  zero_hashes_loop (suc n) last acc =
      let next = k.hash last last in zero_hashes_loop n next (acc ++ next ∷ [])

  unfoldable pub generate_zero_hashes : ℕ → List D
  unfolding zero_hashes_loop
  generate_zero_hashes height = zero_hashes_loop height k.hash_zero (k.hash_zero ∷ [])

  -- The package variable, filled by `init`.
  unfoldable pub zero_hashes : List D
  zero_hashes = generate_zero_hashes 64

  -- `zeroHashes[h]`
  unfoldable pub zero_at : ℕ → Result D
  zero_at h = or_panic (get_elem? zero_hashes h)

  -- The root of the tree of height `h` whose leaves are all empty.
  unfoldable pub zero_hash : ℕ → D
  zero_hash zero = k.hash_zero
  zero_hash (suc h) = k.hash (zero_hash h) (zero_hash h)

  -- The first `suc j` zero hashes, in order.
  abbrev ZeroHashes : ℕ → List D → Type 0
  ZeroHashes j acc = (length acc ≡ suc j) × ((i : ℕ) → i ≤ j → get_elem? acc i ≡ some (zero_hash i))

  ZeroHashes-snoc :
      (j : ℕ) (acc : List D) → ZeroHashes j acc → ZeroHashes (suc j) (acc ++ zero_hash (suc j) ∷ [])
  ZeroHashes-snoc j acc (e, h) = (
    omega (arith, length-append acc (zero_hash (suc j) ∷ [])),
    λ i le. elim (ℕ_discrete i (suc j)) [
      | yes last ↦ rw (last, ← e) (get_elem?-append_length acc _ [])
      | no before ↦ get_elem?-append acc _ i (omega arith) ∙ h i (omega arith)
    ],
  )

  ZeroHashes-start : (i : ℕ) → i ≤ 0 → get_elem? (k.hash_zero ∷ []) i ≡ some (zero_hash i)
  unfolding zero_hash
  ZeroHashes-start zero h = refl
  ZeroHashes-start (suc i) h = elim h [ ]

  zero_hashes_loop_lem :
      (n j m : ℕ) (acc : List D)
      → j + n ≡ m
      → ZeroHashes j acc
      → ZeroHashes m (zero_hashes_loop n (zero_hash j) acc)
  unfolding zero_hashes_loop zero_hash
  zero_hashes_loop_lem zero j m acc e h =
      let e' : j ≡ m = omega arith in subst (λ t. ZeroHashes t acc) e' h
  zero_hashes_loop_lem (suc n) j m acc e h =
      zero_hashes_loop_lem n (suc j) m _ (omega arith) (ZeroHashes-snoc j acc h)

  -- Up to level 64 the package variable holds the roots of the empty trees.
  pub zero_at-ok : (h : ℕ) → h ≤ 64 → zero_at h ≡ ok (zero_hash h)
  unfolding zero_at zero_hashes generate_zero_hashes zero_hash
  zero_at-ok h le = ap or_panic (
      (zero_hashes_loop_lem 64 0 64 (k.hash_zero ∷ []) (omega arith) (refl, ZeroHashes-start)).1 h
        le)
