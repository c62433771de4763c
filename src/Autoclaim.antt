-- ===== src/Autoclaim.antt =====
-- autoclaimservice/autoclaim/autoclaim.go: the claims that are grouped and sent.
-- The bridge service and the chain are asked through the fields of `Chain`. Bridges and their
-- proofs, two slices of one length that are split alike, are one list of pairs.
pub mod Groups
pub mod Tests
use zkevm_bridge_service.Base.{
  ℕ, zero, suc, ◌==◌, ltb, List, [], ◌∷◌, ◌++◌, map, Bool, true, false, if◌then◌else◌, Option, none,
  some, length, take, drop, keep, Result, ok, err, panic, ◌>>=◌,
}

abbrev pub with_chunk : {A : Type 0} → List A → Option (List (List A)) → Option (List (List A))
with_chunk chunk none = none
with_chunk chunk (some chunks) = some (chunk ∷ chunks)

-- The loop of arraySplitter, with fuel for its rounds; `none` is no fuel left.
unfoldable pub array_splitter : {A : Type 0} → ℕ → List A → ℕ → Option (List (List A))
array_splitter fuel [] size = some []
array_splitter zero (x ∷ xs) size = none
array_splitter (suc fuel) (x ∷ xs) size =
    let arr = x ∷ xs in
    let fitting = if ltb (length arr) size then length arr else size in
    with_chunk (take fitting arr) (array_splitter fuel (drop fitting arr) fitting)

-- getProof gives the proof and the hash of the exit roots; EstimateGasClaim says whether a bridge is
-- claimable; CompressClaimCall and SendCompressedClaims may fail.
pub record Chain (B P : Type 0) : Type 0 where
  pub get_bridges_to_claim : Result (List B)
  pub get_proof : B → Result (P × ℕ)
  pub get_proof_by_ger : B → ℕ → Result P
  pub is_claimable : B × P → Bool
  pub compress_claim_call : List (B × P) → Result (List ℕ)
  pub send_compressed_claims : List ℕ → Result ℕ

-- The error, if any, and the groups of claims that were sent.
abbrev pub Sent : Type 0 → Type 0
Sent C = Result (Unit {0}) × List (List C)

module _ {B P : Type 0} (chain : Chain B P) where
  -- A loop that asks for one proof after the other.
  unfoldable pub proofs_by_ger : ℕ → List B → Result (List (B × P))
  proofs_by_ger ger [] = ok []
  proofs_by_ger ger (b ∷ bs) = do
    proof ← chain.get_proof_by_ger b ger
    rest ← proofs_by_ger ger bs
    ok ((b, proof) ∷ rest)

  unfoldable pub get_proofs : List B → Result (List (B × P))
  unfolding proofs_by_ger
  get_proofs [] = ok []
  get_proofs (b ∷ bs) = do
    (proof, ger) ← chain.get_proof b
    rest ← proofs_by_ger ger bs
    ok ((b, proof) ∷ rest)

  abbrev noted : List (B × P) → Sent (B × P) → Sent (B × P)
  noted claims (r, groups) = (r, claims ∷ groups)

  -- The loop over the chunks. A chunk without a claimable bridge ends it.
  unfoldable pub send_chunks : List (List (B × P)) → Sent (B × P)
  unfolding keep
  send_chunks [] = (ok tt, [])
  send_chunks (chunk ∷ chunks) =
      let claims = keep chain.is_claimable chunk in
      let rest = send_chunks chunks in
      if length claims == 0 then (ok tt, []) else elim (chain.compress_claim_call claims) [
        | err e ↦ (err e, [])
        | panic ↦ (panic, [])
        | ok data_of ↦ elim (chain.send_compressed_claims data_of) [
          | err e ↦ (err e, [])
          | panic ↦ (panic, [])
          | ok tx_hash ↦ noted claims rest
        ]
      ]

  abbrev or_unsent : {A : Type 0} → Result A → (A → Option (Sent (B × P))) → Option (Sent (B × P))
  or_unsent (ok a) f = f a
  or_unsent (err e) f = some (err e, [])
  or_unsent panic f = some (panic, [])

  abbrev or_endless : Option (List (List (B × P))) → Option (Sent (B × P))
  or_endless none = none
  or_endless (some chunks) = some (send_chunks chunks)

  -- claimGrouped; `none` is a loop that does not end.
  unfoldable pub claim_grouped : ℕ → Option (Sent (B × P))
  unfolding get_proofs array_splitter send_chunks
  claim_grouped max_per_group = or_unsent chain.get_bridges_to_claim λ bridges.
      or_unsent (get_proofs bridges)
        λ pairs. or_endless (array_splitter (length pairs) pairs max_per_group)
