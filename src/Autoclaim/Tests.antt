-- ===== src/Autoclaim/Tests.antt =====
-- The theorems on the grouped claims at five claims and a chain that accepts them.
use zkevm_bridge_service.Base.{ℕ, ◌≡◌, ltb, List, [], ◌∷◌, none, some, ok, arith}
use zkevm_bridge_service.Autoclaim.{array_splitter, Chain, send_chunks}
use zkevm_bridge_service.Autoclaim.Groups.{
  flatten, AreChunks, array_splitter-AreChunks, array_splitter-zero, IsSending,
  send_chunks-IsSending,
}

abbrev five : List ℕ
five = 1 ∷ 2 ∷ 3 ∷ 4 ∷ 5 ∷ []

-- A bridge below 4 is claimable.
abbrev chain : Chain ℕ ℕ
chain = record {
  get_bridges_to_claim = ok five;
  get_proof = λ b. ok (b, 0);
  get_proof_by_ger = λ b ger. ok b;
  is_claimable = λ (b, p). ltb b 4;
  compress_claim_call = λ _. ok [];
  send_compressed_claims = λ _. ok 8;
}

abbrev chunks : List (List (ℕ × ℕ))
chunks = ((1, 1) ∷ (5, 5) ∷ []) ∷ ((2, 2) ∷ []) ∷ []

array_splitter-AreChunks_example :
    (cs : List (List ℕ)) × (array_splitter 5 five 2 ≡ some cs)
    × (flatten cs ≡ five)
    × AreChunks 2 cs
array_splitter-AreChunks_example = array_splitter-AreChunks 5 five 2 (omega arith) (omega arith)

array_splitter-zero_example : array_splitter 9 five 0 ≡ none
array_splitter-zero_example = array_splitter-zero 9 1 (2 ∷ 3 ∷ 4 ∷ 5 ∷ [])

send_chunks-IsSending_example : IsSending chain chunks (send_chunks chain chunks)
send_chunks-IsSending_example = send_chunks-IsSending chain chunks
