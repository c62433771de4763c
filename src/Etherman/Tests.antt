-- ===== src/Etherman/Tests.antt =====
-- The global index of a claim at concrete values.
use zkevm_bridge_service.Base.{ℕ, ◌+◌, ◌^◌, ◌<◌, ◌≡◌, ◌↔◌, refl, Bool, false, u32_mod, ok, arith}
use zkevm_bridge_service.Etherman.{
  generate_global_index, decode_global_index, decode_global_index-generate_global_index,
  generate_global_index-decode_global_index,
}

decode_global_index-generate_global_index_example :
    decode_global_index (generate_global_index false 2 7) ≡ ok (false, 2, 7)
decode_global_index-generate_global_index_example =
    decode_global_index-generate_global_index false 2 7 (omega arith) (omega arith)

generate_global_index-decode_global_index_example :
    (mainnet_flag : Bool) × (rollup_index : ℕ) × (local_root_index : ℕ) × (decode_global_index
        (2 ^ 64 + 9)
      ≡ ok (mainnet_flag, rollup_index, local_root_index))
    × (rollup_index < u32_mod)
    × (local_root_index < u32_mod)
    × (2 ^ 64 + 9 < 2 ^ 64 + 2 ^ 32
        ↔ generate_global_index mainnet_flag rollup_index local_root_index ≡ 2 ^ 64 + 9)
generate_global_index-decode_global_index_example =
    generate_global_index-decode_global_index (2 ^ 64 + 9) (omega arith)

-- The bits above the flag are not looked at.
above_the_flag : decode_global_index (2 ^ 72 + 2 ^ 32 + 5) ≡ ok (false, 1, 5)
unfolding decode_global_index
above_the_flag = refl
