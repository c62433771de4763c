-- ===== src/Etherman.antt =====
-- etherman/etherman.go: the global index of a claim, GenerateGlobalIndex and DecodeGlobalIndex. Rollup
-- indices and indices of leaves are uint32.
pub mod Events
pub mod Logs
pub mod Tests
pub mod Types
use zkevm_bridge_service.Base.{
  ℕ, zero, suc, ◌+◌, ◌*◌, ◌/◌, ◌%◌, ◌^◌, ◌<◌, ◌≡◌, ◌↔◌, refl, sym, ◌∙◌, ap, List, [], ◌∷◌, ◌++◌,
  Bool, true, false, leb, ltb, ◌==◌, if◌then◌else◌, get_or, take, drop, u32_mod, Result, ok, err,
  panic, out_of_bounds, arith,
}
use zkevm_bridge_service.Base.State.{State}
use zkevm_bridge_service.Bridgectrl.Controller.{be}

-- big.Int's SetBytes.
unfoldable pub set_bytes_loop : ℕ → List ℕ → ℕ
set_bytes_loop acc [] = acc
set_bytes_loop acc (b ∷ bs) = set_bytes_loop (acc * 256 + b) bs

unfoldable pub set_bytes : List ℕ → ℕ
unfolding set_bytes_loop
set_bytes bytes = set_bytes_loop 0 bytes

unfoldable pub generate_global_index : Bool → ℕ → ℕ → ℕ
unfolding set_bytes be
generate_global_index mainnet_flag rollup_index local_exit_root_index =
    set_bytes
      ((if mainnet_flag then 1 ∷ be 4 0 else be 4 rollup_index) ++ be 4 local_exit_root_index)

-- FillBytes panics if the index does not fit 32 bytes.
unfoldable pub decode_global_index : ℕ → Result (Bool × ℕ × ℕ)
unfolding set_bytes be
decode_global_index global_index =
    let bytes = be 32 global_index in
    let mainnet_flag = get_or bytes 23 0 == 1 in
    let rollup_index = set_bytes (take 4 (drop 24 bytes)) in
    let local_root_index = set_bytes (take 4 (drop 28 bytes)) in
    if leb (2 ^ 256) global_index
    then panic
    else if ltb 4294967295 rollup_index
    then err out_of_bounds
    else if ltb 4294967295 local_root_index
    then err out_of_bounds
    else ok (mainnet_flag, rollup_index, local_root_index)

generate_parts :
    (flag : Bool) (r i : ℕ)
    → r < u32_mod
    → i < u32_mod
    → generate_global_index flag r i ≡ (if flag then 2 ^ 64 else r * 2 ^ 32) + i
unfolding generate_global_index be set_bytes set_bytes_loop
generate_parts true r i hr hi = omega arith
generate_parts false r i hr hi = omega arith

decode_parts :
    (g : ℕ)
    → g < 2 ^ 256
    → decode_global_index g ≡ ok ((g / 2 ^ 64) % 256 == 1, (g / 2 ^ 32) % 2 ^ 32, g % 2 ^ 32)
unfolding decode_global_index be set_bytes set_bytes_loop
decode_parts g h = ground arith

value_bound :
    (flag : Bool) (r i g : ℕ)
    → (if flag then 2 ^ 64 else r * 2 ^ 32) + i ≡ g
    → r < u32_mod
    → i < u32_mod
    → g < 2 ^ 64 + 2 ^ 32
value_bound true r i g e hr hi = omega arith
value_bound false r i g e hr hi = omega arith

-- For a rollup index and a leaf index that are uint32: the global index decodes to the flag, to the
-- rollup index (0 under the mainnet flag) and to the leaf index.
pub decode_global_index-generate_global_index :
    (mainnet_flag : Bool) (rollup_index local_root_index : ℕ)
    → rollup_index < u32_mod
    → local_root_index < u32_mod
    → decode_global_index (generate_global_index mainnet_flag rollup_index local_root_index)
      ≡ ok (mainnet_flag, if mainnet_flag then 0 else rollup_index, local_root_index)
decode_global_index-generate_global_index true r i hr hi =
    rw (generate_parts true r i hr hi, decode_parts (2 ^ 64 + i) (omega arith)) (ground arith)
decode_global_index-generate_global_index false r i hr hi =
    rw (generate_parts false r i hr hi, decode_parts (r * 2 ^ 32 + i) (omega arith)) (ground arith)

-- A global index decodes to a flag, a rollup index and a leaf index that are uint32; generating from
-- them gives the global index back if it is below 2 ^ 64 + 2 ^ 32, and only if it is there.
pub generate_global_index-decode_global_index :
    (global_index : ℕ)
    → global_index < 2 ^ 256
    → (mainnet_flag : Bool) × (rollup_index : ℕ) × (local_root_index : ℕ) × (decode_global_index
          global_index
        ≡ ok (mainnet_flag, rollup_index, local_root_index))
      × (rollup_index < u32_mod)
      × (local_root_index < u32_mod)
      × (global_index < 2 ^ 64 + 2 ^ 32
          ↔ generate_global_index mainnet_flag rollup_index local_root_index ≡ global_index)
generate_global_index-decode_global_index g h =
    let r = (g / 2 ^ 32) % 2 ^ 32 in
    let i = g % 2 ^ 32 in
    let flag = (g / 2 ^ 64) % 256 == 1 in
    (
      flag,
      r,
      i,
      decode_parts g h,
      omega arith,
      omega arith,
      (
        λ small. generate_parts flag r i (omega arith) (omega arith) ∙ ground arith,
        λ same.
            value_bound flag r i g
              (sym (generate_parts flag r i (omega arith) (omega arith)) ∙ same) (omega arith)
              (omega arith),
      ),
    )
