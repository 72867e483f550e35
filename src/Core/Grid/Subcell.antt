-- ===== src/Core/Grid/Subcell.antt =====
-- core/src/grid.rs: `subcell`, its scalar body, and the two vector bodies.
pub mod Inverse
pub mod Bodies
use why.Common.{
  ℕ, zero, suc, ◌%◌, ◌^◌, Bool, if◌then◌else◌, List, map, bit_xor, bit_and, bit_or, wrapping_add,
  ◌<<<◌, ◌>>>◌, sar,
}
use why.Core.Grid.{Grid, with_cells}
use why.Core.Grid.Lanes.{over_lanes}

abbrev pub subcell_rounds : ℕ
subcell_rounds = 5

abbrev pub delta_32 : ℕ
delta_32 = 0x9E3779B9

abbrev pub mask : ℕ → ℕ
mask v = bit_and v 0xFFFF_FFFF

-- The two halves of a cell.
pub record Halves : Type 0 where
  pub v0 : ℕ
  pub v1 : ℕ

-- `((v << 4) ^ (v >> 5)).wrapping_add(v) ^ sum`
pub mix : (ℕ → ℕ → ℕ) → ℕ → ℕ → ℕ
mix shr v sum = bit_xor (wrapping_add (bit_xor (v <<< 4) (shr v 5)) v) sum

-- One ARX round, after `sum` has been advanced: v1 into v0, then the new v0 into v1.
pub arx_round : (ℕ → ℕ → ℕ) → ℕ → Halves → Halves
arx_round shr sum v =
    let v0' = mask (wrapping_add v.v0 (mix shr v.v1 sum)) in
    let v1' = mask (wrapping_add v.v1 (mix shr v0' sum)) in record { v0 = v0'; v1 = v1' }

-- The loop, with the rounds left.
pub arx_rounds : (ℕ → ℕ → ℕ) → ℕ → ℕ → Halves → Halves
arx_rounds shr zero sum v = v
arx_rounds shr (suc n) sum v =
    let sum' = wrapping_add sum delta_32 in arx_rounds shr n sum' (arx_round shr sum' v)

-- The body of the macro, of the AVX2 lane and of `subcell_cell`, which differ in the right shift:
-- `i64x4` repeats the sign, `u64` and `_mm256_srli_epi64` shift in zeros.
pub subcell_body : (ℕ → ℕ → ℕ) → ℕ → ℕ → ℕ
subcell_body shr cell round =
    let v0 = mask cell in
    let v1 = mask (shr cell 32) in
    let v = arx_rounds shr subcell_rounds 0 (record { v0 = mask (bit_xor v0 round); v1 = v1 }) in
    bit_or (mask (bit_xor v.v1 round) <<< 32) v.v0

pub subcell_cell : ℕ → ℕ → ℕ
subcell_cell = subcell_body ◌>>>◌

pub subcell_portable : ℕ → ℕ → Grid → ℕ → Grid
subcell_portable w h g round =
    with_cells w h
      (over_lanes (map (λ cell. subcell_body sar cell round)) (λ cell. subcell_cell cell round)) g

pub subcell_avx2 : ℕ → ℕ → Grid → ℕ → Grid
subcell_avx2 w h g round =
    with_cells w h
      (over_lanes (map (λ cell. subcell_body ◌>>>◌ cell round)) (λ cell. subcell_cell cell round)) g

-- `avx2` is what the processor says of itself.
pub subcell : Bool → ℕ → ℕ → Grid → ℕ → Grid
subcell avx2 w h g round = if avx2 then subcell_avx2 w h g round else subcell_portable w h g round
