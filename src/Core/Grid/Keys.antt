-- ===== src/Core/Grid/Keys.antt =====
-- core/src/grid.rs: the round trip of `from_flat` and `to_flat`, and `from_key`.
use native.Mathlib.Nat.{pow-suc}
use why.Common.{
  ℕ, zero, suc, ◌+◌, ◌-◌, ◌*◌, ◌/◌, ◌%◌, ◌^◌, ◌≤◌, ◌<◌, ◌≡◌, ◌≢◌, refl, ap, ap₂, ◌∙◌, true, false,
  List, ◌++◌, arith, length, get_or, All, IsWord, take_all, append-nil, bit_xor-lt, bit_xor,
  wrapping_add, div_mod_of_join, join_div_mod, ==_iff, rotate_left_64, rotate_right_64,
}
use why.Core.Outcome.{ok, err, ◌>>=◌, invalid_dimensions, invalid_key_length}
use why.Core.Grid.{
  Grid, IsGrid, valid_dimensions, new, fill, key_cell, from_key, from_flat, to_flat,
}
use why.Core.Grid.Fill.{tabulate}
use why.Core.Grid.Cells.{div-lt, length-to_flat, to_flat-words, to_flat-injective}
use why.Core.Grid.Build.{new_lem, fill-new, from_flat_lem, get_or-IsWord, zeros, zeros_eq}

-- Flattening a grid and shaping it again gives the grid back.
from_flat-to_flat :
    (w h : ℕ) (g : Grid)
    → valid_dimensions w h ≡ true
    → IsGrid w h g
    → from_flat w h (to_flat g) ≡ ok g
from_flat-to_flat w h g valid shaped =
    let cells = length-to_flat w h g shaped in
    let (g', made, shaped', flat) =
      from_flat_lem w h valid (to_flat g) (to_flat-words w h g shaped) in
    let same : to_flat g' ≡ to_flat g =
      flat
      ∙ ap₂ ◌++◌ (take_all (h * w) (to_flat g) (omega arith))
          (zeros_eq (h * w - length (to_flat g)) 0 (omega arith))
      ∙ append-nil (to_flat g) in
    made ∙ ap ok (to_flat-injective w h g' g shaped' shaped same)

-- Dimensions that `new` refuses are refused with the error that names them.
from_flat_invalid :
    (w h : ℕ) (vec : List ℕ)
    → valid_dimensions w h ≡ false
    → from_flat w h vec ≡ err (invalid_dimensions w h)
unfolding from_flat new
from_flat_invalid w h vec e = rw e

pow-split : (n k : ℕ) → k ≤ n → 2 ^ k * 2 ^ (n - k) ≡ 2 ^ n
pow-split n zero p = omega (arith, ap (λ (i : ℕ). 2 ^ i) {x = n - 0} {y = n} (omega arith))
pow-split zero (suc k) p = absurd (omega arith)
pow-split (suc n) (suc k) p = omega (
  arith,
  pow-suc 2 k,
  pow-suc 2 n,
  ap (λ (i : ℕ). 2 ^ suc k * 2 ^ i) {x = suc n - suc k} {y = n - k} (omega arith),
  ap (λ (t : ℕ). t * 2 ^ (n - k)) (pow-suc 2 k),
  pow-split n k (omega arith),
)

-- A rotation in terms of the two factors of 2 ^ 64.
rotated :
    (m p q v : ℕ) → p * q ≡ m → v < m → (v / p < q) × (v % p * q + q ≤ m) × (v * q % m ≡ v % p * q)
rotated m p q v e h =
    let pos : 0 < p = grind arith in
    let low : v % p < p = grind arith in
    let whole : v ≡ v / p * p + v % p = join_div_mod p v in
    let high : v / p < q = div-lt v p q (omega arith) in
    let room : (v % p + 1) * q ≤ p * q = grind arith in
    let product : v * q ≡ v / p * m + v % p * q =
      omega (arith, ap (λ (t : ℕ). t * q) whole, ap (λ (t : ℕ). v / p * t) e) in
    (
      high,
      omega arith,
      ap (λ t. t % m) product ∙ (div_mod_of_join m (v / p) (v % p * q) (omega arith)).1,
    )

rotate_left_64-IsWord : (v k : ℕ) → IsWord v → k < 64 → IsWord (rotate_left_64 v k)
rotate_left_64-IsWord v k h p =
    let factors : 2 ^ (64 - k) * 2 ^ k ≡ 2 ^ 64 = omega (arith, pow-split 64 k (omega arith)) in
    omega (arith, rotated (2 ^ 64) (2 ^ (64 - k)) (2 ^ k) v factors h)

rotate_right_64-IsWord : (v k : ℕ) → IsWord v → k < 64 → IsWord (rotate_right_64 v k)
rotate_right_64-IsWord v k h p =
    omega (arith, rotated (2 ^ 64) (2 ^ k) (2 ^ (64 - k)) v (pow-split 64 k (omega arith)) h)

key_cell-IsWord : (p q i : ℕ) → IsWord p → IsWord q → IsWord i → IsWord (key_cell p q i)
unfolding key_cell
key_cell-IsWord p q i hp hq hi =
    let a = wrapping_add p q in
    let b = bit_xor p q in
    let hb : IsWord b = bit_xor-lt 64 p q hp hq in
    bit_xor-lt 64 (bit_xor (rotate_left_64 a (b % 64)) (rotate_right_64 b (a % 64))) i
      (bit_xor-lt 64 (rotate_left_64 a (b % 64)) (rotate_right_64 b (a % 64))
        (rotate_left_64-IsWord a (b % 64) (omega arith) (omega arith))
        (rotate_right_64-IsWord b (a % 64) hb (omega arith)))
      hi

-- The cells that `from_key` computes, in order.
pub key_cells : ℕ → List ℕ → List ℕ
key_cells area vec = tabulate area 0 (λ i. key_cell (get_or vec i 0) (get_or vec (i + area) 0) i)

-- A key of the right length for valid dimensions becomes a grid whose cells are the mixed pairs.
pub from_key_lem :
    (w h : ℕ) (vec : List ℕ)
    → valid_dimensions w h ≡ true
    → h * w < 2 ^ 64
    → length vec ≡ w * h * 2
    → All IsWord vec
    → (g : Grid) × (from_key w h vec ≡ ok g) × IsGrid w h g × (to_flat g ≡ key_cells (w * h) vec)
unfolding from_key key_cells
from_key_lem w h vec valid fits len words =
    let value : ℕ → ℕ = λ i. key_cell (get_or vec i 0) (get_or vec (i + w * h) 0) i in
    let built =
      fill-new w h valid (w * h) value
        (λ i p.
          key_cell-IsWord (get_or vec i 0) (get_or vec (i + w * h) 0) i (get_or-IsWord vec words i)
            (get_or-IsWord vec words (i + w * h)) (omega arith))
        (omega arith) in
    (
      record { rows = fill w (w * h) 0 value (zeros w h) },
      rw ((==_iff (length vec) (w * h * 2)).1 len) (
          ap (λ o. o >>= λ g. ok (record { rows = fill w (w * h) 0 value g.rows }))
            (new_lem w h valid).0),
      built.0,
      built.1
          ∙ ap (λ l. tabulate (w * h) 0 value ++ l) (zeros_eq (h * w - w * h) 0 (omega arith))
          ∙ append-nil (tabulate (w * h) 0 value),
    )

-- Any other length is refused, whatever the dimensions, with both lengths in the error.
pub from_key-length :
    (w h : ℕ) (vec : List ℕ)
    → length vec ≢ w * h * 2
    → from_key w h vec ≡ err (invalid_key_length (w * h * 2) (length vec))
unfolding from_key
from_key-length w h vec ne = ground arith

-- A key of the right length for dimensions that `new` refuses is refused with those dimensions.
pub from_key_invalid :
    (w h : ℕ) (vec : List ℕ)
    → valid_dimensions w h ≡ false
    → length vec ≡ w * h * 2
    → from_key w h vec ≡ err (invalid_dimensions w h)
unfolding from_key new
from_key_invalid w h vec invalid len = rw ((==_iff (length vec) (w * h * 2)).1 len, invalid) refl
