-- ===== src/Core/Grid/Shift/Barrel.antt =====
-- core/src/grid.rs: the barrel shifter of the `constant-time` build rotates as the default build does.
use native.Mathlib.Nat.{pow-suc, one-le-pow, mod-eq_of_lt}
use why.Common.{
  ℕ, zero, suc, ◌+◌, ◌-◌, ◌*◌, ◌/◌, ◌%◌, ◌^◌, ◌≤◌, ◌<◌, ◌≡◌, refl, sym, ap, ap₂, ◌∙◌, List, [], ◌∷◌,
  ◌++◌, arith, ltb, ◌==◌, bit_xor-lt, bit_xor, length, get_or, take, drop, All, IsWord, append-nil,
  take_all, Bool-cases, inl, inr, bit_and-zero, bit_and_mask, bit_xor-zero, bit_xor_self,
  bit_xor_assoc, zero-bit_xor, join_div_mod, div_mod_of_join, wrapping_sub, length-drop,
  take-append-drop,
}
use why.Core.Grid.{IsRow}
use why.Core.Grid.Fill.{tabulate}
use why.Core.Grid.Shift.{shift_rows, select, barrel_stage, barrel, shift_row_ct, shift_rows_ct}
use why.Core.Grid.Shift.Rotation.{rotated, rotated-rotated, rotated-IsRow, shift_row-rotated}

select_here : (a b : ℕ) → select 0 a b ≡ a
unfolding select
select_here a b = ap (bit_xor a) (bit_and-zero (bit_xor a b)) ∙ bit_xor-zero a

select_there : (a b : ℕ) → IsWord a → IsWord b → select (2 ^ 64 - 1) a b ≡ b
unfolding select
select_there a b ha hb =
    let word : bit_xor a b < 2 ^ 64 = bit_xor-lt 64 a b ha hb in
    ap (bit_xor a) (bit_and_mask 64 (bit_xor a b) ∙ omega arith)
    ∙ sym (bit_xor_assoc a a b)
    ∙ ap (λ x. bit_xor x b) (bit_xor_self a)
    ∙ zero-bit_xor b

tabulate-offset :
    (n i j : ℕ) (f g : ℕ → ℕ)
    → ((k : ℕ) → k < n → f (i + k) ≡ g (j + k))
    → tabulate n i f ≡ tabulate n j g
unfolding tabulate
tabulate-offset zero i j f g h = refl
tabulate-offset (suc n) i j f g h =
    ap₂ ◌∷◌
      (ap f {x = i} {y = i + 0} (omega arith)
        ∙ h 0 (omega arith)
        ∙ ap g {x = j + 0} {y = j} (omega arith))
      (tabulate-offset n (suc i) (suc j) f g λ k p.
        ap f {x = suc i + k} {y = i + suc k} (omega arith)
        ∙ h (suc k) (omega arith)
        ∙ ap g {x = j + suc k} {y = suc j + k} (omega arith))

-- The run of a list that starts at `i`.
tabulate_run :
    (n i : ℕ) (xs : List ℕ)
    → i + n ≤ length xs
    → tabulate n i (λ j. get_or xs j 0) ≡ take n (drop i xs)
unfolding tabulate
tabulate_run zero i xs h = refl
tabulate_run (suc n) i [] h = absurd (omega arith)
tabulate_run (suc n) zero (x ∷ xs) h =
    ap (λ l. x ∷ l)
      (tabulate-offset n 1 0 (λ j. get_or (x ∷ xs) j 0) (λ j. get_or xs j 0)
          (λ k p.
            ap (λ m. get_or (x ∷ xs) m 0) {x = 1 + k} {y = suc k} (omega arith)
            ∙ ap (λ m. get_or xs m 0) {x = k} {y = 0 + k} (omega arith))
        ∙ tabulate_run n 0 xs (omega arith))
tabulate_run (suc n) (suc i) (x ∷ xs) h =
    tabulate-offset (suc n) (suc i) i (λ j. get_or (x ∷ xs) j 0) (λ j. get_or xs j 0)
      (λ k p. ap (λ m. get_or (x ∷ xs) m 0) {x = suc i + k} {y = suc (i + k)} (omega arith))
    ∙ tabulate_run (suc n) i xs (omega arith)

get_or-word : (xs : List ℕ) (i : ℕ) → All IsWord xs → IsWord (get_or xs i 0)
get_or-word [] i h = omega arith
get_or-word (x ∷ xs) zero h = h.0
get_or-word (x ∷ xs) (suc i) h = get_or-word xs i h.1

module _ (w stride : ℕ) (tmp : List ℕ) (row : IsRow w tmp) (below : stride < w) where
  -- A stage whose mask is zero leaves the row.
  stage_off : barrel_stage w stride 0 tmp ≡ tmp
  unfolding barrel_stage
  stage_off =
      let len : length tmp ≡ w = row.0 in
      let split : ℕ = w - stride in
      ap₂ ◌++◌
        (tabulate-offset split 0 0 (λ j. select 0 (get_or tmp j 0) (get_or tmp (j + stride) 0))
            (λ j. get_or tmp j 0)
            (λ k p. select_here (get_or tmp (0 + k) 0) (get_or tmp (0 + k + stride) 0))
          ∙ tabulate_run split 0 tmp (omega arith))
        (tabulate-offset (w - split) split split
            (λ j. select 0 (get_or tmp j 0) (get_or tmp (j - split) 0)) (λ j. get_or tmp j 0)
            (λ k p. select_here (get_or tmp (split + k) 0) (get_or tmp (split + k - split) 0))
          ∙ tabulate_run (w - split) split tmp (omega arith)
          ∙ take_all (w - split) (drop split tmp) (omega (arith, length-drop split tmp)))
      ∙ take-append-drop split tmp

  -- A stage whose mask is all ones rotates by its stride.
  stage_on : barrel_stage w stride (2 ^ 64 - 1) tmp ≡ rotated stride tmp
  unfolding barrel_stage
  stage_on =
      let len : length tmp ≡ w = row.0 in
      let split : ℕ = w - stride in
      let cell : ℕ → ℕ = λ j. get_or tmp j 0 in
      let there = λ (i j : ℕ).
        select_there (get_or tmp i 0) (get_or tmp j 0) (get_or-word tmp i row.1)
          (get_or-word tmp j row.1) in
      ap₂ ◌++◌
        (tabulate-offset split 0 stride
            (λ j. select (2 ^ 64 - 1) (get_or tmp j 0) (get_or tmp (j + stride) 0)) cell
            (λ k p.
              there (0 + k) (0 + k + stride)
              ∙ ap cell {x = 0 + k + stride} {y = stride + k} (omega arith))
          ∙ tabulate_run split stride tmp (omega arith)
          ∙ take_all split (drop stride tmp) (omega (arith, length-drop stride tmp)))
        (tabulate-offset (w - split) split 0
            (λ j. select (2 ^ 64 - 1) (get_or tmp j 0) (get_or tmp (j - split) 0)) cell
            (λ k p.
              there (split + k) (split + k - split)
              ∙ ap cell {x = split + k - split} {y = 0 + k} (omega arith))
          ∙ tabulate_run (w - split) 0 tmp (omega arith)
          ∙ ap (λ n. take n tmp) {x = w - split} {y = stride} (omega arith))

mod_suc : (m s : ℕ) → 0 < m → s % (2 * m) ≡ s % m + s / m % 2 * m
mod_suc m s pos =
    let low : s % m < m = grind arith in
    let bit : ℕ = s / m % 2 in
    let top : bit * m ≤ m = grind arith in
    let whole : s ≡ s / m / 2 * (2 * m) + (s % m + bit * m) = omega (
      arith,
      join_div_mod m s,
      ap (λ (t : ℕ). t * m) {x = s / m} {y = s / m / 2 * 2 + bit} (omega arith),
    ) in
    ap (λ t. t % (2 * m)) whole
    ∙ (div_mod_of_join (2 * m) (s / m / 2) (s % m + bit * m) (omega arith)).1

lt-pow : (n : ℕ) → n < 2 ^ n
lt-pow zero = omega arith
lt-pow (suc n) = omega (arith, lt-pow n, pow-suc 2 n)

module _ (w shift : ℕ) (row : List ℕ) (shaped : IsRow w row) (below : shift < w) where
  -- One stage adds one binary digit of the shift to the rotation.
  stage_lem :
      (bit : ℕ)
      → 2 ^ bit < w
      → barrel_stage w
          (2 ^ bit)
          (wrapping_sub 0 (shift / 2 ^ bit % 2))
          (rotated (shift % 2 ^ bit) row)
        ≡ rotated (shift % 2 ^ suc bit) row
  stage_lem bit h =
      let m : ℕ = 2 ^ bit in
      let pos : 0 < m = one-le-pow bit 2 (omega arith) in
      let sum : shift % 2 ^ suc bit ≡ shift % m + shift / m % 2 * m =
        ap (λ n. shift % n) {x = 2 ^ suc bit} {y = 2 * m} (omega (arith, pow-suc 2 bit))
        ∙ mod_suc m shift pos in
      let tmp = rotated (shift % m) row in
      let shaped' : IsRow w tmp = rotated-IsRow w (shift % m) row shaped in
      elim (Bool-cases (shift / m % 2 == 0)) [
        | inl e ↦
            let off : shift / m % 2 ≡ 0 = ground arith in
            ap (λ d. barrel_stage w m (wrapping_sub 0 d) tmp) off
            ∙ stage_off w m tmp shaped' h
            ∙ ap (λ k. rotated k row) {x = shift % m} {y = shift % 2 ^ suc bit}
                (omega (arith, sum, ap (λ (d : ℕ). d * m) off))
        | inr e ↦
            let on : shift / m % 2 ≡ 1 = ground arith in
            let digit : shift % 2 ^ suc bit ≡ shift % m + m =
              omega (arith, sum, ap (λ (d : ℕ). d * m) on) in
            let inside : shift % m + m ≤ length row =
              omega (arith, digit, shaped.0, mod-le (2 ^ suc bit) shift) in
            ap (λ d. barrel_stage w m (wrapping_sub 0 d) tmp) on
            ∙ stage_on w m tmp shaped' h
            ∙ rotated-rotated m (shift % m) row inside
            ∙ ap (λ k. rotated k row) (sym digit)
      ]
    where
      mod-le : (m s : ℕ) → s % m ≤ s
      mod-le m s = omega arith

  barrel-rotated :
      (fuel bit stride : ℕ) (tmp : List ℕ)
      → stride ≡ 2 ^ bit
      → tmp ≡ rotated (shift % 2 ^ bit) row
      → w ≤ bit + fuel
      → barrel fuel w shift stride bit tmp ≡ rotated shift row
  unfolding barrel
  barrel-rotated zero bit stride tmp es et h =
      et
      ∙ ap (λ k. rotated k row) (mod-eq_of_lt {n = shift} {m = 2 ^ bit} (omega (arith, lt-pow bit)))
  barrel-rotated (suc fuel) bit stride tmp es et h = elim (Bool-cases (ltb stride w)) [
    | inl e ↦
        let more : 2 ^ bit < w = ground arith in
        let next : 2 ^ suc bit ≡ 2 ^ (bit + 1) =
          ap (λ n. 2 ^ n) {x = suc bit} {y = bit + 1} (omega arith) in
        rw e (
          barrel-rotated fuel (bit + 1) (stride * 2)
            (barrel_stage w stride (wrapping_sub 0 (shift / 2 ^ bit % 2)) tmp)
            (omega (arith, pow-suc 2 bit, next))
            (ap₂ (λ n t. barrel_stage w n (wrapping_sub 0 (shift / 2 ^ bit % 2)) t) es et
              ∙ stage_lem bit more
              ∙ ap (λ n. rotated (shift % n) row) next)
            (omega arith))
    | inr e ↦
        let done : w ≤ 2 ^ bit = ground arith in
        rw e (et ∙ ap (λ k. rotated k row) (mod-eq_of_lt {n = shift} {m = 2 ^ bit} (omega arith)))
  ]

  shift_row_ct-rotated : shift_row_ct w shift row ≡ rotated shift row
  unfolding shift_row_ct
  shift_row_ct-rotated =
      barrel-rotated w 0 1 row (omega arith)
        (sym (ap (λ k. rotated k row) {x = shift % 2 ^ 0} {y = 0} (omega arith) ∙ append-nil row))
        (omega arith)

-- With shifts below the width and rows of this width, the constant-time build shifts the rows as
-- the default build does.
pub shift_rows_ct-shift_rows :
    (w : ℕ) (shifts : List ℕ) (rows : List (List ℕ))
    → All (λ s. s < w) shifts
    → All (IsRow w) rows
    → shift_rows_ct w shifts rows ≡ shift_rows shifts rows
unfolding shift_rows shift_rows_ct
shift_rows_ct-shift_rows w [] [] b s = refl
shift_rows_ct-shift_rows w (k ∷ ks) [] b s = refl
shift_rows_ct-shift_rows w [] (r ∷ rs) b s = refl
shift_rows_ct-shift_rows w (k ∷ ks) (r ∷ rs) b s = rw (
  shift_row-rotated k r (omega (arith, b.0, s.0.0)),
  shift_row_ct-rotated w k r s.0 b.0,
  shift_rows_ct-shift_rows w ks rs b.1 s.1,
)
