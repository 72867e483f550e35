-- ===== src/Core/Grid/Increment.antt =====
-- core/src/grid.rs: `increment`, in both builds. The cells are the digits of one number in base
-- 2 ^ 64, the first the lowest.
use native.Mathlib.Nat.{mod-eq_of_lt}
use native.Mathlib.Decide.{dec_lt}
use why.Common.{
  ℕ, zero, suc, ◌+◌, ◌*◌, ◌/◌, ◌%◌, ◌^◌, ◌≤◌, ◌<◌, ◌≡◌, refl, sym, ap, ap₂, ◌∙◌, false, List, [],
  ◌∷◌, arith, leb, if◌then◌else◌, length, All, IsWord, div_mod_of_join, join_div_mod, Bool-cases,
  inl, inr,
}
use why.Core.Grid.{Grid, IsGrid, chunks, to_flat, with_cells}
use why.Core.Grid.Cells.{length-to_flat, to_flat-words, with_cells_lem}

-- The loop of the default build: it returns at the first cell that does not overflow.
increment_cells : ℕ → List ℕ → List ℕ
increment_cells carry [] = []
increment_cells carry (cell ∷ cells) =
    let rest = increment_cells 1 cells in
    if leb (2 ^ 64) (cell + carry)
    then (cell + carry) % 2 ^ 64 ∷ rest
    else (cell + carry) % 2 ^ 64 ∷ cells

-- The loop of the `constant-time` build: it goes over every cell.
increment_cells_ct : ℕ → List ℕ → List ℕ
increment_cells_ct carry [] = []
increment_cells_ct carry (cell ∷ cells) =
    (cell + carry) % 2 ^ 64
    ∷ increment_cells_ct (if leb (2 ^ 64) (cell + carry) then 1 else 0) cells

pub increment : ℕ → ℕ → Grid → ℕ → Grid
increment w h g amount = with_cells w h (increment_cells amount) g

pub increment_ct : ℕ → ℕ → Grid → ℕ → Grid
increment_ct w h g amount = with_cells w h (increment_cells_ct amount) g

-- The number that the cells stand for, and the first number that does not fit.
pub value : List ℕ → ℕ
value [] = 0
value (cell ∷ cells) = cell + 2 ^ 64 * value cells

pub capacity : ℕ → ℕ
capacity zero = 1
capacity (suc n) = 2 ^ 64 * capacity n

length-increment_cells :
    (carry : ℕ) (cells : List ℕ) → length (increment_cells carry cells) ≡ length cells
unfolding increment_cells
length-increment_cells carry [] = refl
length-increment_cells carry (c ∷ cs) = ground (arith, length-increment_cells 1 cs)

increment_cells-words :
    (carry : ℕ) (cells : List ℕ) → All IsWord cells → All IsWord (increment_cells carry cells)
unfolding increment_cells
increment_cells-words carry [] h = tt
increment_cells-words carry (c ∷ cs) h = elim (Bool-cases (leb (2 ^ 64) (c + carry))) [
  | inl e ↦ rw e (omega arith, increment_cells-words 1 cs h.1)
  | inr e ↦ rw e (omega arith, h.1)
]

ct_no_carry : (cells : List ℕ) → All IsWord cells → increment_cells_ct 0 cells ≡ cells
unfolding increment_cells_ct
ct_no_carry [] h = refl
ct_no_carry (c ∷ cs) h =
    let fits : leb (2 ^ 64) (c + 0) ≡ false = ground arith in
    rw fits (ap₂ ◌∷◌ (omega arith) (ct_no_carry cs h.1))

increment_cells-ct :
    (carry : ℕ) (cells : List ℕ)
    → All IsWord cells
    → increment_cells_ct carry cells ≡ increment_cells carry cells
unfolding increment_cells increment_cells_ct
increment_cells-ct carry [] h = refl
increment_cells-ct carry (c ∷ cs) h = elim (Bool-cases (leb (2 ^ 64) (c + carry))) [
  | inl e ↦ rw e (ap (λ l. (c + carry) % 2 ^ 64 ∷ l) (increment_cells-ct 1 cs h.1))
  | inr e ↦ rw e (ap (λ l. (c + carry) % 2 ^ 64 ∷ l) (ct_no_carry cs h.1))
]

value-lt : (cells : List ℕ) → All IsWord cells → value cells < capacity (length cells)
unfolding value capacity
value-lt [] h = omega arith
value-lt (c ∷ cs) h = omega (arith, value-lt cs h.1)

mod_of_digit :
    (m r x : ℕ) → r < 2 ^ 64 → 0 < m → (r + 2 ^ 64 * x) % (2 ^ 64 * m) ≡ r + 2 ^ 64 * (x % m)
mod_of_digit m r x h pos =
    let low : x % m < m = grind arith in
    let whole : r + 2 ^ 64 * x ≡ x / m * (2 ^ 64 * m) + (r + 2 ^ 64 * (x % m)) =
      omega (arith, join_div_mod m x) in
    ap (λ t. t % (2 ^ 64 * m)) whole
    ∙ (div_mod_of_join (2 ^ 64 * m) (x / m) (r + 2 ^ 64 * (x % m)) (omega arith)).1

capacity_pos : (n : ℕ) → 0 < capacity n
unfolding capacity
capacity_pos zero = omega arith
capacity_pos (suc n) = omega (arith, capacity_pos n)

value-increment_cells :
    (carry : ℕ) (cells : List ℕ)
    → All IsWord cells
    → carry < 2 ^ 64
    → value (increment_cells carry cells) ≡ (value cells + carry) % capacity (length cells)
unfolding increment_cells value capacity
value-increment_cells carry [] h p = omega arith
value-increment_cells carry (c ∷ cs) h p = elim (Bool-cases (leb (2 ^ 64) (c + carry))) [
  | inl e ↦
      let over : 2 ^ 64 ≤ c + carry = ground arith in
      rw e (
        ap (λ t. (c + carry) % 2 ^ 64 + 2 ^ 64 * t) (value-increment_cells 1 cs h.1 (omega arith))
        ∙ sym (
            mod_of_digit (capacity (length cs)) ((c + carry) % 2 ^ 64) (value cs + 1) (omega arith)
              (capacity_pos (length cs)))
        ∙ ap (λ t. t % (2 ^ 64 * capacity (length cs))) (omega (arith, h.0)))
  | inr e ↦
      let under : c + carry < 2 ^ 64 = ground arith in
      rw e (
        ap (λ t. (c + carry) % 2 ^ 64 + 2 ^ 64 * t) (sym (mod-eq_of_lt (value-lt cs h.1)))
        ∙ sym (
            mod_of_digit (capacity (length cs)) ((c + carry) % 2 ^ 64) (value cs) (omega arith)
              (capacity_pos (length cs)))
        ∙ ap (λ t. t % (2 ^ 64 * capacity (length cs))) (omega arith))
]

capacity-ge : (n : ℕ) → 0 < n → 2 ^ 64 ≤ capacity n
unfolding capacity
capacity-ge zero p = absurd (omega arith)
capacity-ge (suc n) p = omega (arith, capacity_pos n)

quotients : (m p q : ℕ) → p < q → p * m + m ≤ q * m
quotients m p q h = grind arith

by_quotients :
    (m v a b p q r : ℕ)
    → a < m
    → b < m
    → v + a ≡ p * m + r
    → v + b ≡ q * m + r
    → (p < q → p * m + m ≤ q * m)
    → (q < p → q * m + m ≤ p * m)
    → a ≡ b
by_quotients m v a b p q r pa pb ea eb up down = elim (dec_lt p q) [
  | yes h ↦ absurd (omega (arith, up h))
  | no h ↦ elim (dec_lt q p) [
    | yes k ↦ absurd (omega (arith, down k))
    | no k ↦ let same : p ≡ q = omega arith in omega (arith, ap (λ (t : ℕ). t * m) same)
  ]
]

mod_cancel : (m v a b : ℕ) → a < m → b < m → (v + a) % m ≡ (v + b) % m → a ≡ b
mod_cancel m v a b pa pb e =
    let p : ℕ = (v + a) / m in
    let q : ℕ = (v + b) / m in
    let pa' : v + a ≡ p * m + (v + a) % m = join_div_mod m (v + a) in
    let qb' : v + b ≡ q * m + (v + b) % m = join_div_mod m (v + b) in
    let up : p < q → p * m + m ≤ q * m = quotients m p q in
    let down : q < p → q * m + m ≤ p * m = quotients m q p in
    by_quotients m v a b p q ((v + b) % m) pa pb (pa' ∙ ap (λ r. p * m + r) e) qb' up down

module _ (w h : ℕ) (g : Grid) (shaped : IsGrid w h g) where
  increment_lem :
      (amount : ℕ)
      → IsGrid w h (increment w h g amount)
        × (to_flat (increment w h g amount) ≡ increment_cells amount (to_flat g))
  unfolding increment
  increment_lem amount =
      with_cells_lem w h g shaped (increment_cells amount)
        (length-increment_cells amount (to_flat g) ∙ length-to_flat w h g shaped)
        (increment_cells-words amount (to_flat g) (to_flat-words w h g shaped))

  pub increment-IsGrid : (amount : ℕ) → IsGrid w h (increment w h g amount)
  increment-IsGrid amount = (increment_lem amount).0

  -- The cells of a grid are one number in base 2 ^ 64, lowest cell first: `increment` adds an
  -- amount below 2 ^ 64 to it, modulo the first number that the cells do not hold.
  pub value-increment :
      (amount : ℕ)
      → amount < 2 ^ 64
      → value (to_flat (increment w h g amount)) ≡ (value (to_flat g) + amount) % capacity (h * w)
  value-increment amount p =
      ap value (increment_lem amount).1
      ∙ value-increment_cells amount (to_flat g) (to_flat-words w h g shaped) p
      ∙ ap (λ n. (value (to_flat g) + amount) % capacity n) (length-to_flat w h g shaped)

  -- On a grid the constant-time build of `increment` computes the same grid as the default build.
  pub increment_ct-increment : (amount : ℕ) → increment_ct w h g amount ≡ increment w h g amount
  unfolding increment increment_ct with_cells to_flat
  increment_ct-increment amount =
      ap (λ l. record { rows = chunks h w l })
        (increment_cells-ct amount (to_flat g) (to_flat-words w h g shaped))

  -- Two counters below 2 ^ 64 give two different blocks.
  pub increment-injective :
      (a b : ℕ)
      → 0 < h * w
      → a < 2 ^ 64
      → b < 2 ^ 64
      → increment w h g a ≡ increment w h g b
      → a ≡ b
  increment-injective a b pos pa pb e =
      mod_cancel (capacity (h * w)) (value (to_flat g)) a b (omega (arith, capacity-ge (h * w) pos))
        (omega (arith, capacity-ge (h * w) pos))
        (sym (value-increment a pa) ∙ ap (λ x. value (to_flat x)) e ∙ value-increment b pb)
