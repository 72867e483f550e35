-- ===== src/Core/Grid/Build.antt =====
-- core/src/grid.rs: what `new`, `from_flat` and `from_key` build.
use why.Common.{
  ℕ, zero, suc, ◌+◌, ◌-◌, ◌*◌, ◌≤◌, ◌<◌, ◌≡◌, refl, ap, ap₂, ◌∙◌, true, List, [], ◌∷◌, ◌++◌, arith,
  min, length, get_or, take, drop, replicate, concat, All, IsWord, length-replicate, All-replicate,
}
use why.Core.Outcome.{ok, ◌>>=◌}
use why.Core.Grid.{Grid, IsRow, IsRows, IsGrid, valid_dimensions, new, fill, from_flat, to_flat}
use why.Core.Grid.Fill.{fill_cells, tabulate, fill_cells-tabulate, fill_lem}

module _ (w h : ℕ) (valid : valid_dimensions w h ≡ true) where
  pub width_pos : 0 < w
  width_pos = ground arith

  pub area_pos : 0 < h * w
  area_pos = let tall : 0 < h = ground arith in let wide : 0 < w = ground arith in grind arith

abbrev pub zeros : ℕ → ℕ → List (List ℕ)
zeros w h = replicate h (replicate w 0)

zeros-IsRows : (w h : ℕ) → IsRows w h (zeros w h)
zeros-IsRows w h = (
  length-replicate h (replicate w 0),
  All-replicate (IsRow w) h (replicate w 0)
      (length-replicate w 0, All-replicate IsWord w 0 (omega arith)),
)

pub zeros_eq : (m n : ℕ) → m ≡ n → replicate {A = ℕ} m 0 ≡ replicate n 0
zeros_eq m n e = ap (λ k. replicate k 0) e

replicate-append : (m n : ℕ) → replicate m 0 ++ replicate n 0 ≡ replicate {A = ℕ} (m + n) 0
replicate-append zero n = zeros_eq n (0 + n) (omega arith)
replicate-append (suc m) n =
    ap (λ l. 0 ∷ l) (replicate-append m n) ∙ zeros_eq (suc (m + n)) (suc m + n) (omega arith)

concat-zeros : (w h : ℕ) → concat (zeros w h) ≡ replicate (h * w) 0
concat-zeros w zero = zeros_eq 0 (0 * w) (omega arith)
concat-zeros w (suc h) =
    ap (λ l. replicate w 0 ++ l) (concat-zeros w h)
    ∙ replicate-append w (h * w)
    ∙ zeros_eq (w + h * w) (suc h * w) (omega arith)

drop-replicate : (n m : ℕ) → drop n (replicate {A = ℕ} m 0) ≡ replicate (m - n) 0
drop-replicate zero m = zeros_eq m (m - 0) (omega arith)
drop-replicate (suc n) zero = zeros_eq 0 (0 - suc n) (omega arith)
drop-replicate (suc n) (suc m) = drop-replicate n m ∙ zeros_eq (m - n) (suc m - suc n) (omega arith)

take-nil : {A : Type 0} (n : ℕ) → take {A = A} n [] ≡ []
take-nil zero = refl
take-nil (suc n) = refl

take-min : {A : Type 0} (k : ℕ) (xs : List A) → take (min (length xs) k) xs ≡ take k xs
take-min zero xs = ap (λ n. take n xs) {x = min (length xs) 0} {y = 0} (omega arith)
take-min (suc k) [] = take-nil (min 0 (suc k))
take-min (suc k) (x ∷ xs) =
    ap (λ n. take n (x ∷ xs)) {x = min (suc (length xs)) (suc k)} {y = suc (min (length xs) k)}
      (omega arith)
    ∙ ap (λ l. x ∷ l) (take-min k xs)

tabulate-shift :
    (n i : ℕ) (value other : ℕ → ℕ)
    → ((k : ℕ) → value (suc k) ≡ other k)
    → tabulate n (suc i) value ≡ tabulate n i other
unfolding tabulate
tabulate-shift zero i value other e = refl
tabulate-shift (suc n) i value other e = ap₂ ◌∷◌ (e i) (tabulate-shift n (suc i) value other e)

pub tabulate-get_or :
    (n : ℕ) (vec : List ℕ) → n ≤ length vec → tabulate n 0 (λ i. get_or vec i 0) ≡ take n vec
unfolding tabulate
tabulate-get_or zero vec h = refl
tabulate-get_or (suc n) [] h = absurd (omega arith)
tabulate-get_or (suc n) (x ∷ xs) h =
    ap (λ l. x ∷ l)
      (tabulate-shift n 0 (λ i. get_or (x ∷ xs) i 0) (λ i. get_or xs i 0) (λ k. refl)
        ∙ tabulate-get_or n xs (omega arith))

pub get_or-IsWord : (vec : List ℕ) → All IsWord vec → (i : ℕ) → IsWord (get_or vec i 0)
get_or-IsWord [] h i = omega arith
get_or-IsWord (x ∷ xs) h zero = h.0
get_or-IsWord (x ∷ xs) h (suc i) = get_or-IsWord xs h.1 i

module _ (w h : ℕ) (valid : valid_dimensions w h ≡ true) where
  pub new_lem :
      (new w h ≡ ok (record { rows = zeros w h })) × IsGrid w h (record { rows = zeros w h })
  unfolding new
  new_lem = (rw valid, record { shape = zeros-IsRows w h })

  -- A loop over the first `n` cells of a new grid leaves zeros behind them.
  pub fill-new :
      (n : ℕ) (value : ℕ → ℕ)
      → ((i : ℕ) → i < h * w → IsWord (value i))
      → n ≤ h * w
      → let g : Grid = record { rows = fill w n 0 value (zeros w h) } in
        IsGrid w h g × (to_flat g ≡ tabulate n 0 value ++ replicate (h * w - n) 0)
  unfolding to_flat
  fill-new n value words p =
      let both =
        fill_lem w h (width_pos w h valid) value words n 0 (zeros w h) (zeros-IsRows w h)
          (omega arith) in
      (
        record { shape = both.0 },
        both.1
            ∙ ap (fill_cells n 0 value) (concat-zeros w h)
            ∙ fill_cells-tabulate n 0 value [] (replicate (h * w) 0) refl
                (rw (length-replicate {A = ℕ} (h * w) 0) p)
            ∙ ap (λ l. tabulate n 0 value ++ l) (drop-replicate n (h * w)),
      )

  -- `from_flat` takes the first `W * H` values, and zeros where there are fewer.
  pub from_flat_lem :
      (vec : List ℕ)
      → All IsWord vec
      → (g : Grid) × (from_flat w h vec ≡ ok g)
        × IsGrid w h g
        × (to_flat g ≡ take (h * w) vec ++ replicate (h * w - length vec) 0)
  unfolding from_flat
  from_flat_lem vec words =
      let n : ℕ = min (length vec) (w * h) in
      let built =
        fill-new n (λ i. get_or vec i 0) (λ i p. get_or-IsWord vec words i) (omega arith) in
      (
        record { rows = fill w n 0 (λ i. get_or vec i 0) (zeros w h) },
        ap (λ o. o >>= λ grid. ok (record { rows = fill w n 0 (λ i. get_or vec i 0) grid.rows }))
            new_lem.0,
        built.0,
        built.1
            ∙ ap₂ ◌++◌
                (tabulate-get_or n vec (omega arith)
                  ∙ take-min (w * h) vec
                  ∙ ap (λ k. take k vec) {x = w * h} {y = h * w} (omega arith))
                (zeros_eq (h * w - n) (h * w - length vec) (omega arith)),
      )
