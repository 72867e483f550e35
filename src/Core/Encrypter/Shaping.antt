-- ===== src/Core/Encrypter/Shaping.antt =====
-- core/src/encrypter.rs: what the shaping of the input into grids gives.
use native.Mathlib.Decide.{dec_le}
use why.Common.{
  ℕ, zero, suc, ◌+◌, ◌-◌, ◌*◌, ◌/◌, ◌%◌, ◌≤◌, ◌<◌, ◌≡◌, refl, sym, ap, ap₂, ◌∙◌, arith, min, true,
  false, List, [], ◌∷◌, ◌++◌, length, take, drop, replicate, All, IsWord, length-take, length-drop,
  All-take, All-drop, take_all, take-append-drop, append-nil, append_assoc, join_div_mod, ◌==◌,
  drop_all,
}
use why.Core.Outcome.{ok, collect}
use why.Core.Grid.{Grid, IsGrid, valid_dimensions, chunks, from_flat, to_flat}
use why.Core.Grid.Build.{from_flat_lem, zeros_eq, area_pos}
use why.Core.Encrypter.{slice_chunks, shape_grids}
use why.Core.Decrypter.{flatten}

less_than_one : (count n : ℕ) → count * n < n → count * n ≡ 0
less_than_one zero n p = omega arith
less_than_one (suc count) n p = absurd (omega arith)

-- A chunk and its rest, each with its zeros, where the rest is empty if the chunk is short.
join_chunks :
    (k m total : ℕ) (xs : List ℕ)
    → (length xs < k → m ≡ 0)
    → total ≡ k + m
    → (take k xs ++ replicate (k - length (take k xs)) 0)
        ++ (drop k xs ++ replicate (m - length (drop k xs)) 0)
      ≡ xs ++ replicate (total - length xs) 0
join_chunks k m total xs short e = elim (dec_le k (length xs)) [
  | yes p ↦
      ap (λ (z : List ℕ). (take k xs ++ z) ++ (drop k xs ++ replicate (m - length (drop k xs)) 0))
        (zeros_eq (k - length (take k xs)) 0 (omega (arith, length-take k xs)))
      ∙ ap (λ z. z ++ (drop k xs ++ replicate (m - length (drop k xs)) 0)) (append-nil (take k xs))
      ∙ sym (append_assoc (take k xs) (drop k xs) (replicate (m - length (drop k xs)) 0))
      ∙ ap₂ ◌++◌ (take-append-drop k xs)
          (zeros_eq (m - length (drop k xs)) (total - length xs) (omega (arith, length-drop k xs)))
  | no p ↦
      let nothing : drop k xs ++ replicate (m - length (drop k xs)) 0 ≡ [] =
        ap₂ ◌++◌ (drop_all k xs (omega arith))
          (zeros_eq (m - length (drop k xs)) 0 (omega (arith, short (omega arith)))) in
      let whole : take k xs ≡ xs = take_all k xs (omega arith) in
      ap (λ l. (take k xs ++ replicate (k - length (take k xs)) 0) ++ l) nothing
      ∙ append-nil (take k xs ++ replicate (k - length (take k xs)) 0)
      ∙ ap₂ ◌++◌ whole (
          zeros_eq (k - length (take k xs)) (total - length xs)
            (omega (arith, ap length whole, short (omega arith))))
]

module _ (w h : ℕ) (valid : valid_dimensions w h ≡ true) where
  -- The loop over the chunks, the last of which is filled up with zeros.
  shape_chunks :
      (count : ℕ) (xs : List ℕ)
      → All IsWord xs
      → length xs ≤ count * (w * h)
      → count * (w * h) < length xs + w * h
      → (grids : List Grid) × (collect (from_flat w h) (chunks count (w * h) xs) ≡ ok grids)
        × All (IsGrid w h) grids
        × (length grids ≡ count)
        × (flatten grids ≡ xs ++ replicate (count * (w * h) - length xs) 0)
  unfolding chunks collect flatten
  shape_chunks zero [] words p q = ([], refl, tt, refl, zeros_eq 0 (0 * (w * h) - 0) (omega arith))
  shape_chunks zero (x ∷ xs) words p q = absurd (omega arith)
  shape_chunks (suc count) xs words p q =
      let n : ℕ = w * h in
      let same : h * w ≡ n = omega arith in
      let chunk = take n xs in
      let (g, made, shaped, cells) = from_flat_lem w h valid chunk (All-take IsWord n xs words) in
      let size : length chunk ≡ min n (length xs) = length-take n xs in
      let left : length (drop n xs) ≡ length xs - n = length-drop n xs in
      let total : suc count * n ≡ n + count * n = omega arith in
      let bound : count * n < length xs = omega arith in
      let head : to_flat g ≡ chunk ++ replicate (n - length chunk) 0 =
        cells
        ∙ ap₂ ◌++◌ (take_all (h * w) chunk (omega arith))
            (zeros_eq (h * w - length chunk) (n - length chunk) (omega arith)) in
      let (gs, rest, shapes, size', tail) =
        shape_chunks count (drop n xs) (All-drop IsWord n xs words) (omega arith) (omega arith) in
      (
        g ∷ gs,
        rw (made, rest) refl,
        (shaped, shapes),
        ap suc size',
        ap₂ ◌++◌ head tail
            ∙ join_chunks n (count * n) (suc count * n) xs
                (λ short. less_than_one count n (omega arith)) total,
      )

  -- For valid dimensions, any 64-bit input is shaped into whole grids: the flat cells of the grids
  -- are the input, followed by fewer zeros than a grid has cells, up to the whole number of grids.
  pub shape_grids_lem :
      (input : List ℕ)
      → All IsWord input
      → (grids : List Grid) × (pad : ℕ) × (shape_grids w h input ≡ ok grids)
        × All (IsGrid w h) grids
        × (pad < w * h)
        × (length grids * (w * h) ≡ length input + pad)
        × (flatten grids ≡ input ++ replicate pad 0)
  unfolding shape_grids slice_chunks
  shape_grids_lem input words =
      let n : ℕ = w * h in
      let pos : 0 < n = omega (arith, area_pos w h valid) in
      let some_area : (n == 0) ≡ false = ground arith in
      let count : ℕ = (length input + n - 1) / n in
      let low : (length input + n - 1) % n < n = grind arith in
      let whole : length input + n - 1 ≡ count * n + (length input + n - 1) % n =
        join_div_mod n (length input + n - 1) in
      let (grids, made, shapes, size, cells) =
        shape_chunks count input words (omega arith) (omega arith) in
      (
        grids,
        count * n - length input,
        rw some_area made,
        shapes,
        omega arith,
        ap (λ (k : ℕ). k * (w * h)) size ∙ omega arith,
        cells,
      )
