-- ===== src/Core/Grid/Fill.antt =====
-- core/src/grid.rs: the loop that writes the cells of a grid in order.
use why.Common.{
  ℕ, zero, suc, ◌+◌, ◌*◌, ◌/◌, ◌%◌, ◌≤◌, ◌<◌, ◌≡◌, refl, sym, ap, ◌∙◌, List, [], ◌∷◌, ◌++◌,
  append_assoc, arith, length, get_or, set, drop, concat, All, IsWord, length-append,
}
use why.Core.Grid.{IsRow, IsRows, set_cell, fill}
use why.Core.Grid.Cells.{concat-set_cell_at, div-lt, set-append_right}

pub All-set :
    {A : Type 0} (P : A → Type 0) (xs : List A) (i : ℕ) (v : A)
    → All P xs
    → P v
    → All P (set xs i v)
All-set P [] i v h k = tt
All-set P (x ∷ xs) zero v h k = (k, h.1)
All-set P (x ∷ xs) (suc i) v h k = (h.0, All-set P xs i v h.1 k)

All-get_or :
    {A : Type 0} (P : A → Type 0) (xs : List A) (i : ℕ) (d : A)
    → All P xs
    → i < length xs
    → P (get_or xs i d)
All-get_or P [] i d h k = absurd (omega arith)
All-get_or P (x ∷ xs) zero d h k = h.0
All-get_or P (x ∷ xs) (suc i) d h k = All-get_or P xs i d h.1 (omega arith)

pub length-set : {A : Type 0} (xs : List A) (i : ℕ) (v : A) → length (set xs i v) ≡ length xs
length-set [] i v = refl
length-set (x ∷ xs) zero v = refl
length-set (x ∷ xs) (suc i) v = ap suc (length-set xs i v)

IsRow-lengths : (w : ℕ) (rows : List (List ℕ)) → All (IsRow w) rows → All (λ r. length r ≡ w) rows
IsRow-lengths w [] h = tt
IsRow-lengths w (r ∷ rs) h = (h.0.0, IsRow-lengths w rs h.1)

-- A write inside the grid keeps its shape.
set_cell-IsRows :
    (w h y x v : ℕ) (rows : List (List ℕ))
    → IsRows w h rows
    → y < h
    → IsWord v
    → IsRows w h (set_cell rows y x v)
set_cell-IsRows w h y x v rows s p q =
    let row : IsRow w (get_or rows y []) =
      All-get_or (IsRow w) rows y [] s.1 (omega (arith, s.0)) in
    (
      length-set rows y (set (get_or rows y []) x v) ∙ s.0,
      All-set (IsRow w) rows y (set (get_or rows y []) x v) s.1 (
        length-set (get_or rows y []) x v ∙ row.0,
        All-set IsWord (get_or rows y []) x v row.1 q,
      ),
    )

-- The same loop on a slice, and what it leaves: the values in place of the first `n` cells.
pub fill_cells : ℕ → ℕ → (ℕ → ℕ) → List ℕ → List ℕ
fill_cells zero i value xs = xs
fill_cells (suc n) i value xs = fill_cells n (suc i) value (set xs i (value i))

unfoldable pub tabulate : ℕ → ℕ → (ℕ → ℕ) → List ℕ
tabulate zero i value = []
tabulate (suc n) i value = value i ∷ tabulate n (suc i) value

pub length-tabulate : (n i : ℕ) (value : ℕ → ℕ) → length (tabulate n i value) ≡ n
unfolding tabulate
length-tabulate zero i value = refl
length-tabulate (suc n) i value = ap suc (length-tabulate n (suc i) value)

pub fill_cells-tabulate :
    (n i : ℕ) (value : ℕ → ℕ) (before xs : List ℕ)
    → length before ≡ i
    → n ≤ length xs
    → fill_cells n i value (before ++ xs) ≡ before ++ (tabulate n i value ++ drop n xs)
unfolding fill_cells tabulate
fill_cells-tabulate zero i value before xs e h = refl
fill_cells-tabulate (suc n) i value before [] e h = absurd (omega arith)
fill_cells-tabulate (suc n) i value before (x ∷ xs) e h =
    ap (fill_cells n (suc i) value) (
      set-append_right before (x ∷ xs) i 0 (value i) (omega arith)
      ∙ sym (append_assoc before (value i ∷ []) xs))
    ∙ fill_cells-tabulate n (suc i) value (before ++ value i ∷ []) xs
        (omega (arith, length-append {0} before (value i ∷ []))) (omega arith)
    ∙ append_assoc before (value i ∷ []) (tabulate n (suc i) value ++ drop n xs)

module _ (w h : ℕ) (pos : 0 < w) (value : ℕ → ℕ)
    (words : (i : ℕ) → i < h * w → IsWord (value i)) where
  pub fill_lem :
      (n i : ℕ) (rows : List (List ℕ))
      → IsRows w h rows
      → i + n ≤ h * w
      → IsRows w h (fill w n i value rows)
        × (concat (fill w n i value rows) ≡ fill_cells n i value (concat rows))
  unfolding fill fill_cells
  fill_lem zero i rows s p = (s, refl)
  fill_lem (suc n) i rows s p =
      let s' =
        set_cell-IsRows w h (i / w) (i % w) (value i) rows s (div-lt i w h (omega arith))
          (words i (omega arith)) in
      let rest = fill_lem n (suc i) (set_cell rows (i / w) (i % w) (value i)) s' (omega arith) in
      let inside : i < length rows * w = rw s.0 (omega arith) in
      (
        rest.0,
        rest.1
            ∙ ap (fill_cells n (suc i) value)
                (concat-set_cell_at w i (value i) rows (IsRow-lengths w rows s.1) pos inside),
      )
