-- ===== src/Core/Grid/Cells.antt =====
-- The rows of a grid as one slice of cells, and back.
use why.Common.{
  ℕ, zero, suc, ◌+◌, ◌*◌, ◌/◌, ◌%◌, ◌<◌, ◌≡◌, refl, sym, ap, ap₂, ◌∙◌, List, [], ◌∷◌, ◌++◌, arith,
  length, set, take, drop, concat, All, IsWord, length-append, length-take, length-drop,
  take-append, drop-append, take-append-drop, All-append, All-take, All-drop,
}
use why.Core.Grid.{Grid, IsRow, IsRows, IsGrid, set_cell, chunks, to_flat, with_cells}

length-concat :
    (w : ℕ) (rows : List (List ℕ)) → All (IsRow w) rows → length (concat rows) ≡ length rows * w
length-concat w [] h = omega arith
length-concat w (r ∷ rs) h =
    omega (arith, length-append {0} r (concat rs), length-concat w rs h.1, h.0.0)

All-concat : (w : ℕ) (rows : List (List ℕ)) → All (IsRow w) rows → All IsWord (concat rows)
All-concat w [] h = tt
All-concat w (r ∷ rs) h = All-append IsWord r (concat rs) h.0.1 (All-concat w rs h.1)

-- The chunks of the cells of a grid are its rows.
chunks-concat : (w h : ℕ) (rows : List (List ℕ)) → IsRows w h rows → chunks h w (concat rows) ≡ rows
unfolding chunks
chunks-concat w zero [] s = refl
chunks-concat w zero (r ∷ rs) s = absurd (omega (arith, s.0))
chunks-concat w (suc h) [] s = absurd (omega (arith, s.0))
chunks-concat w (suc h) (r ∷ rs) s = ap₂ ◌∷◌ (take-append w r (concat rs) s.1.0.0) (
    ap (chunks h w) (drop-append w r (concat rs) s.1.0.0)
    ∙ chunks-concat w h rs (omega (arith, s.0), s.1.1))

-- A slice of `h * w` cells is that of its chunks.
concat-chunks :
    {A : Type 0} (w h : ℕ) (xs : List A) → length xs ≡ h * w → concat (chunks h w xs) ≡ xs
unfolding chunks
concat-chunks w zero [] e = refl
concat-chunks w zero (x ∷ xs) e = absurd (omega arith)
concat-chunks w (suc h) xs e =
    ap (λ l. take w xs ++ l) (concat-chunks w h (drop w xs) (omega (arith, length-drop w xs)))
    ∙ take-append-drop w xs

length-chunks : {A : Type 0} (n count : ℕ) (xs : List A) → length (chunks count n xs) ≡ count
unfolding chunks
length-chunks n zero xs = refl
length-chunks n (suc count) xs = ap suc (length-chunks n count (drop n xs))

chunks-IsRows :
    (w h : ℕ) (xs : List ℕ) → length xs ≡ h * w → All IsWord xs → IsRows w h (chunks h w xs)
unfolding chunks
chunks-IsRows w zero xs e k = (refl, tt)
chunks-IsRows w (suc h) xs e k =
    let rest =
      chunks-IsRows w h (drop w xs) (omega (arith, length-drop w xs)) (All-drop IsWord w xs k) in
    (ap suc rest.0, ((omega (arith, length-take w xs), All-take IsWord w xs k), rest.1))

module _ (w h : ℕ) (g : Grid) (valid : IsGrid w h g) where
  pub length-to_flat : length (to_flat g) ≡ h * w
  unfolding to_flat
  length-to_flat = length-concat w g.rows valid.shape.1 ∙ ap (λ n. n * w) valid.shape.0

  pub to_flat-words : All IsWord (to_flat g)
  unfolding to_flat
  to_flat-words = All-concat w g.rows valid.shape.1

  -- An operation on the slice that keeps its length gives a grid with just those cells.
  pub with_cells_lem :
      (f : List ℕ → List ℕ)
      → length (f (to_flat g)) ≡ h * w
      → All IsWord (f (to_flat g))
      → IsGrid w h (with_cells w h f g) × (to_flat (with_cells w h f g) ≡ f (to_flat g))
  unfolding with_cells to_flat
  with_cells_lem f e k = (
    record { shape = chunks-IsRows w h (f (concat g.rows)) e k },
    concat-chunks w h (f (concat g.rows)) e,
  )

-- Grids of one shape with the same cells are the same.
pub to_flat-injective :
    (w h : ℕ) (a b : Grid) → IsGrid w h a → IsGrid w h b → to_flat a ≡ to_flat b → a ≡ b
unfolding to_flat
to_flat-injective w h a b va vb e =
    ap (λ rows. record { rows = rows })
      (sym (chunks-concat w h a.rows va.shape)
        ∙ ap (chunks h w) e
        ∙ chunks-concat w h b.rows vb.shape)

-- Writing a cell of the grid writes the cell of the slice at `y * w + x`.
set-append_left :
    {A : Type 0} (xs ys : List A) (i : ℕ) (v : A)
    → i < length xs
    → set (xs ++ ys) i v ≡ set xs i v ++ ys
set-append_left [] ys i v h = absurd (omega arith)
set-append_left (x ∷ xs) ys zero v h = refl
set-append_left (x ∷ xs) ys (suc i) v h = ap (λ l. x ∷ l) (set-append_left xs ys i v (omega arith))

pub set-append_right :
    {A : Type 0} (xs ys : List A) (i j : ℕ) (v : A)
    → i ≡ length xs + j
    → set (xs ++ ys) i v ≡ xs ++ set ys j v
set-append_right [] ys i j v e = ap (λ n. set ys n v) (omega arith)
set-append_right (x ∷ xs) ys zero j v e = absurd (omega arith)
set-append_right (x ∷ xs) ys (suc i) j v e =
    ap (λ l. x ∷ l) (set-append_right xs ys i j v (omega arith))

concat-set_cell :
    (w y x v : ℕ) (rows : List (List ℕ))
    → All (λ r. length r ≡ w) rows
    → y < length rows
    → x < w
    → concat (set_cell rows y x v) ≡ set (concat rows) (y * w + x) v
concat-set_cell w y x v [] h p q = absurd (omega arith)
concat-set_cell w zero x v (r ∷ rs) h p q = sym (
    ap (λ i. set (r ++ concat rs) i v) (omega arith)
    ∙ set-append_left r (concat rs) x v (omega (arith, h.0)))
concat-set_cell w (suc y) x v (r ∷ rs) h p q =
    ap (λ l. r ++ l) (concat-set_cell w y x v rs h.1 (omega arith) q)
    ∙ sym (set-append_right r (concat rs) (suc y * w + x) (y * w + x) v (omega (arith, h.0)))

pub div-lt : (i w n : ℕ) → i < n * w → i / w < n
div-lt i w n p = grind arith

pub concat-set_cell_at :
    (w i v : ℕ) (rows : List (List ℕ))
    → All (λ r. length r ≡ w) rows
    → 0 < w
    → i < length rows * w
    → concat (set_cell rows (i / w) (i % w) v) ≡ set (concat rows) i v
concat-set_cell_at w i v rows h pos p =
    let whole : i ≡ i / w * w + i % w = grind arith in
    concat-set_cell w (i / w) (i % w) v rows h (div-lt i w (length rows) p) (grind arith)
    ∙ ap (λ n. set (concat rows) n v) (sym whole)
