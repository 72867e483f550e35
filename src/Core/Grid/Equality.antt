-- ===== src/Core/Grid/Equality.antt =====
-- core/src/grid.rs: the comparison of the `constant-time` build, which goes over every cell.
use why.Common.{
  ℕ, ◌≡◌, ◌↔◌, refl, sym, ap, ap₂, ◌∙◌, arith, Bool, true, false, ◌&&◌, ◌==◌, ==_iff, List, [], ◌∷◌,
  length, All,
}
use why.Core.Grid.{Grid, IsGrid, IsRow}

-- The inner loop, with the result so far. A zip stops at the end of the shorter list.
cells_ct_eq : Bool → List ℕ → List ℕ → Bool
cells_ct_eq result [] ys = result
cells_ct_eq result (x ∷ xs) [] = result
cells_ct_eq result (x ∷ xs) (y ∷ ys) = cells_ct_eq (result && (x == y)) xs ys

rows_ct_eq : Bool → List (List ℕ) → List (List ℕ) → Bool
rows_ct_eq result [] bs = result
rows_ct_eq result (a ∷ as') [] = result
rows_ct_eq result (a ∷ as') (b ∷ bs) = rows_ct_eq (cells_ct_eq result a b) as' bs

pub ct_eq : Grid → Grid → Bool
ct_eq a b = rows_ct_eq true a.rows b.rows

and_true : (p q : Bool) → p && q ≡ true → (p ≡ true) × (q ≡ true)
and_true true q e = (refl, e)
and_true false q e = absurd cc

cells_sound :
    (result : Bool) (xs ys : List ℕ)
    → length xs ≡ length ys
    → cells_ct_eq result xs ys ≡ true
    → (result ≡ true) × (xs ≡ ys)
unfolding cells_ct_eq
cells_sound result [] [] l e = (e, refl)
cells_sound result [] (y ∷ ys) l e = absurd (omega arith)
cells_sound result (x ∷ xs) [] l e = absurd (omega arith)
cells_sound result (x ∷ xs) (y ∷ ys) l e =
    let (both, rest) = cells_sound (result && (x == y)) xs ys (omega arith) e in
    let (before, head) = and_true result (x == y) both in
    (before, ap₂ ◌∷◌ ((==_iff x y).0 head) rest)

rows_sound :
    (w : ℕ) (result : Bool) (as' bs : List (List ℕ))
    → length as' ≡ length bs
    → All (IsRow w) as'
    → All (IsRow w) bs
    → rows_ct_eq result as' bs ≡ true
    → (result ≡ true) × (as' ≡ bs)
unfolding rows_ct_eq
rows_sound w result [] [] l va vb e = (e, refl)
rows_sound w result [] (b ∷ bs) l va vb e = absurd (omega arith)
rows_sound w result (a ∷ as') [] l va vb e = absurd (omega arith)
rows_sound w result (a ∷ as') (b ∷ bs) l va vb e =
    let (row, rest) = rows_sound w (cells_ct_eq result a b) as' bs (omega arith) va.1 vb.1 e in
    let (before, cells) = cells_sound result a b (va.0.0 ∙ sym vb.0.0) row in
    (before, ap₂ ◌∷◌ cells rest)

cells_refl : (xs : List ℕ) → cells_ct_eq true xs xs ≡ true
unfolding cells_ct_eq
cells_refl [] = refl
cells_refl (x ∷ xs) = rw ((==_iff x x).1 refl) (cells_refl xs)

rows_refl : (rows : List (List ℕ)) → rows_ct_eq true rows rows ≡ true
unfolding rows_ct_eq
rows_refl [] = refl
rows_refl (r ∷ rs) = rw (cells_refl r) (rows_refl rs)

-- On grids of one shape the constant-time comparison is equality.
pub ct_eq_iff : (w h : ℕ) (a b : Grid) → IsGrid w h a → IsGrid w h b → (ct_eq a b ≡ true) ↔ (a ≡ b)
unfolding ct_eq
ct_eq_iff w h a b va vb = (
  λ e.
      ap (λ r. record { rows = r })
        (rows_sound w true a.rows b.rows (va.shape.0 ∙ sym vb.shape.0) va.shape.1 vb.shape.1 e).1,
  λ e. ap (λ g. rows_ct_eq true a.rows g.rows) (sym e) ∙ rows_refl a.rows,
)
