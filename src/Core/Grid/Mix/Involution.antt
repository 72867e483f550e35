-- ===== src/Core/Grid/Mix/Involution.antt =====
-- core/src/grid.rs: `mix_columns` is total on grids, and its own inverse.
use mathlib.Core.List.{head-eq_of_cons-eq, tail-eq_of_cons-eq}
use why.Common.{
  ℕ, suc, ◌<◌, ◌≡◌, refl, sym, ap, ap₂, ◌∙◌, arith, true, false, ltb, if◌then◌else◌, List, [], ◌∷◌,
  length, length-map, get_or, All,
}
use why.Core.Outcome.{ok, ok-injective}
use why.Core.Grid.{Grid, IsRow, IsGrid, valid_dimensions}
use why.Core.Grid.Mix.{mix_columns}
use why.Core.Grid.Mix.Height.{matrix_product, column_mix, height-IsMix}
use why.Core.Grid.Mix.Scatter.{column}
use why.Core.Grid.Mix.Columns.{mix_loop_lem, column-words}

row_ext :
    (a b : List ℕ)
    → length a ≡ length b
    → ((c : ℕ) → c < length a → get_or a c 0 ≡ get_or b c 0)
    → a ≡ b
row_ext [] [] e h = refl
row_ext [] (b ∷ bs) e h = absurd (omega arith)
row_ext (a ∷ as') [] e h = absurd (omega arith)
row_ext (a ∷ as') (b ∷ bs) e h =
    ap₂ ◌∷◌ (h 0 (omega arith)) (row_ext as' bs (omega arith) (λ c p. h (suc c) (omega arith)))

-- Grids of one shape whose columns agree are the same.
rows_ext :
    (w : ℕ) (a b : List (List ℕ))
    → length a ≡ length b
    → All (IsRow w) a
    → All (IsRow w) b
    → ((c : ℕ) → c < w → column c a ≡ column c b)
    → a ≡ b
rows_ext w [] [] e ha hb h = refl
rows_ext w [] (b ∷ bs) e ha hb h = absurd (omega arith)
rows_ext w (a ∷ as') [] e ha hb h = absurd (omega arith)
rows_ext w (a ∷ as') (b ∷ bs) e ha hb h =
    ap₂ ◌∷◌
      (row_ext a b (ha.0.0 ∙ sym hb.0.0) (λ c p. head-eq_of_cons-eq (h c (omega (arith, ha.0.0)))))
      (rows_ext w as' bs (omega arith) ha.1 hb.1 (λ c p. tail-eq_of_cons-eq (h c p)))

module _ (w h : ℕ) (valid : valid_dimensions w h ≡ true) where
  -- `mix_columns` does not panic on a grid, keeps its shape, and mixes each column.
  pub mix_columns_lem :
      (g : Grid)
      → IsGrid w h g
      → (g' : Grid) × (mix_columns w h g ≡ ok g')
        × IsGrid w h g'
        × ((c : ℕ) → c < w → column c g'.rows ≡ column_mix h (column c g.rows))
  unfolding mix_columns
  mix_columns_lem g shaped =
      let (rows, done, shaped', columns) =
        mix_loop_lem w h valid w 0 g.rows shaped.shape (omega arith) in
      (
        record { rows = rows },
        rw done refl,
        record { shape = shaped' },
        λ c p. columns c p ∙ not_before c,
      )
    where
      not_before :
          (c : ℕ)
          → (if ltb c 0 then column c g.rows else column_mix h (column c g.rows))
            ≡ column_mix h (column c g.rows)
      not_before c = let e : ltb c 0 ≡ false = ground arith in rw e refl

  -- For valid dimensions, mixing the columns of a grid does not panic, and mixing them twice gives
  -- the grid back.
  pub mix_columns_twice :
      (g : Grid)
      → IsGrid w h g
      → (g' : Grid) × (mix_columns w h g ≡ ok g') × (mix_columns w h g' ≡ ok g)
  mix_columns_twice g shaped =
      let (g1, once, s1, c1) = mix_columns_lem g shaped in
      let (g2, twice, s2, c2) = mix_columns_lem g1 s1 in
      let same : g2.rows ≡ g.rows =
        rows_ext w g2.rows g.rows (s2.shape.0 ∙ sym shaped.shape.0) s2.shape.1 shaped.shape.1 λ c p.
          c2 c p
          ∙ ap (column_mix h) (c1 c p)
          ∙ (height-IsMix w h valid).twice (column c g.rows)
              (length-map (λ row. get_or row c 0) g.rows ∙ shaped.shape.0)
              (column-words w c g.rows shaped.shape.1) in
      (g1, once, twice ∙ ap (λ rows. ok (record { rows = rows })) same)

  pub mix_columns-injective :
      (a b : Grid) → IsGrid w h a → IsGrid w h b → mix_columns w h a ≡ mix_columns w h b → a ≡ b
  mix_columns-injective a b va vb e =
      let (a1, once_a, back_a) = mix_columns_twice a va in
      let (b1, once_b, back_b) = mix_columns_twice b vb in
      let same : a1 ≡ b1 = ok-injective (sym once_a ∙ e ∙ once_b) in
      ok-injective (sym back_a ∙ ap (mix_columns w h) same ∙ back_b)

  -- For valid dimensions `mix_columns` does not panic on a grid and keeps its shape, and each
  -- column of the result is the product of the height's matrix with this column of the grid, over
  -- GF(2 ^ 64).
  pub mix_columns-column :
      (g : Grid) (c : ℕ)
      → IsGrid w h g
      → c < w
      → (g' : Grid) × (mix_columns w h g ≡ ok g')
        × IsGrid w h g'
        × (column c g'.rows ≡ matrix_product h (column c g.rows))
  mix_columns-column g c shaped p =
      let (g', mixed, shaped', columns) = mix_columns_lem g shaped in
      (
        g',
        mixed,
        shaped',
        columns c p
            ∙ (height-IsMix w h valid).product (column c g.rows)
                (length-map (λ row. get_or row c 0) g.rows ∙ shaped.shape.0),
      )
