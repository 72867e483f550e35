-- ===== src/Core/Grid/Mix/Height.antt =====
-- core/src/grid.rs: the three instances of `mix_hadamard`, and the match on `H` that picks one.
use why.Common.{
  ℕ, zero, suc, ◌≡◌, ◌⊎◌, inl, inr, refl, sym, ap, ◌∙◌, arith, true, ◌==◌, if◌then◌else◌, List, map,
  length, All, IsWord,
}
use why.Core.Consts.{mds_4, mds_8, mds_16}
use why.Core.Outcome.{ok}
use why.Core.Grid.{valid_dimensions}
use why.Core.Grid.Mix.{Lane, mix_hadamard, mix_lanes, xor_lane, xtime_lane}
use why.Core.Grid.Mix.Scalar.{dot, mix_column, place-mix_hadamard}
use why.Core.Grid.Mix.Matrix.{
  IsInvolution, mds_4-IsInvolution, mds_8-IsInvolution, mds_16-IsInvolution, length-mix_column,
  mix_column-IsWord, mix_column-product, mix_column_twice,
}

-- The place `j` of a lane.
abbrev pub place : ℕ → Lane → ℕ
place zero l = l.c0
place (suc zero) l = l.c1
place (suc (suc zero)) l = l.c2
place (suc (suc (suc j))) l = l.c3

abbrev pub column_mix : ℕ → List ℕ → List ℕ
column_mix h =
    if h == 4
    then mix_column 4 mds_4
    else if h == 8
    then mix_column 8 mds_8
    else mix_column 16 mds_16

-- The matrix of a height, and the number of coefficients that its entries have over GF(2).
abbrev mds : ℕ → List (List ℕ)
mds h = if h == 4 then mds_4 else if h == 8 then mds_8 else mds_16

abbrev mds_power : ℕ → ℕ
mds_power h = if h == 4 then 3 else if h == 8 then 4 else 8

-- The product of the matrix with a column of words.
abbrev pub matrix_product : ℕ → List ℕ → List ℕ
matrix_product h xs = map (λ row. dot (mds_power h) row xs) (mds h)

-- A column of the height that is mixed.
pub record IsMix (h : ℕ) : Type 0 where
  pub same_length : (xs : List ℕ) → length xs ≡ h → length (column_mix h xs) ≡ h
  pub words : (xs : List ℕ) → length xs ≡ h → All IsWord xs → All IsWord (column_mix h xs)
  pub product : (xs : List ℕ) → length xs ≡ h → column_mix h xs ≡ matrix_product h xs
  pub twice : (xs : List ℕ) → length xs ≡ h → All IsWord xs → column_mix h (column_mix h xs) ≡ xs

place-mix :
    (n j : ℕ) (matrix : List (List ℕ)) (x : List Lane)
    → map (place j) (mix_hadamard n matrix x) ≡ mix_column n matrix (map (place j) x)
place-mix n zero matrix x =
    place-mix_hadamard n matrix x (place 0) (unfold xor_lane in λ a b. refl)
      (unfold xtime_lane in λ a. refl) refl
place-mix n (suc zero) matrix x =
    place-mix_hadamard n matrix x (place 1) (unfold xor_lane in λ a b. refl)
      (unfold xtime_lane in λ a. refl) refl
place-mix n (suc (suc zero)) matrix x =
    place-mix_hadamard n matrix x (place 2) (unfold xor_lane in λ a b. refl)
      (unfold xtime_lane in λ a. refl) refl
place-mix n (suc (suc (suc j))) matrix x =
    place-mix_hadamard n matrix x (place (suc (suc (suc j)))) (unfold xor_lane in λ a b. refl)
      (unfold xtime_lane in λ a. refl) refl

module _ (n : ℕ) (matrix : List (List ℕ)) {exp f more : ℕ}
    (inv : IsInvolution n matrix exp f more) where
  mixes :
      (h : ℕ)
      → h ≡ n
      → column_mix h ≡ mix_column n matrix
      → mds h ≡ matrix
      → mds_power h ≡ exp
      → IsMix h
  mixes h e same matrices powers = record {
    same_length =
        λ xs l. ap (λ f. length (f xs)) same ∙ length-mix_column n matrix inv xs (l ∙ e) ∙ sym e;
    words = λ xs l k. rw same (mix_column-IsWord n matrix inv xs (l ∙ e) k);
    product = λ xs l. rw (same, matrices, powers) (mix_column-product n matrix inv xs (l ∙ e));
    twice = λ xs l k. rw same (mix_column_twice n matrix inv xs (l ∙ e) k);
  }

height-cases : (w h : ℕ) → valid_dimensions w h ≡ true → (h ≡ 4) ⊎ ((h ≡ 8) ⊎ (h ≡ 16))
height-cases w h valid = ground arith

module _ (w h : ℕ) (valid : valid_dimensions w h ≡ true) where
  pub height-IsMix : IsMix h
  height-IsMix = elim (height-cases w h valid) [
    | inl e ↦ mixes 4 mds_4 mds_4-IsInvolution h e (rw e) (rw e) (rw e)
    | inr (inl e) ↦ mixes 8 mds_8 mds_8-IsInvolution h e (rw e) (rw e) (rw e)
    | inr (inr e) ↦ mixes 16 mds_16 mds_16-IsInvolution h e (rw e) (rw e) (rw e)
  ]

  -- For a valid height the match does not panic, and each place of the lanes is a mixed column.
  pub mix_lanes_lem :
      (x : List Lane)
      → (out : List Lane) × (mix_lanes h x ≡ ok out)
        × ((j : ℕ) → map (place j) out ≡ column_mix h (map (place j) x))
  unfolding mix_lanes
  mix_lanes_lem x = elim (height-cases w h valid) [
    | inl e ↦ (mix_hadamard 4 mds_4 x, rw e, λ j. rw e (place-mix 4 j mds_4 x))
    | inr (inl e) ↦ (mix_hadamard 8 mds_8 x, rw e, λ j. rw e (place-mix 8 j mds_8 x))
    | inr (inr e) ↦ (mix_hadamard 16 mds_16 x, rw e, λ j. rw e (place-mix 16 j mds_16 x))
  ]
