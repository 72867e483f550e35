-- ===== src/Core/Grid/Mix/Matrix.antt =====
-- core/src/consts/mds.rs: each of the three matrices is its own inverse, so a column that is mixed
-- twice is the column.
use native.Mathlib.Nat.{pow-suc}
use why.Common.{
  ℕ, zero, suc, ◌+◌, ◌*◌, ◌^◌, ◌<◌, ◌≡◌, refl, sym, ap, ap₂, ◌∙◌, fun_ext, arith, Bool, true, ◌&&◌,
  ltb, List, [], ◌∷◌, map, length, get_or, replicate, All, IsWord, bit_xor, bit_xor-lt,
  bit_xor-zero, zero-bit_xor, bit_xor_interchange, zip_with, length-zip_with, length-replicate,
  length-map,
}
use why.Core.Consts.{mds_4, mds_8, mds_16}
use why.Core.Grid.Mix.{highest}
use why.Core.Grid.Mix.Field.{
  act, act-IsWord, act-bit_xor, act_word_zero, act-coefficient, act_zero, act_one, act_more, clmul,
  act-clmul,
}
use why.Core.Grid.Mix.Scalar.{dot, entries, entry_rows, mix_column, mix_column-dot}

dot-IsWord : (n : ℕ) (cs xs : List ℕ) → All IsWord xs → IsWord (dot n cs xs)
unfolding dot
dot-IsWord n [] xs h = omega arith
dot-IsWord n (c ∷ cs) [] h = omega arith
dot-IsWord n (c ∷ cs) (x ∷ xs) h =
    bit_xor-lt 64 (act n c x) (dot n cs xs) (act-IsWord n c x h.0) (dot-IsWord n cs xs h.1)

pow-add-lt : (n more c : ℕ) → c < 2 ^ n → c < 2 ^ (more + n)
pow-add-lt n zero c h = omega (arith, ap (λ (k : ℕ). 2 ^ k) {x = 0 + n} {y = n} (omega arith))
pow-add-lt n (suc more) c h = omega (
  arith,
  ap (λ (k : ℕ). 2 ^ k) {x = suc more + n} {y = suc (more + n)} (omega arith),
  pow-suc 2 (more + n),
  pow-add-lt n more c h,
)

-- More places than the coefficients have change nothing.
act_padded : (n more c v : ℕ) → c < 2 ^ n → act (more + n) c v ≡ act n c v
act_padded n zero c v h = ap (λ k. act k c v) {x = 0 + n} {y = n} (omega arith)
act_padded n (suc more) c v h =
    ap (λ k. act k c v) {x = suc more + n} {y = suc (more + n)} (omega arith)
    ∙ act_more (more + n) c v (pow-add-lt n more c h)
    ∙ act_padded n more c v h

-- A row of `f + 1` places by the sum of rows of `n` places.
abbrev scale : ℕ → ℕ → List ℕ → List ℕ
scale n c ds = map (clmul n c) ds

abbrev combine : ℕ → ℕ → List ℕ → List (List ℕ) → List ℕ
combine n width [] rows = replicate width 0
combine n width (c ∷ cs) [] = replicate width 0
combine n width (c ∷ cs) (row ∷ rows) = zip_with bit_xor (scale n c row) (combine n width cs rows)

dot-add :
    (n : ℕ) (cs bs xs : List ℕ)
    → length cs ≡ length bs
    → dot n (zip_with bit_xor cs bs) xs ≡ bit_xor (dot n cs xs) (dot n bs xs)
unfolding dot
dot-add n [] [] xs e = refl
dot-add n [] (b ∷ bs) xs e = absurd (omega arith)
dot-add n (a ∷ cs) [] xs e = absurd (omega arith)
dot-add n (a ∷ cs) (b ∷ bs) [] e = refl
dot-add n (a ∷ cs) (b ∷ bs) (x ∷ xs) e =
    ap₂ bit_xor (act-coefficient n a b x) (dot-add n cs bs xs (omega arith))
    ∙ bit_xor_interchange (act n a x) (act n b x) (dot n cs xs) (dot n bs xs)

dot_zeros : (n width : ℕ) (xs : List ℕ) → dot n (replicate width 0) xs ≡ 0
unfolding dot
dot_zeros n zero xs = refl
dot_zeros n (suc width) [] = refl
dot_zeros n (suc width) (x ∷ xs) = ap₂ bit_xor (act_zero n x) (dot_zeros n width xs)

module _ (n f : ℕ) where
  -- What a coefficient must be below for its products to fit.
  abbrev Fits : ℕ → Type 0
  Fits d = (d < 2 ^ n) × (d * 2 ^ n < 2 ^ suc f)

  dot-scale :
      (c : ℕ) (ds xs : List ℕ)
      → All Fits ds
      → All IsWord xs
      → dot (suc f) (scale n c ds) xs ≡ act n c (dot (suc f) ds xs)
  unfolding dot
  dot-scale c [] xs h k = sym (act_word_zero n c)
  dot-scale c (d ∷ ds) [] h k = sym (act_word_zero n c)
  dot-scale c (d ∷ ds) (x ∷ xs) h k =
      ap₂ bit_xor (act-clmul f n c d x h.0.1 k.0) (dot-scale c ds xs h.1 k.1)
      ∙ sym (
          act-bit_xor n c (act (suc f) d x) (dot (suc f) ds xs) (act-IsWord (suc f) d x k.0)
            (dot-IsWord (suc f) ds xs k.1))

  length-combine :
      (width : ℕ) (cs : List ℕ) (rows : List (List ℕ))
      → All (λ row. length row ≡ width) rows
      → length (combine n width cs rows) ≡ width
  length-combine width [] rows h = length-replicate width 0
  length-combine width (c ∷ cs) [] h = length-replicate width 0
  length-combine width (c ∷ cs) (row ∷ rows) h =
      length-zip_with bit_xor (scale n c row) (combine n width cs rows)
        (length-map (clmul n c) row ∙ h.0 ∙ sym (length-combine width cs rows h.1))
      ∙ length-map (clmul n c) row
      ∙ h.0

  module _ (more : ℕ) (sum : suc f ≡ more + n) where
    dot_padded : (ds xs : List ℕ) → All Fits ds → dot (suc f) ds xs ≡ dot n ds xs
    unfolding dot
    dot_padded [] xs h = refl
    dot_padded (d ∷ ds) [] h = refl
    dot_padded (d ∷ ds) (x ∷ xs) h =
        ap₂ bit_xor (ap (λ k. act k d x) sum ∙ act_padded n more d x h.0.0) (dot_padded ds xs h.1)

    -- A row applied to a product is the combined row applied to the column.
    dot-combine :
        (width : ℕ) (cs : List ℕ) (rows : List (List ℕ)) (xs : List ℕ)
        → All (λ row. length row ≡ width) rows
        → All (All Fits) rows
        → All IsWord xs
        → dot n cs (map (λ row. dot n row xs) rows) ≡ dot (suc f) (combine n width cs rows) xs
    unfolding dot
    dot-combine width [] rows xs hl hf hx = sym (dot_zeros (suc f) width xs)
    dot-combine width (c ∷ cs) [] xs hl hf hx = sym (dot_zeros (suc f) width xs)
    dot-combine width (c ∷ cs) (row ∷ rows) xs hl hf hx =
        ap₂ bit_xor (ap (act n c) (sym (dot_padded row xs hf.0)) ∙ sym (dot-scale c row xs hf.0 hx))
          (dot-combine width cs rows xs hl.1 hf.1 hx)
        ∙ sym (
            dot-add (suc f) (scale n c row) (combine n width cs rows) xs
              (length-map (clmul n c) row ∙ hl.0 ∙ sym (length-combine width cs rows hl.1)))

abbrev identity : ℕ → List (List ℕ)
identity zero = []
identity (suc n) = (1 ∷ replicate n 0) ∷ map (λ row. 0 ∷ row) (identity n)

identity-dot : (f : ℕ) (xs : List ℕ) → map (λ row. dot (suc f) row xs) (identity (length xs)) ≡ xs
unfolding dot
identity-dot f [] = refl
identity-dot f (x ∷ xs) =
    ap₂ ◌∷◌ (ap₂ bit_xor (act_one f x) (dot_zeros (suc f) (length xs) xs) ∙ bit_xor-zero x)
      (under (identity (length xs)) ∙ identity-dot f xs)
  where
    under :
        (rows : List (List ℕ))
        → map (λ row. dot (suc f) row (x ∷ xs)) (map (λ row. 0 ∷ row) rows)
          ≡ map (λ row. dot (suc f) row xs) rows
    under [] = refl
    under (r ∷ rs) =
        ap₂ ◌∷◌
          (ap (λ t. bit_xor t (dot (suc f) r xs)) (act_zero (suc f) x)
            ∙ zero-bit_xor (dot (suc f) r xs))
          (under rs)

abbrev fit_row : ℕ → ℕ → List ℕ → Bool
fit_row n f [] = true
fit_row n f (d ∷ ds) = (ltb d (2 ^ n) && ltb (d * 2 ^ n) (2 ^ suc f)) && fit_row n f ds

abbrev fit_rows : ℕ → ℕ → List (List ℕ) → Bool
fit_rows n f [] = true
fit_rows n f (row ∷ rows) = fit_row n f row && fit_rows n f rows

fit_row_sound : (n f : ℕ) (ds : List ℕ) → fit_row n f ds ≡ true → All (Fits n f) ds
fit_row_sound n f [] h = tt
fit_row_sound n f (d ∷ ds) h = ((ground arith, ground arith), fit_row_sound n f ds (ground arith))

fit_rows_sound :
    (n f : ℕ) (rows : List (List ℕ)) → fit_rows n f rows ≡ true → All (All (Fits n f)) rows
fit_rows_sound n f [] h = tt
fit_rows_sound n f (row ∷ rows) h =
    (fit_row_sound n f row (ground arith), fit_rows_sound n f rows (ground arith))

-- The conditions on a matrix, which evaluation decides.
pub record IsInvolution (n : ℕ) (matrix : List (List ℕ)) (exp f more : ℕ) : Type 0 where
  power : highest (get_or matrix 0 []) ≡ exp
  hadamard : entry_rows (get_or matrix 0 []) n n 0 ≡ matrix
  places : suc f ≡ more + exp
  widths : All (λ row. length row ≡ n) matrix
  fits : fit_rows exp f matrix ≡ true
  square : map (λ row. combine exp n row matrix) matrix ≡ identity n

pub mds_4-IsInvolution : IsInvolution 4 mds_4 3 15 13
unfolding highest entries entry_rows clmul
mds_4-IsInvolution = record {
  power = refl;
  hadamard = refl;
  places = refl;
  widths = omega arith;
  fits = refl;
  square = refl;
}

pub mds_8-IsInvolution : IsInvolution 8 mds_8 4 15 12
unfolding highest entries entry_rows clmul
mds_8-IsInvolution = record {
  power = refl;
  hadamard = refl;
  places = refl;
  widths = omega arith;
  fits = refl;
  square = refl;
}

pub mds_16-IsInvolution : IsInvolution 16 mds_16 8 15 8
unfolding highest entries entry_rows clmul
mds_16-IsInvolution = record {
  power = refl;
  hadamard = refl;
  places = refl;
  widths = omega arith;
  fits = refl;
  square = refl;
}

map-map :
    {A B C : Type 0} (f : B → C) (g : A → B) (xs : List A)
    → map f (map g xs) ≡ map (λ x. f (g x)) xs
map-map f g [] = refl
map-map f g (x ∷ xs) = ap (λ l. f (g x) ∷ l) (map-map f g xs)

length-entry_rows : (m : List ℕ) (w n i : ℕ) → length (entry_rows m w n i) ≡ n
unfolding entry_rows
length-entry_rows m w zero i = refl
length-entry_rows m w (suc n) i = ap suc (length-entry_rows m w n (suc i))

module _ (n : ℕ) (matrix : List (List ℕ)) {exp f more : ℕ}
    (inv : IsInvolution n matrix exp f more) where
  -- Mixing a column of words is the product with the matrix.
  pub mix_column-product :
      (xs : List ℕ) → length xs ≡ n → mix_column n matrix xs ≡ map (λ row. dot exp row xs) matrix
  mix_column-product xs e =
      mix_column-dot n matrix xs e
      ∙ ap₂ (λ k rows. map (λ row. dot k row xs) rows) inv.power inv.hadamard

  length-matrix : length matrix ≡ n
  length-matrix = ap length (sym inv.hadamard) ∙ length-entry_rows (get_or matrix 0 []) n n 0

  pub length-mix_column : (xs : List ℕ) → length xs ≡ n → length (mix_column n matrix xs) ≡ n
  length-mix_column xs e =
      ap length (mix_column-product xs e)
      ∙ length-map (λ row. dot exp row xs) matrix
      ∙ length-matrix

  pub mix_column-IsWord :
      (xs : List ℕ) → length xs ≡ n → All IsWord xs → All IsWord (mix_column n matrix xs)
  mix_column-IsWord xs e h = rw (mix_column-product xs e) (on_rows matrix)
    where
      on_rows : (rows : List (List ℕ)) → All IsWord (map (λ row. dot exp row xs) rows)
      on_rows [] = tt
      on_rows (r ∷ rs) = (dot-IsWord exp r xs h, on_rows rs)

  -- Mixed twice, a column is itself.
  pub mix_column_twice :
      (xs : List ℕ)
      → length xs ≡ n
      → All IsWord xs
      → mix_column n matrix (mix_column n matrix xs) ≡ xs
  mix_column_twice xs e h =
      mix_column-product (mix_column n matrix xs) (length-mix_column xs e)
      ∙ ap (λ ys. map (λ row. dot exp row ys) matrix) (mix_column-product xs e)
      ∙ ap (λ g. map g matrix)
          (fun_ext λ cs.
            dot-combine exp f more inv.places n cs matrix xs inv.widths
              (fit_rows_sound exp f matrix inv.fits) h)
      ∙ sym (map-map (λ row. dot (suc f) row xs) (λ cs. combine exp n cs matrix) matrix)
      ∙ ap (map (λ row. dot (suc f) row xs)) (inv.square ∙ ap identity (sym e))
      ∙ identity-dot f xs
