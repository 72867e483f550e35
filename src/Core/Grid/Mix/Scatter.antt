-- ===== src/Core/Grid/Mix/Scatter.antt =====
-- core/src/grid.rs: the lanes of columns that `mix_columns_inner` gathers and scatters back.
use why.Common.{
  ℕ, zero, suc, ◌+◌, ◌≤◌, ◌<◌, ◌≡◌, ◌≢◌, ◌⊎◌, inl, inr, refl, ap, ap₂, ◌∙◌, arith, true, ltb,
  Bool-cases, List, [], ◌∷◌, map, length, get_or, set, All, IsWord, zip_with,
}
use why.Core.Grid.{IsRow, IsRows}
use why.Core.Grid.Fill.{All-set, length-set}
use why.Core.Grid.Mix.{Lane, gather, scatter, put}
use why.Core.Grid.Mix.Height.{place}

-- The cells of column `c`, from the top.
abbrev pub column : ℕ → List (List ℕ) → List ℕ
column c rows = map (λ row. get_or row c 0) rows

get_or-set_self : (xs : List ℕ) (i v : ℕ) → i < length xs → get_or (set xs i v) i 0 ≡ v
get_or-set_self [] i v h = absurd (omega arith)
get_or-set_self (x ∷ xs) zero v h = refl
get_or-set_self (x ∷ xs) (suc i) v h = get_or-set_self xs i v (omega arith)

get_or-set_ne : (xs : List ℕ) (i j v : ℕ) → i ≢ j → get_or (set xs i v) j 0 ≡ get_or xs j 0
get_or-set_ne [] i j v ne = refl
get_or-set_ne (x ∷ xs) zero zero v ne = absurd (ne refl)
get_or-set_ne (x ∷ xs) zero (suc j) v ne = refl
get_or-set_ne (x ∷ xs) (suc i) zero v ne = refl
get_or-set_ne (x ∷ xs) (suc i) (suc j) v ne = get_or-set_ne xs i j v (λ e. ne (ap suc e))

abbrev pub IsLane : Lane → Type 0
IsLane l = IsWord l.c0 × IsWord l.c1 × IsWord l.c2 × IsWord l.c3

module _ (col take : ℕ) (few : take ≤ 4) where
  put_other :
      (c j v : ℕ) (row : List ℕ)
      → (j ≢ col + c) ⊎ (take ≤ c)
      → get_or (put col take c v row) j 0 ≡ get_or row j 0
  put_other c j v row other = elim (Bool-cases (ltb c take)) [
    | inl e ↦ rw e (get_or-set_ne row (col + c) j v (ground arith))
    | inr e ↦ rw e refl
  ]

  put_self :
      (c v : ℕ) (row : List ℕ)
      → c < take
      → col + c < length row
      → get_or (put col take c v row) (col + c) 0 ≡ v
  put_self c v row p q =
      let e : ltb c take ≡ true = ground arith in rw e (get_or-set_self row (col + c) v q)

  length-put : (c v : ℕ) (row : List ℕ) → length (put col take c v row) ≡ length row
  length-put c v row = elim (Bool-cases (ltb c take)) [
    | inl e ↦ rw e (length-set row (col + c) v)
    | inr e ↦ rw e refl
  ]

  put-words :
      (c v : ℕ) (row : List ℕ) → All IsWord row → IsWord v → All IsWord (put col take c v row)
  put-words c v row h k = elim (Bool-cases (ltb c take)) [
    | inl e ↦ rw e (All-set IsWord row (col + c) v h k)
    | inr e ↦ rw e h
  ]

  module _ (lane : Lane) (row : List ℕ) where
    abbrev p0 : List ℕ
    p0 = put col take 0 lane.c0 row

    abbrev p1 : List ℕ
    p1 = put col take 1 lane.c1 p0

    abbrev p2 : List ℕ
    p2 = put col take 2 lane.c2 p1

    length-scatter : length (scatter col take lane row) ≡ length row
    unfolding scatter
    length-scatter =
        length-put 3 lane.c3 p2
        ∙ length-put 2 lane.c2 p1
        ∙ length-put 1 lane.c1 p0
        ∙ length-put 0 lane.c0 row

    scatter-words : All IsWord row → IsLane lane → All IsWord (scatter col take lane row)
    unfolding scatter
    scatter-words h k =
        put-words 3 lane.c3 p2
          (put-words 2 lane.c2 p1 (put-words 1 lane.c1 p0 (put-words 0 lane.c0 row h k.0) k.1) k.2)
          k.3

    -- Columns outside the lane keep their cells.
    scatter_other :
        (j : ℕ)
        → (j < col) ⊎ (col + take ≤ j)
        → get_or (scatter col take lane row) j 0 ≡ get_or row j 0
    unfolding scatter
    scatter_other j out =
        put_other 3 j lane.c3 p2 (far 3 out)
        ∙ put_other 2 j lane.c2 p1 (far 2 out)
        ∙ put_other 1 j lane.c1 p0 (far 1 out)
        ∙ put_other 0 j lane.c0 row (far 0 out)
      where
        far : (c : ℕ) → (j < col) ⊎ (col + take ≤ j) → (j ≢ col + c) ⊎ (take ≤ c)
        far c (inl p) = inl (omega arith)
        far c (inr p) = elim (Bool-cases (ltb c take)) [
          | inl e ↦ let q : c < take = ground arith in inl (omega arith)
          | inr e ↦ inr (ground arith)
        ]

    -- Columns of the lane get its places.
    scatter_self :
        (j : ℕ)
        → j < take
        → col + take ≤ length row
        → get_or (scatter col take lane row) (col + j) 0 ≡ place j lane
    unfolding scatter
    scatter_self zero p q =
        put_other 3 (col + 0) lane.c3 p2 (inl (omega arith))
        ∙ put_other 2 (col + 0) lane.c2 p1 (inl (omega arith))
        ∙ put_other 1 (col + 0) lane.c1 p0 (inl (omega arith))
        ∙ put_self 0 lane.c0 row p (omega arith)
    scatter_self (suc zero) p q =
        put_other 3 (col + 1) lane.c3 p2 (inl (omega arith))
        ∙ put_other 2 (col + 1) lane.c2 p1 (inl (omega arith))
        ∙ put_self 1 lane.c1 p0 p (omega (arith, length-put 0 lane.c0 row))
    scatter_self (suc (suc zero)) p q =
        put_other 3 (col + 2) lane.c3 p2 (inl (omega arith))
        ∙ put_self 2 lane.c2 p1 p (omega (arith, length-put 1 lane.c1 p0, length-put 0 lane.c0 row))
    scatter_self (suc (suc (suc zero))) p q =
        put_self 3 lane.c3 p2 p (
          omega (arith, length-put 2 lane.c2 p1, length-put 1 lane.c1 p0, length-put 0 lane.c0 row))
    scatter_self (suc (suc (suc (suc j)))) p q = absurd (omega arith)

  gather_self :
      (j : ℕ) (row : List ℕ) → j < take → place j (gather col take row) ≡ get_or row (col + j) 0
  unfolding gather
  gather_self zero row p = ground arith
  gather_self (suc zero) row p = ground arith
  gather_self (suc (suc zero)) row p = ground arith
  gather_self (suc (suc (suc zero))) row p = ground arith
  gather_self (suc (suc (suc (suc j)))) row p = absurd (omega arith)

  pub gather-column :
      (j : ℕ) (rows : List (List ℕ))
      → j < take
      → map (place j) (map (gather col take) rows) ≡ column (col + j) rows
  gather-column j [] p = refl
  gather-column j (r ∷ rs) p = ap₂ ◌∷◌ (gather_self j r p) (gather-column j rs p)

  pub scatter-column :
      (j : ℕ) (out : List Lane) (rows : List (List ℕ)) (w : ℕ)
      → j < take
      → col + take ≤ w
      → length out ≡ length rows
      → All (IsRow w) rows
      → column (col + j) (zip_with (scatter col take) out rows) ≡ map (place j) out
  scatter-column j [] [] w p q e h = refl
  scatter-column j [] (r ∷ rs) w p q e h = absurd (omega arith)
  scatter-column j (l ∷ ls) [] w p q e h = absurd (omega arith)
  scatter-column j (l ∷ ls) (r ∷ rs) w p q e h =
      ap₂ ◌∷◌ (scatter_self l r j p (omega (arith, h.0.0)))
        (scatter-column j ls rs w p q (omega arith) h.1)

  pub scatter-column_other :
      (j : ℕ) (out : List Lane) (rows : List (List ℕ))
      → (j < col) ⊎ (col + take ≤ j)
      → length out ≡ length rows
      → column j (zip_with (scatter col take) out rows) ≡ column j rows
  scatter-column_other j [] [] p e = refl
  scatter-column_other j [] (r ∷ rs) p e = absurd (omega arith)
  scatter-column_other j (l ∷ ls) [] p e = absurd (omega arith)
  scatter-column_other j (l ∷ ls) (r ∷ rs) p e =
      ap₂ ◌∷◌ (scatter_other l r j p) (scatter-column_other j ls rs p (omega arith))

  pub scatter-IsRows :
      (w h : ℕ) (out : List Lane) (rows : List (List ℕ))
      → length out ≡ length rows
      → All IsLane out
      → IsRows w h rows
      → IsRows w h (zip_with (scatter col take) out rows)
  scatter-IsRows w h [] [] e k s = s
  scatter-IsRows w h [] (r ∷ rs) e k s = absurd (omega arith)
  scatter-IsRows w h (l ∷ ls) [] e k s = absurd (omega arith)
  scatter-IsRows w zero (l ∷ ls) (r ∷ rs) e k s = absurd (omega (arith, s.0))
  scatter-IsRows w (suc h) (l ∷ ls) (r ∷ rs) e k s =
      let rest = scatter-IsRows w h ls rs (omega arith) k.1 (omega (arith, s.0), s.1.1) in
      (ap suc rest.0, ((length-scatter l r ∙ s.1.0.0, scatter-words l r s.1.0.1 k.0), rest.1))
