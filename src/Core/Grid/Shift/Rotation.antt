-- ===== src/Core/Grid/Shift/Rotation.antt =====
-- core/src/grid.rs: the row shifts are in range, and `shift_rows` is a permutation of each row.
use mathlib.Core.List.{head-eq_of_cons-eq, tail-eq_of_cons-eq}
use why.Common.{
  ℕ, zero, suc, ◌+◌, ◌-◌, ◌*◌, ◌^◌, ◌≤◌, ◌<◌, ◌≡◌, refl, sym, ap, ap₂, ◌∙◌, List, [], ◌∷◌, ◌++◌,
  map, arith, bit_xor-lt, bit_xor, length, take, drop, All, IsWord, append_assoc, append-nil,
  length-append, length-take, length-drop, take-append, drop-append, take-append-drop, All-append,
  All-take, All-drop, take_all, drop_all, zip_with,
}
use why.Core.Outcome.{ok}
use why.Core.Grid.{Grid, IsRow, IsRows, IsGrid}
use why.Core.Grid.Cells.{div-lt}
use why.Core.Grid.Shift.{
  xor_fold, row_shift, precalculate_shifts, rotate_left, shift_row, shift_rows,
}

-- The row with its first `k` cells moved to the end.
abbrev pub rotated : ℕ → List ℕ → List ℕ
rotated k row = drop k row ++ take k row

xor_fold-IsWord : (acc : ℕ) (row : List ℕ) → IsWord acc → All IsWord row → IsWord (xor_fold acc row)
unfolding xor_fold
xor_fold-IsWord acc [] p h = p
xor_fold-IsWord acc (x ∷ xs) p h =
    xor_fold-IsWord (bit_xor acc x) xs (bit_xor-lt 64 acc x p h.0) h.1

row_shift-lt : (w : ℕ) (row : List ℕ) → 0 < w → All IsWord row → row_shift w row < w
unfolding row_shift
row_shift-lt w row pos h =
    let hash = xor_fold-IsWord 0 row (omega arith) h in
    div-lt (xor_fold 0 row * w) (2 ^ 64) w (below (xor_fold 0 row) w hash pos)
  where
    below : (x w : ℕ) → x < 2 ^ 64 → 0 < w → x * w < w * 2 ^ 64
    below x w p q = grind arith

-- There is one shift for each row, and each is below the width.
pub precalculate_shifts-lt :
    (w h : ℕ) (g : Grid)
    → 0 < w
    → IsGrid w h g
    → (length (precalculate_shifts w g) ≡ h) × All (λ s. s < w) (precalculate_shifts w g)
unfolding precalculate_shifts
precalculate_shifts-lt w h g pos shaped =
    let both = on_rows g.rows shaped.shape.1 in (both.0 ∙ shaped.shape.0, both.1)
  where
    on_rows :
        (rows : List (List ℕ))
        → All (IsRow w) rows
        → (length (map (row_shift w) rows) ≡ length rows)
          × All (λ s. s < w) (map (row_shift w) rows)
    on_rows [] h = (refl, tt)
    on_rows (r ∷ rs) h =
        let rest = on_rows rs h.1 in (ap suc rest.0, (row_shift-lt w r pos h.0.1, rest.1))

length-rotated : (k : ℕ) (row : List ℕ) → length (rotated k row) ≡ length row
length-rotated k row =
    omega (arith, length-append {0} (drop k row) (take k row), length-take k row, length-drop k row)

pub rotated-IsRow : (w k : ℕ) (row : List ℕ) → IsRow w row → IsRow w (rotated k row)
rotated-IsRow w k row h = (
  length-rotated k row ∙ h.0,
  All-append IsWord (drop k row) (take k row) (All-drop IsWord k row h.1)
      (All-take IsWord k row h.1),
)

rotated-append : (k : ℕ) (xs ys : List ℕ) → length xs ≡ k → rotated k (xs ++ ys) ≡ ys ++ xs
rotated-append k xs ys e = ap₂ ◌++◌ (drop-append k xs ys e) (take-append k xs ys e)

-- Rotating by `b` and then by `a` is rotating by `b + a`, up to the length.
pub rotated-rotated :
    (a b : ℕ) (row : List ℕ) → b + a ≤ length row → rotated a (rotated b row) ≡ rotated (b + a) row
rotated-rotated a b row h =
    let xs = take b row in
    let ys = take a (drop b row) in
    let zs = drop a (drop b row) in
    let lx : length xs ≡ b = omega (arith, length-take b row) in
    let ly : length ys ≡ a = omega (arith, length-take a (drop b row), length-drop b row) in
    let tail : drop b row ≡ ys ++ zs = sym (take-append-drop a (drop b row)) in
    let whole : row ≡ (xs ++ ys) ++ zs =
      sym (take-append-drop b row) ∙ ap (λ l. xs ++ l) tail ∙ sym (append_assoc xs ys zs) in
    let first : rotated b row ≡ ys ++ (zs ++ xs) = ap (λ l. l ++ xs) tail ∙ append_assoc ys zs xs in
    ap (rotated a) first
    ∙ rotated-append a ys (zs ++ xs) ly
    ∙ append_assoc zs xs ys
    ∙ sym (
        ap (rotated (b + a)) whole
        ∙ rotated-append (b + a) (xs ++ ys) zs (omega (arith, length-append {0} xs ys)))

-- A rotation is undone by the rotation that completes the round.
rotated_back :
    (k : ℕ) (row : List ℕ) → k ≤ length row → rotated (length row - k) (rotated k row) ≡ row
rotated_back k row h =
    rotated-rotated (length row - k) k row (omega arith)
    ∙ ap₂ ◌++◌ (drop_all (k + (length row - k)) row (omega arith))
        (take_all (k + (length row - k)) row (omega arith))

-- In both of its cases the default build rotates.
pub shift_row-rotated :
    (k : ℕ) (row : List ℕ) → k ≤ length row → shift_row k row ≡ ok (rotated k row)
unfolding shift_row rotate_left
shift_row-rotated zero row h = ap ok (sym (append-nil row))
shift_row-rotated (suc k) row h = ground arith

-- With a shift below the width for each row, the shift of the rows does not panic, rotates each row
-- and keeps the shape.
pub shift_rows_lem :
    (w h : ℕ) (shifts : List ℕ) (rows : List (List ℕ))
    → length shifts ≡ h
    → All (λ s. s < w) shifts
    → IsRows w h rows
    → (shift_rows shifts rows ≡ ok (zip_with rotated shifts rows))
      × IsRows w h (zip_with rotated shifts rows)
unfolding shift_rows
shift_rows_lem w h [] [] e b s = (refl, s)
shift_rows_lem w h (k ∷ ks) [] e b s = absurd (omega (arith, e, s.0))
shift_rows_lem w h [] (r ∷ rs) e b s = absurd (omega (arith, e, s.0))
shift_rows_lem w zero (k ∷ ks) (r ∷ rs) e b s = absurd (omega (arith, e, s.0))
shift_rows_lem w (suc h) (k ∷ ks) (r ∷ rs) e b s =
    let row = shift_row-rotated k r (omega (arith, b.0, s.1.0.0)) in
    let rest = shift_rows_lem w h ks rs (omega arith) b.1 (omega (arith, s.0), s.1.1) in
    (rw (row, rest.0), (ap suc rest.1.0, (rotated-IsRow w k r s.1.0, rest.1.1)))

rotated-injective :
    (k w : ℕ) (a b : List ℕ)
    → k ≤ w
    → length a ≡ w
    → length b ≡ w
    → rotated k a ≡ rotated k b
    → a ≡ b
rotated-injective k w a b h ea eb e =
    sym (rotated_back k a (omega arith))
    ∙ ap₂ (λ n row. rotated (n - k) row) (ea ∙ sym eb) e
    ∙ rotated_back k b (omega arith)

-- So rows that differ are shifted to rows that differ.
pub rotate_rows-injective :
    (w : ℕ) (shifts : List ℕ) (a b : List (List ℕ))
    → length shifts ≡ length a
    → length a ≡ length b
    → All (λ s. s < w) shifts
    → All (IsRow w) a
    → All (IsRow w) b
    → zip_with rotated shifts a ≡ zip_with rotated shifts b
    → a ≡ b
rotate_rows-injective w [] [] [] la lb bound sa sb e = refl
rotate_rows-injective w [] [] (b ∷ bs) la lb bound sa sb e = absurd (omega arith)
rotate_rows-injective w [] (a ∷ as') bs la lb bound sa sb e = absurd (omega arith)
rotate_rows-injective w (k ∷ ks) [] bs la lb bound sa sb e = absurd (omega arith)
rotate_rows-injective w (k ∷ ks) (a ∷ as') [] la lb bound sa sb e = absurd (omega arith)
rotate_rows-injective w (k ∷ ks) (a ∷ as') (b ∷ bs) la lb bound sa sb e =
    ap₂ ◌∷◌
      (rotated-injective k w a b (omega (arith, bound.0)) sa.0.0 sb.0.0 (head-eq_of_cons-eq e))
      (rotate_rows-injective w ks as' bs (omega arith) (omega arith) bound.1 sa.1 sb.1
        (tail-eq_of_cons-eq e))
