-- ===== src/Core/Grid/Lanes.antt =====
-- core/src/grid.rs: a slice that is worked on four cells at a time, with a tail that is worked on
-- cell by cell, as `chunks_exact_mut(4)` and `into_remainder` do.
use why.Common.{
  ℕ, zero, suc, ◌+◌, ◌*◌, ◌/◌, ◌≡◌, refl, sym, ap, ap₂, ◌∙◌, fun_ext, List, [], ◌∷◌, ◌++◌, map,
  append_assoc, arith, length, take, drop, concat, zip_with, zip_with-take, zip_with-drop, map-take,
  map-drop, take-append-drop, All, All-drop,
}
use why.Core.Grid.{chunks}

-- One-slice form: `lane` on each group of four, `cell` on what is left.
pub over_lanes : (List ℕ → List ℕ) → (ℕ → ℕ) → List ℕ → List ℕ
over_lanes lane cell xs =
    let n = length xs / 4 in concat (map lane (chunks n 4 xs)) ++ map cell (drop (n * 4) xs)

-- Two-slice form, for a pair of slices.
pub zip_lanes : (List ℕ → List ℕ → List ℕ) → (ℕ → ℕ → ℕ) → List ℕ → List ℕ → List ℕ
zip_lanes lane cell xs ys =
    let n = length xs / 4 in
    concat (zip_with lane (chunks n 4 xs) (chunks n 4 ys))
    ++ zip_with cell (drop (n * 4) xs) (drop (n * 4) ys)

drop_nil : {A : Type 0} (k : ℕ) → drop {A = A} k [] ≡ []
drop_nil zero = refl
drop_nil (suc k) = refl

drop-add : {A : Type 0} (n m : ℕ) (xs : List A) → drop m (drop n xs) ≡ drop (n + m) xs
drop-add zero m xs = ap (λ k. drop k xs) {x = m} {y = 0 + m} (omega arith)
drop-add (suc n) m [] = drop_nil m ∙ sym (drop_nil (suc n + m))
drop-add (suc n) m (x ∷ xs) =
    drop-add n m xs ∙ ap (λ k. drop k (x ∷ xs)) {x = suc (n + m)} {y = suc n + m} (omega arith)

-- The tail after one more group.
tail_after : {A : Type 0} (n w : ℕ) (xs : List A) → drop (suc n * w) xs ≡ drop (n * w) (drop w xs)
tail_after n w xs =
    ap (λ k. drop k xs) {x = suc n * w} {y = w + n * w} (omega arith) ∙ sym (drop-add w (n * w) xs)

map_groups :
    (f : ℕ → ℕ) (n w : ℕ) (xs : List ℕ)
    → concat (map (map f) (chunks n w xs)) ++ map f (drop (n * w) xs) ≡ map f xs
unfolding chunks
map_groups f zero w xs = ap (λ k. map f (drop k xs)) {x = 0 * w} {y = 0} (omega arith)
map_groups f (suc n) w xs =
    append_assoc (map f (take w xs)) (concat (map (map f) (chunks n w (drop w xs))))
      (map f (drop (suc n * w) xs))
    ∙ ap₂ ◌++◌ (map-take f w xs) (
        ap (λ l. concat (map (map f) (chunks n w (drop w xs))) ++ map f l) (tail_after n w xs)
        ∙ map_groups f n w (drop w xs)
        ∙ map-drop f w xs)
    ∙ take-append-drop w (map f xs)

zip_groups :
    (f : ℕ → ℕ → ℕ) (n w : ℕ) (xs ys : List ℕ)
    → concat (zip_with (zip_with f) (chunks n w xs) (chunks n w ys))
        ++ zip_with f (drop (n * w) xs) (drop (n * w) ys)
      ≡ zip_with f xs ys
unfolding chunks
zip_groups f zero w xs ys =
    ap (λ k. zip_with f (drop k xs) (drop k ys)) {x = 0 * w} {y = 0} (omega arith)
zip_groups f (suc n) w xs ys =
    let groups = concat (zip_with (zip_with f) (chunks n w (drop w xs)) (chunks n w (drop w ys))) in
    append_assoc (zip_with f (take w xs) (take w ys)) groups
      (zip_with f (drop (suc n * w) xs) (drop (suc n * w) ys))
    ∙ ap₂ ◌++◌ (zip_with-take f w xs ys) (
        ap₂ (λ l m. groups ++ zip_with f l m) (tail_after n w xs) (tail_after n w ys)
        ∙ zip_groups f n w (drop w xs) (drop w ys)
        ∙ zip_with-drop f w xs ys)
    ∙ take-append-drop w (zip_with f xs ys)

-- A lane that does in each of its places what `cell` does to a cell makes no difference.
over_lanes-map :
    (lane : List ℕ → List ℕ) (cell : ℕ → ℕ) (xs : List ℕ)
    → ((l : List ℕ) → lane l ≡ map cell l)
    → over_lanes lane cell xs ≡ map cell xs
unfolding over_lanes
over_lanes-map lane cell xs same =
    ap (λ l. concat (map l (chunks (length xs / 4) 4 xs)) ++ map cell (drop (length xs / 4 * 4) xs))
      (fun_ext same)
    ∙ map_groups cell (length xs / 4) 4 xs

pub zip_lanes-zip_with :
    (lane : List ℕ → List ℕ → List ℕ) (cell : ℕ → ℕ → ℕ) (xs ys : List ℕ)
    → ((l m : List ℕ) → lane l m ≡ zip_with cell l m)
    → zip_lanes lane cell xs ys ≡ zip_with cell xs ys
unfolding zip_lanes
zip_lanes-zip_with lane cell xs ys same =
    let n : ℕ = length xs / 4 in
    ap
      (λ l.
        concat (zip_with l (chunks n 4 xs) (chunks n 4 ys))
        ++ zip_with cell (drop (n * 4) xs) (drop (n * 4) ys))
      (fun_ext λ l. fun_ext λ m. same l m)
    ∙ zip_groups cell n 4 xs ys

map_congr :
    (f g : ℕ → ℕ) (P : ℕ → Type 0) (xs : List ℕ)
    → ((x : ℕ) → P x → f x ≡ g x)
    → All P xs
    → map f xs ≡ map g xs
map_congr f g P [] same h = refl
map_congr f g P (x ∷ xs) same h = ap₂ ◌∷◌ (same x h.0) (map_congr f g P xs same h.1)

-- A vector body that agrees with the scalar one on the cells at hand.
pub over_lanes_congr :
    (f g : ℕ → ℕ) (P : ℕ → Type 0) (xs : List ℕ)
    → ((x : ℕ) → P x → f x ≡ g x)
    → All P xs
    → over_lanes (map f) g xs ≡ map g xs
unfolding over_lanes
over_lanes_congr f g P xs same h =
    let n : ℕ = length xs / 4 in
    ap (λ l. concat (map (map f) (chunks n 4 xs)) ++ l)
      (sym (map_congr f g P (drop (n * 4) xs) same (All-drop P (n * 4) xs h)))
    ∙ map_groups f n 4 xs
    ∙ map_congr f g P xs same h
