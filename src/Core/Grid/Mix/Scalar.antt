-- ===== src/Core/Grid/Mix/Scalar.antt =====
-- core/src/grid.rs: the loops of `mix_hadamard` over single words, as sums of the actions of the
-- coefficients.
use native.Mathlib.Nat.{pow-suc, div-div-eq-div-mul}
use why.Common.{
  ℕ, zero, suc, ◌/◌, ◌%◌, ◌^◌, ◌≡◌, refl, sym, ap, ap₂, ◌∙◌, arith, Bool, true, false, ◌==◌, ltb,
  if◌then◌else◌, List, [], ◌∷◌, map, length, get_or, replicate, bit_xor, bit_xor-zero, zero-bit_xor,
  bit_xor_assoc,
}
use why.Core.Gf.{xtime}
use why.Core.Grid.Mix.{
  Lane, xor_lane, xtime_lane, zero_lane, has_term, map_index, mix_terms, mix_rows, highest,
  mix_hadamard,
}
use why.Core.Grid.Mix.Field.{pick, act, act-suc, no_terms}

-- The loops over words.
abbrev mix_words : ℕ → List ℕ → ℕ → List ℕ → List ℕ → List ℕ
mix_words exp m = mix_rows bit_xor xtime 0 m exp

abbrev pub mix_column : ℕ → List (List ℕ) → List ℕ → List ℕ
mix_column n matrix x = let m = get_or matrix 0 [] in mix_words (highest m) m 0 x (replicate n 0)

-- A place of the lanes is worked on alone.
module _ (place : Lane → ℕ)
    (xors : (a b : Lane) → place (xor_lane a b) ≡ bit_xor (place a) (place b))
    (doubles : (a : Lane) → place (xtime_lane a) ≡ xtime (place a)) (m : List ℕ) where
  map-terms :
      (e k : ℕ) (s : Lane) (i : ℕ) (out : List Lane)
      → map place (map_index (λ i o. if has_term m i k e then xor_lane o s else o) i out)
        ≡ map_index (λ i o. if has_term m i k e then bit_xor o (place s) else o) i (map place out)
  map-terms e k s i [] = refl
  map-terms e k s i (o ∷ os) = ap₂ ◌∷◌ (one (has_term m i k e)) (map-terms e k s (suc i) os)
    where
      one :
          (b : Bool)
          → place (if b then xor_lane o s else o)
            ≡ (if b then bit_xor (place o) (place s) else place o)
      one true = xors o s
      one false = refl

  place-mix_terms :
      (n e k : ℕ) (s : Lane) (out : List Lane)
      → map place (mix_terms xor_lane xtime_lane zero_lane m n e k s out)
        ≡ mix_terms bit_xor xtime 0 m n e k (place s) (map place out)
  unfolding mix_terms
  place-mix_terms zero e k s out = refl
  place-mix_terms (suc n) e k s out =
      let s' = if ltb 0 e then xtime_lane s else s in
      let moved : place s' ≡ (if ltb 0 e then xtime (place s) else place s) = one (ltb 0 e) in
      place-mix_terms n (suc e) k s'
        (map_index (λ i o. if has_term m i k e then xor_lane o s' else o) 0 out)
      ∙ ap₂ (mix_terms bit_xor xtime 0 m n (suc e) k) moved (
          map-terms e k s' 0 out
          ∙ ap
              (λ t.
                map_index (λ i o. if has_term m i k e then bit_xor o t else o) 0 (map place out))
              moved)
    where
      one :
          (b : Bool)
          → place (if b then xtime_lane s else s) ≡ (if b then xtime (place s) else place s)
      one true = doubles s
      one false = refl

  place-mix_rows :
      (exp k : ℕ) (xs out : List Lane)
      → map place (mix_rows xor_lane xtime_lane zero_lane m exp k xs out)
        ≡ mix_words exp m k (map place xs) (map place out)
  unfolding mix_rows
  place-mix_rows exp k [] out = refl
  place-mix_rows exp k (x ∷ xs) out =
      place-mix_rows exp (suc k) xs (mix_terms xor_lane xtime_lane zero_lane m exp 0 k x out)
      ∙ ap (mix_words exp m (suc k) (map place xs)) (place-mix_terms exp 0 k x out)

map-replicate :
    (place : Lane → ℕ) (n : ℕ)
    → place zero_lane ≡ 0
    → map place (replicate n zero_lane) ≡ replicate n 0
map-replicate place zero e = refl
map-replicate place (suc n) e = ap₂ ◌∷◌ e (map-replicate place n e)

module _ (n : ℕ) (matrix : List (List ℕ)) (x : List Lane) where
  pub place-mix_hadamard :
      (place : Lane → ℕ)
      → ((a b : Lane) → place (xor_lane a b) ≡ bit_xor (place a) (place b))
      → ((a : Lane) → place (xtime_lane a) ≡ xtime (place a))
      → place zero_lane ≡ 0
      → map place (mix_hadamard n matrix x) ≡ mix_column n matrix (map place x)
  unfolding mix_hadamard
  place-mix_hadamard place xors doubles empty =
      let m = get_or matrix 0 [] in
      place-mix_rows place xors doubles m (highest m) 0 x (replicate n zero_lane)
      ∙ ap (mix_words (highest m) m 0 (map place x)) (map-replicate place n empty)

-- The sum over the powers of x that `mix_terms` adds to output row `i` for input row `k`.
terms : ℕ → ℕ → ℕ → ℕ → ℕ
terms zero e c s = 0
terms (suc n) e c s =
    let s' = if ltb 0 e then xtime s else s in
    bit_xor (pick (c / 2 ^ e % 2 == 1) s') (terms n (suc e) c s')

map_index-map_index :
    {A B C : Type 0} (f : ℕ → B → C) (g : ℕ → A → B) (i : ℕ) (xs : List A)
    → map_index f i (map_index g i xs) ≡ map_index (λ i x. f i (g i x)) i xs
map_index-map_index f g i [] = refl
map_index-map_index f g i (x ∷ xs) = ap (λ l. f i (g i x) ∷ l) (map_index-map_index f g (suc i) xs)

map_index_congr :
    {A B : Type 0} (f g : ℕ → A → B) (i : ℕ) (xs : List A)
    → ((i : ℕ) (x : A) → f i x ≡ g i x)
    → map_index f i xs ≡ map_index g i xs
map_index_congr f g i [] same = refl
map_index_congr f g i (x ∷ xs) same = ap₂ ◌∷◌ (same i x) (map_index_congr f g (suc i) xs same)

map_index_id : (i : ℕ) (xs : List ℕ) → map_index (λ i o. bit_xor o 0) i xs ≡ xs
map_index_id i [] = refl
map_index_id i (x ∷ xs) = ap₂ ◌∷◌ (bit_xor-zero x) (map_index_id (suc i) xs)

add_pick :
    (b : Bool) (o s t : ℕ)
    → bit_xor (if b then bit_xor o s else o) t ≡ bit_xor o (bit_xor (pick b s) t)
add_pick true o s t = bit_xor_assoc o s t
add_pick false o s t = ap (bit_xor o) (sym (zero-bit_xor t))

mix_terms-terms :
    (m : List ℕ) (n e k s : ℕ) (out : List ℕ)
    → mix_terms bit_xor xtime 0 m n e k s out
      ≡ map_index (λ i o. bit_xor o (terms n e (get_or m (bit_xor i k) 0) s)) 0 out
unfolding mix_terms terms
mix_terms-terms m zero e k s out = sym (map_index_id 0 out)
mix_terms-terms m (suc n) e k s out =
    let s' = if ltb 0 e then xtime s else s in
    mix_terms-terms m n (suc e) k s'
      (map_index (λ i o. if has_term m i k e then bit_xor o s' else o) 0 out)
    ∙ map_index-map_index (λ i o. bit_xor o (terms n (suc e) (get_or m (bit_xor i k) 0) s'))
        (λ i o. if has_term m i k e then bit_xor o s' else o) 0 out
    ∙ map_index_congr
        (λ i o.
          bit_xor (if has_term m i k e then bit_xor o s' else o)
            (terms n (suc e) (get_or m (bit_xor i k) 0) s'))
        (λ i o.
          bit_xor o
            (bit_xor (pick (has_term m i k e) s') (terms n (suc e) (get_or m (bit_xor i k) 0) s')))
        0 out
        (λ i o. add_pick (has_term m i k e) o s' (terms n (suc e) (get_or m (bit_xor i k) 0) s'))

half_power : (c e : ℕ) → c / 2 ^ e / 2 ≡ c / 2 ^ suc e
half_power c e = div-div-eq-div-mul c (2 ^ e) 2 ∙ ap (λ d. c / d) (sym (pow-suc 2 e))

terms-act : (n e c s : ℕ) → terms n (suc e) c s ≡ act n (c / 2 ^ suc e) (xtime s)
unfolding terms
terms-act zero e c s = sym (no_terms (c / 2 ^ suc e) (xtime s))
terms-act (suc n) e c s =
    let later : ltb 0 (suc e) ≡ true = ground arith in
    rw later (
      ap (bit_xor (pick (c / 2 ^ suc e % 2 == 1) (xtime s))) (
        terms-act n (suc e) c (xtime s)
        ∙ ap (λ d. act n d (xtime (xtime s))) (sym (half_power c (suc e))))
      ∙ sym (act-suc n (c / 2 ^ suc e) (xtime s)))

terms-act_zero : (n c s : ℕ) → terms n 0 c s ≡ act n c s
unfolding terms
terms-act_zero zero c s = sym (no_terms c s)
terms-act_zero (suc n) c s =
    ap₂ bit_xor (ap (λ d. pick (d % 2 == 1) s) {x = c / 2 ^ 0} {y = c} (omega arith))
      (terms-act n 0 c s ∙ ap (λ d. act n d (xtime s)) {x = c / 2 ^ 1} {y = c / 2} (omega arith))
    ∙ sym (act-suc n c s)

-- The inner product of a row of coefficients and a column of words.
unfoldable pub dot : ℕ → List ℕ → List ℕ → ℕ
dot n [] xs = 0
dot n (c ∷ cs) [] = 0
dot n (c ∷ cs) (x ∷ xs) = bit_xor (act n c x) (dot n cs xs)

-- The entries (i, k), (i, k + 1) and so on that the code reads, and all of its rows.
unfoldable pub entries : List ℕ → ℕ → ℕ → ℕ → List ℕ
entries m zero i k = []
entries m (suc n) i k = get_or m (bit_xor i k) 0 ∷ entries m n i (suc k)

unfoldable pub entry_rows : List ℕ → ℕ → ℕ → ℕ → List (List ℕ)
entry_rows m width zero i = []
entry_rows m width (suc n) i = entries m width i 0 ∷ entry_rows m width n (suc i)

mix_words-dot :
    (exp : ℕ) (m : List ℕ) (k : ℕ) (xs out : List ℕ)
    → mix_words exp m k xs out
      ≡ map_index (λ i o. bit_xor o (dot exp (entries m (length xs) i k) xs)) 0 out
unfolding mix_rows dot entries
mix_words-dot exp m k [] out = sym (map_index_id 0 out)
mix_words-dot exp m k (x ∷ xs) out =
    mix_words-dot exp m (suc k) xs (mix_terms bit_xor xtime 0 m exp 0 k x out)
    ∙ ap (map_index (λ i o. bit_xor o (dot exp (entries m (length xs) i (suc k)) xs)) 0)
        (mix_terms-terms m exp 0 k x out)
    ∙ map_index-map_index (λ i o. bit_xor o (dot exp (entries m (length xs) i (suc k)) xs))
        (λ i o. bit_xor o (terms exp 0 (get_or m (bit_xor i k) 0) x)) 0 out
    ∙ map_index_congr
        (λ i o.
          bit_xor (bit_xor o (terms exp 0 (get_or m (bit_xor i k) 0) x))
            (dot exp (entries m (length xs) i (suc k)) xs))
        (λ i o. bit_xor o (
          bit_xor (act exp (get_or m (bit_xor i k) 0) x)
            (dot exp (entries m (length xs) i (suc k)) xs)))
        0 out
        (λ i o.
          bit_xor_assoc o (terms exp 0 (get_or m (bit_xor i k) 0) x)
            (dot exp (entries m (length xs) i (suc k)) xs)
          ∙ ap (λ t. bit_xor o (bit_xor t (dot exp (entries m (length xs) i (suc k)) xs)))
              (terms-act_zero exp (get_or m (bit_xor i k) 0) x))

from_zeros :
    (exp : ℕ) (m : List ℕ) (width n i : ℕ) (x : List ℕ)
    → map_index (λ i o. bit_xor o (dot exp (entries m width i 0) x)) i (replicate n 0)
      ≡ map (λ row. dot exp row x) (entry_rows m width n i)
unfolding entry_rows
from_zeros exp m width zero i x = refl
from_zeros exp m width (suc n) i x =
    ap₂ ◌∷◌ (zero-bit_xor (dot exp (entries m width i 0) x)) (from_zeros exp m width n (suc i) x)

-- The mixed column is the product of the matrix of entries with the column.
pub mix_column-dot :
    (n : ℕ) (matrix : List (List ℕ)) (x : List ℕ)
    → length x ≡ n
    → let m = get_or matrix 0 [] in
      mix_column n matrix x ≡ map (λ row. dot (highest m) row x) (entry_rows m n n 0)
mix_column-dot n matrix x e =
    let m = get_or matrix 0 [] in
    mix_words-dot (highest m) m 0 x (replicate n 0)
    ∙ from_zeros (highest m) m (length x) n 0 x
    ∙ ap (λ w. map (λ row. dot (highest m) row x) (entry_rows m w n 0)) e
