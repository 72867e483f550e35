-- ===== src/Core/Grid/Mix.antt =====
-- core/src/grid.rs: `mix_columns`. The matrices are circulant under `^`, so the code keeps the first
-- row of each and reads entry (i, k) at `i ^ k`.
pub mod Field
pub mod Scalar
pub mod Matrix
pub mod Height
pub mod Scatter
pub mod Columns
pub mod Involution
use why.Common.{
  ℕ, zero, suc, ◌+◌, ◌-◌, ◌/◌, ◌%◌, ◌^◌, Bool, true, false, ◌&&◌, List, [], ◌∷◌, map, bit_xor,
  bit_or, ltb, ◌==◌, if◌then◌else◌, get_or, set, replicate, zip_with,
}
use why.Core.Consts.{mds_4, mds_8, mds_16}
use why.Core.Gf.{xtime}
use why.Core.Outcome.{Outcome, ok, panic, ◌>>=◌}
use why.Core.Grid.{Grid}

-- `[u64; LANE]`
pub record Lane : Type 0 where
  pub c0 : ℕ
  pub c1 : ℕ
  pub c2 : ℕ
  pub c3 : ℕ

pub xor_lane : Lane → Lane → Lane
xor_lane a b = record {
  c0 = bit_xor a.c0 b.c0;
  c1 = bit_xor a.c1 b.c1;
  c2 = bit_xor a.c2 b.c2;
  c3 = bit_xor a.c3 b.c3;
}

pub xtime_lane : Lane → Lane
xtime_lane v = record { c0 = xtime v.c0; c1 = xtime v.c1; c2 = xtime v.c2; c3 = xtime v.c3 }

abbrev pub zero_lane : Lane
zero_lane = record { c0 = 0; c1 = 0; c2 = 0; c3 = 0 }

-- `m[i ^ k] >> e & 1 == 1`
abbrev pub has_term : List ℕ → ℕ → ℕ → ℕ → Bool
has_term m i k e = get_or m (bit_xor i k) 0 / 2 ^ e % 2 == 1

abbrev pub map_index : {A B : Type 0} → (ℕ → A → B) → ℕ → List A → List B
map_index f i [] = []
map_index f i (x ∷ xs) = f i x ∷ map_index f (suc i) xs

-- The macros `mix_terms` and `mix_hadamard`, over what a lane is.
module _ {V : Type 0} (xor : V → V → V) (double : V → V) (origin : V) (m : List ℕ) where
  -- The powers of x left, the power reached, the input row `k` and its running multiple.
  pub mix_terms : ℕ → ℕ → ℕ → V → List V → List V
  mix_terms zero e k s out = out
  mix_terms (suc n) e k s out =
      let s' = if ltb 0 e then double s else s in
      mix_terms n (suc e) k s' (map_index (λ i o. if has_term m i k e then xor o s' else o) 0 out)

  -- The input rows from `k` on.
  pub mix_rows : ℕ → ℕ → List V → List V → List V
  mix_rows exp k [] out = out
  mix_rows exp k (x ∷ xs) out = mix_rows exp (suc k) xs (mix_terms exp 0 k x out)

-- `64 - bits.leading_zeros()`
bit_length : ℕ → ℕ → ℕ
bit_length zero bits = 0
bit_length (suc fuel) bits = if bits == 0 then 0 else suc (bit_length fuel (bits / 2))

or_all : List ℕ → ℕ
or_all [] = 0
or_all (m ∷ ms) = bit_or m (or_all ms)

-- The highest power of x that a coefficient uses, plus one.
pub highest : List ℕ → ℕ
unfolding bit_length or_all
highest m = bit_length 64 (or_all m)

pub mix_hadamard : ℕ → List (List ℕ) → List Lane → List Lane
mix_hadamard n matrix x =
    let m = get_or matrix 0 [] in
    mix_rows xor_lane xtime_lane zero_lane m (highest m) 0 x (replicate n zero_lane)

-- The match on `H`; `new` lets no other height through.
pub mix_lanes : ℕ → List Lane → Outcome (List Lane)
mix_lanes h x =
    if h == 4
    then ok (mix_hadamard 4 mds_4 x)
    else if h == 8
    then ok (mix_hadamard 8 mds_8 x)
    else if h == 16
    then ok (mix_hadamard 16 mds_16 x)
    else panic

-- A lane of columns of one row; the tail is zero-padded.
pub gather : ℕ → ℕ → List ℕ → Lane
gather col take row =
    let cell : ℕ → ℕ = λ c. if ltb c take then get_or row (col + c) 0 else 0 in
    record { c0 = cell 0; c1 = cell 1; c2 = cell 2; c3 = cell 3 }

abbrev pub put : ℕ → ℕ → ℕ → ℕ → List ℕ → List ℕ
put col take c v row = if ltb c take then set row (col + c) v else row

pub scatter : ℕ → ℕ → Lane → List ℕ → List ℕ
scatter col take lane row =
    put col take 3 lane.c3
      (put col take 2 lane.c2 (put col take 1 lane.c1 (put col take 0 lane.c0 row)))

-- The loop over the lanes of columns. `W` rounds are enough, since `take` is at least 1.
pub mix_loop : ℕ → ℕ → ℕ → ℕ → List (List ℕ) → Outcome (List (List ℕ))
mix_loop zero w h col rows = ok rows
mix_loop (suc fuel) w h col rows =
    let take = if ltb (w - col) 4 then w - col else 4 in
    let round =
      (mix_lanes h (map (gather col take) rows) >>= λ out.
      mix_loop fuel w h (col + take) (zip_with (scatter col take) out rows)) in
    if ltb col w then round else ok rows

-- The AVX2 build runs the same body.
pub mix_columns : ℕ → ℕ → Grid → Outcome Grid
mix_columns w h g = do rows ← mix_loop w w h 0 g.rows; ok (record { rows = rows })

-- The compile-time assertions.
unfoldable pub is_hadamard_row : List (List ℕ) → ℕ → ℕ → ℕ → Bool
is_hadamard_row m i zero j = true
is_hadamard_row m i (suc n) j =
    (get_or (get_or m i []) j 0 == get_or (get_or m 0 []) (bit_xor i j) 0)
    && is_hadamard_row m i n (suc j)

unfoldable pub is_hadamard_rows : List (List ℕ) → ℕ → ℕ → ℕ → Bool
is_hadamard_rows m width zero i = true
is_hadamard_rows m width (suc n) i =
    is_hadamard_row m i width 0 && is_hadamard_rows m width n (suc i)

unfoldable pub is_hadamard : ℕ → List (List ℕ) → Bool
is_hadamard n m = is_hadamard_rows m n n 0

unfoldable pub xor_all : List ℕ → ℕ
xor_all [] = 0
xor_all (x ∷ xs) = bit_xor x (xor_all xs)

unfoldable pub is_involutory : List (List ℕ) → Bool
is_involutory m = xor_all (get_or m 0 []) == 1
