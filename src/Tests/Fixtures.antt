-- ===== src/Tests/Fixtures.antt =====
-- Small grids, a schedule for them, and the external operations as concrete functions.
use why.Common.{
  ℕ, suc, ◌-◌, ◌%◌, ◌^◌, ◌≡◌, refl, arith, true, leb, if◌then◌else◌, ◌≤◌, Option, none, some,
  IsByte, List, [], ◌∷◌, length, replicate, All, IsWord, length-replicate, All-replicate,
}
use why.Core.Grid.{Grid, IsRow, IsGrid, valid_dimensions}
use why.Core.Crypto.{Primitives}
use why.Core.Crypto.Keystream.{IsSchedule}
use why.Core.Auth.{Mac}
use why.Chat.Crypto.{Hkdf}

-- Four rows of two cells.
abbrev pub striped : Grid
striped = record { rows = replicate 4 (1 ∷ 2 ∷ []) }

pub striped-IsGrid : IsGrid 2 4 striped
striped-IsGrid = record {
  shape = (refl, All-replicate (IsRow 2) 4 (1 ∷ 2 ∷ []) (refl, omega arith));
}

-- The highest counter in every cell.
abbrev pub full : Grid
full = record { rows = replicate 4 (replicate 2 (2 ^ 64 - 1)) }

pub full-IsGrid : IsGrid 2 4 full
full-IsGrid = record {
  shape = (refl, All-replicate (IsRow 2) 4 (replicate 2 (2 ^ 64 - 1)) (refl, omega arith));
}

pub small : valid_dimensions 2 4 ≡ true
small = refl

abbrev pub schedule : List Grid
schedule = striped ∷ full ∷ striped ∷ []

abbrev pub row_shifts : List (List ℕ)
row_shifts = (0 ∷ 1 ∷ 1 ∷ 0 ∷ []) ∷ []

pub schedule-IsSchedule : IsSchedule 2 4 schedule row_shifts
schedule-IsSchedule = record {
  whitened = omega arith;
  grids = (striped-IsGrid, (full-IsGrid, (striped-IsGrid, tt)));
  enough = omega arith;
  in_range = ((refl, omega arith), tt);
}

-- A hash that keeps its input, and a generator that repeats its seed's length.
abbrev pub toy : Primitives
toy = record {
  sha256 = λ bytes. bytes;
  Rng = ℕ;
  from_seed = λ seed. length seed;
  fill = λ n rng. (replicate n (rng % 2 ^ 64), suc rng);
  length-fill = λ n rng. length-replicate n (rng % 2 ^ 64);
  fill-words = λ n rng. All-replicate IsWord n (rng % 2 ^ 64) (omega arith);
}

-- A tag of the message's length.
abbrev pub toy_mac : Mac
toy_mac = record {
  hmac = λ mac_key message. replicate 32 (length message % 256);
  length-hmac = λ mac_key message. length-replicate 32 (length message % 256);
}

abbrev pub key : List ℕ
key = replicate 16 7

pub key-words : All IsWord key
key-words = All-replicate IsWord 16 7 (omega arith)

abbrev pub cells : List ℕ
cells = 10 ∷ 20 ∷ 30 ∷ []

pub cells-words : All IsWord cells
cells-words = omega arith

toy_fill : List ℕ → ℕ → List ℕ
toy_fill ikm n = replicate n (length ikm % 256)

toy_expand : List ℕ → ℕ → Option (List ℕ)
toy_expand ikm n = if leb n 8160 then some (toy_fill ikm n) else none

toy_expand-fills :
    (ikm : List ℕ) (n : ℕ)
    → n ≤ 8160
    → (okm : List ℕ) × (toy_expand ikm n ≡ some okm) × (length okm ≡ n) × All IsByte okm
unfolding toy_expand toy_fill
toy_expand-fills ikm n p =
    let fits : leb n 8160 ≡ true = ground arith in
    (
      toy_fill ikm n,
      rw fits refl,
      length-replicate n (length ikm % 256),
      All-replicate IsByte n (length ikm % 256) (omega arith),
    )

-- Key material of the input's length.
pub toy_hkdf : Hkdf
toy_hkdf = record {
  expand = λ salt ikm info n. toy_expand ikm n;
  expand-fills = λ salt ikm info n p. toy_expand-fills ikm n p;
}
