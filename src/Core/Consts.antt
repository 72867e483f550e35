-- ===== src/Core/Consts.antt =====
-- core/src/consts: the numbers of the cipher, and the matrices of core/src/consts/mds.rs.
use why.Common.{ℕ, List, [], ◌∷◌}

abbrev pub round_keys : ℕ
round_keys = 17

abbrev pub default_grid_width : ℕ
default_grid_width = 8

abbrev pub default_grid_height : ℕ
default_grid_height = 8

abbrev parallel_threshold : ℕ
parallel_threshold = 4

abbrev pub mds_4 : List (List ℕ)
mds_4 =
    (1 ∷ 2 ∷ 4 ∷ 6 ∷ []) ∷ (2 ∷ 1 ∷ 6 ∷ 4 ∷ []) ∷ (4 ∷ 6 ∷ 1 ∷ 2 ∷ []) ∷ (6 ∷ 4 ∷ 2 ∷ 1 ∷ []) ∷ []

abbrev pub mds_8 : List (List ℕ)
mds_8 =
    (1 ∷ 2 ∷ 3 ∷ 8 ∷ 4 ∷ 10 ∷ 9 ∷ 14 ∷ [])
    ∷ (2 ∷ 1 ∷ 8 ∷ 3 ∷ 10 ∷ 4 ∷ 14 ∷ 9 ∷ [])
    ∷ (3 ∷ 8 ∷ 1 ∷ 2 ∷ 9 ∷ 14 ∷ 4 ∷ 10 ∷ [])
    ∷ (8 ∷ 3 ∷ 2 ∷ 1 ∷ 14 ∷ 9 ∷ 10 ∷ 4 ∷ [])
    ∷ (4 ∷ 10 ∷ 9 ∷ 14 ∷ 1 ∷ 2 ∷ 3 ∷ 8 ∷ [])
    ∷ (10 ∷ 4 ∷ 14 ∷ 9 ∷ 2 ∷ 1 ∷ 8 ∷ 3 ∷ [])
    ∷ (9 ∷ 14 ∷ 4 ∷ 10 ∷ 3 ∷ 8 ∷ 1 ∷ 2 ∷ [])
    ∷ (14 ∷ 9 ∷ 10 ∷ 4 ∷ 8 ∷ 3 ∷ 2 ∷ 1 ∷ [])
    ∷ []

abbrev pub mds_16 : List (List ℕ)
mds_16 =
    (1 ∷ 2 ∷ 3 ∷ 8 ∷ 4 ∷ 32 ∷ 64 ∷ 16 ∷ 5 ∷ 128 ∷ 6 ∷ 18 ∷ 12 ∷ 65 ∷ 132 ∷ 37 ∷ [])
    ∷ (2 ∷ 1 ∷ 8 ∷ 3 ∷ 32 ∷ 4 ∷ 16 ∷ 64 ∷ 128 ∷ 5 ∷ 18 ∷ 6 ∷ 65 ∷ 12 ∷ 37 ∷ 132 ∷ [])
    ∷ (3 ∷ 8 ∷ 1 ∷ 2 ∷ 64 ∷ 16 ∷ 4 ∷ 32 ∷ 6 ∷ 18 ∷ 5 ∷ 128 ∷ 132 ∷ 37 ∷ 12 ∷ 65 ∷ [])
    ∷ (8 ∷ 3 ∷ 2 ∷ 1 ∷ 16 ∷ 64 ∷ 32 ∷ 4 ∷ 18 ∷ 6 ∷ 128 ∷ 5 ∷ 37 ∷ 132 ∷ 65 ∷ 12 ∷ [])
    ∷ (4 ∷ 32 ∷ 64 ∷ 16 ∷ 1 ∷ 2 ∷ 3 ∷ 8 ∷ 12 ∷ 65 ∷ 132 ∷ 37 ∷ 5 ∷ 128 ∷ 6 ∷ 18 ∷ [])
    ∷ (32 ∷ 4 ∷ 16 ∷ 64 ∷ 2 ∷ 1 ∷ 8 ∷ 3 ∷ 65 ∷ 12 ∷ 37 ∷ 132 ∷ 128 ∷ 5 ∷ 18 ∷ 6 ∷ [])
    ∷ (64 ∷ 16 ∷ 4 ∷ 32 ∷ 3 ∷ 8 ∷ 1 ∷ 2 ∷ 132 ∷ 37 ∷ 12 ∷ 65 ∷ 6 ∷ 18 ∷ 5 ∷ 128 ∷ [])
    ∷ (16 ∷ 64 ∷ 32 ∷ 4 ∷ 8 ∷ 3 ∷ 2 ∷ 1 ∷ 37 ∷ 132 ∷ 65 ∷ 12 ∷ 18 ∷ 6 ∷ 128 ∷ 5 ∷ [])
    ∷ (5 ∷ 128 ∷ 6 ∷ 18 ∷ 12 ∷ 65 ∷ 132 ∷ 37 ∷ 1 ∷ 2 ∷ 3 ∷ 8 ∷ 4 ∷ 32 ∷ 64 ∷ 16 ∷ [])
    ∷ (128 ∷ 5 ∷ 18 ∷ 6 ∷ 65 ∷ 12 ∷ 37 ∷ 132 ∷ 2 ∷ 1 ∷ 8 ∷ 3 ∷ 32 ∷ 4 ∷ 16 ∷ 64 ∷ [])
    ∷ (6 ∷ 18 ∷ 5 ∷ 128 ∷ 132 ∷ 37 ∷ 12 ∷ 65 ∷ 3 ∷ 8 ∷ 1 ∷ 2 ∷ 64 ∷ 16 ∷ 4 ∷ 32 ∷ [])
    ∷ (18 ∷ 6 ∷ 128 ∷ 5 ∷ 37 ∷ 132 ∷ 65 ∷ 12 ∷ 8 ∷ 3 ∷ 2 ∷ 1 ∷ 16 ∷ 64 ∷ 32 ∷ 4 ∷ [])
    ∷ (12 ∷ 65 ∷ 132 ∷ 37 ∷ 5 ∷ 128 ∷ 6 ∷ 18 ∷ 4 ∷ 32 ∷ 64 ∷ 16 ∷ 1 ∷ 2 ∷ 3 ∷ 8 ∷ [])
    ∷ (65 ∷ 12 ∷ 37 ∷ 132 ∷ 128 ∷ 5 ∷ 18 ∷ 6 ∷ 32 ∷ 4 ∷ 16 ∷ 64 ∷ 2 ∷ 1 ∷ 8 ∷ 3 ∷ [])
    ∷ (132 ∷ 37 ∷ 12 ∷ 65 ∷ 6 ∷ 18 ∷ 5 ∷ 128 ∷ 64 ∷ 16 ∷ 4 ∷ 32 ∷ 3 ∷ 8 ∷ 1 ∷ 2 ∷ [])
    ∷ (37 ∷ 132 ∷ 65 ∷ 12 ∷ 18 ∷ 6 ∷ 128 ∷ 5 ∷ 16 ∷ 64 ∷ 32 ∷ 4 ∷ 8 ∷ 3 ∷ 2 ∷ 1 ∷ [])
    ∷ []
