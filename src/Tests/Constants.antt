-- ===== src/Tests/Constants.antt =====
-- core/src/grid.rs: the assertions that the build makes of the matrices, and runs of single operations.
use why.Common.{◌≡◌, refl, true}
use why.Core.Consts.{mds_4, mds_8, mds_16}
use why.Core.Grid.Mix.{is_hadamard, is_hadamard_row, is_hadamard_rows, is_involutory, xor_all}

mds_4-is_hadamard : is_hadamard 4 mds_4 ≡ true
unfolding is_hadamard is_hadamard_rows is_hadamard_row
mds_4-is_hadamard = refl

mds_8-is_hadamard : is_hadamard 8 mds_8 ≡ true
unfolding is_hadamard is_hadamard_rows is_hadamard_row
mds_8-is_hadamard = refl

mds_16-is_hadamard : is_hadamard 16 mds_16 ≡ true
unfolding is_hadamard is_hadamard_rows is_hadamard_row
mds_16-is_hadamard = refl

mds_4-is_involutory : is_involutory mds_4 ≡ true
unfolding is_involutory xor_all
mds_4-is_involutory = refl

mds_8-is_involutory : is_involutory mds_8 ≡ true
unfolding is_involutory xor_all
mds_8-is_involutory = refl

mds_16-is_involutory : is_involutory mds_16 ≡ true
unfolding is_involutory xor_all
mds_16-is_involutory = refl
