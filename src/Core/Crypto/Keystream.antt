-- ===== src/Core/Crypto/Keystream.antt =====
-- core/src/crypto.rs: the keystream. Each step of the permutation keeps the shape of the block and can
-- be undone, so two counters never give the same keystream block.
use why.Common.{
  ℕ, suc, ◌-◌, ◌≤◌, ◌<◌, ◌≡◌, refl, sym, ap, ◌∙◌, arith, Bool, true, List, [], ◌∷◌, length,
  zip_with, All,
}
use why.Core.Outcome.{Outcome, ok, ◌>>=◌, ok-injective}
use why.Core.Grid.{Grid, IsGrid, valid_dimensions}
use why.Core.Grid.Xor.{xor_grids, xor_grids_lem, xor_grids_cancel}
use why.Core.Grid.Subcell.{subcell}
use why.Core.Grid.Subcell.Bodies.{subcell_lem, subcell-injective}
use why.Core.Grid.Shift.Rotation.{rotated, shift_rows_lem, rotate_rows-injective}
use why.Core.Grid.Mix.{mix_columns}
use why.Core.Grid.Mix.Involution.{mix_columns_lem, mix_columns-injective}
use why.Core.Crypto.{round, rounds}

-- The shifts of one round: one for each row, each below the width.
abbrev pub IsShifts : ℕ → ℕ → List ℕ → Type 0
IsShifts w h shifts = (length shifts ≡ h) × All (λ s. s < w) shifts

-- What a schedule must be for the keystream not to panic.
pub record IsSchedule (w h : ℕ) (keys : List Grid) (shifts : List (List ℕ)) : Type 0 where
  pub whitened : 2 ≤ length keys
  pub grids : All (IsGrid w h) keys
  pub enough : length keys - 2 ≤ length shifts
  pub in_range : All (IsShifts w h) shifts

module _ (avx2 : Bool) (w h : ℕ) (valid : valid_dimensions w h ≡ true) where
  round_lem :
      (i : ℕ) (key : Grid) (shifts : List ℕ) (block : Grid)
      → IsGrid w h key
      → IsShifts w h shifts
      → IsGrid w h block
      → (out : Grid) × (round avx2 w h i key shifts block ≡ ok out) × IsGrid w h out
  unfolding round
  round_lem i key shifts block vk vs vb =
      let a = xor_grids_lem w h block key vb vk in
      let b = subcell_lem avx2 w h (xor_grids w h block key) i a.0 in
      let mixed = subcell avx2 w h (xor_grids w h block key) i in
      let c = shift_rows_lem w h shifts mixed.rows vs.0 vs.1 b.0.shape in
      let (out, done, shaped, columns) =
        mix_columns_lem w h valid (record { rows = zip_with rotated shifts mixed.rows })
          (record { shape = c.1 }) in
      (out, rw c.0 done, shaped)

  round-injective :
      (i : ℕ) (key : Grid) (shifts : List ℕ) (a b : Grid)
      → IsGrid w h key
      → IsShifts w h shifts
      → IsGrid w h a
      → IsGrid w h b
      → round avx2 w h i key shifts a ≡ round avx2 w h i key shifts b
      → a ≡ b
  unfolding round
  round-injective i key shifts a b vk vs va vb e =
      let xa = xor_grids w h a key in
      let xb = xor_grids w h b key in
      let la = (xor_grids_lem w h a key va vk).0 in
      let lb = (xor_grids_lem w h b key vb vk).0 in
      let sa = subcell_lem avx2 w h xa i la in
      let sb = subcell_lem avx2 w h xb i lb in
      let ga = subcell avx2 w h xa i in
      let gb = subcell avx2 w h xb i in
      let ra = shift_rows_lem w h shifts ga.rows vs.0 vs.1 sa.0.shape in
      let rb = shift_rows_lem w h shifts gb.rows vs.0 vs.1 sb.0.shape in
      let finish =
        λ (o : Outcome (List (List ℕ))). o >>= λ rows. mix_columns w h (record { rows = rows }) in
      let columns =
        mix_columns-injective w h valid (record { rows = zip_with rotated shifts ga.rows })
          (record { rows = zip_with rotated shifts gb.rows }) (record { shape = ra.1 })
          (record { shape = rb.1 }) (sym (ap finish ra.0) ∙ e ∙ ap finish rb.0) in
      let rows : ga.rows ≡ gb.rows =
        rotate_rows-injective w shifts ga.rows gb.rows (vs.0 ∙ sym sa.0.shape.0)
          (sa.0.shape.0 ∙ sym sb.0.shape.0) vs.1 sa.0.shape.1 sb.0.shape.1
          (ap (λ g. g.rows) columns) in
      let cells = subcell-injective avx2 w h xa xb i la lb (ap (λ r. record { rows = r }) rows) in
      sym (xor_grids_cancel w h a key va vk)
      ∙ ap (λ g. xor_grids w h g key) cells
      ∙ xor_grids_cancel w h b key vb vk

  pub rounds_lem :
      (i : ℕ) (keys : List Grid) (shifts : List (List ℕ)) (block : Grid)
      → length keys ≤ length shifts
      → All (IsGrid w h) keys
      → All (IsShifts w h) shifts
      → IsGrid w h block
      → (out : Grid) × (rounds avx2 w h i keys shifts block ≡ ok out) × IsGrid w h out
  unfolding rounds
  rounds_lem i [] shifts block e vk vs vb = (block, refl, vb)
  rounds_lem i (k ∷ ks) [] block e vk vs vb = absurd (omega arith)
  rounds_lem i (k ∷ ks) (s ∷ ss) block e vk vs vb =
      let (next, one, shaped) = round_lem i k s block vk.0 vs.0 vb in
      let (out, rest, done) = rounds_lem (suc i) ks ss next (omega arith) vk.1 vs.1 shaped in
      (out, rw one rest, done)

  pub rounds-injective :
      (i : ℕ) (keys : List Grid) (shifts : List (List ℕ)) (a b : Grid)
      → length keys ≤ length shifts
      → All (IsGrid w h) keys
      → All (IsShifts w h) shifts
      → IsGrid w h a
      → IsGrid w h b
      → rounds avx2 w h i keys shifts a ≡ rounds avx2 w h i keys shifts b
      → a ≡ b
  unfolding rounds
  rounds-injective i [] shifts a b e vk vs va vb same = ok-injective same
  rounds-injective i (k ∷ ks) [] a b e vk vs va vb same = absurd (omega arith)
  rounds-injective i (k ∷ ks) (s ∷ ss) a b e vk vs va vb same =
      let (a', one_a, sa) = round_lem i k s a vk.0 vs.0 va in
      let (b', one_b, sb) = round_lem i k s b vk.0 vs.0 vb in
      let after = λ (o : Outcome Grid). o >>= λ g. rounds avx2 w h (suc i) ks ss g in
      let next : a' ≡ b' =
        rounds-injective (suc i) ks ss a' b' (omega arith) vk.1 vs.1 sa sb
          (sym (ap after one_a) ∙ same ∙ ap after one_b) in
      round-injective i k s a b vk.0 vs.0 va vb (one_a ∙ ap ok next ∙ sym one_b)
