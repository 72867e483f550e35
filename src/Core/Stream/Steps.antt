-- ===== src/Core/Stream/Steps.antt =====
-- core/src/stream.rs: what one call does to the state and to the cells.
use why.Common.{
  ℕ, suc, ◌+◌, ◌-◌, ◌*◌, ◌%◌, ◌^◌, ◌≤◌, ◌<◌, ◌≡◌, refl, sym, ap, ap₂, ◌∙◌, arith, Bool, true, some,
  List, [], ◌∷◌, ◌++◌, length, replicate, All, IsWord, wrapping_add, take_all, append-nil,
  div_mod_of_join,
}
use why.Core.Outcome.{ok, ◌>>=◌}
use why.Core.Grid.{Grid, IsGrid, valid_dimensions, to_flat}
use why.Core.Grid.Build.{from_flat_lem, zeros_eq}
use why.Core.Crypto.Keystream.{IsSchedule}
use why.Core.Crypto.Ctr.{apply_ctr_with_shifts_lem, mask_from}
use why.Core.Decrypter.{flatten}
use why.Core.Stream.{RexStream, mask, flush}
use why.Core.Stream.Positions.{mask_cells, mask_at, key_at, flatten-mask_from}

pub nil-of-length : (xs : List ℕ) → length xs ≡ 0 → xs ≡ []
nil-of-length [] e = refl
nil-of-length (x ∷ xs) e = absurd (omega arith)

-- A whole number of grids needs no zeros.
pub no_pad : (n k m pad : ℕ) → pad < n → m * n ≡ k * n + pad → pad ≡ 0
no_pad n k m pad small e =
    sym (div_mod_of_join n k pad small).1
    ∙ ap (λ (t : ℕ). t % n) (sym e ∙ omega arith)
    ∙ (div_mod_of_join n m 0 (omega arith)).1

module _ (avx2 : Bool) (w h : ℕ) (valid : valid_dimensions w h ≡ true) (nonce : Grid)
    (keys : List Grid) (shifts : List (List ℕ)) (s : IsSchedule w h keys shifts)
    (vn : IsGrid w h nonce) where
  -- The state of a stream that has masked `number` grids and holds `buffer`.
  unfoldable pub state_at : ℕ → List ℕ → RexStream
  state_at number buffer = record {
    round_keys = keys;
    round_shifts = shifts;
    nonce = nonce;
    block_counter = number % 2 ^ 64;
    buffer = buffer;
  }

  abbrev key : ℕ → ℕ
  key pos = key_at avx2 w h valid nonce keys shifts s vn pos

  pub counter_at :
      (c number : ℕ) (buffer : List ℕ)
      → c ≡ number % 2 ^ 64
      → record {
        round_keys = keys;
        round_shifts = shifts;
        nonce = nonce;
        block_counter = c;
        buffer = buffer;
      }
        ≡ state_at number buffer
  unfolding state_at
  counter_at c number buffer e =
      ap
        (λ c. record {
          round_keys = keys;
          round_shifts = shifts;
          nonce = nonce;
          block_counter = c;
          buffer = buffer;
        })
        e

  pub mask_lem :
      (number : ℕ) (buffer : List ℕ) (gs : List Grid)
      → All (IsGrid w h) gs
      → (out : List Grid) × (mask avx2 w h (state_at number buffer) gs ≡ ok out)
        × (flatten out ≡ mask_cells key (number * (w * h)) (flatten gs))
  unfolding mask state_at
  mask_lem number buffer gs vg = (
    mask_from avx2 w h valid nonce keys shifts s vn (number % 2 ^ 64) 0 gs,
    apply_ctr_with_shifts_lem avx2 w h valid nonce keys shifts s vn gs (some (number % 2 ^ 64)),
    flatten-mask_from avx2 w h valid nonce keys shifts s vn number 0 gs vg
        ∙ mask_at key ((number + 0) * (w * h)) (number * (w * h)) (flatten gs)
            (ap (λ (t : ℕ). t * (w * h)) {x = number + 0} {y = number} (omega arith)),
  )

  pub flush_lem :
      (number : ℕ) (buffer : List ℕ)
      → All IsWord buffer
      → length buffer ≤ w * h
      → flush avx2 w h (state_at number buffer)
        ≡ ok (
          state_at (suc number) [],
          mask_cells key (number * (w * h)) (buffer ++ replicate (w * h - length buffer) 0),
        )
  unfolding flush flatten state_at
  flush_lem number buffer words p =
      let (g, made, vg, cells) = from_flat_lem w h valid buffer words in
      let (out, ran, flat) = mask_lem number buffer (g ∷ []) (vg, tt) in
      let shaped : to_flat g ++ [] ≡ buffer ++ replicate (w * h - length buffer) 0 =
        append-nil (to_flat g)
        ∙ cells
        ∙ ap₂ ◌++◌ (take_all (h * w) buffer (omega arith))
            (zeros_eq (h * w - length buffer) (w * h - length buffer) (omega arith)) in
      ap
        (λ o. o >>= λ grid.
          mask avx2 w h (state_at number buffer) (grid ∷ []) >>= λ grids. ok (counted grids))
        made
      ∙ ap (λ o. o >>= λ grids. ok (counted grids)) ran
      ∙ ap₂ (λ st l. ok (st, l))
          (counter_at (wrapping_add (number % 2 ^ 64) 1) (suc number) [] (omega arith))
          (flat ∙ ap (mask_cells key (number * (w * h))) shaped)
    where
      counted : List Grid → RexStream × List ℕ
      counted grids = (
        record {
          round_keys = keys;
          round_shifts = shifts;
          nonce = nonce;
          block_counter = wrapping_add (number % 2 ^ 64) 1;
          buffer = [];
        },
        flatten grids,
      )
