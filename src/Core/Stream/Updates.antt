-- ===== src/Core/Stream/Updates.antt =====
-- core/src/stream.rs: `update` and `finalize`, against the positions of the cells.
use why.Common.{
  ℕ, suc, ◌+◌, ◌-◌, ◌*◌, ◌/◌, ◌%◌, ◌^◌, ◌<◌, ◌≡◌, ◌≢◌, ◌⊎◌, inl, inr, refl, sym, ap, ap₂, ◌∙◌,
  arith, min, Bool, true, false, List, [], ◌++◌, length, take, drop, replicate, All, IsWord,
  wrapping_add, ◌==◌, ltb, Bool-cases, length-append, length-take, length-drop, drop_all,
  All-append, All-take, All-drop, take-append-drop, append-nil, append_assoc, join_div_mod,
}
use why.Core.Outcome.{ok}
use why.Core.Grid.{Grid, IsGrid, valid_dimensions}
use why.Core.Grid.Build.{zeros_eq, area_pos}
use why.Core.Crypto.Keystream.{IsSchedule}
use why.Core.Encrypter.Shaping.{shape_grids_lem}
use why.Core.Decrypter.{flatten}
use why.Core.Stream.{RexStream, fill_buffer, full_grids}
use why.Core.Stream.Positions.{mask_cells, mask_at, mask_cells-append, key_at}
use why.Core.Stream.Steps.{nil-of-length, no_pad, state_at, counter_at, mask_lem, flush_lem}

module _ (avx2 : Bool) (w h : ℕ) (valid : valid_dimensions w h ≡ true) (nonce : Grid)
    (keys : List Grid) (shifts : List (List ℕ)) (s : IsSchedule w h keys shifts)
    (vn : IsGrid w h nonce) where
  abbrev pub at : ℕ → List ℕ → RexStream
  at number buffer = state_at avx2 w h valid nonce keys shifts s vn number buffer

  abbrev pub masked : ℕ → List ℕ → List ℕ
  masked number xs = mask_cells (key_at avx2 w h valid nonce keys shifts s vn) (number * (w * h)) xs

  pub masked-append :
      (number k : ℕ) (xs ys : List ℕ)
      → length xs ≡ k * (w * h)
      → masked number (xs ++ ys) ≡ masked number xs ++ masked (number + k) ys
  masked-append number k xs ys e =
      mask_cells-append (key_at avx2 w h valid nonce keys shifts s vn) (number * (w * h)) xs ys
      ∙ ap (λ l. masked number xs ++ l)
          (mask_at (key_at avx2 w h valid nonce keys shifts s vn) (number * (w * h) + length xs)
            ((number + k) * (w * h)) ys (grind arith))

  -- What the first part of `update` leaves: whole grids are done, and either the buffer or the data
  -- is used up.
  pub fill_lem :
      (number : ℕ) (buffer input : List ℕ)
      → All IsWord buffer
      → All IsWord input
      → length buffer < w * h
      → (k : ℕ) × (done rest left : List ℕ) × (fill_buffer avx2 w h (at number buffer) input
          ≡ ok (at (number + k) rest, masked number done, left))
        × (buffer ++ input ≡ done ++ (rest ++ left))
        × (length done ≡ k * (w * h))
        × (length rest < w * h)
        × All IsWord rest
        × All IsWord left
        × ((rest ≡ []) ⊎ (left ≡ []))
  unfolding fill_buffer state_at mask_cells
  fill_lem number buffer input vb vi p =
      let needed : ℕ = w * h - length buffer in
      let taken : ℕ = min needed (length input) in
      let filled = buffer ++ take taken input in
      let same = λ (rest : List ℕ).
        counter_at avx2 w h valid nonce keys shifts s vn (number % 2 ^ 64) (number + 0) rest
          (omega arith) in
      let vf = All-append IsWord buffer (take taken input) vb (All-take IsWord taken input vi) in
      let vl = All-drop IsWord taken input vi in
      let size : length filled ≡ length buffer + taken =
        omega (arith, length-append buffer (take taken input), length-take taken input) in
      let split : buffer ++ input ≡ filled ++ drop taken input =
        ap (λ l. buffer ++ l) (sym (take-append-drop taken input))
        ∙ sym (append_assoc buffer (take taken input) (drop taken input)) in
      elim (Bool-cases (length buffer == 0)) [
        | inl e ↦
            let none : buffer ≡ [] = nil-of-length buffer (ground arith) in
            (
              0,
              [],
              buffer,
              input,
              rw e (ap (λ st. ok (st, [], input)) (same buffer)),
              refl,
              omega arith,
              p,
              vb,
              vi,
              inl none,
            )
        | inr e ↦ elim (Bool-cases (length filled == w * h)) [
          | inl f ↦
              let full : length filled ≡ w * h = ground arith in
              let flushed =
                flush_lem avx2 w h valid nonce keys shifts s vn number filled vf (omega arith) in
              let no_zeros : filled ++ replicate (w * h - length filled) 0 ≡ filled =
                ap (λ z. filled ++ z) (zeros_eq (w * h - length filled) 0 (omega arith))
                ∙ append-nil filled in
              (
                1,
                filled,
                [],
                drop taken input,
                rw (e, f, flushed, no_zeros)
                    (ap (λ st. ok (st, masked number filled, drop taken input))
                      (counter_at avx2 w h valid nonce keys shifts s vn (suc number % 2 ^ 64)
                        (number + 1) [] (omega arith))),
                split,
                omega arith,
                omega arith,
                tt,
                vl,
                inl refl,
              )
          | inr f ↦
              let short : length filled ≢ w * h = ground arith in
              let nothing : drop taken input ≡ [] = drop_all taken input (omega arith) in
              (
                0,
                [],
                filled,
                drop taken input,
                rw (e, f) (ap (λ st. ok (st, [], drop taken input)) (same filled)),
                split,
                omega arith,
                omega arith,
                vf,
                vl,
                inr nothing,
              )
        ]
      ]

  pub full_lem :
      (number : ℕ) (buffer input : List ℕ)
      → All IsWord input
      → (k : ℕ) × (done rest : List ℕ) × (full_grids avx2 w h (at number buffer) input
          ≡ ok (at (number + k) buffer, masked number done, rest))
        × (input ≡ done ++ rest)
        × (length done ≡ k * (w * h))
        × (length rest < w * h)
        × All IsWord rest
  unfolding full_grids state_at mask_cells
  full_lem number buffer input vi =
      let n : ℕ = w * h in
      let pos : 0 < n = omega (arith, area_pos w h valid) in
      let some_area : (n == 0) ≡ false = ground arith in
      let k : ℕ = length input / n in
      let low : length input % n < n = grind arith in
      let whole : length input ≡ k * n + length input % n = join_div_mod n (length input) in
      elim (Bool-cases (ltb 0 k)) [
        | inl e ↦
            let done = take (k * n) input in
            let vd = All-take IsWord (k * n) input vi in
            let size : length done ≡ k * n = omega (arith, length-take (k * n) input) in
            let (grids, pad, shaped, vg, small, count, flat) = shape_grids_lem w h valid done vd in
            let no_zeros : pad ≡ 0 = no_pad n k (length grids) pad small (omega arith) in
            let cells : flatten grids ≡ done =
              flat ∙ ap (λ z. done ++ z) (zeros_eq pad 0 no_zeros) ∙ append-nil done in
            let (out, ran, result) =
              mask_lem avx2 w h valid nonce keys shifts s vn number buffer grids vg in
            (
              k,
              done,
              drop (k * n) input,
              rw (some_area, e, shaped, ran)
                  (ap₂ (λ st l. ok (st, l, drop (k * n) input))
                    (counter_at avx2 w h valid nonce keys shifts s vn
                      (wrapping_add (number % 2 ^ 64) k) (number + k) buffer (omega arith))
                    (result ∙ ap (masked number) cells)),
              sym (take-append-drop (k * n) input),
              size,
              omega (arith, length-drop (k * n) input),
              All-drop IsWord (k * n) input vi,
            )
        | inr e ↦
            let none : k ≡ 0 = ground arith in
            (
              0,
              [],
              input,
              rw (some_area, e)
                  (ap (λ st. ok (st, [], input))
                    (counter_at avx2 w h valid nonce keys shifts s vn (number % 2 ^ 64) (number + 0)
                      buffer (omega arith))),
              refl,
              omega arith,
              omega (arith, ap (λ (t : ℕ). t * n) none),
              vi,
            )
      ]
