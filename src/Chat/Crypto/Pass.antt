-- ===== src/Chat/Crypto/Pass.antt =====
-- chat/src/crypto/mod.rs: what a packet does to the stream. It starts on a grid of its own, and its
-- bytes are masked with the bytes of the keystream from there on.
use why.Common.{
  ℕ, suc, ◌+◌, ◌-◌, ◌*◌, ◌/◌, ◌%◌, ◌<◌, ◌≡◌, refl, sym, ap, ap₂, ◌∙◌, arith, Bool, true, List, [],
  ◌∷◌, length, take, replicate, All, IsByte, zip_with, bit_xor, length-append, length-take,
  take-append, length-zip_with, zip_with-take, zip_xor_cancel, zip_xor-IsByte, All-take,
  div_mod_of_join,
}
use why.Core.Outcome.{ok}
use why.Core.Grid.{Grid, IsGrid, valid_dimensions}
use why.Core.Grid.Build.{area_pos}
use why.Core.Grid.Bytes.{words_bytes, length-words_bytes}
use why.Core.Grid.Fill.{tabulate, length-tabulate}
use why.Core.Crypto.Keystream.{IsSchedule}
use why.Core.Stream.Positions.{mask_cells, key_at}
use why.Core.Stream.Splits.{partial, finalize_lem, update_lem}
use why.Core.Stream.Updates.{at, masked-append}
use why.Chat.Crypto.{bytes_to_i64, i64_to_bytes, pass}
use why.Chat.Crypto.Bytes.{
  words_bytes-IsByte, words_bytes-zip_xor, i64_to_bytes-bytes_to_i64, length-bytes_to_i64,
  bytes_to_i64-words,
}

mask_cells-tabulate :
    (key : ℕ → ℕ) (pos : ℕ) (xs : List ℕ)
    → mask_cells key pos xs ≡ zip_with bit_xor xs (tabulate (length xs) pos key)
unfolding mask_cells tabulate
mask_cells-tabulate key pos [] = refl
mask_cells-tabulate key pos (x ∷ xs) =
    ap (λ l. bit_xor x (key pos) ∷ l) (mask_cells-tabulate key (suc pos) xs)

-- The bytes of the keystream from a cell's position on.
pub key_bytes : (ℕ → ℕ) → ℕ → ℕ → List ℕ
key_bytes key pos n = take n (words_bytes (tabulate ((n + 7) / 8) pos key))

pub length-key_bytes : (key : ℕ → ℕ) (pos n : ℕ) → length (key_bytes key pos n) ≡ n
unfolding key_bytes
length-key_bytes key pos n =
    let cells = tabulate ((n + 7) / 8) pos key in
    omega (
      arith,
      length-take n (words_bytes cells),
      length-words_bytes cells,
      length-tabulate ((n + 7) / 8) pos key,
    )

key_bytes-IsByte : (key : ℕ → ℕ) (pos n : ℕ) → All IsByte (key_bytes key pos n)
unfolding key_bytes
key_bytes-IsByte key pos n =
    All-take IsByte n (words_bytes (tabulate ((n + 7) / 8) pos key))
      (words_bytes-IsByte (tabulate ((n + 7) / 8) pos key))

-- Bytes under the bytes of the keystream.
unfoldable pub mask_bytes : (ℕ → ℕ) → ℕ → List ℕ → List ℕ
mask_bytes key pos bytes = zip_with bit_xor bytes (key_bytes key pos (length bytes))

pub length-mask_bytes :
    (key : ℕ → ℕ) (pos : ℕ) (bytes : List ℕ) → length (mask_bytes key pos bytes) ≡ length bytes
unfolding mask_bytes
length-mask_bytes key pos bytes =
    length-zip_with bit_xor bytes (key_bytes key pos (length bytes))
      (sym (length-key_bytes key pos (length bytes)))

pub mask_bytes-IsByte :
    (key : ℕ → ℕ) (pos : ℕ) (bytes : List ℕ)
    → All IsByte bytes
    → All IsByte (mask_bytes key pos bytes)
unfolding mask_bytes
mask_bytes-IsByte key pos bytes v =
    zip_xor-IsByte bytes (key_bytes key pos (length bytes)) v
      (key_bytes-IsByte key pos (length bytes))

pub mask_bytes_twice :
    (key : ℕ → ℕ) (pos : ℕ) (bytes : List ℕ) → mask_bytes key pos (mask_bytes key pos bytes) ≡ bytes
unfolding mask_bytes
mask_bytes_twice key pos bytes =
    ap (λ (n : ℕ). zip_with bit_xor (mask_bytes key pos bytes) (key_bytes key pos n))
      (length-mask_bytes key pos bytes)
    ∙ zip_xor_cancel bytes (key_bytes key pos (length bytes))
        (sym (length-key_bytes key pos (length bytes)))

-- Cells that are masked, as bytes.
mask_cells-bytes :
    (key : ℕ → ℕ) (pos : ℕ) (bytes : List ℕ)
    → All IsByte bytes
    → take (length bytes) (i64_to_bytes (mask_cells key pos (bytes_to_i64 bytes)))
      ≡ mask_bytes key pos bytes
unfolding mask_bytes key_bytes i64_to_bytes
mask_cells-bytes key pos bytes v =
    let n = length bytes in
    let xs = bytes_to_i64 bytes in
    let ks = tabulate (length xs) pos key in
    let same : length xs ≡ length ks = sym (length-tabulate (length xs) pos key) in
    let zeros : List ℕ = replicate ((n + 7) / 8 * 8 - n) 0 in
    ap (λ l. take n (words_bytes l)) (mask_cells-tabulate key pos xs)
    ∙ ap (take n) (words_bytes-zip_xor xs ks same)
    ∙ sym (zip_with-take bit_xor n (words_bytes xs) (words_bytes ks))
    ∙ ap₂ (λ l (k : ℕ). zip_with bit_xor l (take n (words_bytes (tabulate k pos key))))
        (ap (take n) (i64_to_bytes-bytes_to_i64 bytes v) ∙ take-append n bytes zeros refl)
        (length-bytes_to_i64 bytes)

-- The grids that a packet of `n` bytes uses, the last of them in part.
unfoldable pub grids_of : ℕ → ℕ → ℕ → ℕ
grids_of w h n = (n + 7) / 8 / (w * h) + partial ((n + 7) / 8 % (w * h))

module _ (avx2 : Bool) (w h : ℕ) (valid : valid_dimensions w h ≡ true) (nonce : Grid)
    (keys : List Grid) (shifts : List (List ℕ)) (s : IsSchedule w h keys shifts)
    (vn : IsGrid w h nonce) where
  pub pass_lem :
      (number : ℕ) (bytes : List ℕ)
      → All IsByte bytes
      → pass avx2 w h (at avx2 w h valid nonce keys shifts s vn number []) bytes
        ≡ ok (
          at avx2 w h valid nonce keys shifts s vn (number + grids_of w h (length bytes)) [],
          mask_bytes (key_at avx2 w h valid nonce keys shifts s vn) (number * (w * h)) bytes,
        )
  unfolding pass grids_of
  pass_lem number bytes v =
      let xs = bytes_to_i64 bytes in
      let pos : 0 < w * h = omega (arith, area_pos w h valid) in
      let a =
        update_lem avx2 w h valid nonce keys shifts s vn number [] xs tt
          (bytes_to_i64-words bytes v) pos in
      let done =
        finalize_lem avx2 w h valid nonce keys shifts s vn (number + a.k) a.rest a.words a.short in
      let total : length xs ≡ a.k * (w * h) + length a.rest =
        ap length a.splits
        ∙ length-append a.done a.rest
        ∙ ap (λ (n : ℕ). n + length a.rest) a.whole in
      let parts = div_mod_of_join (w * h) a.k (length a.rest) a.short in
      let quotient : (length bytes + 7) / 8 / (w * h) ≡ a.k =
        ap (λ (n : ℕ). n / (w * h)) (sym (length-bytes_to_i64 bytes) ∙ total) ∙ parts.0 in
      let remainder : (length bytes + 7) / 8 % (w * h) ≡ length a.rest =
        ap (λ (n : ℕ). n % (w * h)) (sym (length-bytes_to_i64 bytes) ∙ total) ∙ parts.1 in
      let key = key_at avx2 w h valid nonce keys shifts s vn in
      let state = λ (k : ℕ). at avx2 w h valid nonce keys shifts s vn k [] in
      let used : number + a.k + partial (length a.rest) ≡ number + grids_of w h (length bytes) =
        omega (arith, quotient, ap partial remainder) in
      rw (a.returns, done)
        (ap₂ (λ (k : ℕ) l. ok (state k, take (length bytes) (i64_to_bytes l))) used
            (sym (
                masked-append avx2 w h valid nonce keys shifts s vn number a.k a.done a.rest
                  a.whole)
              ∙ ap (mask_cells key (number * (w * h))) (sym a.splits))
          ∙ ap (λ l. ok (state (number + grids_of w h (length bytes)), l))
              (mask_cells-bytes key (number * (w * h)) bytes v))
