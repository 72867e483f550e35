-- ===== src/Chat/Crypto/Bytes.antt =====
-- chat/src/crypto/mod.rs: `bytes_to_i64` and `i64_to_bytes`, and the bytes of masked cells.
use why.Common.{
  ℕ, zero, suc, ◌+◌, ◌-◌, ◌*◌, ◌/◌, ◌≤◌, ◌<◌, ◌≡◌, inl, inr, refl, sym, ap, ap₂, ◌∙◌, arith, List,
  [], ◌∷◌, ◌++◌, map, length, take, drop, replicate, All, IsByte, IsWord, zip_with, bit_xor,
  length-append, length-take, length-drop, length-replicate, length-map, take_all, All-append,
  All-take, All-drop, All-replicate, append-nil, append_assoc, take-append-drop, zip_with-append,
  to_be_bytes, from_be_bytes, to_be_bytes-from_be_bytes, to_be_bytes-bit_xor, Bool-cases, ltb,
  to_be_bytes-IsByte, length-to_be_bytes, from_be_bytes-IsWord,
}
use why.Core.Grid.{chunks}
use why.Core.Grid.Bytes.{words_bytes}
use why.Chat.Crypto.{padded, bytes_to_i64, i64_to_bytes, exact_cells}

pub words_bytes-IsByte : (vs : List ℕ) → All IsByte (words_bytes vs)
unfolding words_bytes
words_bytes-IsByte [] = tt
words_bytes-IsByte (v ∷ vs) =
    All-append IsByte (to_be_bytes v) (words_bytes vs) (to_be_bytes-IsByte v)
      (words_bytes-IsByte vs)

pub words_bytes-zip_xor :
    (xs ys : List ℕ)
    → length xs ≡ length ys
    → words_bytes (zip_with bit_xor xs ys) ≡ zip_with bit_xor (words_bytes xs) (words_bytes ys)
unfolding words_bytes
words_bytes-zip_xor [] [] e = refl
words_bytes-zip_xor [] (y ∷ ys) e = absurd (omega arith)
words_bytes-zip_xor (x ∷ xs) [] e = absurd (omega arith)
words_bytes-zip_xor (x ∷ xs) (y ∷ ys) e =
    ap₂ ◌++◌ (to_be_bytes-bit_xor x y) (words_bytes-zip_xor xs ys (omega arith))
    ∙ sym (
        zip_with-append bit_xor (to_be_bytes x) (words_bytes xs) (to_be_bytes y) (words_bytes ys)
          (length-to_be_bytes x ∙ sym (length-to_be_bytes y)))

padded-IsByte : (chunk : List ℕ) → All IsByte chunk → All IsByte (padded chunk)
unfolding padded
padded-IsByte chunk v =
    All-append IsByte chunk (replicate (8 - length chunk) 0) v
      (All-replicate IsByte (8 - length chunk) 0 (omega arith))

length-padded : (chunk : List ℕ) → length chunk ≤ 8 → length (padded chunk) ≡ 8
unfolding padded
length-padded chunk p = omega (
  arith,
  length-append chunk (replicate {A = ℕ} (8 - length chunk) 0),
  length-replicate {A = ℕ} (8 - length chunk) 0,
)

abbrev packed : ℕ → List ℕ → List ℕ
packed count bytes = map (λ chunk. from_be_bytes (padded chunk)) (chunks count 8 bytes)

length-packed : (count : ℕ) (bytes : List ℕ) → length (packed count bytes) ≡ count
unfolding chunks
length-packed zero bytes = refl
length-packed (suc count) bytes = ap suc (length-packed count (drop 8 bytes))

packed-words : (count : ℕ) (bytes : List ℕ) → All IsByte bytes → All IsWord (packed count bytes)
unfolding chunks
packed-words zero bytes v = tt
packed-words (suc count) bytes v =
    let chunk = take 8 bytes in
    (
      from_be_bytes-IsWord (padded chunk) (padded-IsByte chunk (All-take IsByte 8 bytes v))
          (length-padded chunk (omega (arith, length-take 8 bytes))),
      packed-words count (drop 8 bytes) (All-drop IsByte 8 bytes v),
    )

words_bytes-packed :
    (count : ℕ) (bytes : List ℕ)
    → All IsByte bytes
    → length bytes ≤ count * 8
    → count * 8 < length bytes + 8
    → words_bytes (packed count bytes) ≡ bytes ++ replicate (count * 8 - length bytes) 0
unfolding words_bytes chunks padded
words_bytes-packed zero [] v p q = refl
words_bytes-packed zero (b ∷ bytes) v p q = absurd (omega arith)
words_bytes-packed (suc count) bytes v p q =
    let chunk = take 8 bytes in
    let head : to_be_bytes (from_be_bytes (padded chunk)) ≡ padded chunk =
      to_be_bytes-from_be_bytes (padded chunk) (padded-IsByte chunk (All-take IsByte 8 bytes v))
        (length-padded chunk (omega (arith, length-take 8 bytes))) in
    ap (λ l. l ++ words_bytes (packed count (drop 8 bytes))) head
    ∙ elim (Bool-cases (ltb (length bytes) 8)) [
      | inl e ↦
          let few : length bytes < 8 = ground arith in
          let one : count ≡ 0 = omega arith in
          ap (λ n. padded chunk ++ words_bytes (packed n (drop 8 bytes))) one
          ∙ append-nil (padded chunk)
          ∙ ap padded (take_all 8 bytes (omega arith))
          ∙ ap (λ (n : ℕ). bytes ++ replicate n 0) {x = 8 - length bytes}
              {y = suc count * 8 - length bytes} (omega arith)
      | inr e ↦
          let many : 8 ≤ length bytes = ground arith in
          let size : length chunk ≡ 8 = omega (arith, length-take 8 bytes) in
          let left : length (drop 8 bytes) ≡ length bytes - 8 = length-drop 8 bytes in
          ap₂ ◌++◌ (ap (λ (n : ℕ). chunk ++ replicate (8 - n) 0) size ∙ append-nil chunk) (
            words_bytes-packed count (drop 8 bytes) (All-drop IsByte 8 bytes v) (omega arith)
              (omega arith))
          ∙ sym (append_assoc chunk (drop 8 bytes) _)
          ∙ ap₂ (λ l (n : ℕ). l ++ replicate n 0) {u = count * 8 - length (drop 8 bytes)}
              {v = suc count * 8 - length bytes} (take-append-drop 8 bytes) (omega arith)
    ]

-- Bytes that are packed into cells and unpacked are the bytes and the zeros that fill the last cell.
pub i64_to_bytes-bytes_to_i64 :
    (bytes : List ℕ)
    → All IsByte bytes
    → i64_to_bytes (bytes_to_i64 bytes)
      ≡ bytes ++ replicate ((length bytes + 7) / 8 * 8 - length bytes) 0
unfolding i64_to_bytes bytes_to_i64
i64_to_bytes-bytes_to_i64 bytes v =
    words_bytes-packed ((length bytes + 7) / 8) bytes v (omega arith) (omega arith)

pub length-bytes_to_i64 : (bytes : List ℕ) → length (bytes_to_i64 bytes) ≡ (length bytes + 7) / 8
unfolding bytes_to_i64
length-bytes_to_i64 bytes = length-packed ((length bytes + 7) / 8) bytes

pub bytes_to_i64-words : (bytes : List ℕ) → All IsByte bytes → All IsWord (bytes_to_i64 bytes)
unfolding bytes_to_i64
bytes_to_i64-words bytes v = packed-words ((length bytes + 7) / 8) bytes v

cells-words :
    (count : ℕ) (bytes : List ℕ)
    → All IsByte bytes
    → length bytes ≡ count * 8
    → All IsWord (map from_be_bytes (chunks count 8 bytes))
unfolding chunks
cells-words zero bytes v e = tt
cells-words (suc count) bytes v e = (
  from_be_bytes-IsWord (take 8 bytes) (All-take IsByte 8 bytes v)
      (omega (arith, length-take 8 bytes)),
  cells-words count (drop 8 bytes) (All-drop IsByte 8 bytes v) (omega (arith, length-drop 8 bytes)),
)

length-chunks : (count : ℕ) (bytes : List ℕ) → length (chunks count 8 bytes) ≡ count
unfolding chunks
length-chunks zero bytes = refl
length-chunks (suc count) bytes = ap suc (length-chunks count (drop 8 bytes))

-- A whole number of cells is read from its bytes.
pub exact_cells_lem :
    (count : ℕ) (bytes : List ℕ)
    → All IsByte bytes
    → length bytes ≡ count * 8
    → (length (exact_cells bytes) ≡ count) × All IsWord (exact_cells bytes)
unfolding exact_cells
exact_cells_lem count bytes v e =
    let n : length bytes / 8 ≡ count = omega arith in
    rw n (
      length-map from_be_bytes (chunks count 8 bytes) ∙ length-chunks count bytes,
      cells-words count bytes v e,
    )
