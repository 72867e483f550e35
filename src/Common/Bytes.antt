-- ===== src/Common/Bytes.antt =====
-- Big-endian bytes of words, read back from any bytes, and under the exclusive or.
use Prim.Native.Nat.{ℕ, zero, suc, ◌+◌, ◌*◌, ◌/◌, ◌%◌, ◌<◌, ◌^◌, bit_xor}
use mathlib.Core.Path.{◌≡◌, refl, sym, ap, ap₂, ◌∙◌}
use mathlib.Core.List.{List, [], ◌∷◌, ◌++◌, append-nil, append_assoc}
use mathlib.Core.Bool.{Bool, true, false, ◌&&◌}
use native.Mathlib.Omega.{arith}
use why.Common.Tests.{◌==◌, ==_iff}
use why.Common.Lists.{length, replicate, All, zip_with}
use why.Common.Bits.{bit_xor-split, bit_xor_cancel, bit_xor-lt}
use why.Common.Words.{
  be_bytes, from_be, to_be_bytes, from_be_bytes, from_be-be_bytes, length-be_bytes,
}

abbrev pub IsByte : ℕ → Type 0
IsByte b = b < 256

-- The bytes of what was read are the bytes that were read, after those of the start value.
be_bytes-from_be :
    (bs : List ℕ) (k acc : ℕ)
    → All IsByte bs
    → be_bytes (length bs + k) (from_be acc bs) ≡ be_bytes k acc ++ bs
unfolding be_bytes from_be
be_bytes-from_be [] k acc v =
    ap (λ (n : ℕ). be_bytes n acc) {x = 0 + k} {y = k} (omega arith)
    ∙ sym (append-nil (be_bytes k acc))
be_bytes-from_be (b ∷ bs) k acc v =
    let low : (acc * 256 + b) % 256 ≡ b = omega (arith, v.0) in
    let high : (acc * 256 + b) / 256 ≡ acc = omega (arith, v.0) in
    ap (λ (n : ℕ). be_bytes n (from_be (acc * 256 + b) bs)) {x = suc (length bs) + k}
      {y = length bs + suc k} (omega arith)
    ∙ be_bytes-from_be bs (suc k) (acc * 256 + b) v.1
    ∙ ap₂ (λ a c. (be_bytes k a ++ c ∷ []) ++ bs) high low
    ∙ append_assoc (be_bytes k acc) (b ∷ []) bs

-- Eight bytes are written as they were read.
pub to_be_bytes-from_be_bytes :
    (bs : List ℕ) → All IsByte bs → length bs ≡ 8 → to_be_bytes (from_be_bytes bs) ≡ bs
unfolding to_be_bytes from_be_bytes be_bytes
to_be_bytes-from_be_bytes bs v e =
    ap (λ (n : ℕ). be_bytes n (from_be 0 bs)) {x = 8} {y = length bs + 0} (omega arith)
    ∙ be_bytes-from_be bs 0 0 v

-- A `u32` is read back from its bytes.
pub from_be_bytes-be_bytes_4 : (n : ℕ) → n < 2 ^ 32 → from_be_bytes (be_bytes 4 n) ≡ n
unfolding from_be_bytes
from_be_bytes-be_bytes_4 n p = from_be-be_bytes 4 n (omega arith)

pub to_be_bytes-zero : to_be_bytes 0 ≡ replicate 8 0
unfolding to_be_bytes be_bytes
to_be_bytes-zero = refl

module _ {A B C : Type 0} where
  pub zip_with-append :
      (f : A → B → C) (xs xs' : List A) (ys ys' : List B)
      → length xs ≡ length ys
      → zip_with f (xs ++ xs') (ys ++ ys') ≡ zip_with f xs ys ++ zip_with f xs' ys'
  zip_with-append f [] xs' [] ys' e = refl
  zip_with-append f [] xs' (y ∷ ys) ys' e = absurd (omega arith)
  zip_with-append f (x ∷ xs) xs' [] ys' e = absurd (omega arith)
  zip_with-append f (x ∷ xs) xs' (y ∷ ys) ys' e =
      ap (λ l. f x y ∷ l) (zip_with-append f xs xs' ys ys' (omega arith))

be_bytes-bit_xor :
    (n a b : ℕ) → be_bytes n (bit_xor a b) ≡ zip_with bit_xor (be_bytes n a) (be_bytes n b)
unfolding be_bytes
be_bytes-bit_xor zero a b = refl
be_bytes-bit_xor (suc n) a b =
    let parts = bit_xor-split 8 a b in
    ap₂ (λ x y. be_bytes n x ++ y ∷ []) parts.0 parts.1
    ∙ ap (λ l. l ++ bit_xor (a % 256) (b % 256) ∷ []) (be_bytes-bit_xor n (a / 256) (b / 256))
    ∙ sym (
        zip_with-append bit_xor (be_bytes n (a / 256)) (a % 256 ∷ []) (be_bytes n (b / 256))
          (b % 256 ∷ []) (length-be_bytes n (a / 256) ∙ sym (length-be_bytes n (b / 256))))

-- The bytes of an exclusive or are the exclusive or of the bytes.
pub to_be_bytes-bit_xor :
    (a b : ℕ) → to_be_bytes (bit_xor a b) ≡ zip_with bit_xor (to_be_bytes a) (to_be_bytes b)
unfolding to_be_bytes
to_be_bytes-bit_xor a b = be_bytes-bit_xor 8 a b

-- A list is masked twice with the same list.
pub zip_xor_cancel :
    (xs ys : List ℕ) → length xs ≡ length ys → zip_with bit_xor (zip_with bit_xor xs ys) ys ≡ xs
zip_xor_cancel [] ys e = refl
zip_xor_cancel (x ∷ xs) [] e = absurd (omega arith)
zip_xor_cancel (x ∷ xs) (y ∷ ys) e =
    ap₂ ◌∷◌ (bit_xor_cancel x y) (zip_xor_cancel xs ys (omega arith))

pub zip_xor-IsByte :
    (xs ys : List ℕ) → All IsByte xs → All IsByte ys → All IsByte (zip_with bit_xor xs ys)
zip_xor-IsByte [] ys v u = tt
zip_xor-IsByte (x ∷ xs) [] v u = tt
zip_xor-IsByte (x ∷ xs) (y ∷ ys) v u = (bit_xor-lt 8 x y v.0 u.0, zip_xor-IsByte xs ys v.1 u.1)

unfoldable pub starts_with : List ℕ → List ℕ → Bool
starts_with entry [] = true
starts_with [] (p ∷ ps) = false
starts_with (c ∷ cs) (p ∷ ps) = (c == p) && starts_with cs ps

pub starts_with-append : (xs ys : List ℕ) → starts_with (xs ++ ys) xs ≡ true
unfolding starts_with
starts_with-append [] ys = refl
starts_with-append (x ∷ xs) ys = rw ((==_iff x x).1 refl, starts_with-append xs ys) refl
