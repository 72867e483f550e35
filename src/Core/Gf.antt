-- ===== src/Core/Gf.antt =====
-- core/src/gf.rs: the field of 2 ^ 64 elements.
use Prim.Native.Nat.{bit_and, bit_xor}
use why.Common.{
  ℕ, zero, suc, ◌*◌, ◌%◌, ◌^◌, ◌<◌, ◌≡◌, refl, ap, ap₂, sym, ◌∙◌, arith, IsWord, wrapping_sub,
  ◌<<<◌, ◌>>>◌, bit_xor-double, bit_xor-split, bit_xor-lt, bit_xor_interchange,
}

unfoldable pub xtime : ℕ → ℕ
xtime v = bit_xor (v <<< 1) (bit_and (wrapping_sub 0 (v >>> 63)) 0x1B)

-- What the bit that leaves the top folds back into the word.
abbrev fold : ℕ → ℕ
fold top = bit_and (wrapping_sub 0 top) 0x1B

fold-lt : (t : ℕ) → t < 2 → fold t < 2 ^ 64
fold-lt zero h = omega arith
fold-lt (suc zero) h = omega arith
fold-lt (suc (suc t)) h = absurd (omega arith)

fold-bit_xor : (s t : ℕ) → s < 2 → t < 2 → fold (bit_xor s t) ≡ bit_xor (fold s) (fold t)
fold-bit_xor zero zero h k = refl
fold-bit_xor zero (suc zero) h k = refl
fold-bit_xor (suc zero) zero h k = refl
fold-bit_xor (suc zero) (suc zero) h k = refl
fold-bit_xor zero (suc (suc t)) h k = absurd (omega arith)
fold-bit_xor (suc zero) (suc (suc t)) h k = absurd (omega arith)
fold-bit_xor (suc (suc s)) t h k = absurd (omega arith)

pub xtime-IsWord : (v : ℕ) → IsWord v → IsWord (xtime v)
unfolding xtime
xtime-IsWord v h =
    bit_xor-lt 64 (v <<< 1) (fold (v >>> 63)) (omega arith) (fold-lt (v >>> 63) (omega arith))

shl_one-bit_xor : (a b : ℕ) → bit_xor a b <<< 1 ≡ bit_xor (a <<< 1) (b <<< 1)
shl_one-bit_xor a b =
    ap (λ x. x % 2 ^ 64) (sym (bit_xor-double a b)) ∙ (bit_xor-split 64 (a * 2) (b * 2)).1

-- Multiplication by x is linear.
pub xtime-bit_xor :
    (a b : ℕ) → IsWord a → IsWord b → xtime (bit_xor a b) ≡ bit_xor (xtime a) (xtime b)
unfolding xtime
xtime-bit_xor a b ha hb =
    ap₂ bit_xor (shl_one-bit_xor a b) (
      ap fold (bit_xor-split 63 a b).0
      ∙ fold-bit_xor (a >>> 63) (b >>> 63) (omega arith) (omega arith))
    ∙ bit_xor_interchange (a <<< 1) (b <<< 1) (fold (a >>> 63)) (fold (b >>> 63))
