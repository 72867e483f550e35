-- ===== src/Common/Words.antt =====
-- Machine words as native numbers. A `u64` or an `i64` is its bit pattern, a number below 2 ^ 64, so
-- the casts between the two are the identity. Bytes are numbers below 256.
use Prim.Native.Nat.{ℕ, zero, suc, ◌+◌, ◌-◌, ◌*◌, ◌/◌, ◌%◌, ◌^◌, ◌<◌}
use mathlib.Core.Path.{◌≡◌, refl, ap, ◌∙◌}
use mathlib.Core.List.{List, [], ◌∷◌, ◌++◌}
use native.Mathlib.Nat.{pow-suc}
use native.Mathlib.Omega.{arith}
use why.Common.Lists.{length, All, length-append, All-append}
use why.Common.Tests.{leb, if◌then◌else◌}

abbrev pub u64_mod : ℕ
u64_mod = 2 ^ 64

abbrev pub IsWord : ℕ → Type 0
IsWord v = v < 2 ^ 64

abbrev pub wrapping_add : ℕ → ℕ → ℕ
wrapping_add a b = (a + b) % 2 ^ 64

abbrev pub wrapping_sub : ℕ → ℕ → ℕ
wrapping_sub a b = (a + 2 ^ 64 - b) % 2 ^ 64

infixl 75 ◌<<<◌ ◌>>>◌
-- Shifts of a `u64`: what leaves the top is lost.
abbrev pub ◌<<<◌ : ℕ → ℕ → ℕ
v <<< k = v * 2 ^ k % 2 ^ 64

abbrev pub ◌>>>◌ : ℕ → ℕ → ℕ
v >>> k = v / 2 ^ k

-- The right shift of an `i64`, which repeats the sign bit.
abbrev pub sar : ℕ → ℕ → ℕ
sar v k = if leb (2 ^ 63) v then v / 2 ^ k + (2 ^ 64 - 2 ^ (64 - k)) else v / 2 ^ k

-- Rotations by less than 64.
abbrev pub rotate_left_64 : ℕ → ℕ → ℕ
rotate_left_64 v k = v * 2 ^ k % 2 ^ 64 + v / 2 ^ (64 - k)

abbrev pub rotate_right_64 : ℕ → ℕ → ℕ
rotate_right_64 v k = v / 2 ^ k + v % 2 ^ k * 2 ^ (64 - k)

-- The `n` low bytes of a word, the highest first, and the word that they make.
unfoldable pub be_bytes : ℕ → ℕ → List ℕ
be_bytes zero v = []
be_bytes (suc n) v = be_bytes n (v / 256) ++ v % 256 ∷ []

unfoldable pub from_be : ℕ → List ℕ → ℕ
from_be acc [] = acc
from_be acc (b ∷ bs) = from_be (acc * 256 + b) bs

unfoldable pub to_be_bytes : ℕ → List ℕ
to_be_bytes v = be_bytes 8 v

unfoldable pub from_be_bytes : List ℕ → ℕ
from_be_bytes bs = from_be 0 bs

pub length-be_bytes : (n v : ℕ) → length (be_bytes n v) ≡ n
unfolding be_bytes
length-be_bytes zero v = refl
length-be_bytes (suc n) v =
    omega
      (arith, length-append {0} (be_bytes n (v / 256)) (v % 256 ∷ []), length-be_bytes n (v / 256))

pub length-to_be_bytes : (v : ℕ) → length (to_be_bytes v) ≡ 8
unfolding to_be_bytes
length-to_be_bytes v = length-be_bytes 8 v

pub be_bytes-IsByte : (n v : ℕ) → All (λ b. b < 256) (be_bytes n v)
unfolding be_bytes
be_bytes-IsByte zero v = tt
be_bytes-IsByte (suc n) v =
    All-append (λ b. b < 256) (be_bytes n (v / 256)) _ (be_bytes-IsByte n (v / 256))
      (omega arith, tt)

pub to_be_bytes-IsByte : (v : ℕ) → All (λ b. b < 256) (to_be_bytes v)
unfolding to_be_bytes
to_be_bytes-IsByte v = be_bytes-IsByte 8 v

from_be-append : (acc : ℕ) (xs ys : List ℕ) → from_be acc (xs ++ ys) ≡ from_be (from_be acc xs) ys
unfolding from_be
from_be-append acc [] ys = refl
from_be-append acc (x ∷ xs) ys = from_be-append (acc * 256 + x) xs ys

pub from_be-be_bytes : (n v : ℕ) → v < 256 ^ n → from_be 0 (be_bytes n v) ≡ v
unfolding from_be be_bytes
from_be-be_bytes zero v h = omega arith
from_be-be_bytes (suc n) v h =
    from_be-append 0 (be_bytes n (v / 256)) (v % 256 ∷ [])
    ∙ ap (λ x. x * 256 + v % 256) (from_be-be_bytes n (v / 256) (omega (arith, pow-suc 256 n)))
    ∙ omega arith

-- A word is read back from its big-endian bytes.
pub from_be_bytes-to_be_bytes : (v : ℕ) → IsWord v → from_be_bytes (to_be_bytes v) ≡ v
unfolding from_be_bytes to_be_bytes
from_be_bytes-to_be_bytes v h = from_be-be_bytes 8 v (omega arith)

from_be-lt :
    (acc n : ℕ) (bs : List ℕ)
    → All (λ b. b < 256) bs
    → acc < n
    → from_be acc bs < n * 256 ^ length bs
unfolding from_be
from_be-lt acc n [] h p = omega arith
from_be-lt acc n (b ∷ bs) h p = omega (
  arith,
  from_be-lt (acc * 256 + b) (n * 256) bs h.1 (omega (arith, h.0)),
  ap (λ (t : ℕ). n * t) (pow-suc 256 (length bs)),
)

pub from_be_bytes-IsWord :
    (bs : List ℕ) → All (λ b. b < 256) bs → length bs ≡ 8 → IsWord (from_be_bytes bs)
unfolding from_be_bytes
from_be_bytes-IsWord bs h e = rw e at (from_be-lt 0 1 bs h (omega arith))
