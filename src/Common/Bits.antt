-- ===== src/Common/Bits.antt =====
-- `bit_xor` at variables: the law of its lowest digit, and what follows from it by halving.
use Prim.Native.Nat.{ℕ, zero, suc, ◌+◌, ◌*◌, ◌/◌, ◌%◌, ◌≤◌, ◌<◌, ◌^◌, bit_xor, digits, differ}
use Prim.Native.Nat.{
  ◌-◌, min, max, bit_and, bit_or, bit_xor-bitwise, bit_and-bitwise, bit_or-bitwise,
}
use mathlib.Core.Path.{◌≡◌, refl, sym, ◌∙◌, ap, ap₂}
use native.Mathlib.Nat.{pow-suc, one-le-pow}
use native.Mathlib.Omega.{arith}

-- Fuel beyond the first operand changes no digit.
module _ (rest : ℕ → ℕ) (digit : ℕ → ℕ → ℕ) where
  digits_spare :
      (x y fuel more : ℕ)
      → x ≤ fuel
      → fuel ≤ more
      → digits rest digit more x y ≡ digits rest digit fuel x y
  digits_spare zero y zero zero h k = refl
  digits_spare zero y zero (suc more) h k = refl
  digits_spare zero y (suc fuel) zero h k = absurd (omega arith)
  digits_spare zero y (suc fuel) (suc more) h k = refl
  digits_spare (suc x) y zero more h k = absurd (omega arith)
  digits_spare (suc x) y (suc fuel) zero h k = absurd (omega arith)
  digits_spare (suc x) y (suc fuel) (suc more) h k =
      ap (λ d. d * 2 + digit (suc x % 2) (y % 2))
        (digits_spare (suc x / 2) (y / 2) fuel more (omega arith) (omega arith))

pub zero-bit_xor : (b : ℕ) → bit_xor 0 b ≡ b
zero-bit_xor b = bit_xor-bitwise 0 b

differ_bits : (a b : ℕ) → a < 2 → b < 2 → differ a b ≡ (a + b) % 2
differ_bits zero zero h k = refl
differ_bits zero (suc zero) h k = refl
differ_bits (suc zero) zero h k = refl
differ_bits (suc zero) (suc zero) h k = refl
differ_bits zero (suc (suc b)) h k = absurd (omega arith)
differ_bits (suc zero) (suc (suc b)) h k = absurd (omega arith)
differ_bits (suc (suc a)) b h k = absurd (omega arith)

-- The lowest digit of an exclusive or, and what is above it.
pub bit_xor_step : (a b : ℕ) → bit_xor a b ≡ bit_xor (a / 2) (b / 2) * 2 + (a + b) % 2
bit_xor_step zero b = omega (arith, zero-bit_xor b, zero-bit_xor (b / 2))
bit_xor_step (suc a) b = omega (
  arith,
  bit_xor-bitwise (suc a) b,
  bit_xor-bitwise (suc a / 2) (b / 2),
  differ_bits (suc a % 2) (b % 2) (omega arith) (omega arith),
  digits_spare (λ b. b) differ (suc a / 2) (b / 2) (suc a / 2) a (omega arith) (omega arith),
)

bit_xor-zero_fuel : (n a : ℕ) → a ≤ n → bit_xor a 0 ≡ a
bit_xor-zero_fuel n zero h = refl
bit_xor-zero_fuel zero (suc a) h = absurd (omega arith)
bit_xor-zero_fuel (suc n) (suc a) h =
    omega (arith, bit_xor_step (suc a) 0, bit_xor-zero_fuel n (suc a / 2) (omega arith))

pub bit_xor-zero : (a : ℕ) → bit_xor a 0 ≡ a
bit_xor-zero a = bit_xor-zero_fuel a a (omega arith)

bit_xor_self_fuel : (n a : ℕ) → a ≤ n → bit_xor a a ≡ 0
bit_xor_self_fuel n zero h = refl
bit_xor_self_fuel zero (suc a) h = absurd (omega arith)
bit_xor_self_fuel (suc n) (suc a) h =
    omega (arith, bit_xor_step (suc a) (suc a), bit_xor_self_fuel n (suc a / 2) (omega arith))

pub bit_xor_self : (a : ℕ) → bit_xor a a ≡ 0
bit_xor_self a = bit_xor_self_fuel a a (omega arith)

bit_xor_comm_fuel : (n a b : ℕ) → a ≤ n → bit_xor a b ≡ bit_xor b a
bit_xor_comm_fuel n zero b h = zero-bit_xor b ∙ sym (bit_xor-zero b)
bit_xor_comm_fuel zero (suc a) b h = absurd (omega arith)
bit_xor_comm_fuel (suc n) (suc a) b h = omega (
  arith,
  bit_xor_step (suc a) b,
  bit_xor_step b (suc a),
  bit_xor_comm_fuel n (suc a / 2) (b / 2) (omega arith),
)

pub bit_xor_comm : (a b : ℕ) → bit_xor a b ≡ bit_xor b a
bit_xor_comm a b = bit_xor_comm_fuel a a b (omega arith)

-- Halving commutes with the exclusive or.
pub bit_xor-half : (a b : ℕ) → bit_xor a b / 2 ≡ bit_xor (a / 2) (b / 2)
bit_xor-half a b = omega (arith, bit_xor_step a b)

pub bit_xor-parity : (a b : ℕ) → bit_xor a b % 2 ≡ (a + b) % 2
bit_xor-parity a b = omega (arith, bit_xor_step a b)

bit_xor_assoc_fuel : (n a b c : ℕ) → a ≤ n → bit_xor (bit_xor a b) c ≡ bit_xor a (bit_xor b c)
bit_xor_assoc_fuel n zero b c h =
    ap (λ x. bit_xor x c) (zero-bit_xor b) ∙ sym (zero-bit_xor (bit_xor b c))
bit_xor_assoc_fuel zero (suc a) b c h = absurd (omega arith)
bit_xor_assoc_fuel (suc n) (suc a) b c h =
    let low : (bit_xor (suc a) b + c) % 2 ≡ (suc a + bit_xor b c) % 2 =
      omega (arith, bit_xor-parity (suc a) b, bit_xor-parity b c) in
    let high : bit_xor (bit_xor (suc a) b / 2) (c / 2) ≡ bit_xor (suc a / 2) (bit_xor b c / 2) =
      rw (bit_xor-half (suc a) b, bit_xor-half b c)
        (bit_xor_assoc_fuel n (suc a / 2) (b / 2) (c / 2) (omega arith)) in
    omega (arith, bit_xor_step (bit_xor (suc a) b) c, bit_xor_step (suc a) (bit_xor b c), low, high)

pub bit_xor_assoc : (a b c : ℕ) → bit_xor (bit_xor a b) c ≡ bit_xor a (bit_xor b c)
bit_xor_assoc a b c = bit_xor_assoc_fuel a a b c (omega arith)

-- What an exclusive or with `b` changes, another one with `b` restores.
pub bit_xor_cancel : (a b : ℕ) → bit_xor (bit_xor a b) b ≡ a
bit_xor_cancel a b = bit_xor_assoc a b b ∙ ap (λ x. bit_xor a x) (bit_xor_self b) ∙ bit_xor-zero a

pub bit_xor_left_comm : (a b c : ℕ) → bit_xor a (bit_xor b c) ≡ bit_xor b (bit_xor a c)
bit_xor_left_comm a b c =
    sym (bit_xor_assoc a b c) ∙ ap (λ x. bit_xor x c) (bit_xor_comm a b) ∙ bit_xor_assoc b a c

pub bit_xor_interchange :
    (a b c d : ℕ) → bit_xor (bit_xor a b) (bit_xor c d) ≡ bit_xor (bit_xor a c) (bit_xor b d)
bit_xor_interchange a b c d =
    bit_xor_assoc a b (bit_xor c d)
    ∙ ap (λ x. bit_xor a x) (bit_xor_left_comm b c d)
    ∙ sym (bit_xor_assoc a c (bit_xor b d))

pub bit_xor-double : (a b : ℕ) → bit_xor (a * 2) (b * 2) ≡ bit_xor a b * 2
bit_xor-double a b = rw (bit_xor_step (a * 2) (b * 2), half a, half b) (omega arith)
  where
    half : (x : ℕ) → x * 2 / 2 ≡ x
    half x = omega arith

-- An exclusive or of `k`-bit words is one.
pub bit_xor-lt : (k a b : ℕ) → a < 2 ^ k → b < 2 ^ k → bit_xor a b < 2 ^ k
bit_xor-lt zero zero b p q = rw zero-bit_xor q
bit_xor-lt zero (suc a) b p q = absurd (omega arith)
bit_xor-lt (suc k) a b p q = omega (
  arith,
  pow-suc 2 k,
  bit_xor_step a b,
  bit_xor-lt k (a / 2) (b / 2) (omega (arith, pow-suc 2 k)) (omega (arith, pow-suc 2 k)),
)

mul-pow-suc : (q k : ℕ) → q * 2 ^ suc k ≡ 2 * (q * 2 ^ k)
mul-pow-suc q k = omega (arith, ap (λ (t : ℕ). q * t) (pow-suc 2 k))

-- The exclusive or works on the bits above `k` and on those below it apart.
pub bit_xor-join :
    (k p q r s : ℕ)
    → r < 2 ^ k
    → s < 2 ^ k
    → bit_xor (p * 2 ^ k + r) (q * 2 ^ k + s) ≡ bit_xor p q * 2 ^ k + bit_xor r s
bit_xor-join zero p q zero zero hr hs = ground arith
bit_xor-join zero p q zero (suc s) hr hs = absurd (omega arith)
bit_xor-join zero p q (suc r) s hr hs = absurd (omega arith)
bit_xor-join (suc k) p q r s hr hs = ground (
  arith,
  bit_xor_step (p * 2 ^ suc k + r) (q * 2 ^ suc k + s),
  bit_xor_step r s,
  mul-pow-suc p k,
  mul-pow-suc q k,
  mul-pow-suc (bit_xor p q) k,
  pow-suc 2 k,
  bit_xor-join k p q (r / 2) (s / 2) (omega (arith, pow-suc 2 k)) (omega (arith, pow-suc 2 k)),
)

pub div_mod_of_join : (m q r : ℕ) → r < m → ((q * m + r) / m ≡ q) × ((q * m + r) % m ≡ r)
div_mod_of_join m q r h = grind arith

pub join_div_mod : (m a : ℕ) → a ≡ a / m * m + a % m
join_div_mod m a = grind arith

-- So the low and the high bits of an exclusive or are those of its operands.
pub bit_xor-split :
    (k a b : ℕ)
    → (bit_xor a b / 2 ^ k ≡ bit_xor (a / 2 ^ k) (b / 2 ^ k))
      × (bit_xor a b % 2 ^ k ≡ bit_xor (a % 2 ^ k) (b % 2 ^ k))
bit_xor-split k a b =
    let pos : 1 ≤ 2 ^ k = one-le-pow k 2 (omega arith) in
    let ra : a % 2 ^ k < 2 ^ k = grind arith in
    let rb : b % 2 ^ k < 2 ^ k = grind arith in
    let joined : bit_xor a b
        ≡ bit_xor (a / 2 ^ k) (b / 2 ^ k) * 2 ^ k + bit_xor (a % 2 ^ k) (b % 2 ^ k) =
      ap₂ bit_xor (join_div_mod (2 ^ k) a) (join_div_mod (2 ^ k) b)
      ∙ bit_xor-join k (a / 2 ^ k) (b / 2 ^ k) (a % 2 ^ k) (b % 2 ^ k) ra rb in
    let parts =
      div_mod_of_join (2 ^ k) (bit_xor (a / 2 ^ k) (b / 2 ^ k)) (bit_xor (a % 2 ^ k) (b % 2 ^ k))
        (bit_xor-lt k (a % 2 ^ k) (b % 2 ^ k) ra rb) in
    (ap (λ x. x / 2 ^ k) joined ∙ parts.0, ap (λ x. x % 2 ^ k) joined ∙ parts.1)

-- The same for `&` and `|`, lowest digit first.
and_halves : (x y : ℕ) → bit_and x y ≡ min (x % 2) (y % 2) + 2 * bit_and (x / 2) (y / 2)
and_halves zero y = omega (arith, bit_and-bitwise 0 (y / 2), bit_and-bitwise 0 y)
and_halves (suc x) y =
    let enough =
      digits_spare (λ b. 0) min (suc x / 2) (y / 2) (suc x / 2) x (omega arith) (omega arith) in
    omega (arith, enough, bit_and-bitwise (suc x / 2) (y / 2), bit_and-bitwise (suc x) y)

or_halves : (x y : ℕ) → bit_or x y ≡ max (x % 2) (y % 2) + 2 * bit_or (x / 2) (y / 2)
or_halves zero y = omega (arith, bit_or-bitwise 0 (y / 2), bit_or-bitwise 0 y)
or_halves (suc x) y =
    let enough =
      digits_spare (λ b. b) max (suc x / 2) (y / 2) (suc x / 2) x (omega arith) (omega arith) in
    omega (arith, enough, bit_or-bitwise (suc x / 2) (y / 2), bit_or-bitwise (suc x) y)

pub zero-bit_or : (a : ℕ) → bit_or 0 a ≡ a
zero-bit_or a = bit_or-bitwise 0 a

-- An operation against 0 that keeps or drops each digit, up to a bound.
right_zero :
    (op : ℕ → ℕ → ℕ) (kept digit : ℕ → ℕ)
    → op 0 0 ≡ kept 0
    → ((x : ℕ) → op x 0 ≡ digit x + 2 * op (x / 2) 0)
    → ((x : ℕ) → kept x ≡ digit x + 2 * kept (x / 2))
    → (bound x : ℕ) → x ≤ bound
    → op x 0 ≡ kept x
right_zero op kept digit base step whole bound zero p = base
right_zero op kept digit base step whole zero (suc x) p = absurd (omega arith)
right_zero op kept digit base step whole (suc bound) (suc x) p =
    let later = right_zero op kept digit base step whole bound (suc x / 2) (omega arith) in
    step (suc x) ∙ ap (λ t. digit (suc x) + 2 * t) later ∙ sym (whole (suc x))

pub bit_and-zero : (a : ℕ) → bit_and a 0 ≡ 0
bit_and-zero a =
    right_zero bit_and (λ x. 0) (λ x. 0) refl (λ x. omega (arith, and_halves x 0))
      (λ x. omega arith) a a (omega arith)

bit_or-zero : (a : ℕ) → bit_or a 0 ≡ a
bit_or-zero a =
    right_zero bit_or (λ x. x) (λ x. x % 2) refl (λ x. omega (arith, or_halves x 0))
      (λ x. omega arith) a a (omega arith)

mod_by_half : (m a : ℕ) → 0 < m → a / 2 % m * 2 + a % 2 ≡ a % (2 * m)
mod_by_half m a h =
    let below : a / 2 % m < m = grind arith in
    let whole : a ≡ a / 2 / m * (2 * m) + (a / 2 % m * 2 + a % 2) =
      omega (arith, join_div_mod m (a / 2)) in
    sym (
      ap (λ x. x % (2 * m)) whole
      ∙ (div_mod_of_join (2 * m) (a / 2 / m) (a / 2 % m * 2 + a % 2) (omega arith)).1)

-- The mask of the `k` low bits.
pub bit_and_mask : (k a : ℕ) → bit_and a (2 ^ k - 1) ≡ a % 2 ^ k
bit_and_mask zero a = ground (arith, bit_and-zero a)
bit_and_mask (suc k) a =
    let pos : 1 ≤ 2 ^ k = one-le-pow k 2 (omega arith) in
    let half : (2 ^ suc k - 1) / 2 ≡ 2 ^ k - 1 = omega (arith, pow-suc 2 k) in
    let step : bit_and a (2 ^ suc k - 1)
        ≡ bit_and (a / 2) ((2 ^ suc k - 1) / 2) * 2 + min (a % 2) ((2 ^ suc k - 1) % 2) =
      omega (arith, and_halves a (2 ^ suc k - 1)) in
    step
    ∙ ap₂ ◌+◌ (ap (λ m. bit_and (a / 2) m * 2) half) (omega (arith, pow-suc 2 k))
    ∙ ap (λ x. x * 2 + a % 2) (bit_and_mask k (a / 2))
    ∙ mod_by_half (2 ^ k) a pos
    ∙ ap (λ m. a % m) (omega (arith, pow-suc 2 k))

-- `|` of a field above bit `k` and one below it.
pub bit_or-join : (k q r : ℕ) → r < 2 ^ k → bit_or (q * 2 ^ k) r ≡ q * 2 ^ k + r
bit_or-join zero q zero h = ground (arith, bit_or-zero q)
bit_or-join zero q (suc r) h = absurd (omega arith)
bit_or-join (suc k) q r h = ground (
  arith,
  or_halves (q * 2 ^ suc k) r,
  mul-pow-suc q k,
  bit_or-join k q (r / 2) (omega (arith, pow-suc 2 k)),
)

zero_or_to : (bound x y : ℕ) → x ≤ bound → bit_or x y ≡ 0 → (x ≡ 0) × (y ≡ 0)
zero_or_to bound zero y p e = (refl, sym (zero-bit_or y) ∙ e)
zero_or_to zero (suc x) y p e = absurd (omega arith)
zero_or_to (suc bound) (suc x) y p e =
    let whole = or_halves (suc x) y in
    let (left, right) = zero_or_to bound (suc x / 2) (y / 2) (omega arith) (omega (arith, whole)) in
    (omega (arith, whole, left), omega (arith, whole, right))

pub bit_or_is_zero : (x y : ℕ) → bit_or x y ≡ 0 → (x ≡ 0) × (y ≡ 0)
bit_or_is_zero x y e = zero_or_to x x y (omega arith) e
