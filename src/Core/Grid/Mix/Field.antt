-- ===== src/Core/Grid/Mix/Field.antt =====
-- core/src/gf.rs: a sum of powers of x acting on a word, as the terms of `mix_columns` do. A
-- coefficient is the polynomial whose coefficients are its bits.
use native.Mathlib.Nat.{pow-suc, one-le-pow}
use why.Common.{
  ℕ, zero, suc, ◌*◌, ◌/◌, ◌%◌, ◌^◌, ◌≤◌, ◌<◌, ◌≡◌, refl, sym, ap, ap₂, ◌∙◌, arith, Bool, true,
  false, ◌==◌, if◌then◌else◌, IsWord, bit_xor, bit_xor-lt, bit_xor_self, bit_xor-zero, zero-bit_xor,
  bit_xor_interchange, bit_xor-half, bit_xor-parity,
}
use why.Core.Gf.{xtime, xtime-IsWord, xtime-bit_xor}

abbrev pub pick : Bool → ℕ → ℕ
pick b v = if b then v else 0

-- The `n` lowest coefficients of `c`, applied to `v`.
pub act : ℕ → ℕ → ℕ → ℕ
act zero c v = 0
act (suc n) c v = bit_xor (pick (c % 2 == 1) v) (act n (c / 2) (xtime v))

pick-IsWord : (b : Bool) (v : ℕ) → IsWord v → IsWord (pick b v)
pick-IsWord true v h = h
pick-IsWord false v h = omega arith

pub act-IsWord : (n c v : ℕ) → IsWord v → IsWord (act n c v)
unfolding act
act-IsWord zero c v h = omega arith
act-IsWord (suc n) c v h =
    bit_xor-lt 64 (pick (c % 2 == 1) v) (act n (c / 2) (xtime v)) (pick-IsWord (c % 2 == 1) v h)
      (act-IsWord n (c / 2) (xtime v) (xtime-IsWord v h))

xtime-zero : xtime 0 ≡ 0
unfolding xtime
xtime-zero = refl

pick-bit_xor : (b : Bool) (u v : ℕ) → pick b (bit_xor u v) ≡ bit_xor (pick b u) (pick b v)
pick-bit_xor true u v = refl
pick-bit_xor false u v = refl

-- The action is linear in the word.
pub act-bit_xor :
    (n c u v : ℕ) → IsWord u → IsWord v → act n c (bit_xor u v) ≡ bit_xor (act n c u) (act n c v)
unfolding act
act-bit_xor zero c u v hu hv = refl
act-bit_xor (suc n) c u v hu hv =
    ap₂ bit_xor (pick-bit_xor (c % 2 == 1) u v) (
      ap (act n (c / 2)) (xtime-bit_xor u v hu hv)
      ∙ act-bit_xor n (c / 2) (xtime u) (xtime v) (xtime-IsWord u hu) (xtime-IsWord v hv))
    ∙ bit_xor_interchange (pick (c % 2 == 1) u) (pick (c % 2 == 1) v) (act n (c / 2) (xtime u))
        (act n (c / 2) (xtime v))

pub act_word_zero : (n c : ℕ) → act n c 0 ≡ 0
unfolding act
act_word_zero zero c = refl
act_word_zero (suc n) c =
    ap₂ bit_xor {x = pick (c % 2 == 1) 0} {y = 0} (pick_zero (c % 2 == 1))
      (ap (act n (c / 2)) xtime-zero ∙ act_word_zero n (c / 2))
  where
    pick_zero : (b : Bool) → pick b 0 ≡ 0
    pick_zero true = refl
    pick_zero false = refl

-- And in the coefficient.
pick_parity :
    (c d v : ℕ)
    → pick (bit_xor c d % 2 == 1) v ≡ bit_xor (pick (c % 2 == 1) v) (pick (d % 2 == 1) v)
pick_parity c d v =
    ground
      (arith, bit_xor-parity c d, bit_xor_self v, bit_xor-zero v, zero-bit_xor v, zero-bit_xor 0)

pub act-coefficient : (n c d v : ℕ) → act n (bit_xor c d) v ≡ bit_xor (act n c v) (act n d v)
unfolding act
act-coefficient zero c d v = refl
act-coefficient (suc n) c d v =
    ap₂ bit_xor (pick_parity c d v)
      (ap (λ x. act n x (xtime v)) (bit_xor-half c d) ∙ act-coefficient n (c / 2) (d / 2) (xtime v))
    ∙ bit_xor_interchange (pick (c % 2 == 1) v) (pick (d % 2 == 1) v) (act n (c / 2) (xtime v))
        (act n (d / 2) (xtime v))

pub act_zero : (n v : ℕ) → act n 0 v ≡ 0
unfolding act
act_zero zero v = refl
act_zero (suc n) v = ap (bit_xor 0) (act_zero n (xtime v))

pub act_one : (n v : ℕ) → act (suc n) 1 v ≡ v
unfolding act
act_one n v = ap (bit_xor v) (act_zero n (xtime v)) ∙ bit_xor-zero v

-- Coefficients past the highest do not count.
pub act_more : (n c v : ℕ) → c < 2 ^ n → act (suc n) c v ≡ act n c v
unfolding act
act_more zero zero v h = refl
act_more zero (suc c) v h = absurd (omega arith)
act_more (suc n) c v h =
    ap (bit_xor (pick (c % 2 == 1) v)) (act_more n (c / 2) (xtime v) (omega (arith, pow-suc 2 n)))

act-xtime : (n c v : ℕ) → IsWord v → act n c (xtime v) ≡ xtime (act n c v)
unfolding act
act-xtime zero c v h = sym xtime-zero
act-xtime (suc n) c v h =
    ap₂ bit_xor (pick-xtime (c % 2 == 1) v) (act-xtime n (c / 2) (xtime v) (xtime-IsWord v h))
    ∙ sym (
        xtime-bit_xor (pick (c % 2 == 1) v) (act n (c / 2) (xtime v)) (pick-IsWord (c % 2 == 1) v h)
          (act-IsWord n (c / 2) (xtime v) (xtime-IsWord v h)))
  where
    pick-xtime : (b : Bool) (v : ℕ) → pick b (xtime v) ≡ xtime (pick b v)
    pick-xtime true v = refl
    pick-xtime false v = sym xtime-zero

-- The product of polynomials over the field of two elements: the `n` lowest terms of `c`, times `d`.
unfoldable pub clmul : ℕ → ℕ → ℕ → ℕ
clmul zero c d = 0
clmul (suc n) c d = bit_xor (pick (c % 2 == 1) d) (clmul n (c / 2) (d * 2))

double-even : (d v : ℕ) → pick (d * 2 % 2 == 1) v ≡ 0
double-even d v = ground arith

act-shifted : (f d v : ℕ) → act (suc f) (d * 2) v ≡ act f d (xtime v)
unfolding act
act-shifted f d v =
    ap₂ bit_xor {x = pick (d * 2 % 2 == 1) v} {y = 0} (double-even d v)
      (ap (λ x. act f x (xtime v)) {x = d * 2 / 2} {y = d} (omega arith))
    ∙ zero-bit_xor (act f d (xtime v))

act-double : (f d v : ℕ) → d < 2 ^ f → IsWord v → act (suc f) (d * 2) v ≡ xtime (act (suc f) d v)
act-double f d v h w = act-shifted f d v ∙ act-xtime f d v w ∙ ap xtime (sym (act_more f d v h))

act-pick : (f d v : ℕ) (b : Bool) → act f (pick b d) v ≡ pick b (act f d v)
act-pick f d v true = refl
act-pick f d v false = act_zero f v

fits_half : (d p q : ℕ) → 1 ≤ p → d * (p * 2) < q * 2 → d < q
fits_half d p q pos h = grind arith

pub no_terms : (c v : ℕ) → act 0 c v ≡ 0
unfolding act
no_terms c v = refl

pub act-suc :
    (n c v : ℕ) → act (suc n) c v ≡ bit_xor (pick (c % 2 == 1) v) (act n (c / 2) (xtime v))
unfolding act
act-suc n c v = refl

-- The product acts as one action after the other.
pub act-clmul :
    (f n c d v : ℕ)
    → d * 2 ^ n < 2 ^ suc f
    → IsWord v
    → act (suc f) (clmul n c d) v ≡ act n c (act (suc f) d v)
unfolding clmul
act-clmul f zero c d v h w = act_zero (suc f) v ∙ sym (no_terms c (act (suc f) d v))
act-clmul f (suc n) c d v h w =
    let small : d < 2 ^ f =
      fits_half d (2 ^ n) (2 ^ f) (one-le-pow n 2 (omega arith))
        (omega (arith, pow-suc 2 f, ap (λ (t : ℕ). d * t) (pow-suc 2 n))) in
    let next : d * 2 * 2 ^ n < 2 ^ suc f = omega (arith, ap (λ (t : ℕ). d * t) (pow-suc 2 n)) in
    let b : Bool = c % 2 == 1 in
    let step : act (suc f) (bit_xor (pick b d) (clmul n (c / 2) (d * 2))) v
        ≡ bit_xor (pick b (act (suc f) d v)) (act n (c / 2) (xtime (act (suc f) d v))) =
      act-coefficient (suc f) (pick b d) (clmul n (c / 2) (d * 2)) v
      ∙ ap₂ bit_xor (act-pick (suc f) d v b) (
          act-clmul f n (c / 2) (d * 2) v next w ∙ ap (act n (c / 2)) (act-double f d v small w)) in
    step ∙ sym (act-suc n c (act (suc f) d v))
