-- ===== src/Core/Grid/Subcell/Inverse.antt =====
-- core/src/grid.rs: the substitution of a cell can be undone.
use why.Common.{
  ℕ, zero, suc, ◌+◌, ◌-◌, ◌*◌, ◌/◌, ◌%◌, ◌^◌, ◌<◌, ◌≡◌, refl, ap, ap₂, ◌∙◌, arith, bit_xor, bit_or,
  IsWord, wrapping_add, ◌<<<◌, ◌>>>◌, bit_and_mask, bit_or-join, bit_xor-split, bit_xor_cancel,
}
use why.Core.Grid.Subcell.{
  Halves, subcell_rounds, delta_32, mask, mix, arx_round, arx_rounds, subcell_body, subcell_cell,
}

abbrev Is32 : ℕ → Type 0
Is32 v = v < 2 ^ 32

mask-mod : (v : ℕ) → mask v ≡ v % 2 ^ 32
mask-mod v = bit_and_mask 32 v

-- Takes `m` off a half, modulo 2 ^ 32.
take_off : ℕ → ℕ → ℕ
take_off v m = (v + 2 ^ 32 - m % 2 ^ 32) % 2 ^ 32

take_off-add : (v m : ℕ) → Is32 v → take_off (mask (wrapping_add v m)) m ≡ v
unfolding take_off
take_off-add v m h = rw (mask-mod (wrapping_add v m)) (omega arith)

add-take_off : (v m : ℕ) → Is32 v → mask (wrapping_add (take_off v m) m) ≡ v
unfolding take_off
add-take_off v m h = mask-mod (wrapping_add ((v + 2 ^ 32 - m % 2 ^ 32) % 2 ^ 32) m) ∙ omega arith

-- The rounds run backwards.
undo_round : ℕ → Halves → Halves
undo_round sum v =
    let v1' = take_off v.v1 (mix ◌>>>◌ v.v0 sum) in
    record { v0 = take_off v.v0 (mix ◌>>>◌ v1' sum); v1 = v1' }

undo_rounds : ℕ → ℕ → Halves → Halves
undo_rounds zero sum v = v
undo_rounds (suc n) sum v =
    let sum' = wrapping_add sum delta_32 in undo_round sum' (undo_rounds n sum' v)

abbrev IsHalves : Halves → Type 0
IsHalves v = Is32 v.v0 × Is32 v.v1

mask-Is32 : (v : ℕ) → Is32 (mask v)
mask-Is32 v = rw (mask-mod v) (omega arith)

arx_round-IsHalves : (sum : ℕ) (v : Halves) → IsHalves (arx_round ◌>>>◌ sum v)
unfolding arx_round
arx_round-IsHalves sum v = (mask-Is32 _, mask-Is32 _)

undo_round-IsHalves : (sum : ℕ) (v : Halves) → IsHalves (undo_round sum v)
unfolding undo_round take_off
undo_round-IsHalves sum v = (omega arith, omega arith)

undo_round-arx_round :
    (sum : ℕ) (v : Halves) → IsHalves v → undo_round sum (arx_round ◌>>>◌ sum v) ≡ v
unfolding undo_round arx_round
undo_round-arx_round sum v h =
    let v0' = mask (wrapping_add v.v0 (mix ◌>>>◌ v.v1 sum)) in
    let second : take_off (mask (wrapping_add v.v1 (mix ◌>>>◌ v0' sum))) (mix ◌>>>◌ v0' sum)
        ≡ v.v1 =
      take_off-add v.v1 (mix ◌>>>◌ v0' sum) h.1 in
    let first : take_off v0' (mix ◌>>>◌ v.v1 sum) ≡ v.v0 =
      take_off-add v.v0 (mix ◌>>>◌ v.v1 sum) h.0 in
    ap₂ (λ a b. record { v0 = a; v1 = b }) (ap (λ x. take_off v0' (mix ◌>>>◌ x sum)) second ∙ first)
      second

arx_round-undo_round :
    (sum : ℕ) (v : Halves) → IsHalves v → arx_round ◌>>>◌ sum (undo_round sum v) ≡ v
unfolding undo_round arx_round
arx_round-undo_round sum v h =
    let v1' = take_off v.v1 (mix ◌>>>◌ v.v0 sum) in
    let first = add-take_off v.v0 (mix ◌>>>◌ v1' sum) h.0 in
    ap₂ (λ a b. record { v0 = a; v1 = b }) first
      (ap (λ x. mask (wrapping_add v1' (mix ◌>>>◌ x sum))) first
        ∙ add-take_off v.v1 (mix ◌>>>◌ v.v0 sum) h.1)

arx_rounds-IsHalves : (n sum : ℕ) (v : Halves) → IsHalves v → IsHalves (arx_rounds ◌>>>◌ n sum v)
unfolding arx_rounds
arx_rounds-IsHalves zero sum v h = h
arx_rounds-IsHalves (suc n) sum v h =
    arx_rounds-IsHalves n (wrapping_add sum delta_32)
      (arx_round ◌>>>◌ (wrapping_add sum delta_32) v)
      (arx_round-IsHalves (wrapping_add sum delta_32) v)

undo_rounds-IsHalves : (n sum : ℕ) (v : Halves) → IsHalves v → IsHalves (undo_rounds n sum v)
unfolding undo_rounds
undo_rounds-IsHalves zero sum v h = h
undo_rounds-IsHalves (suc n) sum v h = undo_round-IsHalves (wrapping_add sum delta_32) _

undo_rounds-arx_rounds :
    (n sum : ℕ) (v : Halves) → IsHalves v → undo_rounds n sum (arx_rounds ◌>>>◌ n sum v) ≡ v
unfolding undo_rounds arx_rounds
undo_rounds-arx_rounds zero sum v h = refl
undo_rounds-arx_rounds (suc n) sum v h =
    let sum' = wrapping_add sum delta_32 in
    ap (undo_round sum')
      (undo_rounds-arx_rounds n sum' (arx_round ◌>>>◌ sum' v) (arx_round-IsHalves sum' v))
    ∙ undo_round-arx_round sum' v h

arx_rounds-undo_rounds :
    (n sum : ℕ) (v : Halves) → IsHalves v → arx_rounds ◌>>>◌ n sum (undo_rounds n sum v) ≡ v
unfolding undo_rounds arx_rounds
arx_rounds-undo_rounds zero sum v h = refl
arx_rounds-undo_rounds (suc n) sum v h =
    let sum' = wrapping_add sum delta_32 in
    ap (arx_rounds ◌>>>◌ n sum')
      (arx_round-undo_round sum' (undo_rounds n sum' v) (undo_rounds-IsHalves n sum' v h))
    ∙ arx_rounds-undo_rounds n sum' v h

-- The tweak is undone by itself.
tweak : (v round : ℕ) → Is32 v → mask (bit_xor (mask (bit_xor v round)) round) ≡ v
tweak v round h =
    mask-mod (bit_xor (mask (bit_xor v round)) round)
    ∙ (bit_xor-split 32 (mask (bit_xor v round)) round).1
    ∙ ap (λ x. bit_xor x (round % 2 ^ 32))
        (ap (λ x. x % 2 ^ 32) (mask-mod (bit_xor v round))
          ∙ mod_mod (bit_xor v round)
          ∙ (bit_xor-split 32 v round).1)
    ∙ bit_xor_cancel (v % 2 ^ 32) (round % 2 ^ 32)
    ∙ omega arith
  where
    mod_mod : (x : ℕ) → x % 2 ^ 32 % 2 ^ 32 ≡ x % 2 ^ 32
    mod_mod x = omega arith

-- The inverse of `subcell_cell` at one round.
pub undo_cell : ℕ → ℕ → ℕ
undo_cell cell round =
    let v =
      undo_rounds subcell_rounds 0
        (record { v0 = mask cell; v1 = mask (bit_xor (mask (cell >>> 32)) round) }) in
    bit_or (v.v1 <<< 32) (mask (bit_xor v.v0 round))

joined : (a b : ℕ) → Is32 a → Is32 b → bit_or (a <<< 32) b ≡ a * 2 ^ 32 + b
joined a b ha hb =
    ap (λ x. bit_or x b) {x = a <<< 32} {y = a * 2 ^ 32} (omega arith) ∙ bit_or-join 32 a b hb

halves-joined :
    (a b : ℕ)
    → Is32 a
    → Is32 b
    → (mask (bit_or (a <<< 32) b) ≡ b) × (mask (bit_or (a <<< 32) b >>> 32) ≡ a)
halves-joined a b ha hb = (
  mask-mod (bit_or (a <<< 32) b) ∙ ap (λ x. x % 2 ^ 32) (joined a b ha hb) ∙ omega arith,
  mask-mod (bit_or (a <<< 32) b >>> 32)
      ∙ ap (λ x. x / 2 ^ 32 % 2 ^ 32) (joined a b ha hb)
      ∙ omega arith,
)

joined-halves : (c : ℕ) → IsWord c → bit_or (mask (c >>> 32) <<< 32) (mask c) ≡ c
joined-halves c h =
    joined (mask (c >>> 32)) (mask c) (mask-Is32 (c >>> 32)) (mask-Is32 c)
    ∙ ap₂ (λ a b. a * 2 ^ 32 + b) (mask-mod (c >>> 32)) (mask-mod c)
    ∙ omega arith

pub subcell_cell-IsWord : (c round : ℕ) → IsWord (subcell_cell c round)
unfolding subcell_cell subcell_body
subcell_cell-IsWord c round =
    let start : Halves = record { v0 = mask (bit_xor (mask c) round); v1 = mask (c >>> 32) } in
    let v = arx_rounds ◌>>>◌ subcell_rounds 0 start in
    let low : Is32 v.v0 =
      (arx_rounds-IsHalves subcell_rounds 0 start
        (mask-Is32 (bit_xor (mask c) round), mask-Is32 (c >>> 32))).0 in
    let high : Is32 (mask (bit_xor v.v1 round)) = mask-Is32 (bit_xor v.v1 round) in
    rw (joined (mask (bit_xor v.v1 round)) v.v0 high low) (omega arith)

-- The substitution of a 64-bit cell is undone by running its rounds backwards.
pub undo_cell-subcell_cell : (c round : ℕ) → IsWord c → undo_cell (subcell_cell c round) round ≡ c
unfolding undo_cell subcell_cell subcell_body
undo_cell-subcell_cell c round h =
    let start : Halves = record { v0 = mask (bit_xor (mask c) round); v1 = mask (c >>> 32) } in
    let good : IsHalves start = (mask-Is32 (bit_xor (mask c) round), mask-Is32 (c >>> 32)) in
    let v = arx_rounds ◌>>>◌ subcell_rounds 0 start in
    let kept : IsHalves v = arx_rounds-IsHalves subcell_rounds 0 start good in
    let parts =
      halves-joined (mask (bit_xor v.v1 round)) v.v0 (mask-Is32 (bit_xor v.v1 round)) kept.0 in
    let again : ◌≡◌ {A = Halves}
        (record {
          v0 = mask (bit_or (mask (bit_xor v.v1 round) <<< 32) v.v0);
          v1 = mask (bit_xor (mask (bit_or (mask (bit_xor v.v1 round) <<< 32) v.v0 >>> 32)) round);
        })
        v =
      ap₂ (λ a b. record { v0 = a; v1 = b }) parts.0
        (ap (λ x. mask (bit_xor x round)) parts.1 ∙ tweak v.v1 round kept.1) in
    ap
      (λ u.
        let s = undo_rounds subcell_rounds 0 u in bit_or (s.v1 <<< 32) (mask (bit_xor s.v0 round)))
      again
    ∙ ap (λ s. bit_or (s.v1 <<< 32) (mask (bit_xor s.v0 round)))
        (undo_rounds-arx_rounds subcell_rounds 0 start good)
    ∙ ap (λ x. bit_or (mask (c >>> 32) <<< 32) x) (tweak (mask c) round (mask-Is32 c))
    ∙ joined-halves c h

-- Every 64-bit word is the substitution of a word: of the one that its rounds run backwards give.
pub subcell_cell-undo_cell : (c round : ℕ) → IsWord c → subcell_cell (undo_cell c round) round ≡ c
unfolding undo_cell subcell_cell subcell_body
subcell_cell-undo_cell c round h =
    let start : Halves = record { v0 = mask c; v1 = mask (bit_xor (mask (c >>> 32)) round) } in
    let good : IsHalves start = (mask-Is32 c, mask-Is32 (bit_xor (mask (c >>> 32)) round)) in
    let v = undo_rounds subcell_rounds 0 start in
    let kept : IsHalves v = undo_rounds-IsHalves subcell_rounds 0 start good in
    let parts =
      halves-joined v.v1 (mask (bit_xor v.v0 round)) kept.1 (mask-Is32 (bit_xor v.v0 round)) in
    let word = bit_or (v.v1 <<< 32) (mask (bit_xor v.v0 round)) in
    let again : ◌≡◌ {A = Halves}
        (record { v0 = mask (bit_xor (mask word) round); v1 = mask (word >>> 32) }) v =
      ap₂ (λ a b. record { v0 = a; v1 = b })
        (ap (λ x. mask (bit_xor x round)) parts.0 ∙ tweak v.v0 round kept.0) parts.1 in
    ap
      (λ u.
        let s = arx_rounds ◌>>>◌ subcell_rounds 0 u in
        bit_or (mask (bit_xor s.v1 round) <<< 32) s.v0)
      again
    ∙ ap (λ s. bit_or (mask (bit_xor s.v1 round) <<< 32) s.v0)
        (arx_rounds-undo_rounds subcell_rounds 0 start good)
    ∙ ap (λ x. bit_or (x <<< 32) (mask c)) (tweak (mask (c >>> 32)) round (mask-Is32 (c >>> 32)))
    ∙ joined-halves c h
