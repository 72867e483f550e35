-- ===== src/Core/Grid/Subcell/Bodies.antt =====
-- core/src/grid.rs: the vector bodies of `subcell` do to each cell what the scalar body does.
use why.Common.{
  ℕ, zero, suc, ◌^◌, ◌<◌, ◌≡◌, refl, sym, ap, ap₂, ◌∙◌, arith, Bool, true, false, List, [], ◌∷◌,
  map, length, length-map, All, bit_xor, bit_or, IsWord, wrapping_add, ◌<<<◌, ◌>>>◌, sar,
  bit_and_mask,
}
use why.Core.Grid.{Grid, IsGrid, to_flat, with_cells}
use why.Core.Grid.Cells.{length-to_flat, to_flat-words, with_cells_lem, to_flat-injective}
use why.Core.Grid.Lanes.{over_lanes, over_lanes_congr}
use why.Core.Grid.Subcell.{
  Halves, subcell_rounds, delta_32, mask, mix, arx_round, arx_rounds, subcell_body, subcell_cell,
  subcell_portable, subcell_avx2, subcell,
}
use why.Core.Grid.Subcell.Inverse.{subcell_cell-IsWord, undo_cell, undo_cell-subcell_cell}

sar-shr : (v k : ℕ) → v < 2 ^ 63 → sar v k ≡ v >>> k
sar-shr v k h = ground arith

sar_high : (v : ℕ) → IsWord v → mask (sar v 32) ≡ mask (v >>> 32)
sar_high v h = bit_and_mask 32 (sar v 32) ∙ ground arith ∙ sym (bit_and_mask 32 (v >>> 32))

mask-small : (v : ℕ) → mask v < 2 ^ 63
mask-small v = rw (bit_and_mask 32 v) (omega arith)

abbrev IsSmall : Halves → Type 0
IsSmall v = (v.v0 < 2 ^ 63) × (v.v1 < 2 ^ 63)

mix-sar : (v sum : ℕ) → v < 2 ^ 63 → mix sar v sum ≡ mix ◌>>>◌ v sum
unfolding mix
mix-sar v sum h = ap (λ s. bit_xor (wrapping_add (bit_xor (v <<< 4) s) v) sum) (sar-shr v 5 h)

arx_round-sar : (sum : ℕ) (v : Halves) → IsSmall v → arx_round sar sum v ≡ arx_round ◌>>>◌ sum v
unfolding arx_round
arx_round-sar sum v h =
    let v0' = mask (wrapping_add v.v0 (mix ◌>>>◌ v.v1 sum)) in
    let first : mask (wrapping_add v.v0 (mix sar v.v1 sum)) ≡ v0' =
      ap (λ m. mask (wrapping_add v.v0 m)) (mix-sar v.v1 sum h.1) in
    ap₂ (λ a b. record { v0 = a; v1 = b }) first
      (ap (λ x. mask (wrapping_add v.v1 (mix sar x sum))) first
        ∙ ap (λ m. mask (wrapping_add v.v1 m))
            (mix-sar v0' sum (mask-small (wrapping_add v.v0 (mix ◌>>>◌ v.v1 sum)))))

arx_rounds-sar :
    (n sum : ℕ) (v : Halves) → IsSmall v → arx_rounds sar n sum v ≡ arx_rounds ◌>>>◌ n sum v
unfolding arx_rounds
arx_rounds-sar zero sum v h = refl
arx_rounds-sar (suc n) sum v h =
    let sum' = wrapping_add sum delta_32 in
    ap (arx_rounds sar n sum') (arx_round-sar sum' v h)
    ∙ arx_rounds-sar n sum' (arx_round ◌>>>◌ sum' v)
        (unfold arx_round in (mask-small _, mask-small _))

-- The arithmetic shift of the portable vectors makes no difference.
subcell_body-sar :
    (cell round : ℕ) → IsWord cell → subcell_body sar cell round ≡ subcell_cell cell round
unfolding subcell_cell subcell_body
subcell_body-sar cell round h =
    ap
      (λ x.
        let v =
          arx_rounds sar subcell_rounds 0
            (record { v0 = mask (bit_xor (mask cell) round); v1 = x }) in
        bit_or (mask (bit_xor v.v1 round) <<< 32) v.v0)
      (sar_high cell h)
    ∙ ap (λ v. bit_or (mask (bit_xor v.v1 round) <<< 32) v.v0)
        (arx_rounds-sar subcell_rounds 0
          (record { v0 = mask (bit_xor (mask cell) round); v1 = mask (cell >>> 32) })
          (mask-small (bit_xor (mask cell) round), mask-small (cell >>> 32)))

All-map : (f : ℕ → ℕ) (P : ℕ → Type 0) (xs : List ℕ) → ((x : ℕ) → P (f x)) → All P (map f xs)
All-map f P [] h = tt
All-map f P (x ∷ xs) h = (h x, All-map f P xs h)

map-injective :
    (f : ℕ → ℕ) (g : ℕ → ℕ) (xs ys : List ℕ)
    → ((x : ℕ) → IsWord x → g (f x) ≡ x)
    → All IsWord xs
    → All IsWord ys
    → map f xs ≡ map f ys
    → xs ≡ ys
map-injective f g xs ys undo hx hy e = sym (back xs hx) ∙ ap (map g) e ∙ back ys hy
  where
    back : (zs : List ℕ) → All IsWord zs → map g (map f zs) ≡ zs
    back [] h = refl
    back (z ∷ zs) h = ap₂ ◌∷◌ (undo z h.0) (back zs h.1)

module _ (avx2 : Bool) (w h : ℕ) (g : Grid) (round : ℕ) (shaped : IsGrid w h g) where
  -- On either processor `subcell` keeps the shape of a grid and applies the scalar body to every
  -- cell.
  pub subcell_lem :
      IsGrid w h (subcell avx2 w h g round)
      × (to_flat (subcell avx2 w h g round) ≡ map (λ cell. subcell_cell cell round) (to_flat g))
  subcell_lem = on_processor avx2
    where
      lanes :
          (lane : ℕ → ℕ)
          → ((x : ℕ) → IsWord x → lane x ≡ subcell_cell x round)
          → let g' = with_cells w h (over_lanes (map lane) (λ cell. subcell_cell cell round)) g in
            IsGrid w h g' × (to_flat g' ≡ map (λ cell. subcell_cell cell round) (to_flat g))
      lanes lane same =
          let scalar : ℕ → ℕ = λ cell. subcell_cell cell round in
          let cells =
            over_lanes_congr lane scalar IsWord (to_flat g) same (to_flat-words w h g shaped) in
          let both =
            with_cells_lem w h g shaped (over_lanes (map lane) scalar)
              (ap length cells ∙ length-map scalar (to_flat g) ∙ length-to_flat w h g shaped)
              (rw cells (All-map scalar IsWord (to_flat g) (λ x. subcell_cell-IsWord x round))) in
          (both.0, both.1 ∙ cells)

      on_processor :
          (b : Bool)
          → IsGrid w h (subcell b w h g round)
            × (to_flat (subcell b w h g round) ≡ map (λ cell. subcell_cell cell round) (to_flat g))
      on_processor true =
          unfold subcell subcell_avx2 subcell_cell in
          lanes (λ c. subcell_body ◌>>>◌ c round) (λ x p. refl)
      on_processor false =
          unfold subcell subcell_portable in
          lanes (λ c. subcell_body sar c round) (λ x p. subcell_body-sar x round p)

-- Grids that differ differ after `subcell`, whatever the round and the processor.
pub subcell-injective :
    (avx2 : Bool) (w h : ℕ) (a b : Grid) (round : ℕ)
    → IsGrid w h a
    → IsGrid w h b
    → subcell avx2 w h a round ≡ subcell avx2 w h b round
    → a ≡ b
subcell-injective avx2 w h a b round va vb e = to_flat-injective w h a b va vb (
    map-injective (λ cell. subcell_cell cell round) (λ cell. undo_cell cell round) (to_flat a)
      (to_flat b) (λ x p. undo_cell-subcell_cell x round p) (to_flat-words w h a va)
      (to_flat-words w h b vb)
      (sym (subcell_lem avx2 w h a round va).1
        ∙ ap to_flat e
        ∙ (subcell_lem avx2 w h b round vb).1))

-- The two vector bodies give the same grid.
pub subcell_bodies :
    (w h : ℕ) (g : Grid) (round : ℕ)
    → IsGrid w h g
    → subcell_avx2 w h g round ≡ subcell_portable w h g round
subcell_bodies w h g round shaped =
    let one = subcell_lem true w h g round shaped in
    let two = subcell_lem false w h g round shaped in
    unfold subcell in
    to_flat-injective w h (subcell true w h g round) (subcell false w h g round) one.0 two.0
      (one.1 ∙ sym two.1)
