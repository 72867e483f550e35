-- ===== src/Core/Crypto/Counter.antt =====
-- core/src/crypto.rs: the whole permutation, and the keystream of one counter.
use why.Common.{
  ℕ, ◌-◌, ◌^◌, ◌≤◌, ◌<◌, ◌≡◌, sym, ap, ◌∙◌, arith, Bool, true, List, [], ◌∷◌, length, drop, All,
  length-take, length-drop, All-take, All-drop,
}
use why.Core.Outcome.{Outcome, ok, ◌>>=◌, ok-injective}
use why.Core.Grid.{Grid, IsGrid, valid_dimensions}
use why.Core.Grid.Build.{area_pos}
use why.Core.Grid.Xor.{xor_grids, xor_grids_lem, xor_grids_cancel}
use why.Core.Grid.Increment.{increment, increment-IsGrid, increment-injective}
use why.Core.Crypto.{inner_keys, last_or, permute, keystream}
use why.Core.Crypto.Keystream.{IsSchedule, rounds_lem, rounds-injective}

length-inner_keys : (keys : List Grid) → length (inner_keys keys) ≡ length keys - 2
unfolding inner_keys
length-inner_keys keys =
    omega (arith, length-take (length keys - 2) (drop 1 keys), length-drop 1 keys)

inner_keys-All :
    (w h : ℕ) (keys : List Grid) → All (IsGrid w h) keys → All (IsGrid w h) (inner_keys keys)
unfolding inner_keys
inner_keys-All w h keys v =
    All-take (IsGrid w h) (length keys - 2) (drop 1 keys) (All-drop (IsGrid w h) 1 keys v)

last_or-IsGrid :
    (w h : ℕ) (first : Grid) (keys : List Grid)
    → IsGrid w h first
    → All (IsGrid w h) keys
    → IsGrid w h (last_or first keys)
unfolding last_or
last_or-IsGrid w h first [] vf vs = vf
last_or-IsGrid w h first (k ∷ ks) vf vs = last_or-IsGrid w h k ks vs.0 vs.1

module _ (avx2 : Bool) (w h : ℕ) (valid : valid_dimensions w h ≡ true) where
  permute_lem :
      (keys : List Grid) (shifts : List (List ℕ)) (block : Grid)
      → IsSchedule w h keys shifts
      → IsGrid w h block
      → (out : Grid) × (permute avx2 w h keys shifts block ≡ ok out) × IsGrid w h out
  unfolding permute
  permute_lem [] shifts block s vb = absurd (omega (arith, s.whitened))
  permute_lem (k ∷ []) shifts block s vb = absurd (omega (arith, s.whitened))
  permute_lem (k ∷ l ∷ ks) shifts block s vb =
      let inner = inner_keys (k ∷ l ∷ ks) in
      let white = (xor_grids_lem w h block k vb s.grids.0).0 in
      let (mixed, ran, vm) =
        rounds_lem avx2 w h valid 0 inner shifts (xor_grids w h block k)
          (omega (arith, length-inner_keys (k ∷ l ∷ ks), s.enough))
          (inner_keys-All w h (k ∷ l ∷ ks) s.grids) s.in_range white in
      (
        xor_grids w h mixed (last_or k (l ∷ ks)),
        ap (λ o. o >>= λ mixed. ok (xor_grids w h mixed (last_or k (l ∷ ks)))) ran,
        (xor_grids_lem w h mixed (last_or k (l ∷ ks)) vm
            (last_or-IsGrid w h k (l ∷ ks) s.grids.0 s.grids.1)).0,
      )

  -- For valid dimensions and one full schedule, the permutation never sends two different blocks
  -- of the dimensions to the same result.
  pub permute-injective :
      (keys : List Grid) (shifts : List (List ℕ)) (a b : Grid)
      → IsSchedule w h keys shifts
      → IsGrid w h a
      → IsGrid w h b
      → permute avx2 w h keys shifts a ≡ permute avx2 w h keys shifts b
      → a ≡ b
  unfolding permute
  permute-injective [] shifts a b s va vb e = absurd (omega (arith, s.whitened))
  permute-injective (k ∷ []) shifts a b s va vb e = absurd (omega (arith, s.whitened))
  permute-injective (k ∷ l ∷ ks) shifts a b s va vb e =
      let inner = inner_keys (k ∷ l ∷ ks) in
      let last = last_or k (l ∷ ks) in
      let xa = xor_grids w h a k in
      let xb = xor_grids w h b k in
      let la = (xor_grids_lem w h a k va s.grids.0).0 in
      let lb = (xor_grids_lem w h b k vb s.grids.0).0 in
      let enough : length inner ≤ length shifts =
        omega (arith, length-inner_keys (k ∷ l ∷ ks), s.enough) in
      let grids = inner_keys-All w h (k ∷ l ∷ ks) s.grids in
      let vl = last_or-IsGrid w h k (l ∷ ks) s.grids.0 s.grids.1 in
      let (ma, ra, sa) = rounds_lem avx2 w h valid 0 inner shifts xa enough grids s.in_range la in
      let (mb, rb, sb) = rounds_lem avx2 w h valid 0 inner shifts xb enough grids s.in_range lb in
      let white = λ (o : Outcome Grid). o >>= λ mixed. ok (xor_grids w h mixed last) in
      let outs : xor_grids w h ma last ≡ xor_grids w h mb last =
        ok-injective (sym (ap white ra) ∙ e ∙ ap white rb) in
      let mixed : ma ≡ mb =
        sym (xor_grids_cancel w h ma last sa vl)
        ∙ ap (λ g. xor_grids w h g last) outs
        ∙ xor_grids_cancel w h mb last sb vl in
      let cells : xa ≡ xb =
        rounds-injective avx2 w h valid 0 inner shifts xa xb enough grids s.in_range la lb
          (ra ∙ ap ok mixed ∙ sym rb) in
      sym (xor_grids_cancel w h a k va s.grids.0)
      ∙ ap (λ g. xor_grids w h g k) cells
      ∙ xor_grids_cancel w h b k vb s.grids.0

  -- With a full schedule the keystream of any counter is a grid: nothing panics.
  pub keystream_lem :
      (nonce : Grid) (keys : List Grid) (shifts : List (List ℕ)) (counter : ℕ)
      → IsSchedule w h keys shifts
      → IsGrid w h nonce
      → (out : Grid) × (keystream avx2 w h nonce keys shifts counter ≡ ok out) × IsGrid w h out
  unfolding keystream
  keystream_lem nonce keys shifts counter s vn =
      permute_lem keys shifts (increment w h nonce counter) s
        (increment-IsGrid w h nonce vn counter)

  -- Under one nonce of valid dimensions and one full schedule (at least two keys of these
  -- dimensions, and a shift in range for every row of every round between them), two different
  -- counters below 2 ^ 64 never give the same keystream block.
  pub keystream-injective :
      (nonce : Grid) (keys : List Grid) (shifts : List (List ℕ)) (a b : ℕ)
      → IsSchedule w h keys shifts
      → IsGrid w h nonce
      → a < 2 ^ 64
      → b < 2 ^ 64
      → keystream avx2 w h nonce keys shifts a ≡ keystream avx2 w h nonce keys shifts b
      → a ≡ b
  unfolding keystream
  keystream-injective nonce keys shifts a b s vn pa pb e =
      increment-injective w h nonce vn a b (area_pos w h valid) pa pb (
        permute-injective keys shifts (increment w h nonce a) (increment w h nonce b) s
          (increment-IsGrid w h nonce vn a) (increment-IsGrid w h nonce vn b) e)
