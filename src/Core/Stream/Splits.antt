-- ===== src/Core/Stream/Splits.antt =====
-- core/src/stream.rs: a sequence of calls, however the data is split over them.
use why.Common.{
  ℕ, zero, suc, ◌+◌, ◌-◌, ◌*◌, ◌%◌, ◌^◌, ◌<◌, ◌≡◌, ◌⊎◌, inl, inr, sym, ap, ap₂, ◌∙◌, arith, Bool,
  true, false, List, [], ◌∷◌, ◌++◌, length, take, replicate, concat, All, IsWord, ◌==◌,
  length-append, All-append, append-nil, append_assoc, take-append,
}
use why.Core.Outcome.{Outcome, ok, ◌>>=◌}
use why.Core.Grid.{Grid, IsGrid, valid_dimensions}
use why.Core.Grid.Build.{area_pos}
use why.Core.Crypto.Keystream.{IsSchedule}
use why.Core.Stream.{RexStream, update, finalize}
use why.Core.Stream.Positions.{mask_cells, mask_at, mask_cells-append, length-mask_cells, key_at}
use why.Core.Stream.Steps.{nil-of-length, state_at, counter_at, flush_lem}
use why.Core.Stream.Updates.{at, masked, masked-append, fill_lem, full_lem}

-- `update` on each part in turn, with the outputs joined.
run : Bool → ℕ → ℕ → List (List ℕ) → RexStream → Outcome (RexStream × List ℕ)
run avx2 w h [] s = ok (s, [])
run avx2 w h (part ∷ parts) s =
    update avx2 w h s part >>= λ a. run avx2 w h parts a.0 >>= λ b. ok (b.0, a.1 ++ b.1)

-- A whole stream: the parts, then `finalize`.
pub process : Bool → ℕ → ℕ → List (List ℕ) → RexStream → Outcome (RexStream × List ℕ)
process avx2 w h parts s =
    run avx2 w h parts s >>= λ a. finalize avx2 w h a.0 >>= λ b. ok (b.0, a.1 ++ b.1)

-- Two splits, one after the other, where one of the middle parts is empty.
join_splits :
    (n : ℕ) (d r l d' r' : List ℕ)
    → l ≡ d' ++ r'
    → length r < n
    → length r' < n
    → (r ≡ []) ⊎ (l ≡ [])
    → (d ++ (r ++ l) ≡ (d ++ d') ++ (r ++ r')) × (length (r ++ r') < n)
join_splits n d r l d' r' e p q (inl dry) = (
  ap₂ (λ a b. d ++ (a ++ b)) dry e
      ∙ sym (append_assoc d d' r')
      ∙ ap (λ a. (d ++ d') ++ (a ++ r')) (sym dry),
  omega (arith, length-append r r', ap length dry),
)
join_splits n d r l d' r' e p q (inr dry) =
    let total : length d' + length r' ≡ 0 =
      omega (arith, length-append d' r', ap length e, ap length dry) in
    let no_d : d' ≡ [] = nil-of-length d' (omega arith) in
    let no_r : r' ≡ [] = nil-of-length r' (omega arith) in
    (
      ap (λ a. d ++ (r ++ a)) dry
          ∙ ap (λ a. a ++ (r ++ [])) (sym (append-nil d))
          ∙ ap₂ (λ a b. (d ++ a) ++ (r ++ b)) (sym no_d) (sym no_r),
      omega (arith, length-append r r'),
    )

-- A grid that is begun is one more grid.
unfoldable pub partial : ℕ → ℕ
partial zero = 0
partial (suc n) = 1

module _ (avx2 : Bool) (w h : ℕ) (valid : valid_dimensions w h ≡ true) (nonce : Grid)
    (keys : List Grid) (shifts : List (List ℕ)) (s : IsSchedule w h keys shifts)
    (vn : IsGrid w h nonce) where
  abbrev pub here : ℕ → List ℕ → RexStream
  here number buffer = at avx2 w h valid nonce keys shifts s vn number buffer

  abbrev pub cells : ℕ → List ℕ → List ℕ
  cells number xs = masked avx2 w h valid nonce keys shifts s vn number xs

  -- A result of calls that took the cells `xs`: `k` more grids are done, and the rest is in the buffer.
  pub record Advanced (number : ℕ) (xs : List ℕ) (result : Outcome (RexStream × List ℕ))
      : Type 0 where
    pub k : ℕ
    pub done : List ℕ
    pub rest : List ℕ
    pub returns : result ≡ ok (here (number + k) rest, cells number done)
    pub splits : xs ≡ done ++ rest
    pub whole : length done ≡ k * (w * h)
    pub short : length rest < w * h
    pub words : All IsWord rest

  pub update_lem :
      (number : ℕ) (buffer input : List ℕ)
      → All IsWord buffer
      → All IsWord input
      → length buffer < w * h
      → Advanced number (buffer ++ input) (update avx2 w h (here number buffer) input)
  unfolding update state_at
  update_lem number buffer input vb vi p =
      let (k, d, r, l, one, split, size, small, vr, vl, dry) =
        fill_lem avx2 w h valid nonce keys shifts s vn number buffer input vb vi p in
      let (k', d', r', two, split', size', small', vr') =
        full_lem avx2 w h valid nonce keys shifts s vn (number + k) r l vl in
      let joined = join_splits (w * h) d r l d' r' split' small small' dry in
      record {
        k = k + k';
        done = d ++ d';
        rest = r ++ r';
        returns =
            rw (one, two)
              (ap₂ (λ st o. ok (st, o))
                (counter_at avx2 w h valid nonce keys shifts s vn ((number + k + k') % 2 ^ 64)
                  (number + (k + k')) (r ++ r') (omega arith))
                (sym (masked-append avx2 w h valid nonce keys shifts s vn number k d d' size)));
        splits = split ∙ joined.0;
        whole = length-append d d' ∙ ap₂ ◌+◌ size size' ∙ (grind arith);
        short = joined.1;
        words = All-append IsWord r r' vr vr';
      }

  run_lem :
      (number : ℕ) (parts : List (List ℕ)) (buffer : List ℕ)
      → All (All IsWord) parts
      → All IsWord buffer
      → length buffer < w * h
      → Advanced number (buffer ++ concat parts) (run avx2 w h parts (here number buffer))
  unfolding run mask_cells
  run_lem number [] buffer vp vb p = record {
    k = 0;
    done = [];
    rest = buffer;
    returns = ap (λ (n : ℕ). ok (here n buffer, [])) {x = number} {y = number + 0} (omega arith);
    splits = append-nil buffer;
    whole = omega arith;
    short = p;
    words = vb;
  }
  run_lem number (part ∷ parts) buffer vp vb p =
      let a = update_lem number buffer part vb vp.0 p in
      let b = run_lem (number + a.k) parts a.rest vp.1 a.words a.short in
      record {
        k = a.k + b.k;
        done = a.done ++ b.done;
        rest = b.rest;
        returns =
            rw (a.returns, b.returns)
              (ap₂ (λ st o. ok (st, o))
                (ap (λ (n : ℕ). here n b.rest) {x = number + a.k + b.k} {y = number + (a.k + b.k)}
                  (omega arith))
                (sym (
                  masked-append avx2 w h valid nonce keys shifts s vn number a.k a.done b.done
                    a.whole)));
        splits =
            sym (append_assoc buffer part (concat parts))
            ∙ ap (λ l. l ++ concat parts) a.splits
            ∙ append_assoc a.done a.rest (concat parts)
            ∙ ap (λ l. a.done ++ l) b.splits
            ∙ sym (append_assoc a.done b.done b.rest);
        whole = length-append a.done b.done ∙ ap₂ ◌+◌ a.whole b.whole ∙ (grind arith);
        short = b.short;
        words = b.words;
      }

  pub finalize_lem :
      (number : ℕ) (buffer : List ℕ)
      → All IsWord buffer
      → length buffer < w * h
      → finalize avx2 w h (here number buffer)
        ≡ ok (here (number + partial (length buffer)) [], cells number buffer)
  unfolding finalize state_at mask_cells partial
  finalize_lem number [] vb p =
      ap (λ (k : ℕ). ok (here k [], [])) {x = number} {y = number + 0} (omega arith)
  finalize_lem number (x ∷ xs) vb p =
      let buffer = x ∷ xs in
      let some_left : (suc (length xs) == 0) ≡ false = ground arith in
      let zeros : List ℕ = replicate (w * h - length buffer) 0 in
      let key = key_at avx2 w h valid nonce keys shifts s vn in
      rw (some_left, flush_lem avx2 w h valid nonce keys shifts s vn number buffer vb (omega arith))
        (ap₂ (λ (k : ℕ) l. ok (here k [], l)) {x = suc number} {y = number + 1} (omega arith)
          (ap (take (length buffer)) (mask_cells-append key (number * (w * h)) buffer zeros)
            ∙ take-append (length buffer) (cells number buffer)
                (mask_cells key (number * (w * h) + length buffer) zeros)
                (length-mask_cells key (number * (w * h)) buffer)))

  -- For valid dimensions, a nonce of these dimensions and a full schedule, a whole stream masks
  -- every cell with the keystream of the cell's position, however the 64-bit cells are split over
  -- the calls of `update`: no call fails or panics, and the buffer is empty at the end.
  pub process_lem :
      (parts : List (List ℕ))
      → All (All IsWord) parts
      → (last : ℕ) × (process avx2 w h parts (here 0 [])
          ≡ ok (
            here last [],
            mask_cells (key_at avx2 w h valid nonce keys shifts s vn) 0 (concat parts),
          ))
  unfolding process
  process_lem parts vp =
      let pos : 0 < w * h = omega (arith, area_pos w h valid) in
      let a = run_lem 0 parts [] vp tt pos in
      let last : ℕ = 0 + a.k + partial (length a.rest) in
      let done = finalize_lem (0 + a.k) a.rest a.words a.short in
      (
        last,
        rw (a.returns, done)
            (ap (λ l. ok (here last [], l))
              (sym (masked-append avx2 w h valid nonce keys shifts s vn 0 a.k a.done a.rest a.whole)
                ∙ ap (cells 0) (sym a.splits)
                ∙ mask_at (key_at avx2 w h valid nonce keys shifts s vn) (0 * (w * h)) 0
                    (concat parts) (omega arith))),
      )
