-- ===== src/Core/Grid/Mix/Columns.antt =====
-- core/src/grid.rs: the loop of `mix_columns_inner` mixes each column of the grid once, and mixing
-- twice gives the grid back.
use why.Common.{
  ℕ, zero, suc, ◌+◌, ◌-◌, ◌≤◌, ◌<◌, ◌≡◌, ◌⊎◌, inl, inr, refl, sym, ap, ◌∙◌, arith, true, ltb,
  if◌then◌else◌, Bool-cases, List, [], ◌∷◌, map, length, length-map, get_or, All, IsWord, zip_with,
}
use why.Core.Outcome.{ok, ◌>>=◌}
use why.Core.Grid.{IsRow, IsRows, valid_dimensions}
use why.Core.Grid.Build.{get_or-IsWord}
use why.Core.Grid.Mix.{Lane, mix_lanes, gather, scatter, mix_loop}
use why.Core.Grid.Mix.Height.{place, column_mix, height-IsMix, mix_lanes_lem}
use why.Core.Grid.Mix.Scatter.{
  column, IsLane, gather-column, scatter-column, scatter-column_other, scatter-IsRows,
}

gather-IsLane : (col take : ℕ) (row : List ℕ) → All IsWord row → IsLane (gather col take row)
unfolding gather
gather-IsLane col take row h = (cell 0, cell 1, cell 2, cell 3)
  where
    cell : (c : ℕ) → IsWord (if ltb c take then get_or row (col + c) 0 else 0)
    cell c = elim (Bool-cases (ltb c take)) [
      | inl e ↦ rw e (get_or-IsWord row h (col + c))
      | inr e ↦ rw e (omega arith)
    ]

place-word : (j : ℕ) (l : Lane) → IsLane l → IsWord (place j l)
place-word zero l h = h.0
place-word (suc zero) l h = h.1
place-word (suc (suc zero)) l h = h.2
place-word (suc (suc (suc j))) l h = h.3

gathered-words :
    (w col take j : ℕ) (rows : List (List ℕ))
    → All (IsRow w) rows
    → All IsWord (map (place j) (map (gather col take) rows))
gathered-words w col take j [] h = tt
gathered-words w col take j (r ∷ rs) h = (
  place-word j (gather col take r) (gather-IsLane col take r h.0.1),
  gathered-words w col take j rs h.1,
)

lanes-words :
    (out : List Lane)
    → All IsWord (map (place 0) out)
    → All IsWord (map (place 1) out)
    → All IsWord (map (place 2) out)
    → All IsWord (map (place 3) out)
    → All IsLane out
lanes-words [] a b c d = tt
lanes-words (l ∷ ls) a b c d = ((a.0, b.0, c.0, d.0), lanes-words ls a.1 b.1 c.1 d.1)

pub column-words :
    (w j : ℕ) (rows : List (List ℕ)) → All (IsRow w) rows → All IsWord (column j rows)
column-words w j [] h = tt
column-words w j (r ∷ rs) h = (get_or-IsWord r h.0.1 j, column-words w j rs h.1)

module _ (w h : ℕ) (valid : valid_dimensions w h ≡ true) where
  abbrev mixed : ℕ → List (List ℕ) → List ℕ
  mixed c rows = column_mix h (column c rows)

  -- One turn of the loop.
  turn :
      (col take : ℕ) (rows : List (List ℕ))
      → take ≤ 4
      → col + take ≤ w
      → IsRows w h rows
      → (out : List Lane) × (mix_lanes h (map (gather col take) rows) ≡ ok out)
        × IsRows w h (zip_with (scatter col take) out rows)
        × ((c : ℕ)
            → col ≤ c
            → c < col + take
            → column c (zip_with (scatter col take) out rows) ≡ mixed c rows)
        × ((c : ℕ)
            → (c < col) ⊎ (col + take ≤ c)
            → column c (zip_with (scatter col take) out rows) ≡ column c rows)
  turn col take rows few fits s =
      let lanes = map (gather col take) rows in
      let mix = height-IsMix w h valid in
      let (out, done, places) = mix_lanes_lem w h valid lanes in
      let tall = λ (j : ℕ). length-map (place j) lanes ∙ length-map (gather col take) rows ∙ s.0 in
      let len : length out ≡ length rows =
        sym (length-map (place 0) out)
        ∙ ap length (places 0)
        ∙ mix.same_length (map (place 0) lanes) (tall 0)
        ∙ sym s.0 in
      let words : (j : ℕ) → All IsWord (map (place j) out) = λ j.
        rw (places j)
          (mix.words (map (place j) lanes) (tall j) (gathered-words w col take j rows s.1)) in
      (
        out,
        done,
        scatter-IsRows col take few w h out rows len
            (lanes-words out (words 0) (words 1) (words 2) (words 3)) s,
        λ c low high.
            let at : col + (c - col) ≡ c = omega arith in
            ap (λ k. column k (zip_with (scatter col take) out rows)) (sym at)
            ∙ scatter-column col take few (c - col) out rows w (omega arith) fits len s.1
            ∙ places (c - col)
            ∙ ap (column_mix h) (gather-column col take few (c - col) rows (omega arith))
            ∙ ap (λ k. mixed k rows) at,
        λ c outside. scatter-column_other col take few c out rows outside len,
      )

  abbrev Mixed : ℕ → List (List ℕ) → List (List ℕ) → Type 0
  Mixed col rows rows' =
      (c : ℕ) → c < w → column c rows' ≡ (if ltb c col then column c rows else mixed c rows)

  pub mix_loop_lem :
      (fuel col : ℕ) (rows : List (List ℕ))
      → IsRows w h rows
      → w ≤ col + fuel
      → (rows' : List (List ℕ)) × (mix_loop fuel w h col rows ≡ ok rows')
        × IsRows w h rows'
        × Mixed col rows rows'
  unfolding mix_loop
  mix_loop_lem zero col rows s enough =
      (rows, refl, s, λ c p. let before : ltb c col ≡ true = ground arith in rw before refl)
  mix_loop_lem (suc fuel) col rows s enough = elim (Bool-cases (ltb col w)) [
    | inr e ↦
        (rows, rw e refl, s, λ c p. let before : ltb c col ≡ true = ground arith in rw before refl)
    | inl e ↦
        let take : ℕ = if ltb (w - col) 4 then w - col else 4 in
        let more : col < w = ground arith in
        let few : take ≤ 4 = ground arith in
        let some_columns : 0 < take = ground arith in
        let fits : col + take ≤ w = ground arith in
        let (out, done, shaped, inside, outside) = turn col take rows few fits s in
        let rows1 = zip_with (scatter col take) out rows in
        let (rows', rest, shaped', columns) =
          mix_loop_lem fuel (col + take) rows1 shaped (omega arith) in
        (
          rows',
          rw e (
              ap
                (λ o. o >>= λ out.
                  mix_loop fuel w h (col + take) (zip_with (scatter col take) out rows))
                done
              ∙ rest),
          shaped',
          λ c p. columns c p ∙ merge c col take rows rows1 (inside c) (outside c),
        )
  ]
    where
      merge :
          (c col take : ℕ) (rows rows1 : List (List ℕ))
          → (col ≤ c → c < col + take → column c rows1 ≡ mixed c rows)
          → ((c < col) ⊎ (col + take ≤ c) → column c rows1 ≡ column c rows)
          → (if ltb c (col + take) then column c rows1 else mixed c rows1)
            ≡ (if ltb c col then column c rows else mixed c rows)
      merge c col take rows rows1 inside outside = elim (Bool-cases (ltb c col)) [
        | inl e ↦
            let far : c < col = ground arith in
            let near : ltb c (col + take) ≡ true = ground arith in rw (e, near) (outside (inl far))
        | inr e ↦
            let late : col ≤ c = ground arith in
            elim (Bool-cases (ltb c (col + take))) [
              | inl e' ↦ rw (e, e') (inside late (ground arith))
              | inr e' ↦ rw (e, e') (ap (column_mix h) (outside (inr (ground arith))))
            ]
      ]
