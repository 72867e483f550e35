-- ===== src/Chat/Cache/Evict.antt =====
-- chat/src/cache.rs: which files stay in the cache.
use why.Common.{
  ℕ, ◌+◌, ◌-◌, ◌≤◌, ◌<◌, ◌≡◌, ◌⊎◌, inl, inr, refl, ap, ◌∙◌, arith, Bool, true, leb, Bool-cases,
  List, [], ◌∷◌, ◌++◌, length, All,
}
use why.Chat.Cache.{
  max_image_cache, CachedFile, insert_by_time, sort_by_time, total_size, drop_oldest, evict,
}

total_size-insert :
    (f : CachedFile) (files : List CachedFile)
    → total_size (insert_by_time f files) ≡ length f.content + total_size files
unfolding total_size insert_by_time
total_size-insert f [] = refl
total_size-insert f (g ∷ files) = elim (Bool-cases (leb f.modified g.modified)) [
  | inl e ↦ rw e refl
  | inr e ↦ rw e (omega (arith, total_size-insert f files))
]

total_size-sort : (files : List CachedFile) → total_size (sort_by_time files) ≡ total_size files
unfolding total_size sort_by_time
total_size-sort [] = refl
total_size-sort (f ∷ files) =
    omega (arith, total_size-insert f (sort_by_time files), total_size-sort files)

-- The files from the oldest on.
unfoldable pub Sorted : List CachedFile → Type 0
Sorted [] = Unit
Sorted (f ∷ files) = All (λ g. f.modified ≤ g.modified) files × Sorted files

All-insert :
    (low : ℕ) (f : CachedFile) (files : List CachedFile)
    → low ≤ f.modified
    → All (λ g. low ≤ g.modified) files
    → All (λ g. low ≤ g.modified) (insert_by_time f files)
unfolding insert_by_time
All-insert low f [] p v = (p, tt)
All-insert low f (g ∷ files) p v = elim (Bool-cases (leb f.modified g.modified)) [
  | inl e ↦ rw e (p, v)
  | inr e ↦ rw e (v.0, All-insert low f files p v.1)
]

All-weaken :
    (low high : ℕ) (files : List CachedFile)
    → low ≤ high
    → All (λ g. high ≤ g.modified) files
    → All (λ g. low ≤ g.modified) files
All-weaken low high [] p v = tt
All-weaken low high (g ∷ files) p v = (omega (arith, v.0), All-weaken low high files p v.1)

Sorted-insert :
    (f : CachedFile) (files : List CachedFile) → Sorted files → Sorted (insert_by_time f files)
unfolding Sorted insert_by_time
Sorted-insert f [] s = (tt, tt)
Sorted-insert f (g ∷ files) s = elim (Bool-cases (leb f.modified g.modified)) [
  | inl e ↦
      let p : f.modified ≤ g.modified = ground arith in
      rw e ((p, All-weaken f.modified g.modified files p s.0), s)
  | inr e ↦
      let p : g.modified ≤ f.modified = ground arith in
      rw e (All-insert g.modified f files p s.0, Sorted-insert f files s.1)
]

Sorted-sort : (files : List CachedFile) → Sorted (sort_by_time files)
unfolding Sorted sort_by_time
Sorted-sort [] = tt
Sorted-sort (f ∷ files) = Sorted-insert f (sort_by_time files) (Sorted-sort files)

-- The files that go are the first ones, as few as make the rest fit: there are none, or the last of
-- them would have been too much.
pub record Dropped (files kept : List CachedFile) : Type 0 where
  pub gone : List CachedFile
  pub splits : files ≡ gone ++ kept
  pub fits : total_size kept ≤ max_image_cache
  pub needed :
      (gone ≡ [])
      ⊎ ((before : List CachedFile) × (f : CachedFile) × (gone ≡ before ++ f ∷ [])
          × (max_image_cache < total_size (f ∷ kept)))

Dropped-cons :
    (f : CachedFile) (files kept : List CachedFile)
    → max_image_cache < total_size (f ∷ files)
    → Dropped files kept
    → Dropped (f ∷ files) kept
Dropped-cons f files kept over d = record {
  gone = f ∷ d.gone;
  splits = ap (λ l. f ∷ l) d.splits;
  fits = d.fits;
  needed = elim d.needed [
    | inl none_gone ↦
        let same : files ≡ kept = d.splits ∙ ap (λ l. l ++ kept) none_gone in
        inr ([], f, ap (λ l. f ∷ l) none_gone, rw same at over)
    | inr (before, g, last, needed) ↦ inr (f ∷ before, g, ap (λ l. f ∷ l) last, needed)
  ];
}

module _ (removable : CachedFile → Bool)
    (all_removable : (f : CachedFile) → removable f ≡ true) where
  drop_oldest_lem :
      (files : List CachedFile) → Dropped files (drop_oldest removable (total_size files) files)
  unfolding drop_oldest total_size
  drop_oldest_lem [] = record { gone = []; splits = refl; fits = omega arith; needed = inl refl }
  drop_oldest_lem (f ∷ files) =
      let total : ℕ = length f.content + total_size files in
      let left : total - length f.content ≡ total_size files = omega arith in
      elim (Bool-cases (leb total max_image_cache)) [
        | inl e ↦ rw e (record { gone = []; splits = refl; fits = ground arith; needed = inl refl })
        | inr e ↦
            rw (e, all_removable f, left)
              (Dropped-cons f files (drop_oldest removable (total_size files) files) (ground arith)
                (drop_oldest_lem files))
      ]

  -- Where every file can be removed: after an eviction the cache fits, what stays are the newest
  -- files, and no more is removed than has to be. A cache that fits is left as it is.
  pub evict_lem :
      (files : List CachedFile)
      → (total_size (evict removable files) ≤ max_image_cache)
        × ((evict removable files ≡ files)
            ⊎ ((max_image_cache < total_size files)
                × Sorted (sort_by_time files)
                × Dropped (sort_by_time files) (evict removable files)))
  unfolding evict
  evict_lem files =
      let dropped = drop_oldest_lem (sort_by_time files) in
      let same = total_size-sort files in
      elim (Bool-cases (leb (total_size files) max_image_cache)) [
        | inl e ↦ rw e (ground arith, inl refl)
        | inr e ↦
            let after : Dropped (sort_by_time files)
                (drop_oldest removable (total_size files) (sort_by_time files)) =
              rw same at dropped in
            rw e (after.fits, inr (ground arith, Sorted-sort files, after))
      ]
