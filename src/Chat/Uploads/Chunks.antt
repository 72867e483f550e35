-- ===== src/Chat/Uploads/Chunks.antt =====
-- chat/src/network/file/server.rs: chunks of one size, and how they are found again in the whole.
use why.Common.{
  ℕ, ◌+◌, ◌-◌, ◌*◌, ◌/◌, ◌≤◌, ◌<◌, ◌≡◌, refl, ap, ap₂, ◌∙◌, arith, List, [], ◌∷◌, ◌++◌, length,
  take, concat, append-nil, length-append, take-append, drop-append, take_all, div_mod_of_join,
}
use why.Core.Grid.{chunks}

-- Chunks of `n` bytes, of which only the last may be shorter; none is empty.
unfoldable pub Regular : ℕ → List (List ℕ) → Type 0
Regular n [] = Unit
Regular n (c ∷ []) = (0 < length c) × (length c ≤ n)
Regular n (c ∷ d ∷ cs) = (length c ≡ n) × Regular n (d ∷ cs)

pub Regular-length :
    (n : ℕ) (cs : List (List ℕ))
    → 0 < n
    → Regular n cs
    → (length (concat cs) ≤ length cs * n) × (length cs * n < length (concat cs) + n)
unfolding Regular
Regular-length n [] pos r = (omega arith, omega arith)
Regular-length n (c ∷ []) pos r =
    let size : length (c ++ []) ≡ length c = ap length (append-nil c) in
    (omega (arith, r.1, size), omega (arith, r.0, size))
Regular-length n (c ∷ d ∷ cs) pos r =
    let rest = Regular-length n (d ∷ cs) pos r.1 in
    let size = length-append c (concat (d ∷ cs)) in
    (omega (arith, r.0, size, rest.0), omega (arith, r.0, size, rest.1))

pub chunks-concat :
    (n : ℕ) (cs : List (List ℕ)) → Regular n cs → chunks (length cs) n (concat cs) ≡ cs
unfolding Regular chunks
chunks-concat n [] r = refl
chunks-concat n (c ∷ []) r = ap (λ l. l ∷ []) (ap (take n) (append-nil c) ∙ take_all n c r.1)
chunks-concat n (c ∷ d ∷ cs) r = ap₂ ◌∷◌ (take-append n c (concat (d ∷ cs)) r.0) (
    ap (chunks (length (d ∷ cs)) n) (drop-append n c (concat (d ∷ cs)) r.0)
    ∙ chunks-concat n (d ∷ cs) r.1)

-- The chunks of the whole are the chunks that it was made of.
pub rechunk :
    (n : ℕ) (cs : List (List ℕ))
    → 0 < n
    → Regular n cs
    → chunks ((length (concat cs) + n - 1) / n) n (concat cs) ≡ cs
rechunk n cs pos r =
    let bounds = Regular-length n cs pos r in
    let total : ℕ = length (concat cs) in
    let left : ℕ = total + n - 1 - length cs * n in
    let sum : total + n - 1 ≡ length cs * n + left = omega arith in
    let parts = div_mod_of_join n (length cs) left (omega arith) in
    ap (λ (k : ℕ). chunks (k / n) n (concat cs)) sum
    ∙ ap (λ (k : ℕ). chunks k n (concat cs)) parts.0
    ∙ chunks-concat n cs r
