-- ===== src/Chat/Input/History.antt =====
-- chat/src/bin/client/tui/input.rs: what editing and paging undo.
use why.Common.{
  ℕ, suc, ◌+◌, ◌-◌, ◌≡◌, refl, sym, ap, ap₂, ◌∙◌, arith, Bool, true, false, ◌||◌, ◌==◌, ltb, leb,
  Bool-cases, inl, inr, Option, none, some, List, [], ◌∷◌, ◌++◌, length, take, drop, length-append,
  length-take, take_all, take-append, drop-append, take-append-drop, append_assoc,
}
use why.Core.Outcome.{ok}
use why.Chat.Input.{
  InputBuffer, edited, next, last_hit, position, rposition, insert, remove, backspace, matches,
  typed_prefix, searching, recall_up, search_up, history_up, or_empty, recall_down, history_down,
}
use why.Chat.Input.Safety.{IsValid, Below, rposition-Below}

take_more : (n : ℕ) (xs ys : List ℕ) (y : ℕ) → length xs ≡ n → drop (n + 1) (xs ++ y ∷ ys) ≡ ys
take_more n xs ys y e =
    ap (drop (n + 1)) (sym (append_assoc xs (y ∷ []) ys))
    ∙ drop-append (n + 1) (xs ++ y ∷ []) ys (omega (arith, length-append xs (y ∷ [])))

-- A character that is typed and then erased leaves the line and the cursor as they were.
pub backspace-insert :
    (c : ℕ) (b : InputBuffer)
    → IsValid b
    → (b' : InputBuffer) × (b'' : InputBuffer) × (insert c b ≡ ok b')
      × (backspace b' ≡ ok b'')
      × (b''.chars ≡ b.chars)
      × (b''.cursor ≡ b.cursor)
unfolding insert backspace remove
backspace-insert c b v =
    let front = take b.cursor b.chars in
    let rest = drop b.cursor b.chars in
    let size : length front ≡ b.cursor = omega (arith, length-take b.cursor b.chars, v.in_line) in
    let longer = length-append front (c ∷ rest) in
    let inside : leb b.cursor (length b.chars) ≡ true = ground (arith, v.in_line) in
    let pos : ltb 0 (b.cursor + 1) ≡ true = ground arith in
    let there : ltb (b.cursor + 1 - 1) (length (front ++ c ∷ rest)) ≡ true = ground arith in
    let b' = edited b (front ++ c ∷ rest) (b.cursor + 1) in
    let same : b.cursor + 1 - 1 ≡ b.cursor = omega arith in
    let chars : List ℕ =
      take (b.cursor + 1 - 1) (front ++ c ∷ rest)
      ++ drop (b.cursor + 1 - 1 + 1) (front ++ c ∷ rest) in
    (
      b',
      edited b' chars (b.cursor + 1 - 1),
      rw inside refl,
      rw (pos, there) refl,
      ap (λ i. take i (front ++ c ∷ rest) ++ drop (i + 1) (front ++ c ∷ rest)) same
          ∙ ap₂ ◌++◌ (take-append b.cursor front (c ∷ rest) size)
              (take_more b.cursor front rest c size)
          ∙ take-append-drop b.cursor b.chars,
      same,
    )

-- After the last hit there is no further one.
abbrev After : {A : Type 0} → (A → Bool) → List A → Option ℕ → Type 0
After test xs none = position test xs ≡ none
After test xs (some i) = position test (drop (suc i) xs) ≡ none

last_hit-After :
    {A : Type 0} (test : A → Bool) (x : A) (xs : List A) (head : Bool) (o : Option ℕ)
    → test x ≡ head
    → After test xs o
    → After test (x ∷ xs) (last_hit head o)
unfolding last_hit position next
last_hit-After test x xs true (some i) e p = p
last_hit-After test x xs false (some i) e p = p
last_hit-After test x xs true none e p = p
last_hit-After test x xs false none e p = rw (e, p) refl

rposition-After : {A : Type 0} (test : A → Bool) (xs : List A) → After test xs (rposition test xs)
unfolding rposition position
rposition-After test [] = refl
rposition-After test (x ∷ xs) =
    last_hit-After test x xs (test x) (rposition test xs) refl (rposition-After test xs)

-- From a state with its line parked, the search down after the search up ends at this line.
restored :
    (p : InputBuffer) (o : Option ℕ)
    → p.history_pos ≡ length p.history
    → or_empty p.stash ≡ p.chars
    → Below (length p.history) o
    → After (matches p.prefix) p.history o
    → ((history_down (recall_up p o)).chars ≡ p.chars)
      × ((history_down (recall_up p o)).history_pos ≡ length p.history)
unfolding history_down recall_up recall_down
restored p none idle parked below after =
    let ended : leb (length p.history) p.history_pos ≡ true = ground arith in rw ended (refl, idle)
restored p (some i) idle parked below after =
    let inside : leb (length p.history) i ≡ false = ground arith in
    let last : position (matches p.prefix) (drop (i + 1) p.history) ≡ none =
      ap (λ (k : ℕ). position (matches p.prefix) (drop k p.history)) {x = i + 1} {y = suc i}
        (omega arith)
      ∙ after in
    rw (inside, last) (parked, refl)

-- Paging up from the line being typed and down again shows this line again, whatever the history
-- holds and whether an entry was found, and leaves the search at its end.
pub history_down-history_up :
    (b : InputBuffer)
    → b.history_pos ≡ length b.history
    → (b' : InputBuffer) × (history_up b ≡ ok b')
      × ((history_down b').chars ≡ b.chars)
      × ((history_down b').history_pos ≡ b.history_pos)
unfolding history_up search_up history_down or_empty
history_down-history_up b idle =
    elim (Bool-cases ((length b.history == 0) || (b.history_pos == 0))) [
      | inl e ↦
          let ended : leb (length b.history) b.history_pos ≡ true = ground arith in
          (b, rw e refl, rw ended refl, rw ended refl)
      | inr e ↦
          let p = searching b b.history_pos (some b.chars) (typed_prefix b.chars) in
          let at_end : (b.history_pos == length b.history) ≡ true = ground arith in
          let inside : leb b.history_pos (length b.history) ≡ true = ground arith in
          let found = rposition (matches p.prefix) b.history in
          let whole : take b.history_pos b.history ≡ b.history =
            take_all b.history_pos b.history (omega arith) in
          let back =
            restored p found idle refl (rposition-Below (matches p.prefix) b.history)
              (rposition-After (matches p.prefix) b.history) in
          (
            recall_up p found,
            rw (e, at_end, inside)
                (ap (λ l. ok (recall_up p (rposition (matches p.prefix) l))) whole),
            back.0,
            back.1 ∙ sym idle,
          )
    ]
