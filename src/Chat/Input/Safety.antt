-- ===== src/Chat/Input/Safety.antt =====
-- chat/src/bin/client/tui/input.rs: no operation of the input line panics, and each keeps the cursor in
-- the line and the position in the history.
use why.Common.{
  ℕ, zero, suc, ◌+◌, ◌-◌, ◌≤◌, ◌<◌, ◌≡◌, refl, sym, arith, Bool, true, false, not, ltb, leb,
  Bool-cases, inl, inr, Option, none, some, List, [], ◌∷◌, ◌++◌, length, take, drop, length-append,
  length-take, length-drop,
}
use why.Core.Outcome.{Outcome, ok}
use why.Chat.Input.{
  InputBuffer, is_whitespace, is_newline, position, rposition, next, last_hit, offset_or, remove,
  drain, back, word_start, after_newline, line_start, newline_from, line_end, steps,
}

pub record IsValid (b : InputBuffer) : Type 0 where
  pub in_line : b.cursor ≤ length b.chars
  pub in_history : b.history_pos ≤ length b.history

-- A call that returns a valid state.
abbrev pub Safe : Outcome InputBuffer → Type 0
Safe o = (b : InputBuffer) × (o ≡ ok b) × IsValid b

-- An index that is found is below the length.
abbrev pub Below : ℕ → Option ℕ → Type 0
Below n none = Unit
Below n (some i) = i < n

next-Below : (n : ℕ) (o : Option ℕ) → Below n o → Below (suc n) (next o)
unfolding next
next-Below n none p = tt
next-Below n (some i) p = omega arith

last_hit-Below : (n : ℕ) (head : Bool) (o : Option ℕ) → Below n o → Below (suc n) (last_hit head o)
unfolding last_hit
last_hit-Below n true none p = omega arith
last_hit-Below n false none p = tt
last_hit-Below n true (some i) p = omega arith
last_hit-Below n false (some i) p = omega arith

pub position-Below :
    {A : Type 0} (test : A → Bool) (xs : List A) → Below (length xs) (position test xs)
unfolding position
position-Below test [] = tt
position-Below test (x ∷ xs) = elim (Bool-cases (test x)) [
  | inl e ↦ rw e (omega arith)
  | inr e ↦ rw e (next-Below (length xs) (position test xs) (position-Below test xs))
]

pub rposition-Below :
    {A : Type 0} (test : A → Bool) (xs : List A) → Below (length xs) (rposition test xs)
unfolding rposition
rposition-Below test [] = tt
rposition-Below test (x ∷ xs) =
    last_hit-Below (length xs) (test x) (rposition test xs) (rposition-Below test xs)

after_newline-le : (n : ℕ) (o : Option ℕ) → Below n o → after_newline o ≤ n
unfolding after_newline
after_newline-le n none p = omega arith
after_newline-le n (some i) p = omega arith

offset_or-le : (from len : ℕ) (o : Option ℕ) → Below (len - from) o → offset_or from len o ≤ len
unfolding offset_or
offset_or-le from len none p = omega arith
offset_or-le from len (some i) p = omega arith

offset_or-ge : (from len : ℕ) (o : Option ℕ) → from ≤ len → from ≤ offset_or from len o
unfolding offset_or
offset_or-ge from len none p = p
offset_or-ge from len (some i) p = omega arith

back-le : (test : ℕ → Bool) (chars : List ℕ) (i : ℕ) → back test chars i ≤ i
unfolding back
back-le test chars zero = omega arith
back-le test chars (suc i) = ground (arith, back-le test chars i)

pub steps-le : (test : ℕ → Bool) (cs : List ℕ) → steps test cs ≤ length cs
unfolding steps
steps-le test [] = omega arith
steps-le test (c ∷ cs) = ground (arith, steps-le test cs)

pub newline_from-le : (from : ℕ) (chars : List ℕ) → newline_from from chars ≤ length chars
unfolding newline_from
newline_from-le from chars =
    offset_or-le from (length chars) (position is_newline (drop from chars))
      (rw (sym (length-drop from chars)) (position-Below is_newline (drop from chars)))

-- The four bounds of the line are in it.
pub line_start_lem :
    (b : InputBuffer) → IsValid b → (i : ℕ) × (line_start b ≡ ok i) × (i ≤ b.cursor)
unfolding line_start
line_start_lem b v =
    let inside : leb b.cursor (length b.chars) ≡ true = ground (arith, v.in_line) in
    let before = take b.cursor b.chars in
    (
      after_newline (rposition is_newline before),
      rw inside refl,
      omega (
        arith,
        after_newline-le (length before) (rposition is_newline before)
            (rposition-Below is_newline before),
        length-take b.cursor b.chars,
      ),
    )

pub line_end_lem :
    (b : InputBuffer)
    → IsValid b
    → (i : ℕ) × (line_end b ≡ ok i) × (b.cursor ≤ i) × (i ≤ length b.chars)
unfolding line_end newline_from
line_end_lem b v =
    let inside : leb b.cursor (length b.chars) ≡ true = ground (arith, v.in_line) in
    (
      newline_from b.cursor b.chars,
      rw inside refl,
      offset_or-ge b.cursor (length b.chars) (position is_newline (drop b.cursor b.chars))
          v.in_line,
      newline_from-le b.cursor b.chars,
    )

pub word_start_lem :
    (b : InputBuffer) → IsValid b → (i : ℕ) × (word_start b ≡ ok i) × (i ≤ b.cursor)
unfolding word_start
word_start_lem b v =
    let inside : leb b.cursor (length b.chars) ≡ true = ground (arith, v.in_line) in
    let low = back is_whitespace b.chars b.cursor in
    (
      back (λ c. not (is_whitespace c)) b.chars low,
      rw inside refl,
      omega (
        arith,
        back-le (λ c. not (is_whitespace c)) b.chars low,
        back-le is_whitespace b.chars b.cursor,
      ),
    )

pub drain_lem :
    (start end : ℕ) (xs : List ℕ)
    → start ≤ end
    → end ≤ length xs
    → (ys : List ℕ) × (drain start end xs ≡ ok ys) × (length ys ≡ length xs - (end - start))
unfolding drain
drain_lem start end xs p q =
    let ordered : leb start end ≡ true = ground arith in
    let inside : leb end (length xs) ≡ true = ground arith in
    (
      take start xs ++ drop end xs,
      rw (ordered, inside) refl,
      omega (
        arith,
        length-append (take start xs) (drop end xs),
        length-take start xs,
        length-drop end xs,
      ),
    )

pub remove_lem :
    (i : ℕ) (xs : List ℕ)
    → i < length xs
    → (ys : List ℕ) × (remove i xs ≡ ok ys) × (length ys + 1 ≡ length xs)
unfolding remove
remove_lem i xs p =
    let inside : ltb i (length xs) ≡ true = ground arith in
    (
      take i xs ++ drop (i + 1) xs,
      rw inside refl,
      omega (
        arith,
        length-append (take i xs) (drop (i + 1) xs),
        length-take i xs,
        length-drop (i + 1) xs,
      ),
    )
