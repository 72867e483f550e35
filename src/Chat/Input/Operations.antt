-- ===== src/Chat/Input/Operations.antt =====
-- chat/src/bin/client/tui/input.rs: any sequence of operations on the input line.
use why.Common.{
  ℕ, ◌+◌, ◌-◌, ◌≤◌, ◌<◌, ◌≡◌, refl, sym, arith, true, ◌||◌, not, ◌==◌, ltb, leb, Bool-cases, inl,
  inr, Option, none, some, List, [], ◌∷◌, ◌++◌, min, length, take, drop, length-append, length-take,
  length-drop,
}
use why.Core.Outcome.{Outcome, ok, ◌>>=◌}
use why.Chat.Input.{
  InputBuffer, at, edited, new, is_whitespace, is_newline, position, rposition, insert, insert_str,
  backspace, delete, delete_word, kill_to_start, kill_to_end, left, right, home, end_of_line,
  word_left, steps, word_right, is_multiline, matches, typed_prefix, searching, recall_up,
  search_up, history_up, recall_down, history_down, newline_from, after_newline, up, down,
  push_history, reset_history_position, clear, take_line,
}
use why.Chat.Input.Safety.{
  IsValid, Safe, Below, position-Below, rposition-Below, newline_from-le, line_start_lem,
  line_end_lem, word_start_lem, drain_lem, remove_lem, steps-le,
}

-- What the client calls on the input line.
pub data Operation : Type 0 where
  typed : ℕ → Operation
  pasted : List ℕ → Operation
  backspaced : Operation
  deleted : Operation
  deleted_word : Operation
  killed_to_start : Operation
  killed_to_end : Operation
  moved_left : Operation
  moved_right : Operation
  moved_home : Operation
  moved_end : Operation
  moved_word_left : Operation
  moved_word_right : Operation
  moved_up : Operation
  moved_down : Operation
  sent : List ℕ → Operation
  cleared : Operation
  taken : Operation

apply : Operation → InputBuffer → Outcome InputBuffer
apply (typed c) b = insert c b
apply (pasted text) b = insert_str text b
apply backspaced b = backspace b
apply deleted b = delete b
apply deleted_word b = delete_word b
apply killed_to_start b = kill_to_start b
apply killed_to_end b = kill_to_end b
apply moved_left b = ok (left b)
apply moved_right b = ok (right b)
apply moved_home b = home b
apply moved_end b = end_of_line b
apply moved_word_left b = word_left b
apply moved_word_right b = ok (word_right b)
apply moved_up b = up b
apply moved_down b = down b
apply (sent text) b = ok (push_history text b)
apply cleared b = ok (clear b)
apply taken b = ok (take_line b).1

pub apply_all : List Operation → InputBuffer → Outcome InputBuffer
apply_all [] b = ok b
apply_all (o ∷ os) b = apply o b >>= λ b'. apply_all os b'

-- A line and a cursor inside it keep a state valid.
at-IsValid :
    (b : InputBuffer) (chars : List ℕ) (i : ℕ)
    → IsValid b
    → i ≤ length chars
    → IsValid (at b chars i)
at-IsValid b chars i v p = record { in_line = p; in_history = v.in_history }

edited-Safe :
    (b : InputBuffer) (chars : List ℕ) (i : ℕ)
    → IsValid b
    → i ≤ length chars
    → Safe (ok (edited b chars i))
edited-Safe b chars i v p =
    (edited b chars i, refl, record { in_line = p; in_history = v.in_history })

insert-Safe : (c : ℕ) (b : InputBuffer) → IsValid b → Safe (insert c b)
unfolding insert
insert-Safe c b v =
    let inside : leb b.cursor (length b.chars) ≡ true = ground (arith, v.in_line) in
    rw inside (
      edited-Safe b (take b.cursor b.chars ++ c ∷ drop b.cursor b.chars) (b.cursor + 1) v (
        omega (
          arith,
          v.in_line,
          length-append (take b.cursor b.chars) (c ∷ drop b.cursor b.chars),
          length-take b.cursor b.chars,
        )))

insert_str-Safe : (text : List ℕ) (b : InputBuffer) → IsValid b → Safe (insert_str text b)
unfolding insert_str
insert_str-Safe [] b v = (b, refl, v)
insert_str-Safe (c ∷ cs) b v =
    let (b', one, v') = insert-Safe c b v in rw one (insert_str-Safe cs b' v')

backspace-Safe : (b : InputBuffer) → IsValid b → Safe (backspace b)
unfolding backspace
backspace-Safe b v = elim (Bool-cases (ltb 0 b.cursor)) [
  | inl e ↦
      let pos : 0 < b.cursor = ground arith in
      let (chars, removed, count) = remove_lem (b.cursor - 1) b.chars (omega (arith, v.in_line)) in
      rw (e, removed) (edited-Safe b chars (b.cursor - 1) v (omega (arith, v.in_line)))
  | inr e ↦ rw e (b, refl, v)
]

delete-Safe : (b : InputBuffer) → IsValid b → Safe (delete b)
unfolding delete
delete-Safe b v = elim (Bool-cases (ltb b.cursor (length b.chars))) [
  | inl e ↦
      let pos : b.cursor < length b.chars = ground arith in
      let (chars, removed, count) = remove_lem b.cursor b.chars pos in
      rw (e, removed) (edited-Safe b chars b.cursor v (omega arith))
  | inr e ↦ rw e (b, refl, v)
]

delete_word-Safe : (b : InputBuffer) → IsValid b → Safe (delete_word b)
unfolding delete_word
delete_word-Safe b v =
    let (start, found, low) = word_start_lem b v in
    let (chars, drained, count) = drain_lem start b.cursor b.chars low v.in_line in
    rw (found, drained) (edited-Safe b chars start v (omega (arith, v.in_line)))

kill_to_start-Safe : (b : InputBuffer) → IsValid b → Safe (kill_to_start b)
unfolding kill_to_start
kill_to_start-Safe b v =
    let (start, found, low) = line_start_lem b v in
    let (chars, drained, count) = drain_lem start b.cursor b.chars low v.in_line in
    rw (found, drained) (edited-Safe b chars start v (omega (arith, v.in_line)))

kill_to_end-Safe : (b : InputBuffer) → IsValid b → Safe (kill_to_end b)
unfolding kill_to_end
kill_to_end-Safe b v =
    let (end, found, low, high) = line_end_lem b v in
    let (chars, drained, count) = drain_lem b.cursor end b.chars low high in
    rw (found, drained) (edited-Safe b chars b.cursor v (omega (arith, v.in_line)))

recall_up-IsValid :
    (b : InputBuffer) (o : Option ℕ)
    → IsValid b
    → Below (length b.history) o
    → IsValid (recall_up b o)
unfolding recall_up
recall_up-IsValid b none v p = v
recall_up-IsValid b (some i) v p = record { in_line = omega arith; in_history = omega arith }

Below-le : (m n : ℕ) (o : Option ℕ) → m ≤ n → Below m o → Below n o
Below-le m n none p q = tt
Below-le m n (some i) p q = omega arith

search_up-Safe : (b : InputBuffer) → IsValid b → Safe (search_up b)
unfolding search_up
search_up-Safe b v =
    let inside : leb b.history_pos (length b.history) ≡ true = ground (arith, v.in_history) in
    let found = rposition (matches b.prefix) (take b.history_pos b.history) in
    let count = length-take b.history_pos b.history in
    (
      recall_up b found,
      rw inside refl,
      recall_up-IsValid b found v (
          Below-le (length (take b.history_pos b.history)) (length b.history) found (omega arith)
            (rposition-Below (matches b.prefix) (take b.history_pos b.history))),
    )

history_up-Safe : (b : InputBuffer) → IsValid b → Safe (history_up b)
unfolding history_up
history_up-Safe b v = elim (Bool-cases ((length b.history == 0) || (b.history_pos == 0))) [
  | inl e ↦ rw e (b, refl, v)
  | inr e ↦ elim (Bool-cases (b.history_pos == length b.history)) [
    | inl f ↦
        rw (e, f)
          (search_up-Safe (searching b b.history_pos (some b.chars) (typed_prefix b.chars))
            (record { in_line = v.in_line; in_history = v.in_history }))
    | inr f ↦ rw (e, f) (search_up-Safe b v)
  ]
]

recall_down-IsValid :
    (b : InputBuffer) (o : Option ℕ)
    → b.history_pos < length b.history
    → Below (length b.history - (b.history_pos + 1)) o
    → IsValid (recall_down b o)
unfolding recall_down
recall_down-IsValid b none p q = record { in_line = omega arith; in_history = omega arith }
recall_down-IsValid b (some i) p q = record { in_line = omega arith; in_history = omega arith }

history_down-IsValid : (b : InputBuffer) → IsValid b → IsValid (history_down b)
unfolding history_down
history_down-IsValid b v = elim (Bool-cases (leb (length b.history) b.history_pos)) [
  | inl e ↦ rw e v
  | inr e ↦
      let inside : b.history_pos < length b.history = ground arith in
      let later = drop (b.history_pos + 1) b.history in
      rw e (
        recall_down-IsValid b (position (matches b.prefix) later) inside (
          rw (sym (length-drop (b.history_pos + 1) b.history))
            (position-Below (matches b.prefix) later)))
]

up-Safe : (b : InputBuffer) → IsValid b → Safe (up b)
unfolding up
up-Safe b v = elim (Bool-cases (is_multiline b.chars)) [
  | inr e ↦ rw e (history_up-Safe b v)
  | inl e ↦
      let (start, found, low) = line_start_lem b v in
      elim (Bool-cases (start == 0)) [
        | inl f ↦ rw (e, found, f) (at b b.chars 0, refl, at-IsValid b b.chars 0 v (omega arith))
        | inr f ↦
            let column : ℕ =
              after_newline (rposition is_newline (take (start - 1) b.chars))
              + (b.cursor - start) in
            rw (e, found, f)
              (
                at b b.chars (min column (start - 1)),
                refl,
                at-IsValid b b.chars (min column (start - 1)) v (omega (arith, v.in_line)),
              )
      ]
]

down-Safe : (b : InputBuffer) → IsValid b → Safe (down b)
unfolding down
down-Safe b v = elim (Bool-cases (is_multiline b.chars)) [
  | inr e ↦ rw e (history_down b, refl, history_down-IsValid b v)
  | inl e ↦
      let (end, found, low, high) = line_end_lem b v in
      elim (Bool-cases (end == length b.chars)) [
        | inl f ↦ rw (e, found, f) (at b b.chars end, refl, at-IsValid b b.chars end v high)
        | inr f ↦
            let (start, first, below) = line_start_lem b v in
            let stop : ℕ = newline_from (end + 1) b.chars in
            let column : ℕ = end + 1 + (b.cursor - start) in
            rw (e, found, f, first)
              (
                at b b.chars (min column stop),
                refl,
                at-IsValid b b.chars (min column stop) v
                    (omega (arith, newline_from-le (end + 1) b.chars)),
              )
      ]
]

-- No operation panics on a valid state, and each leaves a valid state.
apply-Safe : (o : Operation) (b : InputBuffer) → IsValid b → Safe (apply o b)
unfolding apply left right home end_of_line word_left word_right push_history reset_history_position
    clear take_line
apply-Safe (typed c) b v = insert-Safe c b v
apply-Safe (pasted text) b v = insert_str-Safe text b v
apply-Safe backspaced b v = backspace-Safe b v
apply-Safe deleted b v = delete-Safe b v
apply-Safe deleted_word b v = delete_word-Safe b v
apply-Safe killed_to_start b v = kill_to_start-Safe b v
apply-Safe killed_to_end b v = kill_to_end-Safe b v
apply-Safe moved_left b v =
    (left b, refl, at-IsValid b b.chars (b.cursor - 1) v (omega (arith, v.in_line)))
apply-Safe moved_right b v = elim (Bool-cases (ltb b.cursor (length b.chars))) [
  | inl e ↦
      rw e (at b b.chars (b.cursor + 1), refl, at-IsValid b b.chars (b.cursor + 1) v (ground arith))
  | inr e ↦ rw e (b, refl, v)
]
apply-Safe moved_home b v =
    let (i, found, low) = line_start_lem b v in
    rw found (at b b.chars i, refl, at-IsValid b b.chars i v (omega (arith, v.in_line)))
apply-Safe moved_end b v =
    let (i, found, low, high) = line_end_lem b v in
    rw found (at b b.chars i, refl, at-IsValid b b.chars i v high)
apply-Safe moved_word_left b v =
    let (i, found, low) = word_start_lem b v in
    rw found (at b b.chars i, refl, at-IsValid b b.chars i v (omega (arith, v.in_line)))
apply-Safe moved_word_right b v =
    let i : ℕ = b.cursor + steps is_whitespace (drop b.cursor b.chars) in
    let j : ℕ = i + steps (λ c. not (is_whitespace c)) (drop i b.chars) in
    (
      word_right b,
      refl,
      at-IsValid b b.chars j v (
          omega (
            arith,
            v.in_line,
            steps-le is_whitespace (drop b.cursor b.chars),
            length-drop b.cursor b.chars,
            steps-le (λ c. not (is_whitespace c)) (drop i b.chars),
            length-drop i b.chars,
          )),
    )
apply-Safe moved_up b v = up-Safe b v
apply-Safe moved_down b v = down-Safe b v
apply-Safe (sent text) b v =
    (push_history text b, refl, record { in_line = v.in_line; in_history = omega arith })
apply-Safe cleared b v =
    (clear b, refl, record { in_line = omega arith; in_history = v.in_history })
apply-Safe taken b v =
    ((take_line b).1, refl, record { in_line = omega arith; in_history = omega arith })

-- From a new input line on, no sequence of operations panics: the cursor stays in the line and the
-- position in the history.
pub apply_all-Safe : (os : List Operation) → Safe (apply_all os new)
unfolding new apply_all
apply_all-Safe os = from os new (record { in_line = omega arith; in_history = omega arith })
  where
    from : (os : List Operation) (b : InputBuffer) → IsValid b → Safe (apply_all os b)
    from [] b v = (b, refl, v)
    from (o ∷ os) b v = let (b', one, v') = apply-Safe o b v in rw one (from os b' v')
