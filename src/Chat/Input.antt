-- ===== src/Chat/Input.antt =====
-- chat/src/bin/client/tui/input.rs: `InputBuffer`, the input line with its history. A character is its
-- code point; `panic` is an index or a range out of bounds.
pub mod Safety
pub mod Operations
pub mod History
use why.Common.{
  ℕ, zero, suc, ◌+◌, ◌-◌, Bool, true, false, ◌&&◌, ◌||◌, not, ◌==◌, ltb, leb, if◌then◌else◌, Option,
  none, some, List, [], ◌∷◌, ◌++◌, min, length, take, drop, get_or, wrapping_add, starts_with,
}
use why.Core.Outcome.{Outcome, ok, panic, ◌>>=◌}

pub record InputBuffer : Type 0 where
  pub chars : List ℕ
  pub cursor : ℕ
  pub history : List (List ℕ)
  pub history_pos : ℕ
  pub stash : Option (List ℕ)
  pub prefix : Option (List ℕ)
  pub revision : ℕ

pub new : InputBuffer
new = record {
  chars = [];
  cursor = 0;
  history = [];
  history_pos = 0;
  stash = none;
  prefix = none;
  revision = 0;
}

-- The line and the cursor are written; the rest stays.
abbrev pub at : InputBuffer → List ℕ → ℕ → InputBuffer
at b chars cursor = record {
  chars = chars;
  cursor = cursor;
  history = b.history;
  history_pos = b.history_pos;
  stash = b.stash;
  prefix = b.prefix;
  revision = b.revision;
}

-- The same for an edit, which bumps the revision.
abbrev pub edited : InputBuffer → List ℕ → ℕ → InputBuffer
edited b chars cursor = record {
  chars = chars;
  cursor = cursor;
  history = b.history;
  history_pos = b.history_pos;
  stash = b.stash;
  prefix = b.prefix;
  revision = wrapping_add b.revision 1;
}

abbrev pub searching : InputBuffer → ℕ → Option (List ℕ) → Option (List ℕ) → InputBuffer
searching b history_pos stash prefix = record {
  chars = b.chars;
  cursor = b.cursor;
  history = b.history;
  history_pos = history_pos;
  stash = stash;
  prefix = prefix;
  revision = b.revision;
}

-- `char::is_whitespace`: the White_Space property.
pub is_whitespace : ℕ → Bool
is_whitespace c =
    (leb 9 c && leb c 13)
    || (c == 32)
    || (c == 133)
    || (c == 160)
    || (c == 5760)
    || (leb 8192 c && leb c 8202)
    || (c == 8232)
    || (c == 8233)
    || (c == 8239)
    || (c == 8287)
    || (c == 12288)

pub is_newline : ℕ → Bool
is_newline c = c == 10

-- An index in the tail, as one in the list; and the last hit, from the tail's and the head.
pub next : Option ℕ → Option ℕ
next none = none
next (some i) = some (suc i)

pub last_hit : Bool → Option ℕ → Option ℕ
last_hit head (some i) = some (suc i)
last_hit true none = some 0
last_hit false none = none

-- `Iterator::position` and `rposition`.
pub position : {A : Type 0} → (A → Bool) → List A → Option ℕ
position test [] = none
position test (x ∷ xs) = let later = position test xs in if test x then some 0 else next later

pub rposition : {A : Type 0} → (A → Bool) → List A → Option ℕ
rposition test [] = none
rposition test (x ∷ xs) = last_hit (test x) (rposition test xs)

-- `Vec::insert`
pub insert : ℕ → InputBuffer → Outcome InputBuffer
insert c b =
    if leb b.cursor (length b.chars)
    then ok (edited b (take b.cursor b.chars ++ c ∷ drop b.cursor b.chars) (b.cursor + 1))
    else panic

pub insert_str : List ℕ → InputBuffer → Outcome InputBuffer
insert_str [] b = ok b
insert_str (c ∷ cs) b = insert c b >>= λ b'. insert_str cs b'

-- `Vec::remove`
pub remove : ℕ → List ℕ → Outcome (List ℕ)
remove i xs = if ltb i (length xs) then ok (take i xs ++ drop (i + 1) xs) else panic

pub backspace : InputBuffer → Outcome InputBuffer
backspace b =
    if ltb 0 b.cursor
    then (remove (b.cursor - 1) b.chars >>= λ chars. ok (edited b chars (b.cursor - 1)))
    else ok b

pub delete : InputBuffer → Outcome InputBuffer
delete b =
    if ltb b.cursor (length b.chars)
    then (remove b.cursor b.chars >>= λ chars. ok (edited b chars b.cursor))
    else ok b

-- `Vec::drain(start..end)`
pub drain : ℕ → ℕ → List ℕ → Outcome (List ℕ)
drain start end xs =
    if leb start end && leb end (length xs) then ok (take start xs ++ drop end xs) else panic

-- The loop that steps back from `i` while the character before it passes.
pub back : (ℕ → Bool) → List ℕ → ℕ → ℕ
back test chars zero = 0
back test chars (suc i) =
    let rest = back test chars i in if test (get_or chars i 0) then rest else suc i

-- Its first step reads the character before the cursor, which is there unless the cursor is past the
-- end.
pub word_start : InputBuffer → Outcome ℕ
word_start b =
    if leb b.cursor (length b.chars)
    then ok (back (λ c. not (is_whitespace c)) b.chars (back is_whitespace b.chars b.cursor))
    else panic

pub after_newline : Option ℕ → ℕ
after_newline none = 0
after_newline (some i) = i + 1

pub line_start : InputBuffer → Outcome ℕ
line_start b =
    if leb b.cursor (length b.chars)
    then ok (after_newline (rposition is_newline (take b.cursor b.chars)))
    else panic

-- `.map(|i| from + i).unwrap_or(len)`
pub offset_or : ℕ → ℕ → Option ℕ → ℕ
offset_or from len none = len
offset_or from len (some i) = from + i

-- The newline that is found from `from` on, or the end.
pub newline_from : ℕ → List ℕ → ℕ
newline_from from chars = offset_or from (length chars) (position is_newline (drop from chars))

pub line_end : InputBuffer → Outcome ℕ
line_end b = if leb b.cursor (length b.chars) then ok (newline_from b.cursor b.chars) else panic

pub delete_word : InputBuffer → Outcome InputBuffer
delete_word b = do
  start ← word_start b
  chars ← drain start b.cursor b.chars
  ok (edited b chars start)

pub kill_to_start : InputBuffer → Outcome InputBuffer
kill_to_start b = do
  start ← line_start b
  chars ← drain start b.cursor b.chars
  ok (edited b chars start)

pub kill_to_end : InputBuffer → Outcome InputBuffer
kill_to_end b = do
  end ← line_end b
  chars ← drain b.cursor end b.chars
  ok (edited b chars b.cursor)

pub left : InputBuffer → InputBuffer
left b = at b b.chars (b.cursor - 1)

pub right : InputBuffer → InputBuffer
right b = if ltb b.cursor (length b.chars) then at b b.chars (b.cursor + 1) else b

pub home : InputBuffer → Outcome InputBuffer
home b = line_start b >>= λ i. ok (at b b.chars i)

pub end_of_line : InputBuffer → Outcome InputBuffer
end_of_line b = line_end b >>= λ i. ok (at b b.chars i)

pub word_left : InputBuffer → Outcome InputBuffer
word_left b = word_start b >>= λ i. ok (at b b.chars i)

-- `while i < len && test(chars[i]) { i += 1 }`, as the steps that it takes.
pub steps : (ℕ → Bool) → List ℕ → ℕ
steps test [] = 0
steps test (c ∷ cs) = let rest = steps test cs in if test c then suc rest else 0

pub word_right : InputBuffer → InputBuffer
word_right b =
    let i : ℕ = b.cursor + steps is_whitespace (drop b.cursor b.chars) in
    at b b.chars (i + steps (λ c. not (is_whitespace c)) (drop i b.chars))

pub is_multiline : List ℕ → Bool
is_multiline [] = false
is_multiline (c ∷ cs) = is_newline c || is_multiline cs

-- A search without a prefix takes any entry.
pub matches : Option (List ℕ) → List ℕ → Bool
matches none entry = true
matches (some p) entry = starts_with entry p

-- The prefix that a search is locked to: none for an empty line and for a command.
pub typed_prefix : List ℕ → Option (List ℕ)
typed_prefix [] = none
typed_prefix (c ∷ cs) = if c == 47 then none else some (c ∷ cs)

-- `set`
abbrev recalled : InputBuffer → List ℕ → InputBuffer
recalled b text = at b text (length text)

-- The entry that is found is shown; with none the state stays.
pub recall_up : InputBuffer → Option ℕ → InputBuffer
recall_up b none = b
recall_up b (some found) = recalled (searching b found b.stash b.prefix) (get_or b.history found [])

-- The search upwards, from a state in which the typed line is parked. A position past the history is
-- out of range.
pub search_up : InputBuffer → Outcome InputBuffer
search_up b =
    if leb b.history_pos (length b.history)
    then ok (recall_up b (rposition (matches b.prefix) (take b.history_pos b.history)))
    else panic

pub history_up : InputBuffer → Outcome InputBuffer
history_up b =
    if (length b.history == 0) || (b.history_pos == 0)
    then ok b
    else search_up (
        if b.history_pos == length b.history
        then searching b b.history_pos (some b.chars) (typed_prefix b.chars)
        else b)

pub or_empty : Option (List ℕ) → List ℕ
or_empty none = []
or_empty (some text) = text

-- The later entry that is found is shown; with none, the line that started the search.
pub recall_down : InputBuffer → Option ℕ → InputBuffer
recall_down b none = recalled (searching b (length b.history) none none) (or_empty b.stash)
recall_down b (some i) =
    recalled (searching b (b.history_pos + 1 + i) b.stash b.prefix)
      (get_or b.history (b.history_pos + 1 + i) [])

pub history_down : InputBuffer → InputBuffer
history_down b =
    if leb (length b.history) b.history_pos
    then b
    else recall_down b (position (matches b.prefix) (drop (b.history_pos + 1) b.history))

-- `up` and `down` step lines in a buffer with more than one line.
pub up : InputBuffer → Outcome InputBuffer
up b =
    if is_multiline b.chars
    then (line_start b >>= λ start.
        if start == 0
        then ok (at b b.chars 0)
        else ok (
            at b b.chars (
              min
                (after_newline (rposition is_newline (take (start - 1) b.chars))
                  + (b.cursor - start))
                (start - 1))))
    else history_up b

pub down : InputBuffer → Outcome InputBuffer
down b =
    if is_multiline b.chars
    then (line_end b >>= λ end.
        if end == length b.chars
        then ok (at b b.chars end)
        else (line_start b >>= λ start.
            ok
              (at b b.chars (min (end + 1 + (b.cursor - start)) (newline_from (end + 1) b.chars)))))
    else ok (history_down b)

same_text : List ℕ → List ℕ → Bool
same_text [] [] = true
same_text [] (y ∷ ys) = false
same_text (x ∷ xs) [] = false
same_text (x ∷ xs) (y ∷ ys) = (x == y) && same_text xs ys

last_is : List (List ℕ) → List ℕ → Bool
last_is [] input = false
last_is (e ∷ []) input = same_text e input
last_is (e ∷ f ∷ es) input = last_is (f ∷ es) input

pub push_history : List ℕ → InputBuffer → InputBuffer
push_history input b =
    let history = if last_is b.history input then b.history else b.history ++ input ∷ [] in
    record {
      chars = b.chars;
      cursor = b.cursor;
      history = history;
      history_pos = length history;
      stash = none;
      prefix = none;
      revision = b.revision;
    }

pub reset_history_position : InputBuffer → InputBuffer
reset_history_position b = searching b (length b.history) none none

pub clear : InputBuffer → InputBuffer
clear b = edited b [] 0

-- `take`: the text, and the state with an empty line.
pub take_line : InputBuffer → List ℕ × InputBuffer
take_line b = (b.chars, reset_history_position (clear b))
