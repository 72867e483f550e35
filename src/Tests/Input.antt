-- ===== src/Tests/Input.antt =====
-- chat/src/bin/client/tui/input.rs: the theorems on the input line, on a line with a history.
use why.Common.{◌≡◌, refl, none, [], ◌∷◌}
use why.Core.Outcome.{ok}
use why.Chat.Input.{InputBuffer, history_up, history_down, new}
use why.Chat.Input.Safety.{Safe}
use why.Chat.Input.Operations.{
  typed, pasted, moved_up, moved_word_left, killed_to_end, sent, apply_all, apply_all-Safe,
}
use why.Chat.Input.History.{history_down-history_up}

-- The line "hi" after the lines "hello" and "/quit" were sent.
abbrev line : InputBuffer
line = record {
  chars = 104 ∷ 105 ∷ [];
  cursor = 1;
  history = (104 ∷ 101 ∷ 108 ∷ 108 ∷ 111 ∷ []) ∷ (47 ∷ 113 ∷ 117 ∷ 105 ∷ 116 ∷ []) ∷ [];
  history_pos = 2;
  stash = none;
  prefix = none;
  revision = 9;
}

apply_all-Safe_example : Safe (
    apply_all
      (typed 104
        ∷ sent (104 ∷ [])
        ∷ moved_up
        ∷ pasted (10 ∷ 32 ∷ [])
        ∷ moved_word_left
        ∷ killed_to_end
        ∷ [])
      new)
apply_all-Safe_example = apply_all-Safe (
    typed 104
    ∷ sent (104 ∷ [])
    ∷ moved_up
    ∷ pasted (10 ∷ 32 ∷ [])
    ∷ moved_word_left
    ∷ killed_to_end
    ∷ [])

history_down-history_up_example :
    (b' : InputBuffer) × (history_up line ≡ ok b')
    × ((history_down b').chars ≡ line.chars)
    × ((history_down b').history_pos ≡ line.history_pos)
history_down-history_up_example = history_down-history_up line refl
