-- ===== src/Chat/Network/Text.antt =====
-- chat/src/network/mod.rs: the control characters of typed text, which `receive` strips on the server. A
-- text is the list of its code points.
use why.Common.{
  ℕ, ◌≡◌, refl, sym, ◌∙◌, arith, Bool, true, false, ◌&&◌, ◌||◌, not, ltb, leb, ◌==◌, if◌then◌else◌,
  Bool-cases, inl, inr, Option, none, some, List, [], ◌∷◌, All,
}

-- `char::is_control`: the general category Cc.
unfoldable pub is_control : ℕ → Bool
is_control c = ltb c 32 || (leb 127 c && ltb c 160)

-- What a character becomes: newlines stay, a tab is a space, the other control characters go.
unfoldable pub plain_char : ℕ → Option ℕ
plain_char c =
    if c == 10 then some 10 else if c == 9 then some 32 else if is_control c then none else some c

unfoldable pub keep : Option ℕ → List ℕ → List ℕ
keep none text = text
keep (some c) text = c ∷ text

unfoldable pub filter_map_plain : List ℕ → List ℕ
filter_map_plain [] = []
filter_map_plain (c ∷ text) = keep (plain_char c) (filter_map_plain text)

unfoldable pub any_stripped : List ℕ → Bool
any_stripped [] = false
any_stripped (c ∷ text) = (is_control c && not (c == 10)) || any_stripped text

-- The text is only rebuilt where there is something to strip.
unfoldable pub strip_control : List ℕ → List ℕ
strip_control text = if any_stripped text then filter_map_plain text else text

-- A character that the terminal shows, or a newline.
unfoldable pub IsPlain : ℕ → Type 0
IsPlain c = (is_control c && not (c == 10)) ≡ false

plain_char_plain : (c : ℕ) → IsPlain c → plain_char c ≡ some c
unfolding plain_char is_control IsPlain
plain_char_plain c e = ground arith

plain_char-IsPlain :
    (c : ℕ) (rest : List ℕ) → All IsPlain rest → All IsPlain (keep (plain_char c) rest)
unfolding plain_char keep IsPlain is_control
plain_char-IsPlain c rest v = elim (Bool-cases (c == 10)) [
  | inl newline ↦ rw newline (refl, v)
  | inr other ↦ elim (Bool-cases (c == 9)) [
    | inl tab ↦ rw (other, tab) (refl, v)
    | inr visible ↦ elim (Bool-cases (is_control c)) [
      | inl control ↦ rw (other, visible, control) v
      | inr plain ↦ rw (other, visible, plain) (rw plain refl, v)
    ]
  ]
]

filter_map_plain-IsPlain : (text : List ℕ) → All IsPlain (filter_map_plain text)
unfolding filter_map_plain
filter_map_plain-IsPlain [] = tt
filter_map_plain-IsPlain (c ∷ text) =
    plain_char-IsPlain c (filter_map_plain text) (filter_map_plain-IsPlain text)

any_stripped-IsPlain : (text : List ℕ) → any_stripped text ≡ false → All IsPlain text
unfolding any_stripped IsPlain
any_stripped-IsPlain [] e = tt
any_stripped-IsPlain (c ∷ text) e = elim (Bool-cases (is_control c && not (c == 10))) [
  | inl bad ↦ absurd (let t : true ≡ false = sym (rw bad refl) ∙ e in cc)
  | inr good ↦ (good, any_stripped-IsPlain text (sym (rw good refl) ∙ e))
]

filter_map_plain_plain : (text : List ℕ) → All IsPlain text → filter_map_plain text ≡ text
unfolding filter_map_plain keep
filter_map_plain_plain [] v = refl
filter_map_plain_plain (c ∷ text) v =
    rw (plain_char_plain c v.0, filter_map_plain_plain text v.1) refl

strip_control-filter : (text : List ℕ) → strip_control text ≡ filter_map_plain text
unfolding strip_control
strip_control-filter text = elim (Bool-cases (any_stripped text)) [
  | inl some_bad ↦ rw some_bad refl
  | inr all_good ↦
      rw all_good (sym (filter_map_plain_plain text (any_stripped-IsPlain text all_good)))
]

strip_control-IsPlain : (text : List ℕ) → All IsPlain (strip_control text)
strip_control-IsPlain text = rw (strip_control-filter text) (filter_map_plain-IsPlain text)

-- The test before the loop changes nothing: what is stripped is the text without its control
-- characters, of which only newlines are left, and a text that has no others is kept as it is.
pub strip_control_lem :
    (text : List ℕ)
    → (strip_control text ≡ filter_map_plain text)
      × All IsPlain (strip_control text)
      × (strip_control (strip_control text) ≡ strip_control text)
strip_control_lem text = (
  strip_control-filter text,
  strip_control-IsPlain text,
  strip_control-filter (strip_control text)
      ∙ filter_map_plain_plain (strip_control text) (strip_control-IsPlain text),
)
