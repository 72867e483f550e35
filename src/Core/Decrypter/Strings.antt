-- ===== src/Core/Decrypter/Strings.antt =====
-- core/src/encrypter.rs and core/src/decrypter.rs: the units of a string, packed and read again.
use mathlib.Core.Path.{subst}
use why.Common.{
  ℕ, ◌+◌, ◌*◌, ◌/◌, ◌%◌, ◌^◌, ◌<◌, ◌≡◌, refl, sym, ap, ap₂, ◌∙◌, arith, true, false, List, [], ◌∷◌,
  ◌++◌, length, All, IsWord, bit_or, bit_or-join, ◌==◌, append_assoc, length-append, All-append,
  Bool-cases, inl, inr,
}
use why.Core.Outcome.{ok, err, ◌>>=◌, invalid_unicode, >>=-succeeds, ok-injective}
use why.Core.Encrypter.{terminator, string_units, pack}
use why.Core.Decrypter.{is_char, unpack, read_units}

abbrev pub IsChar : ℕ → Type 0
IsChar c = is_char c ≡ true

abbrev IsUnit : ℕ → Type 0
IsUnit u = u < 2 ^ 32

cell_lem :
    (a b : ℕ)
    → IsUnit a
    → IsUnit b
    → let cell : ℕ = bit_or (a * 2 ^ 32 % 2 ^ 64) b in
      (cell < 2 ^ 64) × (cell / 2 ^ 32 % 2 ^ 32 ≡ a) × (cell % 2 ^ 32 ≡ b)
cell_lem a b pa pb =
    let fits : a * 2 ^ 32 % 2 ^ 64 ≡ a * 2 ^ 32 = omega arith in
    let sum : bit_or (a * 2 ^ 32 % 2 ^ 64) b ≡ a * 2 ^ 32 + b =
      ap (λ t. bit_or t b) fits ∙ bit_or-join 32 a b pb in
    (
      omega (arith, sum),
      ap (λ t. t / 2 ^ 32 % 2 ^ 32) sum ∙ omega arith,
      ap (λ t. t % 2 ^ 32) sum ∙ omega arith,
    )

pack_lem :
    (units : List ℕ)
    → length units % 2 ≡ 0
    → All IsUnit units
    → (cells : List ℕ) × (pack units ≡ ok cells) × All IsWord cells × (unpack cells ≡ units)
unfolding pack unpack
pack_lem [] even v = ([], refl, tt, refl)
pack_lem (a ∷ []) even v = absurd (omega arith)
pack_lem (a ∷ b ∷ units) even v =
    let (cells, packed, words, back) = pack_lem units (omega arith) v.1.1 in
    let (fits, high, low) = cell_lem a b v.0 v.1.0 in
    (
      bit_or (a * 2 ^ 32 % 2 ^ 64) b ∷ cells,
      rw packed refl,
      (fits, words),
      ap₂ ◌∷◌ high (ap₂ ◌∷◌ low back),
    )

char-IsUnit : (c : ℕ) → IsChar c → IsUnit c
char-IsUnit c h = ground arith

chars-IsUnit : (chars : List ℕ) → All IsChar chars → All IsUnit chars
chars-IsUnit [] v = tt
chars-IsUnit (c ∷ cs) v = (char-IsUnit c v.0, chars-IsUnit cs v.1)

-- The units are even in number, and start with the characters and the terminator.
string_units_lem :
    (chars : List ℕ)
    → All IsChar chars
    → (rest : List ℕ) × (string_units chars ≡ chars ++ terminator ∷ rest)
      × (length (string_units chars) % 2 ≡ 0)
      × All IsUnit (string_units chars)
unfolding string_units
string_units_lem chars v =
    let base = chars ++ terminator ∷ [] in
    let units : All IsUnit base =
      All-append IsUnit chars (terminator ∷ []) (chars-IsUnit chars v) (omega arith, tt) in
    let longer = length-append base (0 ∷ []) in
    elim (Bool-cases (length base % 2 == 0)) [
      | inl e ↦ ([], rw e refl, rw e (ground arith), rw e units)
      | inr e ↦
          let odd : length base % 2 ≡ 1 = ground arith in
          (
            0 ∷ [],
            rw e (append_assoc chars (terminator ∷ []) (0 ∷ [])),
            rw e (omega (arith, longer)),
            rw e (All-append IsUnit base (0 ∷ []) units (omega arith, tt)),
          )
    ]

unpack-append : (xs ys : List ℕ) → unpack (xs ++ ys) ≡ unpack xs ++ unpack ys
unfolding unpack
unpack-append [] ys = refl
unpack-append (x ∷ xs) ys = ap (λ l. x / 2 ^ 32 % 2 ^ 32 ∷ x % 2 ^ 32 ∷ l) (unpack-append xs ys)

read_units-terminated :
    (chars rest : List ℕ) → All IsChar chars → read_units (chars ++ terminator ∷ rest) ≡ ok chars
unfolding read_units
read_units-terminated [] rest v = refl
read_units-terminated (c ∷ cs) rest v =
    let plain : (c == terminator) ≡ false = ground (arith, char-IsUnit c v.0) in
    rw (plain, v.0, read_units-terminated cs rest v.1) refl

-- The cells of a string are read back as its characters, whatever cells come after them.
pub string_cells :
    (chars : List ℕ)
    → All IsChar chars
    → (cells : List ℕ) × (pack (string_units chars) ≡ ok cells)
      × All IsWord cells
      × ((more : List ℕ) → read_units (unpack (cells ++ more)) ≡ ok chars)
string_cells chars v =
    let (rest, start, even, units) = string_units_lem chars v in
    let (cells, packed, words, back) = pack_lem (string_units chars) even units in
    (
      cells,
      packed,
      words,
      λ more.
          ap read_units (
            unpack-append cells more
            ∙ ap (λ l. l ++ unpack more) (back ∙ start)
            ∙ append_assoc chars (terminator ∷ rest) (unpack more))
          ∙ read_units-terminated chars (rest ++ unpack more) v,
    )

-- What the loop returns is characters only.
pub read_units-IsChar : (units chars : List ℕ) → read_units units ≡ ok chars → All IsChar chars
unfolding read_units
read_units-IsChar [] chars e = absurd cc
read_units-IsChar (u ∷ us) chars e = elim (Bool-cases (u == terminator)) [
  | inl t ↦
      let stop : ok [] ≡ ok chars = sym (rw t refl) ∙ e in subst (All IsChar) (ok-injective stop) tt
  | inr t ↦ elim (Bool-cases (is_char u)) [
    | inl c ↦
        let step : (read_units us >>= λ rest. ok (u ∷ rest)) ≡ ok chars =
          sym (rw (t, c) refl) ∙ e in
        let (rest, joined, more) = >>=-succeeds (λ rest. ok (u ∷ rest)) (read_units us) step in
        subst (All IsChar) (ok-injective joined) (c, read_units-IsChar us rest more)
    | inr c ↦ absurd (let step : err invalid_unicode ≡ ok chars = sym (rw (t, c) refl) ∙ e in cc)
  ]
]
