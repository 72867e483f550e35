-- ===== src/Tests/Codecs.antt =====
-- Encoders of packets as concrete functions, for the theorems that take one.
use why.Common.{
  ℕ, ◌^◌, ◌<◌, ◌≡◌, refl, sym, ap, ap₂, ◌∙◌, arith, Bool, true, false, ◌&&◌, ltb, ◌==◌, ==_iff,
  if◌then◌else◌, Bool-cases, inl, inr, Option, none, some, List, [], ◌∷◌, ◌++◌, take, All, IsByte,
  take-append, to_be_bytes, from_be_bytes, length-to_be_bytes, to_be_bytes-IsByte,
  from_be_bytes-to_be_bytes,
}
use why.Core.Auth.{same_bytes}
use why.Core.Auth.Packets.{same_bytes_refl, same_bytes-eq}
use why.Chat.Network.{Codec, SequencedPacket}
use why.Chat.Files.{chunk, metadata, FilePacketCode, FilePacket}

-- A number below 2 ^ 64, in eight bytes.
unfoldable pub number_bytes : Bool → ℕ → Option (List ℕ)
number_bytes known n = if known && ltb n (2 ^ 64) then some (to_be_bytes n) else none

unfoldable pub number_read : List ℕ → ℕ
number_read bytes = from_be_bytes (take 8 bytes)

pub number_bytes-known :
    (known : Bool) (n : ℕ) (bytes : List ℕ)
    → number_bytes known n ≡ some bytes
    → (known ≡ true) × (n < 2 ^ 64) × (to_be_bytes n ≡ bytes)
unfolding number_bytes
number_bytes-known false n bytes e = absurd cc
number_bytes-known true n bytes e = elim (Bool-cases (ltb n (2 ^ 64))) [
  | inl small ↦
      let both : some (to_be_bytes n) ≡ some bytes = sym (rw small refl) ∙ e in
      (refl, ground arith, cc)
  | inr large ↦ absurd (let refused : none ≡ some bytes = sym (rw large refl) ∙ e in cc)
]

pub number_bytes-IsByte :
    (known : Bool) (n : ℕ) (bytes : List ℕ) → number_bytes known n ≡ some bytes → All IsByte bytes
number_bytes-IsByte known n bytes e =
    let parts = number_bytes-known known n bytes e in rw parts.2 at (to_be_bytes-IsByte n)

pub number_read-number_bytes :
    (known : Bool) (n : ℕ) (bytes after : List ℕ)
    → number_bytes known n ≡ some bytes
    → number_read (bytes ++ after) ≡ n
unfolding number_read
number_read-number_bytes known n bytes after e =
    let parts = number_bytes-known known n bytes e in
    ap (λ l. from_be_bytes (take 8 (l ++ after))) (sym parts.2)
    ∙ ap from_be_bytes (take-append 8 (to_be_bytes n) after (length-to_be_bytes n))
    ∙ from_be_bytes-to_be_bytes n parts.1

-- Packets that are their own numbers.
abbrev pub numbers : SequencedPacket ℕ
numbers = record { seq = λ p. p; set_seq = λ p seq. seq }

pub number_codec : Codec ℕ
number_codec = record {
  serialize = λ p. number_bytes true p;
  deserialize = λ bytes. some (number_read bytes);
  serialize-IsByte = λ p bytes e. number_bytes-IsByte true p bytes e;
  deserialize-serialize =
      λ p bytes after e. ap some (number_read-number_bytes true p bytes after e);
}

pub number_codec-serialize : (n : ℕ) → n < 2 ^ 64 → number_codec.serialize n ≡ some (to_be_bytes n)
unfolding number_codec number_bytes
number_codec-serialize n p = let small : ltb n (2 ^ 64) ≡ true = ground arith in rw small refl

abbrev pub greeting : List ℕ
greeting = 104 ∷ 101 ∷ 108 ∷ 108 ∷ 111 ∷ []

is_greeting : FilePacketCode → Bool
is_greeting (chunk bytes) = same_bytes bytes greeting
is_greeting (metadata size filename hash) = false

is_greeting-eq : (code : FilePacketCode) → is_greeting code ≡ true → code ≡ chunk greeting
unfolding is_greeting
is_greeting-eq (chunk bytes) e = ap chunk (same_bytes-eq bytes greeting e)
is_greeting-eq (metadata size filename hash) e = absurd cc

-- The packets of one greeting, by their numbers; no other packet is encoded.
known_greeting : FilePacket → Bool
known_greeting p = p.uid == 7 && is_greeting p.code

numbered_greeting : ℕ → FilePacket
numbered_greeting seq = record { uid = 7; code = chunk greeting; seq = seq }

known_greeting-eq : (p : FilePacket) → known_greeting p ≡ true → numbered_greeting p.seq ≡ p
unfolding known_greeting numbered_greeting
known_greeting-eq p e = elim (Bool-cases (p.uid == 7)) [
  | inl seven ↦
      let code : is_greeting p.code ≡ true = sym (rw seven refl) ∙ e in
      ap₂ (λ (u : ℕ) c. record { uid = u; code = c; seq = p.seq }) (sym ((==_iff p.uid 7).0 seven))
        (sym (is_greeting-eq p.code code))
  | inr other ↦ absurd (let unknown : false ≡ true = sym (rw other refl) ∙ e in cc)
]

pub greeting_codec : Codec FilePacket
greeting_codec = record {
  serialize = λ p. number_bytes (known_greeting p) p.seq;
  deserialize = λ bytes. some (numbered_greeting (number_read bytes));
  serialize-IsByte = λ p bytes e. number_bytes-IsByte (known_greeting p) p.seq bytes e;
  deserialize-serialize = λ p bytes after e.
      ap (λ seq. some (numbered_greeting seq))
        (number_read-number_bytes (known_greeting p) p.seq bytes after e)
      ∙ ap some (known_greeting-eq p (number_bytes-known (known_greeting p) p.seq bytes e).0);
}

pub greeting_codec-serialize :
    (seq : ℕ)
    → seq < 2 ^ 64
    → greeting_codec.serialize (record { uid = 7; code = chunk greeting; seq = seq })
      ≡ some (to_be_bytes seq)
unfolding greeting_codec number_bytes known_greeting is_greeting
greeting_codec-serialize seq p =
    let small : ltb seq (2 ^ 64) ≡ true = ground arith in rw (small, same_bytes_refl greeting) refl
