-- ===== src/Chat/Network/Wire.antt =====
-- chat/src/network/mod.rs: what is written on a socket is what is read from it.
use why.Common.{
  ℕ, suc, ◌+◌, ◌-◌, ◌%◌, ◌^◌, ◌≤◌, ◌<◌, ◌≡◌, refl, ap, ap₂, ◌∙◌, arith, Bool, true, false, ltb, leb,
  if◌then◌else◌, none, some, List, [], ◌∷◌, ◌++◌, length, take, get_or, bit_xor_cancel,
  length-append, length-take, take-append, take_past, Bool-cases, inl, inr, drop-append,
  append_assoc, be_bytes, length-be_bytes, from_be_bytes-be_bytes_4,
}
use why.Core.Outcome.{Outcome, ok}
use why.Core.Crypto.{Primitives}
use why.Core.Auth.{Mac}
use why.Chat.Crypto.{Hkdf}
use why.Chat.Network.{
  EncryptionMode, obfuscate_from, obfuscate_data, transmission_packet, read_exact, ReadEnd, closed,
  over_limit, unprotect, read_rest, read_len, read_tcp,
}

obfuscate_from_twice :
    (i : ℕ) (bytes key : List ℕ) → obfuscate_from i (obfuscate_from i bytes key) key ≡ bytes
unfolding obfuscate_from
obfuscate_from_twice i [] key = refl
obfuscate_from_twice i (byte ∷ rest) key =
    ap₂ ◌∷◌ (bit_xor_cancel byte (get_or key (i % length key) 0))
      (obfuscate_from_twice (suc i) rest key)

-- Obfuscating twice with the same key gives the bytes back.
pub obfuscate_data_twice :
    (bytes key : List ℕ) → obfuscate_data (obfuscate_data bytes key) key ≡ bytes
unfolding obfuscate_data
obfuscate_data_twice bytes key = obfuscate_from_twice 0 bytes key

length-obfuscate_from :
    (i : ℕ) (bytes key : List ℕ) → length (obfuscate_from i bytes key) ≡ length bytes
unfolding obfuscate_from
length-obfuscate_from i [] key = refl
length-obfuscate_from i (byte ∷ rest) key = ap suc (length-obfuscate_from (suc i) rest key)

pub length-obfuscate_data : (bytes key : List ℕ) → length (obfuscate_data bytes key) ≡ length bytes
unfolding obfuscate_data
length-obfuscate_data bytes key = length-obfuscate_from 0 bytes key

read_exact-append :
    (n : ℕ) (xs ys : List ℕ) → length xs ≡ n → read_exact n (xs ++ ys) ≡ some (xs, ys)
unfolding read_exact
read_exact-append n xs ys e =
    let enough : leb n (length (xs ++ ys)) ≡ true = ground (arith, length-append xs ys) in
    rw (enough, take-append n xs ys e, drop-append n xs ys e) refl

read_exact_short : (n : ℕ) (xs : List ℕ) → length xs < n → read_exact n xs ≡ none
unfolding read_exact
read_exact_short n xs p = let few : leb n (length xs) ≡ false = ground arith in rw few refl

module _ (prims : Primitives) (m : Mac) (kdf : Hkdf) (avx2 : Bool) (max_packet_size : ℕ)
    (obfuscation_key : List ℕ) (mode : EncryptionMode) where
  abbrev read : List ℕ → Outcome ReadEnd
  read input = read_tcp prims m kdf avx2 max_packet_size obfuscation_key mode input

  read_len_lem :
      (n : ℕ) (input : List ℕ)
      → n < 2 ^ 32
      → read (be_bytes 4 n ++ input) ≡ (
          if ltb max_packet_size n
          then ok over_limit
          else read_rest prims m kdf avx2 obfuscation_key mode (read_exact n input))
  unfolding read_tcp read_len
  read_len_lem n input p =
      rw
        (
          read_exact-append 4 (be_bytes 4 n) input (length-be_bytes 4 n),
          from_be_bytes-be_bytes_4 n p,
        )
        refl

  -- A packet of at most the limit is read whole, and what follows it is left for the next read.
  pub read_tcp-transmission_packet :
      (bytes rest : List ℕ)
      → length bytes ≤ max_packet_size
      → length bytes < 2 ^ 32
      → read (transmission_packet bytes ++ rest)
        ≡ unprotect prims m kdf avx2 obfuscation_key mode bytes rest
  unfolding transmission_packet read_rest
  read_tcp-transmission_packet bytes rest p q =
      let n = length bytes in
      let whole : n % 2 ^ 32 ≡ n = omega arith in
      let within : ltb max_packet_size n ≡ false = ground arith in
      ap (λ (k : ℕ). read ((be_bytes 4 k ++ bytes) ++ rest)) whole
      ∙ ap read (append_assoc (be_bytes 4 n) bytes rest)
      ∙ read_len_lem n (bytes ++ rest) q
      ∙ rw (within, read_exact-append n bytes rest refl) refl

  -- Whatever is announced above the limit is refused before any of it is read.
  pub read_tcp_over_limit :
      (n : ℕ) (input : List ℕ)
      → n < 2 ^ 32
      → max_packet_size < n
      → read (be_bytes 4 n ++ input) ≡ ok over_limit
  read_tcp_over_limit n input q p =
      let above : ltb max_packet_size n ≡ true = ground arith in
      read_len_lem n input q ∙ rw above refl

  read_tcp_cut_length : (input : List ℕ) → length input < 4 → read input ≡ ok closed
  unfolding read_tcp read_len
  read_tcp_cut_length input p = rw (read_exact_short 4 input p) refl

  -- A socket that closes inside a packet of at most the limit, be it in its length or in its bytes,
  -- ends the read: no part of the packet is taken for it.
  pub read_tcp_cut :
      (bytes : List ℕ) (k : ℕ)
      → length bytes ≤ max_packet_size
      → length bytes < 2 ^ 32
      → k < length (transmission_packet bytes)
      → read (take k (transmission_packet bytes)) ≡ ok closed
  unfolding transmission_packet read_rest
  read_tcp_cut bytes k p q cut =
      let n = length bytes in
      let header = be_bytes 4 n in
      let size : length header ≡ 4 = length-be_bytes 4 n in
      let whole : n % 2 ^ 32 ≡ n = omega arith in
      let within : ltb max_packet_size n ≡ false = ground arith in
      ap (λ (j : ℕ). read (take k (be_bytes 4 j ++ bytes))) whole ∙ elim (Bool-cases (ltb k 4)) [
        | inl few ↦
            let short : k < 4 = ground arith in
            read_tcp_cut_length (take k (header ++ bytes))
              (omega (arith, length-take k (header ++ bytes)))
        | inr many ↦
            let long : 4 ≤ k = ground arith in
            let left : k - 4 < n = omega (
              arith,
              cut,
              length-append (be_bytes 4 (n % 2 ^ 32)) bytes,
              length-be_bytes 4 (n % 2 ^ 32),
            ) in
            ap read (
              ap (λ (j : ℕ). take j (header ++ bytes)) {x = k} {y = 4 + (k - 4)} (omega arith)
              ∙ take_past 4 (k - 4) header bytes size)
            ∙ read_len_lem n (take (k - 4) bytes) q
            ∙ rw
                (
                  within,
                  read_exact_short n (take (k - 4) bytes)
                      (omega (arith, length-take (k - 4) bytes)),
                )
                refl
      ]
