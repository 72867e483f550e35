-- ===== src/Core/Auth/Packets.antt =====
-- core/src/auth.rs: what the tag accepts, and the packet on the wire.
use why.Common.{
  ℕ, ◌+◌, ◌-◌, ◌*◌, ◌%◌, ◌^◌, ◌≤◌, ◌<◌, ◌≡◌, ◌≢◌, ◌↔◌, refl, sym, ap, ap₂, ◌∙◌, arith, Bool, true,
  false, ◌==◌, ltb, ==_iff, Bool-cases, inl, inr, Option, none, some, List, [], ◌∷◌, ◌++◌, length,
  drop, replicate, All, IsWord, length-append, take-append, drop-append, length-drop,
}
use why.Core.Outcome.{ok, err, invalid_byte_length}
use why.Core.Grid.{Grid, IsGrid, valid_dimensions}
use why.Core.Grid.Build.{area_pos}
use why.Core.Grid.Bytes.{grid_bytes, grids_bytes, length-grid_bytes, length-grids_bytes}
use why.Core.Grid.Read.{from_bytes-grids_bytes, from_bytes-length}
use why.Core.Types.{EncryptedData, DecryptedData}
use why.Core.Crypto.{Primitives}
use why.Core.Encrypter.{encrypt}
use why.Core.Decrypter.{decrypt}
use why.Core.Decrypter.RoundTrip.{decrypt-encrypt}
use why.Core.Auth.{
  Mac, AuthenticatedData, AuthenticatedPacket, same_bytes, compute_mac, authenticate, verify_data,
  verify, open_packet, to_bytes, packet_of, try_from,
}

pub same_bytes_refl : (xs : List ℕ) → same_bytes xs xs ≡ true
unfolding same_bytes
same_bytes_refl [] = refl
same_bytes_refl (x ∷ xs) = rw ((==_iff x x).1 refl) (same_bytes_refl xs)

pub same_bytes-eq : (xs ys : List ℕ) → same_bytes xs ys ≡ true → xs ≡ ys
unfolding same_bytes
same_bytes-eq [] [] e = refl
same_bytes-eq [] (y ∷ ys) e = absurd cc
same_bytes-eq (x ∷ xs) [] e = absurd cc
same_bytes-eq (x ∷ xs) (y ∷ ys) e = elim (Bool-cases (x == y)) [
  | inl s ↦ ap₂ ◌∷◌ ((==_iff x y).0 s) (same_bytes-eq xs ys (sym (rw s refl) ∙ e))
  | inr s ↦ absurd (let none : false ≡ true = sym (rw s refl) ∙ e in cc)
]

module _ (m : Mac) where
  -- What is authenticated verifies under the same key.
  verify_data-authenticate :
      (d : EncryptedData) (mac_key : List ℕ)
      → verify_data m (authenticate m d mac_key) mac_key ≡ true
  unfolding verify_data authenticate
  verify_data-authenticate d mac_key = same_bytes_refl (compute_mac m d.nonce d.output mac_key)

  -- A packet opens exactly when its tag is the one of its nonce and grids under the key, and then it
  -- opens to these, with the cipher key that is given.
  pub open_packet_iff :
      (p : AuthenticatedPacket) (mac_key : List ℕ) (key : Grid)
      → (open_packet m p mac_key key
          ≡ some (record { output = p.output; key = key; nonce = p.nonce }))
        ↔ (m.hmac mac_key (grid_bytes p.nonce ++ grids_bytes p.output) ≡ p.mac)
  unfolding open_packet verify compute_mac
  open_packet_iff p mac_key key = (
    λ e. elim (Bool-cases (verify m p mac_key)) [
      | inl v ↦ same_bytes-eq (m.hmac mac_key (grid_bytes p.nonce ++ grids_bytes p.output)) p.mac v
      | inr v ↦ absurd (let refused : none ≡ some _ = sym (rw v refl) ∙ e in cc)
    ],
    λ e. rw e (rw (same_bytes_refl p.mac) refl),
  )

  -- A packet whose tag is another one is refused.
  pub open_packet_tampered :
      (p : AuthenticatedPacket) (mac_key : List ℕ) (key : Grid)
      → m.hmac mac_key (grid_bytes p.nonce ++ grids_bytes p.output) ≢ p.mac
      → open_packet m p mac_key key ≡ none
  unfolding open_packet verify compute_mac
  open_packet_tampered p mac_key key ne = elim (Bool-cases (verify m p mac_key)) [
    | inl v ↦
        absurd
          (ne (same_bytes-eq (m.hmac mac_key (grid_bytes p.nonce ++ grids_bytes p.output)) p.mac v))
    | inr v ↦ rw v refl
  ]

module _ (w h : ℕ) (valid : valid_dimensions w h ≡ true) where
  -- For valid dimensions, the bytes of authenticated data with a tag of 32 bytes and with a nonce
  -- and grids of these dimensions are read back as its tag, nonce and grids.
  pub try_from-to_bytes :
      (a : AuthenticatedData)
      → length a.mac ≡ 32
      → IsGrid w h a.encrypted_data.nonce
      → All (IsGrid w h) a.encrypted_data.output
      → try_from w h (to_bytes a)
        ≡ ok (record {
          mac = a.mac;
          nonce = a.encrypted_data.nonce;
          output = a.encrypted_data.output;
        })
  unfolding try_from to_bytes packet_of grids_bytes
  try_from-to_bytes a len vn vo =
      let nonce = a.encrypted_data.nonce in
      let output = a.encrypted_data.output in
      let content = grid_bytes nonce ++ grids_bytes output in
      let size : length (a.mac ++ content) ≡ 32 + length content =
        length-append a.mac content ∙ ap (λ (k : ℕ). k + length content) len in
      let enough : w * h * 8 ≤ length content = omega (
        arith,
        length-append (grid_bytes nonce) (grids_bytes output),
        length-grid_bytes w h nonce vn,
      ) in
      let long : ltb (length (a.mac ++ content)) (32 + w * h * 8) ≡ false = ground arith in
      rw
        (
          long,
          take-append 32 a.mac content len,
          drop-append 32 a.mac content len,
          from_bytes-grids_bytes w h valid (nonce ∷ output) (vn, vo),
        )
        refl

  -- Bytes that are too short for a tag and a nonce are refused, with the size of a grid and their
  -- length.
  try_from_short :
      (bytes : List ℕ)
      → length bytes < 32 + w * h * 8
      → try_from w h bytes ≡ err (invalid_byte_length (w * h * 8) (length bytes))
  unfolding try_from
  try_from_short bytes p =
      let short : ltb (length bytes) (32 + w * h * 8) ≡ true = ground arith in rw short refl

  -- Bytes that do not hold a whole number of grids after the tag are refused, with the size of a grid
  -- and the length after the tag.
  pub try_from-length :
      (bytes : List ℕ)
      → 32 + w * h * 8 ≤ length bytes
      → (length bytes - 32) % (w * h * 8) ≢ 0
      → try_from w h bytes ≡ err (invalid_byte_length (w * h * 8) (length bytes - 32))
  unfolding try_from
  try_from-length bytes p ne =
      let long : ltb (length bytes) (32 + w * h * 8) ≡ false = ground arith in
      let pos : 0 < w * h = omega (arith, area_pos w h valid) in
      let left = length-drop 32 bytes in
      let ne' : length (drop 32 bytes) % (w * h * 8) ≢ 0 =
        λ e. ne (ap (λ k. k % (w * h * 8)) (sym left) ∙ e) in
      rw (long, from_bytes-length w h (drop 32 bytes) pos ne', left) refl

  -- From the sender's input to the receiver's output: for valid dimensions with fewer than 2 ^ 64
  -- cells, 64-bit input and a key of 64-bit words of the right length, what is encrypted,
  -- authenticated and put into bytes is read, opened with the same two keys and decrypted to the
  -- input, followed by the zeros that fill the last grid. The packet has 32 bytes and one grid more
  -- than what it decrypts to.
  pub decrypt-open_packet :
      (prims : Primitives) (m : Mac) (avx2 : Bool) (key_seed : Option (List ℕ))
      (seed input key mac_key : List ℕ)
      → h * w < 2 ^ 64
      → All IsWord input
      → All IsWord key
      → length key ≡ w * h * 2
      → (sealed opened : EncryptedData) × (p : AuthenticatedPacket) × (out : DecryptedData)
        × (pad : ℕ) × (encrypt prims avx2 w h key_seed (some seed) input (some key) ≡ ok sealed)
        × (try_from w h (to_bytes (authenticate m sealed mac_key)) ≡ ok p)
        × (open_packet m p mac_key sealed.key ≡ some opened)
        × (decrypt prims avx2 w h opened ≡ ok out)
        × (out.output ≡ input ++ replicate pad 0)
        × (pad < w * h)
        × (length (to_bytes (authenticate m sealed mac_key))
            ≡ 32 + (w * h * 8 + (length input + pad) * 8))
  unfolding authenticate compute_mac to_bytes
  decrypt-open_packet prims m avx2 key_seed seed input key mac_key fits vi vk len =
      let (sealed, out, pad, forth, back, flat, small, whole, vn, vo) =
        decrypt-encrypt prims avx2 w h valid fits key_seed seed input key vi vk len in
      let content = grid_bytes sealed.nonce ++ grids_bytes sealed.output in
      let p : AuthenticatedPacket = record {
        mac = compute_mac m sealed.nonce sealed.output mac_key;
        nonce = sealed.nonce;
        output = sealed.output;
      } in
      (
        sealed,
        record { output = sealed.output; key = sealed.key; nonce = sealed.nonce },
        p,
        out,
        pad,
        forth,
        try_from-to_bytes (authenticate m sealed mac_key)
            (m.length-hmac mac_key (grid_bytes sealed.nonce ++ grids_bytes sealed.output)) vn vo,
        (open_packet_iff m p mac_key sealed.key).1 refl,
        back,
        flat,
        small,
        length-append (m.hmac mac_key content) content
            ∙ ap₂ ◌+◌ (m.length-hmac mac_key content) (
                length-append (grid_bytes sealed.nonce) (grids_bytes sealed.output)
                ∙ ap₂ ◌+◌ (length-grid_bytes w h sealed.nonce vn)
                    (length-grids_bytes w h sealed.output vo ∙ grind (arith, whole))),
      )
