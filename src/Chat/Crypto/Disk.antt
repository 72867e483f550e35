-- ===== src/Chat/Crypto/Disk.antt =====
-- chat/src/crypto/mod.rs: files at rest. The master keys of chat/src/crypto/kex.rs are arguments, and
-- a fingerprint is the list of its bytes.
use why.Common.{
  ℕ, ◌-◌, ◌*◌, ◌≡◌, ◌↔◌, inl, inr, refl, sym, ap, ◌∙◌, arith, false, ltb, if◌then◌else◌, Bool-cases,
  Option, none, some, List, [], ◌∷◌, ◌++◌, length, take, drop, All, IsWord, length-append,
  take-append, drop-append, take-append-drop, to_be_bytes,
}
use why.Core.Outcome.{Outcome, ok, ◌>>=◌}
use why.Core.Consts.{default_grid_width, default_grid_height}
use why.Core.Auth.{Mac, same_bytes}
use why.Core.Auth.Packets.{same_bytes_refl, same_bytes-eq}
use why.Chat.Crypto.{Hkdf, SharedKeys, expect, exact_cells}
use why.Chat.Crypto.Bytes.{exact_cells_lem}

abbrev pub disk_tag_size : ℕ
disk_tag_size = 32

-- The grid's key, the nonce and the key of the tag.
abbrev pub DiskKeys : Type 0
DiskKeys = List ℕ × List ℕ × List ℕ

-- `WHY2-IMAGE-KEY`, `WHY2-IMAGE-NONCE` and `WHY2-DISK-MAC`
abbrev image_key_label : List ℕ
image_key_label = 87 ∷ 72 ∷ 89 ∷ 50 ∷ 45 ∷ 73 ∷ 77 ∷ 65 ∷ 71 ∷ 69 ∷ 45 ∷ 75 ∷ 69 ∷ 89 ∷ []

abbrev image_nonce_label : List ℕ
image_nonce_label =
    87 ∷ 72 ∷ 89 ∷ 50 ∷ 45 ∷ 73 ∷ 77 ∷ 65 ∷ 71 ∷ 69 ∷ 45 ∷ 78 ∷ 79 ∷ 78 ∷ 67 ∷ 69 ∷ []

abbrev disk_mac_label : List ℕ
disk_mac_label = 87 ∷ 72 ∷ 89 ∷ 50 ∷ 45 ∷ 68 ∷ 73 ∷ 83 ∷ 75 ∷ 45 ∷ 77 ∷ 65 ∷ 67 ∷ []

-- `WHY2-HISTORY-KEY` and `WHY2-HISTORY-MAC`
abbrev history_key_label : List ℕ
history_key_label =
    87 ∷ 72 ∷ 89 ∷ 50 ∷ 45 ∷ 72 ∷ 73 ∷ 83 ∷ 84 ∷ 79 ∷ 82 ∷ 89 ∷ 45 ∷ 75 ∷ 69 ∷ 89 ∷ []

abbrev history_mac_label : List ℕ
history_mac_label =
    87 ∷ 72 ∷ 89 ∷ 50 ∷ 45 ∷ 72 ∷ 73 ∷ 83 ∷ 84 ∷ 79 ∷ 82 ∷ 89 ∷ 45 ∷ 77 ∷ 65 ∷ 67 ∷ []

abbrev pub key_len : ℕ
key_len = default_grid_width * default_grid_height * 2

abbrev pub nonce_len : ℕ
nonce_len = default_grid_width * default_grid_height

module _ (kdf : Hkdf) where
  pub disk_keys : List ℕ → List ℕ → Outcome DiskKeys
  disk_keys salt ikm = do
    key_bytes ← expect (kdf.expand (some salt) ikm image_key_label (key_len * 8))
    nonce_bytes ← expect (kdf.expand (some salt) ikm image_nonce_label (nonce_len * 8))
    mac_bytes ← expect (kdf.expand (some salt) ikm disk_mac_label 32)
    ok (exact_cells key_bytes, exact_cells nonce_bytes, mac_bytes)

  unfoldable pub image_keys : List ℕ → List ℕ → Outcome DiskKeys
  image_keys image_key hash = disk_keys hash image_key

  unfoldable pub cache_keys : List ℕ → List ℕ → List ℕ → Outcome DiskKeys
  cache_keys cache_key fingerprint hash = disk_keys (fingerprint ++ hash) cache_key

  pub history_keys : List ℕ → Outcome SharedKeys
  history_keys history_key = do
    key_bytes ← expect (kdf.expand none history_key history_key_label (key_len * 8))
    mac_key ← expect (kdf.expand none history_key history_mac_label 32)
    ok (exact_cells key_bytes, mac_key)

  -- Every file has keys: a grid's key, a grid's nonce and 32 bytes for the tag, whatever salt and
  -- master key.
  pub disk_keys_lem :
      (salt ikm : List ℕ)
      → (key nonce mac_key : List ℕ) × (disk_keys salt ikm ≡ ok (key, nonce, mac_key))
        × (length key ≡ key_len)
        × All IsWord key
        × (length nonce ≡ nonce_len)
        × All IsWord nonce
        × (length mac_key ≡ 32)
  unfolding disk_keys expect
  disk_keys_lem salt ikm =
      let (kb, k_made, k_size, k_bytes) =
        kdf.expand-fills (some salt) ikm image_key_label (key_len * 8) (omega arith) in
      let (nb, n_made, n_size, n_bytes) =
        kdf.expand-fills (some salt) ikm image_nonce_label (nonce_len * 8) (omega arith) in
      let (mb, m_made, m_size, m_bytes) =
        kdf.expand-fills (some salt) ikm disk_mac_label 32 (omega arith) in
      let k = exact_cells_lem key_len kb k_bytes k_size in
      let n = exact_cells_lem nonce_len nb n_bytes n_size in
      (
        exact_cells kb,
        exact_cells nb,
        mb,
        rw (k_made, n_made, m_made) refl,
        k.0,
        k.1,
        n.0,
        n.1,
        m_size,
      )

module _ (m : Mac) where
  -- `disk_mac` opens a tag, and what is fed to it is the message: the ciphertext, in one piece or as it
  -- is written, and its length.
  unfoldable pub disk_tag : List ℕ → List ℕ → ℕ → List ℕ
  disk_tag mac_key fed size = m.hmac mac_key (fed ++ to_be_bytes size)

  unfoldable pub disk_seal : List ℕ → List ℕ → List ℕ
  disk_seal mac_key ciphertext = disk_tag mac_key ciphertext (length ciphertext)

  pub disk_open : List ℕ → List ℕ → Option (List ℕ)
  disk_open mac_key sealed =
      let split : ℕ = length sealed - disk_tag_size in
      let ciphertext = take split sealed in
      if ltb (length sealed) disk_tag_size
      then none
      else if same_bytes (m.hmac mac_key (ciphertext ++ to_be_bytes (length ciphertext)))
          (drop split sealed)
      then some ciphertext
      else none

  pub length-disk_seal : (mac_key ciphertext : List ℕ) → length (disk_seal mac_key ciphertext) ≡ 32
  unfolding disk_seal disk_tag
  length-disk_seal mac_key ciphertext =
      m.length-hmac mac_key (ciphertext ++ to_be_bytes (length ciphertext))

  disk_open-succeeds :
      (mac_key sealed ciphertext : List ℕ)
      → disk_open mac_key sealed ≡ some ciphertext
      → sealed ≡ ciphertext ++ disk_seal mac_key ciphertext
  unfolding disk_open disk_seal disk_tag
  disk_open-succeeds mac_key sealed ciphertext e =
      let found = take (length sealed - 32) sealed in
      let tag = drop (length sealed - 32) sealed in
      let own = disk_seal mac_key found in
      elim (Bool-cases (ltb (length sealed) 32)) [
        | inl short ↦ let refused : disk_open mac_key sealed ≡ none = rw short refl in absurd cc
        | inr long ↦ elim (Bool-cases (same_bytes own tag)) [
          | inl same ↦
              let taken : disk_open mac_key sealed ≡ some found = rw (long, same) refl in
              let this : found ≡ ciphertext = cc in
              sym (take-append-drop (length sealed - 32) sealed)
              ∙ ap (λ l. found ++ l) (sym (same_bytes-eq own tag same))
              ∙ ap (λ l. l ++ disk_seal mac_key l) this
          | inr other ↦
              let refused : disk_open mac_key sealed ≡ none = rw (long, other) refl in absurd cc
        ]
      ]

  disk_open-disk_seal :
      (mac_key ciphertext : List ℕ)
      → disk_open mac_key (ciphertext ++ disk_seal mac_key ciphertext) ≡ some ciphertext
  unfolding disk_open disk_seal disk_tag
  disk_open-disk_seal mac_key ciphertext =
      let tag = disk_seal mac_key ciphertext in
      let size = length-disk_seal mac_key ciphertext in
      let total = length-append ciphertext tag in
      let long : ltb (length (ciphertext ++ tag)) 32 ≡ false = ground arith in
      let split : length (ciphertext ++ tag) - 32 ≡ length ciphertext = omega arith in
      rw
        (
          long,
          split,
          take-append (length ciphertext) ciphertext tag refl,
          drop-append (length ciphertext) ciphertext tag refl,
          same_bytes_refl tag,
        )
        refl

  -- A file opens to a ciphertext exactly when it is this ciphertext followed by its own tag under the
  -- key: nothing else is accepted, and what was sealed is.
  pub disk_open_iff :
      (mac_key sealed ciphertext : List ℕ)
      → (disk_open mac_key sealed ≡ some ciphertext)
        ↔ (sealed ≡ ciphertext ++ disk_seal mac_key ciphertext)
  disk_open_iff mac_key sealed ciphertext = (
    disk_open-succeeds mac_key sealed ciphertext,
    λ e. ap (disk_open mac_key) e ∙ disk_open-disk_seal mac_key ciphertext,
  )
