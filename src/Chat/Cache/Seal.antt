-- ===== src/Chat/Cache/Seal.antt =====
-- chat/src/cache.rs: a picture that was stored is loaded again, and a file that was changed is not.
use why.Common.{
  ℕ, ◌+◌, ◌≤◌, ◌≡◌, ◌≢◌, ◌⊎◌, refl, sym, ap, ◌∙◌, arith, Bool, true, false, leb, Bool-cases,
  Option-cases, inl, inr, none, some, List, [], ◌∷◌, ◌++◌, length, All, IsByte, IsWord,
  length-append,
}
use why.Core.Outcome.{ok}
use why.Core.Consts.{default_grid_width, default_grid_height}
use why.Core.Grid.Keys.{from_key_lem}
use why.Core.Grid.Build.{from_flat_lem}
use why.Core.Crypto.{Primitives}
use why.Core.Auth.{Mac, same_bytes}
use why.Core.Auth.Packets.{same_bytes_refl, same_bytes-eq}
use why.Core.Stream.Positions.{key_at}
use why.Core.Stream.Sessions.{start_lem}
use why.Chat.Crypto.{Hkdf, attempt}
use why.Chat.Crypto.Pass.{
  pass_lem, mask_bytes, mask_bytes_twice, mask_bytes-IsByte, length-mask_bytes,
}
use why.Chat.Crypto.Disk.{
  DiskKeys, key_len, cache_keys, disk_keys_lem, disk_seal, disk_open, disk_open_iff,
  length-disk_seal,
}
use why.Chat.Cache.{
  max_image_cache, CachedFile, through_disk, tagged, seal_with, find_file, remove_name, remove_file,
  touch, total_size, evict, store_sealed, seal, store_missing, store, load_file, load_found, load,
}

find_file_first : (f : CachedFile) (files : List CachedFile) → find_file f.name (f ∷ files) ≡ some f
unfolding find_file
find_file_first f files = rw (same_bytes_refl f.name) refl

find_file-name :
    (hash : List ℕ) (files : List CachedFile) (f : CachedFile)
    → find_file hash files ≡ some f
    → f.name ≡ hash
unfolding find_file
find_file-name hash [] f e = absurd cc
find_file-name hash (g ∷ files) f e = elim (Bool-cases (same_bytes g.name hash)) [
  | inl own ↦
      let first : find_file hash (g ∷ files) ≡ some g = rw own refl in
      let this : g ≡ f = cc in
      ap (λ (d : CachedFile). d.name) (sym this) ∙ same_bytes-eq g.name hash own
  | inr other ↦ find_file-name hash files f (rw other at e)
]

find_file-remove_name :
    (hash : List ℕ) (files : List CachedFile) → find_file hash (remove_name hash files) ≡ none
unfolding find_file remove_name
find_file-remove_name hash [] = refl
find_file-remove_name hash (g ∷ files) = elim (Bool-cases (same_bytes g.name hash)) [
  | inl own ↦ rw own (find_file-remove_name hash files)
  | inr other ↦ rw (other, other) (find_file-remove_name hash files)
]

remove_file_lem :
    (removable : CachedFile → Bool) (hash : List ℕ) (files : List CachedFile) (f : CachedFile)
    → find_file hash files ≡ some f
    → let after = remove_file removable f files in
      ((removable f ≡ true) × (after ≡ remove_name hash files) × (find_file hash after ≡ none))
      ⊎ ((removable f ≡ false) × (after ≡ files))
unfolding remove_file
remove_file_lem removable hash files f found =
    let named = find_file-name hash files f found in
    elim (Bool-cases (removable f)) [
      | inl goes ↦ rw (goes, named) (inl (refl, refl, find_file-remove_name hash files))
      | inr stays ↦ rw stays (inr (refl, refl))
    ]

module _ (prims : Primitives) (m : Mac) (avx2 : Bool) where
  -- With keys of the right lengths, a file goes through the disk's stream under one keystream.
  through_disk_lem :
      (key nonce mac_key : List ℕ)
      → length key ≡ key_len
      → All IsWord key
      → All IsWord nonce
      → (keystream : ℕ → ℕ) × ((bytes : List ℕ)
          → All IsByte bytes
          → through_disk prims m avx2 (key, nonce, mac_key) bytes
            ≡ ok (some (mask_bytes keystream 0 bytes)))
  unfolding through_disk attempt
  through_disk_lem key nonce mac_key size vk vn =
      let (key_grid, made, vg, cells) =
        from_key_lem default_grid_width default_grid_height key refl (omega arith) size vk in
      let (nonce_grid, drawn, vng, flat) =
        from_flat_lem default_grid_width default_grid_height refl nonce vn in
      let (keys, shifts, s, started) =
        start_lem avx2 default_grid_width default_grid_height refl prims key_grid nonce_grid
          (omega arith) vng in
      (
        key_at avx2 default_grid_width default_grid_height refl nonce_grid keys shifts s vng,
        λ bytes v.
            rw
              (
                made,
                drawn,
                started,
                pass_lem avx2 default_grid_width default_grid_height refl nonce_grid keys shifts s
                    vng 0 bytes v,
              )
              refl,
      )

module _ (prims : Primitives) (m : Mac) (kdf : Hkdf) (avx2 : Bool) (cache_key : List ℕ) where
  -- What is sealed for a picture, and that it is read back.
  seal_lem :
      (fingerprint hash bytes : List ℕ)
      → All IsByte bytes
      → (key nonce mac_key ciphertext : List ℕ) × (cache_keys kdf cache_key fingerprint hash
          ≡ ok (key, nonce, mac_key))
        × (seal prims m kdf avx2 cache_key fingerprint hash bytes
            ≡ ok (some (ciphertext ++ disk_seal m mac_key ciphertext)))
        × (through_disk prims m avx2 (key, nonce, mac_key) ciphertext ≡ ok (some bytes))
        × (length ciphertext ≡ length bytes)
  unfolding seal seal_with tagged cache_keys
  seal_lem fingerprint hash bytes v =
      let (key, nonce, mac_key, made, k_size, vk, n_size, vn, m_size) =
        disk_keys_lem kdf (fingerprint ++ hash) cache_key in
      let (keystream, through) = through_disk_lem prims m avx2 key nonce mac_key k_size vk vn in
      let ciphertext = mask_bytes keystream 0 bytes in
      (
        key,
        nonce,
        mac_key,
        ciphertext,
        made,
        rw (made, through bytes v) refl,
        through ciphertext (mask_bytes-IsByte keystream 0 bytes v)
            ∙ ap (λ l. ok (some l)) (mask_bytes_twice keystream 0 bytes),
        length-mask_bytes keystream 0 bytes,
      )

  -- After a handshake: a picture of bytes that is stored under a hash that the cache does not have,
  -- where it and its tag fit beside the rest, is loaded with the same bytes, and its file's time is
  -- then the time of the load.
  pub load-store :
      (removable : CachedFile → Bool) (now later c : ℕ) (fingerprint hash bytes : List ℕ)
      (files : List CachedFile)
      → All IsByte bytes
      → find_file hash files ≡ none
      → length bytes + 32 + total_size files ≤ max_image_cache
      → (stored : List CachedFile) × (store prims m kdf avx2 cache_key removable now
            (c ∷ fingerprint)
            hash
            bytes
            files
          ≡ ok stored)
        × (load prims m kdf avx2 cache_key removable later (c ∷ fingerprint) hash stored
            ≡ ok (touch hash later stored, some bytes))
  unfolding store store_missing store_sealed evict total_size load load_found load_file
  load-store removable now later c fingerprint hash bytes files v new fits =
      let (key, nonce, mac_key, ciphertext, keyed, sealed, back, size) =
        seal_lem (c ∷ fingerprint) hash bytes v in
      let content = ciphertext ++ disk_seal m mac_key ciphertext in
      let file : CachedFile = record { name = hash; modified = now; content = content } in
      let long : length content ≡ length bytes + 32 = omega (
        arith,
        length-append ciphertext (disk_seal m mac_key ciphertext),
        length-disk_seal m mac_key ciphertext,
      ) in
      let small : leb (length content + total_size files) max_image_cache ≡ true = ground arith in
      (
        file ∷ files,
        rw (new, sealed, small) refl,
        rw
            (
              find_file_first file files,
              keyed,
              (disk_open_iff m mac_key content ciphertext).1 refl,
              back,
            )
            refl,
      )

  -- After a handshake: a file that is not a ciphertext with its own tag under the keys of its name is
  -- not shown. Where the system lets the file go it is removed, and the cache then has no file of the
  -- name; where it does not, the cache is left as it was. Nothing fails or panics.
  pub load_tampered :
      (removable : CachedFile → Bool) (now c : ℕ) (fingerprint hash : List ℕ)
      (files : List CachedFile) (f : CachedFile) (keys : DiskKeys)
      → find_file hash files ≡ some f
      → cache_keys kdf cache_key (c ∷ fingerprint) hash ≡ ok keys
      → ((ciphertext : List ℕ) → f.content ≢ ciphertext ++ disk_seal m keys.2 ciphertext)
      → (after : List CachedFile) × (load prims m kdf avx2 cache_key removable now
            (c ∷ fingerprint)
            hash
            files
          ≡ ok (after, none))
        × (((removable f ≡ true) × (after ≡ remove_name hash files) × (find_file hash after ≡ none))
            ⊎ ((removable f ≡ false) × (after ≡ files)))
  unfolding load load_found load_file
  load_tampered removable now c fingerprint hash files f keys found keyed tampered =
      elim (Option-cases (disk_open m keys.2 f.content)) [
        | inl refused ↦ (
          remove_file removable f files,
          rw (found, keyed, refused) refl,
          remove_file_lem removable hash files f found,
        )
        | inr (ciphertext, opened) ↦
            absurd (tampered ciphertext ((disk_open_iff m keys.2 f.content ciphertext).0 opened))
      ]
