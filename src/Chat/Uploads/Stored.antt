-- ===== src/Chat/Uploads/Stored.antt =====
-- chat/src/network/file/server.rs: what the server has stored is what it reads back.
use why.Common.{
  ℕ, suc, ◌+◌, ◌*◌, ◌^◌, ◌≤◌, ◌<◌, ◌≡◌, refl, sym, ap, ap₂, ◌∙◌, arith, Bool, true, false, ltb, leb,
  ◌==◌, ==_iff, some, List, [], ◌∷◌, ◌++◌, length, concat, All, IsByte, append-nil, append_assoc,
  length-append, wrapping_add,
}
use why.Core.Outcome.{ok}
use why.Core.Consts.{default_grid_width, default_grid_height}
use why.Core.Grid.{Grid, IsGrid}
use why.Core.Grid.Keys.{from_key_lem}
use why.Core.Grid.Build.{from_flat_lem}
use why.Core.Crypto.{Primitives}
use why.Core.Crypto.Keystream.{IsSchedule}
use why.Core.Auth.{Mac}
use why.Core.Auth.Packets.{same_bytes_refl}
use why.Core.Stream.{RexStream}
use why.Core.Stream.Positions.{key_at}
use why.Core.Stream.Sessions.{start_lem}
use why.Core.Stream.Updates.{at}
use why.Chat.Crypto.{Hkdf, expect_ok, attempt, pass}
use why.Chat.Crypto.Pass.{
  grids_of, pass_lem, mask_bytes, mask_bytes_twice, mask_bytes-IsByte, length-mask_bytes,
}
use why.Chat.Crypto.Disk.{image_keys, disk_keys_lem, disk_tag, disk_seal, disk_open, disk_open_iff}
use why.Chat.Files.{UploadKind, file, image, avatar, icon, voice, persistent}
use why.Chat.Network.{Codec}
use why.Chat.Clips.{Clip}
use why.Chat.Uploads.{
  first_valid, parsed, kept_image, receive_upload, admitted, ceiling, upload_chunk_size,
  ActiveFileshare, fed_mac, chunk_written, chunk_end, stored, file_with_tag, take_chunk, finish,
  receive_chunks, read_chunks, disk_stream_of, read_opened, new_upload, read_image,
}
use why.Chat.Uploads.Chunks.{Regular, Regular-length, rechunk}

module _ (prims : Primitives) (m : Mac) (avx2 : Bool) (nonce : Grid) (keys : List Grid)
    (shifts : List (List ℕ)) (s : IsSchedule default_grid_width default_grid_height keys shifts)
    (vn : IsGrid default_grid_width default_grid_height nonce) where
  abbrev key : ℕ → ℕ
  key = key_at avx2 default_grid_width default_grid_height refl nonce keys shifts s vn

  abbrev disk_at : ℕ → RexStream
  disk_at number =
      at avx2 default_grid_width default_grid_height refl nonce keys shifts s vn number []

  abbrev masked : ℕ → List ℕ → List ℕ
  masked number bytes = mask_bytes key (number * (default_grid_width * default_grid_height)) bytes

  abbrev next : ℕ → List ℕ → ℕ
  next number bytes = number + grids_of default_grid_width default_grid_height (length bytes)

  -- The chunks on the disk, the first of them from a grid's number on.
  masked_chunks : ℕ → List (List ℕ) → List (List ℕ)
  masked_chunks number [] = []
  masked_chunks number (c ∷ cs) = masked number c ∷ masked_chunks (next number c) cs

  length-masked_chunks :
      (number : ℕ) (cs : List (List ℕ)) → length (masked_chunks number cs) ≡ length cs
  unfolding masked_chunks
  length-masked_chunks number [] = refl
  length-masked_chunks number (c ∷ cs) = ap suc (length-masked_chunks (next number c) cs)

  length-masked : (number : ℕ) (c : List ℕ) → length (masked number c) ≡ length c
  length-masked number c =
      length-mask_bytes key (number * (default_grid_width * default_grid_height)) c

  length-concat-masked_chunks :
      (number : ℕ) (cs : List (List ℕ))
      → length (concat (masked_chunks number cs)) ≡ length (concat cs)
  unfolding masked_chunks
  length-concat-masked_chunks number [] = refl
  length-concat-masked_chunks number (c ∷ cs) =
      length-append (masked number c) (concat (masked_chunks (next number c) cs))
      ∙ ap₂ ◌+◌ (length-masked number c) (length-concat-masked_chunks (next number c) cs)
      ∙ sym (length-append c (concat cs))

  Regular-masked_chunks :
      (n number : ℕ) (cs : List (List ℕ)) → Regular n cs → Regular n (masked_chunks number cs)
  unfolding masked_chunks Regular
  Regular-masked_chunks n number [] r = tt
  Regular-masked_chunks n number (c ∷ []) r = rw (length-masked number c) r
  Regular-masked_chunks n number (c ∷ d ∷ cs) r =
      (length-masked number c ∙ r.0, Regular-masked_chunks n (next number c) (d ∷ cs) r.1)

  pass-masked :
      (number : ℕ) (c : List ℕ)
      → All IsByte c
      → pass avx2 default_grid_width default_grid_height (disk_at number) (masked number c)
        ≡ ok (disk_at (next number c), c)
  pass-masked number c v =
      let pos : ℕ = number * (default_grid_width * default_grid_height) in
      pass_lem avx2 default_grid_width default_grid_height refl nonce keys shifts s vn number
        (masked number c) (mask_bytes-IsByte key pos c v)
      ∙ ap₂
          (λ (n : ℕ) l.
            ok (disk_at (number + grids_of default_grid_width default_grid_height n), l))
          (length-masked number c) (mask_bytes_twice key pos c)

  read_chunks-masked_chunks :
      (number : ℕ) (cs : List (List ℕ))
      → All (All IsByte) cs
      → read_chunks prims m avx2 (disk_at number) (masked_chunks number cs) ≡ ok (some (concat cs))
  unfolding read_chunks masked_chunks attempt
  read_chunks-masked_chunks number [] v = refl
  read_chunks-masked_chunks number (c ∷ cs) v =
      rw (pass-masked number c v.0, read_chunks-masked_chunks (next number c) cs v.1) refl

  module _ (codec : Codec Clip) (kind : UploadKind) (id size : ℕ) (hash mac_key : List ℕ) where
    -- An upload that has taken `bytes` and written `written`.
    abbrev upload_at : ℕ → List ℕ → List ℕ → ActiveFileshare
    upload_at number written bytes = record {
      file = written;
      size = size;
      current_size = length bytes;
      hash = hash;
      hasher = bytes;
      client_id = id;
      image = some bytes;
      stream = disk_at number;
      mac = some (mac_key, written);
    }

    take_chunk_lem :
        (number : ℕ) (written bytes c : List ℕ)
        → All IsByte c
        → length c ≤ upload_chunk_size
        → length bytes + length c < 2 ^ 64
        → take_chunk prims m avx2 id c (upload_at number written bytes)
          ≡ ok (chunk_end (upload_at (next number c) (written ++ masked number c) (bytes ++ c)))
    unfolding take_chunk expect_ok chunk_written fed_mac kept_image
    take_chunk_lem number written bytes c v small fits =
        let own : (id == id) ≡ true = (==_iff id id).1 refl in
        let short : leb (length c) upload_chunk_size ≡ true = ground arith in
        let count : wrapping_add (length bytes) (length c) ≡ length (bytes ++ c) =
          omega (arith, length-append bytes c) in
        rw
          (
            own,
            short,
            pass_lem avx2 default_grid_width default_grid_height refl nonce keys shifts s vn number
                c v,
            count,
          )
          refl

    -- The last chunk completes the upload, and no other one does.
    receive_chunks_lem :
        (number : ℕ) (written bytes c : List ℕ) (cs : List (List ℕ))
        → All (All IsByte) (c ∷ cs)
        → Regular upload_chunk_size (c ∷ cs)
        → size ≡ length bytes + length (concat (c ∷ cs))
        → size < 2 ^ 64
        → (last : ℕ) × (receive_chunks prims m codec avx2 kind id
              (upload_at number written bytes)
              (c ∷ cs)
            ≡ ok (
                finish prims m codec avx2 kind (
                  upload_at last
                    (written ++ concat (masked_chunks number (c ∷ cs)))
                    (bytes ++ concat (c ∷ cs)))))
    unfolding receive_chunks masked_chunks chunk_end Regular
    receive_chunks_lem number written bytes c [] v r total fits =
        let one : length (c ++ []) ≡ length c = ap length (append-nil c) in
        let sum = length-append bytes c in
        let below : ltb size (length (bytes ++ c)) ≡ false = ground arith in
        let all : (length (bytes ++ c) == size) ≡ true =
          (==_iff (length (bytes ++ c)) size).1 (omega arith) in
        let step = take_chunk_lem number written bytes c v.0 r.1 (omega arith) in
        (
          next number c,
          rw (step, below, all)
              (ap₂
                (λ w b. ok (
                  finish prims m codec avx2 kind
                    (upload_at (next number c) (written ++ w) (bytes ++ b))))
                (sym (append-nil (masked number c))) (sym (append-nil c))),
        )
    receive_chunks_lem number written bytes c (d ∷ cs) v r total fits =
        let later = Regular-length upload_chunk_size (d ∷ cs) (omega arith) r.1 in
        let some_left : 0 < length (concat (d ∷ cs)) = omega (arith, later.1) in
        let sum = length-append bytes c in
        let whole = length-append c (concat (d ∷ cs)) in
        let below : ltb size (length (bytes ++ c)) ≡ false = ground arith in
        let not_all : (length (bytes ++ c) == size) ≡ false = ground arith in
        let step = take_chunk_lem number written bytes c v.0 (omega (arith, r.0)) (omega arith) in
        let (last, rest) =
          receive_chunks_lem (next number c) (written ++ masked number c) (bytes ++ c) d cs v.1 r.1
            (omega arith) fits in
        (
          last,
          rw (step, below, not_all)
              (rest
                ∙ ap₂ (λ w b. ok (finish prims m codec avx2 kind (upload_at last w b)))
                    (append_assoc written (masked number c)
                      (concat (masked_chunks (next number c) (d ∷ cs))))
                    (append_assoc bytes c (concat (d ∷ cs)))),
        )

admitted_size :
    (kind : UploadKind) (size max_upload_size : ℕ)
    → persistent kind ≡ true
    → admitted kind size max_upload_size ≡ true
    → size ≤ 8000000
unfolding persistent admitted ceiling
admitted_size file size max_upload_size kept taken = absurd cc
admitted_size image size max_upload_size kept taken = ground arith
admitted_size avatar size max_upload_size kept taken = ground arith
admitted_size icon size max_upload_size kept taken = ground arith
admitted_size voice size max_upload_size kept taken = ground arith

module _ (prims : Primitives) (m : Mac) (kdf : Hkdf) (codec : Codec Clip) (avx2 : Bool)
    (image_key : List ℕ) where
  -- A picture or a voice message of a size that is admitted arrives in chunks of the upload size, of
  -- which only the last may be shorter, and its bytes have the announced size and hash, pass the checks of
  -- the first chunk and, for a voice message, decode as a clip: it is stored, and the stored file verifies and is read back as the same bytes. No call fails or panics.
  pub read_image-receive_upload :
      (kind : UploadKind) (id max_upload_size : ℕ) (c : List ℕ) (cs : List (List ℕ))
      → persistent kind ≡ true
      → All (All IsByte) (c ∷ cs)
      → Regular upload_chunk_size (c ∷ cs)
      → admitted kind (length (concat (c ∷ cs))) max_upload_size ≡ true
      → first_valid kind c ≡ true
      → parsed codec kind (some (concat (c ∷ cs))) ≡ true
      → let hash = prims.sha256 (concat (c ∷ cs)) in
        (begin : ActiveFileshare) × (content : List ℕ) × (new_upload prims m kdf avx2 image_key id
            hash
            (length (concat (c ∷ cs)))
          ≡ ok begin)
        × (receive_upload prims m codec avx2 kind id begin (c ∷ cs) ≡ ok (stored content))
        × (read_image prims m kdf avx2 image_key hash content ≡ ok (some (concat (c ∷ cs))))
  unfolding new_upload read_image receive_upload read_opened disk_stream_of image_keys finish
      file_with_tag expect_ok attempt disk_seal
  read_image-receive_upload kind id max_upload_size c cs kept v r taken first playable =
      let fits = admitted_size kind (length (concat (c ∷ cs))) max_upload_size kept taken in
      let data' = concat (c ∷ cs) in
      let hash = prims.sha256 data' in
      let (key, nonce, mac_key, keyed, k_size, vk, n_size, vn, m_size) =
        disk_keys_lem kdf hash image_key in
      let (key_grid, made, vg, cells) =
        from_key_lem default_grid_width default_grid_height key refl (omega arith) k_size vk in
      let (nonce_grid, drawn, vng, flat) =
        from_flat_lem default_grid_width default_grid_height refl nonce vn in
      let (keys, shifts, s, started) =
        start_lem avx2 default_grid_width default_grid_height refl prims key_grid nonce_grid
          (omega arith) vng in
      let begin =
        upload_at prims m avx2 nonce_grid keys shifts s vng codec kind id (length data') hash
          mac_key 0 [] [] in
      let on_disk = masked_chunks prims m avx2 nonce_grid keys shifts s vng 0 (c ∷ cs) in
      let ciphertext = concat on_disk in
      let (last, ran) =
        receive_chunks_lem prims m avx2 nonce_grid keys shifts s vng codec kind id (length data')
          hash mac_key 0 [] [] c cs v r (omega arith) (omega (arith, fits)) in
      let sealed = ciphertext ++ disk_tag m mac_key ciphertext (length data') in
      let same_size : length ciphertext ≡ length data' =
        length-concat-masked_chunks prims m avx2 nonce_grid keys shifts s vng 0 (c ∷ cs) in
      let own_tag : sealed ≡ ciphertext ++ disk_seal m mac_key ciphertext =
        ap (λ n. ciphertext ++ disk_tag m mac_key ciphertext n) (sym same_size) in
      let opened : disk_open m mac_key sealed ≡ some ciphertext =
        (disk_open_iff m mac_key sealed ciphertext).1 own_tag in
      let found = rechunk upload_chunk_size on_disk (omega arith) (
        Regular-masked_chunks prims m avx2 nonce_grid keys shifts s vng upload_chunk_size 0 (c ∷ cs)
          r) in
      let read = read_chunks-masked_chunks prims m avx2 nonce_grid keys shifts s vng 0 (c ∷ cs) v in
      (
        begin,
        sealed,
        rw (keyed, made, drawn, started) refl,
        rw (first, ran, same_bytes_refl hash, playable) refl,
        rw (keyed, opened, made, drawn, started, found) read,
      )
