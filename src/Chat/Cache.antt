-- ===== src/Chat/Cache.antt =====
-- chat/src/cache.rs: the cache of pictures. The directory of one server is the list of its files, whose
-- order is not part of its state. Files are read and written without errors, but a file may resist its
-- removal.
pub mod Seal
pub mod Evict
use why.Common.{
  ℕ, zero, suc, ◌+◌, ◌-◌, ◌*◌, ◌≡◌, Bool, true, false, not, ltb, leb, ◌==◌, if◌then◌else◌, Option,
  none, some, List, [], ◌∷◌, ◌++◌, length,
}
use why.Core.Outcome.{Outcome, ok, ◌>>=◌}
use why.Core.Consts.{default_grid_width, default_grid_height}
use why.Core.Grid.{from_key, from_flat}
use why.Core.Crypto.{Primitives}
use why.Core.Auth.{Mac, same_bytes}
use why.Core.Stream.{RexStream, start}
use why.Chat.Crypto.{Hkdf, attempt, pass}
use why.Chat.Crypto.Disk.{DiskKeys, cache_keys, disk_seal, disk_open}

-- `MAX_IMAGE_CACHE`
abbrev pub max_image_cache : ℕ
max_image_cache = 512 * 1000000

pub record CachedFile : Type 0 where
  pub name : List ℕ
  pub modified : ℕ
  pub content : List ℕ

module _ (prims : Primitives) (m : Mac) (avx2 : Bool) where
  -- The stream of the disk, and the bytes of a file through it.
  unfoldable pub through_disk : DiskKeys → List ℕ → Outcome (Option (List ℕ))
  through_disk (key, nonce, mac_key) bytes =
      attempt (from_key default_grid_width default_grid_height key) (λ key_grid.
        attempt (from_flat default_grid_width default_grid_height nonce) (λ nonce_grid.
          attempt (start prims default_grid_width default_grid_height key_grid nonce_grid)
            (λ disk_stream.
              attempt (pass avx2 default_grid_width default_grid_height disk_stream bytes)
                (λ done. ok (some done.1)))))

  unfoldable pub tagged : List ℕ → Option (List ℕ) → Outcome (Option (List ℕ))
  tagged mac_key none = ok none
  tagged mac_key (some bytes) = ok (some (bytes ++ disk_seal m mac_key bytes))

  unfoldable pub seal_with : DiskKeys → List ℕ → Outcome (Option (List ℕ))
  seal_with (key, nonce, mac_key) bytes =
      through_disk (key, nonce, mac_key) bytes >>= λ sealed. tagged mac_key sealed

-- The files by their names.
unfoldable pub find_file : List ℕ → List CachedFile → Option CachedFile
find_file name [] = none
find_file name (f ∷ files) =
    let rest = find_file name files in if same_bytes f.name name then some f else rest

unfoldable pub remove_name : List ℕ → List CachedFile → List CachedFile
remove_name name [] = []
remove_name name (f ∷ files) =
    let rest = remove_name name files in if same_bytes f.name name then rest else f ∷ rest

-- `remove_file`, whose failure is ignored: a file that resists stays.
unfoldable pub remove_file : (CachedFile → Bool) → CachedFile → List CachedFile → List CachedFile
remove_file removable f files = if removable f then remove_name f.name files else files

unfoldable pub touch : List ℕ → ℕ → List CachedFile → List CachedFile
touch name now [] = []
touch name now (f ∷ files) =
    let rest = touch name now files in
    if same_bytes f.name name
    then record { name = f.name; modified = now; content = f.content } ∷ rest
    else f ∷ rest

-- `sort_by_key` on the times: a stable sort.
unfoldable pub insert_by_time : CachedFile → List CachedFile → List CachedFile
insert_by_time f [] = f ∷ []
insert_by_time f (g ∷ files) =
    let rest = insert_by_time f files in
    if leb f.modified g.modified then f ∷ g ∷ files else g ∷ rest

unfoldable pub sort_by_time : List CachedFile → List CachedFile
sort_by_time [] = []
sort_by_time (f ∷ files) = insert_by_time f (sort_by_time files)

unfoldable pub total_size : List CachedFile → ℕ
total_size [] = 0
total_size (f ∷ files) = length f.content + total_size files

module _ (removable : CachedFile → Bool) where
  -- The loop of `evict`, with the size that is left: the files that stay.
  unfoldable pub drop_oldest : ℕ → List CachedFile → List CachedFile
  drop_oldest total [] = []
  drop_oldest total (f ∷ files) =
      let removed = drop_oldest (total - length f.content) files in
      let kept = drop_oldest total files in
      if leb total max_image_cache then f ∷ files else if removable f then removed else f ∷ kept

  unfoldable pub evict : List CachedFile → List CachedFile
  evict files =
      let total : ℕ = total_size files in
      if leb total max_image_cache then files else drop_oldest total (sort_by_time files)

  -- A sealed picture is written under its hash, and the oldest files make room for it.
  unfoldable pub store_sealed :
      ℕ → List ℕ → List CachedFile → Option (List ℕ) → Outcome (List CachedFile)
  store_sealed now hash files none = ok files
  store_sealed now hash files (some bytes) =
      ok (evict (record { name = hash; modified = now; content = bytes } ∷ files))

module _ (prims : Primitives) (m : Mac) (kdf : Hkdf) (avx2 : Bool) (cache_key : List ℕ) where
  unfoldable pub seal : List ℕ → List ℕ → List ℕ → Outcome (Option (List ℕ))
  seal fingerprint hash bytes = do
    keys ← cache_keys kdf cache_key fingerprint hash
    seal_with prims m avx2 keys bytes

  -- A file that is there is not written again.
  unfoldable pub store_missing :
      (CachedFile → Bool)
      → ℕ
      → List ℕ
      → List ℕ
      → List ℕ
      → List CachedFile
      → Option CachedFile
      → Outcome (List CachedFile)
  store_missing removable now fingerprint hash bytes files (some f) = ok files
  store_missing removable now fingerprint hash bytes files none =
      seal fingerprint hash bytes >>= λ sealed. store_sealed removable now hash files sealed

  -- `store`, in the directory of the server with this fingerprint.
  unfoldable pub store :
      (CachedFile → Bool)
      → ℕ
      → List ℕ
      → List ℕ
      → List ℕ
      → List CachedFile
      → Outcome (List CachedFile)
  store removable now [] hash bytes files = ok files
  store removable now (c ∷ fingerprint) hash bytes files =
      store_missing removable now (c ∷ fingerprint) hash bytes files (find_file hash files)

  -- What `load` does with a file that is there: its removal is tried where it does not verify, and its
  -- time is set where it is read.
  unfoldable pub load_file :
      (CachedFile → Bool)
      → ℕ
      → List ℕ
      → List CachedFile
      → CachedFile
      → DiskKeys
      → Option (List ℕ)
      → Outcome (List CachedFile × Option (List ℕ))
  load_file removable now hash files f keys none = ok (remove_file removable f files, none)
  load_file removable now hash files f keys (some ciphertext) =
      through_disk prims m avx2 keys ciphertext >>= λ image.
      ok (elim image [ some bytes ↦ (touch hash now files, some bytes) | none ↦ (files, none) ])

  unfoldable pub load_found :
      (CachedFile → Bool)
      → ℕ
      → List ℕ
      → List ℕ
      → List CachedFile
      → Option CachedFile
      → Outcome (List CachedFile × Option (List ℕ))
  load_found removable now fingerprint hash files none = ok (files, none)
  load_found removable now fingerprint hash files (some f) =
      cache_keys kdf cache_key fingerprint hash >>= λ keys.
      load_file removable now hash files f keys (disk_open m keys.2 f.content)

  unfoldable pub load :
      (CachedFile → Bool)
      → ℕ
      → List ℕ
      → List ℕ
      → List CachedFile
      → Outcome (List CachedFile × Option (List ℕ))
  load removable now [] hash files = ok (files, none)
  load removable now (c ∷ fingerprint) hash files =
      load_found removable now (c ∷ fingerprint) hash files (find_file hash files)
