-- ===== src/Tests/Cache.antt =====
-- chat/src/cache.rs and typed text: the theorems on small files.
use why.Common.{
  ℕ, ◌≤◌, ◌<◌, ◌≡◌, ◌≢◌, ◌⊎◌, refl, ap, arith, Bool, true, false, none, some, List, [], ◌∷◌, ◌++◌,
  length, All, IsWord, length-append,
}
use why.Core.Outcome.{ok}
use why.Core.Auth.{same_bytes}
use why.Chat.Crypto.Disk.{
  DiskKeys, cache_keys, disk_keys, disk_keys_lem, disk_seal, length-disk_seal, key_len, nonce_len,
}
use why.Chat.Cache.{
  max_image_cache, CachedFile, find_file, remove_name, touch, insert_by_time, sort_by_time,
  total_size, evict, store, load,
}
use why.Chat.Cache.Seal.{load-store, load_tampered}
use why.Chat.Cache.Evict.{Sorted, Dropped, evict_lem}
use why.Chat.Network.Text.{
  is_control, any_stripped, filter_map_plain, plain_char, keep, strip_control,
}
use why.Tests.Fixtures.{toy, toy_mac, toy_hkdf}

abbrev picture : List ℕ
picture = 137 ∷ 80 ∷ 78 ∷ 71 ∷ []

abbrev broken : CachedFile
broken = record { name = 1 ∷ 2 ∷ []; modified = 3; content = 9 ∷ [] }

abbrev other : CachedFile
other = record { name = 4 ∷ []; modified = 2; content = [] }

removal : CachedFile → Bool
removal f = true

removal_succeeds : (f : CachedFile) → removal f ≡ true
unfolding removal
removal_succeeds f = refl

abbrev two_files : List CachedFile
two_files = broken ∷ other ∷ []

not_there : find_file (7 ∷ []) two_files ≡ none
unfolding find_file same_bytes
not_there = refl

there : find_file (1 ∷ 2 ∷ []) two_files ≡ some broken
unfolding find_file same_bytes
there = refl

small_files : total_size two_files ≡ 1
unfolding total_size
small_files = refl

oldest_first : sort_by_time two_files ≡ other ∷ broken ∷ []
unfolding sort_by_time insert_by_time
oldest_first = refl

load-store_example :
    (stored : List CachedFile) × (store toy toy_mac toy_hkdf true [] removal 10
        (65 ∷ [])
        (7 ∷ [])
        picture
        two_files
      ≡ ok stored)
    × (load toy toy_mac toy_hkdf true [] removal 20 (65 ∷ []) (7 ∷ []) stored
        ≡ ok (touch (7 ∷ []) 20 stored, some picture))
load-store_example =
    load-store toy toy_mac toy_hkdf true [] removal 10 20 65 [] (7 ∷ []) picture two_files
      (omega arith) not_there (omega (arith, small_files))

too_short :
    (keys : DiskKeys) (ciphertext : List ℕ)
    → 9 ∷ [] ≢ ciphertext ++ disk_seal toy_mac keys.2 ciphertext
too_short keys ciphertext e = absurd (
    omega (
      arith,
      ap length e,
      length-append ciphertext (disk_seal toy_mac keys.2 ciphertext),
      length-disk_seal toy_mac keys.2 ciphertext,
    ))

abbrev keys_of_broken : DiskKeys
keys_of_broken =
    let found = disk_keys_lem toy_hkdf (65 ∷ 1 ∷ 2 ∷ []) [] in (found.0, found.1, found.2)

keyed : cache_keys toy_hkdf [] (65 ∷ []) (1 ∷ 2 ∷ []) ≡ ok keys_of_broken
unfolding cache_keys
keyed = (disk_keys_lem toy_hkdf (65 ∷ 1 ∷ 2 ∷ []) []).3

load_tampered_example :
    (after : List CachedFile) × (load toy toy_mac toy_hkdf true [] removal 20
        (65 ∷ [])
        (1 ∷ 2 ∷ [])
        two_files
      ≡ ok (after, none))
    × (((removal broken ≡ true)
          × (after ≡ remove_name (1 ∷ 2 ∷ []) two_files)
          × (find_file (1 ∷ 2 ∷ []) after ≡ none))
        ⊎ ((removal broken ≡ false) × (after ≡ two_files)))
load_tampered_example =
    load_tampered toy toy_mac toy_hkdf true [] removal 20 65 [] (1 ∷ 2 ∷ []) two_files broken
      keys_of_broken there keyed (too_short keys_of_broken)

evict_lem_example :
    (total_size (evict removal two_files) ≤ max_image_cache)
    × ((evict removal two_files ≡ two_files)
        ⊎ ((max_image_cache < total_size two_files)
            × Sorted (sort_by_time two_files)
            × Dropped (sort_by_time two_files) (evict removal two_files)))
evict_lem_example = evict_lem removal removal_succeeds two_files

disk_keys_lem_example :
    (key nonce mac_key : List ℕ) × (disk_keys toy_hkdf picture [] ≡ ok (key, nonce, mac_key))
    × (length key ≡ key_len)
    × All IsWord key
    × (length nonce ≡ nonce_len)
    × All IsWord nonce
    × (length mac_key ≡ 32)
disk_keys_lem_example = disk_keys_lem toy_hkdf picture []

-- A bell, a tab and a newline.
strips : strip_control (104 ∷ 7 ∷ 9 ∷ 10 ∷ 105 ∷ []) ≡ 104 ∷ 32 ∷ 10 ∷ 105 ∷ []
unfolding strip_control any_stripped filter_map_plain plain_char keep is_control
strips = refl
