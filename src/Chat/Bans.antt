-- ===== src/Chat/Bans.antt =====
-- chat/src/config/bans.rs: the two lists of server_bans.toml. A text is its list of code points, and an
-- address is given as the text that is stored for it. Reading and writing the file are not modelled.
pub mod Lists
use why.Common.{
  ℕ, zero, suc, ◌+◌, Bool, true, false, ◌&&◌, ◌||◌, ◌==◌, ltb, if◌then◌else◌, Option, none, some,
  List, [], ◌∷◌, ◌++◌, length, take, drop,
}

-- An item of an array: a string, or a value of another type.
abbrev pub Item : Type 0
Item = Option (List ℕ)

-- What the document holds under a section's name.
pub data Section : Type 0 where
  missing : Section
  other_value : Section
  array : List Item → Section

pub record BanFile : Type 0 where
  pub user : Section
  pub ip : Section

pub record BanEntry : Type 0 where
  pub id : ℕ
  pub subject : List ℕ

unfoldable pub same_key : List ℕ → List ℕ → Bool
same_key [] [] = true
same_key [] (y ∷ ys) = false
same_key (x ∷ xs) [] = false
same_key (x ∷ xs) (y ∷ ys) = (x == y) && same_key xs ys

-- `ban.as_str() == Some(key)`
unfoldable pub is_ban : List ℕ → Item → Bool
is_ban key none = false
is_ban key (some text) = same_key text key

-- `bans.iter().any(..)`
unfoldable pub any_ban : List ℕ → List Item → Bool
any_ban key [] = false
any_ban key (ban ∷ bans) = is_ban key ban || any_ban key bans

-- A list that is missing, or a value that is no array, becomes an empty array first.
unfoldable pub items : Section → List Item
items missing = []
items other_value = []
items (array bans) = bans

pub set_ban : Section → List ℕ → Section
set_ban section key =
    let bans = items section in
    if any_ban key bans then array bans else array (bans ++ some key ∷ [])

pub unset_ban : Section → ℕ → Section × Bool
unset_ban missing id = (missing, false)
unset_ban other_value id = (other_value, false)
unset_ban (array bans) id =
    if ltb id (length bans)
    then (array (take id bans ++ drop (id + 1) bans), true)
    else (array bans, false)

-- The strings, each with its place in the array.
numbered : ℕ → List Item → List BanEntry
numbered id [] = []
numbered id (none ∷ bans) = numbered (suc id) bans
numbered id (some text ∷ bans) = record { id = id; subject = text } ∷ numbered (suc id) bans

ban_list : Section → List BanEntry
ban_list section = numbered 0 (items section)

unfoldable pub listed : Section → List ℕ → Bool
listed section key = any_ban key (items section)

unfoldable pub banned : BanFile → List ℕ → Bool
banned file username = listed file.user username

pub banned_ip : BanFile → List ℕ → Bool
banned_ip file ip = listed file.ip ip

pub ban : BanFile → List ℕ → BanFile
ban file username = record { user = set_ban file.user username; ip = file.ip }

ban_ip : BanFile → List ℕ → BanFile
ban_ip file ip = record { user = file.user; ip = set_ban file.ip ip }

users : BanFile → List BanEntry
users file = ban_list file.user

ips : BanFile → List BanEntry
ips file = ban_list file.ip

pub pardon : BanFile → ℕ → BanFile × Bool
pardon file id =
    let (user, pardoned) = unset_ban file.user id in
    (record { user = user; ip = file.ip }, pardoned)

pardon_ip : BanFile → ℕ → BanFile × Bool
pardon_ip file id =
    let (ip, pardoned) = unset_ban file.ip id in (record { user = file.user; ip = ip }, pardoned)
