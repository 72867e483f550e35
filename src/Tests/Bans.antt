-- ===== src/Tests/Bans.antt =====
-- chat/src/config/bans.rs: the theorems on the ban lists, on a small file.
use why.Common.{◌≡◌, ◌||◌, some, none, List, [], ◌∷◌}
use why.Chat.Bans.{BanFile, Item, array, missing, same_key, banned, banned_ip, ban}
use why.Chat.Bans.Lists.{banned-ban}

abbrev list : List Item
list = some (101 ∷ 118 ∷ 101 ∷ []) ∷ none ∷ []

abbrev file : BanFile
file = record { user = array list; ip = missing }

banned-ban_example :
    (banned (ban file (98 ∷ [])) (98 ∷ []) ≡ banned file (98 ∷ []) || same_key (98 ∷ []) (98 ∷ []))
    × (banned_ip (ban file (98 ∷ [])) (98 ∷ []) ≡ banned_ip file (98 ∷ []))
banned-ban_example = banned-ban file (98 ∷ []) (98 ∷ [])
