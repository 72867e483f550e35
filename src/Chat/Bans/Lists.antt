-- ===== src/Chat/Bans/Lists.antt =====
-- chat/src/config/bans.rs: what banning and pardoning do to the lists.
use why.Common.{
  ℕ, ◌+◌, ◌≡◌, refl, sym, ap, ap₂, ◌∙◌, arith, Bool, true, false, ◌||◌, ◌==◌, ltb, ==_iff,
  Bool-cases, inl, inr, some, List, [], ◌∷◌, ◌++◌, length, length-append, take-append, drop_all,
  append-nil,
}
use why.Chat.Bans.{
  Item, Section, array, BanFile, same_key, is_ban, any_ban, items, set_ban, unset_ban, listed,
  banned, banned_ip, ban, pardon,
}

any_ban-append :
    (key : List ℕ) (xs ys : List Item) → any_ban key (xs ++ ys) ≡ any_ban key xs || any_ban key ys
unfolding any_ban
any_ban-append key [] ys = refl
any_ban-append key (x ∷ xs) ys = elim (Bool-cases (is_ban key x)) [
  | inl e ↦ rw e refl
  | inr e ↦ rw e (any_ban-append key xs ys)
]

same_key-eq : (xs ys : List ℕ) → same_key xs ys ≡ true → xs ≡ ys
unfolding same_key
same_key-eq [] [] e = refl
same_key-eq [] (y ∷ ys) e = absurd cc
same_key-eq (x ∷ xs) [] e = absurd cc
same_key-eq (x ∷ xs) (y ∷ ys) e = elim (Bool-cases (x == y)) [
  | inl s ↦ ap₂ ◌∷◌ ((==_iff x y).0 s) (same_key-eq xs ys (sym (rw s refl) ∙ e))
  | inr s ↦ absurd (let wrong : false ≡ true = sym (rw s refl) ∙ e in cc)
]

same_key_refl : (xs : List ℕ) → same_key xs xs ≡ true
unfolding same_key
same_key_refl [] = refl
same_key_refl (x ∷ xs) = rw ((==_iff x x).1 refl) (same_key_refl xs)

or_false : (b : Bool) → b || false ≡ b
or_false true = refl
or_false false = refl

or_true : (b : Bool) → b || true ≡ true
or_true true = refl
or_true false = refl

listed-set_ban :
    (section : Section) (key name : List ℕ)
    → listed (set_ban section key) name ≡ listed section name || same_key key name
unfolding listed set_ban
listed-set_ban section key name = elim (Bool-cases (any_ban key (items section))) [
  | inr e ↦ rw e (
      unfold items any_ban is_ban in
      any_ban-append name (items section) (some key ∷ [])
      ∙ ap (λ b. any_ban name (items section) || b) (or_false (same_key key name)))
  | inl e ↦ elim (Bool-cases (same_key key name)) [
    | inl s ↦
        let found : any_ban name (items section) ≡ true =
          ap (λ k. any_ban k (items section)) (sym (same_key-eq key name s)) ∙ e in
        rw (e, s, found) (unfold items in found)
    | inr s ↦ rw (e, s) (unfold items in sym (or_false (any_ban name (items section))))
  ]
]

-- After a ban a name is banned if it is the one banned or was banned before, and the addresses that
-- are banned are those from before.
pub banned-ban :
    (file : BanFile) (username name : List ℕ)
    → (banned (ban file username) name ≡ banned file name || same_key username name)
      × (banned_ip (ban file username) name ≡ banned_ip file name)
unfolding banned banned_ip ban
banned-ban file username name = (listed-set_ban file.user username name, refl)

set_ban-array :
    (section : Section) (key : List ℕ) → array (items (set_ban section key)) ≡ set_ban section key
unfolding set_ban
set_ban-array section key = elim (Bool-cases (any_ban key (items section))) [
  | inl e ↦ rw e (unfold items in refl)
  | inr e ↦ rw e (unfold items in refl)
]

set_ban_twice :
    (section : Section) (key : List ℕ) → set_ban (set_ban section key) key ≡ set_ban section key
set_ban_twice section key =
    let found : any_ban key (items (set_ban section key)) ≡ true =
      unfold listed in
      listed-set_ban section key key
      ∙ ap (λ b. any_ban key (items section) || b) (same_key_refl key)
      ∙ or_true (any_ban key (items section)) in
    already (set_ban section key) found ∙ set_ban-array section key
  where
    already : (s : Section) → any_ban key (items s) ≡ true → set_ban s key ≡ array (items s)
    already s found = unfold set_ban in rw found refl

-- A name that is banned twice is listed once: the second ban changes nothing.
pub ban_twice :
    (file : BanFile) (username : List ℕ) → ban (ban file username) username ≡ ban file username
unfolding ban
ban_twice file username =
    ap (λ u. record { user = u; ip = file.ip }) (set_ban_twice file.user username)

unset_ban-set_ban :
    (bans : List Item) (key : List ℕ)
    → any_ban key bans ≡ false
    → unset_ban (set_ban (array bans) key) (length bans) ≡ (array bans, true)
unfolding unset_ban set_ban items
unset_ban-set_ban bans key new =
    let size = length-append bans (some key ∷ []) in
    let inside : ltb (length bans) (length (bans ++ some key ∷ [])) ≡ true = ground arith in
    rw (new, inside)
      (ap (λ l. (array l, true))
        (ap₂ ◌++◌ (take-append (length bans) bans (some key ∷ []) refl)
            (drop_all (length bans + 1) (bans ++ some key ∷ []) (omega arith))
          ∙ append-nil bans))

-- Pardoning the newest number lifts a new ban, and nothing else.
pub pardon-ban :
    (file : BanFile) (bans : List Item) (username : List ℕ)
    → file.user ≡ array bans
    → banned file username ≡ false
    → pardon (ban file username) (length bans) ≡ (file, true)
unfolding pardon ban banned listed
pardon-ban file bans username e new =
    let absent : any_ban username bans ≡ false =
      unfold items in ap (λ u. any_ban username (items u)) (sym e) ∙ new in
    ap (λ r. (record { user = r.0; ip = file.ip }, r.1))
      (ap (λ u. unset_ban (set_ban u username) (length bans)) e
        ∙ unset_ban-set_ban bans username absent
        ∙ ap (λ u. (u, true)) (sym e))
