-- ===== src/Core/Outcome.antt =====
-- core/src/grid.rs: the errors of the crate, and the three ways in which a call can end.
use why.Common.{ℕ, ◌≡◌, refl, List, [], ◌∷◌}

pub data GridError : Type 0 where
  invalid_dimensions : ℕ → ℕ → GridError
  invalid_byte_length : ℕ → ℕ → GridError
  invalid_key_length : ℕ → ℕ → GridError
  invalid_unicode : GridError

-- `panic` is a failed assertion, a division by zero or an index out of range.
pub data Outcome {ℓ} (A : Type ℓ) : Type ℓ where
  ok : A → Outcome A
  err : GridError → Outcome A
  panic : Outcome A

infixl 5 ◌>>=◌
-- The `?` operator.
abbrev pub ◌>>=◌ {ℓ κ} : {A : Type ℓ} {B : Type κ} → Outcome A → (A → Outcome B) → Outcome B
ok a >>= f = f a
err e >>= f = err e
panic >>= f = panic

-- `iter().map(f).collect::<Result<Vec<_>, _>>()`
unfoldable pub collect {ℓ κ} :
    {A : Type ℓ} {B : Type κ} → (A → Outcome B) → List A → Outcome (List B)
collect f [] = ok []
collect f (x ∷ xs) = do y ← f x; ys ← collect f xs; ok (y ∷ ys)

-- What has succeeded went through a value: the rest succeeds on it.
pub >>=-succeeds {ℓ κ} :
    {A : Type ℓ} {B : Type κ} {b : B} (f : A → Outcome B) (m : Outcome A)
    → (m >>= f) ≡ ok b
    → (a : A) × (f a ≡ ok b) × (m ≡ ok a)
>>=-succeeds f panic e = cc
>>=-succeeds f (err why) e = cc
>>=-succeeds f (ok a) e = (a, e, refl)

pub ok-injective {ℓ} : {A : Type ℓ} {a b : A} → ok a ≡ ok b → a ≡ b
ok-injective e = cc
