-- ===== src/Chat/Voice/Tokens.antt =====
-- chat/src/network/voice/server.rs: the comparison of tokens in constant time is equality.
use why.Common.{
  ℕ, ◌≡◌, ◌↔◌, refl, sym, ap, ap₂, ◌∙◌, arith, true, ==_iff, bit_or, bit_xor, bit_xor_self,
  bit_xor_cancel, zero-bit_xor, bit_or_is_zero, List, [], ◌∷◌, length,
}
use why.Chat.Voice.{token_difference, tokens_match}

bit_xor_is_zero : (x y : ℕ) → bit_xor x y ≡ 0 → x ≡ y
bit_xor_is_zero x y e = sym (bit_xor_cancel x y) ∙ ap (λ (n : ℕ). bit_xor n y) e ∙ zero-bit_xor y

token_difference-zero :
    (acc : ℕ) (xs ys : List ℕ)
    → length xs ≡ length ys
    → token_difference acc xs ys ≡ 0
    → (acc ≡ 0) × (xs ≡ ys)
unfolding token_difference
token_difference-zero acc [] [] size e = (e, refl)
token_difference-zero acc [] (y ∷ ys) size e = absurd (omega (arith, size))
token_difference-zero acc (x ∷ xs) [] size e = absurd (omega (arith, size))
token_difference-zero acc (x ∷ xs) (y ∷ ys) size e =
    let (both, rest) =
      token_difference-zero (bit_or acc (bit_xor x y)) xs ys (omega (arith, size)) e in
    let (none_yet, same) = bit_or_is_zero acc (bit_xor x y) both in
    (none_yet, ap₂ ◌∷◌ (bit_xor_is_zero x y same) rest)

token_difference_self : (xs : List ℕ) → token_difference 0 xs xs ≡ 0
unfolding token_difference
token_difference_self [] = refl
token_difference_self (x ∷ xs) =
    ap (λ (n : ℕ). token_difference (bit_or 0 n) xs xs) (bit_xor_self x) ∙ token_difference_self xs

-- Two tokens of one length match exactly when they are equal.
pub tokens_match_iff : (a b : List ℕ) → length a ≡ length b → (tokens_match a b ≡ true) ↔ (a ≡ b)
unfolding tokens_match
tokens_match_iff a b size = (
  λ e. (token_difference-zero 0 a b size ((==_iff (token_difference 0 a b) 0).0 e)).1,
  λ e.
      (==_iff (token_difference 0 a b) 0).1
        (ap (token_difference 0 a) (sym e) ∙ token_difference_self a),
)
