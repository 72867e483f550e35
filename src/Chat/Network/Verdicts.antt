-- ===== src/Chat/Network/Verdicts.antt =====
-- chat/src/network/mod.rs: when the server accepts a packet, and when it ends the connection.
use why.Common.{
  ℕ, ◌≤◌, ◌<◌, ◌≡◌, inl, inr, refl, sym, ◌∙◌, arith, Bool, true, false, ◌&&◌, ltb, ◌==◌,
  if◌then◌else◌, Bool-cases, List, [], ◌∷◌,
}
use why.Chat.Network.Receive.{
  Float32, Policy, CodeKind, text_message, unmetered, metered, Connection, authenticated,
  non_authenticated, spam, invalid_seq, accepted, removed, last_seq, check_text, check_spam,
  check_rate, check_seq, check_packet, client_seq_valid,
}
use why.Chat.Network.Replay.{check_text-seq, check_spam-seq, last_seq-set_seq, Increasing}

-- A text that is not over the limit; every other packet is not.
unfoldable pub WithinLength : (fl : Float32) → Policy fl → CodeKind → Type 0
WithinLength fl policy (text_message length) = length ≤ policy.max_message_length
WithinLength fl policy unmetered = Unit
WithinLength fl policy metered = Unit

module _ (fl : Float32) (policy : Policy fl) where
  check_text_long :
      (now length : ℕ) (conn : Connection fl)
      → ltb policy.max_message_length length ≡ true
      → ((check_text fl policy now length conn).disconnect ≡ true)
        × ((check_text fl policy now length conn).spam_warning ≡ false)
  unfolding check_text
  check_text_long now length (non_authenticated old last_activity) long = (long, refl)
  check_text_long now length (authenticated c) long = rw long (refl, refl)

  -- A text over the limit ends the connection, at any time, with any number, with or without the
  -- protection against spam, and no warning is sent. It is said to be spam if its number is valid.
  pub check_packet_long :
      (now length seq : ℕ) (conn : Connection fl)
      → policy.max_message_length < length
      → ((check_packet fl policy now (text_message length) seq conn).1 ≡ false)
        × ((check_packet fl policy now (text_message length) seq conn).2
            ≡ (if ltb (last_seq fl conn) seq then removed true spam else removed false invalid_seq))
  unfolding check_packet check_spam check_rate check_seq
  check_packet_long now length seq conn p =
      let long : ltb policy.max_message_length length ≡ true = ground arith in
      let first = check_text_long now length conn long in
      (
        first.1,
        rw (first.0, check_text-seq fl policy now length conn)
            (elim (Bool-cases (ltb (last_seq fl conn) seq)) [
              | inl e ↦ rw e refl
              | inr e ↦ rw e refl
            ]),
      )

  check_text_unprotected :
      (now length : ℕ) (conn : Connection fl)
      → policy.spam_protection ≡ false
      → length ≤ policy.max_message_length
      → ((check_text fl policy now length conn).disconnect ≡ false)
        × ((check_text fl policy now length conn).spam_warning ≡ false)
  unfolding check_text
  check_text_unprotected now length (non_authenticated old last_activity) off p =
      let short : ltb policy.max_message_length length ≡ false = ground arith in (short, refl)
  check_text_unprotected now length (authenticated c) off p =
      let short : ltb policy.max_message_length length ≡ false = ground arith in
      rw (short, off) (refl, refl)

  check_spam_unprotected :
      (now : ℕ) (kind : CodeKind) (conn : Connection fl)
      → policy.spam_protection ≡ false
      → WithinLength fl policy kind
      → ((check_spam fl policy now kind conn).disconnect ≡ false)
        × ((check_spam fl policy now kind conn).spam_warning ≡ false)
  unfolding check_spam WithinLength
  check_spam_unprotected now (text_message length) conn off within =
      check_text_unprotected now length conn off within
  check_spam_unprotected now unmetered conn off within = (refl, refl)
  check_spam_unprotected now metered conn off within = (refl, refl)

  check_rate_unprotected :
      (now : ℕ) (kind : CodeKind) (disconnect : Bool) (conn : Connection fl)
      → policy.spam_protection ≡ false
      → check_rate fl policy now kind disconnect conn ≡ (conn, 0, false)
  unfolding check_rate
  check_rate_unprotected now kind true conn off = refl
  check_rate_unprotected now kind false conn off = rw off refl

  -- Without the protection against spam, a packet with a higher number is accepted at once, however
  -- fast packets come, if it is no text over the limit; no warning is sent, and the number is the
  -- connection's new one.
  pub check_packet_unprotected :
      (now : ℕ) (kind : CodeKind) (seq : ℕ) (conn : Connection fl)
      → policy.spam_protection ≡ false
      → WithinLength fl policy kind
      → last_seq fl conn < seq
      → (last_seq fl (check_packet fl policy now kind seq conn).0 ≡ seq)
        × ((check_packet fl policy now kind seq conn).1 ≡ false)
        × ((check_packet fl policy now kind seq conn).2 ≡ accepted 0)
  unfolding check_packet check_seq
  check_packet_unprotected now kind seq conn off within higher =
      let first = check_spam_unprotected now kind conn off within in
      let same = check_spam-seq fl policy now kind conn in
      let up : ltb (last_seq fl conn) seq ≡ true = ground arith in
      let spam_checked = check_spam fl policy now kind conn in
      let rated = check_rate_unprotected now kind spam_checked.disconnect spam_checked.conn off in
      (
        rw (rated, same, up) (last_seq-set_seq fl (check_spam fl policy now kind conn).conn seq),
        first.1,
        rw (rated, first.0, same, up) refl,
      )

-- The numbers of packets that are no `Disconnect`, as the client takes them one after the other.
unfoldable pub client_accepts : ℕ → List ℕ → Bool
client_accepts used_seq [] = true
client_accepts used_seq (seq ∷ seqs) =
    client_seq_valid used_seq seq false && client_accepts seq seqs

-- Once a number other than 0 was seen, the client takes packets with increasing numbers only, but for
-- a `Disconnect`.
pub client_accepts-Increasing :
    (used_seq : ℕ) (seqs : List ℕ)
    → 0 < used_seq
    → client_accepts used_seq seqs ≡ true
    → Increasing used_seq seqs
unfolding client_accepts client_seq_valid Increasing
client_accepts-Increasing used_seq [] p e = tt
client_accepts-Increasing used_seq (seq ∷ seqs) p e = elim (Bool-cases (ltb used_seq seq)) [
  | inl up ↦
      let rest : client_accepts seq seqs ≡ true = sym (rw up refl) ∙ e in
      let higher : used_seq < seq = ground arith in
      (higher, client_accepts-Increasing seq seqs (omega arith) rest)
  | inr stale ↦
      let started : (used_seq == 0) ≡ false = ground arith in
      absurd (let refused : false ≡ true = sym (rw (stale, started) refl) ∙ e in cc)
]
