-- ===== src/Chat/Voice/Relay/Reach.antt =====
-- chat/src/network/voice/server.rs: who hears a client.
use mathlib.Core.List.{Mem, mem-cons_self, mem-cons_of_mem}
use why.Common.{
  ℕ, ◌≡◌, ◌≢◌, ◌⊎◌, inl, inr, refl, ap, ◌∙◌, true, false, Bool-cases, Option, none, some,
  Option-cases, List, [], ◌∷◌, All,
}
use why.Core.Auth.Packets.{same_bytes_refl}
use why.Chat.Network.Receive.{Float32}
use why.Chat.Voice.{SocketAddr, same_addr, VoicePacketCode, Session, Slot}
use why.Chat.Voice.Relay.{
  Client, Outgoing, find_client, has_key, find_channel, same_name, same_channel, recipient,
  recipients, to_each,
}

same_name_refl : (a : Option (List ℕ)) → same_name a a ≡ true
unfolding same_name
same_name_refl none = refl
same_name_refl (some a) = same_bytes_refl a

same_channel_refl : (a : Option (Option (List ℕ))) → same_channel a a ≡ true
unfolding same_channel
same_channel_refl none = refl
same_channel_refl (some a) = same_name_refl a

same_channel-apart : (a b : Option (Option (List ℕ))) → same_channel a b ≡ false → b ≢ a
same_channel-apart a b e same =
    let whole : same_channel a b ≡ true = ap (same_channel a) same ∙ same_channel_refl a in cc

pub has_key-gone :
    (id : ℕ) (clients : List Client) → has_key id clients ≡ false → find_client id clients ≡ none
has_key-gone id clients e = elim (Option-cases (find_client id clients)) [
  | inl gone ↦ gone
  | inr (c, found) ↦ absurd (let known : has_key id clients ≡ true = rw (has_key, found) refl in cc)
]

module _ (fl : Float32) (clients : List Client) (sessions : List (ℕ × Slot fl)) where
  module _ (addr : SocketAddr) (channel : Option (Option (List ℕ))) (code : VoicePacketCode) where
    -- A session is sent the code, unless it is unbound, at the sender's address, in another channel, or
    -- its client is gone.
    unfoldable pub Reached : List Outgoing → Option (Session fl) → Type 0
    Reached outs none = Unit
    Reached outs (some s) =
        (same_addr s.addr addr ≡ true)
        ⊎ ((find_channel s.id clients ≢ channel)
            ⊎ ((find_client s.id clients ≡ none) ⊎ Mem (s.addr, s.id, code) outs))

    abbrev sent_to : List (SocketAddr × ℕ) → List Outgoing
    sent_to to = to_each fl clients sessions code to

    Reached-more :
        (o : Outgoing) (outs : List Outgoing) (session : Option (Session fl))
        → Reached outs session
        → Reached (o ∷ outs) session
    unfolding Reached
    Reached-more o outs none r = tt
    Reached-more o outs (some s) (inl own) = inl own
    Reached-more o outs (some s) (inr (inl apart)) = inr (inl apart)
    Reached-more o outs (some s) (inr (inr (inl gone))) = inr (inr (inl gone))
    Reached-more o outs (some s) (inr (inr (inr sent))) = inr (inr (inr (mem-cons_of_mem o sent)))

    All-more :
        (o : Outgoing) (outs : List Outgoing) (slots : List (ℕ × Slot fl))
        → All (λ slot. Reached outs slot.1.session) slots
        → All (λ slot. Reached (o ∷ outs) slot.1.session) slots
    All-more o outs [] r = tt
    All-more o outs (s ∷ slots) r = (Reached-more o outs s.1.session r.0, All-more o outs slots r.1)

    recipient-Reached :
        (session : Option (Session fl)) (to : List (SocketAddr × ℕ)) (slots : List (ℕ × Slot fl))
        → All (λ slot. Reached (sent_to to) slot.1.session) slots
        → let outs = sent_to (recipient fl clients sessions addr channel session to) in
          Reached outs session × All (λ slot. Reached outs slot.1.session) slots
    unfolding recipient Reached to_each
    recipient-Reached none to slots r = (tt, r)
    recipient-Reached (some s) to slots r = elim (Bool-cases (same_addr s.addr addr)) [
      | inl own ↦ rw own (inl refl, r)
      | inr other ↦ elim (Bool-cases (same_channel channel (find_channel s.id clients))) [
        | inr apart ↦
            rw (other, apart)
              (inr (inl (same_channel-apart channel (find_channel s.id clients) apart)), r)
        | inl together ↦ elim (Bool-cases (has_key s.id clients)) [
          | inr gone ↦
              rw (other, together, gone) (inr (inr (inl (has_key-gone s.id clients gone))), r)
          | inl there ↦
              rw (other, together, there)
                (inr (inr (inr mem-cons_self)), All-more (s.addr, s.id, code) (sent_to to) slots r)
        ]
      ]
    ]

    pub recipients-Reached :
        (slots : List (ℕ × Slot fl))
        → All
            (λ slot.
              Reached (sent_to (recipients fl clients sessions addr channel slots)) slot.1.session)
            slots
    unfolding recipients
    recipients-Reached [] = tt
    recipients-Reached (s ∷ slots) =
        recipient-Reached s.1.session (recipients fl clients sessions addr channel slots) slots
          (recipients-Reached slots)
