-- ===== src/Chat/Voice/Relay/Sends.antt =====
-- chat/src/network/voice/server.rs: what is sent reaches no other channel.
use mathlib.Core.List.{Mem, mem-cons_self}
use why.Common.{
  ℕ, ◌≡◌, ◌⊎◌, inl, inr, refl, sym, ap, true, false, Bool-cases, Option, none, some, Option-cases,
  List, [], ◌∷◌, All,
}
use why.Core.Auth.Packets.{same_bytes-eq}
use why.Chat.Network.Receive.{Float32}
use why.Chat.Voice.{
  SocketAddr, same_addr, VoicePacketCode, hello, hello_ack, audio, ping, pong, Session, Slot,
}
use why.Chat.Voice.Relay.Opus.{validate_opus_packet}
use why.Chat.Voice.Relay.Reach.{has_key-gone, Reached, recipients-Reached}
use why.Chat.Voice.Relay.{
  Client, Outgoing, find_client, has_key, find_channel, is_muted, same_name, same_channel,
  recipient, recipients, to_each, address_of, forwarded, responses, MaySend,
}

same_name-eq : (a b : Option (List ℕ)) → same_name a b ≡ true → a ≡ b
unfolding same_name
same_name-eq none none e = refl
same_name-eq none (some b) e = absurd cc
same_name-eq (some a) none e = absurd cc
same_name-eq (some a) (some b) e = ap some (same_bytes-eq a b e)

same_channel-eq : (a b : Option (Option (List ℕ))) → same_channel a b ≡ true → a ≡ b
unfolding same_channel
same_channel-eq none none e = refl
same_channel-eq none (some b) e = absurd cc
same_channel-eq (some a) none e = absurd cc
same_channel-eq (some a) (some b) e = ap some (same_name-eq a b e)

module _ (fl : Float32) (clients : List Client) (sessions : List (ℕ × Slot fl)) where
  -- Somebody else in the channel.
  abbrev Elsewhere : SocketAddr → Option (Option (List ℕ)) → SocketAddr × ℕ → Type 0
  Elsewhere addr channel r = (same_addr r.0 addr ≡ false) × (find_channel r.1 clients ≡ channel)

  recipient-Elsewhere :
      (addr : SocketAddr) (channel : Option (Option (List ℕ))) (session : Option (Session fl))
      (rest : List (SocketAddr × ℕ))
      → All (Elsewhere addr channel) rest
      → All (Elsewhere addr channel) (recipient fl clients sessions addr channel session rest)
  unfolding recipient
  recipient-Elsewhere addr channel none rest v = v
  recipient-Elsewhere addr channel (some s) rest v = elim (Bool-cases (same_addr s.addr addr)) [
    | inl own ↦ rw own v
    | inr other ↦ elim (Bool-cases (same_channel channel (find_channel s.id clients))) [
      | inr apart ↦ rw (other, apart) v
      | inl together ↦ elim (Bool-cases (has_key s.id clients)) [
        | inr gone ↦ rw (other, together, gone) v
        | inl there ↦
            rw (other, together, there)
              ((other, sym (same_channel-eq channel (find_channel s.id clients) together)), v)
      ]
    ]
  ]

  recipients-Elsewhere :
      (addr : SocketAddr) (channel : Option (Option (List ℕ))) (slots : List (ℕ × Slot fl))
      → All (Elsewhere addr channel) (recipients fl clients sessions addr channel slots)
  unfolding recipients
  recipients-Elsewhere addr channel [] = tt
  recipients-Elsewhere addr channel (s ∷ slots) =
      recipient-Elsewhere addr channel s.1.session
        (recipients fl clients sessions addr channel slots)
        (recipients-Elsewhere addr channel slots)

  to_each-audio :
      (id : ℕ) (username : List ℕ) (addr : SocketAddr) (bytes : List ℕ) (claimed : Option (List ℕ))
      (to : List (SocketAddr × ℕ))
      → is_muted id clients ≡ false
      → All (Elsewhere addr (find_channel id clients)) to
      → All
          (MaySend fl clients sessions id username addr (audio bytes claimed))
          (to_each fl clients sessions (audio bytes (some username)) to)
  unfolding to_each MaySend
  to_each-audio id username addr bytes claimed [] heard v = tt
  to_each-audio id username addr bytes claimed (r ∷ to) heard v =
      ((v.0.0, v.0.1, heard, refl), to_each-audio id username addr bytes claimed to heard v.1)

  to_each-ping :
      (id : ℕ) (username : List ℕ) (addr : SocketAddr) (timestamp : ℕ) (to : List (SocketAddr × ℕ))
      → All (Elsewhere addr (find_channel id clients)) to
      → All
          (MaySend fl clients sessions id username addr (ping timestamp))
          (to_each fl clients sessions (ping timestamp) to)
  unfolding to_each MaySend
  to_each-ping id username addr timestamp [] v = tt
  to_each-ping id username addr timestamp (r ∷ to) v =
      ((v.0.0, v.0.1, refl), to_each-ping id username addr timestamp to v.1)

  responses_allowed :
      (id : ℕ) (username : List ℕ) (addr : SocketAddr) (code : VoicePacketCode)
      → All
          (MaySend fl clients sessions id username addr code)
          (responses fl clients sessions id username addr code)
  unfolding responses MaySend forwarded
  responses_allowed id username addr (hello token) = elim (Bool-cases (has_key id clients)) [
    | inl known ↦ rw known (refl, tt)
    | inr gone ↦ rw gone tt
  ]
  responses_allowed id username addr hello_ack = tt
  responses_allowed id username addr (audio bytes claimed) =
      elim (Bool-cases (is_muted id clients)) [
        | inl muted ↦ rw muted tt
        | inr heard ↦ elim (Bool-cases (validate_opus_packet bytes)) [
          | inr bad ↦ rw (heard, bad) tt
          | inl good ↦
              rw (heard, good)
                (to_each-audio id username addr bytes claimed
                  (recipients fl clients sessions addr (find_channel id clients) sessions) heard
                  (recipients-Elsewhere addr (find_channel id clients) sessions))
        ]
      ]
  responses_allowed id username addr (ping timestamp) =
      to_each-ping id username addr timestamp
        (recipients fl clients sessions addr (find_channel id clients) sessions)
        (recipients-Elsewhere addr (find_channel id clients) sessions)
  responses_allowed id username addr (pong target_id timestamp) =
      elim (Bool-cases (has_key target_id clients)) [
        | inr gone ↦ rw gone tt
        | inl known ↦ elim (Option-cases (address_of fl clients sessions target_id sessions)) [
          | inl unbound ↦ rw (known, unbound) tt
          | inr (a, found) ↦ rw (known, found) ((refl, found, refl), tt)
        ]
      ]

  -- What has to be sent on a code: every bound session elsewhere in the channel gets the sound packets
  -- of a client that is not muted, and its probes; the answers go to clients that are there.
  unfoldable pub MustSend : ℕ → List ℕ → SocketAddr → VoicePacketCode → List Outgoing → Type 0
  MustSend id username addr (hello token) outs =
      (find_client id clients ≡ none) ⊎ Mem (addr, id, hello_ack) outs
  MustSend id username addr hello_ack outs = Unit
  MustSend id username addr (audio bytes claimed) outs =
      (is_muted id clients ≡ true)
      ⊎ ((validate_opus_packet bytes ≡ false)
          ⊎ All
              (λ slot.
                Reached fl clients sessions addr (find_channel id clients)
                  (audio bytes (some username)) outs slot.1.session)
              sessions)
  MustSend id username addr (ping timestamp) outs =
      All
        (λ slot.
          Reached fl clients sessions addr (find_channel id clients) (ping timestamp) outs
            slot.1.session)
        sessions
  MustSend id username addr (pong target_id timestamp) outs =
      (find_client target_id clients ≡ none)
      ⊎ ((address_of fl clients sessions target_id sessions ≡ none)
          ⊎ ((a : SocketAddr) × (address_of fl clients sessions target_id sessions ≡ some a)
              × Mem (a, target_id, pong target_id timestamp) outs))

  responses_complete :
      (id : ℕ) (username : List ℕ) (addr : SocketAddr) (code : VoicePacketCode)
      → MustSend id username addr code (responses fl clients sessions id username addr code)
  unfolding responses MustSend forwarded
  responses_complete id username addr (hello token) = elim (Bool-cases (has_key id clients)) [
    | inl known ↦ rw known (inr mem-cons_self)
    | inr gone ↦ rw gone (inl (has_key-gone id clients gone))
  ]
  responses_complete id username addr hello_ack = tt
  responses_complete id username addr (audio bytes claimed) =
      elim (Bool-cases (is_muted id clients)) [
        | inl muted ↦ inl muted
        | inr heard ↦ elim (Bool-cases (validate_opus_packet bytes)) [
          | inr bad ↦ inr (inl bad)
          | inl good ↦
              rw (heard, good)
                (inr (
                  inr (
                    recipients-Reached fl clients sessions addr (find_channel id clients)
                      (audio bytes (some username)) sessions)))
        ]
      ]
  responses_complete id username addr (ping timestamp) =
      recipients-Reached fl clients sessions addr (find_channel id clients) (ping timestamp)
        sessions
  responses_complete id username addr (pong target_id timestamp) =
      elim (Bool-cases (has_key target_id clients)) [
        | inr gone ↦ inl (has_key-gone target_id clients gone)
        | inl known ↦ elim (Option-cases (address_of fl clients sessions target_id sessions)) [
          | inl unbound ↦ inr (inl unbound)
          | inr (a, found) ↦ rw (known, found) (inr (inr (a, refl, mem-cons_self)))
        ]
      ]

  -- Whatever a client sends, audio goes out only while it is not muted, under its own name, and like
  -- probes never to its own address nor to a client of another channel; a hello is answered to its
  -- sender alone, and the answer to a probe goes to the bound address of the client that it names. And
  -- whoever may get it does: a sound packet of a client that is not muted, and a probe, reach every
  -- bound session at another address whose client is there and in the channel; a hello is answered
  -- unless its client is gone, and the answer to a probe is forwarded unless the client that it names is
  -- gone or not bound.
  pub responses_lem :
      (id : ℕ) (username : List ℕ) (addr : SocketAddr) (code : VoicePacketCode)
      → let outs = responses fl clients sessions id username addr code in
        All (MaySend fl clients sessions id username addr code) outs
        × MustSend id username addr code outs
  responses_lem id username addr code =
      (responses_allowed id username addr code, responses_complete id username addr code)
