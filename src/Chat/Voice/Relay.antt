-- ===== src/Chat/Voice/Relay.antt =====
-- chat/src/network/voice/server.rs: what the server sends on a packet that it handles.
pub mod Opus
pub mod Reach
pub mod Sends
use why.Common.{
  ℕ, ◌+◌, ◌≡◌, inl, inr, refl, ap, ◌∙◌, arith, Bool, true, false, ◌&&◌, not, ltb, leb, ◌==◌, ==_iff,
  if◌then◌else◌, Bool-cases, Option, none, some, Option-cases, List, [], ◌∷◌, length, All, map,
}
use why.Core.Auth.{same_bytes}
use why.Core.Auth.Packets.{same_bytes-eq}
use why.Chat.Network.Receive.{Float32}
use why.Chat.Voice.{
  SocketAddr, same_addr, VoicePacketCode, hello, hello_ack, audio, ping, pong, VoicePacket, Session,
  Slot,
}
use Opus.{validate_opus_packet}

-- A main connection that has logged in, with keys.
pub record Client : Type 0 where
  pub id : ℕ
  pub channel : Option (List ℕ)
  pub muted : Bool

-- An address, the client there, and what is sent.
abbrev pub Outgoing : Type 0
Outgoing = SocketAddr × ℕ × VoicePacketCode

unfoldable pub find_client : ℕ → List Client → Option Client
find_client id [] = none
find_client id (c ∷ clients) = if c.id == id then some c else find_client id clients

abbrev has_key : ℕ → List Client → Bool
has_key id clients = elim (find_client id clients) [ none ↦ false | some c ↦ true ]

abbrev pub find_channel : ℕ → List Client → Option (Option (List ℕ))
find_channel id clients = elim (find_client id clients) [ none ↦ none | some c ↦ some c.channel ]

-- A client that is gone counts as muted.
abbrev pub is_muted : ℕ → List Client → Bool
is_muted id clients = elim (find_client id clients) [ none ↦ true | some c ↦ c.muted ]

unfoldable pub same_name : Option (List ℕ) → Option (List ℕ) → Bool
same_name none none = true
same_name none (some b) = false
same_name (some a) none = false
same_name (some a) (some b) = same_bytes a b

unfoldable pub same_channel : Option (Option (List ℕ)) → Option (Option (List ℕ)) → Bool
same_channel none none = true
same_channel none (some b) = false
same_channel (some a) none = false
same_channel (some a) (some b) = same_name a b

module _ (fl : Float32) (clients : List Client) (sessions : List (ℕ × Slot fl)) where
  abbrev takes : SocketAddr → Option (Option (List ℕ)) → Session fl → Bool
  takes addr sender_channel s =
      not (same_addr s.addr addr)
      && same_channel sender_channel (find_channel s.id clients)
      && has_key s.id clients

  -- The bound session of a slot, where it is sent to.
  unfoldable pub recipient :
      SocketAddr
      → Option (Option (List ℕ))
      → Option (Session fl)
      → List (SocketAddr × ℕ)
      → List (SocketAddr × ℕ)
  recipient addr sender_channel none rest = rest
  recipient addr sender_channel (some s) rest =
      if takes addr sender_channel s then (s.addr, s.id) ∷ rest else rest

  -- The addresses that are collected for audio and for probes.
  unfoldable pub recipients :
      SocketAddr → Option (Option (List ℕ)) → List (ℕ × Slot fl) → List (SocketAddr × ℕ)
  recipients addr sender_channel [] = []
  recipients addr sender_channel (s ∷ rest) =
      recipient addr sender_channel s.1.session (recipients addr sender_channel rest)

  unfoldable pub to_each : VoicePacketCode → List (SocketAddr × ℕ) → List Outgoing
  to_each code [] = []
  to_each code (r ∷ rest) = (r.0, r.1, code) ∷ to_each code rest

  unfoldable pub address_of : ℕ → List (ℕ × Slot fl) → Option SocketAddr
  address_of id [] = none
  address_of id (s ∷ rest) =
      if s.0 == id
      then elim s.1.session [ none ↦ none | some session ↦ some session.addr ]
      else address_of id rest

  unfoldable pub forwarded : ℕ → ℕ → Option SocketAddr → List Outgoing
  forwarded target_id timestamp none = []
  forwarded target_id timestamp (some addr) = (addr, target_id, pong target_id timestamp) ∷ []

  -- The answers to a code, in the order in which they are sent.
  unfoldable pub responses : ℕ → List ℕ → SocketAddr → VoicePacketCode → List Outgoing
  responses id username addr (hello token) =
      if has_key id clients then (addr, id, hello_ack) ∷ [] else []
  responses id username addr hello_ack = []
  responses id username addr (audio bytes claimed) =
      if is_muted id clients
      then []
      else if validate_opus_packet bytes
      then to_each (audio bytes (some username))
          (recipients addr (find_channel id clients) sessions)
      else []
  responses id username addr (ping timestamp) =
      to_each (ping timestamp) (recipients addr (find_channel id clients) sessions)
  responses id username addr (pong target_id timestamp) =
      if has_key target_id clients
      then forwarded target_id timestamp (address_of target_id sessions)
      else []

  -- What may be sent on a code: audio of a client that is not muted, under its own name, and probes
  -- to others in its channel; the answers to a hello and to a probe to one client alone.
  unfoldable pub MaySend : ℕ → List ℕ → SocketAddr → VoicePacketCode → Outgoing → Type 0
  MaySend id username addr (hello token) out = out ≡ (addr, id, hello_ack)
  MaySend id username addr hello_ack out = false ≡ true
  MaySend id username addr (audio bytes claimed) out =
      (same_addr out.0 addr ≡ false)
      × (find_channel out.1 clients ≡ find_channel id clients)
      × (is_muted id clients ≡ false)
      × (out.2 ≡ audio bytes (some username))
  MaySend id username addr (ping timestamp) out =
      (same_addr out.0 addr ≡ false)
      × (find_channel out.1 clients ≡ find_channel id clients)
      × (out.2 ≡ ping timestamp)
  MaySend id username addr (pong target_id timestamp) out =
      (out.1 ≡ target_id)
      × (address_of target_id sessions ≡ some out.0)
      × (out.2 ≡ pong target_id timestamp)
