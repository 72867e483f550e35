-- ===== src/Chat/Voice.antt =====
-- chat/src/network/voice/server.rs: the sessions of the voice socket. The list of connections is a list
-- of sessions with their ids, the list of the main connections one of clients. A time is a number of
-- milliseconds, and the rate and the burst, which are constants of type `f32`, are arguments.
pub mod Tokens
pub mod Police
pub mod Relay
use why.Common.{
  ℕ, ◌+◌, ◌-◌, ◌*◌, ◌%◌, Bool, true, false, ◌&&◌, ◌||◌, not, ltb, leb, ◌==◌, if◌then◌else◌, bit_or,
  bit_xor, Option, none, some, List, [], ◌∷◌, length, wrapping_add,
}
use why.Core.Auth.{same_bytes}
use why.Chat.Network.Receive.{Float32}

abbrev activity_treshold : ℕ
activity_treshold = 100

-- An address: its host and its port.
pub record SocketAddr : Type 0 where
  pub ip : ℕ
  pub port : ℕ

abbrev pub same_addr : SocketAddr → SocketAddr → Bool
same_addr a b = a.ip == b.ip && a.port == b.port

pub data VoicePacketCode : Type 0 where
  hello : List ℕ → VoicePacketCode
  hello_ack : VoicePacketCode
  audio : List ℕ → Option (List ℕ) → VoicePacketCode
  ping : ℕ → VoicePacketCode
  pong : ℕ → ℕ → VoicePacketCode

pub record VoicePacket : Type 0 where
  pub id : ℕ
  pub code : VoicePacketCode
  pub seq : ℕ

-- A bound session.
pub record Session (fl : Float32) : Type 0 where
  pub addr : SocketAddr
  pub id : ℕ
  pub seq : ℕ
  pub server_seq : ℕ
  pub packet_accumulator : ℕ
  pub credit : fl.F32
  pub refill : ℕ
  pub throttled : Bool

-- A place in the list, which `open_connection` makes and a hello binds.
pub record Slot (fl : Float32) : Type 0 where
  pub session : Option (Session fl)
  pub username : List ℕ
  pub token : List ℕ

-- Whether a packet is ignored, or handled; then whether the timer of the main connection is reset.
pub data Passed : Type 0 where
  ignored : Passed
  passed : Bool → Passed

-- The fold of `tokens_match`.
unfoldable pub token_difference : ℕ → List ℕ → List ℕ → ℕ
token_difference acc [] ys = acc
token_difference acc (x ∷ xs) [] = acc
token_difference acc (x ∷ xs) (y ∷ ys) = token_difference (bit_or acc (bit_xor x y)) xs ys

unfoldable pub tokens_match : List ℕ → List ℕ → Bool
tokens_match a b = token_difference 0 a b == 0

unfoldable pub valid_hello : VoicePacketCode → List ℕ → Bool
valid_hello (hello token) expected = tokens_match token expected
valid_hello hello_ack expected = false
valid_hello (audio bytes username) expected = false
valid_hello (ping timestamp) expected = false
valid_hello (pong target_id timestamp) expected = false

module _ (fl : Float32) (rate burst : fl.F32) where
  unfoldable pub open_connection : List ℕ → List ℕ → Slot fl
  open_connection username token = record { session = none; username = username; token = token }

  abbrev with_session : Slot fl → Session fl → Slot fl
  with_session slot s = record { session = some s; username = slot.username; token = slot.token }

  unfoldable pub moved : Session fl → SocketAddr → Session fl
  moved s addr = record {
    addr = addr;
    id = s.id;
    seq = s.seq;
    server_seq = s.server_seq;
    packet_accumulator = s.packet_accumulator;
    credit = s.credit;
    refill = s.refill;
    throttled = s.throttled;
  }

  unfoldable pub received_seq : Session fl → ℕ → Session fl
  received_seq s seq = record {
    addr = s.addr;
    id = s.id;
    seq = seq;
    server_seq = s.server_seq;
    packet_accumulator = s.packet_accumulator;
    credit = s.credit;
    refill = s.refill;
    throttled = s.throttled;
  }

  -- `take_credit`, when the bucket is looked at; the credit that is left.
  unfoldable pub voice_credit : ℕ → Session fl → fl.F32
  voice_credit now s =
      fl.sub (fl.fmin (fl.add s.credit (fl.mul (fl.seconds (now - s.refill)) rate)) burst) fl.one

  unfoldable pub paid_session : ℕ → Session fl → Session fl
  paid_session now s = record {
    addr = s.addr;
    id = s.id;
    seq = s.seq;
    server_seq = s.server_seq;
    packet_accumulator = s.packet_accumulator;
    credit = voice_credit now s;
    refill = now;
    throttled = s.throttled;
  }

  unfoldable pub with_throttled : Session fl → Bool → Session fl
  with_throttled s throttled = record {
    addr = s.addr;
    id = s.id;
    seq = s.seq;
    server_seq = s.server_seq;
    packet_accumulator = s.packet_accumulator;
    credit = s.credit;
    refill = s.refill;
    throttled = throttled;
  }

  -- The activity timer: the count, and whether the timer is reset.
  unfoldable pub counted : Session fl → Session fl × Bool
  counted s =
      let count = wrapping_add s.packet_accumulator 1 in
      let reset = leb activity_treshold count in
      (
        record {
          addr = s.addr;
          id = s.id;
          seq = s.seq;
          server_seq = s.server_seq;
          packet_accumulator = if reset then 0 else count;
          credit = s.credit;
          refill = s.refill;
          throttled = s.throttled;
        },
        reset,
      )

  -- A packet that is not over the rate.
  unfoldable pub in_rate : Session fl → Session fl × Passed
  in_rate s = let done = counted (with_throttled s false) in (done.0, passed done.1)

  unfoldable pub police_rate : Bool → ℕ → Session fl → Session fl × Passed
  police_rate spam_protection now s =
      if spam_protection
      then (if fl.non_negative (voice_credit now s)
          then in_rate (paid_session now s)
          else (with_throttled (paid_session now s) true, ignored))
      else in_rate s

  -- The number, then the rate.
  unfoldable pub police_seq : Bool → ℕ → ℕ → Session fl → Session fl × Passed
  police_seq spam_protection now seq s =
      if leb seq s.seq then (s, ignored) else police_rate spam_protection now (received_seq s seq)

  -- The address first.
  unfoldable pub police_session :
      Bool → ℕ → SocketAddr → ℕ → Bool → Session fl → Session fl × Passed
  police_session spam_protection now addr seq greeted s =
      if same_addr s.addr addr
      then police_seq spam_protection now seq s
      else if greeted || s.addr.ip == addr.ip
      then police_seq spam_protection now seq (moved s addr)
      else (s, ignored)

  unfoldable pub bound : ℕ → SocketAddr → VoicePacket → Session fl
  bound now addr received = record {
    addr = addr;
    id = received.id;
    seq = received.seq;
    server_seq = 0;
    packet_accumulator = 0;
    credit = burst;
    refill = now;
    throttled = false;
  }

  unfoldable pub police_slot :
      Bool → ℕ → SocketAddr → VoicePacket → Slot fl → Option (Session fl) → Slot fl × Passed
  police_slot spam_protection now addr received slot none =
      if valid_hello received.code slot.token
      then (with_session slot (bound now addr received), passed false)
      else (slot, ignored)
  police_slot spam_protection now addr received slot (some s) =
      let done =
        police_session spam_protection now addr received.seq (valid_hello received.code slot.token)
          s in
      (with_session slot done.0, done.1)

  -- What the loop does with a packet before it looks at the code.
  unfoldable pub police : Bool → ℕ → SocketAddr → VoicePacket → Slot fl → Slot fl × Passed
  police spam_protection now addr received slot =
      police_slot spam_protection now addr received slot slot.session
