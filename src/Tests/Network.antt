-- ===== src/Tests/Network.antt =====
-- chat/src/network: the theorems on packets, sequence numbers and files, on small packets.
use why.Common.{
  ℕ, ◌+◌, ◌-◌, ◌*◌, ◌%◌, ◌^◌, ◌<◌, ◌≡◌, refl, arith, true, false, ltb, leb, if◌then◌else◌, none,
  some, List, [], ◌∷◌, ◌++◌, map, length, replicate, All, IsWord, All-replicate, to_be_bytes,
  length-to_be_bytes, length-append, be_bytes, length-be_bytes,
}
use why.Core.Outcome.{ok}
use why.Chat.Crypto.{SharedKeys, RexPacketStream, init_rex_stream}
use why.Chat.Network.{
  one_shot, stream, transmission_packet, counting, numbered_packet, payload, send_tcp, read_tcp,
}
use why.Chat.Network.Sent.{read_tcp-send_tcp_keys}
use why.Chat.Network.Receive.{
  Float32, Policy, CodeKind, text_message, metered, Connection, authenticated, last_seq, check_spam,
  check_text, check_rate, check_seq, take_credit, settled, paid, set_seq, active, has_rate,
  throttles_of, check_packet, client_seq_valid, invalid_seq, removed,
}
use why.Chat.Network.Replay.{Accepts, nothing, packet, check_packet_replayed}
use why.Chat.Network.Verdicts.{WithinLength, client_accepts}
use why.Chat.Files.{chunk, FileRead, bytes_read, read_error, chunks_read, send_file}
use why.Chat.Files.Transfer.{
  Sendable, received_file, sent_file, progress_of, receive_times, receive_times-send_file,
}
use why.Tests.Fixtures.{toy, toy_mac, toy_hkdf}
use why.Tests.Codecs.{
  numbers, number_codec, number_codec-serialize, greeting, greeting_codec, greeting_codec-serialize,
}

abbrev session_keys : SharedKeys
session_keys = (replicate 128 5, replicate 32 6)

-- Arithmetic on whole tokens, on which an overdrawn bucket stands at 0.
abbrev pub whole_tokens : Float32
whole_tokens = record {
  F32 = ℕ;
  add = λ a b. a + b;
  mul = λ a b. a * b;
  div = λ a b. a;
  sub = λ a b. a - b;
  neg = λ a. a;
  fmin = λ a b. if leb a b then a else b;
  fmax = λ a b. if leb a b then b else a;
  non_negative = λ a. ltb 0 a;
  zero_point_zero_zero_one = 1;
  one = 1;
  seconds = λ t. t;
  duration = λ a. 5;
}

abbrev policy : Policy whole_tokens
policy = record {
  spam_protection = true;
  max_message_length = 100;
  min_message_delay = 10;
  max_message_delay_violations = 3;
  max_packet_rate = 2;
  max_packet_burst = 20;
  max_packet_rate_violations = 4;
}

abbrev unprotected : Policy whole_tokens
unprotected = record {
  spam_protection = false;
  max_message_length = 100;
  min_message_delay = 10;
  max_message_delay_violations = 3;
  max_packet_rate = 2;
  max_packet_burst = 20;
  max_packet_rate_violations = 4;
}

abbrev client : Connection whole_tokens
client = authenticated (record {
  last_activity = 0;
  spam_violations = 0;
  credit = 10;
  refill = 0;
  throttles = 0;
  seq = 6;
})

-- A text, then a packet right after it.
two_accepted :
    Accepts whole_tokens policy client
      (7 ∷ 9 ∷ [])
      (check_packet whole_tokens policy 41 metered 9
        (check_packet whole_tokens policy 40 (text_message 5) 7 client).0).0
unfolding check_packet check_spam check_text check_rate check_seq take_credit settled paid last_seq
    set_seq active has_rate throttles_of
two_accepted = packet 40 (text_message 5) 7 0 refl (packet 41 metered 9 0 refl nothing)

check_packet_replayed_example :
    All
      (λ seq.
        (now : ℕ) (kind : CodeKind)
        → (check_packet whole_tokens policy now kind seq
            (check_packet whole_tokens policy 41 metered 9
              (check_packet whole_tokens policy 40 (text_message 5) 7 client).0).0).2
          ≡ removed false invalid_seq)
      (7 ∷ 9 ∷ [])
check_packet_replayed_example =
    check_packet_replayed whole_tokens policy client
      (check_packet whole_tokens policy 41 metered 9
        (check_packet whole_tokens policy 40 (text_message 5) 7 client).0).0
      (7 ∷ 9 ∷ []) two_accepted

short_text : WithinLength whole_tokens unprotected (text_message 100)
unfolding WithinLength
short_text = omega arith

below_seven : last_seq whole_tokens client < 7
unfolding last_seq
below_seven = omega arith

accepted_in_order : client_accepts 3 (4 ∷ 8 ∷ []) ≡ true
unfolding client_accepts client_seq_valid
accepted_in_order = refl

read_tcp-send_tcp_keys_example :
    (written data' : List ℕ) × (send_tcp toy toy_mac toy_hkdf true numbers number_codec
        (some [])
        []
        0
        (one_shot (some session_keys))
        (counting 4)
      ≡ ok (one_shot (some session_keys), counting 5, written))
    × (read_tcp toy toy_mac toy_hkdf true 2000000 []
          (one_shot (some session_keys))
          (written ++ greeting)
        ≡ ok (payload (one_shot (some session_keys)) data' greeting))
    × (number_codec.deserialize data' ≡ some 5)
unfolding numbered_packet
read_tcp-send_tcp_keys_example =
    read_tcp-send_tcp_keys toy toy_mac toy_hkdf true numbers number_codec 2000000 [] [] session_keys
      0 (counting 4) (to_be_bytes 5) greeting (All-replicate IsWord 128 5 (omega arith)) refl
      (number_codec-serialize 5 (omega arith)) (omega (arith, length-to_be_bytes 5))
      (omega (arith, length-to_be_bytes 5))

inside : 7 < length (transmission_packet greeting)
unfolding transmission_packet
inside = omega (
  arith,
  length-append (be_bytes 4 (length greeting % 2 ^ 32)) greeting,
  length-be_bytes 4 (length greeting % 2 ^ 32),
)

abbrev two_greetings : List FileRead
two_greetings = bytes_read greeting ∷ read_error ∷ bytes_read greeting ∷ []

greeting-Sendable : Sendable greeting_codec 2000000 7 greeting
unfolding Sendable
greeting-Sendable seq p = (
  to_be_bytes seq,
  greeting_codec-serialize seq p,
  omega (arith, length-to_be_bytes seq),
  omega (arith, length-to_be_bytes seq),
)

receive_times-send_file_example :
    (begin final : RexPacketStream) × (written : List ℕ) × (init_rex_stream toy toy_hkdf
        session_keys greeting
      ≡ ok (some begin))
    × (send_file toy toy_mac toy_hkdf true greeting_codec [] 7 two_greetings
          (stream begin)
          (counting 0)
          none
          0
        ≡ ok (sent_file (stream final) 2 written (progress_of 0 (chunks_read two_greetings))))
    × (receive_times toy toy_mac toy_hkdf true greeting_codec [] 2000000 2 (stream begin) 0 written
        ≡ ok (
            received_file
              (map (λ bytes. (7, chunk bytes)) (chunks_read two_greetings))
              (stream final)
              2
              []))
unfolding chunks_read
receive_times-send_file_example =
    receive_times-send_file toy toy_mac toy_hkdf true greeting_codec [] 2000000 session_keys
      greeting 7 two_greetings refl (All-replicate IsWord 128 5 (omega arith)) (omega arith)
      (greeting-Sendable, (greeting-Sendable, tt))
