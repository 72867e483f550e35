-- ===== src/Tests/Voice.antt =====
-- chat/src/network/voice/server.rs: three sessions, and packets for them.
use why.Common.{ℕ, ◌≡◌, ◌↔◌, refl, true, false, none, some, List, [], ◌∷◌, All}
use why.Chat.Voice.{
  SocketAddr, VoicePacket, audio, Session, Slot, tokens_match, valid_hello, voice_credit,
  received_seq, paid_session, with_throttled, counted, in_rate, police_rate, police_seq,
  police_session, police_slot, police,
}
use why.Chat.Voice.Tokens.{tokens_match_iff}
use why.Chat.Voice.Police.{
  Arrival, police_all, Ascending, NoToken, Kept, police_all-Ascending, police_all_unclaimed,
  police_all-from_host, from_host, handled,
}
use why.Chat.Voice.Relay.Opus.{validate_opus_packet}
use why.Chat.Voice.Relay.{
  Client, Outgoing, find_client, same_name, same_channel, recipient, recipients, to_each, MaySend,
  responses,
}
use why.Chat.Voice.Relay.Sends.{MustSend, responses_lem}
use why.Tests.Network.{whole_tokens}

abbrev here : SocketAddr
here = record { ip = 10; port = 4000 }

abbrev there : SocketAddr
there = record { ip = 11; port = 4000 }

abbrev alice : Session whole_tokens
alice = record {
  addr = here;
  id = 1;
  seq = 5;
  server_seq = 0;
  packet_accumulator = 0;
  credit = 3;
  refill = 0;
  throttled = false;
}

abbrev slot_of_alice : Slot whole_tokens
slot_of_alice = record { session = some alice; username = 97 ∷ []; token = 1 ∷ 2 ∷ [] }

abbrev unbound_slot : Slot whole_tokens
unbound_slot = record { session = none; username = 98 ∷ []; token = 3 ∷ 4 ∷ [] }

abbrev sound : VoicePacket
sound = record { id = 1; code = audio (0 ∷ []) none; seq = 6 }

abbrev arrivals : List Arrival
arrivals =
    record { now = 1; addr = there; packet = sound }
    ∷ record { now = 2; addr = here; packet = sound }
    ∷ []

no_token : All (NoToken (3 ∷ 4 ∷ [])) arrivals
unfolding NoToken valid_hello
no_token = (refl, (refl, tt))

abbrev token : List ℕ
token = 1 ∷ 2 ∷ []

abbrev guess : List ℕ
guess = 1 ∷ 3 ∷ []

tokens_match_iff_example : (tokens_match token guess ≡ true) ↔ (token ≡ guess)
tokens_match_iff_example = tokens_match_iff token guess refl

police_all-Ascending_example :
    Ascending whole_tokens 1 9 true
      (some alice)
      (police_all whole_tokens 1 9 true arrivals slot_of_alice).1
police_all-Ascending_example = police_all-Ascending whole_tokens 1 9 true arrivals slot_of_alice

police_all_unclaimed_example :
    Kept whole_tokens 1 9 true none
      (police_all whole_tokens 1 9 true arrivals unbound_slot).0.session
      (police_all whole_tokens 1 9 true arrivals unbound_slot).1
police_all_unclaimed_example =
    police_all_unclaimed whole_tokens 1 9 true arrivals unbound_slot no_token

tokenless : All (NoToken (1 ∷ 2 ∷ [])) arrivals
unfolding NoToken valid_hello
tokenless = (refl, (refl, tt))

-- Of the two packets only the one from the host of the session counts.
police_all-from_host_example :
    police_all whole_tokens 1 9 true arrivals slot_of_alice
    ≡ police_all whole_tokens 1 9 true (from_host 10 arrivals) slot_of_alice
police_all-from_host_example =
    police_all-from_host whole_tokens 1 9 true arrivals alice (97 ∷ []) (1 ∷ 2 ∷ []) tokenless

abbrev from_alice : List Arrival
from_alice = record { now = 2; addr = here; packet = sound } ∷ []

one_host : from_host 10 arrivals ≡ from_alice
unfolding from_host
one_host = refl

handled_once : (police_all whole_tokens 1 9 true arrivals slot_of_alice).1 ≡ 6 ∷ []
unfolding police_all police police_slot police_session police_seq police_rate in_rate counted
    with_throttled paid_session voice_credit received_seq valid_hello handled
handled_once = refl

abbrev bob : Session whole_tokens
bob = record {
  addr = there;
  id = 2;
  seq = 1;
  server_seq = 0;
  packet_accumulator = 0;
  credit = 3;
  refill = 0;
  throttled = false;
}

abbrev carol : Session whole_tokens
carol = record {
  addr = record { ip = 12; port = 4000 };
  id = 3;
  seq = 1;
  server_seq = 0;
  packet_accumulator = 0;
  credit = 3;
  refill = 0;
  throttled = false;
}

-- Alice and Bob are in the main channel, Carol is in another one.
abbrev clients : List Client
clients =
    record { id = 1; channel = none; muted = false }
    ∷ record { id = 2; channel = none; muted = false }
    ∷ record { id = 3; channel = some (99 ∷ []); muted = false }
    ∷ []

abbrev sessions : List (ℕ × Slot whole_tokens)
sessions =
    (1, slot_of_alice)
    ∷ (2, record { session = some bob; username = 98 ∷ []; token = 3 ∷ 4 ∷ [] })
    ∷ (3, record { session = some carol; username = 99 ∷ []; token = 5 ∷ 6 ∷ [] })
    ∷ []

abbrev to_bob : Outgoing
to_bob = (there, 2, audio (0 ∷ []) (some (97 ∷ [])))

-- What Alice says goes to Bob, and to nobody else.
heard_by_bob :
    responses whole_tokens clients sessions 1 (97 ∷ []) here (audio (0 ∷ []) none) ≡ to_bob ∷ []
unfolding responses recipients recipient to_each find_client same_channel same_name
    validate_opus_packet
heard_by_bob = refl

-- The same, by the theorem: what goes to Bob may, and Bob is the one that must be reached.
responses_lem_example :
    All (MaySend whole_tokens clients sessions 1 (97 ∷ []) here (audio (0 ∷ []) none)) (to_bob ∷ [])
    × MustSend whole_tokens clients sessions 1 (97 ∷ []) here (audio (0 ∷ []) none) (to_bob ∷ [])
unfolding responses recipients recipient to_each find_client same_channel same_name
    validate_opus_packet
responses_lem_example =
    responses_lem whole_tokens clients sessions 1 (97 ∷ []) here (audio (0 ∷ []) none)
