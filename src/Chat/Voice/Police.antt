-- ===== src/Chat/Voice/Police.antt =====
-- chat/src/network/voice/server.rs: who can use a session of the voice socket, and in which order.
use why.Common.{
  ℕ, ◌≤◌, ◌<◌, ◌≡◌, ◌⊎◌, inl, inr, refl, sym, ap, ◌∙◌, arith, Bool, true, false, leb, ◌==◌, ==_iff,
  if◌then◌else◌, Bool-cases, Option, none, some, List, [], ◌∷◌, All,
}
use why.Chat.Network.Receive.{Float32}
use why.Chat.Network.Replay.{Increasing}
use why.Chat.Voice.{
  SocketAddr, same_addr, VoicePacket, Session, Slot, Passed, ignored, passed, valid_hello,
  voice_credit, moved, received_seq, paid_session, with_throttled, counted, in_rate, police_rate,
  police_seq, police_session, bound, police_slot, police,
}

-- A packet that arrives: when, from where, and what.
pub record Arrival : Type 0 where
  pub now : ℕ
  pub addr : SocketAddr
  pub packet : VoicePacket

unfoldable pub NoToken : List ℕ → Arrival → Type 0
NoToken token a = valid_hello a.packet.code token ≡ false

-- The packets from one host.
unfoldable pub from_host : ℕ → List Arrival → List Arrival
from_host ip [] = []
from_host ip (a ∷ arrivals) =
    let rest = from_host ip arrivals in if ip == a.addr.ip then a ∷ rest else rest

-- The number of the packet where it is handled.
unfoldable pub handled : Passed → ℕ → List ℕ → List ℕ
handled ignored seq seqs = seqs
handled (passed reset) seq seqs = seq ∷ seqs

Increasing-lower :
    (low high : ℕ) (seqs : List ℕ) → low ≤ high → Increasing high seqs → Increasing low seqs
unfolding Increasing
Increasing-lower low high [] p v = tt
Increasing-lower low high (seq ∷ seqs) p v = (omega (arith, v.0), v.1)

handled-Increasing :
    (done : Passed) (low new seq : ℕ) (seqs : List ℕ)
    → ((new ≡ low) × (done ≡ ignored)) ⊎ ((low < seq) × (new ≡ seq))
    → Increasing new seqs
    → Increasing low (handled done seq seqs)
unfolding Increasing handled
handled-Increasing ignored low new seq seqs (inl (same, skipped)) v =
    Increasing-lower low new seqs (omega (arith, same)) v
handled-Increasing ignored low new seq seqs (inr (higher, last)) v =
    Increasing-lower low new seqs (omega (arith, higher, last)) v
handled-Increasing (passed reset) low new seq seqs (inl (same, skipped)) v = absurd cc
handled-Increasing (passed reset) low new seq seqs (inr (higher, last)) v =
    (higher, Increasing-lower seq new seqs (omega (arith, last)) v)

module _ (fl : Float32) (rate burst : fl.F32) (spam_protection : Bool) where
  -- The packets on one session, one after the other, under one policy: the session after them, and the
  -- numbers of those that are handled.
  unfoldable pub police_all : List Arrival → Slot fl → Slot fl × List ℕ
  police_all [] slot = (slot, [])
  police_all (a ∷ arrivals) slot =
      let done = police fl rate burst spam_protection a.now a.addr a.packet slot in
      let rest = police_all arrivals done.0 in (rest.0, handled done.1 a.packet.seq rest.1)

  -- What one packet may do to a bound session: it keeps its number and is not handled, or the number
  -- becomes that of the packet, which is higher.
  abbrev Advance : ℕ → Session fl → Session fl × Passed → Type 0
  Advance seq s done =
      ((done.0.seq ≡ s.seq) × (done.1 ≡ ignored)) ⊎ ((s.seq < seq) × (done.0.seq ≡ seq))

  police_rate-seq :
      (now : ℕ) (s : Session fl)
      → ((police_rate fl rate burst spam_protection now s).0.seq ≡ s.seq)
        × ((police_rate fl rate burst spam_protection now s).0.addr ≡ s.addr)
  unfolding police_rate in_rate counted with_throttled paid_session
  police_rate-seq now s = elim (Bool-cases spam_protection) [
    | inr off ↦ rw off (refl, refl)
    | inl on ↦ elim (Bool-cases (fl.non_negative (voice_credit fl rate burst now s))) [
      | inl paid ↦ rw (on, paid) (refl, refl)
      | inr over ↦ rw (on, over) (refl, refl)
    ]
  ]

  police_seq-Advance :
      (now seq : ℕ) (s : Session fl)
      → Advance seq s (police_seq fl rate burst spam_protection now seq s)
        × ((police_seq fl rate burst spam_protection now seq s).0.addr ≡ s.addr)
  unfolding police_seq received_seq
  police_seq-Advance now seq s = elim (Bool-cases (leb seq s.seq)) [
    | inl old ↦ rw old (inl (refl, refl), refl)
    | inr fresh ↦
        let (same, there) = police_rate-seq now (received_seq fl rate burst s seq) in
        rw fresh (inr (ground arith, same), there)
  ]

  -- After a packet the session is at the host where it was, unless the packet has the token.
  police_session_lem :
      (now seq : ℕ) (addr : SocketAddr) (greeted : Bool) (s : Session fl)
      → Advance seq s (police_session fl rate burst spam_protection now addr seq greeted s)
        × ((greeted ≡ true)
            ⊎ ((police_session fl rate burst spam_protection now addr seq greeted s).0.addr.ip
                ≡ s.addr.ip))
  unfolding police_session moved
  police_session_lem now seq addr greeted s =
      let here = police_seq-Advance now seq s in
      let there = police_seq-Advance now seq (moved fl rate burst s addr) in
      elim (Bool-cases (same_addr s.addr addr)) [
        | inl same ↦ rw same (here.0, inr (ap (λ (a : SocketAddr). a.ip) here.1))
        | inr other ↦ elim (Bool-cases greeted) [
          | inl known ↦ rw (other, known) (there.0, inl refl)
          | inr unknown ↦ elim (Bool-cases (s.addr.ip == addr.ip)) [
            | inl host ↦
                rw (other, unknown, host)
                  (
                    there.0,
                    inr (
                        ap (λ (a : SocketAddr). a.ip) there.1
                        ∙ sym ((==_iff s.addr.ip addr.ip).0 host)),
                  )
            | inr foreign ↦ rw (other, unknown, foreign) (inl (refl, refl), inr refl)
          ]
        ]
      ]

  -- Numbers that increase from the one of the session, or from the first packet of an unbound one.
  unfoldable pub Ascending : Option (Session fl) → List ℕ → Type 0
  Ascending none [] = Unit
  Ascending none (seq ∷ seqs) = Increasing seq seqs
  Ascending (some s) seqs = Increasing s.seq seqs

  police_all-bound :
      (arrivals : List Arrival) (s : Session fl) (username token : List ℕ)
      → Increasing s.seq
          (police_all arrivals (record { session = some s; username = username; token = token })).1
  unfolding police_all police police_slot Increasing
  police_all-bound [] s username token = tt
  police_all-bound (a ∷ arrivals) s username token =
      let done =
        police_session fl rate burst spam_protection a.now a.addr a.packet.seq
          (valid_hello a.packet.code token) s in
      let step =
        (police_session_lem a.now a.packet.seq a.addr (valid_hello a.packet.code token) s).0 in
      handled-Increasing done.1 s.seq done.0.seq a.packet.seq
        (police_all arrivals
          (record { session = some done.0; username = username; token = token })).1
        step (police_all-bound arrivals done.0 username token)

  police_all-open :
      (arrivals : List Arrival) (session : Option (Session fl)) (username token : List ℕ)
      → Ascending session
          (police_all arrivals (record { session = session; username = username; token = token })).1
  unfolding police_all police police_slot handled Ascending bound
  police_all-open [] none username token = tt
  police_all-open (a ∷ arrivals) none username token =
      elim (Bool-cases (valid_hello a.packet.code token)) [
        | inl known ↦
            rw known
              (police_all-bound arrivals (bound fl rate burst a.now a.addr a.packet) username token)
        | inr unknown ↦ rw unknown (police_all-open arrivals none username token)
      ]
  police_all-open arrivals (some s) username token = police_all-bound arrivals s username token

  -- Over any packets that arrive for a session, at any times and from any addresses: the numbers of
  -- those that are handled increase, from above the session's last one where it is bound. So no packet
  -- is handled twice.
  pub police_all-Ascending :
      (arrivals : List Arrival) (slot : Slot fl)
      → Ascending slot.session (police_all arrivals slot).1
  police_all-Ascending arrivals slot =
      police_all-open arrivals slot.session slot.username slot.token

  -- What is left of a session after packets without its token: an unbound one is unbound and nothing
  -- is handled, a bound one is at the same host.
  unfoldable pub Kept : Option (Session fl) → Option (Session fl) → List ℕ → Type 0
  Kept none after seqs = (after ≡ none) × (seqs ≡ [])
  Kept (some s) after seqs = (t : Session fl) × (after ≡ some t) × (t.addr.ip ≡ s.addr.ip)

  police_all-Kept :
      (arrivals : List Arrival) (session : Option (Session fl)) (username token : List ℕ)
      → All (NoToken token) arrivals
      → let slot : Slot fl = record { session = session; username = username; token = token } in
        Kept session (police_all arrivals slot).0.session (police_all arrivals slot).1
  unfolding police_all police police_slot handled Kept NoToken
  police_all-Kept [] none username token v = (refl, refl)
  police_all-Kept [] (some s) username token v = (s, refl, refl)
  police_all-Kept (a ∷ arrivals) none username token v =
      rw v.0 (police_all-Kept arrivals none username token v.1)
  police_all-Kept (a ∷ arrivals) (some s) username token v =
      let greeted = valid_hello a.packet.code token in
      let done = police_session fl rate burst spam_protection a.now a.addr a.packet.seq greeted s in
      let (t, found, host) = police_all-Kept arrivals (some done.0) username token v.1 in
      elim (police_session_lem a.now a.packet.seq a.addr greeted s).1 [
        | inl known ↦ absurd cc
        | inr same ↦ (t, found, host ∙ same)
      ]

  -- Packets without the token of a session, in any number and from any address, do not bind it where it
  -- is unbound, and none of them is handled; where it is bound, it stays at the host where it was.
  pub police_all_unclaimed :
      (arrivals : List Arrival) (slot : Slot fl)
      → All (NoToken slot.token) arrivals
      → Kept slot.session (police_all arrivals slot).0.session (police_all arrivals slot).1
  police_all_unclaimed arrivals slot v =
      police_all-Kept arrivals slot.session slot.username slot.token v

  police_session-foreign :
      (now seq : ℕ) (addr : SocketAddr) (s : Session fl)
      → (s.addr.ip == addr.ip) ≡ false
      → police_session fl rate burst spam_protection now addr seq false s ≡ (s, ignored)
  unfolding police_session
  police_session-foreign now seq addr s away = rw away refl

  police_session-host :
      (now seq : ℕ) (addr : SocketAddr) (s : Session fl)
      → (police_session fl rate burst spam_protection now addr seq false s).0.addr.ip ≡ s.addr.ip
  police_session-host now seq addr s = elim (police_session_lem now seq addr false s).1 [
    | inl known ↦ absurd cc
    | inr same ↦ same
  ]

  -- However packets without the token of a bound session are mixed with packets from its host, they make
  -- no difference where they come from other hosts: the session after all of them, with its number, its
  -- credit and its address, and the numbers that are handled, are those of the packets from the host
  -- alone. No packet of the sequence has the token.
  pub police_all-from_host :
      (arrivals : List Arrival) (s : Session fl) (username token : List ℕ)
      → All (NoToken token) arrivals
      → let slot : Slot fl = record { session = some s; username = username; token = token } in
        police_all arrivals slot ≡ police_all (from_host s.addr.ip arrivals) slot
  unfolding police_all police police_slot from_host handled NoToken
  police_all-from_host [] s username token v = refl
  police_all-from_host (a ∷ arrivals) s username token v =
      let done = police_session fl rate burst spam_protection a.now a.addr a.packet.seq false s in
      let next : Slot fl = record { session = some done.0; username = username; token = token } in
      let same = police_session-host a.now a.packet.seq a.addr s in
      elim (Bool-cases (s.addr.ip == a.addr.ip)) [
        | inl own ↦
            rw (own, v.0)
              (ap (λ (r : Slot fl × List ℕ). (r.0, handled done.1 a.packet.seq r.1))
                (police_all-from_host arrivals done.0 username token v.1
                  ∙ ap (λ (ip : ℕ). police_all (from_host ip arrivals) next) same))
        | inr away ↦
            rw (away, v.0, police_session-foreign a.now a.packet.seq a.addr s away)
              (police_all-from_host arrivals s username token v.1)
      ]
