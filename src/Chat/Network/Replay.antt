-- ===== src/Chat/Network/Replay.antt =====
-- chat/src/network/mod.rs: the sequence numbers of a connection over all its packets.
use why.Common.{
  ℕ, ◌-◌, ◌≤◌, ◌<◌, ◌≡◌, inl, inr, refl, sym, ap, ◌∙◌, arith, Bool, false, ◌&&◌, not, ltb,
  Bool-cases, if-either, List, [], ◌∷◌, All,
}
use why.Chat.Network.Receive.{
  Float32, Policy, CodeKind, text_message, unmetered, metered, Authenticated, Connection,
  authenticated, non_authenticated, Reason, invalid_seq, Verdict, accepted, removed, paid, settled,
  take_credit, last_seq, set_seq, active, check_text, check_spam, check_rate, check_seq,
  check_packet,
}

module _ (fl : Float32) where
  pub check_text-seq :
      (policy : Policy fl) (now length : ℕ) (conn : Connection fl)
      → last_seq fl (check_text fl policy now length conn).conn ≡ last_seq fl conn
  unfolding check_text active last_seq
  check_text-seq policy now length (non_authenticated seq last_activity) = refl
  check_text-seq policy now length (authenticated c) =
      let too_fast : Bool =
        not (ltb policy.max_message_length length)
        && policy.spam_protection
        && ltb (now - c.last_activity) policy.min_message_delay in
      elim (Bool-cases too_fast) [ inl e ↦ rw e refl | inr e ↦ rw e refl ]

  pub check_spam-seq :
      (policy : Policy fl) (now : ℕ) (kind : CodeKind) (conn : Connection fl)
      → last_seq fl (check_spam fl policy now kind conn).conn ≡ last_seq fl conn
  unfolding check_spam
  check_spam-seq policy now (text_message length) conn = check_text-seq policy now length conn
  check_spam-seq policy now unmetered conn = refl
  check_spam-seq policy now metered conn = refl

  settled-seq :
      (c : Authenticated fl) (now : ℕ) (used credit : fl.F32)
      → last_seq fl (settled fl c now used credit).0 ≡ c.seq
  unfolding settled paid last_seq
  settled-seq c now used credit = elim (Bool-cases (fl.non_negative credit)) [
    | inl e ↦ rw e refl
    | inr e ↦ rw e refl
  ]

  take_credit-seq :
      (now : ℕ) (conn : Connection fl) (per_second burst : fl.F32)
      → last_seq fl (take_credit fl now conn per_second burst).0 ≡ last_seq fl conn
  unfolding take_credit last_seq
  take_credit-seq now (non_authenticated seq last_activity) per_second burst = refl
  take_credit-seq now (authenticated c) per_second burst = settled-seq c now _ _

  check_rate-seq :
      (policy : Policy fl) (now : ℕ) (kind : CodeKind) (disconnect : Bool) (conn : Connection fl)
      → last_seq fl (check_rate fl policy now kind disconnect conn).0 ≡ last_seq fl conn
  unfolding check_rate
  check_rate-seq policy now kind disconnect conn =
      if-either (λ (k : Connection fl × ℕ × Bool). last_seq fl k.0) (last_seq fl conn) _ _ _
        (take_credit-seq now conn policy.max_packet_rate policy.max_packet_burst) refl

  pub last_seq-set_seq : (conn : Connection fl) (seq : ℕ) → last_seq fl (set_seq fl conn seq) ≡ seq
  unfolding last_seq set_seq
  last_seq-set_seq (authenticated c) seq = refl
  last_seq-set_seq (non_authenticated old last_activity) seq = refl

  check_seq-accepted :
      (seq : ℕ) (conn : Connection fl) (wait : ℕ) (disconnect : Bool) (reason : Reason) (w : ℕ)
      → (check_seq fl seq conn wait disconnect reason).1 ≡ accepted w
      → (last_seq fl conn < seq)
        × (last_seq fl (check_seq fl seq conn wait disconnect reason).0 ≡ seq)
  unfolding check_seq
  check_seq-accepted seq conn wait disconnect reason w e =
      elim (Bool-cases (ltb (last_seq fl conn) seq)) [
        | inl greater ↦ (ground arith, rw greater (last_seq-set_seq conn seq))
        | inr other ↦
            absurd
              (let refused : removed false invalid_seq ≡ accepted w = sym (rw other refl) ∙ e in cc)
      ]

  check_seq-refused :
      (seq : ℕ) (conn : Connection fl) (wait : ℕ) (disconnect : Bool) (reason : Reason)
      → seq ≤ last_seq fl conn
      → check_seq fl seq conn wait disconnect reason ≡ (conn, removed false invalid_seq)
  unfolding check_seq
  check_seq-refused seq conn wait disconnect reason p =
      let stale : ltb (last_seq fl conn) seq ≡ false = ground arith in rw stale refl

-- Numbers that increase, from above the first one on.
unfoldable pub Increasing : ℕ → List ℕ → Type 0
Increasing low [] = Unit
Increasing low (seq ∷ seqs) = (low < seq) × Increasing seq seqs

module _ (fl : Float32) (policy : Policy fl) where
  abbrev checked : ℕ → CodeKind → ℕ → Connection fl → Connection fl × Bool × Verdict
  checked now kind seq conn = check_packet fl policy now kind seq conn

  -- What comes before the sequence check leaves the number.
  before : ℕ → CodeKind → Connection fl → Connection fl
  before now kind conn =
      let first = check_spam fl policy now kind conn in
      (check_rate fl policy now kind first.disconnect first.conn).0

  before-seq :
      (now : ℕ) (kind : CodeKind) (conn : Connection fl)
      → last_seq fl (before now kind conn) ≡ last_seq fl conn
  unfolding before
  before-seq now kind conn =
      let first = check_spam fl policy now kind conn in
      check_rate-seq fl policy now kind first.disconnect first.conn
      ∙ check_spam-seq fl policy now kind conn

  accepted-seq :
      (now : ℕ) (kind : CodeKind) (seq : ℕ) (conn : Connection fl) (wait : ℕ)
      → (checked now kind seq conn).2 ≡ accepted wait
      → (last_seq fl conn < seq) × (last_seq fl (checked now kind seq conn).0 ≡ seq)
  unfolding check_packet before
  accepted-seq now kind seq conn wait e =
      let both = check_seq-accepted fl seq (before now kind conn) _ _ _ wait e in
      (omega (arith, both.0, before-seq now kind conn), both.1)

  stale-removed :
      (now : ℕ) (kind : CodeKind) (seq : ℕ) (conn : Connection fl)
      → seq ≤ last_seq fl conn
      → (checked now kind seq conn).2 ≡ removed false invalid_seq
  unfolding check_packet before
  stale-removed now kind seq conn p =
      ap (λ r. r.1)
        (check_seq-refused fl seq (before now kind conn) _ _ _
          (omega (arith, p, before-seq now kind conn)))

  -- The packets that are accepted one after the other, at any times and of any kinds, by their numbers.
  pub data Accepts : Connection fl → List ℕ → Connection fl → Type 0 where
    nothing : {conn : Connection fl} → Accepts conn [] conn
    packet :
        {conn last : Connection fl} {seqs : List ℕ} (now : ℕ) (kind : CodeKind) (seq wait : ℕ)
        → (checked now kind seq conn).2 ≡ accepted wait
        → Accepts (checked now kind seq conn).0 seqs last
        → Accepts conn (seq ∷ seqs) last

  Accepts-bounds :
      (conn last : Connection fl) (seqs : List ℕ)
      → Accepts conn seqs last
      → Increasing (last_seq fl conn) seqs
        × (last_seq fl conn ≤ last_seq fl last)
        × All (λ seq. seq ≤ last_seq fl last) seqs
  unfolding Increasing
  Accepts-bounds conn last _ nothing = (tt, omega arith, tt)
  Accepts-bounds conn last _ (packet {seqs = seqs} now kind seq wait e rest) =
      let one = accepted-seq now kind seq conn wait e in
      let (up, high, all) = Accepts-bounds (checked now kind seq conn).0 last seqs rest in
      (
        (one.0, rw one.1 at up),
        omega (arith, one.0, one.1, high),
        (omega (arith, one.1, high), all),
      )

  -- Over any packets that the server accepts one after the other on a connection, at any times, of any
  -- kinds and under any policy: their numbers increase, from above the connection's first one.
  pub Accepts-Increasing :
      (conn last : Connection fl) (seqs : List ℕ)
      → Accepts conn seqs last
      → Increasing (last_seq fl conn) seqs
  Accepts-Increasing conn last seqs run = (Accepts-bounds conn last seqs run).0

  replayed_from :
      (last : Connection fl) (seqs : List ℕ)
      → All (λ seq. seq ≤ last_seq fl last) seqs
      → All
          (λ seq.
            (now : ℕ) (kind : CodeKind) → (checked now kind seq last).2 ≡ removed false invalid_seq)
          seqs
  replayed_from last [] v = tt
  replayed_from last (seq ∷ seqs) v =
      (λ now kind. stale-removed now kind seq last v.0, replayed_from last seqs v.1)

  -- A packet with a number that was accepted before on a connection, however long ago, is never
  -- accepted again: whenever it is sent and whatever it holds, the connection is removed at once.
  pub check_packet_replayed :
      (conn last : Connection fl) (seqs : List ℕ)
      → Accepts conn seqs last
      → All
          (λ seq.
            (now : ℕ) (kind : CodeKind) → (checked now kind seq last).2 ≡ removed false invalid_seq)
          seqs
  check_packet_replayed conn last seqs run =
      replayed_from last seqs (Accepts-bounds conn last seqs run).2
