-- ===== src/Chat/Network/Receive.antt =====
-- chat/src/network/mod.rs, `receive`, and `take_credit` of chat/src/network/server/connection.rs: what
-- the server checks of a decoded packet, and what the client does. The arithmetic of `f32` is the
-- operations of `Float32`. A time is a number of milliseconds, and one call of `receive` sees one time.
use why.Common.{ℕ, ◌-◌, Bool, true, false, ◌&&◌, ◌||◌, not, ltb, ◌==◌, if◌then◌else◌, wrapping_add}

pub record Float32 : Type 1 where
  pub F32 : Type 0
  pub add : F32 → F32 → F32
  pub mul : F32 → F32 → F32
  pub div : F32 → F32 → F32
  pub sub : F32 → F32 → F32
  pub neg : F32 → F32
  pub fmin : F32 → F32 → F32
  pub fmax : F32 → F32 → F32
  pub non_negative : F32 → Bool
  pub zero_point_zero_zero_one : F32
  pub one : F32
  -- `as_secs_f32` of a time that has passed, and `Duration::from_secs_f32`.
  pub seconds : ℕ → F32
  pub duration : F32 → ℕ

-- The configuration that `receive` reads.
pub record Policy (fl : Float32) : Type 0 where
  pub spam_protection : Bool
  pub max_message_length : ℕ
  pub min_message_delay : ℕ
  pub max_message_delay_violations : ℕ
  pub max_packet_rate : fl.F32
  pub max_packet_burst : fl.F32
  pub max_packet_rate_violations : ℕ

-- What the checks look at of a packet's code: a chat text and its length in bytes, a code without a
-- rate, or another code.
pub data CodeKind : Type 0 where
  text_message : ℕ → CodeKind
  unmetered : CodeKind
  metered : CodeKind

-- A connection that has logged in.
pub record Authenticated (fl : Float32) : Type 0 where
  pub last_activity : ℕ
  pub spam_violations : ℕ
  pub credit : fl.F32
  pub refill : ℕ
  pub throttles : ℕ
  pub seq : ℕ

-- The fields of `Connection` that `receive` reads and writes.
pub data Connection (fl : Float32) : Type 0 where
  authenticated : Authenticated fl → Connection fl
  non_authenticated : ℕ → ℕ → Connection fl

-- Why a connection is removed, which is said on the console.
pub data Reason : Type 0 where
  spam : Reason
  packet_rate : Reason
  invalid_seq : Reason

-- `accepted` holds the time to wait before the packet is handled.
pub data Verdict : Type 0 where
  accepted : ℕ → Verdict
  removed : Bool → Reason → Verdict

-- Whether the rate is checked: it is not of keepalives and of key exchanges.
unfoldable pub has_rate : CodeKind → Bool
has_rate (text_message length) = true
has_rate unmetered = false
has_rate metered = true

module _ (fl : Float32) where
  open fl use {
    F32, add, mul, div, sub, neg, fmin, fmax, non_negative, zero_point_zero_zero_one, one, seconds,
    duration,
  }

  unfoldable pub paid : Authenticated fl → ℕ → F32 → ℕ → Connection fl
  paid c now credit throttles = authenticated (record {
    last_activity = c.last_activity;
    spam_violations = c.spam_violations;
    credit = credit;
    refill = now;
    throttles = throttles;
    seq = c.seq;
  })

  -- What `take_credit` does with the credit that is left.
  unfoldable pub settled : Authenticated fl → ℕ → F32 → F32 → Connection fl × ℕ
  settled c now used credit =
      if non_negative credit
      then (paid c now credit 0, 0)
      else (paid c now credit (wrapping_add c.throttles 1), duration (div (neg credit) used))

  -- `take_credit`: the connection after it, and the time to wait.
  unfoldable pub take_credit : ℕ → Connection fl → F32 → F32 → Connection fl × ℕ
  take_credit now (non_authenticated seq last_activity) rate burst =
      (non_authenticated seq last_activity, 0)
  take_credit now (authenticated c) rate burst =
      let used = fmax rate zero_point_zero_zero_one in
      settled c now used
        (sub (fmin (add c.credit (mul (seconds (now - c.refill)) used)) (fmax burst one)) one)

  unfoldable pub last_seq : Connection fl → ℕ
  last_seq (authenticated c) = c.seq
  last_seq (non_authenticated seq last_activity) = seq

  unfoldable pub set_seq : Connection fl → ℕ → Connection fl
  set_seq (authenticated c) seq = authenticated (record {
    last_activity = c.last_activity;
    spam_violations = c.spam_violations;
    credit = c.credit;
    refill = c.refill;
    throttles = c.throttles;
    seq = seq;
  })
  set_seq (non_authenticated old last_activity) seq = non_authenticated seq last_activity

  -- `conn.throttles().copied().unwrap_or(0)`
  unfoldable pub throttles_of : Connection fl → ℕ
  throttles_of (authenticated c) = c.throttles
  throttles_of (non_authenticated seq last_activity) = 0

  unfoldable pub active : Authenticated fl → ℕ → ℕ → Connection fl
  active c now spam_violations = authenticated (record {
    last_activity = now;
    spam_violations = spam_violations;
    credit = c.credit;
    refill = c.refill;
    throttles = c.throttles;
    seq = c.seq;
  })

  -- The spam check: the connection, whether a warning is sent, and whether the client is cut off.
  pub record SpamCheck : Type 0 where
    pub conn : Connection fl
    pub spam_warning : Bool
    pub disconnect : Bool

  unfoldable pub check_text : Policy fl → ℕ → ℕ → Connection fl → SpamCheck
  check_text policy now length (non_authenticated seq last_activity) = record {
    conn = non_authenticated seq now;
    spam_warning = false;
    disconnect = ltb policy.max_message_length length;
  }
  check_text policy now length (authenticated c) =
      let too_long = ltb policy.max_message_length length in
      let violations : ℕ = wrapping_add c.spam_violations 1 in
      if not too_long
        && policy.spam_protection
        && ltb (now - c.last_activity) policy.min_message_delay
      then record {
        conn = active c now violations;
        spam_warning = true;
        disconnect = ltb policy.max_message_delay_violations violations;
      }
      else record {
        conn = active c now c.spam_violations;
        spam_warning = false;
        disconnect = too_long;
      }

  unfoldable pub check_spam : Policy fl → ℕ → CodeKind → Connection fl → SpamCheck
  check_spam policy now (text_message length) conn = check_text policy now length conn
  check_spam policy now unmetered conn = record {
    conn = conn;
    spam_warning = false;
    disconnect = false;
  }
  check_spam policy now metered conn = record {
    conn = conn;
    spam_warning = false;
    disconnect = false;
  }

  -- The rate check: the connection, the time to wait, and whether the client floods.
  unfoldable pub check_rate :
      Policy fl → ℕ → CodeKind → Bool → Connection fl → Connection fl × ℕ × Bool
  check_rate policy now kind disconnect conn =
      let taken = take_credit now conn policy.max_packet_rate policy.max_packet_burst in
      if not disconnect && policy.spam_protection && has_rate kind
      then (
        taken.0,
        taken.1,
        not (taken.1 == 0) && ltb policy.max_packet_rate_violations (throttles_of taken.0),
      )
      else (conn, 0, false)

  -- The sequence check, which is also made of a connection that is cut off.
  unfoldable pub check_seq : ℕ → Connection fl → ℕ → Bool → Reason → Connection fl × Verdict
  check_seq seq conn wait disconnect reason =
      if ltb (last_seq conn) seq
      then (set_seq conn seq, (if disconnect then removed true reason else accepted wait))
      else (conn, removed false invalid_seq)

  -- The checks of `receive` on the server, on a connection that is in the list: the connection after
  -- them, whether a warning is sent, and the verdict.
  unfoldable pub check_packet :
      Policy fl → ℕ → CodeKind → ℕ → Connection fl → Connection fl × Bool × Verdict
  check_packet policy now kind seq conn =
      let first = check_spam policy now kind conn in
      let second = check_rate policy now kind first.disconnect first.conn in
      let last =
        check_seq seq second.0 second.1 (first.disconnect || second.2)
          (if second.2 then packet_rate else spam) in
      (last.0, first.spam_warning, last.1)

-- `receive` on the client: whether a packet is valid beside the last number.
unfoldable pub client_seq_valid : ℕ → ℕ → Bool → Bool
client_seq_valid used_seq seq is_disconnect = ltb used_seq seq || used_seq == 0 || is_disconnect
