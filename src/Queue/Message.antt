-- ===== src/Queue/Message.antt =====
-- `internal/queue/queue.go`: messages, recipients, settings, and the retry delay. A time counts
-- nanoseconds from Go's zero time, so 0 is the zero `time.Time`.
use mailezine.Prelude.{
  ℕ, zero, suc, ◌+◌, ◌-◌, ◌*◌, ◌/◌, ◌%◌, ◌^◌, Bool, true, false, List, [], ◌∷◌, if◌then◌else◌, ltb,
}
use mailezine.Prelude.Int.{ℤ, pos, positive_or, nonzero_or}
use mailezine.Bytes.{Bytes}

pub data State : Type 0 where
  submitted queued active delivered deferred bounced failed : State

pub data RecipientStatus : Type 0 where
  pending delivered bounced : RecipientStatus

pub record Recipient : Type 0 where
  pub address : Bytes
  pub status : RecipientStatus
  pub last_error : Bytes

abbrev pub Time : Type 0
Time = ℕ

pub record Message : Type 0 where
  pub id : ℕ
  pub from : Bytes
  pub recipients : List Recipient
  pub subject : Bytes
  pub blob_id : Bytes
  pub size : ℕ
  pub state : State
  pub attempts : ℕ
  pub max_attempts : ℕ
  pub next_attempt : Time
  pub last_error : Bytes
  pub created_at : Time
  pub updated_at : Time
  pub last_warning_at : Time
  pub owner : Bytes
  pub lease_until : Time

abbrev pub second : ℕ
second = 1_000_000_000

-- Seconds from Go's zero time to the unix epoch.
abbrev pub unix_epoch : ℕ
unix_epoch = 62_135_596_800

-- `uint64(t.Unix())`
unfoldable pub unix : Time → ℕ
unix t = (t / second + 2 ^ 64 - unix_epoch) % 2 ^ 64

-- `int64` of a 64-bit pattern, moved up by 2^63: it orders patterns as signed numbers.
unfoldable pub signed : ℕ → ℕ
signed u = (u + 2 ^ 63) % 2 ^ 64

-- `Options`; a duration is in nanoseconds.
pub record Options : Type 0 where
  pub max_attempts : ℤ
  pub base_retry : ℤ
  pub max_retry : ℤ
  pub delay_warning : ℤ
  pub claim_lease : ℤ
  pub terminal_retention : ℤ
  pub node_id : Bytes

-- What `New` keeps of the options: the settings of one manager.
pub record Config : Type 0 where
  pub max_attempts : ℕ
  pub base_retry : ℕ
  pub max_retry : ℕ
  pub delay_warning : ℤ
  pub lease : ℕ
  pub terminal_retention : ℤ
  pub node_id : Bytes

abbrev pub default_options : Options
default_options = record {
  max_attempts = pos 10;
  base_retry = pos (60 * second);
  max_retry = pos (86400 * second);
  delay_warning = pos (300 * second);
  claim_lease = pos (600 * second);
  terminal_retention = pos (604800 * second);
  node_id = [];
}

abbrev default_node : Bytes → Bytes → Bytes
default_node random [] = random
default_node random (b ∷ bs) = b ∷ bs

-- The settings that `New` leaves after its defaults; `random` is `kvlease.RandomNodeID()`.
unfoldable pub new : Bytes → Options → Config
new random o = record {
  max_attempts = positive_or o.max_attempts 10;
  base_retry = positive_or o.base_retry (60 * second);
  max_retry = positive_or o.max_retry (86400 * second);
  delay_warning = o.delay_warning;
  lease = positive_or o.claim_lease (600 * second);
  terminal_retention = nonzero_or o.terminal_retention (pos (604800 * second));
  node_id = default_node random o.node_id;
}

unfoldable pub is_terminal : State → Bool
is_terminal delivered = true
is_terminal bounced = true
is_terminal failed = true
is_terminal _ = false

abbrev pub is_active : State → Bool
is_active active = true
is_active _ = false

-- Where the due index holds a message.
unfoldable pub due_pos : Message → Time
due_pos m = if is_active m.state then m.lease_until else m.next_attempt

-- One round of the loop of `backoff`.
abbrev double_capped : ℕ → ℕ → ℕ
double_capped max_retry d = if ltb max_retry (d * 2) then max_retry else d * 2

-- The loop of `backoff` with `rounds` rounds left.
unfoldable pub backoff_loop : ℕ → ℕ → ℕ → ℕ
backoff_loop max_retry zero d = d
backoff_loop max_retry (suc rounds) d =
    let next = backoff_loop max_retry rounds (double_capped max_retry d) in
    if ltb d max_retry then next else d

-- `backoff`: `jitter` multiplies by the random factor.
unfoldable pub backoff : (ℕ → ℕ) → Config → ℕ → ℕ
unfolding backoff_loop
backoff jitter cfg attempt = jitter (backoff_loop cfg.max_retry (attempt - 1) cfg.base_retry)
