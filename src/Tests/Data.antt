-- ===== src/Tests/Data.antt =====
-- Inputs for the tests of `internal/queue`.
use mailezine.Prelude.{Bool, ℕ, List, [], ◌∷◌, Option, some}
use mailezine.Prelude.Int.{pos}
use mailezine.Bytes.{Bytes}
use mailezine.Store.Key.{codes}
use mailezine.Queue.Message.{queued, delivered, active, RecipientStatus, Recipient, Message, Config}
use mailezine.Queue.Spool.{Spool}
use mailezine.Queue.Outcome.{Delivery, replies, transport_error}

abbrev pub node_a : Config
node_a = record {
  max_attempts = 2;
  base_retry = 60;
  max_retry = 86400;
  delay_warning = pos 300;
  lease = 600;
  terminal_retention = pos 1000;
  node_id = codes "a";
}

abbrev pub node_b : Config
node_b = record node_a { node_id = codes "b" }

abbrev pub bob : Recipient
bob = record { address = codes "bob"; status = RecipientStatus.pending; last_error = [] }

abbrev pub eve : Recipient
eve = record { address = codes "eve"; status = RecipientStatus.delivered; last_error = [] }

abbrev pub letter : Message
letter = record {
  id = 1;
  from = codes "ann";
  recipients = bob ∷ eve ∷ [];
  subject = codes "hi";
  blob_id = codes "q-1";
  size = 10;
  state = queued;
  attempts = 0;
  max_attempts = 2;
  next_attempt = 50;
  last_error = [];
  created_at = 50;
  updated_at = 50;
  last_warning_at = 0;
  owner = [];
  lease_until = 0;
}

-- On its second attempt, which is its last.
abbrev pub second_try : Message
second_try = record letter { attempts = 1 }

-- Taken by a node that is gone, with no attempts left.
abbrev pub abandoned : Message
abandoned = record letter { state = active; attempts = 2; owner = codes "c"; lease_until = 90 }

abbrev pub sent : Message
sent = record letter { state = delivered; updated_at = 60 }

abbrev pub holding : Message → Spool
holding m = record { rows = (1, m) ∷ []; due = []; counter = 1 }

abbrev pub body_of : Bytes → Option Bytes
body_of name = some (codes "text")

abbrev pub refused : Bytes → List Bytes → Bytes → Delivery
refused from to body = replies (
    record { to = codes "bob"; ok = Bool.false; permanent = Bool.true; error = some (codes "no") }
    ∷ [])

abbrev pub down : Bytes → List Bytes → Bytes → Delivery
down from to body = transport_error (codes "down")

abbrev pub steady : ℕ → ℕ
steady d = d
