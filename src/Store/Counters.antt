-- ===== src/Store/Counters.antt =====
-- Counters of `internal/store/store.go`, `quota.go`: values of eight bytes that a transaction reads
-- and writes. The arithmetic wraps at 2^64, and a signed number is its 64-bit pattern.
use mailezine.Prelude.{ℕ, ◌+◌, ◌%◌, ◌^◌, [], ◌∷◌, Option, none, some, if◌then◌else◌, length, ◌==◌}
use mailezine.Bytes.{Bytes}
use mailezine.Store.Key.BigEndian.{be, be_value}
use mailezine.Store.Key.{counter_key, field_key, quota_key}
use mailezine.Store.Kv.{Kv, put_op}
use mailezine.Store.Txn.{TxnKv, Result, ok, err, corrupt, not_found, with_txn, ◌>>=◌}

-- `CollectionMailbox` and the rest.
abbrev pub collection_mailbox : ℕ
collection_mailbox = 1

abbrev pub collection_email : ℕ
collection_email = 2

-- `FieldMailboxModSeq`
abbrev pub field_mailbox_mod_seq : ℕ
field_mailbox_mod_seq = 0x7f

-- `beUint64`
abbrev pub be_uint64 : ℕ → Bytes
be_uint64 v = be 8 v

-- `beUint64Value`: missing or short values decode as zero.
unfoldable pub be_uint64_value : Option Bytes → ℕ
be_uint64_value none = 0
be_uint64_value (some b) = if length b == 8 then be_value 0 b else 0

-- `readCounter` of what the key holds: a missing one is zero.
unfoldable pub read_counter : Option Bytes → Result ℕ
read_counter none = ok 0
read_counter (some v) = if length v == 8 then ok (be_value 0 v) else err corrupt

-- `quotaValue`, as a 64-bit pattern.
unfoldable pub quota_value : Option Bytes → Result ℕ
quota_value none = ok 0
quota_value (some v) = if length v == 8 then ok (be_value 0 v) else err corrupt

-- `metaNext`
unfoldable pub meta_next : Option Bytes → Result ℕ
meta_next none = ok 0
meta_next (some v) = if length v == 8 then ok (be_value 0 v) else err corrupt

-- `blobRefValue`: here a missing key is an error.
unfoldable pub blob_ref_value : Option Bytes → Result ℕ
blob_ref_value none = err not_found
blob_ref_value (some v) = if length v == 8 then ok (be_value 0 v) else err corrupt

-- The next value of a counter.
abbrev pub next : ℕ → ℕ
next n = (n + 1) % 2 ^ 64

module _ (t : Kv) where
  -- A read and a write of one counter; the new value.
  unfoldable pub bump : Bytes → t.State → Result (ℕ × t.State)
  unfolding read_counter
  bump key s = do
    cur ← read_counter (t.get s key)
    ok (next cur, t.batch s (put_op key (be_uint64 (next cur)) ∷ []))

  -- The closure of `BumpMailboxModSeq`.
  unfoldable pub bump_mod_seq_txn : ℕ → ℕ → t.State → Result (ℕ × t.State)
  unfolding be_uint64_value
  bump_mod_seq_txn account_id mb_id s =
      let key = field_key account_id collection_mailbox mb_id field_mailbox_mod_seq in
      let mod_seq = next (be_uint64_value (t.get s key)) in
      ok (mod_seq, t.batch s (put_op key (be_uint64 mod_seq) ∷ []))

  -- The closure of `AddQuotaUsed`; `delta` is a 64-bit pattern.
  unfoldable pub add_quota_used_txn : ℕ → ℕ → t.State → Result (ℕ × t.State)
  unfolding quota_value
  add_quota_used_txn account_id delta s = do
    cur ← quota_value (t.get s (quota_key account_id))
    let nv = (cur + delta) % 2 ^ 64
    ok (nv, t.batch s (put_op (quota_key account_id) (be_uint64 nv) ∷ []))

module _ (db : TxnKv) where
  open db use {kv, ops}

  -- `NextCounter`
  unfoldable pub next_counter : ℕ → ℕ → Bytes → kv.State → Result ℕ × kv.State
  unfolding with_txn bump
  next_counter account_id kind sub s = with_txn db (bump ops (counter_key account_id kind sub)) s

  -- `CounterValue`
  unfoldable pub counter_value : ℕ → ℕ → Bytes → kv.State → Result ℕ
  unfolding read_counter
  counter_value account_id kind sub s = read_counter (kv.get s (counter_key account_id kind sub))

  -- `BumpMailboxModSeq`
  unfoldable pub bump_mailbox_mod_seq : ℕ → ℕ → kv.State → Result ℕ × kv.State
  unfolding with_txn bump_mod_seq_txn
  bump_mailbox_mod_seq account_id mb_id s = with_txn db (bump_mod_seq_txn ops account_id mb_id) s

  -- `AddQuotaUsed`
  unfoldable pub add_quota_used : ℕ → ℕ → kv.State → Result ℕ × kv.State
  unfolding with_txn add_quota_used_txn
  add_quota_used account_id delta s = with_txn db (add_quota_used_txn ops account_id delta) s

  -- `QuotaUsed`
  unfoldable pub quota_used : ℕ → kv.State → Result ℕ
  unfolding quota_value
  quota_used account_id s = quota_value (kv.get s (quota_key account_id))
